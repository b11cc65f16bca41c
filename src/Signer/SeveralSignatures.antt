-- ===== src/Signer/SeveralSignatures.antt =====
-- What the signatures of a request for several are over: each is of the entry at its index.
use dirk.Rules.Env.{Env}
use dirk.Go
use dirk.Go.{bytes_of, ok, err, Bytes, Go, Run, ◌>>=◌, pure, ret, ret-inj}
use dirk.Core
use dirk.Rules.Types
use dirk.Rules.Types.{unknown, approved, denied, failed}
use dirk.Ruler.{Credentials, Action, RulesData}
use dirk.Signer.Services.{Services}
use dirk.Signer.Account.{Step, go_on, refuse, pre_check}
use dirk.Signer.Root.{generate_signing_root}
use dirk.Signer.Single.{signed_root, Signed, without}
use dirk.Signer.Signature.{SignedBy, signed_root-SignedBy}
use dirk.Signer.Several.{
  Datum, Entry, refused, passed, head?, tail, sign_entries, sign_one, sign_approved, cons_signed,
  results_and_signatures, after_rules_results, entry_of, pre_check_all,
}
use dirk.Go.{bind-inv}
use dirk.Prelude.{◌∙◌, ℕ, ◌≡◌, refl, sym, ap, subst, Option, none, some, List, [], ◌∷◌, map, String}

-- Each signature is of the name and the public key, and of the request, at its index.
abbrev pub EachSigned :
    {R : Type 0}
    → (String → Option Bytes → R → Bytes → Type 0)
    → List (String × Option Bytes)
    → List R
    → List (Option Bytes)
    → Type 0
EachSigned P es rs [] = Unit
EachSigned P es rs (none ∷ sigs) = EachSigned P (tail es) (tail rs) sigs
EachSigned P [] rs (some s ∷ sigs) = ⊥
EachSigned P (e ∷ es) [] (some s ∷ sigs) = ⊥
EachSigned P (e ∷ es) (r ∷ rs) (some s ∷ sigs) = P e.0 e.1 r s × EachSigned P es rs sigs

module _ (S : Services) where
  -- A signature of an entry that has passed the first checks, over its datum.
  pub record EntrySigned (w : S.World) (entry : Option (Entry S)) (datum : Option Datum)
      (signature : Bytes) : Type 0 where
    pub account : S.Account
    pub rules : RulesData
    pub is_entry : entry ≡ some (passed account rules)
    pub signed : Datum
    pub is_datum : datum ≡ some signed
    pub by : SignedBy S account signed.root signed.domain w signature

  abbrev pub EntriesSigned : S.World → List (Entry S) → List Datum → List (Option Bytes) → Type 0
  EntriesSigned w entries ds [] = Unit
  EntriesSigned w entries ds (none ∷ sigs) = EntriesSigned w (tail entries) (tail ds) sigs
  EntriesSigned w entries ds (some s ∷ sigs) =
      EntrySigned w (head? entries) (head? ds) s × EntriesSigned w (tail entries) (tail ds) sigs

  none_signed :
      (w : S.World) (results : List Core.Result) (entries : List (Entry S)) (ds : List Datum)
      → EntriesSigned w entries ds (map (λ (y : Signed). y.1) (map without results))
  none_signed w [] entries ds = tt
  none_signed w (x ∷ results) entries ds = none_signed w results (tail entries) (tail ds)

module _ (S : Services) (E : Env) (admin_ips : List String) (procs : ℕ) where
  sign_approved-SignedBy :
      (w : S.World) (account : S.Account) (datum : Datum) (r : Core.Result) (s : Bytes)
      → sign_approved S E admin_ips procs w account datum ≡ (r, some s)
      → SignedBy S account datum.root datum.domain w s
  unfolding sign_approved
  sign_approved-SignedBy w account datum r s h = from datum.root refl h
    where
      from :
          (g : Go.Result Bytes)
          → datum.root ≡ g
          → (elim g as (λ x. Signed) [
            | err e ↦ without Core.result_failed
            | ok root ↦
                signed_root S E admin_ips procs account w
                  (generate_signing_root S root (bytes_of datum.domain))
          ])
            ≡ (r, some s)
          → SignedBy S account datum.root datum.domain w s
      from (err e) is q = cc
      from (ok root) is q =
          subst (λ z. SignedBy S account z datum.domain w s) (sym is)
            (signed_root-SignedBy S E admin_ips procs account root datum.domain w r s q)

  sign_one-EntrySigned :
      (w : S.World) (x : Types.Result) (entry : Option (Entry S)) (datum : Option Datum)
      (r : Core.Result) (s : Bytes)
      → sign_one S E admin_ips procs w x entry datum ≡ ret (r, some s)
      → EntrySigned S w entry datum s
  unfolding sign_one
  sign_one-EntrySigned w unknown entry datum r s h = cc
  sign_one-EntrySigned w denied entry datum r s h = cc
  sign_one-EntrySigned w failed entry datum r s h = cc
  sign_one-EntrySigned w approved none datum r s h = cc
  sign_one-EntrySigned w approved (some e) none r s h = cc
  sign_one-EntrySigned w approved (some (refused q)) (some datum) r s h = cc
  sign_one-EntrySigned w approved (some (passed account rd)) (some datum) r s h = record {
    account = account;
    rules = rd;
    is_entry = refl;
    signed = datum;
    is_datum = refl;
    by = sign_approved-SignedBy w account datum r s (ret-inj h);
  }

  cons-EntriesSigned :
      (w : S.World) (entries : List (Entry S)) (ds : List Datum) (y : Signed)
      (rest : List (Option Bytes))
      → ((r : Core.Result) (s : Bytes)
          → y ≡ (r, some s)
          → EntrySigned S w (head? entries) (head? ds) s)
      → EntriesSigned S w (tail entries) (tail ds) rest
      → EntriesSigned S w entries ds (y.1 ∷ rest)
  cons-EntriesSigned w entries ds (r, none) rest one h = h
  cons-EntriesSigned w entries ds (r, some s) rest one h = (one r s refl, h)

  -- The loop after the rules.
  sign_entries-Signed :
      (w : S.World) (rs : List Types.Result) (entries : List (Entry S)) (ds : List Datum)
      (results : List Core.Result) (ys : List Signed)
      → sign_entries S E admin_ips procs w rs entries ds results ≡ ret ys
      → EntriesSigned S w entries ds (map (λ (y : Signed). y.1) ys)
  unfolding sign_entries
  sign_entries-Signed w [] entries ds results ys h =
      subst (λ l. EntriesSigned S w entries ds (map (λ (y : Signed). y.1) l)) (ret-inj h)
        (none_signed S w results entries ds)
  sign_entries-Signed w (r ∷ rs) entries ds [] ys h = cc
  sign_entries-Signed w (r ∷ rs) entries ds (x ∷ results) ys h =
      from (sign_one S E admin_ips procs w r (head? entries) (head? ds))
        (sign_entries S E admin_ips procs w rs (tail entries) (tail ds) results) refl
        (λ l. sign_entries-Signed w rs (tail entries) (tail ds) results l) h
    where
      from :
          (g : Go Signed) (later : Go (List Signed))
          → sign_one S E admin_ips procs w r (head? entries) (head? ds) ≡ g
          → ((l : List Signed)
              → later ≡ ret l
              → EntriesSigned S w (tail entries) (tail ds) (map (λ (y : Signed). y.1) l))
          → cons_signed g later ≡ ret ys
          → EntriesSigned S w entries ds (map (λ (y : Signed). y.1) ys)
      from Go.panic later is ih q = cc
      from (ret y) Go.panic is ih q = cc
      from (ret y) (ret l) is ih q =
          subst (λ l. EntriesSigned S w entries ds (map (λ (y : Signed). y.1) l)) (ret-inj q)
            (cons-EntriesSigned w entries ds y (map (λ (y : Signed). y.1) l)
              (λ c s e. sign_one-EntrySigned w r (head? entries) (head? ds) c s (is ∙ ap ret e))
              (ih l refl))

  pub after_rules_results-Signed :
      (w : S.World) (g : Go (List Types.Result)) (entries : List (Entry S)) (ds : List Datum)
      (results before : List Core.Result) (sigs : List (Option Bytes))
      → after_rules_results S E admin_ips procs w g entries ds before ≡ ret (results, sigs)
      → EntriesSigned S w entries ds sigs
  unfolding after_rules_results
  after_rules_results-Signed w Go.panic entries ds results before sigs h = cc
  after_rules_results-Signed w (ret rs) entries ds results before sigs h =
      from (sign_entries S E admin_ips procs w rs entries ds before)
        (λ l. sign_entries-Signed w rs entries ds before l) h
    where
      from :
          (g : Go (List Signed))
          → ((l : List Signed)
              → g ≡ ret l
              → EntriesSigned S w entries ds (map (λ (y : Signed). y.1) l))
          → results_and_signatures g ≡ ret (results, sigs)
          → EntriesSigned S w entries ds sigs
      from Go.panic each q = cc
      from (ret l) each q =
          subst (λ z. EntriesSigned S w entries ds z) (ap (λ z. z.1) (ret-inj q)) (each l refl)

  -- The entries that have passed the first checks, each with the account that they have found.
  pub record FoundBy (c : Option Credentials) (action : Action) (e : String × Option Bytes)
      (account : S.Account) (rules : RulesData) : Type 0 where
    pub wallet : S.Wallet
    pub before : S.World
    pub after : S.World
    pub found : pre_check S c e.0 e.1 action before ≡ (ret (go_on (wallet, account)), after)
    pub is_key : rules.pub_key ≡ S.public_key account

  abbrev pub EntriesFound :
      Option Credentials → Action → List (String × Option Bytes) → List (Entry S) → Type 0
  EntriesFound c action es [] = Unit
  EntriesFound c action es (refused r ∷ entries) = EntriesFound c action (tail es) entries
  EntriesFound c action [] (passed account rd ∷ entries) = ⊥
  EntriesFound c action (e ∷ es) (passed account rd ∷ entries) =
      FoundBy c action e account rd × EntriesFound c action es entries

  with_entry :
      (c : Option Credentials) (action : Action) (name : String) (k : Option Bytes)
      (es : List (String × Option Bytes)) (step : Step (S.Wallet × S.Account)) (o : Option Datum)
      (e : Entry S) (later : List (Entry S)) (w w1 : S.World)
      → pre_check S c name k action w ≡ (ret step, w1)
      → entry_of S E admin_ips procs o step ≡ ret e
      → EntriesFound c action es later
      → EntriesFound c action ((name, k) ∷ es) (e ∷ later)
  unfolding entry_of
  with_entry c action name k es step none e later w w1 found made h = cc
  with_entry c action name k es (refuse r) (some datum) e later w w1 found made h =
      subst (λ x. EntriesFound c action ((name, k) ∷ es) (x ∷ later)) (ret-inj made) h
  with_entry c action name k es (go_on (wallet, account)) (some datum) e later w w1 found made h =
      subst (λ x. EntriesFound c action ((name, k) ∷ es) (x ∷ later)) (ret-inj made)
        (record { wallet = wallet; before = w; after = w1; found = found; is_key = refl }, h)

  pub found_all :
      (c : Option Credentials) (action : Action) (es : List (String × Option Bytes))
      (ds : List Datum) (w w' : S.World) (entries : List (Entry S))
      → pre_check_all S E admin_ips procs c action es ds w ≡ (ret entries, w')
      → EntriesFound c action es entries
  unfolding pre_check_all entry_of
  found_all c action [] ds w w' entries h =
      subst (λ l. EntriesFound c action [] l) (ret-inj (ap (λ z. z.0) h)) tt
  found_all c action ((name, k) ∷ es) ds w w' entries h =
      let (step, w1, found, h1) =
        bind-inv (pre_check S c name k action)
          (λ r. (λ w. (entry_of S E admin_ips procs (head? ds) r, w)) >>= λ e.
            pre_check_all S E admin_ips procs c action es (tail ds) >>= λ es. pure (e ∷ es))
          w w' entries h in
      let (e, w2, made, h2) =
        bind-inv (λ w. (entry_of S E admin_ips procs (head? ds) step, w))
          (λ e. pre_check_all S E admin_ips procs c action es (tail ds) >>= λ es. pure (e ∷ es)) w1
          w' entries h1 in
      let (later, w3, others, h3) =
        bind-inv (pre_check_all S E admin_ips procs c action es (tail ds)) (λ es. pure (e ∷ es)) w2
          w' entries h2 in
      subst (λ l. EntriesFound c action ((name, k) ∷ es) l) (ret-inj (ap (λ z. z.0) h3))
        (with_entry c action name k es step (head? ds) e later w w1 found (ap (λ z. z.0) made)
          (found_all c action es (tail ds) w2 w3 later others))
