-- ===== src/Signer/SeveralCalls.antt =====
-- Requests for several signatures: each is a safe step.
use dirk.Signer.SeveralSafety.{
  attested_run, attested_several, SmallEntries, no_signature, confirm-Safe,
}
use dirk.Signer.Several.{
  Checked, bad, good, add_checked, check_data, sign_several, sign_all, entries_of,
}
use dirk.Signer.Safety.{restart}
use dirk.Rules.Attestation.Watermark.{Attested}
use dirk.Rules.Env.{Env, Lawful}
use dirk.Core
use dirk.Prelude.{
  ℕ, ◌≡◌, inl, inr, refl, sym, subst, Option, none, some, List, [], ◌∷◌, length, All, replicate,
  String, set, ◌⊎◌,
}
use dirk.Go.{Bytes, Go, ret, ◌>>=◌, pure, Run}
use dirk.Core.{result_unknown, result_failed, result_denied}
use dirk.Ruler.{Credentials, Action, req_of}
use dirk.Ruler.History.{IsSmallAttestation, IsSmallProposal, IsSmallEntry, proposal_of}
use dirk.Signer.Services.{Services}
use dirk.Signer.Account.{Step, go_on, refuse, pre_check}
use dirk.Signer.Single.{State, rules_data}
use dirk.Signer.Several.{
  Datum, Entry, refused, passed, head?, tail, rules_of, Signatures, confirm_and_sign, pre_check_all,
  entry_of, sign_all, entries_of,
}
use dirk.Signer.Safety.{SafeState, forgets, restart}

abbrev pub SmallDatum : Datum → Type 0
SmallDatum d = IsSmallAttestation (req_of d.payload) × IsSmallProposal (proposal_of d.payload)

abbrev SmallRun : (S : Services) → Go (List (Entry S)) → Type 0
SmallRun S Go.panic = Unit
SmallRun S (ret entries) = SmallEntries S entries

module _ (S : Services) (E : Env) (admin_ips : List String) (procs : ℕ) where
  cons-SmallRun :
      (e : Entry S) (g : Go (List (Entry S))) (w : S.World)
      → IsSmallEntry (rules_of S e)
      → SmallRun S g
      → SmallRun S (((λ (v : S.World). (g, w)) >>= λ es. pure (e ∷ es)) w).0
  cons-SmallRun e Go.panic w h hs = tt
  cons-SmallRun e (ret es) w h hs = (h, hs)

  All-tail : (ds : List Datum) → All SmallDatum ds → All SmallDatum (tail ds)
  All-tail [] h = tt
  All-tail (d ∷ ds) h = h.1

  round-SmallRun :
      (g : Go (Step (S.Wallet × S.Account))) (w' w : S.World) (ds : List Datum)
      (rest : Run S.World (List (Entry S)))
      → All SmallDatum ds
      → ((v : S.World) → SmallRun S (rest v).0)
      → SmallRun S
          (((λ (v : S.World). (g, w')) >>= λ r.
              (λ u. (entry_of S E admin_ips procs (head? ds) r, u)) >>= λ e.
              rest >>= λ es. pure (e ∷ es))
            w).0
  unfolding entry_of
  round-SmallRun Go.panic w' w ds rest h hs = tt
  round-SmallRun (ret r) w' w [] rest h hs = tt
  round-SmallRun (ret (refuse q)) w' w (d ∷ ds) rest h hs =
      cons-SmallRun (refused q) (rest w').0 (rest w').1 tt (hs w')
  round-SmallRun (ret (go_on (wallet, account))) w' w (d ∷ ds) rest h hs =
      cons-SmallRun (passed account (rules_data S E admin_ips procs wallet account d.payload))
        (rest w').0 (rest w').1 h.0 (hs w')

  pre_check_all-SmallRun :
      (c : Option Credentials) (action : Action) (es : List (String × Option Bytes))
      (ds : List Datum) (w : S.World)
      → All SmallDatum ds
      → SmallRun S (pre_check_all S E admin_ips procs c action es ds w).0
  unfolding pre_check_all
  pre_check_all-SmallRun c action [] ds w h = tt
  pre_check_all-SmallRun c action ((name, k) ∷ es) ds w h =
      round-SmallRun (pre_check S c name k action w).0 (pre_check S c name k action w).1 w ds
        (pre_check_all S E admin_ips procs c action es (tail ds)) h
        (λ v. pre_check_all-SmallRun c action es (tail ds) v (All-tail ds h))

module _ (S : Services) (E : Env) (L : Lawful E) (admin_ips : List String) (procs : ℕ) where
  after_entries-Safe :
      (c : Option Credentials) (action : Action) (ds : List Datum) (w w1 : S.World) (d : E.Db)
      (g : Go (List (Entry S)))
      → SmallRun S g
      → let out =
          ((λ (s : State S E admin_ips procs). (g, (w1, d))) >>= λ entries.
          confirm_and_sign S E admin_ips procs c action ds entries)
            (w, d) in
        SafeState S E L admin_ips procs (w, d) (attested_run S action g out.0) out.1
  after_entries-Safe c action ds w w1 d Go.panic small =
      forgets S E L admin_ips procs w w1 d d (λ x k. k)
  after_entries-Safe c action ds w w1 d (ret entries) small =
      let out : Go Signatures × State S E admin_ips procs =
        confirm_and_sign S E admin_ips procs c action ds entries (w1, d) in
      restart S E L admin_ips procs w w1 out.1.0 d out.1.1 (attested_several S action entries out.0)
        (confirm-Safe S E L admin_ips procs c action ds entries w1 d small)

  pub sign_all-Safe :
      (c : Option Credentials) (names : List String) (keys : List (Option Bytes)) (action : Action)
      (ds : List Datum) (w : S.World) (d : E.Db)
      → All SmallDatum ds
      → let out = sign_all S E admin_ips procs c names keys action ds (w, d) in
        SafeState S E L admin_ips procs
          (w, d)
          (attested_run S action
            (pre_check_all S E admin_ips procs c action (entries_of names keys) ds w).0
            out.0)
          out.1
  unfolding sign_all
  sign_all-Safe c names keys action ds w d small =
      let g : Go (List (Entry S)) × S.World =
        pre_check_all S E admin_ips procs c action (entries_of names keys) ds w in
      after_entries-Safe c action ds w g.1 d g.0
        (pre_check_all-SmallRun S E admin_ips procs c action (entries_of names keys) ds w small)

  pub attested_nothing :
      (action : Action) (g : Go (List (Entry S))) (results : List Core.Result) (w : S.World)
      (d : E.Db)
      → SafeState S E L admin_ips procs (w, d) (attested_run S action g (ret (results, []))) (w, d)
  attested_nothing action Go.panic results w d = forgets S E L admin_ips procs w w d d (λ x k. k)
  attested_nothing action (ret entries) results w d =
      subst (λ xs. SafeState S E L admin_ips procs (w, d) xs (w, d))
        (sym (no_signature S E L admin_ips procs action entries results))
        (forgets S E L admin_ips procs w w d d (λ x k. k))

good-inj : {A : Type 0} (xs ys : List A) → good xs ≡ good ys → xs ≡ ys
good-inj xs ys h = cc

add_checked-SmallDatum :
    (o : Option Datum) (later : Checked Datum) (ds : List Datum)
    → ((d : Datum) → o ≡ some d → SmallDatum d)
    → ((ds' : List Datum) → later ≡ good ds' → All SmallDatum ds')
    → add_checked o later ≡ good ds
    → All SmallDatum ds
add_checked-SmallDatum none later ds h hs q = cc
add_checked-SmallDatum (some d) (bad i) ds h hs q = cc
add_checked-SmallDatum (some d) (good ds') ds h hs q =
    subst (λ l. All SmallDatum l) (good-inj (d ∷ ds') ds q) (h d refl, hs ds' refl)

-- The data of requests that are all there are small if the requests are.
check_data-SmallDatum :
    {R : Type 0} (f : R → Option Datum) (Small : R → Type 0)
    → ((r : R) (d : Datum) → f r ≡ some d → Small r → SmallDatum d)
    → (rs : List R) (ds : List Datum) → All Small rs
    → check_data f rs ≡ good ds
    → All SmallDatum ds
unfolding check_data
check_data-SmallDatum f Small each [] ds small h =
    subst (λ l. All SmallDatum l) (good-inj [] ds h) tt
check_data-SmallDatum f Small each (r ∷ rs) ds small h =
    add_checked-SmallDatum (f r) (check_data f rs) ds (λ d e. each r d e small.0)
      (λ ds' e. check_data-SmallDatum f Small each rs ds' small.1 e) h

Checked-cases :
    {A : Type 0} (c : Checked A) → ((i : ℕ) × (c ≡ bad i)) ⊎ ((xs : List A) × (c ≡ good xs))
Checked-cases (bad i) = inl (i, refl)
Checked-cases (good xs) = inr (xs, refl)

module _ {R : Type 0} (f : R → Option Datum) (action : Action) (S : Services) (E : Env)
    (admin_ips : List String) (procs : ℕ) where
  -- What a request for several signatures attests.
  abbrev pub attests_several :
      Option Credentials
      → List String
      → List (Option Bytes)
      → S.World
      → Checked Datum
      → Go Signatures
      → List Attested
  attests_several c names keys w (bad i) out = []
  attests_several c names keys w (good ds) out =
      attested_run S action
        (pre_check_all S E admin_ips procs c action (entries_of names keys) ds w).0 out

module _ {R : Type 0} (f : R → Option Datum) (action : Action) (S : Services) (E : Env)
    (L : Lawful E) (admin_ips : List String) (procs : ℕ) where
  unsigned_several :
      (c : Option Credentials) (names : List String) (keys : List (Option Bytes)) (w : S.World)
      (d : E.Db) (k : Checked Datum) (results : List Core.Result)
      → SafeState S E L admin_ips procs
          (w, d)
          (attests_several f action S E admin_ips procs c names keys w k (ret (results, [])))
          (w, d)
  unsigned_several c names keys w d (bad i) results =
      forgets S E L admin_ips procs w w d d (λ x h. h)
  unsigned_several c names keys w d (good ds) results =
      attested_nothing S E L admin_ips procs action
        (pre_check_all S E admin_ips procs c action (entries_of names keys) ds w).0 results w d

  pub several-Safe :
      (Small : R → Type 0)
      → ((r : R) (dt : Datum) → f r ≡ some dt → Small r → SmallDatum dt)
      → (c : Option Credentials) (names : List String) (keys : List (Option Bytes)) (rs : List R)
        (w : S.World) (d : E.Db)
      → All Small rs
      → let out = sign_several S E admin_ips procs f action c names keys rs (w, d) in
        SafeState S E L admin_ips procs
          (w, d)
          (attests_several f action S E admin_ips procs c names keys w (check_data f rs) out.0)
          out.1
  unfolding sign_several
  several-Safe Small each c names keys [] w d small =
      unsigned_several c names keys w d (check_data f []) (result_denied ∷ [])
  several-Safe Small each none names keys (r ∷ rs) w d small =
      unsigned_several none names keys w d (check_data f (r ∷ rs))
        (replicate (length (r ∷ rs)) result_denied)
  several-Safe Small each (some c) names keys (r ∷ rs) w d small =
      elim (Checked-cases (check_data f (r ∷ rs))) [
        | inl (i, e) ↦
            rw (e, sign_several)
              (unsigned_several (some c) names keys w d (bad i)
                (set (replicate (length (r ∷ rs)) result_unknown) i result_denied))
        | inr (ds, e) ↦
            rw (e, sign_several)
              (sign_all-Safe S E L admin_ips procs (some c) names keys action ds w d
                (check_data-SmallDatum f Small each (r ∷ rs) ds small e))
      ]
