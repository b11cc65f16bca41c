-- ===== src/Signer/Signature.antt =====
-- What the signatures of services/signer/standard are over, for one request.
use dirk.Rules.Env.{Env}
use dirk.Go
use dirk.Go.{ok, err, Bytes, Go, Slice, ◌>>=◌, ret, ret-inj, bytes_of}
use dirk.Core
use dirk.Rules.Types
use dirk.Rules.Types.{unknown, approved, denied, failed}
use dirk.Ruler.{Credentials, Action, AnyData, RulesData, run_rules}
use dirk.Signer.Services.{Services}
use dirk.Signer.Account.{Step, go_on, refuse, pre_check}
use dirk.Signer.Root.{
  generate_signing_root, hash_tree_root, hash_tree_root_with, merkleized, sign_root,
}
use dirk.Signer.Single.{
  Signed, without, decided_call, State, rules_data, signed_root, sign_data_root, after_rules,
  after_pre_check, sign_checked, confirm,
}
use dirk.Prelude.{
  ℕ, ◌≡◌, refl, sym, subst, arith, Option, none, some, List, [], ◌∷◌, length, String,
}

no_signature : {q r : Core.Result} {s : Bytes} → without q ≡ (r, some s) → ⊥
no_signature h = cc

pub no_result : {q r : Core.Result} {s : Bytes} → ret (without q) ≡ ret (r, some s) → ⊥
no_result h = cc

-- The account has signed the root of an object's root and a domain, each of 32 bytes.
pub record SignedBy (S : Services) (account : S.Account) (root : Go.Result Bytes)
    (domain : Option Slice) (w : S.World) (signature : Bytes) : Type 0 where
  pub data_root : Bytes
  pub is_root : root ≡ ok data_root
  pub root_size : length data_root ≡ 32
  pub domain_size : length (bytes_of domain) ≡ 32
  pub signed :
      S.sign account (S.merkleize (data_root ∷ bytes_of domain ∷ [])) w ≡ some (ok signature)

module _ (S : Services) (E : Env) (admin_ips : List String) (procs : ℕ) where
  refused :
      (account : S.Account) (w : S.World) (r : Core.Result) (signature : Bytes) (e : Go.Error)
      → signed_root S E admin_ips procs account w (err e) ≡ (r, some signature)
      → ⊥
  unfolding signed_root
  refused account w r signature e h = no_signature h

  signed_with :
      (account : S.Account) (root : Bytes) (w : S.World) (r : Core.Result) (signature : Bytes)
      → signed_root S E admin_ips procs account w (ok root) ≡ (r, some signature)
      → S.sign account root w ≡ some (ok signature)
  unfolding signed_root sign_root
  signed_with account root w r signature h = from (S.sign account root w) refl h
    where
      from :
          (o : Option (Go.Result Bytes))
          → S.sign account root w ≡ o
          → (elim (elim o as (λ x. Go.Result Bytes) [ none ↦ err "not a signer" | some r ↦ r ])
              as (λ x. Signed) [
                | err e ↦ without Core.result_failed
                | ok signature ↦ (Core.result_succeeded, some signature)
              ])
            ≡ (r, some signature)
          → o ≡ some (ok signature)
      from none e q = cc
      from (some (err x)) e q = cc
      from (some (ok s)) e q = cc

  generate_signing_root-inv :
      (data_root domain root : Bytes)
      → generate_signing_root S data_root domain ≡ ok root
      → (length data_root ≡ 32)
        × (length domain ≡ 32)
        × (S.merkleize (data_root ∷ domain ∷ []) ≡ root)
  unfolding generate_signing_root hash_tree_root hash_tree_root_with merkleized
  generate_signing_root-inv data_root domain root h = ground arith

  -- A signature over a signing root.
  pub signed_root-SignedBy :
      (account : S.Account) (data_root : Bytes) (domain : Option Slice) (w : S.World)
      (r : Core.Result) (signature : Bytes)
      → signed_root S E admin_ips procs account w
          (generate_signing_root S data_root (bytes_of domain))
        ≡ (r, some signature)
      → SignedBy S account (ok data_root) domain w signature
  signed_root-SignedBy account data_root domain w r signature h =
      from (generate_signing_root S data_root (bytes_of domain)) refl h
    where
      from :
          (g : Go.Result Bytes)
          → generate_signing_root S data_root (bytes_of domain) ≡ g
          → signed_root S E admin_ips procs account w g ≡ (r, some signature)
          → SignedBy S account (ok data_root) domain w signature
      from (err e) is q = absurd (refused account w r signature e q)
      from (ok root) is q =
          let (root_size, domain_size, hashed) =
            generate_signing_root-inv data_root (bytes_of domain) root is in
          record {
            data_root = data_root;
            is_root = refl;
            root_size = root_size;
            domain_size = domain_size;
            signed =
                subst (λ z. S.sign account z w ≡ some (ok signature)) (sym hashed)
                  (signed_with account root w r signature q);
          }

  data_root-SignedBy :
      (account : S.Account) (root : Go.Result Bytes) (domain : Option Slice) (w : S.World)
      (d : E.Db) (r : Core.Result) (signature : Bytes)
      → (sign_data_root S E admin_ips procs root domain account (w, d)).0 ≡ ret (r, some signature)
      → SignedBy S account root domain w signature
  unfolding sign_data_root
  data_root-SignedBy account (err e) domain w d r signature h = absurd (no_result h)
  data_root-SignedBy account (ok root) domain w d r signature h =
      signed_root-SignedBy account root domain w r signature (ret-inj h)

  rules-SignedBy :
      (account : S.Account) (root : Go.Result Bytes) (domain : Option Slice) (w : S.World)
      (d : E.Db) (r : Core.Result) (signature : Bytes) (rs : Go (List Types.Result))
      → (((λ (s : State S E admin_ips procs). (decided_call rs, (w, d))) >>= λ r.
            after_rules S E admin_ips procs root domain account r)
          (w, d)).0
        ≡ ret (r, some signature)
      → SignedBy S account root domain w signature
  unfolding after_rules
  rules-SignedBy account root domain w d r signature Go.panic h = cc
  rules-SignedBy account root domain w d r signature (ret []) h = cc
  rules-SignedBy account root domain w d r signature (ret (approved ∷ rs)) h =
      data_root-SignedBy account root domain w d r signature h
  rules-SignedBy account root domain w d r signature (ret (denied ∷ rs)) h = absurd (no_result h)
  rules-SignedBy account root domain w d r signature (ret (failed ∷ rs)) h = absurd (no_result h)
  rules-SignedBy account root domain w d r signature (ret (unknown ∷ rs)) h = absurd (no_result h)

  -- A signature that is made once the fields of a request are all there: the account is the one that
  -- the first checks find.
  pub sign_checked-SignedBy :
      (c : Option Credentials) (name : String) (k : Option Bytes) (action : Action)
      (payload : AnyData) (root : Go.Result Bytes) (domain : Option Slice) (w : S.World) (d : E.Db)
      (r : Core.Result) (signature : Bytes)
      → (sign_checked S E admin_ips procs c name k action payload root domain (w, d)).0
        ≡ ret (r, some signature)
      → (wallet : S.Wallet) × (account : S.Account) × (after : S.World) × (pre_check S c name k
            action w
          ≡ (ret (go_on (wallet, account)), after))
        × SignedBy S account root domain after signature
  unfolding sign_checked after_pre_check confirm
  sign_checked-SignedBy c name k action payload root domain w d r signature h =
      from (pre_check S c name k action w).0 (pre_check S c name k action w).1 refl h
    where
      from :
          (p : Go (Step (S.Wallet × S.Account))) (after : S.World)
          → pre_check S c name k action w ≡ (p, after)
          → (((λ (s : State S E admin_ips procs). (p, (after, d))) >>= λ r.
                after_pre_check S E admin_ips procs c action payload root domain r)
              (w, d)).0
            ≡ ret (r, some signature)
          → (wallet : S.Wallet) × (account : S.Account) × (after : S.World) × (pre_check S c name k
                action w
              ≡ (ret (go_on (wallet, account)), after))
            × SignedBy S account root domain after signature
      from Go.panic after is q = cc
      from (ret (refuse x)) after is q = absurd (no_result q)
      from (ret (go_on (wallet, account))) after is q =
          let rd : RulesData = rules_data S E admin_ips procs wallet account payload in
          let call = run_rules E admin_ips procs c action (some rd ∷ []) d in
          (
            wallet,
            account,
            after,
            is,
            rules-SignedBy account root domain after call.1 r signature call.0 q,
          )
