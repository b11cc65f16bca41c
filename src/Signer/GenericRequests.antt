-- ===== src/Signer/GenericRequests.antt =====
-- The generic data that services/signer/standard signs: the rules have approved it.
use dirk.Rules.Env.{Env}
use dirk.Rules.Sign.{on_sign}
use dirk.Go
use dirk.Go.{first4, bytes_of, Bytes, Go, Slice, ◌>>=◌, pure, ret, ret-inj}
use dirk.Core
use dirk.Rules.Types
use dirk.Rules.Types.{unknown, approved, denied, failed, SignData, ReqMetadata}
use dirk.Ruler.{
  Credentials, sign, sign_data, RulesData, run_rules, to_bytes48, lock_all, unlock_all, LockCall,
  rules_called, run_locked, run_checked_rules, run_entries, run_entry, run_with, dispatch, known,
  cons_results, first_clash, assemble_metadata,
}
use dirk.Rules.Attestations.{index_where, failed_at}
use dirk.Signer.Services.{Services}
use dirk.Signer.Account.{Step, go_on, refuse, pre_check}
use dirk.Signer.Signature.{no_result, SignedBy, sign_checked-SignedBy}
use dirk.Signer.SignedRequests.{unguarded}
use dirk.Rules.Sign.Guards.{Permitted, on_sign-Permitted}
use dirk.Core.{result_denied}
use dirk.Signer.Single.{
  without, decided_call, State, after_rules, after_pre_check, sign_checked, confirm, is_nil,
  sign_generic,
}
use dirk.Prelude.{
  ℕ, zero, suc, ◌++◌, ◌≡◌, refl, Option, none, some, List, [], ◌∷◌, if◌then◌else◌, String,
}

module _ (E : Env) (admin_ips : List String) (procs : ℕ) where
  abbrev results_of : Go Types.Result → E.Db → E.Db → Go (List Types.Result)
  results_of g d1 d2 = (cons_results g (ret []) d1 d2).0

  approved_call :
      (g : Go Types.Result) (d d1 d2 : E.Db) (rs : List Types.Result)
      → results_of (((λ (x : E.Db). (g, x)) >>= λ r. pure (known r)) d).0 d1 d2
        ≡ ret (approved ∷ rs)
      → g ≡ ret approved
  approved_call Go.panic d d1 d2 rs h = cc
  approved_call (ret approved) d d1 d2 rs h = refl
  approved_call (ret unknown) d d1 d2 rs h = cc
  approved_call (ret denied) d d1 d2 rs h = cc
  approved_call (ret failed) d d1 d2 rs h = cc

  abbrev entry : String → String → Bytes → Option SignData → RulesData
  entry wallet account key req = record {
    wallet_name = wallet;
    account_name = account;
    pub_key = key;
    payload = sign_data req;
  }

  -- OnSign has approved an entry.
  Approves : Option SignData → Type 0
  Approves req = (m : ReqMetadata) × (on_sign E admin_ips (some m) req ≡ ret approved)

  approved_entry :
      (c : Option Credentials) (wallet account : String) (key : Bytes) (req : Option SignData)
      (d d1 d2 : E.Db) (rs : List Types.Result)
      → results_of (run_entry E admin_ips procs c sign (entry wallet account key req) d).0 d1 d2
        ≡ ret (approved ∷ rs)
      → Approves req
  unfolding run_entry run_with dispatch Approves
  approved_entry c wallet account key req d d1 d2 rs h = from (assemble_metadata c account key) h
    where
      from :
          (o : Option ReqMetadata)
          → results_of (run_with E admin_ips procs sign (sign_data req) o d).0 d1 d2
            ≡ ret (approved ∷ rs)
          → Approves req
      from none q = cc
      from (some m) q = (m, approved_call (on_sign E admin_ips (some m) req) d d1 d2 rs q)

  not_failed_at : (i : ℕ) (rs : List Types.Result) → ret (failed_at 1 i) ≡ ret (approved ∷ rs) → ⊥
  not_failed_at zero rs h = cc
  not_failed_at (suc i) rs h = cc

  -- RunRules with one entry of generic data.
  approved_generic :
      (c : Option Credentials) (wallet account : String) (key : Bytes) (req : Option SignData)
      (d : E.Db) (rs : List Types.Result)
      → (run_rules E admin_ips procs c sign (some (entry wallet account key req) ∷ []) d).0
        ≡ ret (approved ∷ rs)
      → Approves req
  unfolding run_rules run_locked run_checked_rules run_entries index_where
  approved_generic c wallet account key req d rs h =
      from (first_clash [] (entry wallet account key req ∷ [])) h
    where
      r : Go Types.Result × E.Db
      r = run_entry E admin_ips procs c sign (entry wallet account key req) d

      from :
          (o : Option ℕ)
          → (elim o as (λ x. Go (List Types.Result) × E.Db × List LockCall) [
            | some i ↦ (ret (failed_at 1 i), d, [])
            | none ↦ (
              (cons_results r.0 (ret []) r.1 r.1).0,
              (cons_results r.0 (ret []) r.1 r.1).1,
              lock_all (to_bytes48 key ∷ [])
                  ++ (rules_called ∷ [] ++ unlock_all (to_bytes48 key ∷ [])),
            )
          ]).0
            ≡ ret (approved ∷ rs)
          → Approves req
      from (some i) q = absurd (not_failed_at i rs q)
      from none q = approved_entry c wallet account key req d r.1 r.1 rs q

-- A signature for a request of generic data: it is by the account that the first checks find, over the
-- data and the domain of the request; the domain is one that OnSign permits to the client's address.
pub record GenericRequest (S : Services) (E : Env) (admin_ips : List String)
    (c : Option Credentials) (before : S.World) (name : String) (k : Option Bytes)
    (request : Option SignData) (signature : Bytes) : Type 0 where
  pub wallet : S.Wallet
  pub account : S.Account
  pub after : S.World
  pub found : pre_check S c name k sign before ≡ (ret (go_on (wallet, account)), after)
  pub asked : SignData
  pub is_request : request ≡ some asked
  pub by : SignedBy S account (Go.ok (bytes_of asked.payload)) asked.domain after signature
  pub domain : Bytes
  pub is_domain : first4 asked.domain ≡ ret domain
  pub ip : String
  pub permitted : Permitted E admin_ips domain ip

module _ (S : Services) (E : Env) (admin_ips : List String) (procs : ℕ) where
  decided_approved :
      (g : Go (List Types.Result)) (root : Go.Result Bytes) (domain : Option Slice)
      (account : S.Account) (w : S.World) (d : E.Db) (q : Core.Result) (s : Bytes)
      → (((λ (x : State S E admin_ips procs). (decided_call g, (w, d))) >>= λ r.
            after_rules S E admin_ips procs root domain account r)
          (w, d)).0
        ≡ ret (q, some s)
      → (rs : List Types.Result) × (g ≡ ret (approved ∷ rs))
  unfolding after_rules
  decided_approved Go.panic root domain account w d q s h = cc
  decided_approved (ret []) root domain account w d q s h = cc
  decided_approved (ret (approved ∷ rs)) root domain account w d q s h = (rs, refl)
  decided_approved (ret (denied ∷ rs)) root domain account w d q s h = absurd (no_result h)
  decided_approved (ret (failed ∷ rs)) root domain account w d q s h = absurd (no_result h)
  decided_approved (ret (unknown ∷ rs)) root domain account w d q s h = absurd (no_result h)

  checked_approved :
      (c : Option Credentials) (name : String) (k : Option Bytes) (req : Option SignData)
      (root : Go.Result Bytes) (domain : Option Slice) (w : S.World) (d : E.Db) (q : Core.Result)
      (s : Bytes)
      → (sign_checked S E admin_ips procs c name k sign (sign_data req) root domain (w, d)).0
        ≡ ret (q, some s)
      → Approves E admin_ips procs req
  unfolding sign_checked after_pre_check confirm
  checked_approved c name k req root domain w d q s h =
      from (pre_check S c name k sign w).0 (pre_check S c name k sign w).1 h
    where
      from :
          (p : Go (Step (S.Wallet × S.Account))) (w1 : S.World)
          → (((λ (s : State S E admin_ips procs). (p, (w1, d))) >>= λ r.
                after_pre_check S E admin_ips procs c sign (sign_data req) root domain r)
              (w, d)).0
            ≡ ret (q, some s)
          → Approves E admin_ips procs req
      from Go.panic w1 e = cc
      from (ret (refuse x)) w1 e = absurd (no_result e)
      from (ret (go_on (wallet, account))) w1 e =
          let rd : RulesData =
            entry E admin_ips procs (S.wallet_name wallet) (S.account_name account)
              (S.public_key account) req in
          let call : Go (List Types.Result) × E.Db × List LockCall =
            run_rules E admin_ips procs c sign (some rd ∷ []) d in
          let (rs, all) = decided_approved call.0 root domain account w1 call.1 q s e in
          approved_generic E admin_ips procs c (S.wallet_name wallet) (S.account_name account)
            (S.public_key account) req d rs all

  pub sign_generic-Signed :
      (c : Option Credentials) (name : String) (k : Option Bytes) (request : Option SignData)
      (w : S.World) (d : E.Db) (q : Core.Result) (s : Bytes)
      → (sign_generic S E admin_ips procs c name k request (w, d)).0 ≡ ret (q, some s)
      → GenericRequest S E admin_ips c w name k request s
  unfolding sign_generic Approves
  sign_generic-Signed none name k request w d q s h = absurd (no_result h)
  sign_generic-Signed (some c) name k none w d q s h = absurd (no_result h)
  sign_generic-Signed (some c) name k (some r) w d q s h =
      let root : Go.Result Bytes = Go.ok (bytes_of r.payload) in
      let m =
        sign_checked S E admin_ips procs (some c) name k sign (sign_data (some r)) root r.domain in
      let made =
        unguarded (is_nil r.domain) result_denied m (w, d) q s
          (unguarded (is_nil r.payload) result_denied
            (if is_nil r.domain then pure (without result_denied) else m) (w, d) q s h) in
      let (wallet, account, after, found, by) =
        sign_checked-SignedBy S E admin_ips procs (some c) name k sign (sign_data (some r)) root
          r.domain w d q s made in
      let (metadata, approves) =
        checked_approved (some c) name k (some r) root r.domain w d q s made in
      let (domain, is_domain, permitted) = (on_sign-Permitted E admin_ips metadata r).0 approves in
      record {
        wallet = wallet;
        account = account;
        after = after;
        found = found;
        asked = r;
        is_request = refl;
        by = by;
        domain = domain;
        is_domain = is_domain;
        ip = metadata.ip;
        permitted = permitted;
      }
