-- ===== src/Ruler.antt =====
-- services/ruler: requests to the rules, and services/ruler/golang/runner.go, which runs them. The
-- workers of `util.Scatter` are run one after the other, in the order of their entries.
pub mod History
pub mod Apart
pub mod Approvals
pub mod Entries
pub mod Loop
pub mod Multiple
pub mod Locking
pub mod Locks
pub mod Proposals
pub mod Safety
use dirk.Rules.Attestations.{index_where, on_sign_beacon_attestations, failed_at, is_none, somes}
use dirk.Prelude.{
  ℕ, suc, String, Bool, true, false, Option, none, some, List, [], ◌∷◌, ◌++◌, take, replicate,
  bytes_equal, str_eq, ◌||◌, if◌then◌else◌, ltb, map, not, drop, length, reverse, ◌&&◌,
}
use dirk.Go.{Bytes, Go, panic, ret, Run, ◌>>=◌, pure}
use dirk.Scatter.{extents}
use dirk.Rules.Types
use dirk.Rules.Types.{
  ReqMetadata, SignData, SignBeaconAttestationData, SignBeaconProposalData, AccessAccountData,
  unknown, approved, denied, failed,
}
use dirk.Rules.Env.{Env}
use dirk.Rules.Attestation.{on_sign_beacon_attestation}
use dirk.Rules.Proposal.{on_sign_beacon_proposal}
use dirk.Rules.Sign.{
  on_sign, on_list_accounts, on_lock_wallet, on_unlock_wallet, on_lock_account, on_unlock_account,
  on_create_account,
}

-- services/checker/service.go
pub record Credentials : Type 0 where
  pub request_id : String
  pub client : String
  pub ip : String

-- The action strings; `other` is any string that is none of these.
pub data Action : Type 0 where
  sign sign_beacon_attestation sign_beacon_proposal access_account create_account : Action
  lock_wallet unlock_wallet lock_account unlock_account : Action
  other : String → Action

-- A value of type `any`: nil, a pointer of one of the request types, or anything else.
pub data AnyData : Type 0 where
  nil_data other_data : AnyData
  sign_data : Option SignData → AnyData
  proposal_data : Option SignBeaconProposalData → AnyData
  attestation_data : Option SignBeaconAttestationData → AnyData
  access_data : Option AccessAccountData → AnyData
  lock_wallet_data unlock_wallet_data lock_account_data : Option (Unit {0}) → AnyData
  unlock_account_data create_account_data : Option (Unit {0}) → AnyData

pub record RulesData : Type 0 where
  pub wallet_name : String
  pub account_name : String
  pub pub_key : Bytes
  pub payload : AnyData

-- The calls of the locker (services/locker/service.go) and that of the method `runRules`, in the order
-- in which they are made.
pub data LockCall : Type 0 where
  pre_lock post_lock rules_called : LockCall
  lock unlock : Bytes → LockCall

abbrev pub is_nil_data : AnyData → Bool
is_nil_data nil_data = true
is_nil_data _ = false

-- Nil, or with nil data.
abbrev pub is_nil_entry : Option RulesData → Bool
is_nil_entry none = true
is_nil_entry (some rd) = is_nil_data rd.payload

abbrev pub needs_lock : Action → Bool
needs_lock sign = true
needs_lock sign_beacon_proposal = true
needs_lock sign_beacon_attestation = true
needs_lock _ = false

-- `copy` into a [48]byte.
unfoldable pub to_bytes48 : Bytes → Bytes
to_bytes48 b = take 48 (b ++ replicate 48 0)

abbrev pub mem_key : Bytes → List Bytes → Bool
mem_key k [] = false
mem_key k (j ∷ seen) = bytes_equal j k || mem_key k seen

abbrev is_empty : Bytes → Bool
is_empty [] = true
is_empty (b ∷ bs) = false

-- The index of the first entry with no public key, or with that of an earlier one.
unfoldable pub first_clash : List Bytes → List RulesData → Option ℕ
first_clash seen [] = none
first_clash seen (rd ∷ rest) =
    let key = to_bytes48 rd.pub_key in
    let later = first_clash (key ∷ seen) rest in
    if is_empty rd.pub_key || mem_key key seen
    then some 0
    else elim later [ none ↦ none | some i ↦ some (suc i) ]

-- An empty client, or none.
unfoldable pub assemble_metadata : Option Credentials → String → Bytes → Option ReqMetadata
assemble_metadata none account_name pub_key = none
assemble_metadata (some c) account_name pub_key =
    if str_eq c.client ""
    then none
    else some (record { account = account_name; pub_key = pub_key; ip = c.ip; client = c.client })

-- UNKNOWN from a rule becomes FAILED.
abbrev pub known : Types.Result → Types.Result
known unknown = failed
known r = r

abbrev pub attestation_of : AnyData → Option (Option SignBeaconAttestationData)
attestation_of (attestation_data req) = some req
attestation_of _ = none

-- An entry of several attestations must have an account, a client and data of the right type.
unfoldable pub is_prepared : Option Credentials → RulesData → Bool
unfolding assemble_metadata
is_prepared credentials rd =
    not (str_eq rd.account_name "")
    && not (is_none (assemble_metadata credentials rd.account_name rd.pub_key))
    && not (is_none (attestation_of rd.payload))

-- A worker's loop over its extent stops at the first entry that is not prepared.
unfoldable pub prepare_extent : Option Credentials → List RulesData → List Types.Result
prepare_extent credentials [] = []
prepare_extent credentials (rd ∷ rest) =
    let later = prepare_extent credentials rest in
    if is_prepared credentials rd then unknown ∷ later else failed ∷ replicate (length rest) unknown

unfoldable pub prepare_extents :
    Option Credentials → List RulesData → List (ℕ × ℕ) → List Types.Result
prepare_extents credentials rds [] = []
prepare_extents credentials rds ((offset, n) ∷ rest) =
    prepare_extent credentials (take n (drop offset rds)) ++ prepare_extents credentials rds rest

abbrev pub has_failed : List Types.Result → Bool
has_failed [] = false
has_failed (failed ∷ rs) = true
has_failed (unknown ∷ rs) = has_failed rs
has_failed (approved ∷ rs) = has_failed rs
has_failed (denied ∷ rs) = has_failed rs

-- `metadatas[i]` and `reqData[i]`
abbrev pub metadata_of : Option Credentials → RulesData → Option ReqMetadata
metadata_of credentials rd = assemble_metadata credentials rd.account_name rd.pub_key

abbrev pub req_of : AnyData → Option SignBeaconAttestationData
req_of (attestation_data req) = req
req_of _ = none

-- The calls before the rules are run, and the deferred ones, the last first.
unfoldable pub lock_all : List Bytes → List LockCall
lock_all keys = pre_lock ∷ (map lock keys ++ post_lock ∷ [])

unfoldable pub unlock_all : List Bytes → List LockCall
unlock_all keys = map unlock (reverse keys)

abbrev pub is_attestation : Action → Bool
is_attestation sign_beacon_attestation = true
is_attestation _ = false

-- One result and those of the entries after it; a panic ends the loop.
abbrev pub cons_results :
    {D : Type 0} → Go Types.Result → Go (List Types.Result) → D → D → Go (List Types.Result) × D
cons_results panic rs d1 d2 = (panic, d1)
cons_results (ret r) panic d1 d2 = (panic, d2)
cons_results (ret r) (ret rs) d1 d2 = (ret (r ∷ rs), d2)

module _ (E : Env) (admin_ips : List String) (procs : ℕ) where
  -- The `switch` on the action; data of another type is FAILED.
  unfoldable pub dispatch : Action → AnyData → ReqMetadata → Run E.Db Types.Result
  dispatch sign (sign_data req) m d = (on_sign E admin_ips (some m) req, d)
  dispatch sign_beacon_proposal (proposal_data req) m d = on_sign_beacon_proposal E (some m) req d
  dispatch sign_beacon_attestation (attestation_data req) m d =
      on_sign_beacon_attestation E (some m) req d
  dispatch access_account (access_data req) m d = (ret (on_list_accounts (some m) req), d)
  dispatch lock_wallet (lock_wallet_data req) m d = (ret (on_lock_wallet (some m) req), d)
  dispatch unlock_wallet (unlock_wallet_data req) m d = (ret (on_unlock_wallet (some m) req), d)
  dispatch lock_account (lock_account_data req) m d = (ret (on_lock_account (some m) req), d)
  dispatch unlock_account (unlock_account_data req) m d = (ret (on_unlock_account (some m) req), d)
  dispatch create_account (create_account_data req) m d = (ret (on_create_account (some m) req), d)
  dispatch _ _ m d = (ret failed, d)

  unfoldable pub run_with : Action → AnyData → Option ReqMetadata → Run E.Db Types.Result
  unfolding dispatch
  run_with action payload none = pure failed
  run_with action payload (some m) = dispatch action payload m >>= λ r. pure (known r)

  unfoldable pub run_entry : Option Credentials → Action → RulesData → Run E.Db Types.Result
  unfolding run_with
  run_entry credentials action rd =
      run_with action rd.payload (assemble_metadata credentials rd.account_name rd.pub_key)

  -- The loop over the entries.
  unfoldable pub run_entries :
      Option Credentials → Action → List RulesData → Run E.Db (List Types.Result)
  run_entries credentials action [] d = (ret [], d)
  run_entries credentials action (rd ∷ rest) d =
      let (r, d1) = run_entry credentials action rd d in
      let (rs, d2) = run_entries credentials action rest d1 in cons_results r rs d1 d2

  unfoldable pub run_rules_for_multiple_beacon_attestations :
      Option Credentials → List RulesData → Run E.Db (List Types.Result)
  run_rules_for_multiple_beacon_attestations credentials rds =
      let results = prepare_extents credentials rds (extents procs (length rds)) in
      if has_failed results
      then pure results
      else on_sign_beacon_attestations E (map (metadata_of credentials) rds)
          (map (λ rd. req_of (RulesData.payload rd)) rds)

  -- The method `runRules`.
  unfoldable pub run_checked_rules :
      Option Credentials → Action → List RulesData → Run E.Db (List Types.Result)
  run_checked_rules credentials action rds =
      if ltb 1 (length rds) && is_attestation action
      then run_rules_for_multiple_beacon_attestations credentials rds
      else run_entries credentials action rds

  -- The call of `runRules` that ends RunRules.
  abbrev pub call_rules :
      Option Credentials
      → Action
      → List RulesData
      → E.Db
      → Go (List Types.Result) × E.Db × List LockCall
  call_rules credentials action rds d =
      let (r, d') = run_checked_rules credentials action rds d in (r, d', rules_called ∷ [])

  -- With the keys locked before the rules are called, and unlocked by the deferred calls when they
  -- have returned or panicked; or not.
  unfoldable pub run_locked :
      Option Credentials
      → Action
      → List RulesData
      → E.Db
      → Go (List Types.Result) × E.Db × List LockCall
  run_locked credentials action rds d =
      let keys = map (λ rd. to_bytes48 (RulesData.pub_key rd)) rds in
      let (r, d', calls) = call_rules credentials action rds d in
      if needs_lock action
      then elim (first_clash [] rds) [
        | some i ↦ (ret (failed_at (length rds) i), d, [])
        | none ↦ (r, d', lock_all keys ++ (calls ++ unlock_all keys))
      ]
      else (r, d', calls)

  -- The results, the database after the call, and the calls that it made, in order.
  unfoldable pub run_rules :
      Option Credentials
      → Action
      → List (Option RulesData)
      → E.Db
      → Go (List Types.Result) × E.Db × List LockCall
  unfolding run_locked
  run_rules credentials action [] d = (ret (failed ∷ []), d, [])
  run_rules credentials action (rd ∷ rds) d = elim (index_where is_nil_entry (rd ∷ rds)) [
    | some i ↦ (ret (failed_at (length (rd ∷ rds)) i), d, [])
    | none ↦ run_locked credentials action (somes (rd ∷ rds)) d
  ]
