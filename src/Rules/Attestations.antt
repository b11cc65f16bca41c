-- ===== src/Rules/Attestations.antt =====
-- rules/standard/signbeaconattestations.go: several attestations under one write to the store.
pub mod Rows
pub mod Safety
pub mod Stored
pub mod Batch
pub mod Call
use dirk.Prelude.{
  ℕ, suc, Bool, true, false, Option, none, some, List, [], ◌∷◌, map, ◌==◌, ◌||◌, not, length, set,
  replicate, if◌then◌else◌,
}
use dirk.Go.{Bytes, Error, Go, ret, panic, Run, ◌>>=◌, pure, crash, Result, ok, err}
use dirk.Rules.Types
use dirk.Rules.Types.{ReqMetadata, SignBeaconAttestationData, unknown, failed}
use dirk.Rules.State.{AttestationState, encode_attestation}
use dirk.Rules.Env.{Env}
use dirk.Rules.Storage.{batch_store}
use dirk.Rules.Attestation.{
  attestation_key, run_sign_beacon_attestation_checks, fetch_sign_beacon_attestation_state,
}

-- The first index at which a test holds.
unfoldable pub index_where {ℓ} : {A : Type ℓ} → (A → Bool) → List A → Option ℕ
index_where p [] = none
index_where p (x ∷ xs) =
    let rest = index_where p xs in
    if p x then some 0 else elim rest [ none ↦ none | some i ↦ some (suc i) ]

abbrev pub is_none {ℓ} : {A : Type ℓ} → Option A → Bool
is_none none = true
is_none (some a) = false

-- The items of a slice of pointers none of which is nil.
abbrev pub somes {ℓ} : {A : Type ℓ} → List (Option A) → List A
somes [] = []
somes (none ∷ xs) = somes xs
somes (some x ∷ xs) = x ∷ somes xs

-- A nil entry, or one with a nil source or target.
abbrev pub is_incomplete : Option SignBeaconAttestationData → Bool
is_incomplete none = true
is_incomplete (some req) = is_none req.source || is_none req.target

-- Every entry UNKNOWN but the one at the index, which is FAILED.
abbrev pub failed_at : ℕ → ℕ → List Types.Result
failed_at n i = set (replicate n unknown) i failed

fetched : AttestationState → Result (List AttestationState) → Result (List AttestationState)
fetched state (ok states) = ok (state ∷ states)
fetched state (err e) = err e

-- The results stand if the states were stored.
results_if_stored : List Types.Result → Option Error → List Types.Result
results_if_stored res none = res
results_if_stored res (some e) = replicate (length res) failed

module _ (E : Env) where
  unfoldable pub fetch_sign_beacon_attestation_states :
      List Bytes → Run E.Db (Result (List AttestationState))
  unfolding fetched
  fetch_sign_beacon_attestation_states [] d = (ret (ok []), d)
  fetch_sign_beacon_attestation_states (k ∷ ks) d =
      let (r, d1) = fetch_sign_beacon_attestation_state E k d in
      let (rs, d2) = fetch_sign_beacon_attestation_states ks d1 in
      elim r [
        | panic ↦ (panic, d1)
        | ret (err e) ↦ (ret (err e), d1)
        | ret (ok state) ↦ elim rs [
          | panic ↦ (panic, d2)
          | ret states ↦ (ret (fetched state states), d2)
        ]
      ]

  -- `res[i] = s.runSignBeaconAttestationChecks(...)` for every entry, with the states it leaves.
  unfoldable pub check_all :
      List SignBeaconAttestationData
      → List AttestationState
      → Go (List Types.Result × List AttestationState)
  check_all (req ∷ reqs) (state ∷ states) =
      let rest = check_all reqs states in
      elim (run_sign_beacon_attestation_checks E req state) [
        | panic ↦ panic
        | ret (r, state') ↦ elim rest [
          | panic ↦ panic
          | ret (rs, states') ↦ ret (r ∷ rs, state' ∷ states')
        ]
      ]
  check_all _ _ = ret ([], [])

  unfoldable pub store_sign_beacon_attestation_states :
      List Bytes → List AttestationState → Run E.Db (Option Error)
  store_sign_beacon_attestation_states pub_keys states =
      if not (length pub_keys == length states)
      then pure (some "mismatch between number of pubkeys and number of states")
      else batch_store E (map attestation_key pub_keys)
          (map (λ s. encode_attestation (some s)) states)

  store_checked :
      List Bytes → Go (List Types.Result × List AttestationState) → Run E.Db (List Types.Result)
  unfolding results_if_stored
  store_checked pub_keys panic = crash
  store_checked pub_keys (ret (res, states)) =
      store_sign_beacon_attestation_states pub_keys states >>= λ e. pure (results_if_stored res e)

  decide_attestations :
      List Bytes
      → List SignBeaconAttestationData
      → Result (List AttestationState)
      → Run E.Db (List Types.Result)
  unfolding store_checked
  decide_attestations pub_keys reqs (err e) = pure (replicate (length reqs) failed)
  decide_attestations pub_keys reqs (ok states) = store_checked pub_keys (check_all reqs states)

  -- What follows the tests for nil entries.
  unfoldable pub run_attestations :
      List Bytes → List SignBeaconAttestationData → Run E.Db (List Types.Result)
  unfolding decide_attestations
  run_attestations pub_keys reqs =
      fetch_sign_beacon_attestation_states pub_keys >>= λ r. decide_attestations pub_keys reqs r

  unfoldable pub on_sign_beacon_attestations :
      List (Option ReqMetadata)
      → List (Option SignBeaconAttestationData)
      → Run E.Db (List Types.Result)
  on_sign_beacon_attestations metadata req =
      if not (length req == length metadata)
      then pure (replicate (length req) failed)
      else elim (index_where is_none metadata) [
        | some i ↦ pure (failed_at (length req) i)
        | none ↦ elim (index_where is_incomplete req) [
          | some i ↦ pure (failed_at (length req) i)
          | none ↦ run_attestations (map (λ m. ReqMetadata.pub_key m) (somes metadata)) (somes req)
        ]
      ]
