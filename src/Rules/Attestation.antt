-- ===== src/Rules/Attestation.antt =====
-- rules/standard/signbeaconattestation.go, and the checks of signbeaconattestations.go that it
-- shares: the slashing protection of a single attestation.
pub mod Stored
pub mod Outcome
pub mod Wrap
pub mod Watermark
use dirk.Prelude.{
  ℕ, Option, none, some, [], ◌∷◌, ◌++◌, ◌==◌, ◌&&◌, ◌||◌, not, ltb, leb, bytes_equal, str_eq,
  if◌then◌else◌,
}
use dirk.Go.{Bytes, Error, Go, ret, panic, Run, ◌>>=◌, pure, crash, first4, Result, ok, err}
use dirk.Words.{pos, negsuc, int64, uint64, is_nonneg}
use dirk.Rules.Types.{
  ReqMetadata, Checkpoint, SignBeaconAttestationData, unknown, approved, denied, failed,
}
use dirk.Rules.Types
use dirk.Rules.State.{AttestationState, encode_attestation, decode_attestation}
use dirk.Rules.Env.{Env}
use dirk.Rules.Storage.{fetch, store, stored}

abbrev pub action_sign_beacon_attestation : Bytes
action_sign_beacon_attestation = 2 ∷ []

-- The key of a public key's state: `make` and two `copy`s.
unfoldable pub attestation_key : Bytes → Bytes
attestation_key pub_key = pub_key ++ action_sign_beacon_attestation

-- The state with both epochs -1, for a public key that has none.
abbrev pub no_attestation : AttestationState
no_attestation = record { source_epoch = negsuc 0; target_epoch = negsuc 0 }

abbrev pub zero_attestation : AttestationState
zero_attestation = record { source_epoch = pos 0; target_epoch = pos 0 }

-- The tests on the epochs, in the source's order. The state changes only on approval.
unfoldable pub check_epochs : ℕ → ℕ → AttestationState → Types.Result × AttestationState
check_epochs source_epoch target_epoch state =
    if (not (source_epoch == 0) || not (target_epoch == 0)) && leb target_epoch source_epoch
    then (denied, state)
    else if is_nonneg state.target_epoch && leb target_epoch (uint64 state.target_epoch)
    then (denied, state)
    else if is_nonneg state.source_epoch && ltb source_epoch (uint64 state.source_epoch)
    then (denied, state)
    else (approved, record { source_epoch = int64 source_epoch; target_epoch = int64 target_epoch })

-- `req.Source.Epoch` and `req.Target.Epoch` panic on a nil checkpoint.
check_checkpoints :
    Option Checkpoint → Option Checkpoint → AttestationState → Go (Types.Result × AttestationState)
unfolding check_epochs
check_checkpoints (some source) (some target) state =
    ret (check_epochs source.epoch target.epoch state)
check_checkpoints (some source) none state = panic
check_checkpoints none target state = panic

module _ (E : Env) where
  unfoldable pub run_sign_beacon_attestation_checks :
      SignBeaconAttestationData → AttestationState → Go (Types.Result × AttestationState)
  unfolding check_checkpoints
  run_sign_beacon_attestation_checks req state = elim (first4 req.domain) [
    | panic ↦ panic
    | ret domain ↦
        if not (bytes_equal domain E.domain_beacon_attester)
        then ret (denied, state)
        else check_checkpoints req.source req.target state
  ]

  -- What `fetchSignBeaconAttestationState` makes of the result of `store.Fetch`. The text that
  -- `errors.Wrap` adds is left out: callers only test for an error.
  attestation_state_of : Result Bytes → Result AttestationState
  attestation_state_of (err e) = if str_eq e "not found" then ok no_attestation else err e
  attestation_state_of (ok bytes) =
      let (e, state) = decode_attestation E.gob_attestation bytes zero_attestation in
      elim e [ none ↦ ok state | some x ↦ err x ]

  unfoldable pub fetch_sign_beacon_attestation_state : Bytes → Run E.Db (Result AttestationState)
  unfolding attestation_state_of
  fetch_sign_beacon_attestation_state pub_key =
      fetch E (attestation_key pub_key) >>= λ r. pure (attestation_state_of r)

  unfoldable pub store_sign_beacon_attestation_state :
      Bytes → AttestationState → Run E.Db (Option Error)
  store_sign_beacon_attestation_state pub_key state =
      store E (attestation_key pub_key) (encode_attestation (some state))

  -- `state.SourceEpoch = int64(req.Source.Epoch)` and its like, then the store.
  store_approved : Bytes → Option Checkpoint → Option Checkpoint → Run E.Db Types.Result
  store_approved pub_key (some source) (some target) =
      store_sign_beacon_attestation_state pub_key
        (record { source_epoch = int64 source.epoch; target_epoch = int64 target.epoch })
      >>= λ e. pure (stored e)
  store_approved pub_key (some source) none = crash
  store_approved pub_key none target = crash

  after_checks :
      Bytes
      → SignBeaconAttestationData
      → Go (Types.Result × AttestationState)
      → Run E.Db Types.Result
  unfolding store_approved
  after_checks pub_key req (ret (approved, state)) = store_approved pub_key req.source req.target
  after_checks pub_key req (ret (unknown, state)) = pure unknown
  after_checks pub_key req (ret (denied, state)) = pure denied
  after_checks pub_key req (ret (failed, state)) = pure failed
  after_checks pub_key req panic = crash

  decide_attestation :
      Bytes → Option SignBeaconAttestationData → Result AttestationState → Run E.Db Types.Result
  unfolding after_checks
  decide_attestation pub_key req (err e) = pure failed
  decide_attestation pub_key none (ok state) = crash
  decide_attestation pub_key (some req) (ok state) =
      after_checks pub_key req (run_sign_beacon_attestation_checks req state)

  -- A nil `metadata` or `req` panics where it is first read.
  unfoldable pub on_sign_beacon_attestation :
      Option ReqMetadata → Option SignBeaconAttestationData → Run E.Db Types.Result
  unfolding decide_attestation
  on_sign_beacon_attestation none req = crash
  on_sign_beacon_attestation (some metadata) req =
      fetch_sign_beacon_attestation_state metadata.pub_key >>= λ r.
      decide_attestation metadata.pub_key req r
