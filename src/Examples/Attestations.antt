-- ===== src/Examples/Attestations.antt =====
-- The attestation rules at concrete inputs.
use dirk.Prelude.{◌≡◌, refl, none, some, [], ◌∷◌, ℕ}
use dirk.Go.{ret}
use dirk.Rules.Types.{ReqMetadata, SignBeaconAttestationData, approved, denied}
use dirk.Rules.Attestation.{
  on_sign_beacon_attestation, fetch_sign_beacon_attestation_state, attestation_key,
  run_sign_beacon_attestation_checks, store_sign_beacon_attestation_state,
}
use dirk.Rules.Storage
use dirk.Rules.Storage.{view_item}
use dirk.Rules.State.{encode_attestation, decode_attestation}
use dirk.Words.{put_le, get_le}
use dirk.Go.{first4}
use dirk.Examples.Memory.{env, Writes}

abbrev pub metadata : ReqMetadata
metadata = record { account = "Account 1"; pub_key = 7 ∷ 8 ∷ []; ip = ""; client = "client1" }

abbrev pub attestation : ℕ → ℕ → SignBeaconAttestationData
attestation s t = record {
  domain = some (record { bytes = 1 ∷ 0 ∷ 0 ∷ 0 ∷ 9 ∷ []; spare = [] });
  slot = 0;
  committee_index = 0;
  beacon_block_root = none;
  source = some (record { epoch = s; root = none });
  target = some (record { epoch = t; root = none });
}

-- A first attestation is approved; the same target again is denied; a later one is approved.
abbrev after_first : Writes
after_first = (on_sign_beacon_attestation env (some metadata) (some (attestation 2 3)) []).1

first_approved :
    (on_sign_beacon_attestation env (some metadata) (some (attestation 2 3)) []).0 ≡ ret approved
unfolding on_sign_beacon_attestation fetch_sign_beacon_attestation_state Storage.fetch
    attestation_key view_item run_sign_beacon_attestation_checks first4
    store_sign_beacon_attestation_state Storage.store encode_attestation
first_approved = refl

second_denied :
    (on_sign_beacon_attestation env (some metadata) (some (attestation 2 3)) after_first).0
    ≡ ret denied
unfolding on_sign_beacon_attestation fetch_sign_beacon_attestation_state Storage.fetch
    attestation_key view_item run_sign_beacon_attestation_checks first4
    store_sign_beacon_attestation_state Storage.store encode_attestation decode_attestation put_le
    get_le
second_denied = refl
