-- ===== src/Rules/Attestations/Rows.antt =====
-- The entries of a call of OnSignBeaconAttestations, from the states that are fetched to the
-- states that are stored.
use dirk.Prelude.{◌≡◌, refl, List, [], ◌∷◌, arith, length}
use dirk.Go.{Bytes, ret, ok}
use dirk.Rules.Types
use dirk.Rules.Types.{Checkpoint, SignBeaconAttestationData, unknown, approved, denied, failed}
use dirk.Rules.State.{AttestationState}
use dirk.Rules.Env.{Env}
use dirk.Rules.Attestation.{attestation_key, run_sign_beacon_attestation_checks}
use dirk.Rules.Attestation.Outcome.{attestation_state_at, fetch_state-eq}
use dirk.Rules.Attestations.{fetch_sign_beacon_attestation_states, check_all}

module _ (E : Env) (d : E.Db) where
  -- The states that are read for the public keys.
  abbrev pub Reads : List Bytes → List AttestationState → Type 0
  Reads [] [] = Unit
  Reads (k ∷ ks) (st ∷ sts) =
      (attestation_state_at E (E.get d (attestation_key k)) ≡ ret (ok st)) × Reads ks sts
  Reads _ _ = ⊥

  -- For each entry: the state read, the result of its checks, and the state they leave.
  pub data Rows
      : List Bytes
        → List SignBeaconAttestationData
        → List Types.Result
        → List AttestationState
        → Type 0 where
    no_row : Rows [] [] [] []
    row :
        {ks : List Bytes} {reqs : List SignBeaconAttestationData} {rs : List Types.Result}
        {news : List AttestationState}
        → (k : Bytes) (req : SignBeaconAttestationData) (r : Types.Result)
          (old new : AttestationState)
        → attestation_state_at E (E.get d (attestation_key k)) ≡ ret (ok old)
        → run_sign_beacon_attestation_checks E req old ≡ ret (r, new)
        → Rows ks reqs rs news
        → Rows (k ∷ ks) (req ∷ reqs) (r ∷ rs) (new ∷ news)

  -- Fetching leaves the database.
  pub fetch_states_unchanged :
      (ks : List Bytes) → (fetch_sign_beacon_attestation_states E ks d).1 ≡ d
  unfolding fetch_sign_beacon_attestation_states
  fetch_states_unchanged [] = refl
  fetch_states_unchanged (k ∷ ks) = ground (arith, fetch_state-eq E k d, fetch_states_unchanged ks)

  fetch_states-cons :
      (k : Bytes) (ks : List Bytes) (st : AttestationState) (sts : List AttestationState)
      → (fetch_sign_beacon_attestation_states E (k ∷ ks) d).0 ≡ ret (ok (st ∷ sts))
      → (attestation_state_at E (E.get d (attestation_key k)) ≡ ret (ok st))
        × ((fetch_sign_beacon_attestation_states E ks d).0 ≡ ret (ok sts))
  unfolding fetch_sign_beacon_attestation_states
  fetch_states-cons k ks st sts h = ground (arith, fetch_state-eq E k d)

  pub fetch_states-Reads :
      (ks : List Bytes) (sts : List AttestationState)
      → (fetch_sign_beacon_attestation_states E ks d).0 ≡ ret (ok sts)
      → Reads ks sts
  unfolding fetch_sign_beacon_attestation_states
  fetch_states-Reads [] [] h = tt
  fetch_states-Reads [] (st ∷ sts) h = cc
  fetch_states-Reads (k ∷ ks) [] h = absurd (ground (arith, fetch_state-eq E k d))
  fetch_states-Reads (k ∷ ks) (st ∷ sts) h =
      let (now, rest) = fetch_states-cons k ks st sts h in (now, fetch_states-Reads ks sts rest)

  check_all-cons :
      (req : SignBeaconAttestationData) (reqs : List SignBeaconAttestationData)
      (st : AttestationState) (sts : List AttestationState) (r : Types.Result)
      (rs : List Types.Result) (new : AttestationState) (news : List AttestationState)
      → check_all E (req ∷ reqs) (st ∷ sts) ≡ ret (r ∷ rs, new ∷ news)
      → (run_sign_beacon_attestation_checks E req st ≡ ret (r, new))
        × (check_all E reqs sts ≡ ret (rs, news))
  unfolding check_all
  check_all-cons req reqs st sts r rs new news h = ground arith

  pub check_all-Rows :
      (ks : List Bytes) (reqs : List SignBeaconAttestationData) (sts : List AttestationState)
      (rs : List Types.Result) (news : List AttestationState)
      → length ks ≡ length reqs
      → Reads ks sts
      → check_all E reqs sts ≡ ret (rs, news)
      → Rows ks reqs rs news
  unfolding check_all
  check_all-Rows [] [] [] [] [] l h c = no_row
  check_all-Rows (k ∷ ks) (req ∷ reqs) (st ∷ sts) (r ∷ rs) (new ∷ news) l h c =
      let (now, rest) = check_all-cons req reqs st sts r rs new news c in
      row k req r st new h.0 now (check_all-Rows ks reqs sts rs news (omega arith) h.1 rest)
  check_all-Rows _ _ _ _ _ l h c = absurd (ground arith)
