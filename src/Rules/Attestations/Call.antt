-- ===== src/Rules/Attestations/Call.antt =====
-- A whole call of OnSignBeaconAttestations for different public keys, on every branch.
use dirk.Prelude.{
  ℕ, zero, suc, ◌≡◌, ◌≢◌, ◌⊎◌, inl, inr, refl, sym, subst, Option, none, some, List, [], ◌∷◌, map,
  All, Ordered, length, replicate, Bool-cases, ◌==◌,
}
use dirk.Go.{Bytes, Error, Go, ret, panic, ◌>>=◌, Result, ok, err, pure}
use dirk.History.{SafeStep}
use dirk.Rules.Types
use dirk.Rules.Types.{ReqMetadata, SignBeaconAttestationData, unknown, approved, denied, failed}
use dirk.Rules.State.{AttestationState, encode_attestation}
use dirk.Rules.Env.{Env, Lawful, after_writes}
use dirk.Rules.Storage.Batch.{Failed, batch_store_outcome}
use dirk.Rules.Attestation.{attestation_key}
use dirk.Rules.Attestation.Watermark.{Attested, Later, Covered}
use dirk.Rules.Attestations.{
  fetch_sign_beacon_attestation_states, check_all, store_sign_beacon_attestation_states,
  results_if_stored, store_checked, decide_attestations, run_attestations,
}
use dirk.Rules.Attestations.Rows.{
  Rows, Reads, fetch_states_unchanged, fetch_states-Reads, check_all-Rows,
}
use dirk.Rules.Attestations.Safety.{IsSmall, IsGood, approvals}
use dirk.Rules.Attestations.Stored.{stored_entries, Rows-IsGood, WroteSome-covers}
use dirk.Rules.Attestations.Batch.{staged, written-SafeStep}

-- What a call approves; one that panics approves nothing.
abbrev pub go_approvals :
    List Bytes → List SignBeaconAttestationData → Go (List Types.Result) → List Attested
go_approvals ks reqs (ret rs) = approvals ks reqs rs
go_approvals ks reqs panic = []

approvals-failed :
    (ks : List Bytes) (reqs : List SignBeaconAttestationData) (n : ℕ)
    → approvals ks reqs (replicate n failed) ≡ []
unfolding approvals
approvals-failed [] reqs n = refl
approvals-failed (k ∷ ks) [] n = refl
approvals-failed (k ∷ ks) (req ∷ reqs) zero = refl
approvals-failed (k ∷ ks) (req ∷ reqs) (suc n) = approvals-failed ks reqs n

module _ (E : Env) (L : Lawful E) (d : E.Db) where
  -- A call that approves nothing and forgets nothing.
  nothing-SafeStep :
      (given : List Attested) (d' : E.Db)
      → given ≡ []
      → ((x : Attested) → Covered E d x → Covered E d' x)
      → SafeStep (Covered E) Later d given d'
  nothing-SafeStep [] d' e keep = record {
    preserves = keep;
    fresh = tt;
    covered = tt;
    ordered = tt;
  }
  nothing-SafeStep (a ∷ rest) d' e keep = cc

  abbrev CallSafe :
      List Bytes → List SignBeaconAttestationData → Go (List Types.Result) × E.Db → Type 0
  CallSafe ks reqs out = SafeStep (Covered E) Later d (go_approvals ks reqs out.0) out.1

  -- The states are stored, or some of them are and there is an error.
  abbrev StoreOutcome : List Bytes → List AttestationState → Go (Option Error) × E.Db → Type 0
  StoreOutcome ks news out =
      ((out.0 ≡ ret none)
        × ((j : Bytes) → E.get out.1 j ≡ after_writes (staged ks news) j (E.get d j)))
      ⊎ (((e : Error) × (out.0 ≡ ret (some e))) × Failed E L (IsGood E L d) d out.1)

  store_states_outcome :
      (ks : List Bytes) (news : List AttestationState)
      → All (IsGood E L d) (stored_entries ks news)
      → StoreOutcome ks news (store_sign_beacon_attestation_states E ks news d)
  unfolding store_sign_beacon_attestation_states
  store_states_outcome ks news good = elim (Bool-cases (length ks == length news)) [
    | inr e ↦ rw e (
        inr (
          ("mismatch between number of pubkeys and number of states", refl),
          record { writes = []; all = tt; some_of = λ j. refl },
        ))
    | inl e ↦ rw e (
        batch_store_outcome E L (IsGood E L d) (map attestation_key ks)
          (map (λ s. encode_attestation (some s)) news) d good)
  ]

  finish : List Types.Result → Go (Option Error) × E.Db → Go (List Types.Result) × E.Db
  finish rs out = ((λ (s : E.Db). out) >>= (λ e. pure (results_if_stored rs e))) d

  finish-safe :
      (ks : List Bytes) (reqs : List SignBeaconAttestationData) (rs : List Types.Result)
      (news : List AttestationState)
      → Rows E d ks reqs rs news
      → All IsSmall reqs
      → Ordered (λ a b. a ≢ b) ks
      → (out : Go (Option Error) × E.Db) → StoreOutcome ks news out
      → CallSafe ks reqs (finish rs out)
  unfolding finish results_if_stored
  finish-safe ks reqs rs news rows small apart out (inl (done, w)) =
      rw done (written-SafeStep E L d out.1 ks reqs rs news rows small apart w)
  finish-safe ks reqs rs news rows small apart out (inr ((e, bad), f)) = rw bad (
      nothing-SafeStep (approvals ks reqs (replicate (length rs) failed)) out.1
        (approvals-failed ks reqs (length rs))
        (λ x c.
          WroteSome-covers E L d f.writes (attestation_key x.pub_key)
            (E.get out.1 (attestation_key x.pub_key)) x.source x.target f.all
            (f.some_of (attestation_key x.pub_key)) c))

  decide_safe :
      (ks : List Bytes) (reqs : List SignBeaconAttestationData) (sts : List AttestationState)
      (c : Go (List Types.Result × List AttestationState))
      → length ks ≡ length reqs
      → Reads E d ks sts
      → All IsSmall reqs
      → Ordered (λ a b. a ≢ b) ks
      → check_all E reqs sts ≡ c
      → CallSafe ks reqs (store_checked E ks c d)
  unfolding store_checked finish
  decide_safe ks reqs sts panic l r small apart e = nothing-SafeStep [] d refl (λ x c. c)
  decide_safe ks reqs sts (ret (rs, news)) l r small apart e =
      let rows = check_all-Rows E d ks reqs sts rs news l r e in
      finish-safe ks reqs rs news rows small apart
        (store_sign_beacon_attestation_states E ks news d)
        (store_states_outcome ks news (Rows-IsGood E L d rows small))

  fetched_safe :
      (ks : List Bytes) (reqs : List SignBeaconAttestationData)
      (f : Go (Result (List AttestationState)))
      → length ks ≡ length reqs
      → (fetch_sign_beacon_attestation_states E ks d).0 ≡ f
      → All IsSmall reqs
      → Ordered (λ a b. a ≢ b) ks
      → CallSafe ks reqs (((λ (s : E.Db). (f, d)) >>= (λ r. decide_attestations E ks reqs r)) d)
  unfolding decide_attestations
  fetched_safe ks reqs panic l e small apart = nothing-SafeStep [] d refl (λ x c. c)
  fetched_safe ks reqs (ret (err x)) l e small apart =
      nothing-SafeStep (approvals ks reqs (replicate (length reqs) failed)) d
        (approvals-failed ks reqs (length reqs)) (λ x c. c)
  fetched_safe ks reqs (ret (ok sts)) l e small apart =
      decide_safe ks reqs sts (check_all E reqs sts) l (fetch_states-Reads E d ks sts e) small apart
        refl

  -- OnSignBeaconAttestations, once its guards have passed, on requests for different public keys with
  -- epochs below 2^63: no attestation that the database covered is forgotten, those that are approved are later than
  -- all that it covered, they are covered afterwards, and they are in order among themselves; this
  -- also when the batch is written in part, or the call panics.
  pub run_attestations-SafeStep :
      (ks : List Bytes) (reqs : List SignBeaconAttestationData)
      → length ks ≡ length reqs
      → All IsSmall reqs
      → Ordered (λ a b. a ≢ b) ks
      → CallSafe ks reqs (run_attestations E ks reqs d)
  unfolding run_attestations
  run_attestations-SafeStep ks reqs l small apart =
      subst
        (λ o. CallSafe ks reqs (((λ (s : E.Db). o) >>= (λ r. decide_attestations E ks reqs r)) d))
        (λ i.
          ((fetch_sign_beacon_attestation_states E ks d).0, sym (fetch_states_unchanged E d ks) i))
        (fetched_safe ks reqs (fetch_sign_beacon_attestation_states E ks d).0 l refl small apart)
