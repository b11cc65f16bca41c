-- ===== src/Rules/Attestation/Outcome.antt =====
-- What a call of OnSignBeaconAttestation does to the store, on every branch.
use dirk.Prelude.{◌≡◌, ◌≢◌, ◌⊎◌, refl, sym, ap, subst, some, [], ◌∷◌, arith, inl, inr, none}
use dirk.Go.{Bytes, Go, ret, panic, Result, ok, err, ◌>>=◌}
use dirk.Words.{int64}
use dirk.Rules.Types
use dirk.Rules.Types.{
  ReqMetadata, Checkpoint, SignBeaconAttestationData, unknown, approved, denied, failed,
}
use dirk.Rules.State.{AttestationState, encode_attestation}
use dirk.Rules.State.RoundTrip.{encode_attestation-cons}
use dirk.Rules.Env.{Env, Lawful, Get}
use dirk.Rules.Storage.{view_item, stored}
use dirk.Rules.Storage.ReadBack.{fetch-eq, store-eq, Writes, Keeps, update_outcome}
use dirk.Rules.Attestation.{
  attestation_key, check_epochs, run_sign_beacon_attestation_checks, attestation_state_of,
  fetch_sign_beacon_attestation_state, store_sign_beacon_attestation_state, store_approved,
  after_checks, decide_attestation, on_sign_beacon_attestation,
}

pub attestation_key-ne-nil : (pk : Bytes) → attestation_key pk ≢ []
unfolding attestation_key
attestation_key-ne-nil [] h = cc
attestation_key-ne-nil (b ∷ pk) h = cc

pub encode_attestation-ne-nil : (s : AttestationState) → encode_attestation (some s) ≢ []
encode_attestation-ne-nil s h = cc ((encode_attestation-cons s).1)

-- The state as `fetch` reads it from what its key holds.
abbrev pub attestation_state_at : (E : Env) → Get → Go (Result AttestationState)
unfolding attestation_state_of
attestation_state_at E g = elim (view_item g) [
  | ret r ↦ ret (attestation_state_of E r)
  | panic ↦ panic
]

-- An approved request with these epochs passed the checks against the stored state, and is stored.
pub record Approved (E : Env) (pk : Bytes) (req : SignBeaconAttestationData) (d d' : E.Db)
    : Type 0 where
  pub source : Checkpoint
  pub target : Checkpoint
  pub old : AttestationState
  pub source_is : req.source ≡ some source
  pub target_is : req.target ≡ some target
  pub was : attestation_state_at E (E.get d (attestation_key pk)) ≡ ret (ok old)
  pub passes : (check_epochs source.epoch target.epoch old).0 ≡ approved
  pub writes :
      Writes E d
        (attestation_key pk)
        (encode_attestation
          (some (record { source_epoch = int64 source.epoch; target_epoch = int64 target.epoch })))
        d'

module _ (E : Env) where
  pub fetch_state-eq :
      (pk : Bytes) (d : E.Db)
      → fetch_sign_beacon_attestation_state E pk d
        ≡ (attestation_state_at E (E.get d (attestation_key pk)), d)
  unfolding fetch_sign_beacon_attestation_state
  fetch_state-eq pk d =
      ground (arith, fetch-eq E (attestation_key pk) d (attestation_key-ne-nil pk))

  abbrev new_state : Checkpoint → Checkpoint → AttestationState
  new_state source target = record {
    source_epoch = int64 source.epoch;
    target_epoch = int64 target.epoch;
  }

  store_approved-eq :
      (pk : Bytes) (source target : Checkpoint) (d : E.Db)
      → let k = attestation_key pk in
        let v = encode_attestation (some (new_state source target)) in
        store_approved E pk (some source) (some target) d
        ≡ (ret (stored (E.update d k v).0), (E.update d k v).1)
  unfolding store_approved store_sign_beacon_attestation_state
  store_approved-eq pk source target d = ground (
    arith,
    store-eq E (attestation_key pk) (encode_attestation (some (new_state source target))) d
        (attestation_key-ne-nil pk) (encode_attestation-ne-nil (new_state source target)),
  )

  -- The call either approves, has passed the checks and writes its key; or does not approve, and
  -- writes nothing.
  abbrev pub AttestOutcome :
      Bytes → SignBeaconAttestationData → E.Db → Go Types.Result × E.Db → Type 0
  AttestOutcome pk req d out =
      ((out.0 ≡ ret approved) × Approved E pk req d out.1)
      ⊎ ((out.0 ≢ ret approved) × Keeps E d out.1)

  store_outcome :
      Lawful E
      → (pk : Bytes) (req : SignBeaconAttestationData) (d : E.Db) (source target : Checkpoint)
        (old : AttestationState)
      → req.source ≡ some source
      → req.target ≡ some target
      → attestation_state_at E (E.get d (attestation_key pk)) ≡ ret (ok old)
      → (check_epochs source.epoch target.epoch old).0 ≡ approved
      → AttestOutcome pk req d (store_approved E pk (some source) (some target) d)
  store_outcome L pk req d source target old hs ht hw hp =
      rw (store_approved-eq pk source target d)
        (elim (update_outcome E L d (attestation_key pk)
          (encode_attestation (some (new_state source target)))) [
            | inl (done, w) ↦ inl (
              rw done,
              record {
                source = source;
                target = target;
                old = old;
                source_is = hs;
                target_is = ht;
                was = hw;
                passes = hp;
                writes = w;
              },
            )
            | inr ((e, bad), keeps) ↦ inr (rw bad (λ h. cc), keeps)
          ])

  pub checks-inv :
      (req : SignBeaconAttestationData) (old st : AttestationState)
      → run_sign_beacon_attestation_checks E req old ≡ ret (approved, st)
      → (s : Checkpoint) × (t : Checkpoint) × (req.source ≡ some s)
        × (req.target ≡ some t)
        × (check_epochs s.epoch t.epoch old ≡ (approved, st))
  unfolding run_sign_beacon_attestation_checks
  checks-inv req old st h = ground arith

  after_outcome :
      Lawful E
      → (pk : Bytes) (req : SignBeaconAttestationData) (d : E.Db) (old : AttestationState)
        (c : Go (Types.Result × AttestationState))
      → attestation_state_at E (E.get d (attestation_key pk)) ≡ ret (ok old)
      → run_sign_beacon_attestation_checks E req old ≡ c
      → AttestOutcome pk req d (after_checks E pk req c d)
  unfolding after_checks
  after_outcome L pk req d old (ret (approved, st)) hw hc =
      let (s, t, hs, ht, he) = checks-inv req old st hc in
      subst (λ x. AttestOutcome pk req d (store_approved E pk x req.target d)) (sym hs)
        (subst (λ y. AttestOutcome pk req d (store_approved E pk (some s) y d)) (sym ht)
          (store_outcome L pk req d s t old hs ht hw
            (ap (λ (q : Types.Result × AttestationState). q.0) he)))
  after_outcome L pk req d old (ret (unknown, st)) hw hc = inr (λ h. cc, λ j. refl)
  after_outcome L pk req d old (ret (denied, st)) hw hc = inr (λ h. cc, λ j. refl)
  after_outcome L pk req d old (ret (failed, st)) hw hc = inr (λ h. cc, λ j. refl)
  after_outcome L pk req d old panic hw hc = inr (λ h. cc, λ j. refl)

  decide_outcome :
      Lawful E
      → (pk : Bytes) (req : SignBeaconAttestationData) (d : E.Db) (g : Go (Result AttestationState))
      → attestation_state_at E (E.get d (attestation_key pk)) ≡ g
      → AttestOutcome pk req d
          (((λ (e : E.Db). (g, e)) >>= λ r. decide_attestation E pk (some req) r) d)
  unfolding decide_attestation
  decide_outcome L pk req d (ret (ok old)) hw =
      after_outcome L pk req d old (run_sign_beacon_attestation_checks E req old) hw refl
  decide_outcome L pk req d (ret (err e)) hw = inr (λ h. cc, λ j. refl)
  decide_outcome L pk req d panic hw = inr (λ h. cc, λ j. refl)

  -- OnSignBeaconAttestation, with metadata and a request that are not nil and any database that
  -- meets the laws, either approves, and then the request has passed the checks against
  -- the stored state and its epochs are stored under its key and nothing else is written; or it
  -- does not approve, and nothing is written.
  pub on_sign_beacon_attestation_outcome :
      Lawful E
      → (m : ReqMetadata) (req : SignBeaconAttestationData) (d : E.Db)
      → AttestOutcome m.pub_key req d (on_sign_beacon_attestation E (some m) (some req) d)
  unfolding on_sign_beacon_attestation
  on_sign_beacon_attestation_outcome L m req d =
      subst
        (λ x.
          AttestOutcome m.pub_key req d
            (((λ (e : E.Db). x) >>= λ r. decide_attestation E m.pub_key (some req) r) d))
        (sym (fetch_state-eq m.pub_key d))
        (decide_outcome L m.pub_key req d
          (attestation_state_at E (E.get d (attestation_key m.pub_key))) refl)

  -- A nil request panics, or fails, once the state is read: nothing is written.
  pub on_sign_nil_unchanged :
      (m : ReqMetadata) (d : E.Db) → (on_sign_beacon_attestation E (some m) none d).1 ≡ d
  unfolding on_sign_beacon_attestation decide_attestation
  on_sign_nil_unchanged m d = ground (arith, fetch_state-eq m.pub_key d)
