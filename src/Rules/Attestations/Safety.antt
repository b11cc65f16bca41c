-- ===== src/Rules/Attestations/Safety.antt =====
-- A call of OnSignBeaconAttestations for different public keys is a safe step.
use dirk.Prelude.{
  ℕ, ◌<◌, ◌≤◌, ◌≡◌, ◌⊎◌, inl, inr, sym, ◌∙◌, ap, subst, Option, none, some, List, [], ◌∷◌, ◌++◌,
  arith,
}
use dirk.Go.{Bytes, ret, ok}
use dirk.Words.{int64, pow63}
use dirk.Rules.Types
use dirk.Rules.Types.{Checkpoint, SignBeaconAttestationData, unknown, approved, denied, failed}
use dirk.Rules.State.{AttestationState, encode_attestation}
use dirk.Rules.Env.{Env, Lawful, found, value}
use dirk.Rules.Attestation.{attestation_key, check_epochs, run_sign_beacon_attestation_checks}
use dirk.Rules.Attestation.Outcome.{attestation_state_at, checks-inv}
use dirk.Rules.Attestation.Watermark.{
  Attested, CoveredAt, attested, CoveredAt-Above, CoveredAt-encode, raised, check_epochs-fresh,
  check_epochs-raises, state_at-IsAttestationState,
}

-- The epoch fits int64.
abbrev pub IsSmallCheckpoint : Option Checkpoint → Type 0
IsSmallCheckpoint none = Unit
IsSmallCheckpoint (some c) = c.epoch < pow63

abbrev pub IsSmall : SignBeaconAttestationData → Type 0
IsSmall req = IsSmallCheckpoint req.source × IsSmallCheckpoint req.target

-- What a call approves: the entries with an APPROVED result.
abbrev pub approvals_of : Bytes → Option Checkpoint → Option Checkpoint → List Attested
approvals_of k (some s) (some t) = attested k s t ∷ []
approvals_of k (some s) none = []
approvals_of k none t = []

abbrev pub approval : Bytes → SignBeaconAttestationData → Types.Result → List Attested
approval k req approved = approvals_of k req.source req.target
approval k req unknown = []
approval k req denied = []
approval k req failed = []

unfoldable pub approvals :
    List Bytes → List SignBeaconAttestationData → List Types.Result → List Attested
approvals (k ∷ ks) (req ∷ reqs) (r ∷ rs) = approval k req r ++ approvals ks reqs rs
approvals _ _ _ = []

small_of :
    (o : Option Checkpoint) (c : Checkpoint) → IsSmallCheckpoint o → o ≡ some c → c.epoch < pow63
small_of none c h e = cc
small_of (some c') c h e = ground arith

module _ (E : Env) (L : Lawful E) (d : E.Db) where
  -- What an entry stores covers what its key covered.
  abbrev pub IsGood : Bytes × Bytes → Type 0
  IsGood e = (a b : ℕ) → CoveredAt E (E.get d e.0) a b → CoveredAt E (found (value e.1)) a b

  checks-kept :
      (req : SignBeaconAttestationData) (old new : AttestationState) (r : Types.Result)
      → run_sign_beacon_attestation_checks E req old ≡ ret (r, new)
      → (r ≡ approved) ⊎ (new ≡ old)
  unfolding run_sign_beacon_attestation_checks
  checks-kept req old new r h = ground arith

  -- An approved entry: its epochs passed the checks, and are the new state.
  pub record Passed (req : SignBeaconAttestationData) (old new : AttestationState) : Type 0 where
    pub source : Checkpoint
    pub target : Checkpoint
    pub source_is : req.source ≡ some source
    pub target_is : req.target ≡ some target
    pub passes : (check_epochs source.epoch target.epoch old).0 ≡ approved
    pub new_is :
        new ≡ record { source_epoch = int64 source.epoch; target_epoch = int64 target.epoch }

  pub checks-Passed :
      (req : SignBeaconAttestationData) (old new : AttestationState)
      → run_sign_beacon_attestation_checks E req old ≡ ret (approved, new)
      → Passed req old new
  checks-Passed req old new h =
      let (s, t, hs, ht, e) = checks-inv E req old new h in
      record {
        source = s;
        target = t;
        source_is = hs;
        target_is = ht;
        passes = ap (λ (q : Types.Result × AttestationState). q.0) e;
        new_is =
            sym (ap (λ (q : Types.Result × AttestationState). q.1) e)
            ∙ check_epochs-raises s.epoch t.epoch old
                (ap (λ (q : Types.Result × AttestationState). q.0) e);
      }

  abbrev entry : Bytes → AttestationState → Bytes × Bytes
  entry k new = (attestation_key k, encode_attestation (some new))

  pub Passed-fresh :
      (k : Bytes) (req : SignBeaconAttestationData) (old new : AttestationState)
      → attestation_state_at E (E.get d (attestation_key k)) ≡ ret (ok old)
      → (p : Passed req old new) → (a b : ℕ) → CoveredAt E (E.get d (attestation_key k)) a b
      → (a ≤ p.source.epoch) × (b < p.target.epoch)
  Passed-fresh k req old new was p a b c =
      check_epochs-fresh p.source.epoch p.target.epoch a b old p.passes
        (CoveredAt-Above E L (E.get d (attestation_key k)) old a b was c)

  pub Passed-raised :
      (k : Bytes) (req : SignBeaconAttestationData) (old new : AttestationState)
      → IsSmall req
      → (p : Passed req old new) → (a b : ℕ) → (a ≤ p.source.epoch) × (b ≤ p.target.epoch)
      → CoveredAt E (found (value (encode_attestation (some new)))) a b
  Passed-raised k req old new small p a b h =
      subst (λ st. CoveredAt E (found (value (encode_attestation (some st)))) a b) (sym p.new_is)
        (raised E L p.source.epoch p.target.epoch a b
          (small_of req.source p.source small.0 p.source_is)
          (small_of req.target p.target small.1 p.target_is) h)

  kept-IsGood :
      (k : Bytes) (old new : AttestationState)
      → attestation_state_at E (E.get d (attestation_key k)) ≡ ret (ok old)
      → new ≡ old
      → IsGood (entry k new)
  kept-IsGood k old new was e a b c =
      subst (λ st. CoveredAt E (found (value (encode_attestation (some st)))) a b) (sym e)
        (CoveredAt-encode E L old a b
          (CoveredAt-Above E L (E.get d (attestation_key k)) old a b was c)
          (state_at-IsAttestationState E L (E.get d (attestation_key k)) old was))

  pub row-IsGood :
      (k : Bytes) (req : SignBeaconAttestationData) (r : Types.Result) (old new : AttestationState)
      → IsSmall req
      → attestation_state_at E (E.get d (attestation_key k)) ≡ ret (ok old)
      → run_sign_beacon_attestation_checks E req old ≡ ret (r, new)
      → IsGood (entry k new)
  row-IsGood k req r old new small was checks = elim (checks-kept req old new r checks) [
    | inr same ↦ kept-IsGood k old new was same
    | inl yes_approved ↦ λ a b c.
        (let p = checks-Passed req old new (rw (← yes_approved) checks) in
          let h = Passed-fresh k req old new was p a b c in
          Passed-raised k req old new small p a b (omega arith))
  ]
