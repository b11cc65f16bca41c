-- ===== src/Rules/Attestations/Batch.antt =====
-- The approvals of a call of OnSignBeaconAttestations whose states were stored.
use dirk.Prelude.{
  ◌≡◌, ◌≢◌, sym, ◌∙◌, subst, Option, none, some, List, [], ◌∷◌, map, arith, All, All-append,
  All-map, Ordered,
}
use dirk.Go.{Bytes, ret}
use dirk.History.{SafeStep, Ordered-append}
use dirk.Rules.Types
use dirk.Rules.Types.{Checkpoint, SignBeaconAttestationData, unknown, approved, denied, failed}
use dirk.Rules.State.{AttestationState, encode_attestation}
use dirk.Rules.Env.{Env, Lawful, found, value, newest, after_writes}
use dirk.Rules.Storage.Batch.{staged_entries, All-staged_entries}
use dirk.Rules.Attestation.{attestation_key, run_sign_beacon_attestation_checks}
use dirk.Rules.Attestation.Watermark.{Attested, Later, CoveredAt, Covered, attested}
use dirk.Rules.Attestations.Rows.{Rows, no_row, row}
use dirk.Rules.Attestations.Safety.{
  IsSmall, IsGood, Passed, checks-Passed, Passed-fresh, Passed-raised, approval, approvals_of,
  approvals,
}
use dirk.Rules.Attestations.Stored.{
  attestation_key-injective, stored_entries, newest-staged, Rows-IsGood, after_writes-covers,
}

-- The approvals of an entry are of its key.
approval-key :
    (Q : Bytes → Type 0) (k : Bytes) (req : SignBeaconAttestationData) (r : Types.Result)
    → Q k
    → All (λ y. Q (Attested.pub_key y)) (approval k req r)
approval-key Q k req unknown q = tt
approval-key Q k req denied q = tt
approval-key Q k req failed q = tt
approval-key Q k req approved q = of req.source req.target
  where
    of : (s t : Option Checkpoint) → All (λ y. Q (Attested.pub_key y)) (approvals_of k s t)
    of (some s) (some t) = (q, tt)
    of (some s) none = tt
    of none t = tt

approvals-keys :
    (Q : Bytes → Type 0) (ks : List Bytes) (reqs : List SignBeaconAttestationData)
    (rs : List Types.Result)
    → All Q ks
    → All (λ y. Q (Attested.pub_key y)) (approvals ks reqs rs)
unfolding approvals
approvals-keys Q [] reqs rs h = tt
approvals-keys Q (k ∷ ks) [] rs h = tt
approvals-keys Q (k ∷ ks) (req ∷ reqs) [] h = tt
approvals-keys Q (k ∷ ks) (req ∷ reqs) (r ∷ rs) h =
    All-append (λ y. Q (Attested.pub_key y)) (approval k req r) (approvals ks reqs rs)
      (approval-key Q k req r h.0) (approvals-keys Q ks reqs rs h.1)

-- There is at most one.
approval-Ordered :
    (k : Bytes) (req : SignBeaconAttestationData) (r : Types.Result)
    → Ordered Later (approval k req r)
approval-Ordered k req unknown = tt
approval-Ordered k req denied = tt
approval-Ordered k req failed = tt
approval-Ordered k req approved = of req.source req.target
  where
    of : (s t : Option Checkpoint) → Ordered Later (approvals_of k s t)
    of (some s) (some t) = (tt, tt)
    of (some s) none = tt
    of none t = tt

abbrev Apart : Bytes → List Attested → Type 0
Apart i ys = All (λ y. i ≢ Attested.pub_key y) ys

Apart-Later : (x : Attested) (ys : List Attested) → Apart x.pub_key ys → All (Later x) ys
Apart-Later x ys h = All-map (λ y. x.pub_key ≢ y.pub_key) (Later x) ys (λ y ne e. absurd (ne e)) h

All-keys :
    (k : Bytes) (ks : List Bytes)
    → All (λ j. k ≢ j) ks
    → All (λ j. attestation_key k ≢ j) (map attestation_key ks)
All-keys k [] h = tt
All-keys k (j ∷ ks) h = (λ e. h.0 (attestation_key-injective k j e), All-keys k ks h.1)

keys-Apart :
    (ks : List Bytes) → Ordered (λ a b. a ≢ b) ks → Ordered (λ a b. a ≢ b) (map attestation_key ks)
keys-Apart [] h = tt
keys-Apart (k ∷ ks) h = (All-keys k ks h.0, keys-Apart ks h.1)

-- With different public keys no two approvals are of one key.
pub approvals-Ordered :
    (ks : List Bytes) (reqs : List SignBeaconAttestationData) (rs : List Types.Result)
    → Ordered (λ a b. a ≢ b) ks
    → Ordered Later (approvals ks reqs rs)
unfolding approvals
approvals-Ordered [] reqs rs h = tt
approvals-Ordered (k ∷ ks) [] rs h = tt
approvals-Ordered (k ∷ ks) (req ∷ reqs) [] h = tt
approvals-Ordered (k ∷ ks) (req ∷ reqs) (r ∷ rs) h =
    Ordered-append (λ (d : Unit {0}) x. Unit {0}) Later (approval k req r) (approvals ks reqs rs)
      (approval-Ordered k req r) (approvals-Ordered ks reqs rs h.1)
      (All-map (λ x. Apart (Attested.pub_key x) (approvals ks reqs rs))
        (λ x. All (Later x) (approvals ks reqs rs)) (approval k req r)
        (λ x apart. Apart-Later x (approvals ks reqs rs) apart)
        (approval-key (λ i. Apart i (approvals ks reqs rs)) k req r
          (approvals-keys (λ j. k ≢ j) ks reqs rs h.0)))

abbrev pub staged : List Bytes → List AttestationState → List (Bytes × Bytes)
staged ks news =
    staged_entries (map attestation_key ks) (map (λ s. encode_attestation (some s)) news) []

module _ (E : Env) (L : Lawful E) (d : E.Db) where
  -- A property of an entry that has passed is one of its approvals.
  approval-Passed :
      (Q : Attested → Type 0) (k : Bytes) (req : SignBeaconAttestationData) (r : Types.Result)
      (old new : AttestationState)
      → run_sign_beacon_attestation_checks E req old ≡ ret (r, new)
      → ((p : Passed E L d req old new) → Q (attested k p.source p.target))
      → All Q (approval k req r)
  approval-Passed Q k req unknown old new c f = tt
  approval-Passed Q k req denied old new c f = tt
  approval-Passed Q k req failed old new c f = tt
  approval-Passed Q k req approved old new c f =
      let p = checks-Passed E L d req old new c in
      subst (λ s. All Q (approvals_of k s req.target)) (sym p.source_is)
        (subst (λ t. All Q (approvals_of k (some p.source) t)) (sym p.target_is) (f p, tt))

  Rows-fresh :
      {ks : List Bytes} {reqs : List SignBeaconAttestationData} {rs : List Types.Result}
      {news : List AttestationState}
      → Rows E d ks reqs rs news
      → All (λ y. (x : Attested) → Covered E d x → Later x y) (approvals ks reqs rs)
  unfolding approvals
  Rows-fresh no_row = tt
  Rows-fresh (row {ks = ks} {reqs = reqs} {rs = rs} k req r old new was checks rest) =
      All-append (λ y. (x : Attested) → Covered E d x → Later x y) (approval k req r)
        (approvals ks reqs rs)
        (approval-Passed (λ y. (x : Attested) → Covered E d x → Later x y) k req r old new checks
          (λ p x c e.
            Passed-fresh E L d k req old new was p x.source x.target
              (subst (λ j. CoveredAt E (E.get d (attestation_key j)) x.source x.target) e c)))
        (Rows-fresh rest)

  Rows-Covered :
      (d' : E.Db)
      → {ks : List Bytes} {reqs : List SignBeaconAttestationData} {rs : List Types.Result}
        {news : List AttestationState}
      → Rows E d ks reqs rs news
      → All IsSmall reqs
      → All (λ e. E.get d' e.0 ≡ found (value e.1)) (stored_entries ks news)
      → All (Covered E d') (approvals ks reqs rs)
  unfolding approvals
  Rows-Covered d' no_row h w = tt
  Rows-Covered d' (row {ks = ks} {reqs = reqs} {rs = rs} k req r old new was checks rest) h w =
      All-append (Covered E d') (approval k req r) (approvals ks reqs rs)
        (approval-Passed (Covered E d') k req r old new checks (λ p.
          subst (λ g. CoveredAt E g p.source.epoch p.target.epoch) (sym w.0)
            (Passed-raised E L d k req old new h.0 p p.source.epoch p.target.epoch (omega arith))))
        (Rows-Covered d' rest h.1 w.1)

  read_back :
      (d' : E.Db) (ks : List Bytes) (news : List AttestationState)
      → Ordered (λ a b. a ≢ b) (map attestation_key ks)
      → ((j : Bytes) → E.get d' j ≡ after_writes (staged ks news) j (E.get d j))
      → All (λ e. E.get d' e.0 ≡ found (value e.1)) (stored_entries ks news)
  read_back d' ks news o w =
      All-map (λ e. newest (staged ks news) e.0 ≡ some e.1) (λ e. E.get d' e.0 ≡ found (value e.1))
        (stored_entries ks news) (λ e n. w e.0 ∙ ground arith)
        (newest-staged (map attestation_key ks) (map (λ s. encode_attestation (some s)) news) [] o)

  -- If every state was stored, the call is a safe step.
  pub written-SafeStep :
      (d' : E.Db) (ks : List Bytes) (reqs : List SignBeaconAttestationData) (rs : List Types.Result)
      (news : List AttestationState)
      → Rows E d ks reqs rs news
      → All IsSmall reqs
      → Ordered (λ a b. a ≢ b) ks
      → ((j : Bytes) → E.get d' j ≡ after_writes (staged ks news) j (E.get d j))
      → SafeStep (Covered E) Later d (approvals ks reqs rs) d'
  written-SafeStep d' ks reqs rs news rows small apart w = record {
    preserves = λ x c.
        subst (λ g. CoveredAt E g x.source x.target) (sym (w (attestation_key x.pub_key)))
          (after_writes-covers E L d (staged ks news) (attestation_key x.pub_key) x.source x.target
            good c);
    fresh = Rows-fresh rows;
    covered = Rows-Covered d' rows small (read_back d' ks news (keys-Apart ks apart) w);
    ordered = approvals-Ordered ks reqs rs apart;
  }
    where
      good : All (IsGood E L d) (staged ks news)
      good =
          All-staged_entries (IsGood E L d) (map attestation_key ks)
            (map (λ s. encode_attestation (some s)) news) [] tt (Rows-IsGood E L d rows small)
