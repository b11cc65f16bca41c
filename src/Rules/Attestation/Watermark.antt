-- ===== src/Rules/Attestation/Watermark.antt =====
-- The stored epochs of a public key as a watermark: what they cover, and that approvals raise it.
use dirk.Prelude.{
  ℕ, ◌<◌, ◌≤◌, ◌≡◌, refl, sym, ◌∙◌, ap, subst, none, some, [], ◌∷◌, arith, bytes_equal,
  bytes_equal_iff, Bool-cases, if◌then◌else◌, inl, inr, ◌⊎◌,
}
use dirk.Go.{Bytes, ret, ok}
use dirk.Words.{int64, AtLeast, int64-IsInt64, pow63}
use dirk.Rules.Types.{Checkpoint, SignBeaconAttestationData, approved}
use dirk.Rules.State.{AttestationState, encode_attestation, decode_attestation}
use dirk.Rules.State.RoundTrip.{decode-encode_attestation, IsAttestationState}
use dirk.Rules.Env.{
  Env, Lawful, Get, found, key_not_found, get_error, value, read_error, read_panic,
}
use dirk.Rules.Storage.{view_item}
use dirk.Rules.Storage.ReadBack.{Writes}
use dirk.Rules.Attestation.{
  attestation_key, check_epochs, attestation_state_of, zero_attestation, no_attestation,
}
use dirk.Rules.Attestation.Outcome.{attestation_state_at, Approved}
use dirk.History.{SafeStep}

-- An attestation that was approved: the public key, and the epochs.
pub record Attested : Type 0 where
  pub pub_key : Bytes
  pub source : ℕ
  pub target : ℕ

-- Two attestations of one public key, the second signed after the first: the second is no double vote,
-- since its target is higher, and neither surrounds the other, since its source is no lower.
abbrev pub Later : Attested → Attested → Type 0
Later x y = x.pub_key ≡ y.pub_key → (x.source ≤ y.source) × (x.target < y.target)

-- The attestation that an approving call approves.
abbrev pub attested : Bytes → Checkpoint → Checkpoint → Attested
attested pk source target = record { pub_key = pk; source = source.epoch; target = target.epoch }

-- A state's epochs are no lower.
abbrev pub Above : AttestationState → ℕ → ℕ → Type 0
Above st s t = AtLeast st.source_epoch s × AtLeast st.target_epoch t

-- What a key holds decodes to a state that is no lower.
abbrev pub CoveredAt : (E : Env) → Get → ℕ → ℕ → Type 0
CoveredAt E g s t =
    (st : AttestationState) × (attestation_state_at E g ≡ ret (ok st)) × Above st s t

abbrev pub Covered : (E : Env) → E.Db → Attested → Type 0
Covered E d x = CoveredAt E (E.get d (attestation_key x.pub_key)) x.source x.target

-- An approved request is later than all that the state covers.
pub check_epochs-fresh :
    (s t a b : ℕ) (st : AttestationState)
    → (check_epochs s t st).0 ≡ approved
    → Above st a b
    → (a ≤ s) × (b < t)
unfolding check_epochs
check_epochs-fresh s t a b st h c = ground arith

-- An approved request's epochs are the new state's.
pub check_epochs-raises :
    (s t : ℕ) (st : AttestationState)
    → (check_epochs s t st).0 ≡ approved
    → (check_epochs s t st).1 ≡ record { source_epoch = int64 s; target_epoch = int64 t }
unfolding check_epochs
check_epochs-raises s t st h = ground arith

-- One that is not approved leaves the state.
pub check_epochs-keeps :
    (s t : ℕ) (st : AttestationState)
    → ((check_epochs s t st).0 ≡ approved) ⊎ ((check_epochs s t st).1 ≡ st)
unfolding check_epochs
check_epochs-keeps s t st = ground arith

-- Below 2^63 the new state covers what was approved.
int64-AtLeast : (n a : ℕ) → n < pow63 → a ≤ n → AtLeast (int64 n) a
int64-AtLeast n a h l = ground arith

module _ (E : Env) (L : Lawful E) where
  -- What is stored reads back.
  pub state_at-encode :
      (st : AttestationState)
      → IsAttestationState st
      → attestation_state_at E (found (value (encode_attestation (some st)))) ≡ ret (ok st)
  unfolding attestation_state_of view_item
  state_at-encode st h =
      ground (arith, decode-encode_attestation E.gob_attestation st zero_attestation h)

  decode-IsAttestationState :
      (bs : Bytes)
      → (decode_attestation E.gob_attestation bs zero_attestation).0 ≡ none
      → IsAttestationState (decode_attestation E.gob_attestation bs zero_attestation).1
  unfolding decode_attestation
  decode-IsAttestationState [] h = cc
  decode-IsAttestationState (v ∷ bs) h =
      ground (arith, L.gob_attestation_int64 (v ∷ bs) zero_attestation)

  -- A state that is read is the one of a missing key, or decoded from the value.
  attestation_state_at-inv :
      (g : Get) (st : AttestationState)
      → attestation_state_at E g ≡ ret (ok st)
      → (st ≡ no_attestation)
        ⊎ ((bs : Bytes) × ((decode_attestation E.gob_attestation bs zero_attestation).0 ≡ none)
            × (st ≡ (decode_attestation E.gob_attestation bs zero_attestation).1))
  unfolding view_item attestation_state_of
  attestation_state_at-inv (found (value v)) st h = inr (v, ground arith, ground arith)
  attestation_state_at-inv (found (read_error e)) st h = inl (ground arith)
  attestation_state_at-inv (found read_panic) st h = cc
  attestation_state_at-inv key_not_found st h = inl (ground arith)
  attestation_state_at-inv (get_error (value v)) st h = inr (v, ground arith, ground arith)
  attestation_state_at-inv (get_error (read_error e)) st h = inl (ground arith)
  attestation_state_at-inv (get_error read_panic) st h = cc

  -- What is read has epochs in int64.
  pub state_at-IsAttestationState :
      (g : Get) (st : AttestationState)
      → attestation_state_at E g ≡ ret (ok st)
      → IsAttestationState st
  state_at-IsAttestationState g st h = elim (attestation_state_at-inv g st h) [
    | inl e ↦ rw e (omega arith)
    | inr (bs, done, e) ↦ rw e (decode-IsAttestationState bs done)
  ]

  -- Once the state's epochs are stored again, under the same key, what they covered stays covered.
  pub CoveredAt-encode :
      (st : AttestationState) (a b : ℕ)
      → Above st a b
      → IsAttestationState st
      → CoveredAt E (found (value (encode_attestation (some st)))) a b
  CoveredAt-encode st a b h i = (st, state_at-encode st i, h)

  -- A write of one key forgets nothing, if what it stores under that key is no lower.
  pub Writes-preserves :
      (d d' : E.Db) (k v : Bytes) (x : Attested)
      → Writes E d k v d'
      → (CoveredAt E (E.get d k) x.source x.target
          → CoveredAt E (found (value v)) x.source x.target)
      → Covered E d x
      → Covered E d' x
  Writes-preserves d d' k v x w up c =
      elim (Bool-cases (bytes_equal k (attestation_key x.pub_key))) [
        | inl same ↦
            let e : k ≡ attestation_key x.pub_key =
              (bytes_equal_iff k (attestation_key x.pub_key)).0 same in
            subst (λ g. CoveredAt E g x.source x.target)
              (sym (
                w (attestation_key x.pub_key)
                ∙ ap (λ b. if b then found (value v) else E.get d (attestation_key x.pub_key))
                    same))
              (up (subst (λ j. CoveredAt E (E.get d j) x.source x.target) (sym e) c))
        | inr other ↦
            subst (λ g. CoveredAt E g x.source x.target)
              (sym (
                w (attestation_key x.pub_key)
                ∙ ap (λ b. if b then found (value v) else E.get d (attestation_key x.pub_key))
                    other))
              c
      ]

  pub CoveredAt-Above :
      (g : Get) (st : AttestationState) (a b : ℕ)
      → attestation_state_at E g ≡ ret (ok st)
      → CoveredAt E g a b
      → Above st a b
  CoveredAt-Above g st a b e (st', e', h) = subst (λ z. Above z a b) (cc) h

  -- What a request may store once it has passed the checks covers all that its key covered, and
  -- the request itself.
  pub raised :
      (s t a b : ℕ)
      → s < pow63
      → t < pow63
      → (a ≤ s) × (b ≤ t)
      → CoveredAt E
          (found (
            value (
              encode_attestation
                (some (record { source_epoch = int64 s; target_epoch = int64 t })))))
          a
          b
  raised s t a b hs ht h =
      CoveredAt-encode (record { source_epoch = int64 s; target_epoch = int64 t }) a b
        (int64-AtLeast s a hs h.0, int64-AtLeast t b ht h.1) (int64-IsInt64 s, int64-IsInt64 t)

  Writes-self : (d d' : E.Db) (k v : Bytes) → Writes E d k v d' → E.get d' k ≡ found (value v)
  Writes-self d d' k v w =
      w k ∙ ap (λ b. if b then found (value v) else E.get d k) ((bytes_equal_iff k k).1 refl)

  -- An approving call is a safe step, if the epochs fit int64.
  pub Approved-SafeStep :
      (pk : Bytes) (req : SignBeaconAttestationData) (d d' : E.Db) (a : Approved E pk req d d')
      → a.source.epoch < pow63
      → a.target.epoch < pow63
      → SafeStep (Covered E) Later d (attested pk a.source a.target ∷ []) d'
  Approved-SafeStep pk req d d' a hs ht = record {
    preserves = λ x c. Writes-preserves d d' key new x a.writes (λ h. lift x.source x.target h) c;
    fresh = (
      λ x c e.
          later x.source x.target
            (subst (λ j. CoveredAt E (E.get d (attestation_key j)) x.source x.target) e c),
      tt,
    );
    covered = (
      subst (λ g. CoveredAt E g a.source.epoch a.target.epoch)
          (sym (Writes-self d d' key new a.writes))
          (raised a.source.epoch a.target.epoch a.source.epoch a.target.epoch hs ht (omega arith)),
      tt,
    );
    ordered = (tt, tt);
  }
    where
      key : Bytes
      key = attestation_key pk

      new : Bytes
      new = encode_attestation (
          some
            (record { source_epoch = int64 a.source.epoch; target_epoch = int64 a.target.epoch }))

      later :
          (m n : ℕ) → CoveredAt E (E.get d key) m n → (m ≤ a.source.epoch) × (n < a.target.epoch)
      later m n c =
          check_epochs-fresh a.source.epoch a.target.epoch m n a.old a.passes
            (CoveredAt-Above (E.get d key) a.old m n a.was c)

      lift : (m n : ℕ) → CoveredAt E (E.get d key) m n → CoveredAt E (found (value new)) m n
      lift m n c =
          let h = later m n c in raised a.source.epoch a.target.epoch m n hs ht (omega arith)
