-- ===== src/Rules/Attestations/Stored.antt =====
-- What the states stored by a call of OnSignBeaconAttestations cover.
use dirk.Prelude.{
  ℕ, ◌≡◌, ◌≢◌, inl, inr, refl, sym, subst, some, List, [], ◌∷◌, map, arith, All, Ordered,
  bytes_equal, bytes_equal_iff, Bool-cases, if◌then◌else◌,
}
use dirk.Go.{Bytes}
use dirk.Rules.Types
use dirk.Rules.Types.{SignBeaconAttestationData}
use dirk.Rules.State.{AttestationState, encode_attestation}
use dirk.Rules.Env.{Env, Lawful, Get, found, value, newest, after_writes, WroteSome}
use dirk.Rules.Storage.Batch.{entries, staged_entries, newest-staged_head}
use dirk.Rules.Attestation.{attestation_key}
use dirk.Rules.Attestation.Watermark.{CoveredAt}
use dirk.Rules.Attestations.Rows.{Rows, no_row, row}
use dirk.Rules.Attestations.Safety.{IsSmall, IsGood, row-IsGood}

-- A key is its public key and one byte more.
pub attestation_key-injective : (k j : Bytes) → attestation_key k ≡ attestation_key j → k ≡ j
unfolding attestation_key
attestation_key-injective [] [] h = refl
attestation_key-injective [] (y ∷ []) h = cc
attestation_key-injective [] (y ∷ y' ∷ j) h = cc
attestation_key-injective (x ∷ []) [] h = cc
attestation_key-injective (x ∷ x' ∷ k) [] h = cc
attestation_key-injective (x ∷ k) (y ∷ j) h = ground (arith, attestation_key-injective k j)

abbrev pub stored_entries : List Bytes → List AttestationState → List (Bytes × Bytes)
stored_entries ks news =
    entries (map attestation_key ks) (map (λ s. encode_attestation (some s)) news)

after_writes-cons :
    (j v : Bytes) (es : List (Bytes × Bytes)) (k : Bytes) (g : Get)
    → after_writes ((j, v) ∷ es) k g
      ≡ (if bytes_equal j k then found (value v) else after_writes es k g)
after_writes-cons j v es k g = ground arith

-- With different keys each is read back.
pub newest-staged :
    (ks vs : List Bytes) (es : List (Bytes × Bytes))
    → Ordered (λ a b. a ≢ b) ks
    → All (λ e. newest (staged_entries ks vs es) e.0 ≡ some e.1) (entries ks vs)
newest-staged [] vs es h = tt
newest-staged (k ∷ ks) [] es h = tt
newest-staged (k ∷ ks) (v ∷ vs) es h =
    (newest-staged_head k ks v vs es h.0, newest-staged ks vs ((k, v) ∷ es) h.1)

module _ (E : Env) (L : Lawful E) (d : E.Db) where
  pub Rows-IsGood :
      {ks : List Bytes} {reqs : List SignBeaconAttestationData} {rs : List Types.Result}
      {news : List AttestationState}
      → Rows E d ks reqs rs news
      → All IsSmall reqs
      → All (IsGood E L d) (stored_entries ks news)
  Rows-IsGood no_row h = tt
  Rows-IsGood (row k req r old new was checks rest) h =
      (row-IsGood E L d k req r old new h.0 was checks, Rows-IsGood rest h.1)

  -- A key that reads as after good writes covers what it did.
  pub after_writes-covers :
      (es : List (Bytes × Bytes)) (k : Bytes) (a b : ℕ)
      → All (IsGood E L d) es
      → CoveredAt E (E.get d k) a b
      → CoveredAt E (after_writes es k (E.get d k)) a b
  after_writes-covers [] k a b h c = c
  after_writes-covers ((j, v) ∷ es) k a b h c =
      subst (λ g. CoveredAt E g a b) (sym (after_writes-cons j v es k (E.get d k)))
        (elim (Bool-cases (bytes_equal j k)) [
          | inl same ↦ rw same (
              h.0 a b
                (subst (λ i. CoveredAt E (E.get d i) a b) (sym ((bytes_equal_iff j k).0 same)) c))
          | inr other ↦ rw other (after_writes-covers es k a b h.1 c)
        ])

  pub WroteSome-covers :
      (es : List (Bytes × Bytes)) (k : Bytes) (now : Get) (a b : ℕ)
      → All (IsGood E L d) es
      → WroteSome es k (E.get d k) now
      → CoveredAt E (E.get d k) a b
      → CoveredAt E now a b
  WroteSome-covers [] k now a b h w c = subst (λ g. CoveredAt E g a b) (sym w) c
  WroteSome-covers ((j, v) ∷ es) k now a b h (inl (same, is)) c =
      subst (λ g. CoveredAt E g a b) (sym is)
        (h.0 a b (subst (λ i. CoveredAt E (E.get d i) a b) (sym same) c))
  WroteSome-covers ((j, v) ∷ es) k now a b h (inr w) c = WroteSome-covers es k now a b h.1 w c
