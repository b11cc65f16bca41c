-- ===== src/Interchange/Writes.antt =====
-- The writes of the import: they keep the epochs that the database holds of a public key, if no
-- entry is lower.
use dirk.Rules.Attestations.Stored.{attestation_key-injective}
use dirk.Rules.Attestation.Outcome.{attestation_key-ne-nil, encode_attestation-ne-nil}
use dirk.Ruler.Loop.{proposal_key-ne}
use dirk.Rules.Proposal.Outcome.{proposal_key-ne-nil, encode_proposal-ne-nil}
use dirk.Go.{Bytes, Run, Preserves, Preserves-bind, pure, ◌>>=◌, Error}
use dirk.Rules.Storage.ReadBack.{store-eq, update_outcome}
use dirk.Rules.Storage.{store}
use dirk.Rules.Types.{SlashingProtection}
use dirk.Rules.Interchange.{
  import_proposal, is_set, import_attestation, import_slashing_protection, unless_error,
  Protections,
}
use dirk.Words.{AtLeast, IsInt64}
use dirk.Go.{Bytes}
use dirk.Rules.Attestation.Watermark.{Attested, CoveredAt, Covered, CoveredAt-encode}
use dirk.Rules.Attestation.{attestation_key}
use dirk.Rules.State.{encode_proposal, encode_attestation, AttestationState}
use dirk.Rules.Env.{Env, Lawful, found, value}
use dirk.Rules.Proposal.{proposal_key}
use dirk.Prelude.{
  ◌≡◌, ◌≢◌, inl, inr, sym, ◌∙◌, ap, subst, Bool, true, false, Option, none, some, [], ◌∷◌, All,
  bytes_equal, bytes_equal_iff, Bool-cases, if◌then◌else◌,
}

-- An entry whose import does not lower the epochs of `x`.
abbrev pub Raises : Attested → Bytes × SlashingProtection → Type 0
Raises x (key, v) =
    key ≡ x.pub_key
    → AtLeast v.highest_attested_source_epoch x.source
      × AtLeast v.highest_attested_target_epoch x.target
      × IsInt64 v.highest_attested_source_epoch
      × IsInt64 v.highest_attested_target_epoch

module _ (E : Env) (L : Lawful E) where
  -- A store keeps what is covered, if what it stores under that key covers it.
  store-Covered :
      (d : E.Db) (k v : Bytes) (x : Attested)
      → k ≢ []
      → v ≢ []
      → (k ≡ attestation_key x.pub_key → CoveredAt E (found (value v)) x.source x.target)
      → Covered E d x
      → Covered E (store E k v d).1 x
  store-Covered d k v x hk hv up c = rw (store-eq E k v d hk hv) (elim (update_outcome E L d k v) [
    | inl (_, writes) ↦ elim (Bool-cases (bytes_equal k (attestation_key x.pub_key))) [
      | inl same ↦
          subst (λ g. CoveredAt E g x.source x.target)
            (sym (
              writes (attestation_key x.pub_key)
              ∙ ap (λ b. if b then found (value v) else E.get d (attestation_key x.pub_key)) same))
            (up ((bytes_equal_iff k (attestation_key x.pub_key)).0 same))
      | inr other ↦
          subst (λ g. CoveredAt E g x.source x.target)
            (sym (
              writes (attestation_key x.pub_key)
              ∙ ap (λ b. if b then found (value v) else E.get d (attestation_key x.pub_key)) other))
            c
    ]
    | inr (_, keeps) ↦
        subst (λ g. CoveredAt E g x.source x.target) (sym (keeps (attestation_key x.pub_key))) c
  ])

  import_proposal-Covered :
      (key : Bytes) (v : SlashingProtection) (x : Attested)
      → Preserves (λ d. Covered E d x) (import_proposal E key v)
  unfolding import_proposal
  import_proposal-Covered key v x d c = if_set (is_set v.highest_proposed_slot)
    where
      new : Bytes
      new = encode_proposal (some (record { slot = v.highest_proposed_slot }))

      if_set :
          (b : Bool) → Covered E ((if b then store E (proposal_key key) new else pure none) d).1 x
      if_set true =
          store-Covered d (proposal_key key) new x (proposal_key-ne-nil key)
            (encode_proposal-ne-nil (record { slot = v.highest_proposed_slot }))
            (λ same. absurd (proposal_key-ne key x.pub_key same)) c
      if_set false = c

  import_attestation-Covered :
      (key : Bytes) (v : SlashingProtection) (x : Attested)
      → Raises x (key, v)
      → Preserves (λ d. Covered E d x) (import_attestation E key v)
  unfolding import_attestation
  import_attestation-Covered key v x raises d c = if_set (is_set v.highest_attested_source_epoch)
    where
      state : AttestationState
      state = record {
        source_epoch = v.highest_attested_source_epoch;
        target_epoch = v.highest_attested_target_epoch;
      }

      covers :
          key ≡ x.pub_key
          → CoveredAt E (found (value (encode_attestation (some state)))) x.source x.target
      covers same =
          let (s, t, hs, ht) = raises same in
          CoveredAt-encode E L state x.source x.target (s, t) (hs, ht)

      if_set :
          (b : Bool)
          → Covered E
              ((if b
                  then store E (attestation_key key) (encode_attestation (some state))
                  else pure none)
                d).1
              x
      if_set true =
          store-Covered d (attestation_key key) (encode_attestation (some state)) x
            (attestation_key-ne-nil key) (encode_attestation-ne-nil state)
            (λ same. covers (attestation_key-injective key x.pub_key same)) c
      if_set false = c

  unless_error-Covered :
      (x : Attested) (e : Option Error) (next : Run E.Db (Option Error))
      → Preserves (λ d. Covered E d x) next
      → Preserves (λ d. Covered E d x) (unless_error E e next)
  unless_error-Covered x none next h = h
  unless_error-Covered x (some e) next h = λ d c. c

  -- The import keeps what is covered, if no entry lowers it: also when a write fails.
  pub import-Covered :
      (m : Protections) (x : Attested)
      → All (Raises x) m
      → Preserves (λ d. Covered E d x) (import_slashing_protection E m)
  unfolding import_slashing_protection
  import-Covered [] x h = λ d c. c
  import-Covered ((key, v) ∷ m) x h =
      Preserves-bind (λ d. Covered E d x) (import_proposal E key v)
        (λ e.
          unless_error E e (
            import_attestation E key v >>= λ e'.
            unless_error E e' (import_slashing_protection E m)))
        (import_proposal-Covered key v x)
        (λ e.
          unless_error-Covered x e
            (import_attestation E key v >>= λ e'.
              unless_error E e' (import_slashing_protection E m))
            (Preserves-bind (λ d. Covered E d x) (import_attestation E key v)
              (λ e'. unless_error E e' (import_slashing_protection E m))
              (import_attestation-Covered key v x h.0)
              (λ e'.
                unless_error-Covered x e' (import_slashing_protection E m)
                  (import-Covered m x h.1))))
