-- ===== src/Rules/Attestation/Stored.antt =====
-- What is covered is stored: the key of a public key has a value that decodes to a state that covers it.
use dirk.Rules.Attestation.Watermark.{CoveredAt, Above, CoveredAt}
use dirk.Rules.Attestation.{zero_attestation, attestation_state_of, no_attestation}
use dirk.Rules.Storage.{view_item}
use dirk.Rules.State.{AttestationState, decode_attestation}
use dirk.Go.{ret-inj, panic, Go, Error, Bytes, ok, ret, err, Go, Result}
use dirk.Rules.Env.{Env, Get}
use dirk.Prelude.{
  ℕ, ◌≡◌, inl, inr, refl, sym, subst, true, false, Option, none, some, Bool-cases, if◌then◌else◌,
  str_eq,
}

-- A value that can be read, and its state.
pub record StoredAt (E : Env) (g : Get) (s t : ℕ) : Type 0 where
  pub bytes : Bytes
  pub state : AttestationState
  pub reads : view_item g ≡ ret (ok bytes)
  pub decodes : decode_attestation E.gob_attestation bytes zero_attestation ≡ (none, state)
  pub above : Above state s t

module _ (E : Env) where
  decoded :
      (r : Option Error × AttestationState) (st : AttestationState)
      → (elim r.0 [ none ↦ ok r.1 | some x ↦ err x ]) ≡ ok st
      → r ≡ (none, st)
  decoded (none, s) st h = let e : s ≡ st = cc in rw e refl
  decoded (some x, s) st h = cc

  -- A key that is missing has a state that covers nothing.
  no_state :
      (e : Error) (st : AttestationState) (s t : ℕ)
      → str_eq e "not found" ≡ true
      → ret (attestation_state_of E (err e)) ≡ ret (ok st)
      → Above st s t
      → ⊥
  unfolding attestation_state_of
  no_state e st s t missing h above =
      let read : ret (ok no_attestation) ≡ ret (ok st) =
        subst (λ b. ret (if b then ok no_attestation else err e) ≡ ret (ok st)) missing h in
      let same : no_attestation ≡ st = cc in (subst (λ z. Above z s t) (sym same) above).0

  no_read :
      (e : Error) (st : AttestationState)
      → str_eq e "not found" ≡ false
      → ret (attestation_state_of E (err e)) ≡ ret (ok st)
      → ⊥
  unfolding attestation_state_of
  no_read e st other h =
      let read : ret (err e) ≡ ret (ok st) =
        subst (λ b. ret (if b then ok no_attestation else err e) ≡ ret (ok st)) other h in
      cc

  of_read :
      (r : Go (Result Bytes)) (st : AttestationState) (s t : ℕ)
      → (elim r [ ret a ↦ ret (attestation_state_of E a) | panic ↦ panic ]) ≡ ret (ok st)
      → Above st s t
      → (bs : Bytes) × (r ≡ ret (ok bs))
        × (decode_attestation E.gob_attestation bs zero_attestation ≡ (none, st))
  unfolding attestation_state_of
  of_read panic st s t h above = cc
  of_read (ret (err e)) st s t h above = elim (Bool-cases (str_eq e "not found")) [
    | inl missing ↦ absurd (no_state e st s t missing h above)
    | inr other ↦ absurd (no_read e st other h)
  ]
  of_read (ret (ok bs)) st s t h above =
      (bs, refl, decoded (decode_attestation E.gob_attestation bs zero_attestation) st (ret-inj h))

  pub CoveredAt-StoredAt : (g : Get) (s t : ℕ) → CoveredAt E g s t → StoredAt E g s t
  unfolding attestation_state_of
  CoveredAt-StoredAt g s t (st, e, above) =
      let (bs, reads, decodes) = of_read (view_item g) st s t e above in
      record { bytes = bs; state = st; reads = reads; decodes = decodes; above = above }
