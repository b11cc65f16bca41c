-- ===== src/Rules/State/RoundTrip.antt =====
-- The stored form of a slashing protection state, read back.
use dirk.Prelude.{
  ℕ, ◌<◌, ◌≡◌, refl, ap, ◌∙◌, Option, none, some, ◌∷◌, ◌++◌, arith, length, take, drop,
}
use dirk.Go.{Bytes, Error}
use dirk.Words.{
  ℤ, int64, uint64, IsInt64, pow64, put_le, get_le, get_le-put_le, length-put_le, int64-uint64,
}
use dirk.Rules.State.{
  AttestationState, ProposalState, encode_attestation, decode_attestation, encode_proposal,
  decode_proposal,
}

-- The epochs and the slot are values of Go's int64.
abbrev pub IsAttestationState : AttestationState → Type 0
IsAttestationState s = IsInt64 s.source_epoch × IsInt64 s.target_epoch

uint64-lt : (z : ℤ) → IsInt64 z → uint64 z < pow64
uint64-lt z h = ground arith

-- Eight bytes of an int64 give it back.
int64-le : (z : ℤ) → IsInt64 z → int64 (get_le (put_le 8 (uint64 z))) ≡ z
int64-le z h = ap int64 (get_le-put_le 8 (uint64 z) (uint64-lt z h)) ∙ int64-uint64 z h

take-put_le : (n : ℕ) (ys : Bytes) → take 8 (put_le 8 n ++ ys) ≡ put_le 8 n
unfolding put_le
take-put_le n ys = refl

drop-put_le : (n : ℕ) (ys : Bytes) → drop 8 (put_le 8 n ++ ys) ≡ ys
unfolding put_le
drop-put_le n ys = refl

take-put_le_self : (n : ℕ) → take 8 (put_le 8 n) ≡ put_le 8 n
unfolding put_le
take-put_le_self n = refl

length-two : (m n : ℕ) → length (put_le 8 m ++ put_le 8 n) ≡ 16
unfolding put_le
length-two m n = refl

module _ (gob : Bytes → AttestationState → Option Error × AttestationState) where
  -- A state with epochs in int64 decodes, from what it encodes to, to itself, whatever the state
  -- that is decoded into and whatever gob does.
  pub decode-encode_attestation :
      (s s0 : AttestationState)
      → IsAttestationState s
      → decode_attestation gob (encode_attestation (some s)) s0 ≡ (none, s)
  unfolding decode_attestation encode_attestation
  decode-encode_attestation s s0 h = rw (
    length-two,
    take-put_le,
    drop-put_le,
    take-put_le_self,
    int64-le s.source_epoch h.0,
    int64-le s.target_epoch h.1,
  )

module _ (gob : Bytes → ProposalState → Option Error × ProposalState) where
  -- A state with a slot in int64 decodes, from what it encodes to, to itself, whatever the state
  -- that is decoded into and whatever gob does.
  pub decode-encode_proposal :
      (s s0 : ProposalState)
      → IsInt64 s.slot
      → decode_proposal gob (encode_proposal (some s)) s0 ≡ (none, s)
  unfolding decode_proposal encode_proposal
  decode-encode_proposal s s0 h = rw (length-put_le, take-put_le_self, int64-le s.slot h)

-- An encoded state is never the empty value that the store refuses.
pub encode_attestation-cons :
    (s : AttestationState) → (bs : Bytes) × (encode_attestation (some s) ≡ 1 ∷ bs)
unfolding encode_attestation
encode_attestation-cons s =
    (put_le 8 (uint64 s.source_epoch) ++ put_le 8 (uint64 s.target_epoch), refl)

pub encode_proposal-cons : (s : ProposalState) → (bs : Bytes) × (encode_proposal (some s) ≡ 1 ∷ bs)
unfolding encode_proposal
encode_proposal-cons s = (put_le 8 (uint64 s.slot), refl)
