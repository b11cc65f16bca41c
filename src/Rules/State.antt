-- ===== src/Rules/State.antt =====
-- rules/standard/signbeaconattestation.go and signbeaconproposal.go: the state kept for each
-- public key, and the format in which the store holds it.
pub mod RoundTrip
use dirk.Prelude.{
  ℕ, suc, ◌≡◌, Option, none, some, List, [], ◌∷◌, ◌++◌, length, take, drop, replicate, ◌==◌,
  if◌then◌else◌,
}
use dirk.Go.{Bytes, Error}
use dirk.Words.{ℤ, int64, uint64, put_le, get_le}

pub record AttestationState : Type 0 where
  pub source_epoch : ℤ  -- int64
  pub target_epoch : ℤ  -- int64

pub record ProposalState : Type 0 where
  pub slot : ℤ  -- int64

-- The first byte is the version.
unfoldable pub encode_attestation : Option AttestationState → Bytes
encode_attestation none = 1 ∷ replicate 16 0
encode_attestation (some s) =
    1 ∷ (put_le 8 (uint64 s.source_epoch) ++ put_le 8 (uint64 s.target_epoch))

-- The receiver is updated; beside an error its fields are of no use. The text of the second error
-- ends with the size in the source.
unfoldable pub decode_attestation :
    (Bytes → AttestationState → Option Error × AttestationState)
    → Bytes
    → AttestationState
    → Option Error × AttestationState
decode_attestation gob [] s = (some "no data supplied", s)
decode_attestation gob (version ∷ body) s =
    if version == 1
    then (if length body == 16
        then (
          none,
          record {
            source_epoch = int64 (get_le (take 8 body));
            target_epoch = int64 (get_le (take 8 (drop 8 body)));
          },
        )
        else (some "invalid version 1 data size", s))
    else gob (version ∷ body) s

unfoldable pub encode_proposal : Option ProposalState → Bytes
encode_proposal none = 1 ∷ replicate 8 0
encode_proposal (some s) = 1 ∷ put_le 8 (uint64 s.slot)

unfoldable pub decode_proposal :
    (Bytes → ProposalState → Option Error × ProposalState)
    → Bytes
    → ProposalState
    → Option Error × ProposalState
decode_proposal gob [] s = (some "no data supplied", s)
decode_proposal gob (version ∷ body) s =
    if version == 1
    then (if length body == 8
        then (none, record { slot = int64 (get_le (take 8 body)) })
        else (some "invalid version 1 data size", s))
    else gob (version ∷ body) s
