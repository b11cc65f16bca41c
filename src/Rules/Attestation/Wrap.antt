-- ===== src/Rules/Attestation/Wrap.antt =====
-- The state that epochs of 2^63 and above leave.
use dirk.Rules.State.{AttestationState}
use dirk.Prelude.{ℕ, ◌<◌, ◌≤◌, ◌≡◌, arith}
use dirk.Rules.Attestation.{check_epochs, approved}
use dirk.Words.{pow64, int64_large, pow63}

-- Once an attestation is approved whose epochs are both at least 2^63 (and fit in uint64), the
-- checks against the state that it leaves approve every attestation with a source below its target, however low
-- its epochs are.
pub check_epochs-wraps :
    (s t s' t' : ℕ) (st : AttestationState)
    → (check_epochs s t st).0 ≡ approved
    → pow63 ≤ s
    → pow63 ≤ t
    → s < pow64
    → t < pow64
    → s' < t'
    → (check_epochs s' t' (check_epochs s t st).1).0 ≡ approved
unfolding check_epochs
check_epochs-wraps s t s' t' st h a b c d e = ground (arith, int64_large s, int64_large t)
