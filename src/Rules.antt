-- ===== src/Rules.antt =====
-- rules: the decision whether a request may be signed, and the slashing protection data behind it.
pub mod Types
pub mod State
pub mod Env
pub mod Storage
pub mod Attestation
pub mod Attestations
pub mod Proposal
pub mod Sign
pub mod Interchange
