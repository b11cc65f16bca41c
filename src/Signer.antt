-- ===== src/Signer.antt =====
-- services/signer/standard
pub mod Services
pub mod Account
pub mod Root
pub mod Single
pub mod Several
pub mod Drops
pub mod Signature
pub mod Safety
pub mod SeveralSignatures
pub mod SignedRequests
pub mod GenericRequests
pub mod SignedEntries
pub mod SeveralSafety
pub mod SeveralCalls
pub mod History
