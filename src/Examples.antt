-- ===== src/Examples.antt =====
-- Concrete inputs: a database in memory, tests, and the properties applied.
pub mod Memory
pub mod Attestations
pub mod Generations
pub mod Locking
pub mod Mutexes
pub mod Requested
pub mod Imports
mod Witnesses
mod Sequences
