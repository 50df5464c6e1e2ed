-- ===== src/Attest.antt =====
-- core/aggregate.go, core/attestation.go and consensus/finality.go: votes, certificates, the pool.
pub mod Bls
pub mod Bitfield
pub mod Message
pub mod Binding
pub mod Aggregate
pub mod Vote
pub mod Finality
pub mod Pool
mod Tests
