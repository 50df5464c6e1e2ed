-- ===== src/Poa.antt =====
-- consensus/poa.go: whose turn it is, and when.
pub mod Engine
pub mod Headers
pub mod Rounds
pub mod Sealing
pub mod Proposing
mod Tests
mod SealingTests
