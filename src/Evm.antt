-- ===== src/Evm.antt =====
-- package evm: what instructions cost.
pub mod Gas
pub mod Costs
mod Tests
