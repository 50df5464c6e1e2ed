-- ===== src/Processor.antt =====
-- package processor: transactions against the world state, and the fee market.
pub mod Fees
pub mod Market
pub mod Gas
pub mod Intrinsic
pub mod Transition
pub mod Settling
pub mod Running
pub mod Checking
pub mod Applying
pub mod Paying
mod Tests
