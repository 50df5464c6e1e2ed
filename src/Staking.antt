-- ===== src/Staking.antt =====
-- The package staking: parameters, the registry in the storage of an account, the lifecycle of
-- a validator and the work at the end of an epoch.
pub mod Params
pub mod Store
pub mod Registry
pub mod Lifecycle
pub mod Epoch
pub mod Proposer
pub mod Packing
pub mod Records
pub mod Funds
pub mod Conservation
pub mod Exits
pub mod Closing
mod Tests
