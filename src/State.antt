-- ===== src/State.antt =====
-- core/account.go and the package state: accounts, the journal, snapshots.
pub mod Objects
pub mod Journal
pub mod Writes
pub mod Access
pub mod Snapshots
pub mod Views
pub mod Restored
pub mod Reverted
pub mod Undo
pub mod Rollback
pub mod Blocks
pub mod Operations
pub mod Slots
pub mod Stores
pub mod Effects
pub mod Warming
pub mod Revisions
pub mod Recovery
pub mod Calls
pub mod Runs
pub mod Lives
pub mod Found
pub mod Balances
pub mod Kept
pub mod Storage
pub mod Sweep
pub mod Contract
mod Tests
pub mod Observed
