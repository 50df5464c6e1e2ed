-- ===== src/State/Contract.antt =====
-- state/statedb.go: what Snapshot and RevertToSnapshot promise, and what Copy and Finalise keep.
use padi_chain.Base.{suc, ◌≡◌, some}
use padi_chain.State.Objects.{StateDb, Backend}
use padi_chain.State.Snapshots.{snapshot, revert_to_snapshot}
use padi_chain.State.Observed.{Agrees, Shows-Agrees}
use padi_chain.State.Runs.{Run, reverted-Shows}
use padi_chain.State.Lives.{Life, Life-IsSound}

-- Whatever a StateDB has been through, after Snapshot and any calls, further snapshots and reverts to
-- those, RevertToSnapshot to the snapshot's id does not panic, and gives back the journal, the
-- revisions, and, for all arguments, what these methods answered at the snapshot, whatever the
-- backend's reads answer, errors included: Exist, Empty, GetBalance, GetNonce, GetCodeHash, GetState,
-- GetCommittedState, HasSelfDestructed, GetRefund, GetLogs, GetTransientState, AddressInAccessList
-- and SlotInAccessList. GetCode, GetCodeSize, Logs and Error are not among them.
pub revert_to_snapshot_lem :
    (b : Backend) (s t : StateDb)
    → Life b s
    → Run b (suc s.next_rev_id) (snapshot s).0 t
    → (u : StateDb) × (revert_to_snapshot t s.next_rev_id ≡ some u)
      × Agrees b u s
      × (u.entries ≡ s.entries)
      × (u.revisions ≡ s.revisions)
revert_to_snapshot_lem b s t life run =
    let sound = Life-IsSound b life in
    let (u, done, shows, entries, revisions) = reverted-Shows b s t sound.0 sound.1 run in
    (u, done, Shows-Agrees b shows, entries, revisions)
