-- ===== src/State/Snapshots.antt =====
-- state/statedb.go: Snapshot, RevertToSnapshot and Finalise.
use padi_chain.Base.{
  ℕ, ◌+◌, Bool, true, ◌&&◌, ◌||◌, List, [], ◌∷◌, ◌++◌, Option, none, some, leb, ◌==◌, if◌then◌else◌,
  length,
}
use padi_chain.Base.Maps.{Dict, lookup}
use padi_chain.State.Objects.{Revision, StateDb, put_object, is_empty}
use padi_chain.State.Journal.{journal_revert}

-- Snapshot
unfoldable pub snapshot : StateDb → StateDb × ℕ
snapshot s = (
  record s {
    next_rev_id = s.next_rev_id + 1;
    revisions =
        s.revisions ++ (record { id = s.next_rev_id; journal_index = length s.entries } ∷ []);
  },
  s.next_rev_id,
)

-- sort.Search for the first revision whose id is not below: it and the ones before it.
unfoldable pub find_revision : ℕ → List Revision → Option (Revision × List Revision)
find_revision id [] = none
find_revision id (r ∷ rest) = if leb id r.id then some (r, []) else elim (find_revision id rest) [
  | none ↦ none
  | some (found, before) ↦ some (found, r ∷ before)
]

-- RevertToSnapshot; `none` is its panic.
unfoldable pub revert_to_snapshot : StateDb → ℕ → Option StateDb
revert_to_snapshot s id = elim (find_revision id s.revisions) [
  | none ↦ none
  | some (r, before) ↦
      if r.id == id
      then some (record (journal_revert s r.journal_index) { revisions = before })
      else none
]

-- One round of the loop of Finalise.
unfoldable pub finalise_one : Bool → ℕ → StateDb → StateDb
finalise_one delete_empty_objects addr s = elim (lookup addr s.objects) [
  | none ↦ s
  | some o ↦
      if o.self_destructed || (delete_empty_objects && is_empty o.data_of)
      then put_object s addr (record o { deleted = true; dirty_storage = [] })
      else s
]

unfoldable pub finalise_all : Bool → Dict (Unit {0}) → StateDb → StateDb
finalise_all delete_empty_objects [] s = s
finalise_all delete_empty_objects ((addr, _) ∷ rest) s =
    finalise_all delete_empty_objects rest (finalise_one delete_empty_objects addr s)

-- Finalise
unfoldable pub finalise : StateDb → Bool → StateDb
finalise s delete_empty_objects =
    let swept = finalise_all delete_empty_objects s.objects_dirty s in
    record swept { entries = []; dirties = []; revisions = []; refund = 0; transient = [] }
