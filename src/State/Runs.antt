-- ===== src/State/Runs.antt =====
-- state/statedb.go: what may run between Snapshot and RevertToSnapshot, and what the revert gives.
use padi_chain.Base.{
  suc, ◌≤◌, ℕ, ◌<◌, ◌≡◌, refl, ap, sym, ◌∙◌, List, [], ◌∷◌, ◌++◌, append-nil, append_assoc, Option,
  none, some, ◌==◌, ==_iff, length, All, All-append, arith, inl, inr, Bool-cases,
}
use padi_chain.State.Objects.{Revision, StateDb, Backend}
use padi_chain.State.Journal.{journal_revert}
use padi_chain.State.Snapshots.{snapshot, find_revision, revert_to_snapshot}
use padi_chain.State.Views.{Shows, Shows-trans}
use padi_chain.State.Revisions.{after_older, find_revision-append, Found, find_revision-Found}
use padi_chain.State.Calls.{Call, perform, perform-Undoable}
use padi_chain.State.Recovery.{
  IsOrdered, IsNewer, Kept, operation-Kept, snapshot_opens, snapshot-Kept, reverted-Backed,
  revert_ids, journal_revert_to, framed-Shows,
}
use padi_chain.State.Rollback.{IsWarm, undo}

some_inj : {s t : StateDb} → some s ≡ some t → s ≡ t
some_inj h = cc h

module _ (b : Backend) where
  -- What may run: calls, snapshots, and reverts to the snapshots from `first` on.
  pub data Step (first : ℕ) : StateDb → StateDb → Type 0 where
    calls : (call : Call) (s : StateDb) → Step first s (perform b call s)
    snapshots : (s : StateDb) → Step first s (snapshot s).0
    reverts :
        (s : StateDb) (id : ℕ) {s' : StateDb}
        → first ≤ id
        → revert_to_snapshot s id ≡ some s'
        → Step first s s'

  pub data Run (first : ℕ) : StateDb → StateDb → Type 0 where
    done : {s : StateDb} → Run first s s
    and_then : {s t u : StateDb} → Run first s t → Step first t u → Run first s u

  -- What a revert that succeeds found and did.
  reverted-Found {κ} :
      (P : Revision → Type κ) (t : StateDb) (id : ℕ) (older : List Revision)
      (x : Option (Revision × List Revision)) {t' : StateDb}
      → Found P x
      → find_revision id t.revisions ≡ after_older older x
      → revert_to_snapshot t id ≡ some t'
      → (r : Revision) × (before : List Revision) × P r
        × All P before
        × (record (journal_revert t r.journal_index) { revisions = older ++ before } ≡ t')
  unfolding revert_to_snapshot
  reverted-Found P t id older none found e reverted =
      absurd (cc (rw (revert_to_snapshot, e) at reverted))
  reverted-Found P t id older (some (r, before)) found e reverted = elim (Bool-cases (r.id == id)) [
    | inl right ↦
        (r, before, found.0, found.1, some_inj (rw (revert_to_snapshot, e, right) at reverted))
    | inr wrong ↦ absurd (cc (rw (revert_to_snapshot, e, wrong) at reverted))
  ]

  below_later :
      (s : StateDb) (id : ℕ) (rs : List Revision)
      → s.next_rev_id < id
      → All (λ r. r.id < s.next_rev_id) rs
      → All (λ r. r.id < id) rs
  below_later s id [] later h = tt
  below_later s id (r ∷ rs) later h = (omega (arith, later, h.0), below_later s id rs later h.1)

  revert-Kept :
      {s t t' : StateDb} (id : ℕ)
      → IsOrdered s
      → Kept b s t
      → s.next_rev_id < id
      → revert_to_snapshot t id ≡ some t'
      → Kept b s t'
  revert-Kept {s} {t} id ordered k later reverted =
      let taken : Revision = record { id = s.next_rev_id; journal_index = length s.entries } in
      let older = s.revisions ++ (taken ∷ []) in
      let below : All (λ r. r.id < id) older =
        All-append (λ r. r.id < id) s.revisions (taken ∷ [])
          (below_later s id s.revisions later ordered) (later, tt) in
      let split = k.revisions_are ∙ sym (append_assoc s.revisions (taken ∷ []) k.newer) in
      let e = ap (find_revision id) split ∙ find_revision-append id older k.newer below in
      let found = find_revision-Found (IsNewer b s) id k.newer k.all_newer in
      let (r, before, newer, all_newer, is) =
        reverted-Found (IsNewer b s) t id older (find_revision id k.newer) found e reverted in
      rw (sym is) (record {
        backed = reverted-Backed b r.journal_index (older ++ before) k.backed newer.1;
        newer = before;
        all_newer = all_newer;
        revisions_are = append_assoc s.revisions (taken ∷ []) before;
        ids_grow = rw (revert_ids b t r.journal_index) k.ids_grow;
      })

  find_first : (r : Revision) (rs : List Revision) → find_revision r.id (r ∷ rs) ≡ some (r, [])
  unfolding find_revision
  find_first r rs = ground arith

  revert_at :
      (t : StateDb) (id : ℕ) (r : Revision) (before : List Revision)
      → find_revision id t.revisions ≡ some (r, before)
      → r.id ≡ id
      → revert_to_snapshot t id
        ≡ some (record (journal_revert t r.journal_index) { revisions = before })
  unfolding revert_to_snapshot
  revert_at t id r before found is =
      let right = (==_iff r.id id).1 is in rw (revert_to_snapshot, found, right) refl

  -- The search finds the snapshot itself.
  found_mark :
      (s t : StateDb) (newer : List Revision)
      → IsOrdered s
      → let taken : Revision = record { id = s.next_rev_id; journal_index = length s.entries } in
        t.revisions ≡ s.revisions ++ (taken ∷ newer)
        → find_revision s.next_rev_id t.revisions ≡ some (taken, s.revisions)
  found_mark s t newer ordered split =
      let taken : Revision = record { id = s.next_rev_id; journal_index = length s.entries } in
      ap (find_revision s.next_rev_id) split
      ∙ (find_revision-append s.next_rev_id s.revisions (taken ∷ newer) ordered
          ∙ (ap (after_older s.revisions) (find_first taken newer)
              ∙ ap (λ rs. some (taken, rs)) (append-nil s.revisions)))

  Step-Kept :
      {s t u : StateDb} → IsOrdered s → Kept b s t → Step (suc s.next_rev_id) t u → Kept b s u
  Step-Kept ordered k (calls call t) =
      operation-Kept b k (perform-Undoable b call t k.backed.still_warm)
  Step-Kept ordered k (snapshots t) = snapshot-Kept b k
  Step-Kept ordered k (reverts t id later reverted) = revert-Kept id ordered k later reverted

  Run-Kept : {s t u : StateDb} → IsOrdered s → Kept b s t → Run (suc s.next_rev_id) t u → Kept b s u
  Run-Kept ordered k done = k
  Run-Kept ordered k (and_then run step) = Step-Kept ordered (Run-Kept ordered k run) step

  pub reverted-Shows :
      (s t : StateDb)
      → IsWarm s
      → IsOrdered s
      → Run (suc s.next_rev_id) (snapshot s).0 t
      → (u : StateDb) × (revert_to_snapshot t s.next_rev_id ≡ some u)
        × Shows b u s
        × (u.entries ≡ s.entries)
        × (u.revisions ≡ s.revisions)
  reverted-Shows s t warm ordered run =
      let k = Run-Kept ordered (snapshot_opens b s warm) run in
      let found = found_mark s t k.newer ordered k.revisions_are in
      let u = record (undo k.backed.added t) { entries = s.entries; revisions = s.revisions } in
      (
        u,
        revert_at t s.next_rev_id _ s.revisions found refl
            ∙ ap (λ (v : StateDb). some (record v { revisions = s.revisions }))
                (journal_revert_to b t k.backed.added s.entries k.backed.entries_added),
        Shows-trans b
            (framed-Shows b (undo k.backed.added t) s.entries s.revisions
              (undo k.backed.added t).next_rev_id)
            k.backed.back,
        refl,
        refl,
      )
