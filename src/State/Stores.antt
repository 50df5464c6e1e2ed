-- ===== src/State/Stores.antt =====
-- state/statedb.go: SetState and SetCode can be undone by the entries they journal.
use padi_chain.Base.{
  ℕ, ◌≡◌, refl, sym, ◌∙◌, true, not, ◌&&◌, List, Option, some, ◌==◌, ==_iff, if◌then◌else◌, arith,
}
use padi_chain.Base.Maps.{lookup, contains, insert, lookup-insert}
use mathlib.Core.Path.{subst}
use padi_chain.State.Objects.{
  Object, StateDb, Backend, put_object, mark_dirty, code_change, storage_change, state_of, code_of,
  read_through,
}
use padi_chain.State.Journal.{revert, journal_append, restore_code, restore_slot}
use padi_chain.State.Writes.{get_or_new, reread, write_code, set_code, write_slot, set_state}
use padi_chain.State.Views.{committed_value, slot_value, Same}
use padi_chain.State.Reverted.{Touches, slot_value-restore_slot}
use padi_chain.State.Rollback.{IsWarm, Undoable, Undoable-trans}
use padi_chain.State.Blocks.{nothing-Undoable, changed-Undoable}
use padi_chain.State.Operations.{get_or_new-Holds, if_Undoable}
use padi_chain.State.Slots.{coded-Same, state_of-Cached, code_of-Cached}

pub reread_is :
    (s : StateDb) (addr : ℕ) (o : Object) {o' : Object}
    → lookup addr s.objects ≡ some o'
    → reread s addr o ≡ o'
unfolding reread
reread_is s addr o here = rw (reread, here) refl

module _ (b : Backend) where
  written_slot :
      (o : Object) (key value prev k : ℕ)
      → prev ≡ slot_value b o key
      → (if k == key
          then if not (contains key o.dirty_storage) && (prev == 0)
            then committed_value b
                (record o { dirty_storage = insert key value o.dirty_storage })
                key
            else prev
          else slot_value b (record o { dirty_storage = insert key value o.dirty_storage }) k)
        ≡ slot_value b o k
  unfolding slot_value committed_value read_through
  written_slot o key value prev k is =
      ground (arith, is, ==_iff k key, lookup-insert k key value o.dirty_storage)

  written-Same :
      (o : Object) (key value prev : ℕ)
      → prev ≡ slot_value b o key
      → Same b
          (restore_slot key prev
            (contains key o.dirty_storage)
            (record o { dirty_storage = insert key value o.dirty_storage }))
          o
  unfolding restore_slot committed_value read_through
  written-Same o key value prev is = record {
    same_data = refl;
    same_destructed = refl;
    same_deleted = refl;
    same_created = refl;
    same_committed = λ k. refl;
    same_slots = λ k.
        slot_value-restore_slot b key prev (contains key o.dirty_storage)
          (record o { dirty_storage = insert key value o.dirty_storage }) k
        ∙ written_slot o key value prev k is;
  }

  written-Undoable :
      (s : StateDb) (addr : ℕ) (o : Object) (key value prev : ℕ)
      → IsWarm s
      → lookup addr s.objects ≡ some o
      → prev ≡ slot_value b o key
      → Undoable b s (
          mark_dirty
            (put_object
              (journal_append s (storage_change addr key prev (contains key o.dirty_storage)))
              addr
              (record o { dirty_storage = insert key value o.dirty_storage }))
            addr)
  unfolding journal_append put_object mark_dirty revert Touches
  written-Undoable s addr o key value prev warm here is =
      changed-Undoable b s (storage_change addr key prev (contains key o.dirty_storage)) addr
        (restore_slot key prev (contains key o.dirty_storage)) o
        (record o { dirty_storage = insert key value o.dirty_storage }) _ _ _ _ warm here
        (written-Same o key value prev is) (λ t. refl) (λ t h. h)

  write_slot-Undoable :
      (s : StateDb) (addr : ℕ) (o : Object) (key value prev : ℕ)
      → IsWarm s
      → lookup addr s.objects ≡ some o
      → prev ≡ slot_value b o key
      → Undoable b s (write_slot b s addr o key prev value)
  unfolding write_slot
  write_slot-Undoable s addr o key value prev warm here is =
      if_Undoable b (prev == value) s _ (nothing-Undoable b s warm)
        (written-Undoable s addr o key value prev warm here is)

  pub set_state-Undoable :
      (s : StateDb) (addr key value : ℕ) → IsWarm s → Undoable b s (set_state b s addr key value)
  unfolding set_state
  set_state-Undoable s addr key value warm =
      let g = get_or_new-Holds b s addr warm in
      let r = get_or_new b s addr in
      let (cached, value_is) = state_of-Cached b r.0 addr r.1 key g.0.still_warm g.1 in
      let (u, o, here, same) = cached in
      let prev = (state_of b r.0 addr r.1 key).1 in
      let s2 = (state_of b r.0 addr r.1 key).0 in
      Undoable-trans b g.0 (
        Undoable-trans b u (
          subst (λ o'. Undoable b s2 (write_slot b s2 addr o' key prev value))
            (sym (reread_is s2 addr r.1 here))
            (write_slot-Undoable s2 addr o key value prev u.still_warm here
              (value_is ∙ sym (same.same_slots key)))))

  write_code-Undoable :
      (s : StateDb) (addr : ℕ) (o : Object) (prev : Option (List ℕ)) (code : List ℕ)
      → IsWarm s
      → lookup addr s.objects ≡ some o
      → Undoable b s (write_code b s addr o prev code)
  unfolding write_code journal_append put_object mark_dirty revert Touches restore_code
  write_code-Undoable s addr o prev code warm here =
      changed-Undoable b s (code_change addr prev o.data_of.code_hash) addr
        (restore_code prev o.data_of.code_hash) o
        (record (restore_code (some code) (b.keccak code) o) { code_dirty = true }) _ _ _ _ warm
        here (coded-Same b o prev true) (λ t. refl) (λ t h. h)

  pub set_code-Undoable :
      (s : StateDb) (addr : ℕ) (code : List ℕ) → IsWarm s → Undoable b s (set_code b s addr code)
  unfolding set_code
  set_code-Undoable s addr code warm =
      let g = get_or_new-Holds b s addr warm in
      let r = get_or_new b s addr in
      let (u, o, here, same) = code_of-Cached b r.0 addr r.1 g.0.still_warm g.1 in
      let s2 = (code_of b r.0 addr r.1).0 in
      let prev = (code_of b r.0 addr r.1).1 in
      Undoable-trans b g.0 (
        Undoable-trans b u (
          subst (λ o'. Undoable b s2 (write_code b s2 addr o' prev code))
            (sym (reread_is s2 addr r.1 here))
            (write_code-Undoable s2 addr o prev code u.still_warm here)))
