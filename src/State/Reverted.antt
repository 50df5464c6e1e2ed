-- ===== src/State/Reverted.antt =====
-- state/journal.go: reverting an entry that changed one object.
use padi_chain.Base.{
  ℕ, ◌≡◌, refl, ap, Bool, true, not, ◌&&◌, List, Option, none, some, ◌==◌, if◌then◌else◌, arith,
  inl, inr, Bool-cases,
}
use padi_chain.Base.Ints.{ℤ}
use padi_chain.Base.Maps.{Dict, lookup, contains, insert, lookup-insert, lookup-erase}
use padi_chain.State.Objects.{
  Account, Object, StateDb, Backend, get_logs, put_object, get_transient_state, read_through, Entry,
  create_object, balance_change, nonce_change, code_change, storage_change, transient_change,
  self_destruct_change, refund_change, add_log_change, access_account_change, access_slot_change,
}
use padi_chain.State.Journal.{
  with_object, restore_balance, restore_nonce, restore_code, restore_slot, restore_destruct,
}
use padi_chain.State.Restored.{there}
use padi_chain.State.Views.{committed_value, slot_value, Same, Cover, Shows}

module _ (b : Backend) where
  -- What an entry's revert needs in the state: the object or the map that it writes to.
  unfoldable pub Touches : Entry → StateDb → Type 0
  Touches (balance_change addr prev) s = contains addr s.objects ≡ true
  Touches (nonce_change addr prev) s = contains addr s.objects ≡ true
  Touches (code_change addr prev_code prev_hash) s = contains addr s.objects ≡ true
  Touches (storage_change addr key prev existed) s = contains addr s.objects ≡ true
  Touches (self_destruct_change addr prev prev_balance) s = contains addr s.objects ≡ true
  Touches (transient_change addr key prev) s = contains addr s.transient ≡ true
  Touches (create_object addr prev) s = Unit
  Touches (refund_change prev) s = Unit
  Touches (add_log_change tx) s = Unit
  Touches (access_account_change addr) s = Unit
  Touches (access_slot_change addr slot) s = Unit

  pub with_objects-Shows :
      {s t : StateDb} (xs ys : Dict Object)
      → Shows b s t
      → ((addr : ℕ) → Cover b addr (lookup addr xs) (lookup addr ys))
      → Shows b (record s { objects = xs }) (record t { objects = ys })
  unfolding get_logs get_transient_state
  with_objects-Shows xs ys h cover = record {
    objects_cover = cover;
    refund_same = h.refund_same;
    logs_same = h.logs_same;
    log_size_same = h.log_size_same;
    thash_same = h.thash_same;
    tx_index_same = h.tx_index_same;
    transient_same = h.transient_same;
    transient_kept = h.transient_kept;
    addresses_same = h.addresses_same;
    slots_same = h.slots_same;
  }

  pub insert-Cover :
      (addr : ℕ) (o p : Object) (xs ys : Dict Object)
      → Same b o p
      → ((at : ℕ) → Cover b at (lookup at xs) (lookup at ys))
      → (at : ℕ) → Cover b at (lookup at (insert addr o xs)) (lookup at (insert addr p ys))
  unfolding Cover
  insert-Cover addr o p xs ys same cover at =
      rw (lookup-insert at addr o xs, lookup-insert at addr p ys)
        (elim (Bool-cases (at == addr)) [
          | inl here ↦ rw here same
          | inr other ↦ rw other (cover at)
        ])

  pub covered :
      (addr : ℕ) (x : Option Object) (p : Object)
      → Cover b addr x (some p)
      → (o : Object) × (x ≡ some o) × Same b o p
  unfolding Cover
  covered addr none p h = absurd (cc h)
  covered addr (some o) p h = (o, refl, h)

  pub with_object-some :
      (s : StateDb) (addr : ℕ) (f : Object → Object) {o : Object}
      → lookup addr s.objects ≡ some o
      → with_object s addr f ≡ put_object s addr (f o)
  unfolding with_object
  with_object-some s addr f h = rw (with_object, h) refl

  pub with_object-Shows :
      {s t : StateDb} (addr : ℕ) (f : Object → Object)
      → ((o p : Object) → Same b o p → Same b (f o) (f p))
      → contains addr t.objects ≡ true
      → Shows b s t
      → Shows b (with_object s addr f) (with_object t addr f)
  unfolding with_object put_object
  with_object-Shows {s} {t} addr f keeps touched h =
      let (p, at_t) = there addr t.objects touched in
      let (o, at_s, same) =
        covered addr (lookup addr s.objects) p (rw at_t at (h.objects_cover addr)) in
      rw (with_object-some s addr f at_s, with_object-some t addr f at_t)
        (with_objects-Shows (insert addr (f o) s.objects) (insert addr (f p) t.objects) h
          (insert-Cover addr (f o) (f p) s.objects t.objects (keeps o p same) h.objects_cover))

  pub restore_balance-Same :
      (prev : ℤ) (o p : Object)
      → Same b o p
      → Same b (restore_balance prev o) (restore_balance prev p)
  unfolding restore_balance committed_value slot_value read_through
  restore_balance-Same prev o p h = record {
    same_data = ap {A = Account} (λ a. record a { balance = prev }) h.same_data;
    same_destructed = h.same_destructed;
    same_deleted = h.same_deleted;
    same_created = h.same_created;
    same_committed = h.same_committed;
    same_slots = h.same_slots;
  }

  pub restore_nonce-Same :
      (prev : ℕ) (o p : Object) → Same b o p → Same b (restore_nonce prev o) (restore_nonce prev p)
  unfolding restore_nonce committed_value slot_value read_through
  restore_nonce-Same prev o p h = record {
    same_data = ap {A = Account} (λ a. record a { nonce = prev }) h.same_data;
    same_destructed = h.same_destructed;
    same_deleted = h.same_deleted;
    same_created = h.same_created;
    same_committed = h.same_committed;
    same_slots = h.same_slots;
  }

  pub restore_code-Same :
      (code : Option (List ℕ)) (hash : ℕ) (o p : Object)
      → Same b o p
      → Same b (restore_code code hash o) (restore_code code hash p)
  unfolding restore_code committed_value slot_value read_through
  restore_code-Same code hash o p h = record {
    same_data = ap {A = Account} (λ a. record a { code_hash = hash }) h.same_data;
    same_destructed = h.same_destructed;
    same_deleted = h.same_deleted;
    same_created = h.same_created;
    same_committed = h.same_committed;
    same_slots = h.same_slots;
  }

  pub restore_destruct-Same :
      (flag : Bool) (prev : ℤ) (o p : Object)
      → Same b o p
      → Same b (restore_destruct flag prev o) (restore_destruct flag prev p)
  unfolding restore_destruct committed_value slot_value read_through
  restore_destruct-Same flag prev o p h = record {
    same_data = ap {A = Account} (λ a. record a { balance = prev }) h.same_data;
    same_destructed = refl;
    same_deleted = h.same_deleted;
    same_created = h.same_created;
    same_committed = h.same_committed;
    same_slots = h.same_slots;
  }

  pub slot_value-restore_slot :
      (key prev : ℕ) (existed : Bool) (o : Object) (k : ℕ)
      → slot_value b (restore_slot key prev existed o) k ≡ (
          if k == key
          then if not existed && (prev == 0) then committed_value b o key else prev
          else slot_value b o k)
  unfolding restore_slot slot_value committed_value read_through
  slot_value-restore_slot key prev existed o k =
      ground (arith, lookup-insert k key prev o.dirty_storage, lookup-erase k key o.dirty_storage)

  pub restore_slot-Same :
      (key prev : ℕ) (existed : Bool) (o p : Object)
      → Same b o p
      → Same b (restore_slot key prev existed o) (restore_slot key prev existed p)
  unfolding restore_slot committed_value read_through
  restore_slot-Same key prev existed o p h = record {
    same_data = h.same_data;
    same_destructed = h.same_destructed;
    same_deleted = h.same_deleted;
    same_created = h.same_created;
    same_committed = h.same_committed;
    same_slots = λ k.
        rw
          (
            slot_value-restore_slot key prev existed o k,
            slot_value-restore_slot key prev existed p k,
            h.same_committed key,
            h.same_slots k,
          )
          refl;
  }
