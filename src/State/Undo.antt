-- ===== src/State/Undo.antt =====
-- state/journal.go: reverting entries on a state that shows what another does.
use padi_chain.Base.{ℕ, ◌-◌, ◌≡◌, refl, ap, sym, ◌∙◌, true, none, some, ◌==◌, inl, inr, Bool-cases}
use padi_chain.Base.Maps.{contains, insert, lookup-erase, contains-erase}
use padi_chain.State.Objects.{
  Object, StateDb, Backend, get_logs, put_object, get_transient_state, Entry, create_object,
  balance_change, nonce_change, code_change, storage_change, transient_change, self_destruct_change,
  refund_change, add_log_change, access_account_change, access_slot_change,
}
use padi_chain.State.Journal.{
  revert, restore_balance, restore_nonce, restore_code, restore_slot, restore_destruct,
}
use padi_chain.State.Views.{Same-refl, Cover, Shows}
use padi_chain.State.Restored.{
  get_logs-pop_log, restored_transient, contains-restore_transient, dropped_slot, erased_slots,
}
use padi_chain.State.Reverted.{
  Touches, with_objects-Shows, insert-Cover, with_object-Shows, restore_balance-Same,
  restore_nonce-Same, restore_code-Same, restore_destruct-Same, restore_slot-Same,
}

module _ (b : Backend) where
  insert-Shows :
      {s t : StateDb} (addr : ℕ) (prev : Object)
      → Shows b s t
      → Shows b (put_object s addr prev) (put_object t addr prev)
  unfolding put_object
  insert-Shows {s} {t} addr prev h =
      with_objects-Shows b (insert addr prev s.objects) (insert addr prev t.objects) h
        (insert-Cover b addr prev prev s.objects t.objects (Same-refl b prev) h.objects_cover)

  erase-Shows :
      {s t : StateDb} (addr : ℕ)
      → Shows b s t
      → Shows b (revert (create_object addr none) s) (revert (create_object addr none) t)
  unfolding revert Cover get_logs get_transient_state
  erase-Shows {s} {t} addr h = record {
    objects_cover = λ at.
        rw (lookup-erase at addr s.objects, lookup-erase at addr t.objects)
          (elim (Bool-cases (at == addr)) [
            | inl here ↦ rw here tt
            | inr other ↦ rw other (h.objects_cover at)
          ]);
    refund_same = h.refund_same;
    logs_same = h.logs_same;
    log_size_same = h.log_size_same;
    thash_same = h.thash_same;
    tx_index_same = h.tx_index_same;
    transient_same = h.transient_same;
    transient_kept = h.transient_kept;
    addresses_same = h.addresses_same;
    slots_same = h.slots_same;
  }

  refund-Shows :
      {s t : StateDb} (prev : ℕ)
      → Shows b s t
      → Shows b (revert (refund_change prev) s) (revert (refund_change prev) t)
  unfolding revert get_logs get_transient_state
  refund-Shows prev h = record {
    objects_cover = h.objects_cover;
    refund_same = refl;
    logs_same = h.logs_same;
    log_size_same = h.log_size_same;
    thash_same = h.thash_same;
    tx_index_same = h.tx_index_same;
    transient_same = h.transient_same;
    transient_kept = h.transient_kept;
    addresses_same = h.addresses_same;
    slots_same = h.slots_same;
  }

  log-Shows :
      {s t : StateDb} (tx : ℕ)
      → Shows b s t
      → Shows b (revert (add_log_change tx) s) (revert (add_log_change tx) t)
  unfolding revert get_logs get_transient_state
  log-Shows {s} {t} tx h = record {
    objects_cover = h.objects_cover;
    refund_same = h.refund_same;
    logs_same = λ at.
        get_logs-pop_log tx at s
        ∙ (rw (h.logs_same tx, h.logs_same at) refl ∙ sym (get_logs-pop_log tx at t));
    log_size_same = ap (λ n. n - 1) h.log_size_same;
    thash_same = h.thash_same;
    tx_index_same = h.tx_index_same;
    transient_same = h.transient_same;
    transient_kept = h.transient_kept;
    addresses_same = h.addresses_same;
    slots_same = h.slots_same;
  }

  transient-Shows :
      {s t : StateDb} (addr key prev : ℕ)
      → contains addr t.transient ≡ true
      → Shows b s t
      → Shows b
          (revert (transient_change addr key prev) s)
          (revert (transient_change addr key prev) t)
  unfolding revert get_logs get_transient_state
  transient-Shows {s} {t} addr key prev touched h = record {
    objects_cover = h.objects_cover;
    refund_same = h.refund_same;
    logs_same = h.logs_same;
    log_size_same = h.log_size_same;
    thash_same = h.thash_same;
    tx_index_same = h.tx_index_same;
    transient_same = λ at k.
        restored_transient addr key prev at k s (h.transient_kept addr touched)
        ∙ (rw (h.transient_same at k) refl ∙ sym (restored_transient addr key prev at k t touched));
    transient_kept = λ at here.
        contains-restore_transient addr key prev at s.transient
        ∙ h.transient_kept at
            (sym (contains-restore_transient addr key prev at t.transient) ∙ here);
    addresses_same = h.addresses_same;
    slots_same = h.slots_same;
  }

  address-Shows :
      {s t : StateDb} (addr : ℕ)
      → Shows b s t
      → Shows b (revert (access_account_change addr) s) (revert (access_account_change addr) t)
  unfolding revert get_logs get_transient_state
  address-Shows {s} {t} addr h = record {
    objects_cover = h.objects_cover;
    refund_same = h.refund_same;
    logs_same = h.logs_same;
    log_size_same = h.log_size_same;
    thash_same = h.thash_same;
    tx_index_same = h.tx_index_same;
    transient_same = h.transient_same;
    transient_kept = h.transient_kept;
    addresses_same = λ at.
        contains-erase at addr s.accessed_addresses
        ∙ (rw (h.addresses_same at) refl ∙ sym (contains-erase at addr t.accessed_addresses));
    slots_same = λ at k.
        erased_slots addr at k s.accessed_slots
        ∙ (rw (h.slots_same at k) refl ∙ sym (erased_slots addr at k t.accessed_slots));
  }

  slot-Shows :
      {s t : StateDb} (addr slot : ℕ)
      → Shows b s t
      → Shows b (revert (access_slot_change addr slot) s) (revert (access_slot_change addr slot) t)
  unfolding revert get_logs get_transient_state
  slot-Shows {s} {t} addr slot h = record {
    objects_cover = h.objects_cover;
    refund_same = h.refund_same;
    logs_same = h.logs_same;
    log_size_same = h.log_size_same;
    thash_same = h.thash_same;
    tx_index_same = h.tx_index_same;
    transient_same = h.transient_same;
    transient_kept = h.transient_kept;
    addresses_same = h.addresses_same;
    slots_same = λ at k.
        dropped_slot addr slot at k s.accessed_slots
        ∙ (rw (h.slots_same at k) refl ∙ sym (dropped_slot addr slot at k t.accessed_slots));
  }

  -- A revert leads from a state that shows what another does to one that shows what the other's
  -- revert does.
  pub revert-Shows :
      {s t : StateDb} (e : Entry) → Touches b e t → Shows b s t → Shows b (revert e s) (revert e t)
  unfolding revert Touches
  revert-Shows (create_object addr none) touched h = erase-Shows addr h
  revert-Shows (create_object addr (some prev)) touched h = insert-Shows addr prev h
  revert-Shows (balance_change addr prev) touched h =
      with_object-Shows b addr (restore_balance prev) (restore_balance-Same b prev) touched h
  revert-Shows (nonce_change addr prev) touched h =
      with_object-Shows b addr (restore_nonce prev) (restore_nonce-Same b prev) touched h
  revert-Shows (code_change addr code hash) touched h =
      with_object-Shows b addr (restore_code code hash) (restore_code-Same b code hash) touched h
  revert-Shows (storage_change addr key prev existed) touched h =
      with_object-Shows b addr (restore_slot key prev existed)
        (restore_slot-Same b key prev existed) touched h
  revert-Shows (self_destruct_change addr prev prev_balance) touched h =
      with_object-Shows b addr (restore_destruct prev prev_balance)
        (restore_destruct-Same b prev prev_balance) touched h
  revert-Shows (refund_change prev) touched h = refund-Shows prev h
  revert-Shows (add_log_change tx) touched h = log-Shows tx h
  revert-Shows (transient_change addr key prev) touched h = transient-Shows addr key prev touched h
  revert-Shows (access_account_change addr) touched h = address-Shows addr h
  revert-Shows (access_slot_change addr slot) touched h = slot-Shows addr slot h
