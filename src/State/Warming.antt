-- ===== src/State/Warming.antt =====
-- state/access.go: adding to the access list can be undone.
use padi_chain.Base.{
  ℕ, ◌≡◌, refl, ◌∙◌, true, false, ◌&&◌, [], ◌∷◌, ◌==◌, ==_iff, if◌then◌else◌, arith, inl, inr,
  Bool-cases,
}
use padi_chain.Base.Maps.{
  Dict, lookup, contains, insert, lookup-insert, contains-insert, contains-erase,
}
use padi_chain.State.Objects.{
  StateDb, Backend, get_logs, get_transient_state, slots_at, access_account_change,
  access_slot_change,
}
use padi_chain.State.Journal.{revert, revert_one, journal_append}
use padi_chain.State.Access.{add_address_to_access_list, add_slot, add_slot_to_access_list}
use padi_chain.State.Views.{Cover-refl}
use padi_chain.State.Restored.{dropped_slot, erased_slots}
use padi_chain.State.Reverted.{Touches}
use padi_chain.State.Rollback.{IsWarm, undo, Grounded, Undoable, Undoable-trans}
use padi_chain.State.Blocks.{nothing-Undoable}
use padi_chain.State.Effects.{contains-insert_self, kept_insert}

module _ (b : Backend) where
  unheated :
      (s : StateDb) (addr at key : ℕ)
      → IsWarm s
      → contains addr s.accessed_addresses ≡ false
      → (if at == addr then false else contains key (slots_at at s.accessed_slots))
        ≡ contains key (slots_at at s.accessed_slots)
  unheated s addr at key warm cold = ground (arith, ==_iff at addr, warm at key, cold)

  added_address :
      (s : StateDb) (addr : ℕ)
      → IsWarm s
      → contains addr s.accessed_addresses ≡ false
      → Undoable b s (
          journal_append
            (record s { accessed_addresses = insert addr tt s.accessed_addresses })
            (access_account_change addr))
  unfolding undo Grounded Touches revert_one revert journal_append get_logs get_transient_state
  added_address s addr warm cold = record {
    backed = record {
      added = access_account_change addr ∷ [];
      entries_added = refl;
      added_grounded = (tt, tt);
      back = record {
        objects_cover = λ addr. Cover-refl b addr (lookup addr s.objects);
        refund_same = refl;
        logs_same = λ tx. refl;
        log_size_same = refl;
        thash_same = refl;
        tx_index_same = refl;
        transient_same = λ at key. refl;
        transient_kept = λ at h. h;
        addresses_same = λ at. ground (
          arith,
          contains-erase at addr (insert addr tt s.accessed_addresses),
          contains-insert at addr tt s.accessed_addresses,
          ==_iff at addr,
          cold,
        );
        slots_same =
            λ at key. erased_slots addr at key s.accessed_slots ∙ unheated s addr at key warm cold;
      };
      still_warm = λ at key h. kept_insert b at addr tt s.accessed_addresses (warm at key h);
    };
    revisions_same = refl;
    ids_same = refl;
  }

  pub add_address-Undoable :
      (s : StateDb) (addr : ℕ) → IsWarm s → Undoable b s (add_address_to_access_list s addr)
  unfolding add_address_to_access_list
  add_address-Undoable s addr warm = elim (Bool-cases (contains addr s.accessed_addresses)) [
    | inl hot ↦ rw (add_address_to_access_list, hot) (nothing-Undoable b s warm)
    | inr cold ↦ rw (add_address_to_access_list, cold) (added_address s addr warm cold)
  ]

  heated :
      (addr slot at key : ℕ) (d : Dict (Dict (Unit {0})))
      → contains key (slots_at at (insert addr (insert slot tt (slots_at addr d)) d))
        ≡ (if (at == addr) && (key == slot) then true else contains key (slots_at at d))
  unfolding slots_at
  heated addr slot at key d = ground (
    arith,
    lookup-insert at addr (insert slot tt (slots_at addr d)) d,
    lookup-insert key slot tt (slots_at addr d),
    ==_iff at addr,
  )

  slots_back :
      (s : StateDb) (addr slot at key : ℕ)
      → contains slot (slots_at addr s.accessed_slots) ≡ false
      → (if (at == addr) && (key == slot)
          then false
          else contains key (
              slots_at at
                (insert addr (insert slot tt (slots_at addr s.accessed_slots)) s.accessed_slots)))
        ≡ contains key (slots_at at s.accessed_slots)
  slots_back s addr slot at key cold =
      rw (heated addr slot at key s.accessed_slots)
        (ground (arith, ==_iff at addr, ==_iff key slot, cold))

  added_slot :
      (s : StateDb) (addr slot : ℕ)
      → IsWarm s
      → contains addr s.accessed_addresses ≡ true
      → contains slot (slots_at addr s.accessed_slots) ≡ false
      → Undoable b s (
          journal_append
            (record s {
              accessed_slots =
                  insert addr (insert slot tt (slots_at addr s.accessed_slots)) s.accessed_slots;
            })
            (access_slot_change addr slot))
  unfolding undo Grounded Touches revert_one revert journal_append get_logs get_transient_state
  added_slot s addr slot warm hot cold = record {
    backed = record {
      added = access_slot_change addr slot ∷ [];
      entries_added = refl;
      added_grounded = (tt, tt);
      back = record {
        objects_cover = λ addr. Cover-refl b addr (lookup addr s.objects);
        refund_same = refl;
        logs_same = λ tx. refl;
        log_size_same = refl;
        thash_same = refl;
        tx_index_same = refl;
        transient_same = λ at key. refl;
        transient_kept = λ at h. h;
        addresses_same = λ at. refl;
        slots_same = λ at key.
            dropped_slot addr slot at key
              (insert addr (insert slot tt (slots_at addr s.accessed_slots)) s.accessed_slots)
            ∙ slots_back s addr slot at key cold;
      };
      still_warm = λ at key h.
          ground
            (arith, heated addr slot at key s.accessed_slots, warm at key, hot, ==_iff at addr);
    };
    revisions_same = refl;
    ids_same = refl;
  }

  address_is_warm :
      (s : StateDb) (addr : ℕ)
      → contains addr (add_address_to_access_list s addr).accessed_addresses ≡ true
  unfolding add_address_to_access_list journal_append
  address_is_warm s addr = elim (Bool-cases (contains addr s.accessed_addresses)) [
    | inl hot ↦ rw (add_address_to_access_list, hot) hot
    | inr cold ↦
        rw (add_address_to_access_list, cold) (contains-insert_self b addr tt s.accessed_addresses)
  ]

  add_slot-Undoable :
      (s : StateDb) (addr slot : ℕ)
      → IsWarm s
      → contains addr s.accessed_addresses ≡ true
      → Undoable b s (add_slot s addr slot)
  unfolding add_slot
  add_slot-Undoable s addr slot warm hot =
      elim (Bool-cases (contains slot (slots_at addr s.accessed_slots))) [
        | inl there ↦ rw (add_slot, there) (nothing-Undoable b s warm)
        | inr cold ↦ rw (add_slot, cold) (added_slot s addr slot warm hot cold)
      ]

  pub add_slot_to_access_list-Undoable :
      (s : StateDb) (addr slot : ℕ) → IsWarm s → Undoable b s (add_slot_to_access_list s addr slot)
  unfolding add_slot_to_access_list
  add_slot_to_access_list-Undoable s addr slot warm =
      let u = add_address-Undoable s addr warm in
      Undoable-trans b u (
        add_slot-Undoable (add_address_to_access_list s addr) addr slot u.still_warm
          (address_is_warm s addr))
