-- ===== src/State/Rollback.antt =====
-- state/journal.go: undoing a run of entries, and when a change of state can be undone.
use padi_chain.Base.{
  ℕ, ◌≡◌, refl, ap, sym, ◌∙◌, true, false, List, [], ◌∷◌, ◌++◌, append_assoc, Option, none, some,
  arith, inl, inr, Option-cases,
}
use padi_chain.Base.Maps.{Dict, lookup, contains, contains-erase}
use padi_chain.State.Objects.{
  Object, StateDb, Backend, get_logs, slots_at, put_object, get_transient_state, Entry,
  create_object, balance_change, nonce_change, code_change, storage_change, transient_change,
  self_destruct_change, refund_change, add_log_change, access_account_change, access_slot_change,
}
use padi_chain.State.Journal.{
  revert, revert_one, with_object, restore_balance, restore_nonce, restore_code, restore_slot,
  restore_destruct,
}
use padi_chain.State.Views.{Cover, Shows, Shows-trans}
use padi_chain.State.Restored.{dropped_slot, erased_slots}
use padi_chain.State.Reverted.{Touches}
use padi_chain.State.Undo.{revert-Shows}

-- Entries undone in order, the newest first.
unfoldable pub undo : List Entry → StateDb → StateDb
undo [] s = s
undo (e ∷ es) s = undo es (revert_one e s)

pub undo-append : (es fs : List Entry) (s : StateDb) → undo (es ++ fs) s ≡ undo fs (undo es s)
unfolding undo
undo-append [] fs s = refl
undo-append (e ∷ es) fs s = undo-append es fs (revert_one e s)

-- Slots are warm only below a warm address.
abbrev pub IsWarm : StateDb → Type 0
IsWarm s =
    (addr key : ℕ)
    → contains key (slots_at addr s.accessed_slots) ≡ true
    → contains addr s.accessed_addresses ≡ true

module _ (b : Backend) where
  unfoldable pub Grounded : List Entry → StateDb → Type 0
  Grounded [] s = Unit
  Grounded (e ∷ es) s = Touches b e s × Grounded es (revert_one e s)

  dirties-Shows :
      {s t : StateDb} (d d' : Dict ℕ)
      → Shows b s t
      → Shows b (record s { dirties = d }) (record t { dirties = d' })
  unfolding get_logs get_transient_state
  dirties-Shows d d' h = record {
    objects_cover = h.objects_cover;
    refund_same = h.refund_same;
    logs_same = h.logs_same;
    log_size_same = h.log_size_same;
    thash_same = h.thash_same;
    tx_index_same = h.tx_index_same;
    transient_same = h.transient_same;
    transient_kept = h.transient_kept;
    addresses_same = h.addresses_same;
    slots_same = h.slots_same;
  }

  revert_one-Shows :
      {s t : StateDb} (e : Entry)
      → Touches b e t
      → Shows b s t
      → Shows b (revert_one e s) (revert_one e t)
  unfolding revert_one
  revert_one-Shows e touched h = dirties-Shows _ _ (revert-Shows b e touched h)

  there-Cover :
      (addr : ℕ) (x y : Option Object)
      → Cover b addr x y
      → elim y [ none ↦ false | some _ ↦ true ] ≡ true
      → elim x [ none ↦ false | some _ ↦ true ] ≡ true
  unfolding Cover
  there-Cover addr (some o) y cover here = refl
  there-Cover addr none none cover here = here
  there-Cover addr none (some p) cover here = absurd (cc cover)

  contains-Cover :
      (addr : ℕ) (xs ys : Dict Object)
      → Cover b addr (lookup addr xs) (lookup addr ys)
      → contains addr ys ≡ true
      → contains addr xs ≡ true
  unfolding Cover
  contains-Cover addr xs ys cover here =
      there-Cover addr (lookup addr xs) (lookup addr ys) cover here

  Touches-Shows : {s t : StateDb} (e : Entry) → Touches b e t → Shows b s t → Touches b e s
  unfolding Touches
  Touches-Shows (balance_change addr prev) touched h =
      contains-Cover addr _ _ (h.objects_cover addr) touched
  Touches-Shows (nonce_change addr prev) touched h =
      contains-Cover addr _ _ (h.objects_cover addr) touched
  Touches-Shows (code_change addr code hash) touched h =
      contains-Cover addr _ _ (h.objects_cover addr) touched
  Touches-Shows (storage_change addr key prev existed) touched h =
      contains-Cover addr _ _ (h.objects_cover addr) touched
  Touches-Shows (self_destruct_change addr prev prev_balance) touched h =
      contains-Cover addr _ _ (h.objects_cover addr) touched
  Touches-Shows (transient_change addr key prev) touched h = h.transient_kept addr touched
  Touches-Shows (create_object addr prev) touched h = tt
  Touches-Shows (refund_change prev) touched h = tt
  Touches-Shows (add_log_change tx) touched h = tt
  Touches-Shows (access_account_change addr) touched h = tt
  Touches-Shows (access_slot_change addr slot) touched h = tt

  pub undo-Shows :
      (es : List Entry) {s t : StateDb}
      → Grounded es t
      → Shows b s t
      → Grounded es s × Shows b (undo es s) (undo es t)
  unfolding Grounded undo
  undo-Shows [] g h = (tt, h)
  undo-Shows (e ∷ es) (touched, g) h =
      let rest = undo-Shows es g (revert_one-Shows e touched h) in
      ((Touches-Shows e touched h, rest.0), rest.1)

  pub Grounded-append :
      (es fs : List Entry) (s : StateDb)
      → Grounded es s
      → Grounded fs (undo es s)
      → Grounded (es ++ fs) s
  unfolding Grounded undo
  Grounded-append [] fs s g k = k
  Grounded-append (e ∷ es) fs s g k = (g.0, Grounded-append es fs (revert_one e s) g.1 k)

  pub Grounded-suffix :
      (es fs : List Entry) (s : StateDb) → Grounded (es ++ fs) s → Grounded fs (undo es s)
  unfolding Grounded undo
  Grounded-suffix [] fs s g = g
  Grounded-suffix (e ∷ es) fs s g = Grounded-suffix es fs (revert_one e s) g.1

  -- From the second state, undoing the entries that stand on top of the first's shows the first.
  pub record Backed (s s' : StateDb) : Type 0 where
    pub added : List Entry
    pub entries_added : s'.entries ≡ added ++ s.entries
    pub added_grounded : Grounded added s'
    pub back : Shows b (undo added s') s
    pub still_warm : IsWarm s'

  -- A change that can be undone and leaves the revisions alone.
  pub record Undoable (s s' : StateDb) : Type 0 where
    pub backed : Backed s s'
    pub open backed use *
    pub revisions_same : s'.revisions ≡ s.revisions
    pub ids_same : s'.next_rev_id ≡ s.next_rev_id

  pub Backed-trans : {s t u : StateDb} → Backed s t → Backed t u → Backed s u
  Backed-trans {s} {t} {u} h k =
      let again = undo-Shows h.added h.added_grounded k.back in
      record {
        added = k.added ++ h.added;
        entries_added =
            k.entries_added
            ∙ (ap (λ es. k.added ++ es) h.entries_added
                ∙ sym (append_assoc k.added h.added s.entries));
        added_grounded = Grounded-append k.added h.added u k.added_grounded again.0;
        back = rw (undo-append k.added h.added u) (Shows-trans b again.1 h.back);
        still_warm = k.still_warm;
      }

  pub Undoable-trans : {s t u : StateDb} → Undoable s t → Undoable t u → Undoable s u
  Undoable-trans h k = record {
    backed = Backed-trans h.backed k.backed;
    revisions_same = k.revisions_same ∙ h.revisions_same;
    ids_same = k.ids_same ∙ h.ids_same;
  }

  with_object-IsWarm :
      (s : StateDb) (addr : ℕ) (f : Object → Object) → IsWarm s → IsWarm (with_object s addr f)
  unfolding put_object with_object slots_at
  with_object-IsWarm s addr f w = elim (Option-cases (lookup addr s.objects)) [
    | inl absent ↦ rw (with_object, absent) w
    | inr (o, here) ↦ rw (with_object, here) w
  ]

  pub revert_one-IsWarm : (e : Entry) (s : StateDb) → IsWarm s → IsWarm (revert_one e s)
  unfolding revert_one revert put_object
  revert_one-IsWarm (create_object addr none) s w = w
  revert_one-IsWarm (create_object addr (some prev)) s w = w
  revert_one-IsWarm (balance_change addr prev) s w =
      with_object-IsWarm s addr (restore_balance prev) w
  revert_one-IsWarm (nonce_change addr prev) s w = with_object-IsWarm s addr (restore_nonce prev) w
  revert_one-IsWarm (code_change addr code hash) s w =
      with_object-IsWarm s addr (restore_code code hash) w
  revert_one-IsWarm (storage_change addr key prev existed) s w =
      with_object-IsWarm s addr (restore_slot key prev existed) w
  revert_one-IsWarm (self_destruct_change addr prev prev_balance) s w =
      with_object-IsWarm s addr (restore_destruct prev prev_balance) w
  revert_one-IsWarm (refund_change prev) s w = w
  revert_one-IsWarm (add_log_change tx) s w = w
  revert_one-IsWarm (transient_change addr key prev) s w = w
  revert_one-IsWarm (access_account_change addr) s w = λ at key h. ground (
    arith,
    erased_slots addr at key s.accessed_slots,
    contains-erase at addr s.accessed_addresses,
    w at key,
  )
  revert_one-IsWarm (access_slot_change addr slot) s w =
      λ at key h. ground (arith, dropped_slot addr slot at key s.accessed_slots, w at key)

  pub undo-IsWarm : (es : List Entry) (s : StateDb) → IsWarm s → IsWarm (undo es s)
  unfolding undo
  undo-IsWarm [] s w = w
  undo-IsWarm (e ∷ es) s w = undo-IsWarm es (revert_one e s) (revert_one-IsWarm e s w)
