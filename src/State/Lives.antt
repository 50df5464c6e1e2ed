-- ===== src/State/Lives.antt =====
-- state/statedb.go: what holds of every state that New and the operations can give.
use padi_chain.Base.{
  ◌&&◌, ◌||◌, length, ◌+◌, ◌-◌, ℕ, zero, suc, ◌<◌, ◌≡◌, refl, sym, Bool, false, List, [], ◌∷◌,
  Option, none, some, All, All-append, arith, inl, inr, Bool-cases, Option-cases, ◌==◌,
}
use padi_chain.Base.Ints.{ℤ, negsuc}
use padi_chain.Base.Maps.{Dict, lookup}
use padi_chain.State.Objects.{Entry, is_empty, StateDb, Backend, Revision, slots_at, put_object}
use padi_chain.State.Access.{
  prepare, add_addresses, add_slots, add_tuples, add_destination, add_address_to_access_list,
  add_slot_to_access_list,
}
use padi_chain.State.Journal.{revert_one, journal_revert, revert_newest}
use padi_chain.State.Writes.{set_tx_context}
use padi_chain.State.Snapshots.{
  snapshot, find_revision, revert_to_snapshot, finalise, finalise_one, finalise_all,
}
use padi_chain.State.Rollback.{revert_one-IsWarm, IsWarm, Undoable, Undoable-trans}
use padi_chain.State.Revisions.{Found, find_revision-Found}
use padi_chain.State.Recovery.{revert_ids, IsOrdered}
use padi_chain.State.Runs.{Step, calls, snapshots, reverts}
use padi_chain.State.Calls.{perform-Undoable}
use padi_chain.State.Blocks.{nothing-Undoable}
use padi_chain.State.Warming.{add_address-Undoable, add_slot_to_access_list-Undoable}

-- New
unfoldable pub new_state : StateDb
new_state = record {
  objects = [];
  objects_dirty = [];
  code_cache = [];
  entries = [];
  dirties = [];
  revisions = [];
  next_rev_id = 0;
  refund = 0;
  logs = [];
  log_size = 0;
  accessed_addresses = [];
  accessed_slots = [];
  transient = [];
  thash = 0;
  tx_index = negsuc 0;
  has_error = false;
}

-- Copy: the maps are copied entry by entry, the journal and the revisions are new.
unfoldable pub copy : StateDb → StateDb
copy s = record s { entries = []; dirties = []; revisions = []; next_rev_id = 0 }

abbrev pub IsSound : StateDb → Type 0
IsSound s = IsWarm s × IsOrdered s

some_inj : {s t : StateDb} → some s ≡ some t → s ≡ t
some_inj h = cc h

raised : (n : ℕ) (rs : List Revision) → All (λ r. r.id < n) rs → All (λ r. r.id < n + 1) rs
raised n [] h = tt
raised n (r ∷ rs) h = (omega (arith, h.0), raised n rs h.1)

module _ (b : Backend) where
  -- The states of a StateDB's life, over any number of transactions.
  pub data Life : StateDb → Type 0 where
    opened : Life new_state
    runs : {s t : StateDb} → Life s → Step b 0 s t → Life t
    prepares :
        {s : StateDb} (sender coinbase : ℕ) (dest : Option ℕ) (precompiles : List ℕ)
        (tuples : List (ℕ × List ℕ))
        → Life s
        → Life (prepare s sender coinbase dest precompiles tuples)
    sets_context :
        {s : StateDb} (hash : ℕ) (index : ℤ) → Life s → Life (set_tx_context s hash index)
    finalises :
        {s : StateDb} (delete_empty_objects : Bool)
        → Life s
        → Life (finalise s delete_empty_objects)
    copies : {s : StateDb} → Life s → Life (copy s)

  Undoable-IsSound : {s t : StateDb} → IsSound s → Undoable b s t → IsSound t
  Undoable-IsSound {s} {t} sound u = (u.still_warm, rw (u.revisions_same, u.ids_same) sound.1)

  revert_newest-IsWarm :
      (n : ℕ) (es : List Entry) (s : StateDb) → IsWarm s → IsWarm (revert_newest n es s)
  unfolding revert_newest
  revert_newest-IsWarm zero es s w = w
  revert_newest-IsWarm (suc n) [] s w = w
  revert_newest-IsWarm (suc n) (e ∷ es) s w =
      revert_newest-IsWarm n es (revert_one e s) (revert_one-IsWarm b e s w)

  reverted_back :
      (s : StateDb) (r : Revision) (before : List Revision)
      → IsWarm s
      → All (λ r'. r'.id < s.next_rev_id) before
      → IsSound (record (journal_revert s r.journal_index) { revisions = before })
  unfolding journal_revert
  reverted_back s r before warm older = (
    revert_newest-IsWarm (length s.entries - r.journal_index) s.entries s warm,
    rw (revert_ids b s r.journal_index) older,
  )

  chosen-IsSound :
      (s : StateDb) (id : ℕ) (x : Option (Revision × List Revision)) {t : StateDb}
      → IsWarm s
      → Found (λ r. r.id < s.next_rev_id) x
      → find_revision id s.revisions ≡ x
      → revert_to_snapshot s id ≡ some t
      → IsSound t
  unfolding revert_to_snapshot
  chosen-IsSound s id none warm older e reverted =
      absurd (cc (rw (revert_to_snapshot, e) at reverted))
  chosen-IsSound s id (some (r, before)) warm older e reverted = elim (Bool-cases (r.id == id)) [
    | inl right ↦
        rw (sym (some_inj (rw (revert_to_snapshot, e, right) at reverted)))
          (reverted_back s r before warm older.1)
    | inr wrong ↦ absurd (cc (rw (revert_to_snapshot, e, wrong) at reverted))
  ]

  snapshot-IsSound : (s : StateDb) → IsSound s → IsSound (snapshot s).0
  unfolding snapshot
  snapshot-IsSound s sound = (
    sound.0,
    All-append (λ r. r.id < s.next_rev_id + 1) s.revisions _
        (raised s.next_rev_id s.revisions sound.1) (omega arith, tt),
  )

  Step-IsSound : {s t : StateDb} → IsSound s → Step b 0 s t → IsSound t
  Step-IsSound sound (calls call s) = Undoable-IsSound sound (perform-Undoable b call s sound.0)
  Step-IsSound sound (snapshots s) = snapshot-IsSound s sound
  Step-IsSound sound (reverts s id later reverted) =
      chosen-IsSound s id (find_revision id s.revisions) sound.0
        (find_revision-Found (λ r. r.id < s.next_rev_id) id s.revisions sound.1) refl reverted

  add_addresses-Undoable :
      (s : StateDb) (addrs : List ℕ) → IsWarm s → Undoable b s (add_addresses s addrs)
  unfolding add_addresses
  add_addresses-Undoable s [] w = nothing-Undoable b s w
  add_addresses-Undoable s (addr ∷ rest) w =
      let u = add_address-Undoable b s addr w in
      Undoable-trans b u
        (add_addresses-Undoable (add_address_to_access_list s addr) rest u.still_warm)

  add_slots-Undoable :
      (s : StateDb) (addr : ℕ) (slots : List ℕ) → IsWarm s → Undoable b s (add_slots s addr slots)
  unfolding add_slots
  add_slots-Undoable s addr [] w = nothing-Undoable b s w
  add_slots-Undoable s addr (slot ∷ rest) w =
      let u = add_slot_to_access_list-Undoable b s addr slot w in
      Undoable-trans b u
        (add_slots-Undoable (add_slot_to_access_list s addr slot) addr rest u.still_warm)

  add_tuples-Undoable :
      (s : StateDb) (tuples : List (ℕ × List ℕ)) → IsWarm s → Undoable b s (add_tuples s tuples)
  unfolding add_tuples
  add_tuples-Undoable s [] w = nothing-Undoable b s w
  add_tuples-Undoable s ((addr, slots) ∷ rest) w =
      let u = add_address-Undoable b s addr w in
      let v = Undoable-trans b u (add_slots-Undoable _ addr slots u.still_warm) in
      Undoable-trans b v (
        add_tuples-Undoable (add_slots (add_address_to_access_list s addr) addr slots) rest
          v.still_warm)

  add_destination-Undoable :
      (s : StateDb) (dest : Option ℕ) → IsWarm s → Undoable b s (add_destination s dest)
  unfolding add_destination
  add_destination-Undoable s none w = nothing-Undoable b s w
  add_destination-Undoable s (some addr) w = add_address-Undoable b s addr w

  prepare-IsSound :
      (s : StateDb) (sender coinbase : ℕ) (dest : Option ℕ) (precompiles : List ℕ)
      (tuples : List (ℕ × List ℕ))
      → IsSound s
      → IsSound (prepare s sender coinbase dest precompiles tuples)
  unfolding prepare slots_at
  prepare-IsSound s sender coinbase dest precompiles tuples sound =
      let cleared = record s { accessed_addresses = []; accessed_slots = [] } in
      let cold : IsWarm cleared = λ addr key h. h in
      let u1 = add_address-Undoable b cleared sender cold in
      let u2 = Undoable-trans b u1 (add_destination-Undoable _ dest u1.still_warm) in
      let u3 = Undoable-trans b u2 (add_addresses-Undoable _ precompiles u2.still_warm) in
      let u4 = Undoable-trans b u3 (add_tuples-Undoable _ tuples u3.still_warm) in
      Undoable-IsSound (cold, sound.1)
        (Undoable-trans b u4 (add_address-Undoable b _ coinbase u4.still_warm))

  finalise_one-IsWarm :
      (gone : Bool) (addr : ℕ) (s : StateDb) → IsWarm s → IsWarm (finalise_one gone addr s)
  unfolding finalise_one put_object
  finalise_one-IsWarm gone addr s w = elim (Option-cases (lookup addr s.objects)) [
    | inl absent ↦ rw (finalise_one, absent) w
    | inr (o, here) ↦ elim (Bool-cases (o.self_destructed || (gone && is_empty o.data_of))) [
      | inl swept ↦ rw (finalise_one, here, swept) w
      | inr stays ↦ rw (finalise_one, here, stays) w
    ]
  ]

  finalise_all-IsWarm :
      (gone : Bool) (dirty : Dict (Unit {0})) (s : StateDb)
      → IsWarm s
      → IsWarm (finalise_all gone dirty s)
  unfolding finalise_all
  finalise_all-IsWarm gone [] s w = w
  finalise_all-IsWarm gone ((addr, _) ∷ rest) s w =
      finalise_all-IsWarm gone rest (finalise_one gone addr s) (finalise_one-IsWarm gone addr s w)

  -- In every state that New, calls, snapshots, reverts, Prepare, SetTxContext, Finalise and Copy can
  -- give, a slot is warm only if its address is, and every revision's id is below the next one.
  pub Life-IsSound : {s : StateDb} → Life s → IsSound s
  unfolding finalise new_state slots_at copy set_tx_context
  Life-IsSound opened = (λ addr key h. h, tt)
  Life-IsSound (runs life step) = Step-IsSound (Life-IsSound life) step
  Life-IsSound (prepares sender coinbase dest precompiles tuples life) =
      prepare-IsSound _ sender coinbase dest precompiles tuples (Life-IsSound life)
  Life-IsSound (sets_context hash index life) = Life-IsSound life
  Life-IsSound (finalises {s} gone life) =
      (finalise_all-IsWarm gone s.objects_dirty s (Life-IsSound life).0, tt)
  Life-IsSound (copies life) = ((Life-IsSound life).0, tt)
