-- ===== src/State/Storage.antt =====
-- state/statedb.go: the storage as read after SetState.
use padi_chain.Base.{
  ℕ, ◌≡◌, refl, sym, ap, ap₂, ◌∙◌, Bool, true, false, ◌&&◌, Option, none, some, ◌==◌, ==_iff,
  if◌then◌else◌, arith, inl, inr, Option-cases, Bool-cases,
}
use padi_chain.Base.Maps.{lookup, insert, lookup-insert}
use padi_chain.State.Objects.{
  Object, StateDb, Backend, new_object, unless_deleted, put_object, mark_dirty, set_error,
  load_object, get_state_object, read_through, committed_state, state_of, get_state,
}
use padi_chain.State.Journal.{journal_append}
use padi_chain.State.Writes.{get_or_new, create, fresh_object, write_slot, set_state}
use padi_chain.State.Views.{committed_value, slot_value, Same, Same-refl}
use padi_chain.State.Blocks.{lookup-insert_self}
use padi_chain.State.Slots.{cached_slot-Same}
use padi_chain.State.Stores.{reread_is}
use padi_chain.State.Observed.{view, shown, get_state_object-shown, get_state-view, state_of-value}
use padi_chain.State.Found.{found, found-put, made, found-get_or_new, made-live}

module _ (b : Backend) where
  -- The object found stands in the map.
  load_lookup :
      (s : StateDb) (addr : ℕ) {o : Object}
      → (load_object b s addr).1 ≡ some o
      → lookup addr (load_object b s addr).0.objects ≡ some o
  unfolding load_object put_object
  load_lookup s addr h = elim (Option-cases (b.read_account addr)) [
    | inl failed ↦ absurd (cc (rw (load_object, failed) at h))
    | inr (none, read) ↦ absurd (cc (rw (load_object, read) at h))
    | inr (some a, read) ↦
        rw (load_object, read)
          (lookup-insert_self addr (new_object a) s.objects ∙ rw (load_object, read) at h)
  ]

  kept_lookup : (o : Object) {p : Object} → unless_deleted o ≡ some p → some o ≡ some p
  unfolding unless_deleted
  kept_lookup o h = ground arith

  found_lookup :
      (s : StateDb) (addr : ℕ) {o : Object}
      → (get_state_object b s addr).1 ≡ some o
      → lookup addr (get_state_object b s addr).0.objects ≡ some o
  unfolding get_state_object
  found_lookup s addr h = elim (Option-cases (lookup addr s.objects)) [
    | inl absent ↦
        rw (get_state_object, absent) (load_lookup s addr (rw (get_state_object, absent) at h))
    | inr (p, here) ↦
        rw (get_state_object, here) (here ∙ kept_lookup p (rw (get_state_object, here) at h))
  ]

  created_lookup :
      (r : StateDb × Option Object) (addr : ℕ)
      → ((o : Object) → r.1 ≡ some o → lookup addr r.0.objects ≡ some o)
      → let t = elim r.1 as (λ x. StateDb × Object) [
        | some o ↦ (r.0, o)
        | none ↦ create r.0 addr
      ] in
        lookup addr t.0.objects ≡ some t.1
  unfolding create journal_append mark_dirty put_object
  created_lookup (s, none) addr h = lookup-insert_self addr fresh_object s.objects
  created_lookup (s, some o) addr h = h o refl

  lookup-get_or_new :
      (s : StateDb) (addr : ℕ)
      → lookup addr (get_or_new b s addr).0.objects ≡ some (get_or_new b s addr).1
  unfolding get_or_new
  lookup-get_or_new s addr =
      created_lookup (get_state_object b s addr) addr (λ o h. found_lookup s addr h)

  -- Reading a slot keeps what is shown of the object, and every other object.
  abbrev Reads : StateDb → ℕ → Object → StateDb → Type 0
  Reads s addr o s' =
      (p : Object) × (lookup addr s'.objects ≡ some p)
      × Same b p o
      × ((at : ℕ) → (at == addr) ≡ false → lookup at s'.objects ≡ lookup at s.objects)

  unread :
      (s : StateDb) (addr : ℕ) (o : Object) (failed : Bool)
      → lookup addr s.objects ≡ some o
      → Reads s addr o (record s { has_error = failed })
  unread s addr o failed here = (o, here, Same-refl b o, λ at other. refl)

  committed_state-Reads :
      (s : StateDb) (addr : ℕ) (o : Object) (key : ℕ)
      → lookup addr s.objects ≡ some o
      → Reads s addr o (committed_state b s addr o key).0
  unfolding committed_state set_error put_object
  committed_state-Reads s addr o key here = elim (Option-cases (lookup key o.origin_storage)) [
    | inr (v, at) ↦ rw (committed_state, at) (unread s addr o s.has_error here)
    | inl absent ↦ elim (Option-cases (read_through b o key)) [
      | inl failed ↦ rw (committed_state, absent, failed) (unread s addr o true here)
      | inr (v, read) ↦
          rw (committed_state, absent, read)
            (
              record o { origin_storage = insert key v o.origin_storage },
              lookup-insert_self addr _ s.objects,
              cached_slot-Same b o key v absent read,
              λ at other. lookup-insert at addr _ s.objects ∙ rw other refl,
            )
    ]
  ]

  state_of-Reads :
      (s : StateDb) (addr : ℕ) (o : Object) (key : ℕ)
      → lookup addr s.objects ≡ some o
      → Reads s addr o (state_of b s addr o key).0
  unfolding state_of
  state_of-Reads s addr o key here = elim (Option-cases (lookup key o.dirty_storage)) [
    | inr (v, at) ↦ rw (state_of, at) (unread s addr o s.has_error here)
    | inl absent ↦ rw (state_of, absent) (committed_state-Reads s addr o key here)
  ]

  abbrev slot_in : ℕ → Option Object → ℕ
  slot_in k = view b 0 (λ o. slot_value b o k)

  found_here :
      (s : StateDb) (addr : ℕ) (p : Object)
      → lookup addr s.objects ≡ some p
      → p.deleted ≡ false
      → found b s addr ≡ some p
  unfolding shown unless_deleted
  found_here s addr p here live = rw (get_state_object-shown b s addr, here, live) refl

  found_elsewhere :
      (s t : StateDb) (at : ℕ)
      → lookup at t.objects ≡ lookup at s.objects
      → found b t at ≡ found b s at
  found_elsewhere s t at same =
      rw (get_state_object-shown b t at, get_state_object-shown b s at, same) refl

  made-slot : (x : Option Object) (k : ℕ) → slot_value b (made b x) k ≡ slot_in k x
  unfolding view fresh_object new_object slot_value committed_value read_through
  made-slot none k = refl
  made-slot (some o) k = refl

  made_slots :
      (s : StateDb) (addr at k : ℕ)
      → slot_in k (found b (get_or_new b s addr).0 at) ≡ slot_in k (found b s at)
  unfolding view
  made_slots s addr at k = rw ((found-get_or_new b s addr at).1) (elim (Bool-cases (at == addr)) [
    | inl is ↦ rw (is, (==_iff at addr).0 is) (made-slot (found b s addr) k)
    | inr other ↦ rw other refl
  ])

  read_slots :
      (s t : StateDb) (addr : ℕ) (o p : Object) (at k : ℕ)
      → lookup addr s.objects ≡ some o
      → lookup addr t.objects ≡ some p
      → o.deleted ≡ false
      → Same b p o
      → ((other : ℕ) → (other == addr) ≡ false → lookup other t.objects ≡ lookup other s.objects)
      → slot_in k (found b t at) ≡ slot_in k (found b s at)
  unfolding view
  read_slots s t addr o p at k here there live same elsewhere = elim (Bool-cases (at == addr)) [
    | inl is ↦
        rw
          (
            (==_iff at addr).0 is,
            found_here s addr o here live,
            found_here t addr p there (same.same_deleted ∙ live),
          )
          (same.same_slots k)
    | inr other ↦ ap (slot_in k) (found_elsewhere s t at (elsewhere at other))
  ]

  written_value :
      (p : Object) (key value k : ℕ)
      → slot_value b (record p { dirty_storage = insert key value p.dirty_storage }) k
        ≡ (if k == key then value else slot_value b p k)
  unfolding slot_value committed_value read_through
  written_value p key value k = ground (arith, lookup-insert k key value p.dirty_storage)

  unwritten_slots :
      (s : StateDb) (addr : ℕ) (p : Object) (key value at k : ℕ)
      → found b s addr ≡ some p
      → slot_value b p key ≡ value
      → slot_in k (found b s at)
        ≡ (if (at == addr) && (k == key) then value else slot_in k (found b s at))
  unfolding view
  unwritten_slots s addr p key value at k here same = elim (Bool-cases (at == addr)) [
    | inr other ↦ rw other refl
    | inl is ↦ elim (Bool-cases (k == key)) [
      | inr different ↦ rw (is, different) refl
      | inl slot ↦ rw (is, slot, (==_iff at addr).0 is, (==_iff k key).0 slot, here) same
    ]
  ]

  put_slots :
      (s t : StateDb) (addr : ℕ) (p q : Object) (key value at k : ℕ)
      → found b s addr ≡ some p
      → found b t at ≡ (if at == addr then some q else found b s at)
      → slot_value b q k ≡ (if k == key then value else slot_value b p k)
      → slot_in k (found b t at)
        ≡ (if (at == addr) && (k == key) then value else slot_in k (found b s at))
  unfolding view
  put_slots s t addr p q key value at k here put written = elim (Bool-cases (at == addr)) [
    | inr other ↦ rw (put, other) refl
    | inl is ↦ rw (put, is, (==_iff at addr).0 is, here) written
  ]

  written_slots :
      (s : StateDb) (addr : ℕ) (p : Object) (key value at k : ℕ)
      → lookup addr s.objects ≡ some p
      → p.deleted ≡ false
      → slot_in k (found b (write_slot b s addr p key (slot_value b p key) value) at)
        ≡ (if (at == addr) && (k == key) then value else slot_in k (found b s at))
  unfolding view write_slot journal_append put_object mark_dirty
  written_slots s addr p key value at k here live =
      elim (Bool-cases (slot_value b p key == value)) [
        | inl same ↦
            rw (write_slot, same)
              (unwritten_slots s addr p key value at k (found_here s addr p here live)
                ((==_iff _ value).0 same))
        | inr changed ↦
            rw (write_slot, changed)
              (put_slots s _ addr p (record p { dirty_storage = insert key value p.dirty_storage })
                key value at k (found_here s addr p here live)
                (found-put b s _ addr
                  (record p { dirty_storage = insert key value p.dirty_storage }) at refl live)
                (written_value p key value k))
      ]

  -- After SetState a slot has the value written, and every other slot of every account the value it
  -- had: also where the account is new, is read for the first time, or cannot be read.
  pub get_state-set_state :
      (s : StateDb) (addr key value at k : ℕ)
      → (get_state b (set_state b s addr key value) at k).1
        ≡ (if (at == addr) && (k == key) then value else (get_state b s at k).1)
  unfolding set_state
  get_state-set_state s addr key value at k =
      let g = get_or_new b s addr in
      let h = found-get_or_new b s addr at in
      let here = lookup-get_or_new s addr in
      let live : g.1.deleted ≡ false = rw h.0 (made-live b s addr) in
      let r = state_of b g.0 addr g.1 key in
      let (p, there, same, elsewhere) = state_of-Reads g.0 addr g.1 key here in
      let prev : r.1 ≡ slot_value b p key =
        state_of-value b g.0 addr g.1 key ∙ sym (same.same_slots key) in
      let gone = same.same_deleted ∙ live in
      get_state-view b (set_state b s addr key value) at k
      ∙ (ap₂ (λ o v. slot_in k (found b (write_slot b r.0 addr o key v value) at))
            (reread_is r.0 addr g.1 there) prev
          ∙ (written_slots r.0 addr p key value at k there gone
              ∙ ap (λ x. if (at == addr) && (k == key) then value else x)
                  (read_slots g.0 r.0 addr g.1 p at k here there live same elsewhere
                    ∙ (made_slots s addr at k ∙ sym (get_state-view b s at k)))))
