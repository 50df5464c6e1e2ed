-- ===== src/State/Slots.antt =====
-- state/statedb.go: reading a storage slot or a code caches it, and changes nothing that is shown.
use padi_chain.Base.{
  ℕ, ◌≡◌, refl, ap, sym, ◌∙◌, Bool, true, false, List, Option, none, some, ◌==◌, ==_iff, inl, inr,
  Option-cases, Bool-cases,
}
use padi_chain.Base.Maps.{Dict, lookup, insert, lookup-insert}
use padi_chain.State.Objects.{
  Object, StateDb, Backend, put_object, set_error, empty_code_hash, get_state_object,
  committed_state, state_of, code_of, code_from_store, code_from_cache, code_from_hash,
  code_from_object, read_through, get_state, get_committed_state, get_code,
}
use padi_chain.State.Views.{committed_value, slot_value, Same, Same-refl, Cover-refl}
use padi_chain.State.Rollback.{IsWarm, Undoable, Undoable-trans}
use padi_chain.State.Blocks.{cached-Undoable, Same-Undoable, lookup-insert_self}
use padi_chain.State.Operations.{Reaches, get_state_object-Reaches}

module _ (b : Backend) where
  -- A read that may cache: the state behind it, the object at the address in that, and its value.
  abbrev pub Cached : StateDb → ℕ → Object → StateDb → Type 0
  Cached s addr o s' =
      Undoable b s s' × (o' : Object) × (lookup addr s'.objects ≡ some o') × Same b o' o

  committed_plain :
      (o : Object) (key value : ℕ)
      → lookup key o.origin_storage ≡ none
      → read_through b o key ≡ some value
      → committed_value b o key ≡ value
  unfolding committed_value
  committed_plain o key value absent read = rw (committed_value, absent, read) refl

  committed-cached :
      (o : Object) (key value k : ℕ)
      → lookup key o.origin_storage ≡ none
      → read_through b o key ≡ some value
      → committed_value b (record o { origin_storage = insert key value o.origin_storage }) k
        ≡ committed_value b o k
  unfolding committed_value read_through
  committed-cached o key value k absent read =
      rw (committed_value, lookup-insert k key value o.origin_storage)
        (elim (Bool-cases (k == key)) [
          | inl is ↦ rw is (
              sym (committed_plain o key value absent read)
              ∙ ap (committed_value b o) (sym ((==_iff k key).0 is)))
          | inr other ↦ rw other refl
        ])

  fallback_same :
      (x : Option ℕ) {m n : ℕ}
      → m ≡ n
      → elim x [ some v ↦ v | none ↦ m ] ≡ elim x [ some v ↦ v | none ↦ n ]
  fallback_same (some v) h = refl
  fallback_same none h = h

  pub cached_slot-Same :
      (o : Object) (key value : ℕ)
      → lookup key o.origin_storage ≡ none
      → read_through b o key ≡ some value
      → Same b (record o { origin_storage = insert key value o.origin_storage }) o
  unfolding slot_value
  cached_slot-Same o key value absent read = record {
    same_data = refl;
    same_destructed = refl;
    same_deleted = refl;
    same_created = refl;
    same_committed = λ k. committed-cached o key value k absent read;
    same_slots =
        λ k. fallback_same (lookup k o.dirty_storage) (committed-cached o key value k absent read);
  }

  put-Cached :
      (s : StateDb) (codes : Dict (List ℕ)) (addr : ℕ) (o o' : Object)
      → IsWarm s
      → lookup addr s.objects ≡ some o
      → Same b o' o
      → Cached s addr o (put_object (record s { code_cache = codes }) addr o')
  unfolding put_object
  put-Cached s codes addr o o' warm here same = (
    Same-Undoable b s codes addr o' warm here same,
    o',
    lookup-insert_self addr o' s.objects,
    same,
  )

  unchanged :
      (s : StateDb) (addr : ℕ) (o : Object) (he : Bool)
      → IsWarm s
      → lookup addr s.objects ≡ some o
      → Cached s addr o (record s { has_error = he })
  unchanged s addr o he warm here = (
    cached-Undoable b s s.objects s.objects_dirty s.code_cache s.dirties he warm
        (λ at. Cover-refl b at (lookup at s.objects)),
    o,
    here,
    Same-refl b o,
  )

  pub committed_state-Cached :
      (s : StateDb) (addr : ℕ) (o : Object) (key : ℕ)
      → IsWarm s
      → lookup addr s.objects ≡ some o
      → Cached s addr o (committed_state b s addr o key).0
        × ((committed_state b s addr o key).1 ≡ committed_value b o key)
  unfolding committed_state committed_value set_error
  committed_state-Cached s addr o key warm here =
      elim (Option-cases (lookup key o.origin_storage)) [
        | inr (v, at) ↦
            rw (committed_state, committed_value, at)
              (unchanged s addr o s.has_error warm here, refl)
        | inl absent ↦ elim (Option-cases (read_through b o key)) [
          | inl failed ↦
              rw (committed_state, committed_value, absent, failed)
                (unchanged s addr o true warm here, refl)
          | inr (v, read) ↦
              rw (committed_state, committed_value, absent, read)
                (
                  put-Cached s s.code_cache addr o _ warm here
                      (cached_slot-Same o key v absent read),
                  refl,
                )
        ]
      ]

  pub state_of-Cached :
      (s : StateDb) (addr : ℕ) (o : Object) (key : ℕ)
      → IsWarm s
      → lookup addr s.objects ≡ some o
      → Cached s addr o (state_of b s addr o key).0
        × ((state_of b s addr o key).1 ≡ slot_value b o key)
  unfolding state_of slot_value
  state_of-Cached s addr o key warm here = elim (Option-cases (lookup key o.dirty_storage)) [
    | inr (v, at) ↦ rw (state_of, slot_value, at) (unchanged s addr o s.has_error warm here, refl)
    | inl absent ↦ rw (state_of, slot_value, absent) (committed_state-Cached s addr o key warm here)
  ]

  pub coded-Same :
      (o : Object) (code : Option (List ℕ)) (dirty : Bool)
      → Same b (record o { code = code; code_dirty = dirty }) o
  unfolding committed_value slot_value read_through
  coded-Same o code dirty = record {
    same_data = refl;
    same_destructed = refl;
    same_deleted = refl;
    same_created = refl;
    same_committed = λ key. refl;
    same_slots = λ key. refl;
  }

  code_from_store-Cached :
      (s : StateDb) (addr : ℕ) (o : Object) (found : Option (List ℕ))
      → IsWarm s
      → lookup addr s.objects ≡ some o
      → Cached s addr o (code_from_store b s addr o found).0
  unfolding code_from_store set_error
  code_from_store-Cached s addr o none warm here = unchanged s addr o true warm here
  code_from_store-Cached s addr o (some code) warm here =
      put-Cached s (insert o.data_of.code_hash code s.code_cache) addr o
        (record o { code = some code }) warm here (coded-Same o (some code) o.code_dirty)

  code_from_cache-Cached :
      (s : StateDb) (addr : ℕ) (o : Object) (found : Option (List ℕ))
      → IsWarm s
      → lookup addr s.objects ≡ some o
      → Cached s addr o (code_from_cache b s addr o found).0
  unfolding code_from_cache
  code_from_cache-Cached s addr o none warm here =
      code_from_store-Cached s addr o (b.read_code o.data_of.code_hash) warm here
  code_from_cache-Cached s addr o (some code) warm here =
      put-Cached s s.code_cache addr o (record o { code = some code }) warm here
        (coded-Same o (some code) o.code_dirty)

  code_from_hash-Cached :
      (s : StateDb) (addr : ℕ) (o : Object) (empty : Bool)
      → IsWarm s
      → lookup addr s.objects ≡ some o
      → Cached s addr o (code_from_hash b s addr o empty).0
  unfolding code_from_hash
  code_from_hash-Cached s addr o true warm here = unchanged s addr o s.has_error warm here
  code_from_hash-Cached s addr o false warm here =
      code_from_cache-Cached s addr o (lookup o.data_of.code_hash s.code_cache) warm here

  code_from_object-Cached :
      (s : StateDb) (addr : ℕ) (o : Object) (code : Option (List ℕ))
      → IsWarm s
      → lookup addr s.objects ≡ some o
      → Cached s addr o (code_from_object b s addr o code).0
  unfolding code_from_object
  code_from_object-Cached s addr o (some code) warm here = unchanged s addr o s.has_error warm here
  code_from_object-Cached s addr o none warm here =
      code_from_hash-Cached s addr o (o.data_of.code_hash == empty_code_hash) warm here

  pub code_of-Cached :
      (s : StateDb) (addr : ℕ) (o : Object)
      → IsWarm s
      → lookup addr s.objects ≡ some o
      → Cached s addr o (code_of b s addr o).0
  unfolding code_of
  code_of-Cached s addr o warm here = code_from_object-Cached s addr o o.code warm here

  -- A read of an object that was found, or its default.
  read-Undoable :
      {V : Type 0} {s : StateDb} (addr : ℕ) (r : StateDb × Option Object)
      (f : V × (Object → StateDb × V))
      → Reaches b s addr r
      → ((o : Object) → lookup addr r.0.objects ≡ some o → Undoable b r.0 (f.1 o).0)
      → Undoable b s (elim r.1 as (λ x. StateDb × V) [ none ↦ (r.0, f.0) | some o ↦ f.1 o ]).0
  read-Undoable addr (s', none) f h k = h.0
  read-Undoable addr (s', some o) f h k = Undoable-trans b h.0 (k o (h.1 o refl))

  pub get_state-Undoable :
      (s : StateDb) (addr key : ℕ) → IsWarm s → Undoable b s (get_state b s addr key).0
  unfolding get_state
  get_state-Undoable s addr key warm =
      let r = get_state_object b s addr in
      let h = get_state_object-Reaches b s addr warm in
      read-Undoable addr r (0, λ o. state_of b r.0 addr o key) h
        (λ o here. (state_of-Cached r.0 addr o key h.0.still_warm here).0.0)

  pub get_committed_state-Undoable :
      (s : StateDb) (addr key : ℕ) → IsWarm s → Undoable b s (get_committed_state b s addr key).0
  unfolding get_committed_state
  get_committed_state-Undoable s addr key warm =
      let r = get_state_object b s addr in
      let h = get_state_object-Reaches b s addr warm in
      read-Undoable addr r (0, λ o. committed_state b r.0 addr o key) h
        (λ o here. (committed_state-Cached r.0 addr o key h.0.still_warm here).0.0)

  pub get_code-Undoable : (s : StateDb) (addr : ℕ) → IsWarm s → Undoable b s (get_code b s addr).0
  unfolding get_code
  get_code-Undoable s addr warm =
      let r = get_state_object b s addr in
      let h = get_state_object-Reaches b s addr warm in
      read-Undoable addr r (none, λ o. code_of b r.0 addr o) h
        (λ o here. (code_of-Cached r.0 addr o h.0.still_warm here).0)
