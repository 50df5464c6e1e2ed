-- ===== src/State/Sweep.antt =====
-- state/statedb.go: which accounts Finalise deletes.
use padi_chain.Base.{
  ℕ, ◌≡◌, refl, sym, ◌∙◌, Bool, true, false, ◌&&◌, ◌||◌, [], ◌∷◌, Option, none, some, ◌==◌, ==_iff,
  if◌then◌else◌, arith, inl, inr, Option-cases, Bool-cases,
}
use padi_chain.Base.Maps.{Dict, lookup, contains, lookup-insert}
use padi_chain.State.Objects.{
  Object, StateDb, Backend, is_empty, unless_deleted, put_object, get_state_object,
}
use padi_chain.State.Snapshots.{finalise, finalise_one, finalise_all}
use padi_chain.State.Observed.{shown, get_state_object-shown}

-- What the end of a transaction deletes: the self-destructed and, if asked, the empty.
abbrev pub is_swept : Bool → Option Object → Bool
is_swept empties none = false
is_swept empties (some o) = o.self_destructed || (empties && is_empty o.data_of)

sweep : Bool → Object → Object
sweep true o = record o { deleted = true; dirty_storage = [] }
sweep false o = o

swept : Bool → Option Object → Option Object
swept empties none = none
swept empties (some o) = some (sweep (is_swept empties (some o)) o)

swept_twice :
    (empties : Bool) (x : Option Object) → swept empties (swept empties x) ≡ swept empties x
unfolding swept sweep
swept_twice empties none = refl
swept_twice empties (some o) = elim (Bool-cases (is_swept empties (some o))) [
  | inl gone ↦ rw gone (rw gone refl)
  | inr stays ↦ rw stays (rw stays refl)
]

untouched_lookup :
    (empties : Bool) (addr : ℕ) (objects : Dict Object) (at : ℕ)
    → swept empties (lookup addr objects) ≡ lookup addr objects
    → lookup at objects
      ≡ (if at == addr then swept empties (lookup at objects) else lookup at objects)
untouched_lookup empties addr objects at h = elim (Bool-cases (at == addr)) [
  | inl is ↦ rw (is, (==_iff at addr).0 is) (sym h)
  | inr other ↦ rw other refl
]

swept_here :
    (empties : Bool) (addr : ℕ) (objects : Dict Object) (at : ℕ) {o : Object}
    → swept empties (lookup addr objects) ≡ some o
    → (if at == addr then some o else lookup at objects)
      ≡ (if at == addr then swept empties (lookup at objects) else lookup at objects)
swept_here empties addr objects at h = elim (Bool-cases (at == addr)) [
  | inl is ↦ rw (is, (==_iff at addr).0 is) (sym h)
  | inr other ↦ rw other refl
]

finalise_one-lookup :
    (empties : Bool) (addr : ℕ) (s : StateDb) (at : ℕ)
    → lookup at (finalise_one empties addr s).objects
      ≡ (if at == addr then swept empties (lookup at s.objects) else lookup at s.objects)
unfolding finalise_one put_object swept sweep
finalise_one-lookup empties addr s at = elim (Option-cases (lookup addr s.objects)) [
  | inl absent ↦
      rw (finalise_one, absent) (untouched_lookup empties addr s.objects at (rw absent refl))
  | inr (o, here) ↦ elim (Bool-cases (is_swept empties (some o))) [
    | inl gone ↦
        rw (finalise_one, here, gone)
          (lookup-insert at addr (sweep true o) s.objects
            ∙ swept_here empties addr s.objects at (rw (here, gone) refl))
    | inr stays ↦
        rw (finalise_one, here, stays)
          (untouched_lookup empties addr s.objects at (rw (here, stays) refl))
  ]
]

finalise_all-lookup :
    (empties : Bool) (dirty : Dict (Unit {0})) (s : StateDb) (at : ℕ)
    → lookup at (finalise_all empties dirty s).objects
      ≡ (if contains at dirty then swept empties (lookup at s.objects) else lookup at s.objects)
unfolding finalise_all
finalise_all-lookup empties [] s at = refl
finalise_all-lookup empties ((addr, _) ∷ rest) s at = ground (
  arith,
  finalise_all-lookup empties rest (finalise_one empties addr s) at,
  finalise_one-lookup empties addr s at,
  swept_twice empties (lookup at s.objects),
)

module _ (b : Backend) where
  shown-swept :
      (empties : Bool) (at : ℕ) (x : Option Object)
      → shown b at (swept empties x) ≡ (if is_swept empties x then none else shown b at x)
  unfolding shown swept sweep unless_deleted
  shown-swept empties at none = refl
  shown-swept empties at (some o) = elim (Bool-cases (is_swept empties (some o))) [
    | inl gone ↦ rw gone refl
    | inr stays ↦ rw stays refl
  ]

  -- After Finalise the accounts of objectsDirty that self-destructed or, if asked, are empty, are gone,
  -- and every other account is found as it was.
  pub get_state_object-finalise :
      (s : StateDb) (empties : Bool) (at : ℕ)
      → (get_state_object b (finalise s empties) at).1 ≡ (
          if contains at s.objects_dirty && is_swept empties (lookup at s.objects)
          then none
          else (get_state_object b s at).1)
  unfolding finalise
  get_state_object-finalise s empties at =
      rw
        (
          get_state_object-shown b (finalise s empties) at,
          get_state_object-shown b s at,
          finalise_all-lookup empties s.objects_dirty s at,
        )
        (elim (Bool-cases (contains at s.objects_dirty)) [
          | inl dirty ↦ rw dirty (shown-swept empties at (lookup at s.objects))
          | inr clean ↦ rw clean refl
        ])
