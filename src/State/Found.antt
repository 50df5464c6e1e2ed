-- ===== src/State/Found.antt =====
-- state/statedb.go: the object that getStateObject finds at an address, after reads and writes.
use padi_chain.Base.{
  ℕ, ◌≡◌, refl, sym, ap, ◌∙◌, false, Option, none, some, ◌==◌, ==_iff, if◌then◌else◌, inl, inr,
  Option-cases, Bool-cases,
}
use padi_chain.Base.Maps.{lookup, insert, lookup-insert}
use padi_chain.State.Objects.{
  Account, Object, StateDb, Backend, new_object, unless_deleted, put_object, mark_dirty, set_error,
  load_object, get_state_object,
}
use padi_chain.State.Journal.{journal_append}
use padi_chain.State.Writes.{get_or_new, create, fresh_object}
use padi_chain.State.Observed.{shown, fetched, get_state_object-shown}

some_inj : {o p : Object} → some o ≡ some p → o ≡ p
some_inj h = cc h

module _ (b : Backend) where
  abbrev pub found : StateDb → ℕ → Option Object
  found s addr = (get_state_object b s addr).1

  pub found-same : (s t : StateDb) (at : ℕ) → t.objects ≡ s.objects → found t at ≡ found s at
  found-same s t at same =
      rw (get_state_object-shown b t at, get_state_object-shown b s at, same) refl

  -- Writing the object of one address.
  pub found-put :
      (s t : StateDb) (addr : ℕ) (o : Object) (at : ℕ)
      → t.objects ≡ insert addr o s.objects
      → o.deleted ≡ false
      → found t at ≡ (if at == addr then some o else found s at)
  unfolding shown unless_deleted
  found-put s t addr o at written live =
      rw
        (
          get_state_object-shown b t at,
          get_state_object-shown b s at,
          written,
          lookup-insert at addr o s.objects,
        )
        (elim (Bool-cases (at == addr)) [ inl is ↦ rw (is, live) refl | inr other ↦ rw other refl ])

  loaded_before :
      (s : StateDb) (addr at : ℕ) (a : Account)
      → lookup addr s.objects ≡ none
      → b.read_account addr ≡ some (some a)
      → (if at == addr then some (new_object a) else found s at) ≡ found s at
  unfolding shown fetched
  loaded_before s addr at a absent read = elim (Bool-cases (at == addr)) [
    | inl is ↦
        rw (is, (==_iff at addr).0 is, get_state_object-shown b s addr, absent, fetched, read) refl
    | inr other ↦ rw other refl
  ]

  found-load :
      (s : StateDb) (addr at : ℕ)
      → lookup addr s.objects ≡ none
      → found (load_object b s addr).0 at ≡ found s at
  unfolding load_object set_error put_object new_object
  found-load s addr at absent = elim (Option-cases (b.read_account addr)) [
    | inl failed ↦ rw (load_object, failed) (found-same s (set_error s) at refl)
    | inr (none, read) ↦ rw (load_object, read) refl
    | inr (some a, read) ↦
        rw (load_object, read)
          (found-put s (put_object s addr (new_object a)) addr (new_object a) at refl refl
            ∙ loaded_before s addr at a absent read)
  ]

  pub found-get_state_object :
      (s : StateDb) (addr at : ℕ) → found (get_state_object b s addr).0 at ≡ found s at
  unfolding get_state_object
  found-get_state_object s addr at = elim (Option-cases (lookup addr s.objects)) [
    | inr (o, here) ↦ rw (get_state_object, here) refl
    | inl absent ↦ rw (get_state_object, absent) (found-load s addr at absent)
  ]

  -- The object that getOrNewStateObject gives.
  abbrev pub made : Option Object → Object
  made none = fresh_object
  made (some o) = o

  unless_deleted-live : (o : Object) {p : Object} → unless_deleted o ≡ some p → p.deleted ≡ false
  unfolding unless_deleted
  unless_deleted-live o h = elim (Bool-cases o.deleted) [
    | inl gone ↦ absurd (cc (rw (unless_deleted, gone) at h))
    | inr here ↦ sym (ap (λ o. o.deleted) (some_inj (rw (unless_deleted, here) at h)))
  ]

  fetched-live : (addr : ℕ) {p : Object} → fetched b addr ≡ some p → p.deleted ≡ false
  unfolding fetched new_object
  fetched-live addr h = elim (Option-cases (b.read_account addr)) [
    | inl failed ↦ absurd (cc (rw (fetched, failed) at h))
    | inr (none, read) ↦ absurd (cc (rw (fetched, read) at h))
    | inr (some a, read) ↦ sym (ap (λ o. o.deleted) (some_inj (rw (fetched, read) at h)))
  ]

  shown-live :
      (addr : ℕ) (x : Option Object) {p : Object} → shown b addr x ≡ some p → p.deleted ≡ false
  unfolding shown
  shown-live addr none h = fetched-live addr h
  shown-live addr (some o) h = unless_deleted-live o h

  pub found-live : (s : StateDb) (addr : ℕ) {p : Object} → found s addr ≡ some p → p.deleted ≡ false
  found-live s addr h =
      shown-live addr (lookup addr s.objects) (sym (get_state_object-shown b s addr) ∙ h)

  created_found :
      (r : StateDb × Option Object) (addr at : ℕ)
      → r.1 ≡ found r.0 addr
      → let t = elim r.1 as (λ x. StateDb × Object) [
        | some o ↦ (r.0, o)
        | none ↦ create r.0 addr
      ] in
        (t.1 ≡ made r.1) × (found t.0 at ≡ (if at == addr then some (made r.1) else found r.0 at))
  unfolding create journal_append mark_dirty put_object fresh_object new_object
  created_found (s, none) addr at kept =
      (refl, found-put s (create s addr).0 addr fresh_object at refl refl)
  created_found (s, some o) addr at kept = (
    refl,
    elim (Bool-cases (at == addr)) [
      | inl is ↦ rw (is, (==_iff at addr).0 is) (sym kept)
      | inr other ↦ rw other refl
    ],
  )

  pub found-get_or_new :
      (s : StateDb) (addr at : ℕ)
      → ((get_or_new b s addr).1 ≡ made (found s addr))
        × (found (get_or_new b s addr).0 at
            ≡ (if at == addr then some (made (found s addr)) else found s at))
  unfolding get_or_new
  found-get_or_new s addr at =
      let r = get_state_object b s addr in
      let h = created_found r addr at (sym (found-get_state_object s addr addr)) in
      (
        h.0,
        h.1
            ∙ ap (λ x. if at == addr then some (made r.1) else x)
                (found-get_state_object s addr at),
      )

  pub made-live : (s : StateDb) (addr : ℕ) → (made (found s addr)).deleted ≡ false
  unfolding fresh_object new_object
  made-live s addr = elim (Option-cases (found s addr)) [
    | inl absent ↦ rw absent refl
    | inr (o, here) ↦ rw here (found-live s addr here)
  ]
