-- ===== src/State/Operations.antt =====
-- state/statedb.go: every operation on accounts can be undone by the entries it journals.
use padi_chain.Base.{
  ℕ, ◌≡◌, refl, ◌∙◌, Bool, true, false, Option, none, some, ◌==◌, if◌then◌else◌, arith, inl, inr,
  Option-cases,
}
use padi_chain.Base.Ints.{ℤ, pos, credit, debit}
use padi_chain.Base.Maps.{lookup, insert, insert-insert}
use padi_chain.State.Objects.{
  Object, StateDb, Backend, put_object, mark_dirty, set_error, new_object, unless_deleted,
  balance_change, nonce_change, self_destruct_change, get_state_object, load_object, exist,
}
use padi_chain.State.Journal.{
  revert, journal_append, restore_balance, restore_nonce, restore_destruct,
}
use padi_chain.State.Writes.{
  fresh_object, create, write_balance, get_or_new, create_account, add_balance, sub_balance,
  set_balance, set_nonce, self_destruct,
}
use padi_chain.State.Views.{Same-refl, Cover, Cover-refl}
use padi_chain.State.Reverted.{Touches}
use padi_chain.State.Rollback.{IsWarm, Undoable, Undoable-trans}
use padi_chain.State.Blocks.{
  cached-Undoable, nothing-Undoable, created-Undoable, changed-Undoable, placed, lookup-insert_self,
}

module _ (b : Backend) where
  -- A change that can be undone, behind which the object at an address is known.
  abbrev pub Reaches : StateDb → ℕ → StateDb × Option Object → Type 0
  Reaches s addr r =
      Undoable b s r.0 × ((o : Object) → r.1 ≡ some o → lookup addr r.0.objects ≡ some o)

  load-Reaches :
      (s : StateDb) (addr : ℕ)
      → IsWarm s
      → lookup addr s.objects ≡ none
      → Reaches s addr (load_object b s addr)
  unfolding load_object put_object set_error Cover
  load-Reaches s addr warm absent = elim (Option-cases (b.read_account addr)) [
    | inl failed ↦
        rw (load_object, failed)
          (
            cached-Undoable b s s.objects s.objects_dirty s.code_cache s.dirties true warm
                (λ at. Cover-refl b at (lookup at s.objects)),
            λ o h. cc h,
          )
    | inr (none, read) ↦ rw (load_object, read) (nothing-Undoable b s warm, λ o h. cc h)
    | inr (some a, read) ↦
        rw (load_object, read)
          (
            cached-Undoable b s (insert addr (new_object a) s.objects) s.objects_dirty s.code_cache
                s.dirties s.has_error warm
                (placed b addr (new_object a) s.objects
                  (rw absent (a, read, Same-refl b (new_object a)))),
            λ o h. lookup-insert_self addr (new_object a) s.objects ∙ h,
          )
  ]

  unless_deleted-eq-some : (o : Object) {p : Object} → unless_deleted o ≡ some p → some o ≡ some p
  unfolding unless_deleted
  unless_deleted-eq-some o h = ground arith

  pub if_Undoable :
      {s : StateDb} (test : Bool) (t u : StateDb)
      → Undoable b s t
      → Undoable b s u
      → Undoable b s (if test then t else u)
  if_Undoable true t u h k = h
  if_Undoable false t u h k = k

  pub get_state_object-Reaches :
      (s : StateDb) (addr : ℕ) → IsWarm s → Reaches s addr (get_state_object b s addr)
  unfolding get_state_object unless_deleted
  get_state_object-Reaches s addr warm = elim (Option-cases (lookup addr s.objects)) [
    | inl absent ↦ rw (get_state_object, absent) (load-Reaches s addr warm absent)
    | inr (o, here) ↦
        rw (get_state_object, here)
          (nothing-Undoable b s warm, λ p h. here ∙ unless_deleted-eq-some o h)
  ]

  abbrev pub Holds : StateDb → ℕ → StateDb × Object → Type 0
  Holds s addr r = Undoable b s r.0 × (lookup addr r.0.objects ≡ some r.1)

  create-Holds : (s : StateDb) (addr : ℕ) → IsWarm s → Holds s addr (create s addr)
  unfolding create journal_append put_object mark_dirty
  create-Holds s addr warm = (
    created-Undoable b s addr fresh_object _ _ warm,
    lookup-insert_self addr fresh_object s.objects,
  )

  found-Holds :
      (s : StateDb) (addr : ℕ) (r : StateDb × Option Object)
      → Reaches s addr r
      → Holds s addr (elim r.1 [ some o ↦ (r.0, o) | none ↦ create r.0 addr ])
  found-Holds s addr (s', some o) h = (h.0, h.1 o refl)
  found-Holds s addr (s', none) h =
      let c = create-Holds s' addr h.0.still_warm in (Undoable-trans b h.0 c.0, c.1)

  pub get_or_new-Holds : (s : StateDb) (addr : ℕ) → IsWarm s → Holds s addr (get_or_new b s addr)
  unfolding get_or_new
  get_or_new-Holds s addr warm =
      found-Holds s addr (get_state_object b s addr) (get_state_object-Reaches s addr warm)

  write_balance-Undoable :
      (s : StateDb) (addr : ℕ) (o : Object) (amount : ℤ)
      → IsWarm s
      → lookup addr s.objects ≡ some o
      → Undoable b s (write_balance s addr o amount)
  unfolding write_balance journal_append put_object mark_dirty revert Touches restore_balance
  write_balance-Undoable s addr o amount warm here =
      changed-Undoable b s (balance_change addr o.data_of.balance) addr
        (restore_balance o.data_of.balance) o (restore_balance amount o) _ _ _ _ warm here
        (Same-refl b o) (λ t. refl) (λ t h. h)

  pub set_balance-Undoable :
      (s : StateDb) (addr : ℕ) (amount : ℤ) → IsWarm s → Undoable b s (set_balance b s addr amount)
  unfolding set_balance
  set_balance-Undoable s addr amount warm =
      let g = get_or_new-Holds s addr warm in
      Undoable-trans b g.0 (
        write_balance-Undoable (get_or_new b s addr).0 addr (get_or_new b s addr).1 amount
          g.0.still_warm g.1)

  pub sub_balance-Undoable :
      (s : StateDb) (addr amount : ℕ) → IsWarm s → Undoable b s (sub_balance b s addr amount)
  unfolding sub_balance
  sub_balance-Undoable s addr amount warm =
      let g = get_or_new-Holds s addr warm in
      let r = get_or_new b s addr in
      let amount' = debit r.1.data_of.balance amount in
      if_Undoable (amount == 0) s (write_balance r.0 addr r.1 amount') (nothing-Undoable b s warm)
        (Undoable-trans b g.0 (write_balance-Undoable r.0 addr r.1 amount' g.0.still_warm g.1))

  pub add_balance-Undoable :
      (s : StateDb) (addr amount : ℕ) → IsWarm s → Undoable b s (add_balance b s addr amount)
  unfolding add_balance exist
  add_balance-Undoable s addr amount warm =
      let g = get_or_new-Holds s addr warm in
      let r = get_or_new b s addr in
      let amount' = credit r.1.data_of.balance amount in
      let seen = get_state_object b s addr in
      let h = get_state_object-Reaches s addr warm in
      if_Undoable (amount == 0)
        (if elim seen.1 [ none ↦ false | some _ ↦ true ]
          then (get_or_new b seen.0 addr).0
          else seen.0)
        (write_balance r.0 addr r.1 amount')
        (if_Undoable (elim seen.1 [ none ↦ false | some _ ↦ true ]) (get_or_new b seen.0 addr).0
          seen.0 (Undoable-trans b h.0 (get_or_new-Holds seen.0 addr h.0.still_warm).0) h.0)
        (Undoable-trans b g.0 (write_balance-Undoable r.0 addr r.1 amount' g.0.still_warm g.1))

  pub set_nonce-Undoable :
      (s : StateDb) (addr nonce : ℕ) → IsWarm s → Undoable b s (set_nonce b s addr nonce)
  unfolding set_nonce journal_append put_object mark_dirty revert Touches restore_nonce
  set_nonce-Undoable s addr nonce warm =
      let g = get_or_new-Holds s addr warm in
      let o = (get_or_new b s addr).1 in
      Undoable-trans b g.0 (
        changed-Undoable b (get_or_new b s addr).0 (nonce_change addr o.data_of.nonce) addr
          (restore_nonce o.data_of.nonce) o (restore_nonce nonce o) _ _ _ _ g.0.still_warm g.1
          (Same-refl b o) (λ t. refl) (λ t h. h))

  destruct-Undoable :
      (s : StateDb) (addr : ℕ) (o : Object)
      → IsWarm s
      → lookup addr s.objects ≡ some o
      → Undoable b s (
          mark_dirty
            (put_object
              (journal_append s (self_destruct_change addr o.self_destructed o.data_of.balance))
              addr
              (restore_destruct true (pos 0) o))
            addr)
  unfolding journal_append put_object mark_dirty revert Touches restore_destruct
  destruct-Undoable s addr o warm here =
      changed-Undoable b s (self_destruct_change addr o.self_destructed o.data_of.balance) addr
        (restore_destruct o.self_destructed o.data_of.balance) o (restore_destruct true (pos 0) o) _
        _ _ _ warm here (Same-refl b o) (λ t. refl) (λ t h. h)

  found-Undoable :
      {s : StateDb} (addr : ℕ) (r : StateDb × Option Object) (f : Object → StateDb)
      → Reaches s addr r
      → ((o : Object) → lookup addr r.0.objects ≡ some o → Undoable b r.0 (f o))
      → Undoable b s (elim r.1 [ none ↦ r.0 | some o ↦ f o ])
  found-Undoable addr (s', none) f h k = h.0
  found-Undoable addr (s', some o) f h k = Undoable-trans b h.0 (k o (h.1 o refl))

  pub self_destruct-Undoable :
      (s : StateDb) (addr : ℕ) → IsWarm s → Undoable b s (self_destruct b s addr)
  unfolding self_destruct
  self_destruct-Undoable s addr warm =
      let r = get_state_object b s addr in
      let h = get_state_object-Reaches s addr warm in
      found-Undoable addr r
        (λ o.
          mark_dirty
            (put_object
              (journal_append r.0 (self_destruct_change addr o.self_destructed o.data_of.balance))
              addr (restore_destruct true (pos 0) o))
            addr)
        h (λ o here. destruct-Undoable r.0 addr o h.0.still_warm here)

  -- CreateAccount's second write falls under the entry of the first.
  made-Undoable :
      (s : StateDb) (addr : ℕ) (prev : Option Object)
      → IsWarm s
      → Undoable b s (elim prev [
        | none ↦ (create s addr).0
        | some p ↦
            put_object (create s addr).0 addr (restore_balance p.data_of.balance (create s addr).1)
      ])
  unfolding create journal_append put_object mark_dirty
  made-Undoable s addr none warm = created-Undoable b s addr fresh_object _ _ warm
  made-Undoable s addr (some p) warm =
      let o = restore_balance p.data_of.balance fresh_object in
      rw (insert-insert addr o fresh_object s.objects) (created-Undoable b s addr o _ _ warm)

  pub create_account-Undoable :
      (s : StateDb) (addr : ℕ) → IsWarm s → Undoable b s (create_account b s addr)
  unfolding create_account
  create_account-Undoable s addr warm =
      let h = get_state_object-Reaches s addr warm in
      Undoable-trans b h.0 (
        made-Undoable (get_state_object b s addr).0 addr (get_state_object b s addr).1
          h.0.still_warm)
