-- ===== src/State/Balances.antt =====
-- state/statedb.go: balances and nonces as read after AddBalance, SubBalance, SetBalance and SetNonce.
use padi_chain.Base.{
  ℕ, ◌≡◌, ◌≢◌, refl, sym, ap, ◌∙◌, Bool, true, false, Option, none, some, ◌==◌, ==_iff,
  if◌then◌else◌, arith, inl, inr, Option-cases, Bool-cases,
}
use padi_chain.Base.Ints.{ℤ, pos, negsuc, credit, debit}
use padi_chain.State.Objects.{
  Object, StateDb, Backend, put_object, mark_dirty, get_state_object, new_object, new_account,
  exist, get_balance,
}
use padi_chain.State.Journal.{journal_append, restore_balance}
use padi_chain.State.Writes.{
  get_or_new, fresh_object, write_balance, add_balance, sub_balance, set_balance,
}
use padi_chain.State.Observed.{view}
use padi_chain.State.Found.{
  found, found-put, found-get_state_object, made, found-get_or_new, made-live,
}

credit_nothing : (a : ℤ) → credit a 0 ≡ a
unfolding credit
credit_nothing (pos a) = ap pos (omega arith)
credit_nothing (negsuc a) = ground arith

debit_nothing : (a : ℤ) → debit a 0 ≡ a
unfolding debit
debit_nothing (pos a) = ground arith
debit_nothing (negsuc a) = ap negsuc (omega arith)

module _ (b : Backend) where
  abbrev pub balance_in : Option Object → ℤ
  balance_in = view b (pos 0) (λ o. o.data_of.balance)

  pub made-balance : (x : Option Object) → (made b x).data_of.balance ≡ balance_in x
  unfolding view fresh_object new_object new_account
  made-balance none = refl
  made-balance (some o) = refl

  found-write_balance :
      (s : StateDb) (addr : ℕ) (o : Object) (amount : ℤ) (at : ℕ)
      → o.deleted ≡ false
      → found b (write_balance s addr o amount) at
        ≡ (if at == addr then some (restore_balance amount o) else found b s at)
  unfolding write_balance journal_append put_object mark_dirty restore_balance
  found-write_balance s addr o amount at live =
      found-put b s (write_balance s addr o amount) addr (restore_balance amount o) at refl live

  -- The balances after getOrNewStateObject and setBalance.
  balance_written :
      (s : StateDb) (addr : ℕ) (f : ℤ → ℤ) (at : ℕ)
      → let g = get_or_new b s addr in
        balance_in (found b (write_balance g.0 addr g.1 (f g.1.data_of.balance)) at)
        ≡ (if at == addr then f (balance_in (found b s addr)) else balance_in (found b s at))
  unfolding view restore_balance
  balance_written s addr f at =
      let g = get_or_new b s addr in
      let h = found-get_or_new b s addr at in
      rw
        (
          found-write_balance g.0 addr g.1 (f g.1.data_of.balance) at (rw h.0 (made-live b s addr)),
          h.0,
          h.1,
          made-balance (found b s addr),
        )
        (ground arith)

  -- After SetBalance an address has the amount, and every other address the balance it had.
  pub get_balance-set_balance :
      (s : StateDb) (addr : ℕ) (amount : ℤ) (at : ℕ)
      → (get_balance b (set_balance b s addr amount) at).1
        ≡ (if at == addr then amount else (get_balance b s at).1)
  unfolding get_balance set_balance view
  get_balance-set_balance s addr amount at = balance_written s addr (λ _. amount) at

  -- AddBalance of nothing at most loads or makes the object that was found.
  touched_found :
      (s : StateDb) (addr at : ℕ)
      → found b s addr ≢ none
      → found b (get_or_new b s addr).0 at ≡ found b s at
  touched_found s addr at there = elim (Option-cases (found b s addr)) [
    | inl absent ↦ absurd (there absent)
    | inr (o, here) ↦
        rw ((found-get_or_new b s addr at).1, here)
          (elim (Bool-cases (at == addr)) [
            | inl is ↦ rw (is, (==_iff at addr).0 is) (sym here)
            | inr other ↦ rw other refl
          ])
  ]

  untouched :
      (s : StateDb) (addr at : ℕ) (x : Option Object)
      → found b s addr ≡ x
      → let there = elim x as (λ y. Bool) [ none ↦ false | some _ ↦ true ] in
        found b (if there then (get_or_new b s addr).0 else s) at ≡ found b s at
  untouched s addr at none e = refl
  untouched s addr at (some o) e = touched_found s addr at (λ absent. cc (absent, e))

  added_nothing : (s : StateDb) (addr at : ℕ) → found b (add_balance b s addr 0) at ≡ found b s at
  unfolding add_balance exist
  added_nothing s addr at =
      let r = get_state_object b s addr in
      untouched r.0 addr at r.1 (found-get_state_object b s addr addr)
      ∙ found-get_state_object b s addr at

  same_or_self :
      (x : ℤ) (f : ℕ → ℤ) (at addr : ℕ) → x ≡ f addr → (if at == addr then x else f at) ≡ f at
  same_or_self x f at addr h = elim (Bool-cases (at == addr)) [
    | inl is ↦ rw (is, (==_iff at addr).0 is) h
    | inr other ↦ rw other refl
  ]

  -- After AddBalance an address has the amount more, and every other address the balance it had: also
  -- where the amount is nothing, the address is new, or its balance is negative.
  pub get_balance-add_balance :
      (s : StateDb) (addr amount at : ℕ)
      → (get_balance b (add_balance b s addr amount) at).1
        ≡ (if at == addr then credit (get_balance b s addr).1 amount else (get_balance b s at).1)
  unfolding get_balance view add_balance
  get_balance-add_balance s addr amount at = elim (Bool-cases (amount == 0)) [
    | inl nothing ↦ rw ((==_iff amount 0).0 nothing) (
        ap balance_in (added_nothing s addr at)
        ∙ sym (same_or_self _ (λ a. balance_in (found b s a)) at addr (credit_nothing _)))
    | inr something ↦ rw (add_balance, something) (balance_written s addr (λ x. credit x amount) at)
  ]

  -- After SubBalance an address has the amount less, below zero if need be, and every other address
  -- the balance it had.
  pub get_balance-sub_balance :
      (s : StateDb) (addr amount at : ℕ)
      → (get_balance b (sub_balance b s addr amount) at).1
        ≡ (if at == addr then debit (get_balance b s addr).1 amount else (get_balance b s at).1)
  unfolding get_balance view sub_balance
  get_balance-sub_balance s addr amount at = elim (Bool-cases (amount == 0)) [
    | inl nothing ↦
        rw ((==_iff amount 0).0 nothing)
          (sym (same_or_self _ (λ a. balance_in (found b s a)) at addr (debit_nothing _)))
    | inr something ↦ rw (sub_balance, something) (balance_written s addr (λ x. debit x amount) at)
  ]
