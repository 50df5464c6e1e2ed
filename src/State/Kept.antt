-- ===== src/State/Kept.antt =====
-- state/statedb.go and state/access.go: reading an account, SetNonce and Prepare change no balance.
use padi_chain.Base.{
  ℕ, ◌≡◌, refl, ap, ◌∙◌, List, [], ◌∷◌, Option, none, some, ◌==◌, ==_iff, inl, inr, Bool-cases,
}
use padi_chain.Base.Ints.{ℤ}
use padi_chain.Base.Maps.{contains}
use padi_chain.State.Objects.{
  StateDb, Backend, put_object, mark_dirty, get_balance, get_nonce, get_code_hash, slots_at,
}
use padi_chain.State.Journal.{journal_append, restore_nonce}
use padi_chain.State.Writes.{get_or_new, set_nonce}
use padi_chain.State.Access.{
  add_address_to_access_list, add_slot, add_slot_to_access_list, add_addresses, add_slots,
  add_tuples, add_destination, prepare,
}
use padi_chain.State.Observed.{view}
use padi_chain.State.Found.{
  found, found-same, found-put, found-get_state_object, found-get_or_new, made-live,
}
use padi_chain.State.Balances.{balance_in, made-balance}

-- The access list is no part of the objects.
add_address-objects :
    (s : StateDb) (addr : ℕ) → (add_address_to_access_list s addr).objects ≡ s.objects
unfolding add_address_to_access_list journal_append
add_address-objects s addr = elim (Bool-cases (contains addr s.accessed_addresses)) [
  | inl there ↦ rw (add_address_to_access_list, there) refl
  | inr absent ↦ rw (add_address_to_access_list, absent) refl
]

add_slot-objects : (s : StateDb) (addr slot : ℕ) → (add_slot s addr slot).objects ≡ s.objects
unfolding add_slot journal_append
add_slot-objects s addr slot = elim (Bool-cases (contains slot (slots_at addr s.accessed_slots))) [
  | inl there ↦ rw (add_slot, there) refl
  | inr absent ↦ rw (add_slot, absent) refl
]

add_addresses-objects :
    (s : StateDb) (addresses : List ℕ) → (add_addresses s addresses).objects ≡ s.objects
unfolding add_addresses
add_addresses-objects s [] = refl
add_addresses-objects s (addr ∷ rest) =
    add_addresses-objects (add_address_to_access_list s addr) rest ∙ add_address-objects s addr

add_slots-objects :
    (s : StateDb) (addr : ℕ) (slots : List ℕ) → (add_slots s addr slots).objects ≡ s.objects
unfolding add_slots add_slot_to_access_list
add_slots-objects s addr [] = refl
add_slots-objects s addr (slot ∷ rest) =
    add_slots-objects (add_slot_to_access_list s addr slot) addr rest
    ∙ (add_slot-objects (add_address_to_access_list s addr) addr slot ∙ add_address-objects s addr)

add_tuples-objects :
    (s : StateDb) (tuples : List (ℕ × List ℕ)) → (add_tuples s tuples).objects ≡ s.objects
unfolding add_tuples
add_tuples-objects s [] = refl
add_tuples-objects s ((addr, slots) ∷ rest) =
    add_tuples-objects (add_slots (add_address_to_access_list s addr) addr slots) rest
    ∙ (add_slots-objects (add_address_to_access_list s addr) addr slots
        ∙ add_address-objects s addr)

add_destination-objects :
    (s : StateDb) (dest : Option ℕ) → (add_destination s dest).objects ≡ s.objects
unfolding add_destination
add_destination-objects s none = refl
add_destination-objects s (some addr) = add_address-objects s addr

prepare-objects :
    (s : StateDb) (sender coinbase : ℕ) (dest : Option ℕ) (precompiles : List ℕ)
    (tuples : List (ℕ × List ℕ))
    → (prepare s sender coinbase dest precompiles tuples).objects ≡ s.objects
unfolding prepare
prepare-objects s sender coinbase dest precompiles tuples =
    let cleared = record s { accessed_addresses = []; accessed_slots = [] } in
    let one = add_address_to_access_list cleared sender in
    let two = add_destination one dest in
    let three = add_addresses two precompiles in
    add_address-objects (add_tuples three tuples) coinbase
    ∙ (add_tuples-objects three tuples
        ∙ (add_addresses-objects two precompiles
            ∙ (add_destination-objects one dest ∙ add_address-objects cleared sender)))

module _ (b : Backend) where
  abbrev pub balance_at : StateDb → ℕ → ℤ
  balance_at s at = (get_balance b s at).1

  pub balance-prepare :
      (s : StateDb) (sender coinbase : ℕ) (dest : Option ℕ) (precompiles : List ℕ)
      (tuples : List (ℕ × List ℕ)) (at : ℕ)
      → balance_at (prepare s sender coinbase dest precompiles tuples) at ≡ balance_at s at
  unfolding get_balance view
  balance-prepare s sender coinbase dest precompiles tuples at = ap (balance_in b) (
      found-same b s (prepare s sender coinbase dest precompiles tuples) at
        (prepare-objects s sender coinbase dest precompiles tuples))

  pub balance-get_nonce :
      (s : StateDb) (addr at : ℕ) → balance_at (get_nonce b s addr).0 at ≡ balance_at s at
  unfolding get_nonce get_balance view
  balance-get_nonce s addr at = ap (balance_in b) (found-get_state_object b s addr at)

  pub balance-get_code_hash :
      (s : StateDb) (addr at : ℕ) → balance_at (get_code_hash b s addr).0 at ≡ balance_at s at
  unfolding get_code_hash get_balance view
  balance-get_code_hash s addr at = ap (balance_in b) (found-get_state_object b s addr at)

  pub balance-get_balance :
      (s : StateDb) (addr at : ℕ) → balance_at (get_balance b s addr).0 at ≡ balance_at s at
  unfolding get_balance view
  balance-get_balance s addr at = ap (balance_in b) (found-get_state_object b s addr at)

  pub balance-set_nonce :
      (s : StateDb) (addr nonce at : ℕ) → balance_at (set_nonce b s addr nonce) at ≡ balance_at s at
  unfolding get_balance view set_nonce journal_append put_object mark_dirty restore_nonce
  balance-set_nonce s addr nonce at =
      let g = get_or_new b s addr in
      let h = found-get_or_new b s addr at in
      ap (balance_in b) (
        found-put b g.0 (set_nonce b s addr nonce) addr (restore_nonce nonce g.1) at refl
          (rw h.0 (made-live b s addr)))
      ∙ (elim (Bool-cases (at == addr)) [
        | inl same ↦ rw (same, h.0, (==_iff at addr).0 same) (made-balance b (found b s addr))
        | inr other ↦ rw (other, h.1, other) refl
      ])
