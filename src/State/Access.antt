-- ===== src/State/Access.antt =====
-- state/access.go: the accounts and slots that a transaction has already touched.
use padi_chain.Base.{Bool, List, [], ◌∷◌, Option, none, some, ℕ, if◌then◌else◌}
use padi_chain.Base.Maps.{contains, insert}
use padi_chain.State.Objects.{StateDb, access_account_change, access_slot_change, slots_at}
use padi_chain.State.Journal.{journal_append}

-- AddressInAccessList
unfoldable pub address_in_access_list : StateDb → ℕ → Bool
address_in_access_list s addr = contains addr s.accessed_addresses

-- SlotInAccessList
unfoldable pub slot_in_access_list : StateDb → ℕ → ℕ → Bool × Bool
slot_in_access_list s addr slot =
    (contains addr s.accessed_addresses, contains slot (slots_at addr s.accessed_slots))

-- AddAddressToAccessList
unfoldable pub add_address_to_access_list : StateDb → ℕ → StateDb
add_address_to_access_list s addr =
    if contains addr s.accessed_addresses
    then s
    else journal_append (record s { accessed_addresses = insert addr tt s.accessed_addresses })
        (access_account_change addr)

-- The slot itself, behind the address.
unfoldable pub add_slot : StateDb → ℕ → ℕ → StateDb
add_slot s addr slot =
    if contains slot (slots_at addr s.accessed_slots)
    then s
    else journal_append
        (record s {
          accessed_slots =
              insert addr (insert slot tt (slots_at addr s.accessed_slots)) s.accessed_slots;
        })
        (access_slot_change addr slot)

-- AddSlotToAccessList
unfoldable pub add_slot_to_access_list : StateDb → ℕ → ℕ → StateDb
add_slot_to_access_list s addr slot = add_slot (add_address_to_access_list s addr) addr slot

unfoldable pub add_addresses : StateDb → List ℕ → StateDb
add_addresses s [] = s
add_addresses s (addr ∷ rest) = add_addresses (add_address_to_access_list s addr) rest

unfoldable pub add_slots : StateDb → ℕ → List ℕ → StateDb
add_slots s addr [] = s
add_slots s addr (slot ∷ rest) = add_slots (add_slot_to_access_list s addr slot) addr rest

-- The tuples of an access list: an address and its storage keys.
unfoldable pub add_tuples : StateDb → List (ℕ × List ℕ) → StateDb
add_tuples s [] = s
add_tuples s ((addr, slots) ∷ rest) =
    add_tuples (add_slots (add_address_to_access_list s addr) addr slots) rest

unfoldable pub add_destination : StateDb → Option ℕ → StateDb
add_destination s none = s
add_destination s (some addr) = add_address_to_access_list s addr

-- Prepare
unfoldable pub prepare : StateDb → ℕ → ℕ → Option ℕ → List ℕ → List (ℕ × List ℕ) → StateDb
prepare s sender coinbase dest precompiles tuples =
    let cleared = record s { accessed_addresses = []; accessed_slots = [] } in
    let called = add_destination (add_address_to_access_list cleared sender) dest in
    add_address_to_access_list (add_tuples (add_addresses called precompiles) tuples) coinbase
