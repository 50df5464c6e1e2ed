-- ===== src/State/Journal.antt =====
-- state/journal.go: the entries of the journal and what reverting each of them does.
use padi_chain.Base.{
  ℕ, zero, suc, ◌+◌, ◌-◌, Bool, not, ◌&&◌, List, [], ◌∷◌, Option, none, some, ◌==◌, if◌then◌else◌,
  length,
}
use padi_chain.Base.Ints.{ℤ}
use padi_chain.Base.Maps.{Dict, lookup, insert, erase}
use padi_chain.State.Objects.{
  Object, Log, Entry, create_object, balance_change, nonce_change, code_change, storage_change,
  transient_change, self_destruct_change, refund_change, add_log_change, access_account_change,
  access_slot_change, StateDb, put_object,
}

-- dirtied
unfoldable pub dirtied : Entry → Option ℕ
dirtied (create_object addr prev) = some addr
dirtied (balance_change addr prev) = some addr
dirtied (nonce_change addr prev) = some addr
dirtied (code_change addr prev_code prev_hash) = some addr
dirtied (storage_change addr key prev existed) = some addr
dirtied (self_destruct_change addr prev prev_balance) = some addr
dirtied _ = none

-- `j.dirties[addr]`
unfoldable pub dirty_count : Dict ℕ → ℕ → ℕ
dirty_count d addr = elim (lookup addr d) [ none ↦ 0 | some n ↦ n ]

unfoldable pub count_up : Option ℕ → Dict ℕ → Dict ℕ
count_up none d = d
count_up (some addr) d = insert addr (dirty_count d addr + 1) d

-- `if j.dirties[*addr]--; j.dirties[*addr] == 0`; the counter is never 0 before.
unfoldable pub count_down : Option ℕ → Dict ℕ → Dict ℕ
count_down none d = d
count_down (some addr) d =
    let n = dirty_count d addr - 1 in if n == 0 then erase addr d else insert addr n d

-- journal.append
unfoldable pub journal_append : StateDb → Entry → StateDb
journal_append s e = record s { entries = e ∷ s.entries; dirties = count_up (dirtied e) s.dirties }

-- `if obj := s.objects[account]; obj != nil { … }`
unfoldable pub with_object : StateDb → ℕ → (Object → Object) → StateDb
with_object s addr change = elim (lookup addr s.objects) [
  | none ↦ s
  | some o ↦ put_object s addr (change o)
]

unfoldable pub restore_balance : ℤ → Object → Object
restore_balance prev o = record o { data_of = record (o.data_of) { balance = prev } }

unfoldable pub restore_nonce : ℕ → Object → Object
restore_nonce prev o = record o { data_of = record (o.data_of) { nonce = prev } }

unfoldable pub restore_code : Option (List ℕ) → ℕ → Object → Object
restore_code prev_code prev_hash o = record o {
  code = prev_code;
  data_of = record (o.data_of) { code_hash = prev_hash };
}

unfoldable pub restore_slot : ℕ → ℕ → Bool → Object → Object
restore_slot key prev existed o = record o {
  dirty_storage =
      if not existed && (prev == 0)
      then erase key o.dirty_storage
      else insert key prev o.dirty_storage;
}

unfoldable pub restore_destruct : Bool → ℤ → Object → Object
restore_destruct prev prev_balance o = record o {
  self_destructed = prev;
  data_of = record (o.data_of) { balance = prev_balance };
}

unfoldable pub drop_last {ℓ} : {A : Type ℓ} → List A → List A
drop_last [] = []
drop_last (x ∷ []) = []
drop_last (x ∷ y ∷ rest) = x ∷ drop_last (y ∷ rest)

-- addLogChange.revert, on the map of logs. For a transaction without logs the source's slice
-- logs[:len(logs)-1] panics, where this leaves the map as it is: AddLog makes its entry with a log.
unfoldable pub pop_log : ℕ → Dict (List Log) → Dict (List Log)
pop_log tx logs = elim (lookup tx logs) [
  | none ↦ logs
  | some found ↦ if length found == 1 then erase tx logs else insert tx (drop_last found) logs
]

-- transientStorageChange.revert, on the map of transient slots.
unfoldable pub restore_transient : ℕ → ℕ → ℕ → Dict (Dict ℕ) → Dict (Dict ℕ)
restore_transient addr key prev transient = elim (lookup addr transient) [
  | none ↦ transient
  | some slots ↦
      insert addr (if prev == 0 then erase key slots else insert key prev slots) transient
]

-- accessListAddSlotChange.revert, on the map of slots.
unfoldable pub drop_slot : ℕ → ℕ → Dict (Dict (Unit {0})) → Dict (Dict (Unit {0}))
drop_slot addr slot d = elim (lookup addr d) [
  | none ↦ d
  | some slots ↦ insert addr (erase slot slots) d
]

-- revert, for each kind of entry.
unfoldable pub revert : Entry → StateDb → StateDb
revert (create_object addr none) s = record s {
  objects = erase addr s.objects;
  objects_dirty = erase addr s.objects_dirty;
}
revert (create_object addr (some prev)) s = put_object s addr prev
revert (balance_change addr prev) s = with_object s addr (restore_balance prev)
revert (nonce_change addr prev) s = with_object s addr (restore_nonce prev)
revert (code_change addr prev_code prev_hash) s =
    with_object s addr (restore_code prev_code prev_hash)
revert (storage_change addr key prev existed) s = with_object s addr (restore_slot key prev existed)
revert (transient_change addr key prev) s = record s {
  transient = restore_transient addr key prev s.transient;
}
revert (self_destruct_change addr prev prev_balance) s =
    with_object s addr (restore_destruct prev prev_balance)
revert (refund_change prev) s = record s { refund = prev }
revert (add_log_change tx) s = record s { logs = pop_log tx s.logs; log_size = s.log_size - 1 }
revert (access_account_change addr) s = record s {
  accessed_addresses = erase addr s.accessed_addresses;
  accessed_slots = erase addr s.accessed_slots;
}
revert (access_slot_change addr slot) s = record s {
  accessed_slots = drop_slot addr slot s.accessed_slots;
}

-- One round of journal.revert: the newest entry undone, and taken off.
unfoldable pub revert_one : Entry → StateDb → StateDb
revert_one e s = let s' = revert e s in record s' { dirties = count_down (dirtied e) s'.dirties }

-- journal.revert, by the number of entries to undo.
unfoldable pub revert_newest : ℕ → List Entry → StateDb → StateDb
revert_newest zero es s = record s { entries = es }
revert_newest (suc n) [] s = record s { entries = [] }
revert_newest (suc n) (e ∷ es) s = revert_newest n es (revert_one e s)

unfoldable pub journal_revert : StateDb → ℕ → StateDb
journal_revert s target = revert_newest (length s.entries - target) s.entries s
