-- ===== src/State/Writes.antt =====
-- state/statedb.go: the operations that change accounts, refunds, logs and transient storage.
use padi_chain.Base.{
  ℕ, ◌+◌, ◌-◌, ◌%◌, ◌^◌, true, List, [], ◌∷◌, ◌++◌, Option, none, some, ltb, ◌==◌, if◌then◌else◌,
}
use padi_chain.Base.Ints.{ℤ, pos, negsuc, credit, debit}
use padi_chain.Base.Maps.{lookup, contains, insert}
use padi_chain.State.Objects.{
  Backend, Object, Log, create_object, balance_change, nonce_change, code_change, storage_change,
  transient_change, self_destruct_change, refund_change, add_log_change, StateDb, new_account,
  new_object, set_error, put_object, mark_dirty, get_state_object, code_of, state_of, exist,
  get_transient_state, get_logs, slots_at,
}
use padi_chain.State.Journal.{
  journal_append, restore_balance, restore_nonce, restore_code, restore_destruct,
}

unfoldable pub fresh_object : Object
fresh_object = record (new_object new_account) { created = true }

-- createObject
unfoldable pub create : StateDb → ℕ → StateDb × Object
create s addr =
    let journaled = journal_append s (create_object addr (lookup addr s.objects)) in
    (mark_dirty (put_object journaled addr fresh_object) addr, fresh_object)

-- setBalance, of the object at an address.
unfoldable pub write_balance : StateDb → ℕ → Object → ℤ → StateDb
write_balance s addr o amount =
    let journaled = journal_append s (balance_change addr o.data_of.balance) in
    mark_dirty (put_object journaled addr (restore_balance amount o)) addr

-- The object of an address again, after a read that may have cached something in it.
unfoldable pub reread : StateDb → ℕ → Object → Object
reread s addr o = elim (lookup addr s.objects) [ none ↦ o | some o' ↦ o' ]

module _ (b : Backend) where
  -- getOrNewStateObject
  unfoldable pub get_or_new : StateDb → ℕ → StateDb × Object
  get_or_new s addr =
      let (s', found) = get_state_object b s addr in
      elim found [ some o ↦ (s', o) | none ↦ create s' addr ]

  -- CreateAccount; the balance is kept without a journal entry of its own.
  unfoldable pub create_account : StateDb → ℕ → StateDb
  create_account s addr =
      let (s', prev) = get_state_object b s addr in
      let (s2, o) = create s' addr in
      elim prev [ none ↦ s2 | some p ↦ put_object s2 addr (restore_balance p.data_of.balance o) ]

  -- AddBalance
  unfoldable pub add_balance : StateDb → ℕ → ℕ → StateDb
  add_balance s addr amount =
      if amount == 0
      then (let (s', there) = exist b s addr in if there then (get_or_new s' addr).0 else s')
      else (let (s', o) = get_or_new s addr in
          write_balance s' addr o (credit o.data_of.balance amount))

  -- SubBalance
  unfoldable pub sub_balance : StateDb → ℕ → ℕ → StateDb
  sub_balance s addr amount =
      if amount == 0
      then s
      else (let (s', o) = get_or_new s addr in
          write_balance s' addr o (debit o.data_of.balance amount))

  -- SetBalance
  unfoldable pub set_balance : StateDb → ℕ → ℤ → StateDb
  set_balance s addr amount = let (s', o) = get_or_new s addr in write_balance s' addr o amount

  -- SetNonce
  unfoldable pub set_nonce : StateDb → ℕ → ℕ → StateDb
  set_nonce s addr nonce =
      let (s', o) = get_or_new s addr in
      let journaled = journal_append s' (nonce_change addr o.data_of.nonce) in
      mark_dirty (put_object journaled addr (restore_nonce nonce o)) addr

  -- The part of SetCode that changes the object, with the code it had before.
  unfoldable pub write_code : StateDb → ℕ → Object → Option (List ℕ) → List ℕ → StateDb
  write_code s addr o prev_code code =
      let journaled = journal_append s (code_change addr prev_code o.data_of.code_hash) in
      let hash = b.keccak code in
      let written = record (restore_code (some code) hash o) { code_dirty = true } in
      mark_dirty
        (record (put_object journaled addr written) { code_cache = insert hash code s.code_cache })
        addr

  -- SetCode
  unfoldable pub set_code : StateDb → ℕ → List ℕ → StateDb
  set_code s addr code =
      let (s1, o) = get_or_new s addr in
      let (s2, prev_code) = code_of b s1 addr o in
      write_code s2 addr (reread s2 addr o) prev_code code

  -- The part of SetState behind its reads.
  unfoldable pub write_slot : StateDb → ℕ → Object → ℕ → ℕ → ℕ → StateDb
  write_slot s addr o key prev value =
      if prev == value
      then s
      else (let existed = contains key o.dirty_storage in
          let journaled = journal_append s (storage_change addr key prev existed) in
          let written = record o { dirty_storage = insert key value o.dirty_storage } in
          mark_dirty (put_object journaled addr written) addr)

  -- SetState
  unfoldable pub set_state : StateDb → ℕ → ℕ → ℕ → StateDb
  set_state s addr key value =
      let (s1, o) = get_or_new s addr in
      let (s2, prev) = state_of b s1 addr o key in
      write_slot s2 addr (reread s2 addr o) key prev value

  -- SelfDestruct
  unfoldable pub self_destruct : StateDb → ℕ → StateDb
  self_destruct s addr =
      let (s', found) = get_state_object b s addr in
      elim found [
        | none ↦ s'
        | some o ↦
            let entry = self_destruct_change addr o.self_destructed o.data_of.balance in
            let journaled = journal_append s' entry in
            mark_dirty (put_object journaled addr (restore_destruct true (pos 0) o)) addr
      ]

-- SetTransientState
unfoldable pub set_transient_state : StateDb → ℕ → ℕ → ℕ → StateDb
set_transient_state s addr key value =
    let prev = get_transient_state s addr key in
    if prev == value
    then s
    else (let journaled = journal_append s (transient_change addr key prev) in
        record journaled {
          transient = insert addr (insert key value (slots_at addr s.transient)) s.transient;
        })

-- AddRefund, in 64 bits
unfoldable pub add_refund : StateDb → ℕ → StateDb
add_refund s gas =
    let journaled = journal_append s (refund_change s.refund) in
    record journaled { refund = (s.refund + gas) % 2 ^ 64 }

-- SubRefund
unfoldable pub sub_refund : StateDb → ℕ → StateDb
sub_refund s gas =
    let journaled = journal_append s (refund_change s.refund) in
    if ltb s.refund gas
    then record (set_error journaled) { refund = 0 }
    else record journaled { refund = s.refund - gas }

-- uint(i) of an int
unfoldable pub go_uint : ℤ → ℕ
go_uint (pos n) = n % 2 ^ 64
go_uint (negsuc n) = (2 ^ 64 - 1) - n % 2 ^ 64

-- AddLog
unfoldable pub add_log : StateDb → ℕ → List ℕ → List ℕ → StateDb
add_log s address topics data_bytes =
    let journaled = journal_append s (add_log_change s.thash) in
    let log : Log = record {
      address = address;
      topics = topics;
      data_bytes = data_bytes;
      tx_hash = s.thash;
      tx_index = go_uint s.tx_index;
      index = s.log_size;
    } in
    record journaled {
      logs = insert s.thash (get_logs s s.thash ++ (log ∷ [])) s.logs;
      log_size = s.log_size + 1;
    }

-- SetTxContext
unfoldable pub set_tx_context : StateDb → ℕ → ℤ → StateDb
set_tx_context s hash index = record s { thash = hash; tx_index = index }
