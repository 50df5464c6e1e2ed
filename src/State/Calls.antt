-- ===== src/State/Calls.antt =====
-- state/statedb.go and state/access.go: the calls that a transaction makes, each of which can be
-- undone.
use padi_chain.Base.{ℕ, List}
use padi_chain.Base.Ints.{ℤ}
use padi_chain.State.Objects.{
  StateDb, Backend, get_state_object, get_state, get_committed_state, get_code,
}
use padi_chain.State.Writes.{
  create_account, add_balance, sub_balance, set_balance, set_nonce, set_code, set_state,
  self_destruct, set_transient_state, add_refund, sub_refund, add_log,
}
use padi_chain.State.Access.{add_address_to_access_list, add_slot_to_access_list}
use padi_chain.State.Rollback.{IsWarm, Undoable}
use padi_chain.State.Operations.{
  get_state_object-Reaches, create_account-Undoable, add_balance-Undoable, sub_balance-Undoable,
  set_balance-Undoable, set_nonce-Undoable, self_destruct-Undoable,
}
use padi_chain.State.Slots.{get_state-Undoable, get_committed_state-Undoable, get_code-Undoable}
use padi_chain.State.Stores.{set_code-Undoable, set_state-Undoable}
use padi_chain.State.Effects.{
  add_refund-Undoable, sub_refund-Undoable, add_log-Undoable, set_transient_state-Undoable,
}
use padi_chain.State.Warming.{add_address-Undoable, add_slot_to_access_list-Undoable}

-- A call of the state, reads included, since they cache.
pub data Call : Type 0 where
  load : ℕ → Call
  read_slot read_committed : ℕ → ℕ → Call
  read_code create : ℕ → Call
  credit_by debit_by : ℕ → ℕ → Call
  assign_balance : ℕ → ℤ → Call
  assign_nonce : ℕ → ℕ → Call
  assign_code : ℕ → List ℕ → Call
  assign_slot assign_transient : ℕ → ℕ → ℕ → Call
  destruct : ℕ → Call
  refund_more refund_less : ℕ → Call
  record_log : ℕ → List ℕ → List ℕ → Call
  warm_address : ℕ → Call
  warm_slot : ℕ → ℕ → Call

module _ (b : Backend) where
  unfoldable pub perform : Call → StateDb → StateDb
  perform (load addr) s = (get_state_object b s addr).0
  perform (read_slot addr key) s = (get_state b s addr key).0
  perform (read_committed addr key) s = (get_committed_state b s addr key).0
  perform (read_code addr) s = (get_code b s addr).0
  perform (create addr) s = create_account b s addr
  perform (credit_by addr amount) s = add_balance b s addr amount
  perform (debit_by addr amount) s = sub_balance b s addr amount
  perform (assign_balance addr amount) s = set_balance b s addr amount
  perform (assign_nonce addr nonce) s = set_nonce b s addr nonce
  perform (assign_code addr code) s = set_code b s addr code
  perform (assign_slot addr key value) s = set_state b s addr key value
  perform (assign_transient addr key value) s = set_transient_state s addr key value
  perform (destruct addr) s = self_destruct b s addr
  perform (refund_more gas) s = add_refund s gas
  perform (refund_less gas) s = sub_refund s gas
  perform (record_log address topics data_bytes) s = add_log s address topics data_bytes
  perform (warm_address addr) s = add_address_to_access_list s addr
  perform (warm_slot addr slot) s = add_slot_to_access_list s addr slot

  pub perform-Undoable : (call : Call) (s : StateDb) → IsWarm s → Undoable b s (perform call s)
  unfolding perform
  perform-Undoable (load addr) s w = (get_state_object-Reaches b s addr w).0
  perform-Undoable (read_slot addr key) s w = get_state-Undoable b s addr key w
  perform-Undoable (read_committed addr key) s w = get_committed_state-Undoable b s addr key w
  perform-Undoable (read_code addr) s w = get_code-Undoable b s addr w
  perform-Undoable (create addr) s w = create_account-Undoable b s addr w
  perform-Undoable (credit_by addr amount) s w = add_balance-Undoable b s addr amount w
  perform-Undoable (debit_by addr amount) s w = sub_balance-Undoable b s addr amount w
  perform-Undoable (assign_balance addr amount) s w = set_balance-Undoable b s addr amount w
  perform-Undoable (assign_nonce addr nonce) s w = set_nonce-Undoable b s addr nonce w
  perform-Undoable (assign_code addr code) s w = set_code-Undoable b s addr code w
  perform-Undoable (assign_slot addr key value) s w = set_state-Undoable b s addr key value w
  perform-Undoable (assign_transient addr key value) s w =
      set_transient_state-Undoable b s addr key value w
  perform-Undoable (destruct addr) s w = self_destruct-Undoable b s addr w
  perform-Undoable (refund_more gas) s w = add_refund-Undoable b s gas w
  perform-Undoable (refund_less gas) s w = sub_refund-Undoable b s gas w
  perform-Undoable (record_log address topics data_bytes) s w =
      add_log-Undoable b s address topics data_bytes w
  perform-Undoable (warm_address addr) s w = add_address-Undoable b s addr w
  perform-Undoable (warm_slot addr slot) s w = add_slot_to_access_list-Undoable b s addr slot w
