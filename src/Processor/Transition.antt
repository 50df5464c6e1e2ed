-- ===== src/Processor/Transition.antt =====
-- processor/transition.go: ApplyMessage. The EVM and the staking operations are a machine that runs on
-- the state; big.Int values of a message are natural numbers, of which nil ones are `none`.
use padi_chain.Base.{
  ℕ, ◌+◌, ◌-◌, ◌*◌, ◌/◌, ◌%◌, ◌^◌, Bool, true, false, not, ◌&&◌, List, [], Option, none, some, ltb,
  ◌==◌, if◌then◌else◌, length, Result, ok, err, panic,
}
use padi_chain.Base.Ints.{ℤ, pos, negsuc}
use padi_chain.State.Objects.{
  StateDb, Backend, get_nonce, get_code_hash, get_balance, get_refund, empty_code_hash,
}
use padi_chain.State.Writes.{add_balance, sub_balance, set_nonce}
use padi_chain.State.Access.{prepare}
use padi_chain.State.Snapshots.{snapshot, revert_to_snapshot}
use padi_chain.Staking.Params.{epoch_of}
use padi_chain.Staking.Store.{staking_address}
use padi_chain.Processor.Fees.{
  Error, nonce_too_low, nonce_too_high, insufficient_funds, below_intrinsic_gas, gas_limit_reached,
  sender_not_eoa, fee_cap_below_base_fee, tip_above_fee_cap, init_code_too_large, Transaction,
  inner, gas_tip_cap, gas_fee_cap, access_list, effective_gas_price,
}
use padi_chain.Processor.Gas.{add_gas, sub_gas, intrinsic_gas}

-- Message
pub record Message : Type 0 where
  pub sender : ℕ
  pub to : Option ℕ
  pub nonce : ℕ
  pub value : ℕ
  pub gas_limit : ℕ
  pub price : ℕ
  pub fee_cap : Option ℕ
  pub tip_cap : Option ℕ
  pub call_data : List ℕ
  pub tuples : List (ℕ × List ℕ)
  pub skip_checks : Bool

-- MessageFromTx, behind the recovery of the sender.
unfoldable pub message_from_tx : ℕ → Transaction → Option ℕ → Message
message_from_tx sender tx base_fee = record {
  sender = sender;
  to = (inner tx).to;
  nonce = (inner tx).nonce;
  value = (inner tx).value;
  gas_limit = (inner tx).gas;
  price = effective_gas_price tx base_fee;
  fee_cap = some (gas_fee_cap tx);
  tip_cap = some (gas_tip_cap tx);
  call_data = (inner tx).data_bytes;
  tuples = access_list tx;
  skip_checks = false;
}

-- What a transition reads of the EVM's context and configuration.
pub record Context : Type 0 where
  pub coinbase : ℕ
  pub base_fee : Option ℕ
  pub no_base_fee : Bool
  pub block_number : ℕ
  pub precompiles : List ℕ

-- Create and Call of the EVM, which give the state, the output, the gas left and the error, and
-- applyStakingCall, which gives the state, the gas used and the error.
pub record Machine : Type 1 where
  pub Failure : Type 0
  pub create : StateDb → ℕ → List ℕ → ℕ → ℕ → StateDb × List ℕ × ℕ × Option Failure
  pub call : StateDb → ℕ → ℕ → List ℕ → ℕ → ℕ → StateDb × List ℕ × ℕ × Option Failure
  pub apply_staking_call : StateDb → Message → ℕ → StateDb × ℕ × Option Failure

-- What stops an execution.
pub data Stop (F : Type 0) : Type 0 where
  failure : F → Stop F
  out_of_gas value_not_covered : Stop F

-- ExecutionResult
pub record ExecutionResult (F : Type 0) : Type 0 where
  pub used_gas : ℕ
  pub stop : Option (Stop F)
  pub return_data : List ℕ

-- StateTransition, with the gas pool that the source shares by pointer.
pub record Frame : Type 0 where
  pub state : StateDb
  pub pool : ℕ
  pub gas : ℕ
  pub initial_gas : ℕ

-- gasUsed
unfoldable pub gas_used : Frame → ℕ
gas_used f = (f.initial_gas + 2 ^ 64 - f.gas) % 2 ^ 64

-- useGas, by what is left.
unfoldable pub use_gas : ℕ → ℕ → Option ℕ
use_gas gas amount = if ltb gas amount then none else some (gas - amount)

-- `Cmp` of a balance with an amount: whether it is less.
unfoldable pub is_less : ℤ → ℕ → Bool
is_less (pos a) amount = ltb a amount
is_less (negsuc a) amount = true

unfoldable pub effective_fee_cap : Message → ℕ
effective_fee_cap msg = elim msg.fee_cap [ none ↦ msg.price | some cap ↦ cap ]

-- Whether one price is given and less than another that is given.
unfoldable pub is_below : Option ℕ → Option ℕ → Bool
is_below none b = false
is_below (some a) none = false
is_below (some a) (some b) = ltb a b

-- The base fee, unless the configuration leaves it out.
unfoldable pub charged_base_fee : Context → Option ℕ
charged_base_fee c = if c.no_base_fee then none else c.base_fee

-- The priority fee for a unit of gas.
unfoldable pub tip_of : Message → Option ℕ → ℕ
tip_of msg none = msg.price
tip_of msg (some base_fee) = msg.price - base_fee

module _ (b : Backend) (m : Machine) (c : Context) (msg : Message) where
  -- buyGas behind the test of the balance.
  unfoldable pub reserve_gas : Frame → ℕ → Frame × Option Error
  reserve_gas f max_cost = elim (sub_gas f.pool msg.gas_limit) [
    | none ↦ (f, some gas_limit_reached)
    | some left ↦ (
      record {
        state = if msg.skip_checks then f.state else sub_balance b f.state msg.sender max_cost;
        pool = left;
        gas = msg.gas_limit;
        initial_gas = msg.gas_limit;
      },
      none,
    )
  ]

  -- buyGas
  unfoldable pub buy_gas : Frame → Frame × Option Error
  buy_gas f =
      let max_cost = msg.gas_limit * effective_fee_cap msg in
      if msg.skip_checks
      then reserve_gas f max_cost
      else (let (s, have) = get_balance b f.state msg.sender in
          if is_less have (max_cost + msg.value)
          then (record f { state = s }, some insufficient_funds)
          else reserve_gas (record f { state = s }) max_cost)

  -- preCheck behind the test of the nonce.
  unfoldable pub check_sender : Frame → Frame × Option Error
  check_sender f =
      let (s, hash) = get_code_hash b f.state msg.sender in
      let g = record f { state = s } in
      if not (hash == 0) && not (hash == empty_code_hash)
      then (g, some sender_not_eoa)
      else (if is_below msg.fee_cap msg.tip_cap
          then (g, some tip_above_fee_cap)
          else (if is_below msg.fee_cap (charged_base_fee c)
              then (g, some fee_cap_below_base_fee)
              else buy_gas g))

  -- preCheck
  unfoldable pub pre_check : Frame → Frame × Option Error
  pre_check f =
      if msg.skip_checks
      then buy_gas f
      else (let (s, state_nonce) = get_nonce b f.state msg.sender in
          let g = record f { state = s } in
          if ltb state_nonce msg.nonce
          then (g, some nonce_too_high)
          else (if ltb msg.nonce state_nonce then (g, some nonce_too_low) else check_sender g))

  -- refundGas
  unfoldable pub refund_gas : Frame → Frame
  refund_gas f =
      let refund = get_refund f.state in
      let cap = gas_used f / 5 in
      let gas = (f.gas + (if ltb cap refund then cap else refund)) % 2 ^ 64 in
      record f {
        gas = gas;
        state =
            if msg.skip_checks
            then f.state
            else add_balance b f.state msg.sender (gas * effective_fee_cap msg);
        pool = add_gas f.pool gas;
      }

  -- payProposer
  unfoldable pub pay_proposer : Frame → Frame
  pay_proposer f =
      if msg.skip_checks
      then f
      else (let paid =
            add_balance b f.state c.coinbase (gas_used f * tip_of msg (charged_base_fee c)) in
          let overpaid = effective_fee_cap msg - msg.price in
          record f {
            state =
                if overpaid == 0
                then paid
                else add_balance b paid msg.sender (gas_used f * overpaid);
          })

  unfoldable pub settle : Frame → Frame
  settle f = pay_proposer (refund_gas f)

  unfoldable pub increment_nonce : StateDb → StateDb
  increment_nonce s =
      let (read, n) = get_nonce b s msg.sender in set_nonce b read msg.sender ((n + 1) % 2 ^ 64)

  -- The result behind the settlement.
  unfoldable pub settled :
      Frame → Option (Stop m.Failure) → List ℕ → Frame × Result Error (ExecutionResult m.Failure)
  settled f stop output =
      let g = settle f in
      (g, ok (record { used_gas = gas_used g; stop = stop; return_data = output }))

  -- The value a staking operation carries, if the sender has it.
  unfoldable pub move_value : StateDb → StateDb × Bool
  move_value s =
      if msg.value == 0
      then (s, true)
      else (let (read, have) = get_balance b s msg.sender in
          if is_less have msg.value then (read, false) else (
            add_balance b (sub_balance b read msg.sender msg.value) staking_address msg.value,
            true,
          ))

  -- The staking operation, if the value was moved: the state, the cost and the error.
  unfoldable pub staking_outcome : StateDb × Bool → StateDb × ℕ × Option (Stop m.Failure)
  staking_outcome (s, false) = (s, 30000, some value_not_covered)
  staking_outcome (s, true) =
      let (s', used, e) = m.apply_staking_call s msg (epoch_of c.block_number) in
      (
        s',
        if ltb 30000 used then used else 30000,
        elim e [ none ↦ none | some x ↦ some (failure x) ],
      )

  -- runStakingCall behind the snapshot; a revert that panics has no result.
  unfoldable pub finish_staking :
      Frame
      → ℕ
      → StateDb × ℕ × Option (Stop m.Failure)
      → Frame × Result Error (ExecutionResult m.Failure)
  finish_staking f id (s, cost, stop) = elim (use_gas f.gas cost) [
    | none ↦ elim (revert_to_snapshot s id) [
      | none ↦ (f, panic)
      | some reverted ↦ settled (record f { state = reverted; gas = 0 }) (some out_of_gas) []
    ]
    | some left ↦ elim stop [
      | none ↦ settled (record f { state = s; gas = left }) none []
      | some e ↦ elim (revert_to_snapshot s id) [
        | none ↦ (f, panic)
        | some reverted ↦ settled (record f { state = reverted; gas = left }) (some e) []
      ]
    ]
  ]

  -- runStakingCall
  unfoldable pub run_staking_call : Frame → Frame × Result Error (ExecutionResult m.Failure)
  run_staking_call f =
      let (s, id) = snapshot (increment_nonce f.state) in
      finish_staking f id (staking_outcome (move_value s))

  -- What the EVM made of a frame.
  unfoldable pub after_evm :
      Frame
      → StateDb × List ℕ × ℕ × Option m.Failure
      → Frame × Result Error (ExecutionResult m.Failure)
  after_evm f (s, output, left, e) =
      settled (record f { state = s; gas = left })
        (elim e [ none ↦ none | some x ↦ some (failure x) ]) output

  -- run behind the intrinsic gas, by the recipient.
  unfoldable pub dispatch : Frame → Option ℕ → Frame × Result Error (ExecutionResult m.Failure)
  dispatch f none =
      if ltb 49152 (length msg.call_data)
      then (f, err init_code_too_large)
      else (let s = prepare f.state msg.sender c.coinbase none c.precompiles msg.tuples in
          after_evm (record f { state = s }) (m.create s msg.sender msg.call_data f.gas msg.value))
  dispatch f (some to) =
      let s = prepare f.state msg.sender c.coinbase (some to) c.precompiles msg.tuples in
      if to == staking_address
      then run_staking_call (record f { state = s })
      else (let s' = increment_nonce s in
          after_evm (record f { state = s' })
            (m.call s' msg.sender to msg.call_data f.gas msg.value))

  unfoldable pub is_create : Bool
  is_create = elim msg.to [ none ↦ true | some _ ↦ false ]

  -- run behind preCheck.
  unfoldable pub pay_intrinsic : Frame → Frame × Result Error (ExecutionResult m.Failure)
  pay_intrinsic f = elim (intrinsic_gas msg.call_data msg.tuples is_create) [
    | err e ↦ (f, err e)
    | panic ↦ (f, panic)
    | ok intrinsic ↦ elim (use_gas f.gas intrinsic) [
      | none ↦ (f, err below_intrinsic_gas)
      | some left ↦ dispatch (record f { gas = left }) msg.to
    ]
  ]

  -- run
  unfoldable pub run : Frame → Frame × Result Error (ExecutionResult m.Failure)
  run f =
      let (g, e) = pre_check f in elim e [ none ↦ pay_intrinsic g | some failed ↦ (g, err failed) ]

  -- ApplyMessage, on a state and a gas pool.
  unfoldable pub apply_message :
      StateDb → ℕ → StateDb × ℕ × Result Error (ExecutionResult m.Failure)
  apply_message s pool =
      let (f, result) = run (record { state = s; pool = pool; gas = 0; initial_gas = 0 }) in
      (f.state, f.pool, result)
