-- ===== src/Processor/Tests.antt =====
-- package processor: runs on small inputs.
use padi_chain.Base.{
  ℕ, ◌+◌, ◌%◌, ◌^◌, ◌≡◌, refl, false, [], ◌∷◌, none, some, ltb, ◌==◌, if◌then◌else◌, arith, Result,
  ok, err,
}
use padi_chain.Base.Ints.{pos}
use padi_chain.Poa.Headers.{Header}
use padi_chain.State.Objects.{StateDb, Backend, Account, empty_root, empty_code_hash}
use padi_chain.Evm.Gas.{max_uint64}
use padi_chain.Processor.Fees.{Config, Error, below_intrinsic_gas, gas_uint_overflow, calc_base_fee}
use padi_chain.Processor.Market.{IsNear, calc_base_fee-IsNear}
use padi_chain.Processor.Gas.{intrinsic_gas}
use padi_chain.Processor.Intrinsic.{flat_fee, data_cost, access_list_cost, intrinsic_gas_lem}
use padi_chain.Base.Ints.{credit, debit}
use padi_chain.State.Objects.{
  get_nonce, get_code_hash, get_balance, get_state_object, load_object, set_error, put_object,
  mark_dirty, unless_deleted, new_object, get_refund,
}
use padi_chain.State.Journal.{journal_append, restore_balance}
use padi_chain.State.Writes.{
  get_or_new, create, fresh_object, write_balance, add_balance, sub_balance, set_nonce,
}
use padi_chain.State.Access.{
  prepare, add_address_to_access_list, add_addresses, add_tuples, add_destination,
}
use padi_chain.State.Lives.{new_state}
use padi_chain.Processor.Gas.{add_gas, sub_gas, data_gas, access_list_gas}
use padi_chain.Processor.Transition.{
  Message, Context, Machine, ExecutionResult, apply_message, run, pre_check, check_sender, buy_gas,
  reserve_gas, pay_intrinsic, is_create, use_gas, dispatch, increment_nonce, after_evm, settled,
  settle, refund_gas, pay_proposer, gas_used, effective_fee_cap, tip_of, charged_base_fee, is_less,
  is_below,
}
use padi_chain.Processor.Running.{IsFrugal}
use padi_chain.Processor.Applying.{IsRejected, apply_message-IsRejected}
use padi_chain.Processor.Paying.{IsPaid, apply_message-IsPaid}

abbrev market : Config
market = record { elasticity_multiplier = 2; base_fee_change_denominator = 8; min_base_fee = 1000 }

abbrev full_parent : Header
full_parent = record {
  parent_hash = 1;
  coinbase = 2;
  state_root = 3;
  tx_root = 4;
  receipt_root = 5;
  bloom = [];
  number = some 9;
  gas_limit = 30000;
  gas_used = 30000;
  time = 100;
  extra = [];
  base_fee = 8000;
  round = 0;
  randao_reveal = [];
  justification = [];
  proposer_seal = [];
}

calc_base_fee-IsNear_example :
    (fee : ℕ) × (calc_base_fee market (some full_parent) ≡ ok fee) × IsNear market 8000 fee
calc_base_fee-IsNear_example =
    calc_base_fee-IsNear market full_parent (omega arith) (omega arith) (omega arith) (omega arith)

intrinsic_gas_example : intrinsic_gas (0 ∷ 7 ∷ []) ((4, 1 ∷ 2 ∷ []) ∷ []) false ≡ (
    let cost = flat_fee false + data_cost (0 ∷ 7 ∷ []) false in
    if ltb max_uint64 cost
    then err gas_uint_overflow
    else ok ((cost + access_list_cost ((4, 1 ∷ 2 ∷ []) ∷ [])) % 2 ^ 64))
intrinsic_gas_example = intrinsic_gas_lem (0 ∷ 7 ∷ []) ((4, 1 ∷ 2 ∷ []) ∷ []) false

-- One funded account, under 1.
abbrev funded_account : Account
funded_account = record {
  nonce = 0;
  balance = pos 1000000;
  root = empty_root;
  code_hash = empty_code_hash;
}

abbrev accounts : Backend
accounts = record {
  read_account = λ addr. if addr == 1 then some (some funded_account) else some none;
  read_slot = λ root slot. some 0;
  read_code = λ hash. none;
  keccak = λ code. 5;
}

-- An EVM that does nothing, and gives all gas back.
abbrev idle : Machine
idle = record {
  Failure = ℕ;
  create = λ s caller code gas value. (s, [], gas, none);
  call = λ s caller to input gas value. (s, [], gas, none);
  apply_staking_call = λ s msg epoch. (s, 0, none);
}

idle-IsFrugal : IsFrugal idle
idle-IsFrugal = ((λ s a d g v. omega arith), λ s a to d g v. omega arith)

abbrev context : Context
context = record {
  coinbase = 8;
  base_fee = some 5;
  no_base_fee = false;
  block_number = 64;
  precompiles = [];
}

abbrev transfer : ℕ → Message
transfer gas_limit = record {
  sender = 1;
  to = some 2;
  nonce = 0;
  value = 3;
  gas_limit = gas_limit;
  price = 7;
  fee_cap = some 10;
  tip_cap = some 2;
  call_data = [];
  tuples = [];
  skip_checks = false;
}

abbrev ran : StateDb × ℕ × Result Error (ExecutionResult ℕ)
ran = apply_message accounts idle context (transfer 30000) new_state 50000

abbrev plain : ExecutionResult ℕ
plain = record { used_gas = 21000; stop = none; return_data = [] }

ran-plain : ran ≡ (ran.0, ran.1, ok plain)
unfolding apply_message run pre_check check_sender buy_gas reserve_gas sub_gas pay_intrinsic
    is_create intrinsic_gas data_gas access_list_gas use_gas dispatch increment_nonce after_evm
    settled settle refund_gas pay_proposer add_gas gas_used effective_fee_cap tip_of
    charged_base_fee is_less is_below get_nonce get_code_hash get_balance get_state_object
    load_object set_error put_object mark_dirty unless_deleted new_object get_or_new create
    fresh_object write_balance add_balance sub_balance set_nonce prepare add_address_to_access_list
    add_addresses add_tuples add_destination journal_append restore_balance get_refund credit debit
    new_state
ran-plain = refl

apply_message-IsPaid_example :
    IsPaid accounts idle context (transfer 30000) new_state 50000 ran.0 ran.1 plain
unfolding effective_fee_cap
apply_message-IsPaid_example =
    apply_message-IsPaid accounts idle context (transfer 30000) refl idle-IsFrugal (omega arith)
      (omega arith) new_state 50000 ran.0 ran.1 plain refl (omega arith) ran-plain

abbrev starved : StateDb × ℕ × Result Error (ExecutionResult ℕ)
starved = apply_message accounts idle context (transfer 20000) new_state 50000

starved-err : starved ≡ (starved.0, starved.1, err below_intrinsic_gas)
unfolding apply_message run pre_check check_sender buy_gas reserve_gas sub_gas pay_intrinsic
    is_create intrinsic_gas data_gas access_list_gas use_gas dispatch increment_nonce after_evm
    settled settle refund_gas pay_proposer add_gas gas_used effective_fee_cap tip_of
    charged_base_fee is_less is_below get_nonce get_code_hash get_balance get_state_object
    load_object set_error put_object mark_dirty unless_deleted new_object get_or_new create
    fresh_object write_balance add_balance sub_balance set_nonce prepare add_address_to_access_list
    add_addresses add_tuples add_destination journal_append restore_balance get_refund credit debit
    new_state
starved-err = refl

apply_message-IsRejected_example :
    IsRejected accounts idle context
      (transfer 20000)
      refl
      new_state
      50000
      below_intrinsic_gas
      starved.0
      starved.1
apply_message-IsRejected_example =
    apply_message-IsRejected accounts idle context (transfer 20000) refl new_state 50000 starved.0
      starved.1 below_intrinsic_gas idle-IsFrugal starved-err
