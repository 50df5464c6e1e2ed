-- ===== src/Staking/Tests.antt =====
-- Runs of the staking package, and its theorems at a store with one validator.
use padi_chain.Base.{
  ℕ, ◌+◌, ◌*◌, ◌≡◌, refl, none, some, [], ◌∷◌, arith, ◌==◌, if◌then◌else◌, ok, err,
}
use padi_chain.Staking.Params.{ether, min_deposit, churn_limit, compute_effective_balance}
use padi_chain.Base.Ints.{pos}
use padi_chain.Staking.Store.{Store}
use padi_chain.Staking.Registry.{
  Validator, already_processed, get, put, read, count, all, all_from, append, active_at,
  total_active_stake, reset_slashed_stake, keep_active, is_active_at, index_of, by_address, stake,
  load_epoch_state, get_uint64, put_uint64, pack_core, unpack_core,
}
use padi_chain.Staking.Lifecycle.{
  deposit, first_deposit, new_validator, slash, slash_of, slash_now, withdraw, withdraw_of,
  withdraw_now, request_exit, exit_of, exit_active, schedule_exit, active_count, total_staked,
  funds,
}
use padi_chain.Staking.Epoch.{
  process_epoch, EpochReport, empty_report, transition, is_processed, close_epoch, finish_exits,
  finish_one, settle_active, move_balance, apply_correlation_penalties, correlate, correlate_one,
  eject, eject_one, find_pending, sort_pending, activate,
}
use padi_chain.Staking.Proposer.{proposer_at, IsShare, proposer_at-IsShare}
use padi_chain.Staking.Packing.{IsStorable}
use padi_chain.Staking.Records.{get-put, as_read}
use padi_chain.Staking.Conservation.{
  IsBacked, deposit-IsBacked, slash-IsBacked, withdraw-IsBacked, request_exit-IsBacked,
}
use padi_chain.Staking.Exits.{IsNextPlace, schedule_exit-IsNextPlace}
use padi_chain.Staking.Closing.{process_epoch-load_epoch_state, process_epoch_once}

-- A chain with 32 units in the staking account and no validator.
abbrev funded : Store
funded = record {
  count_word = 0;
  epoch_word = 0;
  randao_word = 0;
  index_words = λ addr. 0;
  core_words = λ i. 0;
  addr_words = λ i. 0;
  withdrawal_words = λ i. 0;
  balance_words = λ i. 0;
  bls_hi_words = λ i. 0;
  bls_lo_words = λ i. 0;
  slashed_words = λ e. 0;
  accounts = λ address. pos (32 * ether);
}

abbrev alice : Validator
alice = record {
  index = 0;
  address = 7;
  withdrawal_address = 9;
  bls_public_key = some 5;
  balance = 32 * ether;
  effective_balance = 32 * ether;
  status = 1;
  activation_epoch = 1;
  exit_epoch = 1000;
  withdrawable_epoch = 2000;
  slashed_epoch = 0;
}

abbrev gone : Validator
gone = record alice { status = 3; withdrawable_epoch = 4 }

abbrev registered : Validator → Store
registered v = record funded {
  count_word = 1;
  index_words = λ addr. if addr == 7 then 1 else 0;
  core_words = λ i. pack_core v;
  addr_words = λ i. v.address;
  withdrawal_words = λ i. v.withdrawal_address;
  balance_words = λ i. v.balance;
  bls_lo_words = λ i. 5;
}

alice-IsStorable : IsStorable alice
alice-IsStorable = record {
  status_small = omega arith;
  activation_small = omega arith;
  exit_small = omega arith;
  withdrawable_small = omega arith;
  slashed_small = omega arith;
  address_small = omega arith;
  withdrawal_small = omega arith;
  balance_small = omega arith;
  key_proper = λ k h. ground arith;
}

funded-IsBacked : IsBacked funded (min_deposit + 0)
unfolding total_staked all all_from count funds
funded-IsBacked = (0, refl, refl, omega arith)

registered-IsBacked : (v : Validator) → v.balance ≡ 32 * ether → IsBacked (registered v) 0
unfolding total_staked all all_from count funds get read unpack_core
registered-IsBacked v is = (32 * ether, rw is refl, refl, omega arith)

get-put_example : get (put (registered alice) alice) 0 ≡ ok (as_read alice)
unfolding count
get-put_example = get-put (registered alice) alice 0 alice-IsStorable (omega arith)

deposit-IsBacked_example : IsBacked (append funded (new_validator 7 9 min_deposit)).0 0
unfolding deposit by_address index_of first_deposit count
deposit-IsBacked_example =
    deposit-IsBacked funded 7 9 min_deposit 0 funded-IsBacked (omega arith) refl

slash-IsBacked_example : IsBacked (slash_now (registered alice) 6 (read (registered alice) 0)).0 0
unfolding slash slash_of by_address index_of get count read unpack_core pack_core get_uint64
    put_uint64
slash-IsBacked_example =
    slash-IsBacked (registered alice) 7 6 0 (registered-IsBacked alice refl) refl

withdraw-IsBacked_example : IsBacked (withdraw_now (registered gone) (read (registered gone) 0)).0 0
unfolding withdraw withdraw_of by_address index_of get count read unpack_core pack_core get_uint64
    put_uint64
withdraw-IsBacked_example =
    withdraw-IsBacked (registered gone) 7 6 0 (registered-IsBacked gone refl) refl
      (λ h. omega (arith, h)) refl

request_exit-IsBacked_example :
    IsBacked (exit_active (registered alice) 6 (read (registered alice) 0)).0 0
unfolding request_exit exit_of by_address index_of get count read unpack_core pack_core get_uint64
    put_uint64
request_exit-IsBacked_example =
    request_exit-IsBacked (registered alice) 7 6 0 (registered-IsBacked alice refl) refl

schedule_exit-IsNextPlace_example :
    IsNextPlace
      (6 + 1)
      (churn_limit (active_count (registered alice) 6))
      (load_epoch_state (registered alice))
      (load_epoch_state (schedule_exit (registered alice) 6).0)
    × ((schedule_exit (registered alice) 6).1
        ≡ (load_epoch_state (schedule_exit (registered alice) 6).0).exit_queue_epoch)
unfolding load_epoch_state get_uint64 active_count active_at keep_active is_active_at all all_from
    get count read unpack_core pack_core put_uint64
schedule_exit-IsNextPlace_example =
    schedule_exit-IsNextPlace (registered alice) 6 (omega arith) (omega arith) (omega arith)

proposer_at-IsShare_example :
    (proposer : ℕ) × (proposer_at (λ seed slot round. seed + slot) (registered alice) 6 100 3 0
      ≡ ok proposer)
    × IsShare 103 (read (registered alice) 0 ∷ []) proposer
unfolding active_at keep_active is_active_at all all_from get count read unpack_core pack_core
    put_uint64 get_uint64 stake compute_effective_balance
proposer_at-IsShare_example =
    proposer_at-IsShare (λ seed slot round. seed + slot) (registered alice) 6 100 3 0
      (read (registered alice) 0 ∷ []) refl (omega arith)

abbrev processed : Store × EpochReport
processed = elim (process_epoch (registered alice) 6 none 5) [
  | ok r ↦ r
  | _ ↦ (funded, empty_report)
]

processes : process_epoch (registered alice) 6 none 5 ≡ ok processed
unfolding process_epoch transition is_processed close_epoch load_epoch_state finish_exits finish_one
    settle_active move_balance apply_correlation_penalties correlate correlate_one eject eject_one
    find_pending sort_pending activate total_active_stake active_at keep_active is_active_at all
    all_from get count read unpack_core pack_core put_uint64 get_uint64 stake
    compute_effective_balance reset_slashed_stake put
processes = refl

process_epoch-load_epoch_state_example :
    load_epoch_state processed.0
    ≡ record (load_epoch_state (registered alice)) { last_processed_epoch = 6; finalized_epoch = 5 }
process_epoch-load_epoch_state_example =
    process_epoch-load_epoch_state (registered alice) 6 5 none (omega arith) (omega arith) processes

process_epoch_once_example : process_epoch processed.0 6 none 5 ≡ err already_processed
process_epoch_once_example =
    process_epoch_once (registered alice) 6 5 none 6 5 none (omega arith) (omega arith)
      (omega arith) processes (omega arith)
