-- ===== src/Staking/Lifecycle.antt =====
-- staking/lifecycle.go: deposits, exits, slashing, withdrawals.
use padi_chain.Base.{
  ℕ, ◌+◌, ◌-◌, ◌*◌, ◌/◌, ◌%◌, ◌^◌, Bool, true, false, not, ◌||◌, List, [], ◌∷◌, Option, none, some,
  ltb, leb, ◌==◌, if◌then◌else◌, length, ok, err, ◌>>=◌, ◌>>◌,
}
use padi_chain.Staking.Params.{
  min_deposit, withdrawal_delay, min_activation_delay, slash_penalty_quotient, churn_limit,
  compute_effective_balance,
}
use padi_chain.Staking.Store.{Store, staking_address, add_balance, sub_balance}
use padi_chain.Staking.Registry.{
  Error, below_minimum, not_active, not_withdrawable, already_slashed, left_the_set,
  already_withdrawn, bad_bls_key, bad_possession, Outcome, Validator, EpochState, status_pending,
  status_active, status_exiting, status_exited, status_slashed, status_withdrawn, far_future_epoch,
  by_address, put, append, all, active_at, add_slashed_stake, load_epoch_state, save_epoch_state,
}

abbrev pub guard : Bool → Error → Outcome (Unit {0})
guard true e = ok tt
guard false e = err e

unfoldable pub has_left : Validator → Bool
has_left v =
    (v.status == status_exited) || (v.status == status_slashed) || (v.status == status_withdrawn)

unfoldable pub with_balance : Validator → ℕ → Validator
with_balance v balance = record v {
  balance = balance;
  effective_balance = compute_effective_balance balance;
}

-- The record of a first deposit; Append gives it its index.
unfoldable pub new_validator : ℕ → ℕ → ℕ → Validator
new_validator validator withdrawal amount = record {
  index = 0;
  address = validator;
  withdrawal_address = withdrawal;
  bls_public_key = none;
  balance = amount;
  effective_balance = compute_effective_balance amount;
  status = status_pending;
  activation_epoch = far_future_epoch;
  exit_epoch = far_future_epoch;
  withdrawable_epoch = far_future_epoch;
  slashed_epoch = 0;
}

-- The branch of Deposit for an address that is registered.
unfoldable pub top_up : Store → Validator → ℕ → Outcome (Store × Validator)
top_up s existing amount = do
  guard (not (has_left existing)) left_the_set
  let existing' = with_balance existing (existing.balance + amount)
  ok (put s existing', existing')

-- The branch of Deposit for an address that is not.
unfoldable pub first_deposit : Store → ℕ → ℕ → ℕ → Outcome (Store × Validator)
first_deposit s validator withdrawal amount =
    if ltb amount min_deposit
    then err below_minimum
    else ok (append s (new_validator validator withdrawal amount))

-- Deposit
unfoldable pub deposit : Store → ℕ → ℕ → ℕ → Outcome (Store × Validator)
deposit s validator withdrawal amount = elim (by_address s validator) [
  | ok existing ↦ top_up s existing amount
  | _ ↦ first_deposit s validator withdrawal amount
]

-- Bytes to the number they stand for.
unfoldable pub value_of : List ℕ → ℕ → ℕ
value_of [] so_far = so_far
value_of (b ∷ rest) so_far = value_of rest (so_far * 256 + b)

-- The BLS operations of DepositWithKey: PublicKeyFromBytes, SignatureFromBytes, VerifyPossession.
module _ {PublicKey Signature : Type 0} (public_key_from_bytes : List ℕ → Option PublicKey)
    (signature_from_bytes : List ℕ → Option Signature)
    (verify_possession : PublicKey → Signature → Bool) where
  unfoldable pub check_key : List ℕ → List ℕ → Outcome (Unit {0})
  check_key bls_key possession = do
    guard (length bls_key == 48) bad_bls_key
    elim (public_key_from_bytes bls_key) [
      | none ↦ err bad_bls_key
      | some key ↦ elim (signature_from_bytes possession) [
        | none ↦ err bad_possession
        | some proof ↦ guard (verify_possession key proof) bad_possession
      ]
    ]

  -- DepositWithKey
  unfoldable pub deposit_with_key :
      Store → ℕ → ℕ → List ℕ → List ℕ → ℕ → Outcome (Store × Validator)
  deposit_with_key s validator withdrawal bls_key possession amount = do
    check_key bls_key possession
    (s', v) ← deposit s validator withdrawal amount
    elim v.bls_public_key [
      | some key ↦ ok (s', v)
      | none ↦
          let v' = record v { bls_public_key = some (value_of bls_key 0) } in ok (put s' v', v')
    ]

-- The number of active validators; an error of ActiveAt counts as none.
unfoldable pub active_count : Store → ℕ → ℕ
active_count s epoch = elim (active_at s epoch) [ ok active ↦ length active | _ ↦ 0 ]

-- The two resets of the queue and the place taken in it, all in 64 bits.
unfoldable pub take_place : ℕ → ℕ → EpochState → EpochState
take_place earliest limit e =
    let moved =
      if ltb e.exit_queue_epoch earliest
      then record e { exit_queue_epoch = earliest; exit_queue_count = 0 }
      else e in
    let free =
      if leb limit moved.exit_queue_count
      then record moved {
        exit_queue_epoch = (moved.exit_queue_epoch + 1) % 2 ^ 64;
        exit_queue_count = 0;
      }
      else moved in
    record free { exit_queue_count = (free.exit_queue_count + 1) % 2 ^ 64 }

-- scheduleExit
unfoldable pub schedule_exit : Store → ℕ → Store × ℕ
schedule_exit s epoch =
    let queue =
      take_place ((epoch + min_activation_delay) % 2 ^ 64) (churn_limit (active_count s epoch))
        (load_epoch_state s) in
    (save_epoch_state s queue, queue.exit_queue_epoch)

-- The exit of an active validator, at the epoch that the queue gives.
unfoldable pub exit_active : Store → ℕ → Validator → Store × Validator
exit_active s epoch v =
    let (s', exit_epoch) = schedule_exit s epoch in
    let v' = record v {
      status = status_exiting;
      exit_epoch = exit_epoch;
      withdrawable_epoch = (exit_epoch + withdrawal_delay) % 2 ^ 64;
    } in
    (put s' v', v')

-- The exit of a validator that was never active.
unfoldable pub exit_pending : Store → ℕ → Validator → Store × Validator
exit_pending s epoch v =
    let v' = record v {
      status = status_exited;
      exit_epoch = epoch;
      withdrawable_epoch = (epoch + withdrawal_delay) % 2 ^ 64;
    } in
    (put s v', v')

-- RequestExit, for the record it has loaded.
unfoldable pub exit_of : Store → ℕ → Validator → Outcome (Store × Validator)
exit_of s epoch v =
    if v.status == status_active
    then ok (exit_active s epoch v)
    else if v.status == status_pending
    then ok (exit_pending s epoch v)
    else err not_active

-- RequestExit
unfoldable pub request_exit : Store → ℕ → ℕ → Outcome (Store × Validator)
request_exit s validator epoch = do v ← by_address s validator; exit_of s epoch v

unfoldable pub at_most : ℕ → ℕ → ℕ
at_most amount limit = if ltb limit amount then limit else amount

-- The part of Slash that changes the record, the tally and the account.
unfoldable pub slash_now : Store → ℕ → Validator → Store × Validator × ℕ
slash_now s epoch v =
    let penalty = at_most (v.effective_balance / slash_penalty_quotient) v.balance in
    let v' = record (with_balance v (v.balance - penalty)) {
      status = status_slashed;
      slashed_epoch = epoch;
      exit_epoch = epoch;
      withdrawable_epoch = (epoch + withdrawal_delay) % 2 ^ 64;
    } in
    let recorded = add_slashed_stake (put s v') epoch v'.effective_balance in
    (sub_balance recorded staking_address penalty, v', penalty)

-- Slash, for the record it has loaded.
unfoldable pub slash_of : Store → ℕ → Validator → Outcome (Store × Validator × ℕ)
slash_of s epoch v = do
  guard (not (v.status == status_slashed)) already_slashed
  guard (not ((v.status == status_exited) || (v.status == status_withdrawn))) left_the_set
  ok (slash_now s epoch v)

-- Slash
unfoldable pub slash : Store → ℕ → ℕ → Outcome (Store × Validator × ℕ)
slash s validator epoch = do v ← by_address s validator; slash_of s epoch v

-- The part of Withdraw that changes the record and the accounts.
unfoldable pub withdraw_now : Store → Validator → Store × ℕ
withdraw_now s v =
    let s' = put s (record v { balance = 0; effective_balance = 0; status = status_withdrawn }) in
    (
      add_balance (sub_balance s' staking_address v.balance) v.withdrawal_address v.balance,
      v.balance,
    )

-- Withdraw, for the record it has loaded.
unfoldable pub withdraw_of : Store → ℕ → Validator → Outcome (Store × ℕ)
withdraw_of s epoch v =
    if (v.status == status_exited) || (v.status == status_slashed)
    then if ltb epoch v.withdrawable_epoch then err not_withdrawable else ok (withdraw_now s v)
    else if v.status == status_withdrawn
    then err already_withdrawn
    else err not_withdrawable

-- Withdraw
unfoldable pub withdraw : Store → ℕ → ℕ → Outcome (Store × ℕ)
withdraw s validator epoch = do v ← by_address s validator; withdraw_of s epoch v

-- The balances, added up.
unfoldable pub funds : List Validator → ℕ
funds [] = 0
funds (v ∷ rest) = v.balance + funds rest

-- TotalStaked
unfoldable pub total_staked : Store → Outcome ℕ
total_staked s = do vs ← all s; ok (funds vs)
