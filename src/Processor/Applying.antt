-- ===== src/Processor/Applying.antt =====
-- processor/transition.go: ApplyMessage, from the state and the pool it is given to those it leaves.
use padi_chain.Base.{
  ℕ, ◌+◌, ◌*◌, ◌≡◌, ap, ◌∙◌, false, Option, none, some, ◌==◌, if◌then◌else◌, Result, ok, err, panic,
}
use mathlib.Core.Path.{subst}
use padi_chain.Base.Ints.{debit}
use padi_chain.State.Objects.{StateDb, Backend}
use padi_chain.State.Kept.{balance_at}
use padi_chain.Processor.Fees.{Error}
use padi_chain.Processor.Transition.{
  Message, Context, Machine, Frame, ExecutionResult, effective_fee_cap, pre_check, pay_intrinsic,
  run, apply_message,
}
use padi_chain.Processor.Running.{IsFrugal, Outcome, Spends, is_late, pay_intrinsic-Spends}
use padi_chain.Processor.Checking.{Checks, pre_check-Checks}

module _ (b : Backend) (m : Machine) (c : Context) (msg : Message)
    (checked : msg.skip_checks ≡ false) where
  abbrev start : StateDb → ℕ → Frame
  start s pool = record { state = s; pool = pool; gas = 0; initial_gas = 0 }

  -- A message that is rejected: the pool and the balances after it, by the error.
  abbrev pub IsRejected : StateDb → ℕ → Error → StateDb → ℕ → Type 0
  IsRejected s pool e s' pool' =
      if is_late e
      then (pool' + msg.gas_limit ≡ pool)
        × ((at : ℕ)
            → balance_at b s' at
              ≡ debit (balance_at b s at)
                  (if at == msg.sender then msg.gas_limit * effective_fee_cap msg else 0))
      else (pool' ≡ pool) × ((at : ℕ) → balance_at b s' at ≡ balance_at b s at)

  abbrev RejectedFrame : Frame → Outcome b m c msg → Type 0
  RejectedFrame f (g, ok r) = Unit
  RejectedFrame f (g, panic) = Unit
  RejectedFrame f (g, err e) = IsRejected f.state f.pool e g.state g.pool

  behind_check :
      (f g : Frame) (o : Outcome b m c msg)
      → Checks b m c msg f (g, none)
      → Spends b m c msg g o
      → RejectedFrame f o
  unfolding Checks Spends
  behind_check f g (h, ok r) checks spends = tt
  behind_check f g (h, panic) checks spends = tt
  behind_check f g (h, err e) (pool, gas, initial, balances) (late, same_state, same_pool) =
      rw late (
        ap (λ x. x + msg.gas_limit) same_pool ∙ pool,
        λ at. ap (λ s. balance_at b s at) same_state ∙ balances at,
      )

  early_check :
      (f g : Frame) (e : Error)
      → Checks b m c msg f (g, some e)
      → IsRejected f.state f.pool e g.state g.pool
  unfolding Checks
  early_check f g e (early, same_pool, balances) = rw early (same_pool, balances)

  run-Rejected : (f : Frame) → IsFrugal m → RejectedFrame f (run b m c msg f)
  unfolding run
  run-Rejected f frugal = by_check (pre_check b m c msg f) (pre_check-Checks b m c msg checked f)
    where
      by_check :
          (r : Frame × Option Error)
          → Checks b m c msg f r
          → RejectedFrame f (elim r.1 as (λ x. Outcome b m c msg) [
            | none ↦ pay_intrinsic b m c msg r.0
            | some failed ↦ (r.0, err failed)
          ])
      by_check (g, none) checks =
          behind_check f g (pay_intrinsic b m c msg g) checks
            (pay_intrinsic-Spends b m c msg g frugal)
      by_check (g, some e) checks = early_check f g e checks

  of_run :
      (f : Frame) (o : Outcome b m c msg) (s' : StateDb) (pool' : ℕ) (e : Error)
      → RejectedFrame f o
      → ◌≡◌ {A = StateDb × ℕ × Result Error (ExecutionResult m.Failure)}
          (o.0.state, o.0.pool, o.1)
          (s', pool', err e)
      → IsRejected f.state f.pool e s' pool'
  of_run f (g, ok r) s' pool' e h is = absurd (cc (ap (λ t. t.2) is))
  of_run f (g, panic) s' pool' e h is = absurd (cc (ap (λ t. t.2) is))
  of_run f (g, err e') s' pool' e h is =
      let same_error : e' ≡ e = cc (ap (λ t. t.2) is) in
      subst (λ x. IsRejected f.state f.pool x s' pool') same_error
        (subst (λ t. IsRejected f.state f.pool e' t pool') (ap (λ t. t.0) is)
          (subst (λ t. IsRejected f.state f.pool e' g.state t) (ap (λ t. t.1) is) h))

  -- A message whose checks are not skipped and that is rejected: where the error is that of the intrinsic
  -- gas, its overflow or the size of the init code, the gas limit at the fee cap is gone from the
  -- sender's balance and the gas limit from the pool of the block; after every other error no balance
  -- and not the pool has changed. The EVM is taken to give back no more gas than it is given.
  pub apply_message-IsRejected :
      (s : StateDb) (pool : ℕ) (s' : StateDb) (pool' : ℕ) (e : Error)
      → IsFrugal m
      → apply_message b m c msg s pool ≡ (s', pool', err e)
      → IsRejected s pool e s' pool'
  unfolding apply_message
  apply_message-IsRejected s pool s' pool' e frugal is =
      of_run (start s pool) (run b m c msg (start s pool)) s' pool' e
        (run-Rejected (start s pool) frugal) is
