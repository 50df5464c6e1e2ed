-- ===== src/Processor/Running.antt =====
-- processor/transition.go: what a message costs, whether it is run or rejected.
use padi_chain.Base.{
  ℕ, ◌≤◌, ◌≡◌, inl, inr, refl, sym, ◌∙◌, Bool, true, false, List, [], Option, none, some, ltb, ◌==◌,
  length, if◌then◌else◌, arith, Bool-cases, Option-cases, Result, ok, err, panic,
}
use padi_chain.State.Objects.{StateDb, Backend}
use padi_chain.State.Snapshots.{revert_to_snapshot}
use padi_chain.State.Access.{prepare}
use padi_chain.Staking.Store.{staking_address}
use padi_chain.Processor.Fees.{Error, below_intrinsic_gas, init_code_too_large, gas_uint_overflow}
use padi_chain.Processor.Gas.{intrinsic_gas}
use padi_chain.Processor.Intrinsic.{intrinsic_gas_lem}
use padi_chain.Processor.Transition.{
  Message, Context, Machine, Frame, Stop, ExecutionResult, gas_used, use_gas, settle,
  increment_nonce, settled, finish_staking, run_staking_call, after_evm, dispatch, is_create,
  pay_intrinsic,
}

-- The EVM gives back no more gas than it is given.
abbrev pub IsFrugal : Machine → Type 0
IsFrugal m =
    ((s : StateDb) (a : ℕ) (d : List ℕ) (g v : ℕ) → (m.create s a d g v).2 ≤ g)
    × ((s : StateDb) (a to : ℕ) (d : List ℕ) (g v : ℕ) → (m.call s a to d g v).2 ≤ g)

pub use_gas-less : (gas amount left : ℕ) → use_gas gas amount ≡ some left → left ≤ gas
unfolding use_gas
use_gas-less gas amount left h = ground (arith, h)

-- The errors of run behind preCheck.
abbrev pub is_late : Error → Bool
is_late gas_uint_overflow = true
is_late below_intrinsic_gas = true
is_late init_code_too_large = true
is_late _ = false

intrinsic_gas-IsLate :
    (data_bytes : List ℕ) (tuples : List (ℕ × List ℕ)) (is_creation : Bool) (e : Error)
    → intrinsic_gas data_bytes tuples is_creation ≡ err e
    → is_late e ≡ true
intrinsic_gas-IsLate data_bytes tuples is_creation e h =
    of_choice _ _ e (sym (intrinsic_gas_lem data_bytes tuples is_creation) ∙ h)
  where
    same_error :
        (e : Error)
        → ◌≡◌ {A = Result Error ℕ} (err gas_uint_overflow) (err e)
        → e ≡ gas_uint_overflow
    same_error e h = cc h

    of_choice :
        (over : Bool) (gas : ℕ) (e : Error)
        → (if over then err gas_uint_overflow else ok gas) ≡ err e
        → is_late e ≡ true
    of_choice true gas e h = rw (same_error e h) refl
    of_choice false gas e h = absurd (cc h)

module _ (b : Backend) (m : Machine) (c : Context) (msg : Message) where
  abbrev pub Outcome : Type 0
  Outcome = Frame × Result Error (ExecutionResult m.Failure)

  -- What a run behind preCheck comes to: a settlement of a frame with no more gas, or an error that
  -- leaves the frame as it is.
  unfoldable pub Spends : Frame → Outcome → Type 0
  Spends f (g, ok r) =
      (before : Frame) × (g ≡ settle b m c msg before)
      × (r.used_gas ≡ gas_used g)
      × (before.initial_gas ≡ f.initial_gas)
      × (before.gas ≤ f.gas)
      × (before.pool ≡ f.pool)
  Spends f (g, err e) = (is_late e ≡ true) × (g.state ≡ f.state) × (g.pool ≡ f.pool)
  Spends f (g, panic) = Unit

  settled-Spends :
      (f before : Frame) (stop : Option (Stop m.Failure)) (output : List ℕ)
      → before.initial_gas ≡ f.initial_gas
      → before.gas ≤ f.gas
      → before.pool ≡ f.pool
      → Spends f (settled b m c msg before stop output)
  unfolding Spends settled
  settled-Spends f before stop output same_start less same_pool =
      (before, refl, refl, same_start, less, same_pool)

  reverted-Spends :
      (f : Frame) (s0 : StateDb) (gas : ℕ) (stop : Stop m.Failure) (r : Option StateDb)
      → gas ≤ f.gas
      → Spends f (elim r as (λ x. Outcome) [
        | none ↦ (record f { state = s0 }, panic)
        | some reverted ↦
            settled b m c msg (record f { state = reverted; gas = gas }) (some stop) []
      ])
  unfolding Spends settled
  reverted-Spends f s0 gas stop none less = tt
  reverted-Spends f s0 gas stop (some reverted) less =
      settled-Spends f (record f { state = reverted; gas = gas }) (some stop) [] refl less refl

  finish_staking-Spends :
      (f : Frame) (s0 : StateDb) (id : ℕ) (o : StateDb × ℕ × Option (Stop m.Failure))
      → Spends f (finish_staking b m c msg (record f { state = s0 }) id o)
  unfolding finish_staking
  finish_staking-Spends f s0 id (s, cost, stop) = elim (Option-cases (use_gas f.gas cost)) [
    | inl spent ↦
        rw (finish_staking, spent)
          (reverted-Spends f s0 0 _ (revert_to_snapshot s id) (omega arith))
    | inr (left, covered) ↦
        let less = use_gas-less f.gas cost left covered in
        rw (finish_staking, covered) (by_stop stop left less)
  ]
    where
      by_stop :
          (stop : Option (Stop m.Failure)) (left : ℕ)
          → left ≤ f.gas
          → Spends f (elim stop as (λ x. Outcome) [
            | none ↦ settled b m c msg (record f { state = s; gas = left }) none []
            | some e ↦ elim (revert_to_snapshot s id) as (λ x. Outcome) [
              | none ↦ (record f { state = s0 }, panic)
              | some reverted ↦
                  settled b m c msg (record f { state = reverted; gas = left }) (some e) []
            ]
          ])
      by_stop none left less =
          settled-Spends f (record f { state = s; gas = left }) none [] refl less refl
      by_stop (some e) left less = reverted-Spends f s0 left e (revert_to_snapshot s id) less

  after_evm-Spends :
      (f : Frame) (s0 : StateDb) (o : StateDb × List ℕ × ℕ × Option m.Failure)
      → o.2 ≤ f.gas
      → Spends f (after_evm b m c msg (record f { state = s0 }) o)
  unfolding after_evm
  after_evm-Spends f s0 (s, output, left, e) less =
      settled-Spends f (record f { state = s; gas = left }) _ output refl less refl

  dispatch-Spends : (f : Frame) (to : Option ℕ) → IsFrugal m → Spends f (dispatch b m c msg f to)
  unfolding dispatch run_staking_call Spends
  dispatch-Spends f none (create_frugal, _) = elim (Bool-cases (ltb 49152 (length msg.call_data))) [
    | inl long ↦ rw (dispatch, long) (refl, refl, refl)
    | inr short ↦
        let s = prepare f.state msg.sender c.coinbase none c.precompiles msg.tuples in
        rw (dispatch, short)
          (after_evm-Spends f s (m.create s msg.sender msg.call_data f.gas msg.value)
            (create_frugal s msg.sender msg.call_data f.gas msg.value))
  ]
  dispatch-Spends f (some to) (_, call_frugal) =
      let s = prepare f.state msg.sender c.coinbase (some to) c.precompiles msg.tuples in
      elim (Bool-cases (to == staking_address)) [
        | inl staking ↦ rw (dispatch, staking) (finish_staking-Spends f s _ _)
        | inr other ↦
            let s' = increment_nonce b m c msg s in
            rw (dispatch, other)
              (after_evm-Spends f s' (m.call s' msg.sender to msg.call_data f.gas msg.value)
                (call_frugal s' msg.sender to msg.call_data f.gas msg.value))
      ]

  less_gas-Spends :
      (f : Frame) (left : ℕ) (o : Outcome)
      → left ≤ f.gas
      → Spends (record f { gas = left }) o
      → Spends f o
  unfolding Spends
  less_gas-Spends f left (g, ok r) less (before, is, used, same_start, under, same_pool) =
      (before, is, used, same_start, omega (arith, less, under), same_pool)
  less_gas-Spends f left (g, err e) less h = h
  less_gas-Spends f left (g, panic) less h = tt

  pub pay_intrinsic-Spends : (f : Frame) → IsFrugal m → Spends f (pay_intrinsic b m c msg f)
  unfolding pay_intrinsic Spends
  pay_intrinsic-Spends f frugal =
      by_cost (intrinsic_gas msg.call_data msg.tuples (is_create b m c msg))
        (intrinsic_gas-IsLate msg.call_data msg.tuples (is_create b m c msg))
    where
      by_left :
          (l : Option ℕ)
          → ((left : ℕ) → l ≡ some left → left ≤ f.gas)
          → Spends f (elim l as (λ x. Outcome) [
            | none ↦ (f, err below_intrinsic_gas)
            | some left ↦ dispatch b m c msg (record f { gas = left }) msg.to
          ])
      by_left none less = (refl, refl, refl)
      by_left (some left) less =
          less_gas-Spends f left _ (less left refl)
            (dispatch-Spends (record f { gas = left }) msg.to frugal)

      by_cost :
          (cost : Result Error ℕ)
          → ((e : Error) → cost ≡ err e → is_late e ≡ true)
          → Spends f (elim cost as (λ x. Outcome) [
            | err e ↦ (f, err e)
            | panic ↦ (f, panic)
            | ok intrinsic ↦ elim (use_gas f.gas intrinsic) as (λ x. Outcome) [
              | none ↦ (f, err below_intrinsic_gas)
              | some left ↦ dispatch b m c msg (record f { gas = left }) msg.to
            ]
          ])
      by_cost (err e) late = (late e refl, refl, refl)
      by_cost panic late = tt
      by_cost (ok intrinsic) late =
          by_left (use_gas f.gas intrinsic) (λ left. use_gas-less f.gas intrinsic left)
