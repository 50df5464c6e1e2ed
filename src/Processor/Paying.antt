-- ===== src/Processor/Paying.antt =====
-- processor/transition.go: what a message that is run costs its sender, and what the proposer gets.
use padi_chain.Base.{
  ℕ, ◌+◌, ◌*◌, ◌^◌, ◌≤◌, ◌<◌, ◌≡◌, refl, sym, ap, ◌∙◌, Bool, true, false, List, Option, none, some,
  ltb, ◌==◌, length, if◌then◌else◌, arith, inl, inr, Bool-cases, Result, ok, err, panic,
}
use mathlib.Core.Path.{subst}
use padi_chain.Base.Ints.{credit, debit}
use padi_chain.State.Objects.{StateDb, Backend, get_nonce}
use padi_chain.State.Kept.{balance_at, balance-prepare, balance-get_nonce, balance-set_nonce}
use padi_chain.State.Access.{prepare}
use padi_chain.Staking.Store.{staking_address}
use padi_chain.Processor.Fees.{Error, below_intrinsic_gas}
use padi_chain.Processor.Gas.{intrinsic_gas}
use padi_chain.Processor.Transition.{
  Message, Context, Machine, Frame, ExecutionResult, gas_used, use_gas, charged_base_fee,
  effective_fee_cap, tip_of, pre_check, settle, increment_nonce, settled, after_evm, dispatch,
  is_create, pay_intrinsic, run, apply_message,
}
use padi_chain.Processor.Settling.{IsSettled, settle-IsSettled}
use padi_chain.Processor.Running.{IsFrugal, Outcome, use_gas-less}
use padi_chain.Processor.Checking.{Checks, pre_check-Checks}

module _ (b : Backend) (m : Machine) (c : Context) (msg : Message) where
  -- What the EVM is run on, by the recipient.
  abbrev pub evm_on : StateDb → ℕ → Option ℕ → StateDb × List ℕ × ℕ × Option m.Failure
  evm_on s gas none = m.create s msg.sender msg.call_data gas msg.value
  evm_on s gas (some to) = m.call s msg.sender to msg.call_data gas msg.value

  -- A recipient that is not the staking account, or none.
  abbrev pub is_for_evm : Option ℕ → Bool
  is_for_evm none = true
  is_for_evm (some to) = if to == staking_address then false else true

  -- A message that the EVM ran from a state with the same balances, and that was settled then.
  unfoldable pub Ran : Frame → Outcome b m c msg → Type 0
  Ran f (g, ok r) =
      (s : StateDb) × (left : ℕ) × (left ≤ f.gas)
      × ((at : ℕ) → balance_at b s at ≡ balance_at b f.state at)
      × (r.used_gas ≡ gas_used g)
      × (g
          ≡ settle b m c msg
              (record f { state = (evm_on s left msg.to).0; gas = (evm_on s left msg.to).2 }))
  Ran f (g, err e) = Unit
  Ran f (g, panic) = Unit

  after_evm-Ran :
      (f : Frame) (s s0 : StateDb) (o : StateDb × List ℕ × ℕ × Option m.Failure)
      → ((at : ℕ) → balance_at b s at ≡ balance_at b f.state at)
      → evm_on s f.gas msg.to ≡ o
      → Ran f (after_evm b m c msg (record f { state = s0 }) o)
  unfolding after_evm settled Ran
  after_evm-Ran f s s0 (t, output, left, e) same is = (
    s,
    f.gas,
    omega arith,
    same,
    refl,
    ap (λ o. settle b m c msg (record f { state = o.0; gas = o.2 })) (sym is),
  )

  balance-increment_nonce :
      (s : StateDb) (at : ℕ) → balance_at b (increment_nonce b m c msg s) at ≡ balance_at b s at
  unfolding increment_nonce
  balance-increment_nonce s at =
      balance-set_nonce b (get_nonce b s msg.sender).0 msg.sender _ at
      ∙ balance-get_nonce b s msg.sender at

  dispatch-Ran :
      (f : Frame) (to : Option ℕ)
      → msg.to ≡ to
      → is_for_evm to ≡ true
      → Ran f (dispatch b m c msg f to)
  unfolding dispatch Ran
  dispatch-Ran f none is evm = elim (Bool-cases (ltb 49152 (length msg.call_data))) [
    | inl long ↦ rw (dispatch, long) tt
    | inr short ↦
        let s = prepare f.state msg.sender c.coinbase none c.precompiles msg.tuples in
        rw (dispatch, short)
          (after_evm-Ran f s s (evm_on s f.gas none)
            (balance-prepare b f.state msg.sender c.coinbase none c.precompiles msg.tuples)
            (ap (evm_on s f.gas) is))
  ]
  dispatch-Ran f (some to) is evm =
      let s = prepare f.state msg.sender c.coinbase (some to) c.precompiles msg.tuples in
      elim (Bool-cases (to == staking_address)) [
        | inl staking ↦ absurd (cc (rw staking at evm))
        | inr other ↦
            let s' = increment_nonce b m c msg s in
            rw (dispatch, other)
              (after_evm-Ran f s' s' (evm_on s' f.gas (some to))
                (λ at.
                  balance-increment_nonce s at
                  ∙ balance-prepare b f.state msg.sender c.coinbase (some to) c.precompiles
                      msg.tuples at)
                (ap (evm_on s' f.gas) is))
      ]

  less_gas-Ran :
      (f : Frame) (left : ℕ) (o : Outcome b m c msg)
      → left ≤ f.gas
      → Ran (record f { gas = left }) o
      → Ran f o
  unfolding Ran
  less_gas-Ran f left (g, ok r) less (s, gas, under, same, used, is) =
      (s, gas, omega (arith, less, under), same, used, is)
  less_gas-Ran f left (g, err e) less h = tt
  less_gas-Ran f left (g, panic) less h = tt

  pay_intrinsic-Ran : (f : Frame) → is_for_evm msg.to ≡ true → Ran f (pay_intrinsic b m c msg f)
  unfolding pay_intrinsic Ran
  pay_intrinsic-Ran f evm = by_cost (intrinsic_gas msg.call_data msg.tuples (is_create b m c msg))
    where
      by_left :
          (l : Option ℕ)
          → ((left : ℕ) → l ≡ some left → left ≤ f.gas)
          → Ran f (elim l as (λ x. Outcome b m c msg) [
            | none ↦ (f, err below_intrinsic_gas)
            | some left ↦ dispatch b m c msg (record f { gas = left }) msg.to
          ])
      by_left none less = tt
      by_left (some left) less =
          less_gas-Ran f left _ (less left refl)
            (dispatch-Ran (record f { gas = left }) msg.to refl evm)

      by_cost :
          (cost : Result Error ℕ)
          → Ran f (elim cost as (λ x. Outcome b m c msg) [
            | err e ↦ (f, err e)
            | panic ↦ (f, panic)
            | ok intrinsic ↦ elim (use_gas f.gas intrinsic) as (λ x. Outcome b m c msg) [
              | none ↦ (f, err below_intrinsic_gas)
              | some left ↦ dispatch b m c msg (record f { gas = left }) msg.to
            ]
          ])
      by_cost (err e) = tt
      by_cost panic = tt
      by_cost (ok intrinsic) =
          by_left (use_gas f.gas intrinsic) (λ left. use_gas-less f.gas intrinsic left)

  -- The EVM ran on the state from which the gas was bought at the fee cap, with no more gas than that;
  -- then the gas used went to the pool and the proposer, and what was paid in for the rest came back.
  abbrev pub IsPaid : StateDb → ℕ → StateDb → ℕ → ExecutionResult m.Failure → Type 0
  IsPaid s pool s' pool' r =
      (charged : StateDb) × (left : ℕ) × (left ≤ msg.gas_limit)
      × ((at : ℕ)
          → balance_at b charged at
            ≡ debit (balance_at b s at)
                (if at == msg.sender then msg.gas_limit * effective_fee_cap msg else 0))
      × (r.used_gas ≤ msg.gas_limit)
      × (pool' + r.used_gas ≡ pool)
      × ((back : ℕ) × (back + r.used_gas * msg.price ≡ msg.gas_limit * effective_fee_cap msg)
          × ((at : ℕ)
              → balance_at b s' at
                ≡ credit (balance_at b (evm_on charged left msg.to).0 at) (
                    (if at == msg.sender then back else 0)
                    + (if at == c.coinbase
                        then r.used_gas * tip_of msg (charged_base_fee c)
                        else 0))))

  abbrev PaidFrame : StateDb → ℕ → Outcome b m c msg → Type 0
  PaidFrame s pool (g, ok r) = IsPaid s pool g.state g.pool r
  PaidFrame s pool (g, err e) = Unit
  PaidFrame s pool (g, panic) = Unit

  evm_on-IsFrugal :
      (s : StateDb) (left : ℕ) (to : Option ℕ) → IsFrugal m → (evm_on s left to).2 ≤ left
  evm_on-IsFrugal s left none (create_frugal, _) =
      create_frugal s msg.sender msg.call_data left msg.value
  evm_on-IsFrugal s left (some to) (_, call_frugal) =
      call_frugal s msg.sender to msg.call_data left msg.value

  module _ (checked : msg.skip_checks ≡ false) (frugal : IsFrugal m)
      (covered : msg.price ≤ effective_fee_cap msg) (small : msg.gas_limit < 2 ^ 64) where
    paid_behind_check :
        (f g : Frame) (o : Outcome b m c msg)
        → f.pool < 2 ^ 64
        → Checks b m c msg f (g, none)
        → Ran g o
        → PaidFrame f.state f.pool o
    unfolding Checks Ran
    paid_behind_check f g (h, err e) fits checks ran = tt
    paid_behind_check f g (h, panic) fits checks ran = tt
    paid_behind_check f g (h, ok r) fits (pool, gas, initial, balances)
          (s, left, less, same, used, is) =
        let before = record g {
          state = (evm_on s left msg.to).0;
          gas = (evm_on s left msg.to).2;
        } in
        let gas_less = evm_on-IsFrugal s left msg.to frugal in
        let (most, least, pool_after, (back, account, credits)) =
          subst (λ x. IsSettled b m c msg checked before x) (sym is)
            (settle-IsSettled b m c msg checked before (omega (arith, gas_less, less, gas, initial))
              (omega (arith, initial, small)) covered) in
        (
          s,
          left,
          omega (arith, less, gas),
          (λ at. same at ∙ balances at),
          omega (arith, used, most, initial),
          omega (arith, pool_after, pool, initial, used, most, fits),
          (
            back,
            ap (λ u. back + u * msg.price) used
                ∙ (account ∙ ap (λ i. i * effective_fee_cap msg) initial),
            λ at.
                credits at
                ∙ ap
                    (λ u. credit (balance_at b (evm_on s left msg.to).0 at) (
                      (if at == msg.sender then back else 0)
                      + (if at == c.coinbase then u * tip_of msg (charged_base_fee c) else 0)))
                    (sym used),
          ),
        )

    run-Paid :
        (f : Frame)
        → is_for_evm msg.to ≡ true
        → f.pool < 2 ^ 64
        → PaidFrame f.state f.pool (run b m c msg f)
    unfolding run
    run-Paid f evm fits = by_check (pre_check b m c msg f) (pre_check-Checks b m c msg checked f)
      where
        by_check :
            (r : Frame × Option Error)
            → Checks b m c msg f r
            → PaidFrame f.state f.pool (elim r.1 as (λ x. Outcome b m c msg) [
              | none ↦ pay_intrinsic b m c msg r.0
              | some failed ↦ (r.0, err failed)
            ])
        by_check (g, none) checks =
            paid_behind_check f g (pay_intrinsic b m c msg g) fits checks (pay_intrinsic-Ran g evm)
        by_check (g, some e) checks = tt

    IsPaid-of_run :
        (s : StateDb) (pool : ℕ) (o : Outcome b m c msg) (s' : StateDb) (pool' : ℕ)
        (r : ExecutionResult m.Failure)
        → PaidFrame s pool o
        → ◌≡◌ {A = StateDb × ℕ × Result Error (ExecutionResult m.Failure)}
            (o.0.state, o.0.pool, o.1)
            (s', pool', ok r)
        → IsPaid s pool s' pool' r
    IsPaid-of_run s pool (g, err e) s' pool' r h is = absurd (cc (ap (λ t. t.2) is))
    IsPaid-of_run s pool (g, panic) s' pool' r h is = absurd (cc (ap (λ t. t.2) is))
    IsPaid-of_run s pool (g, ok x) s' pool' r h is =
        let same_result : x ≡ r = cc (ap (λ t. t.2) is) in
        subst (λ x. IsPaid s pool s' pool' x) same_result
          (subst (λ t. IsPaid s pool t pool' x) (ap (λ t. t.0) is)
            (subst (λ t. IsPaid s pool g.state t x) (ap (λ t. t.1) is) h))

    -- A message to the EVM whose checks are not skipped and that is run: the EVM ran, with no more than
    -- the gas limit, on a state from which the gas limit at the fee cap was taken off the sender. On what
    -- the EVM left, the sender got back all of it but the gas used at the price, and the proposer the gas
    -- used at the priority fee. The gas used is within the limit, and gone from the pool of the block. The
    -- price is taken to be within the fee cap, gas limit and pool to have 64 bits, and the EVM to give
    -- back no more gas than it is given.
    pub apply_message-IsPaid :
        (s : StateDb) (pool : ℕ) (s' : StateDb) (pool' : ℕ) (r : ExecutionResult m.Failure)
        → is_for_evm msg.to ≡ true
        → pool < 2 ^ 64
        → apply_message b m c msg s pool ≡ (s', pool', ok r)
        → IsPaid s pool s' pool' r
    unfolding apply_message
    apply_message-IsPaid s pool s' pool' r evm fits is =
        let f : Frame = record { state = s; pool = pool; gas = 0; initial_gas = 0 } in
        IsPaid-of_run s pool (run b m c msg f) s' pool' r (run-Paid f evm fits) is
