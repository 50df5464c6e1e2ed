-- ===== src/Processor/Checking.antt =====
-- processor/transition.go: preCheck and buyGas, which reject a message or buy its gas.
use padi_chain.Base.{
  ℕ, ◌+◌, ◌*◌, ◌≡◌, inl, inr, refl, sym, ap, ◌∙◌, Bool, true, false, Option, none, some, ltb, ◌==◌,
  ==_iff, if◌then◌else◌, arith, Bool-cases,
}
use mathlib.Core.Path.{subst}
use padi_chain.Base.Ints.{ℤ, pos, negsuc, debit}
use padi_chain.State.Objects.{StateDb, Backend, get_balance, get_nonce, get_code_hash}
use padi_chain.State.Writes.{sub_balance}
use padi_chain.State.Balances.{get_balance-sub_balance}
use padi_chain.Processor.Fees.{
  Error, nonce_too_low, nonce_too_high, insufficient_funds, gas_limit_reached, sender_not_eoa,
  fee_cap_below_base_fee, tip_above_fee_cap,
}
use padi_chain.Processor.Gas.{sub_gas}
use padi_chain.Processor.Transition.{
  Message, Context, Machine, Frame, is_less, effective_fee_cap, reserve_gas, buy_gas, check_sender,
  pre_check,
}
use padi_chain.State.Kept.{
  balance_at, balance-get_nonce, balance-get_code_hash, balance-get_balance,
}
use padi_chain.Processor.Running.{is_late}

module _ (b : Backend) (m : Machine) (c : Context) (msg : Message) where
  debit_nothing : (z : ℤ) → debit z 0 ≡ z
  unfolding debit
  debit_nothing (pos a) = ground arith
  debit_nothing (negsuc a) = ap negsuc (omega arith)

  -- SubBalance, as a debit to every address.
  debited :
      (s : StateDb) (addr amount at : ℕ)
      → balance_at b (sub_balance b s addr amount) at
        ≡ debit (balance_at b s at) (if at == addr then amount else 0)
  debited s addr amount at =
      get_balance-sub_balance b s addr amount at ∙ elim (Bool-cases (at == addr)) [
        | inl same ↦ rw (same, (==_iff at addr).0 same) refl
        | inr other ↦ rw other (sym (debit_nothing _))
      ]

  -- What preCheck comes to: an error that changes no balance and not the pool, or the gas bought.
  unfoldable pub Checks : Frame → Frame × Option Error → Type 0
  Checks f (g, some e) =
      (is_late e ≡ false)
      × (g.pool ≡ f.pool)
      × ((at : ℕ) → balance_at b g.state at ≡ balance_at b f.state at)
  Checks f (g, none) =
      (g.pool + msg.gas_limit ≡ f.pool)
      × (g.gas ≡ msg.gas_limit)
      × (g.initial_gas ≡ msg.gas_limit)
      × ((at : ℕ)
          → balance_at b g.state at
            ≡ debit (balance_at b f.state at)
                (if at == msg.sender then msg.gas_limit * effective_fee_cap msg else 0))

  Checks-read :
      (f : Frame) (s : StateDb) (o : Frame × Option Error)
      → ((at : ℕ) → balance_at b s at ≡ balance_at b f.state at)
      → Checks (record f { state = s }) o
      → Checks f o
  unfolding Checks
  Checks-read f s (g, some e) same (early, pool, h) = (early, pool, λ at. h at ∙ same at)
  Checks-read f s (g, none) same (pool, gas, start, h) = (
    pool,
    gas,
    start,
    λ at.
        h at
        ∙ ap (λ z. debit z (if at == msg.sender then msg.gas_limit * effective_fee_cap msg else 0))
            (same at),
  )

  sub_gas-some : (pool amount left : ℕ) → sub_gas pool amount ≡ some left → left + amount ≡ pool
  unfolding sub_gas
  sub_gas-some pool amount left h = ground (arith, h)

  module _ (checked : msg.skip_checks ≡ false) where
    reserve_gas-Checks :
        (f : Frame) → Checks f (reserve_gas b m c msg f (msg.gas_limit * effective_fee_cap msg))
    unfolding reserve_gas Checks
    reserve_gas-Checks f =
        by_pool (sub_gas f.pool msg.gas_limit) (sub_gas-some f.pool msg.gas_limit)
      where
        by_pool :
            (l : Option ℕ)
            → ((left : ℕ) → l ≡ some left → left + msg.gas_limit ≡ f.pool)
            → Checks f (elim l as (λ x. Frame × Option Error) [
              | none ↦ (f, some gas_limit_reached)
              | some left ↦ (
                record {
                  state =
                      if msg.skip_checks
                      then f.state
                      else sub_balance b f.state msg.sender (msg.gas_limit * effective_fee_cap msg);
                  pool = left;
                  gas = msg.gas_limit;
                  initial_gas = msg.gas_limit;
                },
                none,
              )
            ])
        by_pool none sums = (refl, refl, λ at. refl)
        by_pool (some left) sums = (
          sums left refl,
          refl,
          refl,
          λ at.
              ap
                (λ skip.
                  balance_at b
                    (if skip
                      then f.state
                      else sub_balance b f.state msg.sender (msg.gas_limit * effective_fee_cap msg))
                    at)
                checked
              ∙ debited f.state msg.sender (msg.gas_limit * effective_fee_cap msg) at,
        )

    -- A test that fails, or what comes behind it.
    Checks-if :
        (t : Bool) (f : Frame) (e : Error) (o : Frame × Option Error)
        → is_late e ≡ false
        → Checks f o
        → Checks f (if t then (f, some e) else o)
    unfolding Checks
    Checks-if true f e o early h = (early, refl, λ at. refl)
    Checks-if false f e o early h = h

    buy_gas-Checks : (f : Frame) → Checks f (buy_gas b m c msg f)
    unfolding buy_gas
    buy_gas-Checks f =
        let g = record f { state = (get_balance b f.state msg.sender).0 } in
        let max_cost = msg.gas_limit * effective_fee_cap msg in
        let short = is_less (get_balance b f.state msg.sender).1 (max_cost + msg.value) in
        let reserved = reserve_gas b m c msg g max_cost in
        subst
          (λ skip. Checks f (
            if skip
            then reserve_gas b m c msg f max_cost
            else (if short then (g, some insufficient_funds) else reserved)))
          (sym checked)
          (Checks-read f g.state _ (balance-get_balance b f.state msg.sender)
            (Checks-if short g insufficient_funds reserved refl (reserve_gas-Checks g)))

    check_sender-Checks : (f : Frame) → Checks f (check_sender b m c msg f)
    unfolding check_sender
    check_sender-Checks f =
        let g = record f { state = (get_code_hash b f.state msg.sender).0 } in
        Checks-read f g.state _ (balance-get_code_hash b f.state msg.sender) (
          Checks-if _ g sender_not_eoa _ refl (
            Checks-if _ g tip_above_fee_cap _ refl
              (Checks-if _ g fee_cap_below_base_fee _ refl (buy_gas-Checks g))))

    pub pre_check-Checks : (f : Frame) → Checks f (pre_check b m c msg f)
    unfolding pre_check
    pre_check-Checks f =
        let g = record f { state = (get_nonce b f.state msg.sender).0 } in
        let n = (get_nonce b f.state msg.sender).1 in
        subst
          (λ skip. Checks f (
            if skip
            then buy_gas b m c msg f
            else (if ltb n msg.nonce
                then (g, some nonce_too_high)
                else (if ltb msg.nonce n
                    then (g, some nonce_too_low)
                    else check_sender b m c msg g))))
          (sym checked)
          (Checks-read f g.state _ (balance-get_nonce b f.state msg.sender) (
            Checks-if (ltb n msg.nonce) g nonce_too_high _ refl
              (Checks-if (ltb msg.nonce n) g nonce_too_low _ refl (check_sender-Checks g))))
