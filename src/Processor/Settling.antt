-- ===== src/Processor/Settling.antt =====
-- processor/transition.go: what refundGas and payProposer leave in the balances and in the gas pool.
use padi_chain.Base.{
  ℕ, ◌+◌, ◌-◌, ◌*◌, ◌/◌, ◌%◌, ◌^◌, ◌≤◌, ◌<◌, ◌≡◌, inl, inr, refl, sym, ap, ◌∙◌, Bool, true, false,
  ltb, ◌==◌, ==_iff, if◌then◌else◌, arith, Bool-cases,
}
use native.Mathlib.Nat.{mul-add, add-mul}
use padi_chain.Base.Ints.{ℤ, pos, negsuc, credit}
use padi_chain.State.Objects.{StateDb, Backend, get_refund}
use padi_chain.State.Writes.{add_balance}
use padi_chain.State.Kept.{balance_at}
use padi_chain.State.Balances.{get_balance-add_balance}
use padi_chain.Processor.Gas.{add_gas}
use padi_chain.Processor.Transition.{
  Message, Context, Machine, Frame, gas_used, effective_fee_cap, tip_of, charged_base_fee,
  refund_gas, pay_proposer, settle,
}

pub credit_twice : (z : ℤ) (x y : ℕ) → credit (credit z x) y ≡ credit z (x + y)
unfolding credit
credit_twice (pos a) x y = ap pos (omega arith)
credit_twice (negsuc a) x y = ground arith

credit_nothing : (z : ℤ) → credit z 0 ≡ z
unfolding credit
credit_nothing (pos a) = ap pos (omega arith)
credit_nothing (negsuc a) = ground arith

-- The gas left after the refund: at most a fifth of the gas used comes back.
refunded_bound :
    (gas initial refund : ℕ)
    → gas ≤ initial
    → initial < 2 ^ 64
    → let cap = (initial + 2 ^ 64 - gas) % 2 ^ 64 / 5 in
      let left = (gas + (if ltb cap refund then cap else refund)) % 2 ^ 64 in
      (gas ≤ left) × (left ≤ gas + (initial - gas) / 5) × (left ≤ initial)
refunded_bound gas initial refund le small = ground (arith, le, small)

module _ (b : Backend) where
  -- AddBalance, as a credit to every address.
  credited :
      (s : StateDb) (addr amount at : ℕ)
      → balance_at b (add_balance b s addr amount) at
        ≡ credit (balance_at b s at) (if at == addr then amount else 0)
  credited s addr amount at =
      get_balance-add_balance b s addr amount at ∙ (elim (Bool-cases (at == addr)) [
        | inl same ↦ rw (same, (==_iff at addr).0 same) refl
        | inr other ↦ rw other (sym (credit_nothing _))
      ])

  module _ (m : Machine) (c : Context) (msg : Message) (checked : msg.skip_checks ≡ false) where
    abbrev pub settle_of : Frame → Frame
    settle_of f = settle b m c msg f

    abbrev pub overpaid : ℕ
    overpaid = effective_fee_cap msg - msg.price

    -- The gas that refundGas leaves, and what stays the same after it.
    refunded :
        (f : Frame)
        → f.gas ≤ f.initial_gas
        → f.initial_gas < 2 ^ 64
        → let r = refund_gas b m c msg f in
          (r.gas ≤ f.initial_gas)
          × (f.gas ≤ r.gas)
          × (r.gas ≤ f.gas + (f.initial_gas - f.gas) / 5)
          × (r.initial_gas ≡ f.initial_gas)
          × (r.pool ≡ (f.pool + r.gas) % 2 ^ 64)
          × ((at : ℕ)
              → balance_at b r.state at
                ≡ credit
                    (balance_at b f.state at)
                    (if at == msg.sender then r.gas * effective_fee_cap msg else 0))
    unfolding refund_gas add_gas gas_used
    refunded f le small =
        let (more, little, inside) =
          refunded_bound f.gas f.initial_gas (get_refund f.state) le small in
        (
          inside,
          more,
          little,
          refl,
          refl,
          λ at.
              ap
                (λ skip.
                  balance_at b
                    (if skip
                      then f.state
                      else add_balance b f.state msg.sender
                          ((refund_gas b m c msg f).gas * effective_fee_cap msg))
                    at)
                checked
              ∙ credited f.state msg.sender _ at,
        )

    -- What payProposer pays.
    paid :
        (f : Frame)
        → let p = pay_proposer b m c msg f in
          (p.gas ≡ f.gas)
          × (p.initial_gas ≡ f.initial_gas)
          × (p.pool ≡ f.pool)
          × ((at : ℕ)
              → balance_at b p.state at
                ≡ credit
                    (credit (balance_at b f.state at) (
                      if at == c.coinbase then gas_used f * tip_of msg (charged_base_fee c) else 0))
                    (if at == msg.sender then gas_used f * overpaid else 0))
    unfolding pay_proposer
    paid f =
        let tip = gas_used f * tip_of msg (charged_base_fee c) in
        let one = add_balance b f.state c.coinbase tip in
        let both =
          if overpaid == 0 then one else add_balance b one msg.sender (gas_used f * overpaid) in
        (
          ap (λ skip. (if skip then f else record f { state = both }).gas) checked,
          ap (λ skip. (if skip then f else record f { state = both }).initial_gas) checked,
          ap (λ skip. (if skip then f else record f { state = both }).pool) checked,
          λ at.
              ap (λ skip. balance_at b (if skip then f else record f { state = both }).state at)
                checked
              ∙ (surplus one at (gas_used f)
                  ∙ ap (λ z. credit z (if at == msg.sender then gas_used f * overpaid else 0))
                      (credited f.state c.coinbase tip at)),
        )
      where
        nothing_over : (o used : ℕ) → (o == 0) ≡ true → used * o ≡ 0
        nothing_over o used none_over = rw ((==_iff o 0).0 none_over) (omega arith)

        same_both : (t : Bool) → ◌≡◌ {A = ℕ} (if t then 0 else 0) 0
        same_both true = refl
        same_both false = refl

        surplus :
            (s : StateDb) (at used : ℕ)
            → balance_at b
                (if overpaid == 0 then s else add_balance b s msg.sender (used * overpaid))
                at
              ≡ credit (balance_at b s at) (if at == msg.sender then used * overpaid else 0)
        surplus s at used = elim (Bool-cases (overpaid == 0)) [
          | inl none_over ↦
              rw (none_over, nothing_over overpaid used none_over)
                (sym (
                  ap (credit (balance_at b s at)) (same_both (at == msg.sender))
                  ∙ credit_nothing (balance_at b s at)))
          | inr some_over ↦ rw some_over (credited s msg.sender (used * overpaid) at)
        ]

    -- What the sender gets back, with what it paid for, is what it paid in.
    account :
        (left used price cap : ℕ)
        → price ≤ cap
        → (left * cap + used * (cap - price)) + used * price ≡ (left + used) * cap
    account left used price cap le =
        let whole : (cap - price) + price ≡ cap = omega (arith, le) in
        let part = sym (mul-add used (cap - price) price) ∙ ap (λ x. used * x) whole in
        omega (arith, part, add-mul left used cap)

    sum_of_ifs :
        (t u : Bool) (x y z : ℕ)
        → ((if t then x else 0) + (if u then y else 0)) + (if t then z else 0)
          ≡ (if t then x + z else 0) + (if u then y else 0)
    sum_of_ifs t u x y z = ground arith

    used_after :
        (g : Frame) (left initial : ℕ)
        → g.gas ≡ left
        → g.initial_gas ≡ initial
        → left ≤ initial
        → initial < 2 ^ 64
        → gas_used g ≡ initial - left
    unfolding gas_used
    used_after g left initial el ei le small = omega (arith, el, ei, le, small)

    -- What refundGas and payProposer make of a frame.
    abbrev pub IsSettled : Frame → Frame → Type 0
    IsSettled f g =
        (gas_used g ≤ f.initial_gas - f.gas)
        × (f.initial_gas - f.gas ≤ gas_used g + (f.initial_gas - f.gas) / 5)
        × (g.pool ≡ (f.pool + (f.initial_gas - gas_used g)) % 2 ^ 64)
        × ((back : ℕ) × (back + gas_used g * msg.price ≡ f.initial_gas * effective_fee_cap msg)
            × ((at : ℕ)
                → balance_at b g.state at
                  ≡ credit (balance_at b f.state at) (
                      (if at == msg.sender then back else 0)
                      + (if at == c.coinbase
                          then gas_used g * tip_of msg (charged_base_fee c)
                          else 0))))

    pub settle-IsSettled :
        (f : Frame)
        → f.gas ≤ f.initial_gas
        → f.initial_gas < 2 ^ 64
        → msg.price ≤ effective_fee_cap msg
        → IsSettled f (settle b m c msg f)
    unfolding settle
    settle-IsSettled f le small covered =
        let r = refund_gas b m c msg f in
        let (inside, more, little, same_initial, pool, first) = refunded f le small in
        let (same_gas, same_start, same_pool, second) = paid r in
        let p = pay_proposer b m c msg r in
        let cap = effective_fee_cap msg in
        let used_r = used_after r r.gas f.initial_gas refl same_initial inside small in
        let used_p =
          used_after p r.gas f.initial_gas same_gas (same_start ∙ same_initial) inside small in
        let same_used : gas_used r ≡ gas_used p = used_r ∙ sym used_p in
        let total : r.gas + gas_used p ≡ f.initial_gas = omega (arith, used_p, inside) in
        (
          omega (arith, used_p, more, inside),
          omega (arith, used_p, little, more, inside),
          same_pool ∙ (pool ∙ ap (λ x. (f.pool + x) % 2 ^ 64) (omega (arith, used_p, inside))),
          (
            r.gas * cap + gas_used p * overpaid,
            account r.gas (gas_used p) msg.price cap covered ∙ ap (λ x. x * cap) total,
            λ at.
                second at
                ∙ (ap
                      (λ z.
                        credit
                          (credit z (
                            if at == c.coinbase
                            then gas_used r * tip_of msg (charged_base_fee c)
                            else 0))
                          (if at == msg.sender then gas_used r * overpaid else 0))
                      (first at)
                    ∙ (ap
                          (λ u.
                            credit
                              (credit
                                (credit (balance_at b f.state at)
                                  (if at == msg.sender then r.gas * cap else 0))
                                (if at == c.coinbase
                                  then u * tip_of msg (charged_base_fee c)
                                  else 0))
                              (if at == msg.sender then u * overpaid else 0))
                          same_used
                        ∙ three_credits (balance_at b f.state at) _ _ _
                        ∙ ap (credit (balance_at b f.state at))
                            (sum_of_ifs (at == msg.sender) (at == c.coinbase) _ _ _))),
          ),
        )
      where
        three_credits :
            (z : ℤ) (x y w : ℕ) → credit (credit (credit z x) y) w ≡ credit z ((x + y) + w)
        three_credits z x y w = ap (λ t. credit t w) (credit_twice z x y) ∙ credit_twice z (x + y) w
