-- ===== src/Processor/Market.antt =====
-- processor/processor.go: the bounds of the fee market.
use padi_chain.Base.{
  ℕ, zero, ◌+◌, ◌-◌, ◌*◌, ◌/◌, ◌≤◌, ◌<◌, ◌≡◌, inl, inr, refl, false, some, ltb, ◌==◌, ==_iff,
  if◌then◌else◌, arith, ok, Bool-cases,
}
use padi_chain.Poa.Headers.{Header}
use padi_chain.Processor.Fees.{
  Config, fee_change, moved_fee, fee_at_target, calc_base_fee, Transaction, legacy_tx,
  dynamic_fee_tx, gas_fee_cap, effective_gas_price,
}
use mathlib.Core.Path.{subst}
use native.Mathlib.Nat.{
  lt-mul-div-succ, div-lt_iff_lt-mul, mul-le-mul_left, mul_comm, div-le_of_le-mul,
}

div_monotone : (x y k : ℕ) → x ≤ y → 1 ≤ k → x / k ≤ y / k
div_monotone x y k le positive =
    let some_parts : zero < k = omega (arith, positive) in
    let bound = subst (λ m. y < m) (mul_comm k (y / k + 1)) (lt-mul-div-succ y some_parts) in
    let under =
      (div-lt_iff_lt-mul {k = k} {x = x} {y = y / k + 1} some_parts).1 (omega (arith, le, bound)) in
    omega (arith, under)

-- At most a whole target away from it, a fee changes by no more than its part.
fee_change_bound :
    (c : Config) (fee delta target : ℕ)
    → delta ≤ target
    → 1 ≤ c.base_fee_change_denominator
    → fee_change c fee delta target ≤ fee / c.base_fee_change_denominator
unfolding fee_change
fee_change_bound c fee delta target near positive =
    let scaled = mul-le-mul_left fee near in
    let swapped = mul_comm fee target in
    let whole = div-le_of_le-mul target (subst (λ x. fee * delta ≤ x) swapped scaled) in
    div_monotone _ _ c.base_fee_change_denominator whole positive

-- A base fee that is within the bounds of its parent's.
abbrev pub IsNear : Config → ℕ → ℕ → Type 0
IsNear c before fee =
    (c.min_base_fee ≤ fee)
    × (fee ≤ before + before / c.base_fee_change_denominator + 1)
    × (before ≤ fee + before / c.base_fee_change_denominator)

moved_fee-IsNear :
    (c : Config) (fee used target : ℕ)
    → c.min_base_fee ≤ fee
    → 1 ≤ c.base_fee_change_denominator
    → used ≤ 2 * target
    → IsNear c fee (moved_fee c fee used target)
unfolding moved_fee
moved_fee-IsNear c fee used target floor positive within = elim (Bool-cases (ltb target used)) [
  | inl above ↦
      let bound = fee_change_bound c fee (used - target) target (omega (arith, within)) positive in
      rw above (
        raised (fee_change c fee (used - target) target) (fee / c.base_fee_change_denominator)
          bound)
  | inr below ↦
      let bound = fee_change_bound c fee (target - used) target (omega arith) positive in
      rw below (
        lowered (fee_change c fee (target - used) target) (fee / c.base_fee_change_denominator)
          bound)
]
  where
    raised :
        (change part : ℕ)
        → change ≤ part
        → (c.min_base_fee ≤ fee + (if change == 0 then 1 else change))
          × (fee + (if change == 0 then 1 else change) ≤ fee + part + 1)
          × (fee ≤ fee + (if change == 0 then 1 else change) + part)
    raised change part bound = ground (arith, bound, floor)

    lowered :
        (change part : ℕ)
        → change ≤ part
        → let f = if ltb (fee - change) c.min_base_fee then c.min_base_fee else fee - change in
          (c.min_base_fee ≤ f) × (f ≤ fee + part + 1) × (fee ≤ f + part)
    lowered change part bound = ground (arith, bound, floor)

same_fee-IsNear : (c : Config) (fee : ℕ) → c.min_base_fee ≤ fee → IsNear c fee fee
same_fee-IsNear c fee floor = (floor, omega arith, omega arith)

positive_test : (n : ℕ) → 1 ≤ n → (n == 0) ≡ false
positive_test n positive = ground (arith, positive)

fee_at_target-IsNear :
    (c : Config) (fee used target : ℕ)
    → c.min_base_fee ≤ fee
    → 1 ≤ c.base_fee_change_denominator
    → used ≤ 2 * target
    → (next : ℕ) × (fee_at_target c fee used target ≡ ok next) × IsNear c fee next
unfolding fee_at_target
fee_at_target-IsNear c fee used target floor positive within = elim (Bool-cases (target == 0)) [
  | inl none_left ↦ (fee, rw (fee_at_target, none_left) refl, same_fee-IsNear c fee floor)
  | inr _ ↦ elim (Bool-cases (used == target)) [
    | inl full ↦ (fee, ground (arith, full), same_fee-IsNear c fee floor)
    | inr other ↦ (
      _,
      ground (arith, other, positive_test _ positive),
      moved_fee-IsNear c fee used target floor positive within,
    )
  ]
]

-- The base fee of a block exists, is no lower than the minimum, and is away from its parent's by at most
-- the parent's over the denominator, and one: if the parent's is no lower than the minimum, the parent
-- used at most twice its target, and neither the multiplier nor the denominator is zero.
pub calc_base_fee-IsNear :
    (c : Config) (parent : Header)
    → c.min_base_fee ≤ parent.base_fee
    → 1 ≤ c.base_fee_change_denominator
    → 1 ≤ c.elasticity_multiplier
    → parent.gas_used ≤ 2 * (parent.gas_limit / c.elasticity_multiplier)
    → (fee : ℕ) × (calc_base_fee c (some parent) ≡ ok fee) × IsNear c parent.base_fee fee
unfolding calc_base_fee
calc_base_fee-IsNear c parent floor positive elastic within =
    elim (Bool-cases (parent.base_fee == 0)) [
      | inl free ↦
          let zero_fee = (==_iff _ _).0 free in
          (
            c.min_base_fee,
            rw (calc_base_fee, free) refl,
            (omega arith, omega (arith, floor), omega (arith, floor, zero_fee)),
          )
      | inr priced ↦
          let (fee, is, near) =
            fee_at_target-IsNear c parent.base_fee parent.gas_used
              (parent.gas_limit / c.elasticity_multiplier) floor positive within in
          (fee, rw (calc_base_fee, priced, positive_test c.elasticity_multiplier elastic) is, near)
    ]

-- What is paid for a unit of gas is at most the fee cap, and at least the base fee, where the cap
-- covers the base fee.
pub effective_gas_price_bound :
    (tx : Transaction) (base_fee : ℕ)
    → base_fee ≤ gas_fee_cap tx
    → (base_fee ≤ effective_gas_price tx (some base_fee))
      × (effective_gas_price tx (some base_fee) ≤ gas_fee_cap tx)
unfolding effective_gas_price gas_fee_cap
effective_gas_price_bound (legacy_tx d price) base_fee covered = (covered, omega arith)
effective_gas_price_bound (dynamic_fee_tx d tip_cap fee_cap tuples) base_fee covered =
    ground (arith, covered)
