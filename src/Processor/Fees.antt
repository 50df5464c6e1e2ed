-- ===== src/Processor/Fees.antt =====
-- processor/processor.go: CalcBaseFee, VerifyBaseFee and VerifyGasLimit; core/transaction.go: the prices
-- of a transaction. A price is a natural number, a nil one `none`.
use padi_chain.Base.{
  ℕ, ◌+◌, ◌-◌, ◌*◌, ◌/◌, List, [], Option, none, some, ltb, leb, ◌==◌, if◌then◌else◌, Result, ok,
  ◌>>=◌, err, panic,
}
use padi_chain.Poa.Headers.{Header}

-- Config, without the chain's id.
pub record Config : Type 0 where
  pub elasticity_multiplier : ℕ
  pub base_fee_change_denominator : ℕ
  pub min_base_fee : ℕ

pub data Error : Type 0 where
  nonce_too_low nonce_too_high insufficient_funds below_intrinsic_gas gas_limit_reached
        sender_not_eoa :
      Error
  fee_cap_below_base_fee tip_above_fee_cap init_code_too_large gas_uint_overflow : Error
  wrong_base_fee gas_limit_too_low gas_limit_delta : Error

-- The change of a base fee for a distance from the target.
unfoldable pub fee_change : Config → ℕ → ℕ → ℕ → ℕ
fee_change c parent_fee delta target = parent_fee * delta / target / c.base_fee_change_denominator

-- The two branches of CalcBaseFee behind the division that may panic.
unfoldable pub moved_fee : Config → ℕ → ℕ → ℕ → ℕ
moved_fee c parent_fee used target =
    if ltb target used
    then (let change = fee_change c parent_fee (used - target) target in
        parent_fee + (if change == 0 then 1 else change))
    else (let fee = parent_fee - fee_change c parent_fee (target - used) target in
        if ltb fee c.min_base_fee then c.min_base_fee else fee)

unfoldable pub fee_at_target : Config → ℕ → ℕ → ℕ → Result Error ℕ
fee_at_target c parent_fee used target =
    if target == 0
    then ok parent_fee
    else (if used == target
        then ok parent_fee
        else (if c.base_fee_change_denominator == 0
            then panic
            else ok (moved_fee c parent_fee used target)))

-- CalcBaseFee: big.Int.Div panics at a zero divisor, as `/` does.
unfoldable pub calc_base_fee : Config → Option Header → Result Error ℕ
calc_base_fee c none = ok c.min_base_fee
calc_base_fee c (some parent) =
    if parent.base_fee == 0
    then ok c.min_base_fee
    else (if c.elasticity_multiplier == 0
        then panic
        else fee_at_target c parent.base_fee parent.gas_used
            (parent.gas_limit / c.elasticity_multiplier))

-- VerifyBaseFee; a header always has a base fee here, where the source refuses a nil one.
unfoldable pub verify_base_fee : Config → Header → Option Header → Result Error (Unit {0})
verify_base_fee c header parent = calc_base_fee c parent >>= λ want.
    (if header.base_fee == want then ok tt else err wrong_base_fee)

-- VerifyGasLimit
unfoldable pub verify_gas_limit : ℕ → ℕ → Result Error (Unit {0})
verify_gas_limit parent_limit limit =
    if ltb limit 5000
    then err gas_limit_too_low
    else (let diff =
          if ltb parent_limit limit then limit - parent_limit else parent_limit - limit in
        if leb (parent_limit / 1024) diff then err gas_limit_delta else ok tt)

-- What both types of transaction hold.
pub record TxData : Type 0 where
  pub nonce : ℕ
  pub gas : ℕ
  pub to : Option ℕ
  pub value : ℕ
  pub data_bytes : List ℕ

-- LegacyTx with its price, and DynamicFeeTx with tip cap, fee cap and access list.
pub data Transaction : Type 0 where
  legacy_tx : TxData → ℕ → Transaction
  dynamic_fee_tx : TxData → ℕ → ℕ → List (ℕ × List ℕ) → Transaction

unfoldable pub inner : Transaction → TxData
inner (legacy_tx d price) = d
inner (dynamic_fee_tx d tip_cap fee_cap tuples) = d

unfoldable pub gas_price : Transaction → ℕ
gas_price (legacy_tx d price) = price
gas_price (dynamic_fee_tx d tip_cap fee_cap tuples) = fee_cap

unfoldable pub gas_tip_cap : Transaction → ℕ
gas_tip_cap (legacy_tx d price) = price
gas_tip_cap (dynamic_fee_tx d tip_cap fee_cap tuples) = tip_cap

unfoldable pub gas_fee_cap : Transaction → ℕ
gas_fee_cap (legacy_tx d price) = price
gas_fee_cap (dynamic_fee_tx d tip_cap fee_cap tuples) = fee_cap

unfoldable pub access_list : Transaction → List (ℕ × List ℕ)
access_list (legacy_tx d price) = []
access_list (dynamic_fee_tx d tip_cap fee_cap tuples) = tuples

-- EffectiveGasPrice: the subtraction stops at zero, as the source makes it do.
unfoldable pub effective_gas_price : Transaction → Option ℕ → ℕ
effective_gas_price tx none = gas_price tx
effective_gas_price (legacy_tx d price) (some base_fee) = price
effective_gas_price (dynamic_fee_tx d tip_cap fee_cap tuples) (some base_fee) =
    let tip = fee_cap - base_fee in (if ltb tip_cap tip then tip_cap else tip) + base_fee
