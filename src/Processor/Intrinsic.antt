-- ===== src/Processor/Intrinsic.antt =====
-- processor/transition.go: IntrinsicGas is a sum without a limit, or the error that it passes one.
use padi_chain.Base.{
  ℕ, ◌+◌, ◌-◌, ◌*◌, ◌/◌, ◌%◌, ◌^◌, ◌≤◌, ◌≡◌, inl, inr, refl, ap, ◌∙◌, Bool, true, false, List, [],
  ◌∷◌, ltb, if◌then◌else◌, length, arith, Result, ok, err, ◌>>=◌, Bool-cases,
}
use padi_chain.Evm.Gas.{max_uint64}
use padi_chain.Processor.Fees.{Error, gas_uint_overflow}
use padi_chain.Processor.Gas.{
  charge, non_zero_bytes, storage_key_count, data_gas, access_list_gas, intrinsic_gas,
}

-- The sum of a charge if it fits a word.
abbrev pub fitting : ℕ → Result Error ℕ
fitting gas = if ltb max_uint64 gas then err gas_uint_overflow else ok gas

-- The prices the charges have.
charge_16 : (gas units : ℕ) → gas ≤ max_uint64 → charge gas 16 units ≡ fitting (gas + units * 16)
unfolding charge
charge_16 gas units small = ground (arith, small)

charge_4 : (gas units : ℕ) → gas ≤ max_uint64 → charge gas 4 units ≡ fitting (gas + units * 4)
unfolding charge
charge_4 gas units small = ground (arith, small)

charge_2 : (gas units : ℕ) → gas ≤ max_uint64 → charge gas 2 units ≡ fitting (gas + units * 2)
unfolding charge
charge_2 gas units small = ground (arith, small)

-- The flat fee, and the charges for the data without a limit.
abbrev pub flat_fee : Bool → ℕ
flat_fee is_creation = if is_creation then 53000 else 21000

abbrev pub data_cost : List ℕ → Bool → ℕ
data_cost data_bytes is_creation =
    non_zero_bytes data_bytes * 16
    + (length data_bytes - non_zero_bytes data_bytes) * 4
    + (if is_creation then (length data_bytes + 31) / 32 * 2 else 0)

abbrev pub access_list_cost : List (ℕ × List ℕ) → ℕ
access_list_cost tuples = length tuples * 2400 + storage_key_count tuples * 1900

-- Charges one after the other fit if their sum does.
fitting_again :
    (gas more : ℕ) (next : ℕ → Result Error ℕ)
    → ((g : ℕ) → g ≤ max_uint64 → next g ≡ fitting (g + more))
    → (fitting gas >>= next) ≡ fitting (gas + more)
fitting_again gas more next k = elim (Bool-cases (ltb max_uint64 gas)) [
  | inl over ↦ rw over (over_stays gas more over)
  | inr under ↦ rw under (k gas (ground (arith, under)))
]
  where
    over_stays :
        (gas more : ℕ) → ltb max_uint64 gas ≡ true → err gas_uint_overflow ≡ fitting (gas + more)
    over_stays gas more over = ground (arith, over)

words_charged :
    (is_creation : Bool) (words g : ℕ)
    → g ≤ max_uint64
    → (if is_creation then charge g 2 words else ok g)
      ≡ fitting (g + (if is_creation then words * 2 else 0))
words_charged true words g small = charge_2 g words small
words_charged false words g small = ground (arith, small)

three_charges :
    (gas non_zero all_zero words : ℕ) (is_creation : Bool)
    → gas ≤ max_uint64
    → (charge gas 16 non_zero >>= λ g.
        (charge g 4 all_zero >>= λ h. (if is_creation then charge h 2 words else ok h)))
      ≡ fitting (gas + (non_zero * 16 + all_zero * 4 + (if is_creation then words * 2 else 0)))
three_charges gas non_zero all_zero words is_creation small =
    let last = if is_creation then words * 2 else 0 in
    rw (charge_16 gas non_zero small) (
      fitting_again (gas + non_zero * 16) (all_zero * 4 + last) _ (λ g fits.
        rw (charge_4 g all_zero fits) (
          fitting_again (g + all_zero * 4) last _ (words_charged is_creation words)
          ∙ ap fitting (omega arith)))
      ∙ ap fitting (omega arith))

data_gas_lem :
    (data_bytes : List ℕ) (is_creation : Bool) (gas : ℕ)
    → gas ≤ max_uint64
    → data_gas data_bytes is_creation gas ≡ fitting (gas + data_cost data_bytes is_creation)
unfolding data_gas non_zero_bytes
data_gas_lem [] true gas small = ground (arith, small)
data_gas_lem [] false gas small = ground (arith, small)
data_gas_lem (b ∷ data_bytes) is_creation gas small =
    three_charges gas (non_zero_bytes (b ∷ data_bytes)) _ ((length (b ∷ data_bytes) + 31) / 32)
      is_creation small

access_list_gas_lem :
    (tuples : List (ℕ × List ℕ)) (gas : ℕ)
    → gas ≤ max_uint64
    → access_list_gas tuples gas ≡ (gas + access_list_cost tuples) % 2 ^ 64
unfolding access_list_gas storage_key_count
access_list_gas_lem [] gas small = omega (arith, small)
access_list_gas_lem (tuple ∷ tuples) gas small = omega (arith, small)

-- IntrinsicGas is the flat fee and the charges for the data and the access list: it fails exactly where
-- the fee and the charges for the data alone pass 64 bits, and the access list is added modulo 2^64.
pub intrinsic_gas_lem :
    (data_bytes : List ℕ) (tuples : List (ℕ × List ℕ)) (is_creation : Bool)
    → intrinsic_gas data_bytes tuples is_creation ≡ (
        let cost = flat_fee is_creation + data_cost data_bytes is_creation in
        if ltb max_uint64 cost
        then err gas_uint_overflow
        else ok ((cost + access_list_cost tuples) % 2 ^ 64))
unfolding intrinsic_gas
intrinsic_gas_lem data_bytes tuples is_creation =
    rw
      (
        intrinsic_gas,
        data_gas_lem data_bytes is_creation (flat_fee is_creation) (flat_small is_creation),
      )
      (finish (flat_fee is_creation + data_cost data_bytes is_creation))
  where
    flat_small : (is_creation : Bool) → flat_fee is_creation ≤ max_uint64
    flat_small true = omega arith
    flat_small false = omega arith

    finish :
        (cost : ℕ)
        → (fitting cost >>= λ gas. ok (access_list_gas tuples gas)) ≡ (
            if ltb max_uint64 cost
            then err gas_uint_overflow
            else ok ((cost + access_list_cost tuples) % 2 ^ 64))
    finish cost = elim (Bool-cases (ltb max_uint64 cost)) [
      | inl over ↦ rw over refl
      | inr under ↦ rw under (ap ok (access_list_gas_lem tuples cost (ground (arith, under))))
    ]
