-- ===== src/Processor/Gas.antt =====
-- processor/transition.go: GasPool and IntrinsicGas, in numbers of 64 bits.
use padi_chain.Base.{
  ℕ, ◌+◌, ◌-◌, ◌*◌, ◌/◌, ◌%◌, ◌^◌, Bool, List, [], ◌∷◌, Option, none, some, ltb, ◌==◌,
  if◌then◌else◌, length, Result, ok, err, ◌>>=◌,
}
use padi_chain.Evm.Gas.{max_uint64}
use padi_chain.Processor.Fees.{Error, gas_uint_overflow}

-- AddGas
unfoldable pub add_gas : ℕ → ℕ → ℕ
add_gas pool amount = (pool + amount) % 2 ^ 64

-- SubGas, by the pool that is left; `none` is ErrGasLimitReached.
unfoldable pub sub_gas : ℕ → ℕ → Option ℕ
sub_gas pool amount = if ltb pool amount then none else some (pool - amount)

-- The loop over the bytes that counts those that are not zero.
unfoldable pub non_zero_bytes : List ℕ → ℕ
non_zero_bytes [] = 0
non_zero_bytes (b ∷ data_bytes) = (if b == 0 then 0 else 1) + non_zero_bytes data_bytes

-- A charge per unit: the test, and the sum behind it.
unfoldable pub charge : ℕ → ℕ → ℕ → Result Error ℕ
charge gas price units =
    if ltb ((max_uint64 - gas) / price) units
    then err gas_uint_overflow
    else ok ((gas + (units * price) % 2 ^ 64) % 2 ^ 64)

-- StorageKeyCount
unfoldable pub storage_key_count : List (ℕ × List ℕ) → ℕ
storage_key_count [] = 0
storage_key_count ((_, keys) ∷ tuples) = length keys + storage_key_count tuples

-- The charge for the call data.
unfoldable pub data_gas : List ℕ → Bool → ℕ → Result Error ℕ
data_gas [] is_creation gas = ok gas
data_gas (b ∷ data_bytes) is_creation gas =
    let all = length (b ∷ data_bytes) in
    let non_zero = non_zero_bytes (b ∷ data_bytes) in
    charge gas 16 non_zero >>= λ g.
    (charge g 4 (all - non_zero) >>= λ h.
    (if is_creation then charge h 2 ((all + 31) / 32) else ok h))

-- The charge for the access list, which nothing tests.
unfoldable pub access_list_gas : List (ℕ × List ℕ) → ℕ → ℕ
access_list_gas [] gas = gas
access_list_gas (tuple ∷ tuples) gas =
    let addresses = (gas + (length (tuple ∷ tuples) * 2400) % 2 ^ 64) % 2 ^ 64 in
    (addresses + (storage_key_count (tuple ∷ tuples) * 1900) % 2 ^ 64) % 2 ^ 64

-- IntrinsicGas
unfoldable pub intrinsic_gas : List ℕ → List (ℕ × List ℕ) → Bool → Result Error ℕ
intrinsic_gas data_bytes tuples is_creation =
    data_gas data_bytes is_creation (if is_creation then 53000 else 21000) >>= λ gas.
    ok (access_list_gas tuples gas)
