-- ===== src/Evm/Gas.antt =====
-- evm/gas.go and evm/memory.go: the arithmetic of gas, in 64 bits. A uint256 is a number below
-- 2 ^ 256, and of a Memory only its lastGasCost is kept.
use padi_chain.Base.{
  ℕ, ◌+◌, ◌-◌, ◌*◌, ◌/◌, ◌%◌, ◌^◌, Bool, ◌||◌, not, ltb, leb, ◌==◌, if◌then◌else◌, Result, ok, err,
}
use padi_chain.Base.Ints.{ℤ, pos, negsuc, credit}

pub data Error : Type 0 where
  gas_uint_overflow out_of_gas : Error

-- `^uint64(0)`
abbrev pub max_uint64 : ℕ
max_uint64 = 2 ^ 64 - 1

-- IsUint64
abbrev pub is_uint64 : ℕ → Bool
is_uint64 n = ltb n (2 ^ 64)

-- toWordSize
unfoldable pub to_word_size : ℕ → ℕ
to_word_size size = if ltb (max_uint64 - 31) size then max_uint64 / 32 + 1 else (size + 31) / 32

-- `newWords*GasMemoryWord + newWords*newWords/512`
unfoldable pub total_cost : ℕ → ℕ
total_cost words = ((words * 3) % 2 ^ 64 + (words * words) % 2 ^ 64 / 512) % 2 ^ 64

-- memoryGasCost: the fee, and lastGasCost after it.
unfoldable pub memory_gas_cost : ℕ → ℕ → Result Error (ℕ × ℕ)
memory_gas_cost last_gas_cost new_size =
    if new_size == 0
    then ok (0, last_gas_cost)
    else (if ltb 0x1FFFFFFFE0 new_size
        then err gas_uint_overflow
        else (let new_total = total_cost (to_word_size new_size) in
            if leb new_total last_gas_cost
            then ok (0, last_gas_cost)
            else ok (new_total - last_gas_cost, new_total)))

-- safeAdd
unfoldable pub safe_add : ℕ → ℕ → Result Error ℕ
safe_add a b = let sum = (a + b) % 2 ^ 64 in if ltb sum a then err gas_uint_overflow else ok sum

-- safeMul
unfoldable pub safe_mul : ℕ → ℕ → Result Error ℕ
safe_mul a b =
    if (a == 0) || (b == 0)
    then ok 0
    else (let product = (a * b) % 2 ^ 64 in
        if product / a == b then ok product else err gas_uint_overflow)

-- memoryExtent
unfoldable pub memory_extent : ℕ → ℕ → Result Error ℕ
memory_extent offset size =
    if size == 0
    then ok 0
    else (if not (is_uint64 offset) || not (is_uint64 size)
        then err gas_uint_overflow
        else safe_add offset size)

-- callGas
unfoldable pub call_gas : ℕ → ℕ → ℕ → Result Error ℕ
call_gas available_gas base requested =
    if ltb available_gas base
    then err out_of_gas
    else (let available = available_gas - base in
        let allowed = available - available / 64 in
        if not (is_uint64 requested) || ltb allowed requested then ok allowed else ok requested)

-- The refunds of the last case of sstoreGas: for clearing a slot, or taking that back.
unfoldable pub clearing_refund : ℕ → ℕ → ℕ → ℤ
clearing_refund original current value =
    if original == 0
    then pos 0
    else (if current == 0 then negsuc 4799 else (if value == 0 then pos 4800 else pos 0))

-- For a slot that ends up where it started.
unfoldable pub restoring_refund : ℕ → ℕ → ℕ
restoring_refund original value =
    if original == value then (if original == 0 then 20000 - 100 else 5000 - 2100 - 100) else 0

-- sstoreGas: the cost, and the refund as an integer.
unfoldable pub sstore_gas : ℕ → ℕ → ℕ → Bool → ℕ × ℤ
sstore_gas original current value cold =
    let surcharge = if cold then 2100 else 0 in
    if current == value
    then (surcharge + 100, pos 0)
    else (if original == current
        then (if original == 0
            then (surcharge + 20000, pos 0)
            else (surcharge + 5000, if value == 0 then pos 4800 else pos 0))
        else (
          surcharge + 100,
          credit (clearing_refund original current value) (restoring_refund original value),
        ))
