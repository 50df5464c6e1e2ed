-- ===== src/Evm/Tests.antt =====
-- Gas at concrete sizes.
use padi_chain.Base.{ℕ, ◌+◌, ◌-◌, ◌/◌, ◌≤◌, ◌≡◌, refl, false, [], ◌∷◌, arith, ok, err}
use padi_chain.Base.Ints.{pos, credit}
use padi_chain.Evm.Gas.{
  gas_uint_overflow, call_gas, memory_extent, sstore_gas, clearing_refund, restoring_refund,
}
use padi_chain.Evm.Costs.{call_gas_lem, memory_extent_lem, grow_all, price_of, grow_all_lem}

call_gas_example :
    (gas : ℕ) × (call_gas 6500 100 9000 ≡ ok gas)
    × (100 + gas + (6500 - 100) / 64 ≤ 6500)
    × (gas ≤ 9000)
call_gas_example = call_gas_lem 6500 100 9000 (omega arith) (omega arith)

memory_extent_example : memory_extent 18446744073709551615 2 ≡ err gas_uint_overflow
memory_extent_example = memory_extent_lem 18446744073709551615 2

grow_all_example :
    grow_all (price_of 32) (64 ∷ 1024 ∷ 33 ∷ []) ≡ ok (price_of 1024 - price_of 32, price_of 1024)
grow_all_example =
    grow_all_lem 32 (64 ∷ 1024 ∷ 33 ∷ []) (omega arith, (omega arith, (omega arith, tt)))

-- Setting a slot that was 7 to 8 and back costs 5000 and 100, and gives 2800 back.
first_write : sstore_gas 7 7 8 false ≡ (5000, pos 0)
unfolding sstore_gas
first_write = refl

write_back : sstore_gas 7 8 7 false ≡ (100, pos 2800)
unfolding sstore_gas clearing_refund restoring_refund credit
write_back = refl
