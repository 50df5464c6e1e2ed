-- ===== src/Base/Ints.antt =====
-- Go's big.Int where it holds a balance: a debit may pass below zero.
use padi_chain.Base.Tests.{ltb, leb, if◌then◌else◌}
use Prim.Native.Nat.{ℕ, zero, ◌+◌, ◌-◌}
use mathlib.Core.Bool.{Bool, true, false}

pub data ℤ : Type 0 where
  pos negsuc : ℕ → ℤ

unfoldable pub credit : ℤ → ℕ → ℤ
credit (pos a) amount = pos (a + amount)
credit (negsuc a) amount = if ltb a amount then pos (amount - a - 1) else negsuc (a - amount)

unfoldable pub debit : ℤ → ℕ → ℤ
debit (pos a) amount = if leb amount a then pos (a - amount) else negsuc (amount - a - 1)
debit (negsuc a) amount = negsuc (a + amount)

-- `Sign() == 0`
abbrev pub is_zero : ℤ → Bool
is_zero (pos zero) = true
is_zero _ = false
