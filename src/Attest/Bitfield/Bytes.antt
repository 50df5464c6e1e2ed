-- ===== src/Attest/Bitfield/Bytes.antt =====
-- The bit operations of a bitfield on one byte, and their laws, each a table checked by evaluation.
use Prim.Native.Nat.{bit_and, bit_or}
use padi_chain.Base.{
  ℕ, zero, suc, ◌+◌, ◌*◌, ◌/◌, ◌^◌, ◌<◌, ◌≡◌, refl, Bool, true, false, not, ◌||◌, arith, ◌==◌,
  ==_iff, if◌then◌else◌,
}
use padi_chain.Base.{every_below, every_below_sound}

-- `x & (1 << bit) != 0`
unfoldable pub test_bit : ℕ → ℕ → Bool
test_bit x bit = not (bit_and x (2 ^ bit) == 0)

-- `x | 1 << bit`
unfoldable pub set_bit : ℕ → ℕ → ℕ
set_bit x bit = bit_or x (2 ^ bit)

-- `for by != 0 { n += int(by & 1); by >>= 1 }`: a byte has at most 8 rounds.
unfoldable pub popcount_loop : ℕ → ℕ → ℕ → ℕ
popcount_loop zero by n = n
popcount_loop (suc f) by n =
    let rest = popcount_loop f (by / 2) (n + bit_and by 1) in if by == 0 then n else rest

unfoldable pub popcount : ℕ → ℕ
popcount by = popcount_loop 8 by 0

unfoldable pub or_byte : ℕ → ℕ → ℕ
or_byte x y = bit_or x y

unfoldable pub meets : ℕ → ℕ → Bool
meets x y = not (bit_and x y == 0)

bool_eq : Bool → Bool → Bool
bool_eq true b = b
bool_eq false b = not b

bool_eq→eq : (a b : Bool) → bool_eq a b ≡ true → a ≡ b
unfolding bool_eq
bool_eq→eq true b h = ground arith
bool_eq→eq false b h = ground arith

set_table :
    every_below 256 (λ x.
      every_below 8
        (λ i. every_below 8 (λ j. bool_eq (test_bit (set_bit x i) j) ((i == j) || test_bit x j))))
    ≡ true
unfolding every_below bool_eq test_bit set_bit
set_table = refl

pub test_bit-set_bit :
    (x i j : ℕ) → x < 256 → i < 8 → j < 8 → test_bit (set_bit x i) j ≡ ((i == j) || test_bit x j)
test_bit-set_bit x i j hx hi hj =
    let at_x =
      every_below_sound 256
        (λ x.
          every_below 8 (λ i.
            every_below 8 (λ j. bool_eq (test_bit (set_bit x i) j) ((i == j) || test_bit x j))))
        x set_table hx in
    let at_i =
      every_below_sound 8
        (λ i. every_below 8 (λ j. bool_eq (test_bit (set_bit x i) j) ((i == j) || test_bit x j))) i
        at_x hi in
    bool_eq→eq _ _ (
      every_below_sound 8 (λ j. bool_eq (test_bit (set_bit x i) j) ((i == j) || test_bit x j)) j
        at_i hj)

abbrev pub as_number : Bool → ℕ
as_number true = 1
as_number false = 0

popcount_table :
    every_below 256 (λ x.
      popcount x
      == as_number (test_bit x 0)
        + as_number (test_bit x 1)
        + as_number (test_bit x 2)
        + as_number (test_bit x 3)
        + as_number (test_bit x 4)
        + as_number (test_bit x 5)
        + as_number (test_bit x 6)
        + as_number (test_bit x 7))
    ≡ true
unfolding every_below popcount popcount_loop test_bit
popcount_table = refl

pub popcount-test_bit :
    (x : ℕ)
    → x < 256
    → popcount x
      ≡ as_number (test_bit x 0)
        + as_number (test_bit x 1)
        + as_number (test_bit x 2)
        + as_number (test_bit x 3)
        + as_number (test_bit x 4)
        + as_number (test_bit x 5)
        + as_number (test_bit x 6)
        + as_number (test_bit x 7)
popcount-test_bit x h = (==_iff _ _).0 (every_below_sound 256 _ x popcount_table h)

byte_table :
    every_below 256 (λ x.
      x
      == as_number (test_bit x 0)
        + as_number (test_bit x 1) * 2
        + as_number (test_bit x 2) * 4
        + as_number (test_bit x 3) * 8
        + as_number (test_bit x 4) * 16
        + as_number (test_bit x 5) * 32
        + as_number (test_bit x 6) * 64
        + as_number (test_bit x 7) * 128)
    ≡ true
unfolding every_below test_bit
byte_table = refl

-- A byte is the sum of its bits.
pub byte-test_bit :
    (x : ℕ)
    → x < 256
    → x
      ≡ as_number (test_bit x 0)
        + as_number (test_bit x 1) * 2
        + as_number (test_bit x 2) * 4
        + as_number (test_bit x 3) * 8
        + as_number (test_bit x 4) * 16
        + as_number (test_bit x 5) * 32
        + as_number (test_bit x 6) * 64
        + as_number (test_bit x 7) * 128
byte-test_bit x h = (==_iff _ _).0 (every_below_sound 256 _ x byte_table h)
