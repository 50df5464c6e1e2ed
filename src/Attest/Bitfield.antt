-- ===== src/Attest/Bitfield.antt =====
-- core/aggregate.go: Bitfield, a slice of bytes in which bit `i % 8` of byte `i / 8` stands for
-- validator `i`. An index is not negative here.
pub mod Bytes
pub mod Counting
pub mod Laws
pub mod Canonical
use padi_chain.Base.{
  ℕ, zero, suc, ◌+◌, ◌-◌, ◌*◌, ◌/◌, ◌%◌, ◌^◌, Bool, true, false, not, ◌&&◌, ◌||◌, List, [], ◌∷◌,
  ◌++◌, ltb, leb, ◌==◌, if◌then◌else◌, length, replicate,
}
use Bytes.{test_bit, set_bit, popcount, or_byte, meets}

-- NewBitfield
unfoldable pub new_bitfield : ℕ → List ℕ
new_bitfield validators = replicate ((validators + 7) / 8) 0

-- The byte at an offset, and a write to it; out of range there is nothing to read or write.
abbrev pub has_at : List ℕ → ℕ → ℕ → Bool
has_at [] i bit = false
has_at (x ∷ b) zero bit = test_bit x bit
has_at (x ∷ b) (suc i) bit = has_at b i bit

abbrev pub set_at : List ℕ → ℕ → ℕ → List ℕ
set_at [] i bit = []
set_at (x ∷ b) zero bit = set_bit x bit ∷ b
set_at (x ∷ b) (suc i) bit = x ∷ set_at b i bit

-- Bitfield.Set: an index past the end is ignored.
unfoldable pub set_index : List ℕ → ℕ → List ℕ
set_index b index = set_at b (index / 8) (index % 8)

-- Bitfield.Has: an index past the end is not marked.
unfoldable pub has : List ℕ → ℕ → Bool
has b index = has_at b (index / 8) (index % 8)

-- Bitfield.Count
unfoldable pub count : List ℕ → ℕ
count [] = 0
count (x ∷ b) = popcount x + count b

-- Bitfield.Indices
unfoldable pub indices : List ℕ → ℕ → List ℕ
indices b zero = []
indices b (suc i) = indices b i ++ (if has b i then i ∷ [] else [])

-- Bitfield.Or
unfoldable pub or_with : List ℕ → List ℕ → List ℕ
or_with [] other = []
or_with (x ∷ b) [] = x ∷ b
or_with (x ∷ b) (y ∷ other) = or_byte x y ∷ or_with b other

-- Bitfield.Overlaps
unfoldable pub overlaps : List ℕ → List ℕ → Bool
overlaps [] other = false
overlaps (x ∷ b) [] = false
overlaps (x ∷ b) (y ∷ other) = meets x y || overlaps b other

-- `for i := validators; i < len(b)*8; i++`: no bit is marked in the `left` indices from `i` on.
unfoldable pub clear_from : List ℕ → ℕ → ℕ → Bool
clear_from b i zero = true
clear_from b i (suc left) = not (has b i) && clear_from b (i + 1) left

-- Bitfield.fits
unfoldable pub fits : List ℕ → ℕ → Bool
fits b validators =
    (length b == (validators + 7) / 8) && clear_from b validators (length b * 8 - validators)
