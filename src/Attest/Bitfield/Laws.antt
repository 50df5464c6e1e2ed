-- ===== src/Attest/Bitfield/Laws.antt =====
-- A bitfield against the set of indices that it marks.
use padi_chain.Base.{
  ℕ, zero, suc, ◌+◌, ◌*◌, ◌/◌, ◌%◌, ◌<◌, ◌≡◌, refl, sym, ap, ap₂, ◌∙◌, Bool, true, false, ◌&&◌,
  ◌||◌, List, [], ◌∷◌, ◌++◌, arith, ltb, ◌==◌, ==_iff, if◌then◌else◌, length, All, Bool-cases, inl,
  inr,
}
use padi_chain.Rlp.Uint.{IsByte}
use padi_chain.Attest.Bitfield.Bytes.{test_bit, popcount, test_bit-set_bit, popcount-test_bit}
use padi_chain.Attest.Bitfield.Counting.{
  count_below, select_below, length-select_below, count_below_shift, count_below_same,
}
use padi_chain.Attest.Bitfield.{has_at, set_at, set_index, has, count, indices}

has_at-set_at :
    (b : List ℕ) (i j k l : ℕ)
    → All IsByte b
    → k < 8
    → l < 8
    → has_at (set_at b i k) j l
      ≡ (if (ltb i (length b)) && ((i == j) && (k == l)) then true else has_at b j l)
has_at-set_at [] i j k l h hk hl = ground arith
has_at-set_at (x ∷ b) zero zero k l h hk hl = ground (arith, test_bit-set_bit x k l h.0 hk hl)
has_at-set_at (x ∷ b) zero (suc j) k l h hk hl = ground arith
has_at-set_at (x ∷ b) (suc i) zero k l h hk hl = ground arith
has_at-set_at (x ∷ b) (suc i) (suc j) k l h hk hl =
    ground (arith, has_at-set_at b i j k l h.1 hk hl)

-- Set marks its index, if there is room for it, and no other.
pub has-set_index :
    (b : List ℕ) (i j : ℕ)
    → All IsByte b
    → has (set_index b i) j ≡ (if (ltb i (8 * length b)) && (i == j) then true else has b j)
unfolding has set_index
has-set_index b i j h = ground (arith, has_at-set_at b (i / 8) (j / 8) (i % 8) (j % 8) h)

pub has_head : (x : ℕ) (b : List ℕ) (i : ℕ) → i < 8 → has (x ∷ b) i ≡ test_bit x i
unfolding has
has_head x b i h =
    let q : i / 8 ≡ 0 = omega arith in let r : i % 8 ≡ i = omega arith in rw (q, r) refl

pub has_tail : (x : ℕ) (b : List ℕ) (i : ℕ) → has (x ∷ b) (8 + i) ≡ has b i
unfolding has
has_tail x b i =
    let q : (8 + i) / 8 ≡ suc (i / 8) = omega arith in
    let r : (8 + i) % 8 ≡ i % 8 = omega arith in rw (q, r) refl

pub indices-select : (b : List ℕ) (n : ℕ) → indices b n ≡ select_below (has b) n
unfolding indices select_below
indices-select b zero = refl
indices-select b (suc n) = ap (λ t. t ++ (if has b n then n ∷ [] else [])) (indices-select b n)

first_byte : (x : ℕ) (b : List ℕ) → x < 256 → count_below (has (x ∷ b)) 8 ≡ popcount x
unfolding count_below
first_byte x b h =
    count_below_same (has (x ∷ b)) (test_bit x) 8 (has_head x b)
    ∙ omega (arith, popcount-test_bit x h)

count-count_below : (b : List ℕ) → All IsByte b → count b ≡ count_below (has b) (8 * length b)
unfolding count count_below
count-count_below [] h = refl
count-count_below (x ∷ b) h =
    let e : 8 * length (x ∷ b) ≡ 8 + 8 * length b = omega arith in
    rw (e, count_below_shift (has (x ∷ b)) 8 (8 * length b))
      (ap₂ (λ u v. u + v) (sym (first_byte x b h.0))
        (count-count_below b h.1
          ∙ count_below_same (has b) (λ i. has (x ∷ b) (8 + i)) (8 * length b)
              (λ i l. sym (has_tail x b i))))

-- Count is the number of indices that Indices lists.
pub count-indices : (b : List ℕ) → All IsByte b → count b ≡ length (indices b (8 * length b))
count-indices b h =
    rw indices-select (count-count_below b h ∙ sym (length-select_below (has b) (8 * length b)))

-- Which indices a list holds.
unfoldable pub holds : ℕ → List ℕ → Bool
holds i [] = false
holds i (j ∷ l) = (i == j) || holds i l

holds-append : (i : ℕ) (l m : List ℕ) → holds i (l ++ m) ≡ (holds i l || holds i m)
unfolding holds
holds-append i [] m = refl
holds-append i (j ∷ l) m = ground (arith, holds-append i l m)

holds-select_below : (p : ℕ → Bool) (n i : ℕ) → holds i (select_below p n) ≡ (ltb i n && p i)
unfolding holds select_below
holds-select_below p zero i = ground arith
holds-select_below p (suc n) i = elim (Bool-cases (i == n)) [
  | inl same ↦
      let e : i ≡ n = (==_iff i n).0 same in
      rw (holds-append, holds-select_below p n i, e)
        (elim (p n)
          as (λ t. ((ltb n n && t) || holds n (if t then n ∷ [] else [])) ≡ (ltb n (suc n) && t)) [
            | true ↦ ground arith
            | false ↦ ground arith
          ])
  | inr other ↦ rw (holds-append, holds-select_below p n i) (ground arith)
]

-- Indices lists exactly the marked indices below its limit.
pub holds-indices : (b : List ℕ) (n i : ℕ) → holds i (indices b n) ≡ (ltb i n && has b i)
holds-indices b n i = rw indices-select (holds-select_below (has b) n i)
