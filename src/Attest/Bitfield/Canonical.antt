-- ===== src/Attest/Bitfield/Canonical.antt =====
-- A bitfield that fits its validator set is determined by the indices that it marks.
use padi_chain.Base.{
  ℕ, zero, suc, ◌+◌, ◌-◌, ◌*◌, ◌/◌, ◌≤◌, ◌<◌, ◌≡◌, refl, sym, ap, ap₂, ◌∙◌, true, false, List, [],
  ◌∷◌, arith, ltb, ◌==◌, ==_iff, length, All, Bool-cases, inl, inr, lt→ltb, ltb→lt,
}
use padi_chain.Rlp.Uint.{IsByte}
use padi_chain.Attest.Bitfield.Bytes.{test_bit, byte-test_bit}
use padi_chain.Attest.Bitfield.{has, indices, clear_from, fits}
use padi_chain.Attest.Bitfield.Laws.{has_head, has_tail, holds, holds-indices}

same_bits : (x y : ℕ) → x < 256 → y < 256 → ((i : ℕ) → i < 8 → test_bit x i ≡ test_bit y i) → x ≡ y
same_bits x y hx hy h =
    byte-test_bit x hx
    ∙ rw
        (
          h 0 (omega arith),
          h 1 (omega arith),
          h 2 (omega arith),
          h 3 (omega arith),
          h 4 (omega arith),
          h 5 (omega arith),
          h 6 (omega arith),
          h 7 (omega arith),
        )
        (sym (byte-test_bit y hy))

same_has :
    (a b : List ℕ)
    → All IsByte a
    → All IsByte b
    → length a ≡ length b
    → ((i : ℕ) → i < 8 * length a → has a i ≡ has b i)
    → a ≡ b
same_has [] [] ha hb l h = refl
same_has [] (y ∷ b) ha hb l h = absurd (omega arith)
same_has (x ∷ a) [] ha hb l h = absurd (omega arith)
same_has (x ∷ a) (y ∷ b) ha hb l h =
    ap₂ (λ u v. u ∷ v)
      (same_bits x y ha.0 hb.0
        (λ i hi. sym (has_head x a i hi) ∙ h i (omega arith) ∙ has_head y b i hi))
      (same_has a b ha.1 hb.1 (omega arith)
        (λ i hi. sym (has_tail x a i) ∙ h (8 + i) (omega arith) ∙ has_tail y b i))

clear_from-has :
    (b : List ℕ) (i left j : ℕ)
    → clear_from b i left ≡ true
    → i ≤ j
    → j < i + left
    → has b j ≡ false
unfolding clear_from
clear_from-has b i zero j e lo hi = absurd (omega arith)
clear_from-has b i (suc left) j e lo hi = elim (Bool-cases (i == j)) [
  | inl same ↦ let eq : i ≡ j = (==_iff i j).0 same in rw (← eq) (ground arith)
  | inr other ↦ clear_from-has b (i + 1) left j (ground arith) (ground arith) (omega arith)
]

-- Past the end of the set nothing is marked.
fits-has : (b : List ℕ) (n i : ℕ) → fits b n ≡ true → n ≤ i → i < 8 * length b → has b i ≡ false
unfolding fits
fits-has b n i e lo hi = clear_from-has b n (length b * 8 - n) i (ground arith) lo (omega arith)

fits-length : (b : List ℕ) (n : ℕ) → fits b n ≡ true → length b ≡ (n + 7) / 8
unfolding fits
fits-length b n e = ground arith

holds-has : (b : List ℕ) (n i : ℕ) → i < n → holds i (indices b n) ≡ has b i
holds-has b n i h = rw (holds-indices b n i, lt→ltb i n h) refl

-- Two bitfields that fit the same set and list the same indices are the same bytes.
pub fits_unique :
    (a b : List ℕ) (validators : ℕ)
    → All IsByte a
    → All IsByte b
    → fits a validators ≡ true
    → fits b validators ≡ true
    → indices a validators ≡ indices b validators
    → a ≡ b
fits_unique a b n ha hb fa fb e = same_has a b ha hb lengths (λ i h. elim (Bool-cases (ltb i n)) [
  | inl below ↦
      let l = ltb→lt i n below in sym (holds-has a n i l) ∙ ap (holds i) e ∙ holds-has b n i l
  | inr above ↦
      let l : n ≤ i = ground arith in
      fits-has a n i fa l h ∙ sym (fits-has b n i fb l (omega (arith, lengths)))
])
  where
    lengths : length a ≡ length b
    lengths = fits-length a n fa ∙ sym (fits-length b n fb)
