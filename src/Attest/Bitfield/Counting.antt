-- ===== src/Attest/Bitfield/Counting.antt =====
-- How many indices below a bound pass a test: the arithmetic behind quorums.
use padi_chain.Base.{
  ℕ, zero, suc, ◌+◌, ◌≤◌, ◌<◌, ◌≡◌, refl, Bool, false, ◌&&◌, List, [], ◌∷◌, ◌++◌, arith,
  if◌then◌else◌, true, ◌==◌, ==_iff, Bool-cases, inl, inr, length, length-append,
}
use padi_chain.Attest.Bitfield.Bytes.{as_number}
use native.Mathlib.Nat.{add-zero}

-- The number of `i < n` with `p i`.
unfoldable pub count_below : (ℕ → Bool) → ℕ → ℕ
count_below p zero = 0
count_below p (suc n) = count_below p n + as_number (p n)

-- The `i < n` with `p i`, in order.
unfoldable pub select_below : (ℕ → Bool) → ℕ → List ℕ
select_below p zero = []
select_below p (suc n) = select_below p n ++ (if p n then n ∷ [] else [])

pub length-select_below : (p : ℕ → Bool) (n : ℕ) → length (select_below p n) ≡ count_below p n
unfolding select_below count_below
length-select_below p zero = refl
length-select_below p (suc n) = ground (
  arith,
  length-select_below p n,
  length-append (select_below p n) (n ∷ []),
  length-append (select_below p n) [],
)

pub count_below-le : (p : ℕ → Bool) (n : ℕ) → count_below p n ≤ n
unfolding count_below
count_below-le p zero = omega arith
count_below-le p (suc n) = ground (arith, count_below-le p n)

-- Two tests that pass often enough pass together.
pub count_below_overlap :
    (p q : ℕ → Bool) (n : ℕ)
    → count_below p n + count_below q n ≤ n + count_below (λ i. p i && q i) n
unfolding count_below
count_below_overlap p q zero = omega arith
count_below_overlap p q (suc n) = ground (arith, count_below_overlap p q n)

pub count_below_disjoint :
    (p q : ℕ → Bool) (n : ℕ)
    → ((i : ℕ) → p i && q i ≡ false)
    → count_below p n + count_below q n ≤ n
unfolding count_below
count_below_disjoint p q zero h = omega arith
count_below_disjoint p q (suc n) h = ground (arith, count_below_disjoint p q n h, h n)

pub count_below_shift :
    (p : ℕ → Bool) (k n : ℕ)
    → count_below p (k + n) ≡ count_below p k + count_below (λ i. p (k + i)) n
unfolding count_below
count_below_shift p k zero = rw (add-zero k) (omega arith)
count_below_shift p k (suc n) =
    let e : k + suc n ≡ suc (k + n) = omega arith in rw e (omega (arith, count_below_shift p k n))

pub count_below_same :
    (p q : ℕ → Bool) (n : ℕ) → ((i : ℕ) → i < n → p i ≡ q i) → count_below p n ≡ count_below q n
unfolding count_below
count_below_same p q zero h = refl
count_below_same p q (suc n) h =
    rw (h n (omega arith), count_below_same p q n (λ i l. h i (omega arith))) refl

-- One more index that passes is one more to count.
pub count_below_add :
    (p : ℕ → Bool) (k n : ℕ)
    → k < n
    → p k ≡ false
    → count_below (λ i. if i == k then true else p i) n ≡ suc (count_below p n)
unfolding count_below
count_below_add p k zero h e = absurd (omega arith)
count_below_add p k (suc n) h e = elim (Bool-cases (n == k)) [
  | inl last ↦
      let same : n ≡ k = (==_iff n k).0 last in
      let before : count_below (λ i. if i == k then true else p i) n ≡ count_below p n =
        count_below_same (λ i. if i == k then true else p i) p n (λ i l. ground arith) in
      rw (before, same, e) (ground arith)
  | inr other ↦ rw other (omega (arith, count_below_add p k n (ground arith) e))
]

pub count_below_none : (n : ℕ) → count_below (λ i. false) n ≡ 0
unfolding count_below
count_below_none zero = refl
count_below_none (suc n) = omega (arith, count_below_none n)
