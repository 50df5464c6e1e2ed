-- ===== src/Evm/Costs.antt =====
-- evm/gas.go: memory is paid for once, and gas never wraps around.
use padi_chain.Base.{
  ℕ, ◌+◌, ◌-◌, ◌*◌, ◌/◌, ◌⊎◌, ◌^◌, ◌≤◌, ◌<◌, ◌≡◌, refl, inl, inr, true, false, ◌||◌, not, All, List,
  [], ◌∷◌, ltb, leb, ◌==◌, if◌then◌else◌, arith, Result, ok, err, Bool-cases, ◌>>=◌,
}
use native.Mathlib.Nat.{mul-le-mul}
use padi_chain.Evm.Gas.{
  Error, gas_uint_overflow, to_word_size, total_cost, memory_gas_cost, safe_add, is_uint64,
  memory_extent, call_gas,
}

-- safeAdd, safeMul by what they mean on numbers without a bound.
abbrev pub unless_overflow : ℕ → Result Error ℕ
unless_overflow n = if ltb n (2 ^ 64) then ok n else err gas_uint_overflow

-- safeAdd gives the sum, or an error where the sum leaves 64 bits.
pub safe_add_lem : (a b : ℕ) → a < 2 ^ 64 → b < 2 ^ 64 → safe_add a b ≡ unless_overflow (a + b)
unfolding safe_add
safe_add_lem a b ha hb = ground arith

-- memoryExtent gives the end of the range, nothing for an empty range wherever it lies, and an error
-- where the end leaves 64 bits.
pub memory_extent_lem :
    (offset size : ℕ)
    → memory_extent offset size ≡ (if size == 0 then ok 0 else unless_overflow (offset + size))
unfolding memory_extent
memory_extent_lem offset size = ground (arith, safe_add_lem offset size)

-- callGas of a gas that covers the base succeeds, leaves the caller a 64th of its gas beyond the base
-- at least, and gives at most what was asked.
pub call_gas_lem :
    (available base requested : ℕ)
    → base ≤ available
    → available < 2 ^ 64
    → (gas : ℕ) × (call_gas available base requested ≡ ok gas)
      × (base + gas + (available - base) / 64 ≤ available)
      × (gas ≤ requested)
unfolding call_gas
call_gas_lem available base requested covered small =
    let rest = available - base in
    let allowed = rest - rest / 64 in
    let due : ltb available base ≡ false = ground arith in
    elim (Bool-cases (not (is_uint64 requested) || ltb allowed requested)) [
      | inl capped ↦ (
        allowed,
        rw (call_gas, due, capped) refl,
        omega (arith, covered),
        ground (arith, capped, small),
      )
      | inr asked ↦
          (requested, rw (call_gas, due, asked) refl, ground (arith, asked, covered), omega arith)
    ]

-- The fees of growing one memory to each of some sizes in turn, added up, and lastGasCost at the end.
unfoldable pub grow_all : ℕ → List ℕ → Result Error (ℕ × ℕ)
grow_all last_gas_cost [] = ok (0, last_gas_cost)
grow_all last_gas_cost (size ∷ sizes) = memory_gas_cost last_gas_cost size >>= λ grown.
    (grow_all grown.1 sizes >>= λ rest. ok (grown.0 + rest.0, rest.1))

-- What a memory of a size costs in all, on numbers without a bound: 3 for each word of 32 bytes that is
-- begun, and a 512th of the square of their number.
abbrev pub words_of : ℕ → ℕ
words_of size = (size + 31) / 32

abbrev pub price_of : ℕ → ℕ
price_of size = words_of size * 3 + words_of size * words_of size / 512

-- The largest of some sizes and one more.
abbrev pub largest : ℕ → List ℕ → ℕ
largest size [] = size
largest size (new_size ∷ sizes) = largest (if leb new_size size then size else new_size) sizes

-- The largest size that does not overflow the fee.
abbrev pub largest_size : ℕ
largest_size = 0x1FFFFFFFE0

square_mono : (v w : ℕ) → v ≤ w → v * v / 512 ≤ w * w / 512
square_mono v w le = omega (arith, mul-le-mul le le)

price_mono : (size more : ℕ) → size ≤ more → price_of size ≤ price_of more
price_mono size more le =
    let words : words_of size ≤ words_of more = omega (arith, le) in
    omega (arith, words, square_mono (words_of size) (words_of more) words)

-- Up to the guard, no word and no product wraps around.
to_word_size-words_of : (size : ℕ) → size ≤ largest_size → to_word_size size ≡ words_of size
unfolding to_word_size
to_word_size-words_of size small = ground (arith, small)

total_cost-price_of :
    (size : ℕ) → size ≤ largest_size → total_cost (to_word_size size) ≡ price_of size
unfolding total_cost
total_cost-price_of size small =
    let few : words_of size ≤ 0xFFFFFFFF = omega (arith, small) in
    let square = mul-le-mul few few in
    rw (to_word_size-words_of size small) (omega (arith, few, square))

-- The two branches of the fee, by the higher of what was paid and what is due.
paid_difference :
    (last cost more : ℕ)
    → ((more ≡ last) × (cost ≤ last)) ⊎ ((more ≡ cost) × (last ≤ cost))
    → ◌≡◌ {A = Result Error (ℕ × ℕ)}
        (if leb cost last then ok (0, last) else ok (cost - last, cost))
        (ok (more - last, more))
paid_difference last cost more which = elim (Bool-cases (leb cost last)) [
  | inl covered ↦
      let same : more ≡ last = ground (arith, which, covered) in
      let none_due : last - last ≡ 0 = omega arith in rw (covered, same, none_due) refl
  | inr due ↦ let same : more ≡ cost = ground (arith, which, due) in rw (due, same) refl
]

-- Growing from a size that was paid costs what the larger of the two costs beyond it.
memory_gas_cost-price_of :
    (paid size : ℕ)
    → size ≤ largest_size
    → let more = if leb size paid then paid else size in
      memory_gas_cost (price_of paid) size ≡ ok (price_of more - price_of paid, price_of more)
unfolding memory_gas_cost
memory_gas_cost-price_of paid size small = elim (Bool-cases (size == 0)) [
  | inl nothing ↦
      let covered : leb size paid ≡ true = ground (arith, nothing) in
      let none_due : price_of paid - price_of paid ≡ 0 = omega arith in
      rw (memory_gas_cost, nothing, covered, none_due) refl
  | inr something ↦
      let fits : ltb largest_size size ≡ false = ground (arith, small) in
      rw (memory_gas_cost, something, fits, total_cost-price_of size small)
        (paid_difference (price_of paid) (price_of size) _ (elim (Bool-cases (leb size paid)) [
          | inl covered ↦ rw covered (inl (refl, price_mono size paid (ground (arith, covered))))
          | inr beyond ↦ rw beyond (inr (refl, price_mono paid size (ground (arith, beyond))))
        ]))
]

price-le-largest : (paid : ℕ) (sizes : List ℕ) → price_of paid ≤ price_of (largest paid sizes)
price-le-largest paid [] = omega arith
price-le-largest paid (size ∷ sizes) =
    let more = if leb size paid then paid else size in
    let raised : price_of paid ≤ price_of more = price_mono paid more (ground arith) in
    omega (arith, raised, price-le-largest more sizes)

grown_then :
    (last between top size : ℕ) (sizes : List ℕ)
    → last ≤ between
    → between ≤ top
    → memory_gas_cost last size ≡ ok (between - last, between)
    → grow_all between sizes ≡ ok (top - between, top)
    → grow_all last (size ∷ sizes) ≡ ok (top - last, top)
unfolding grow_all
grown_then last between top size sizes above below first rest =
    let fees : (between - last) + (top - between) ≡ top - last = omega (arith, above, below) in
    rw (grow_all, first, rest, fees) refl

-- However a memory whose size was paid is grown, through any sizes that the guard admits and in any
-- order, it succeeds, leaves the price of the largest size as the cost paid so far, and takes fees that
-- add up to that price less the price of the size paid before. The price is 3 for each word of 32 bytes
-- that is begun and a 512th of the square of their number, on numbers without a bound: nothing is paid
-- for twice, and nothing wraps around.
pub grow_all_lem :
    (paid : ℕ) (sizes : List ℕ)
    → All (λ size. size ≤ largest_size) sizes
    → grow_all (price_of paid) sizes
      ≡ ok (price_of (largest paid sizes) - price_of paid, price_of (largest paid sizes))
unfolding grow_all
grow_all_lem paid [] small =
    let nothing : price_of paid - price_of paid ≡ 0 = omega arith in rw nothing refl
grow_all_lem paid (size ∷ sizes) (fits, small) =
    let more = if leb size paid then paid else size in
    grown_then (price_of paid) (price_of more) (price_of (largest more sizes)) size sizes
      (price_mono paid more (ground arith)) (price-le-largest more sizes)
      (memory_gas_cost-price_of paid size fits) (grow_all_lem more sizes small)
