-- ===== src/Staking/Funds.antt =====
-- staking/registry.go and staking/lifecycle.go: All and TotalStaked as sums over the indices.
use padi_chain.Base.{
  ℕ, zero, suc, ◌+◌, ◌%◌, ◌^◌, ◌≤◌, ◌<◌, ◌≡◌, refl, ◌∙◌, true, Option, none, some, List, [], ◌∷◌,
  arith, ◌==◌, ==_iff, ok, err, ◌⊎◌, inl, inr,
}
use padi_chain.Staking.Store.{Store, update}
use padi_chain.Staking.Registry.{
  not_found, Validator, unpack_core, read, get, put, append, set_index, index_of, by_address, count,
  all, all_from,
}
use padi_chain.Staking.Records.{low256}
use padi_chain.Staking.Lifecycle.{funds, total_staked}

pub get-eq-ok :
    (s : Store) (i : ℕ) {v : Validator} → get s i ≡ ok v → (i < count s) × (v ≡ read s i)
unfolding get
get-eq-ok s i h = ground arith

get_found :
    (s : Store) (o : Option ℕ) {v : Validator}
    → elim o [ none ↦ err not_found | some index ↦ get s index ] ≡ ok v
    → (i : ℕ) × (i < count s) × (v ≡ read s i)
get_found s none h = cc
get_found s (some i) h = (i, (get-eq-ok s i h).0, (get-eq-ok s i h).1)

pub by_address-eq-ok :
    (s : Store) (a : ℕ) {v : Validator}
    → by_address s a ≡ ok v
    → (i : ℕ) × (i < count s) × (v ≡ read s i)
unfolding by_address
by_address-eq-ok s a h = get_found s (index_of s a) h

pub reads : Store → ℕ → ℕ → List Validator
reads s zero i = []
reads s (suc rounds) i = read s i ∷ reads s rounds (i + 1)

all_from-reads :
    (s : Store) (rounds i : ℕ) → i + rounds ≤ count s → all_from s rounds i ≡ ok (reads s rounds i)
unfolding all_from reads get
all_from-reads s zero i h = refl
all_from-reads s (suc rounds) i h = ground (arith, all_from-reads s rounds (i + 1) (omega arith))

pub all-reads : (s : Store) → all s ≡ ok (reads s (count s) 0)
unfolding all
all-reads s = all_from-reads s (count s) 0 (omega arith)

pub sum_from : (ℕ → ℕ) → ℕ → ℕ → ℕ
sum_from f zero i = 0
sum_from f (suc rounds) i = f i + sum_from f rounds (i + 1)

sum_from-update_out :
    (f : ℕ → ℕ) (j x rounds i : ℕ) → j < i → sum_from (update f j x) rounds i ≡ sum_from f rounds i
unfolding sum_from
sum_from-update_out f j x zero i h = refl
sum_from-update_out f j x (suc rounds) i h =
    ground (arith, sum_from-update_out f j x rounds (i + 1) (omega arith))

le_cases : (a b : ℕ) → a ≤ b → (a ≡ b) ⊎ (a < b)
le_cases a b h = ground arith

sum_from-update :
    (f : ℕ → ℕ) (j x rounds i : ℕ)
    → i ≤ j
    → j < i + rounds
    → sum_from (update f j x) rounds i + f j ≡ sum_from f rounds i + x
unfolding sum_from
sum_from-update f j x zero i le lt = absurd (omega arith)
sum_from-update f j x (suc rounds) i le lt = elim (le_cases i j le) [
  | inl same ↦ ground (arith, sum_from-update_out f j x rounds (i + 1) (omega arith))
  | inr less ↦ ground (arith, sum_from-update f j x rounds (i + 1) (omega arith) (omega arith))
]

funds-reads :
    (s : Store) (rounds i : ℕ) → funds (reads s rounds i) ≡ sum_from s.balance_words rounds i
unfolding funds reads sum_from read unpack_core
funds-reads s zero i = refl
funds-reads s (suc rounds) i = ground (arith, funds-reads s rounds (i + 1))

pub staked : Store → ℕ
staked s = sum_from s.balance_words (count s) 0

pub total_staked-staked : (s : Store) → total_staked s ≡ ok (staked s)
unfolding total_staked staked
total_staked-staked s = rw (all-reads s, funds-reads s (count s) 0) refl

pub staked-put :
    (s : Store) (v : Validator)
    → v.index < count s
    → v.balance < 2 ^ 256
    → staked (put s v) + s.balance_words v.index ≡ staked s + v.balance
unfolding staked put count
staked-put s v lt small =
    sum_from-update s.balance_words v.index (v.balance % 2 ^ 256) (count s) 0 (omega arith)
      (omega (arith, lt))
    ∙ rw (low256 v.balance small) refl

-- The balance of a record is part of the sum.
pub staked-ge : (s : Store) (i : ℕ) → i < count s → s.balance_words i ≤ staked s
unfolding staked
staked-ge s i h =
    omega (arith, sum_from-update s.balance_words i 0 (count s) 0 (omega arith) (omega (arith, h)))

-- The sum reads the balances and the count alone.
pub staked-same :
    (s t : Store)
    → s.balance_words ≡ t.balance_words
    → s.count_word ≡ t.count_word
    → staked s ≡ staked t
unfolding staked count
staked-same s t words same = rw (words, same) refl

sum_from-update_past :
    (f : ℕ → ℕ) (j x rounds i : ℕ)
    → i + rounds ≤ j
    → sum_from (update f j x) rounds i ≡ sum_from f rounds i
unfolding sum_from
sum_from-update_past f j x zero i h = refl
sum_from-update_past f j x (suc rounds) i h =
    ground (arith, sum_from-update_past f j x rounds (i + 1) (omega arith))

plus_zero : (i : ℕ) → i + 0 ≡ i
plus_zero i = omega arith

plus_suc : (i n : ℕ) → i + 1 + n ≡ i + suc n
plus_suc i n = omega arith

at_zero : (n : ℕ) → (0 + n == n) ≡ true
at_zero n = (==_iff (0 + n) n).1 (omega arith)

next_count : (n : ℕ) → n + 1 < 2 ^ 64 → (n + 1) % 2 ^ 64 % 2 ^ 64 ≡ suc n
next_count n h = omega arith

sum_from_last :
    (f : ℕ → ℕ) (rounds i : ℕ) → sum_from f (suc rounds) i ≡ sum_from f rounds i + f (i + rounds)
unfolding sum_from
sum_from_last f zero i = rw (plus_zero i) omega arith
sum_from_last f (suc rounds) i = rw (sum_from_last f rounds (i + 1), plus_suc i rounds) omega arith

-- A record appended adds its balance to the sum.
pub staked-append :
    (s : Store) (v : Validator)
    → count s + 1 < 2 ^ 64
    → v.balance < 2 ^ 256
    → staked (append s v).0 ≡ staked s + v.balance
unfolding staked append put set_index count
staked-append s v room small =
    let n = s.count_word % 2 ^ 64 in
    rw
      (
        next_count n room,
        sum_from_last (update s.balance_words n (v.balance % 2 ^ 256)) n 0,
        sum_from-update_past s.balance_words n (v.balance % 2 ^ 256) n 0 (omega arith),
        at_zero n,
        low256 v.balance small,
      )
      refl
