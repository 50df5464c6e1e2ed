-- ===== src/Staking/Proposer.antt =====
-- staking/registry.go: ProposerAt, the choice of a proposer by stake.
use padi_chain.Base.{
  ℕ, ◌+◌, ◌-◌, ◌%◌, ◌^◌, ◌≤◌, ◌<◌, ◌≡◌, refl, ap, Bool-cases, ltb→lt, inl, inr, false, List, [],
  ◌∷◌, ◌++◌, none, some, arith, ltb, ◌==◌, if◌then◌else◌, length, get_elem?, ok, err, panic, ◌>>=◌,
}
use mathlib.Core.Path.{subst}
use native.Mathlib.Nat.{mod-lt}
use padi_chain.Staking.Store.{Store}
use padi_chain.Staking.Registry.{not_found, Outcome, Validator, active_at, stake}

-- The loop that adds up the stake until it passes the target; behind it, the last validator.
unfoldable pub pick : ℕ → ℕ → Validator → List Validator → ℕ
pick target cumulative last [] = last.address
pick target cumulative last (v ∷ rest) =
    let later = pick target (cumulative + v.effective_balance) v rest in
    if ltb target (cumulative + v.effective_balance) then v.address else later

-- Keccak256 of the seed, the slot and the round, as a number.
module _ (keccak : ℕ → ℕ → ℕ → ℕ) where
  unfoldable pub choose : ℕ → ℕ → ℕ → List Validator → Outcome ℕ
  choose seed slot round [] = err not_found
  choose seed slot round (v ∷ rest) =
      let active = v ∷ rest in
      if stake active == 0
      then elim (get_elem? active ((slot + round) % 2 ^ 64 % length active)) [
        | none ↦ panic
        | some w ↦ ok w.address
      ]
      else ok (pick (keccak seed slot round % stake active) 0 v active)

  -- ProposerAt
  unfoldable pub proposer_at : Store → ℕ → ℕ → ℕ → ℕ → Outcome ℕ
  proposer_at s epoch seed slot round = do active ← active_at s epoch; choose seed slot round active

-- Where the target falls: the validators in front hold no more than it, and with the one picked
-- they hold more.
abbrev pub IsShare : ℕ → List Validator → ℕ → Type 0
IsShare target active proposer =
    (before : List Validator) × (v : Validator) × (after : List Validator) × (active
      ≡ before ++ (v ∷ after))
    × (proposer ≡ v.address)
    × (stake before ≤ target)
    × (target < stake before + v.effective_balance)

ltb→ge : (a b : ℕ) → ltb a b ≡ false → b ≤ a
ltb→ge a b h = ground arith

minus_zero : (n : ℕ) → n - 0 ≡ n
minus_zero n = omega arith

positive : (n : ℕ) → 0 < n → (n == 0) ≡ false
positive n h = ground arith

pick-IsShare :
    (target cumulative : ℕ) (last : Validator) (vs : List Validator)
    → cumulative ≤ target
    → target < cumulative + stake vs
    → IsShare (target - cumulative) vs (pick target cumulative last vs)
unfolding pick stake
pick-IsShare target cumulative last [] le lt = absurd (omega arith)
pick-IsShare target cumulative last (v ∷ rest) le lt =
    elim (Bool-cases (ltb target (cumulative + v.effective_balance))) [
      | inl here ↦ (
        [],
        v,
        rest,
        refl,
        rw here refl,
        omega arith,
        omega (arith, ltb→lt target (cumulative + v.effective_balance) here, le),
      )
      | inr later ↦
          let past = ltb→ge target (cumulative + v.effective_balance) later in
          let (before, w, after, split, at, low, high) =
            pick-IsShare target (cumulative + v.effective_balance) v rest past
              (omega (arith, lt)) in
          (
            v ∷ before,
            w,
            after,
            ap (λ xs. v ∷ xs) split,
            rw later at,
            omega (arith, low, past),
            omega (arith, high, past),
          )
    ]

-- While there is stake, the proposer of a slot and round is the active validator in whose share of
-- the stake, taken in the order of the indices, the drawn number modulo the stake falls.
pub proposer_at-IsShare :
    (keccak : ℕ → ℕ → ℕ → ℕ) (s : Store) (epoch seed slot round : ℕ) (active : List Validator)
    → active_at s epoch ≡ ok active
    → 0 < stake active
    → (proposer : ℕ) × (proposer_at keccak s epoch seed slot round ≡ ok proposer)
      × IsShare (keccak seed slot round % stake active) active proposer
unfolding proposer_at choose stake
proposer_at-IsShare keccak s epoch seed slot round [] at some_stake = absurd (omega arith)
proposer_at-IsShare keccak s epoch seed slot round (v ∷ rest) at some_stake =
    let target = keccak seed slot round % stake (v ∷ rest) in
    (
      pick target 0 v (v ∷ rest),
      rw (at, positive (stake (v ∷ rest)) some_stake) refl,
      subst (λ t. IsShare t (v ∷ rest) (pick target 0 v (v ∷ rest))) (minus_zero target)
          (pick-IsShare target 0 v (v ∷ rest) (omega arith)
            (omega (arith, mod-lt (keccak seed slot round) some_stake))),
    )
