-- ===== src/Poa/Rounds.antt =====
-- consensus/poa.go: the timing that Prepare chooses is the one VerifyHeader asks for.
use padi_chain.Base.{
  ℕ, ◌+◌, ◌-◌, ◌*◌, ◌/◌, ◌%◌, ◌^◌, ◌≤◌, ◌<◌, ◌≡◌, refl, ◌⊎◌, inl, inr, true, false, arith, leb,
  ◌==◌,
}
use native.Mathlib.Nat.{mod-lt}
use padi_chain.Poa.Engine.{Poa, earliest_time_for, round_for}

small_word : (n : ℕ) → n < 2 ^ 64 → n % 2 ^ 64 ≡ n
small_word n h = omega arith

quotient-le : (x t : ℕ) → 0 < t → x / t * t ≤ x
quotient-le x t h = grind arith

quotient-gt : (x t : ℕ) → 0 < t → x < (x / t + 1) * t
quotient-gt x t h = grind (arith, mod-lt x h)

earliest_word :
    (p : Poa) (parent_time round now : ℕ)
    → parent_time + p.period + round * p.round_timeout ≤ now
    → now < 2 ^ 64
    → earliest_time_for p parent_time round ≡ parent_time + p.period + round * p.round_timeout
unfolding earliest_time_for
earliest_word p parent_time round now le small = small_word _ (omega (arith, le))

late : (a b : ℕ) → a < b → leb b a ≡ false
late a b h = ground arith

zero_round : (a t : ℕ) → a + 0 * t ≡ a
zero_round a t = omega arith

above : (t : ℕ) → 0 < t → (t == 0) ≡ false
above t h = ground arith

one_more : (r t : ℕ) → (r + 1) * t ≡ r * t + t
one_more r t = grind arith

at_once : (a : ℕ) → leb a a ≡ true
at_once a = ground arith

cases-le : (a b : ℕ) → a ≤ b → (a ≡ b) ⊎ (a < b)
cases-le a b h = ground arith

round_for_quotient :
    (p : Poa) (parent_time now : ℕ)
    → 0 < p.round_timeout
    → parent_time + p.period < now
    → now < 2 ^ 64
    → round_for p parent_time now ≡ (now - (parent_time + p.period)) / p.round_timeout
unfolding round_for
round_for_quotient p parent_time now pos opened small =
    rw
      (
        earliest_word p parent_time 0 now (omega arith) small,
        zero_round (parent_time + p.period) p.round_timeout,
        late (parent_time + p.period) now opened,
        above (p.round_timeout) pos,
      )
      refl

-- At round 0's own second, the round is 0.
round_for_start :
    (p : Poa) (parent_time now : ℕ)
    → parent_time + p.period ≡ now
    → now < 2 ^ 64
    → round_for p parent_time now ≡ 0
unfolding round_for
round_for_start p parent_time now opened small =
    rw
      (
        earliest_word p parent_time 0 now (omega (arith, opened)) small,
        zero_round (parent_time + p.period) p.round_timeout,
        opened,
        at_once now,
      )
      refl

round_for_bounds :
    (p : Poa) (parent_time now : ℕ)
    → 0 < p.round_timeout
    → parent_time + p.period ≤ now
    → now < 2 ^ 64
    → (parent_time + p.period + round_for p parent_time now * p.round_timeout ≤ now)
      × (now
          < parent_time
            + p.period
            + (round_for p parent_time now * p.round_timeout + p.round_timeout))
round_for_bounds p parent_time now pos opened small =
    let elapsed = now - (parent_time + p.period) in
    elim (cases-le (parent_time + p.period) now opened) [
      | inl same ↦
          rw (round_for_start p parent_time now same small)
            (omega (arith, same), omega (arith, same, pos))
      | inr before ↦ rw (round_for_quotient p parent_time now pos before small) (
        omega (arith, quotient-le elapsed p.round_timeout pos, opened),
        omega (
          arith,
          quotient-gt elapsed p.round_timeout pos,
          one_more (elapsed / p.round_timeout) p.round_timeout,
          opened,
        ),
      )
    ]

-- RoundFor names the last round that has opened: at the given time it is open and the next one is
-- not; for a time at which round 0 is open, a timeout above zero, and times within 64 bits.
pub round_for_highest :
    (p : Poa) (parent_time now : ℕ)
    → 0 < p.round_timeout
    → parent_time + p.period ≤ now
    → now + p.round_timeout < 2 ^ 64
    → (earliest_time_for p parent_time (round_for p parent_time now) ≤ now)
      × (now < earliest_time_for p parent_time (round_for p parent_time now + 1))
round_for_highest p parent_time now pos opened small =
    let r = round_for p parent_time now in
    let (low, high) = round_for_bounds p parent_time now pos opened (omega (arith, small)) in
    let next = one_more r p.round_timeout in
    rw
      (
        earliest_word p parent_time r now low (omega (arith, small)),
        earliest_word p parent_time (r + 1) (now + p.round_timeout) (omega (arith, low, next))
            small,
      )
      (low, omega (arith, high, next))
