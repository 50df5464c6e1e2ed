-- ===== src/Poa/Sealing.antt =====
-- consensus/poa.go: what VerifyHeader accepts, and that it accepts what Prepare and Seal make.
use padi_chain.Base.{
  ℕ, ◌+◌, ◌%◌, ◌^◌, ◌≤◌, ◌≡◌, refl, sym, ap, ap₂, ◌∙◌, Bool, true, false, Option, none, some, leb,
  ◌==◌, ==_iff, length, arith, inl, inr, Option-cases, Result, ok, ◌>>=◌, ◌>>◌, >>=-eq-ok,
}
use padi_chain.Poa.Engine.{
  Poa, Error, unauthorized_proposer, wrong_proposer_turn, future_block, timestamp_too_early,
  unknown_parent, invalid_number, extra_data_too_long, round_too_high, coinbase_mismatch, set_for,
  is_validator_at, proposer_at_round, earliest_time_for,
}
use padi_chain.Poa.Headers.{
  Header, Secp, number_u64, require, expect, hash, author, verify_turn, verify_proposer,
  verify_timing, verify_numbered, verify_header,
}

require-true : (test : Bool) (e : Error) {u : Unit {0}} → require test e ≡ ok u → test ≡ true
unfolding require
require-true true e h = refl
require-true false e h = absurd (cc h)

pub required :
    {A : Type 0} (test : Bool) (e : Error) (next : Result Error A) {a : A}
    → (require test e >> next) ≡ ok a
    → (test ≡ true) × (next ≡ ok a)
unfolding require
required true e next h = (refl, h)
required false e next h = absurd (cc h)

pub expect-some {ℓ} :
    {A : Type ℓ} (x : Option A) (e : Error) {a : A} → expect x e ≡ ok a → x ≡ some a
unfolding expect
expect-some none e h = absurd (cc h)
expect-some (some a) e h = cc h

pub ok_inj {ℓ} : {A : Type ℓ} {x y : A} → ◌≡◌ {A = Result Error A} (ok x) (ok y) → x ≡ y
ok_inj h = cc h

leb_le : (a b : ℕ) → leb a b ≡ true → a ≤ b
leb_le a b h = ground arith

pub le_leb : (a b : ℕ) → a ≤ b → leb a b ≡ true
le_leb a b h = ground arith

pub same_number : (a b : ℕ) → a ≡ b → (a == b) ≡ true
same_number a b h = (==_iff a b).1 h

module _ (c : Secp) (p : Poa) where
  -- What an accepted header is, beside its parent.
  pub record IsFollowing (now : ℕ) (h parent : Header) : Type 0 where
    pub number_follows : (n : ℕ) × (parent.number ≡ some n) × (h.number ≡ some (n + 1))
    pub parent_named : h.parent_hash ≡ hash c parent
    pub extra_short : length h.extra ≤ 32
    pub round_small : h.round ≤ length (set_for p (number_u64 h))
    pub round_open : earliest_time_for p parent.time h.round ≤ h.time
    pub not_ahead : h.time ≤ (now + 15) % 2 ^ 64
    pub sealed_by : author c h ≡ ok h.coinbase
    pub in_set : is_validator_at p h.coinbase (number_u64 h) ≡ true
    pub has_turn : proposer_at_round p (number_u64 h) h.round ≡ ok h.coinbase

  turn_taken :
      (h : Header) (proposer expected : ℕ)
      → verify_turn c p h proposer expected ≡ ok tt
      → (proposer ≡ expected) × (h.coinbase ≡ proposer)
  unfolding verify_turn
  turn_taken h proposer expected accepted =
      let (t1, r1) =
        required (proposer == expected) wrong_proposer_turn
          (require (h.coinbase == proposer) coinbase_mismatch) accepted in
      (
        (==_iff proposer expected).0 t1,
        (==_iff h.coinbase proposer).0 (require-true (h.coinbase == proposer) coinbase_mismatch r1),
      )

  proposer_right :
      (h : Header) (proposer : ℕ)
      → verify_proposer c p h proposer ≡ ok tt
      → (h.coinbase ≡ proposer)
        × (is_validator_at p proposer (number_u64 h) ≡ true)
        × (proposer_at_round p (number_u64 h) h.round ≡ ok proposer)
  unfolding verify_proposer
  proposer_right h proposer accepted =
      let turn = proposer_at_round p (number_u64 h) h.round in
      let (t1, r1) =
        required (is_validator_at p proposer (number_u64 h)) unauthorized_proposer
          (turn >>= verify_turn c p h proposer) accepted in
      let (expected, is, r2) = >>=-eq-ok turn (verify_turn c p h proposer) r1 in
      let (same, coinbase_is) = turn_taken h proposer expected r2 in
      (coinbase_is, t1, is ∙ ap ok (sym same))

  timing_right :
      (now : ℕ) (h : Header) (parent_time : ℕ)
      → verify_timing c p now h parent_time ≡ ok tt
      → (h.round ≤ length (set_for p (number_u64 h)))
        × (earliest_time_for p parent_time h.round ≤ h.time)
        × (h.time ≤ (now + 15) % 2 ^ 64)
        × (author c h ≡ ok h.coinbase)
        × (is_validator_at p h.coinbase (number_u64 h) ≡ true)
        × (proposer_at_round p (number_u64 h) h.round ≡ ok h.coinbase)
  unfolding verify_timing number_u64
  timing_right now h parent_time accepted =
      let last = author c h >>= verify_proposer c p h in
      let limit = (now + 15) % 2 ^ 64 in
      let earliest = earliest_time_for p parent_time h.round in
      let next2 = require (leb h.time limit) future_block >> last in
      let (t1, r1) =
        required (leb h.round (length (set_for p (number_u64 h)))) round_too_high
          (require (leb earliest h.time) timestamp_too_early >> next2) accepted in
      let (t2, r2) = required (leb earliest h.time) timestamp_too_early next2 r1 in
      let (t3, r3) = required (leb h.time limit) future_block last r2 in
      let (proposer, is, r4) = >>=-eq-ok (author c h) (verify_proposer c p h) r3 in
      let (coinbase_is, member, turn) = proposer_right h proposer r4 in
      (
        leb_le _ _ t1,
        leb_le _ _ t2,
        leb_le _ _ t3,
        is ∙ ap ok (sym coinbase_is),
        rw coinbase_is member,
        turn ∙ ap ok (sym coinbase_is),
      )

  numbered-IsFollowing :
      (now : ℕ) (h parent : Header) (number n : ℕ)
      → h.number ≡ some number
      → parent.number ≡ some n
      → verify_numbered c p now h parent number n ≡ ok tt
      → IsFollowing now h parent
  unfolding verify_numbered
  numbered-IsFollowing now h parent number n here there accepted =
      let last = verify_timing c p now h parent.time in
      let next2 = require (leb (length h.extra) 32) extra_data_too_long >> last in
      let (t1, r1) =
        required (number == n + 1) invalid_number
          (require (h.parent_hash == hash c parent) unknown_parent >> next2) accepted in
      let (t2, r2) = required (h.parent_hash == hash c parent) unknown_parent next2 r1 in
      let (t3, r3) = required (leb (length h.extra) 32) extra_data_too_long last r2 in
      let (small, open_round, ahead, sealed, member, turn) = timing_right now h parent.time r3 in
      record {
        number_follows = (n, there, here ∙ ap some ((==_iff number (n + 1)).0 t1));
        parent_named = (==_iff h.parent_hash (hash c parent)).0 t2;
        extra_short = leb_le _ _ t3;
        round_small = small;
        round_open = open_round;
        not_ahead = ahead;
        sealed_by = sealed;
        in_set = member;
        has_turn = turn;
      }

  -- A header that VerifyHeader accepts has the number after its parent's, names its parent by hash,
  -- is sealed by its coinbase, which is in the set at its height and has the turn of its round, and
  -- is not before its round opens nor more than 15 seconds ahead of the clock.
  pub verify_header-IsFollowing :
      (now : ℕ) (h parent : Header)
      → verify_header c p now h (some parent) ≡ ok tt
      → IsFollowing now h parent
  unfolding verify_header
  verify_header-IsFollowing now h parent accepted = elim (Option-cases h.number) [
    | inl absent ↦ absurd (cc (rw (verify_header, absent) at accepted))
    | inr (number, here) ↦ elim (Option-cases parent.number) [
      | inl absent ↦ absurd (cc (rw (verify_header, here, absent) at accepted))
      | inr (n, there) ↦
          numbered-IsFollowing now h parent number n here there
            (rw (verify_header, here, there) at accepted)
    ]
  ]

  -- Two accepted headers of one height and one round are by the same validator.
  pub verify_header_one_proposer :
      (now later : ℕ) (h k parent parent' : Header)
      → verify_header c p now h (some parent) ≡ ok tt
      → verify_header c p later k (some parent') ≡ ok tt
      → number_u64 h ≡ number_u64 k
      → h.round ≡ k.round
      → (author c h ≡ ok h.coinbase) × (author c k ≡ ok h.coinbase)
  verify_header_one_proposer now later h k parent parent' first second height round =
      let f = verify_header-IsFollowing now h parent first in
      let g = verify_header-IsFollowing later k parent' second in
      let turns = ap₂ (λ n r. proposer_at_round p n r) height round in
      let same = ok_inj (sym f.has_turn ∙ (turns ∙ g.has_turn)) in
      (f.sealed_by, g.sealed_by ∙ ap ok (sym same))
