-- ===== src/Staking/Conservation.antt =====
-- staking/lifecycle.go: the staking account holds the sum of the validators' balances.
use padi_chain.Base.{
  ℕ, ◌+◌, ◌-◌, ◌/◌, ◌^◌, ◌≤◌, ◌<◌, ◌≡◌, refl, ap, sym, ◌∙◌, ◌≢◌, Bool, true, false, not, ◌||◌,
  arith, ◌==◌, ok, err, panic, ◌>>◌, ◌⊎◌, inl, inr, >>=-eq-ok,
}
use mathlib.Core.Path.{subst}
use padi_chain.Staking.Params.{slash_penalty_quotient}
use padi_chain.Base.Ints.{ℤ, pos, negsuc, debit}
use padi_chain.Staking.Store.{Store, staking_address, add_balance, sub_balance}
use padi_chain.Staking.Registry.{
  Error, already_slashed, left_the_set, status_slashed, status_exited, status_withdrawn, Outcome,
  Validator, unpack_core, read, put, append, set_index, add_slashed_stake, save_epoch_state,
  by_address, count,
}
use padi_chain.Staking.Records.{other_test}
use padi_chain.Staking.Funds.{
  staked, staked-put, staked-ge, staked-same, staked-append, total_staked-staked, by_address-eq-ok,
}
use padi_chain.Staking.Lifecycle.{
  guard, has_left, at_most, with_balance, new_validator, top_up, first_deposit, deposit,
  schedule_exit, exit_active, exit_pending, exit_of, request_exit, slash_now, slash_of, slash,
  withdraw_now, withdraw_of, withdraw, total_staked,
}

-- The staking account holds the validators' balances and a surplus, all of it in 256 bits.
abbrev pub IsBacked : Store → ℕ → Type 0
IsBacked s surplus =
    (total : ℕ) × (total_staked s ≡ ok total)
    × (s.accounts staking_address ≡ pos (total + surplus))
    × (total + surplus < 2 ^ 256)

ok_injective {ℓ} : {A : Type ℓ} {a b : A} → ◌≡◌ {A = Outcome A} (ok a) (ok b) → a ≡ b
ok_injective h = cc

opened :
    (s : Store) (x : ℕ)
    → IsBacked s x
    → (s.accounts staking_address ≡ pos (staked s + x)) × (staked s + x < 2 ^ 256)
opened s x (total, is, held, small) =
    let same = ok_injective (sym is ∙ total_staked-staked s) in
    (held ∙ ap (λ t. pos (t + x)) same, omega (arith, same, small))

closed :
    (s : Store) (x a : ℕ)
    → s.accounts staking_address ≡ pos a
    → a ≡ staked s + x
    → a < 2 ^ 256
    → IsBacked s x
closed s x a held is small =
    (staked s, total_staked-staked s, held ∙ ap pos is, omega (arith, is, small))

pub debit-pos : (a amount : ℕ) → amount ≤ a → debit (pos a) amount ≡ pos (a - amount)
unfolding debit
debit-pos a amount h = ground arith

guards-eq-ok {ℓ} :
    {A : Type ℓ} (b c : Bool) (e d : Error) (y : A) {r : A}
    → (guard b e >> (guard c d >> ok y)) ≡ ok r
    → y ≡ r
guards-eq-ok true true e d y h = ok_injective h
guards-eq-ok true false e d y h = cc
guards-eq-ok false c e d y h = cc

at_most-le : (a b : ℕ) → at_most a b ≤ b
unfolding at_most
at_most-le a b = ground arith

-- A record put, and the account set to what the balances then are.
rebacked :
    (s s' : Store) (v : Validator) (x a : ℕ)
    → v.index < count s
    → v.balance < 2 ^ 256
    → s'.balance_words ≡ (put s v).balance_words
    → s'.count_word ≡ (put s v).count_word
    → s'.accounts staking_address ≡ pos a
    → a + s.balance_words v.index ≡ staked s + v.balance + x
    → a < 2 ^ 256
    → IsBacked s' x
rebacked s s' v x a lt small words same held is a_small =
    closed s' x a held
      (omega (arith, staked-put s v lt small, staked-same s' (put s v) words same, is)) a_small

burned :
    (s s' : Store) (v : Validator) (x penalty : ℕ)
    → v.index < count s
    → v.balance + penalty ≡ s.balance_words v.index
    → s'.balance_words ≡ (put s v).balance_words
    → s'.count_word ≡ (put s v).count_word
    → s'.accounts staking_address ≡ debit (s.accounts staking_address) penalty
    → IsBacked s x
    → IsBacked s' x
burned s s' v x penalty lt is words same held backed =
    let o = opened s x backed in
    let ge = staked-ge s v.index lt in
    rebacked s s' v x (staked s + x - penalty) lt (omega (arith, o.1, ge, is)) words same
      (held
        ∙ ap (λ z. debit z penalty) o.0
        ∙ debit-pos (staked s + x) penalty (omega (arith, ge, is)))
      (omega (arith, ge, is)) (omega (arith, o.1))

slash_now-IsBacked :
    (s : Store) (epoch : ℕ) (v : Validator) (x : ℕ)
    → v.index < count s
    → v.balance ≡ s.balance_words v.index
    → IsBacked s x
    → IsBacked (slash_now s epoch v).0 x
unfolding slash_now with_balance add_slashed_stake sub_balance put
slash_now-IsBacked s epoch v x lt is backed =
    let penalty = at_most (v.effective_balance / slash_penalty_quotient) v.balance in
    burned s (slash_now s epoch v).0 (slash_now s epoch v).1 x penalty lt
      (omega (arith, is, at_most-le (v.effective_balance / slash_penalty_quotient) v.balance)) refl
      refl refl backed

slash_of-IsBacked :
    (s : Store) (epoch : ℕ) (v : Validator) (x : ℕ) {r : Store × Validator × ℕ}
    → v.index < count s
    → v.balance ≡ s.balance_words v.index
    → IsBacked s x
    → slash_of s epoch v ≡ ok r
    → IsBacked r.0 x
unfolding slash_of
slash_of-IsBacked s epoch v x lt is backed h =
    subst (λ r. IsBacked r.0 x)
      (guards-eq-ok (not (v.status == status_slashed))
        (not ((v.status == status_exited) || (v.status == status_withdrawn))) already_slashed
        left_the_set (slash_now s epoch v) h)
      (slash_now-IsBacked s epoch v x lt is backed)

-- A loaded record has the index and the balance of its place.
loaded :
    (s : Store) (a : ℕ) {v : Validator}
    → by_address s a ≡ ok v
    → (v.index < count s) × (v.balance ≡ s.balance_words v.index)
unfolding read unpack_core
loaded s a h =
    let (i, lt, is) = by_address-eq-ok s a h in
    subst (λ v. (v.index < count s) × (v.balance ≡ s.balance_words v.index)) (sym is) (lt, refl)

-- If the staking account holds the sum of the validators' balances and a surplus, all in 256 bits,
-- it does so with the same surplus after every slashing that succeeds.
pub slash-IsBacked :
    (s : Store) (validator epoch surplus : ℕ) {r : Store × Validator × ℕ}
    → IsBacked s surplus
    → slash s validator epoch ≡ ok r
    → IsBacked r.0 surplus
unfolding slash
slash-IsBacked s validator epoch surplus backed h =
    let (v, at, h') = >>=-eq-ok (by_address s validator) (slash_of s epoch) h in
    let l = loaded s validator at in slash_of-IsBacked s epoch v surplus l.0 l.1 backed h'

withdraw_now-IsBacked :
    (s : Store) (v : Validator) (x : ℕ)
    → v.index < count s
    → v.balance ≡ s.balance_words v.index
    → v.withdrawal_address ≢ staking_address
    → IsBacked s x
    → IsBacked (withdraw_now s v).0 x
unfolding withdraw_now add_balance sub_balance put
withdraw_now-IsBacked s v x lt is ne backed =
    burned s (withdraw_now s v).0
      (record v { balance = 0; effective_balance = 0; status = status_withdrawn }) x v.balance lt
      (omega (arith, is)) refl refl
      (rw (other_test staking_address v.withdrawal_address (λ e. ne (sym e))) refl) backed

withdraw_of-eq-ok :
    (s : Store) (epoch : ℕ) (v : Validator) {r : Store × ℕ}
    → withdraw_of s epoch v ≡ ok r
    → withdraw_now s v ≡ r
unfolding withdraw_of
withdraw_of-eq-ok s epoch v h = ground arith

withdraw_of-IsBacked :
    (s : Store) (epoch : ℕ) (v : Validator) (x : ℕ) {r : Store × ℕ}
    → v.index < count s
    → v.balance ≡ s.balance_words v.index
    → v.withdrawal_address ≢ staking_address
    → IsBacked s x
    → withdraw_of s epoch v ≡ ok r
    → IsBacked r.0 x
withdraw_of-IsBacked s epoch v x lt is ne backed h =
    subst (λ r. IsBacked r.0 x) (withdraw_of-eq-ok s epoch v h)
      (withdraw_now-IsBacked s v x lt is ne backed)

-- If the staking account holds the sum of the validators' balances and a surplus, all in 256 bits,
-- it does so with the same surplus after every withdrawal that succeeds, for a withdrawal address
-- other than the staking account.
pub withdraw-IsBacked :
    (s : Store) (validator epoch surplus : ℕ) {v : Validator} {r : Store × ℕ}
    → IsBacked s surplus
    → by_address s validator ≡ ok v
    → v.withdrawal_address ≢ staking_address
    → withdraw s validator epoch ≡ ok r
    → IsBacked r.0 surplus
unfolding withdraw
withdraw-IsBacked s validator epoch surplus {v} {r} backed at ne h =
    let l = loaded s validator at in
    withdraw_of-IsBacked s epoch v surplus l.0 l.1 ne backed (rw at at h)

debit_zero : (z : ℤ) → z ≡ debit z 0
unfolding debit
debit_zero (pos a) = ground arith
debit_zero (negsuc a) = ground arith

exit_active-IsBacked :
    (s : Store) (epoch : ℕ) (v : Validator) (x : ℕ)
    → v.index < count s
    → v.balance ≡ s.balance_words v.index
    → IsBacked s x
    → IsBacked (exit_active s epoch v).0 x
unfolding exit_active schedule_exit save_epoch_state put debit
exit_active-IsBacked s epoch v x lt is backed =
    burned s (exit_active s epoch v).0 v x 0 lt (omega (arith, is)) refl refl
      (debit_zero (s.accounts staking_address)) backed

exit_pending-IsBacked :
    (s : Store) (epoch : ℕ) (v : Validator) (x : ℕ)
    → v.index < count s
    → v.balance ≡ s.balance_words v.index
    → IsBacked s x
    → IsBacked (exit_pending s epoch v).0 x
unfolding exit_pending put
exit_pending-IsBacked s epoch v x lt is backed =
    burned s (exit_pending s epoch v).0 v x 0 lt (omega (arith, is)) refl refl
      (debit_zero (s.accounts staking_address)) backed

exit_of-eq-ok :
    (s : Store) (epoch : ℕ) (v : Validator) {r : Store × Validator}
    → exit_of s epoch v ≡ ok r
    → (exit_active s epoch v ≡ r) ⊎ (exit_pending s epoch v ≡ r)
unfolding exit_of
exit_of-eq-ok s epoch v h = ground arith

-- If the staking account holds the sum of the validators' balances and a surplus, all in 256 bits,
-- it does so with the same surplus after every exit request that succeeds.
pub request_exit-IsBacked :
    (s : Store) (validator epoch surplus : ℕ) {r : Store × Validator}
    → IsBacked s surplus
    → request_exit s validator epoch ≡ ok r
    → IsBacked r.0 surplus
unfolding request_exit
request_exit-IsBacked s validator epoch surplus backed h =
    let (v, at, h') = >>=-eq-ok (by_address s validator) (exit_of s epoch) h in
    let l = loaded s validator at in
    elim (exit_of-eq-ok s epoch v h') [
      | inl is ↦
          subst (λ r. IsBacked r.0 surplus) is
            (exit_active-IsBacked s epoch v surplus l.0 l.1 backed)
      | inr is ↦
          subst (λ r. IsBacked r.0 surplus) is
            (exit_pending-IsBacked s epoch v surplus l.0 l.1 backed)
    ]

guard-eq-ok {ℓ} :
    {A : Type ℓ} (b : Bool) (e : Error) (y : A) {r : A} → (guard b e >> ok y) ≡ ok r → y ≡ r
guard-eq-ok true e y h = ok_injective h
guard-eq-ok false e y h = cc

top_up-IsBacked :
    (s : Store) (v : Validator) (amount surplus : ℕ) {r : Store × Validator}
    → v.index < count s
    → v.balance ≡ s.balance_words v.index
    → IsBacked s (amount + surplus)
    → top_up s v amount ≡ ok r
    → IsBacked r.0 surplus
unfolding top_up with_balance put
top_up-IsBacked s v amount surplus lt is backed h =
    let v' = with_balance v (v.balance + amount) in
    let o = opened s (amount + surplus) backed in
    let ge = staked-ge s v.index lt in
    subst (λ r. IsBacked r.0 surplus) (guard-eq-ok (not (has_left v)) left_the_set (put s v', v') h)
      (rebacked s (put s v') v' surplus (staked s + (amount + surplus)) lt
        (omega (arith, o.1, ge, is)) refl refl o.0 (omega (arith, is)) o.1)

first_deposit-eq-ok :
    (s : Store) (validator withdrawal amount : ℕ) {r : Store × Validator}
    → first_deposit s validator withdrawal amount ≡ ok r
    → append s (new_validator validator withdrawal amount) ≡ r
unfolding first_deposit
first_deposit-eq-ok s validator withdrawal amount h = ground arith

append-IsBacked :
    (s : Store) (v : Validator) (surplus : ℕ)
    → count s + 1 < 2 ^ 64
    → IsBacked s (v.balance + surplus)
    → IsBacked (append s v).0 surplus
unfolding append put set_index
append-IsBacked s v surplus room backed =
    let o = opened s (v.balance + surplus) backed in
    closed (append s v).0 surplus (staked s + (v.balance + surplus)) o.0
      (omega (arith, staked-append s v room (omega (arith, o.1)))) o.1

first_deposit-IsBacked :
    (s : Store) (validator withdrawal amount surplus : ℕ) {r : Store × Validator}
    → IsBacked s (amount + surplus)
    → count s + 1 < 2 ^ 64
    → first_deposit s validator withdrawal amount ≡ ok r
    → IsBacked r.0 surplus
unfolding new_validator
first_deposit-IsBacked s validator withdrawal amount surplus backed room h =
    subst (λ r. IsBacked r.0 surplus) (first_deposit-eq-ok s validator withdrawal amount h)
      (append-IsBacked s (new_validator validator withdrawal amount) surplus room backed)

deposit_found :
    (s : Store) (validator withdrawal amount surplus : ℕ) (o : Outcome Validator)
    {r : Store × Validator}
    → by_address s validator ≡ o
    → IsBacked s (amount + surplus)
    → count s + 1 < 2 ^ 64
    → elim o [
      | ok existing ↦ top_up s existing amount
      | _ ↦ first_deposit s validator withdrawal amount
    ]
      ≡ ok r
    → IsBacked r.0 surplus
deposit_found s validator withdrawal amount surplus (ok v) at backed room h =
    let l = loaded s validator at in top_up-IsBacked s v amount surplus l.0 l.1 backed h
deposit_found s validator withdrawal amount surplus (err e) at backed room h =
    first_deposit-IsBacked s validator withdrawal amount surplus backed room h
deposit_found s validator withdrawal amount surplus panic at backed room h =
    first_deposit-IsBacked s validator withdrawal amount surplus backed room h

-- If the staking account holds the sum of the validators' balances, the amount of a deposit and a
-- surplus, all in 256 bits, it holds the sum and the surplus after the deposit, when that
-- succeeds and an index is left.
pub deposit-IsBacked :
    (s : Store) (validator withdrawal amount surplus : ℕ) {r : Store × Validator}
    → IsBacked s (amount + surplus)
    → count s + 1 < 2 ^ 64
    → deposit s validator withdrawal amount ≡ ok r
    → IsBacked r.0 surplus
unfolding deposit
deposit-IsBacked s validator withdrawal amount surplus backed room h =
    deposit_found s validator withdrawal amount surplus (by_address s validator) refl backed room h
