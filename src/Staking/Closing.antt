-- ===== src/Staking/Closing.antt =====
-- staking/lifecycle.go: what ProcessEpoch leaves in the bookkeeping record.
use padi_chain.Base.{
  ℕ, ◌^◌, ◌≤◌, ◌<◌, ◌≡◌, refl, Bool, true, false, not, Option, arith, leb, ◌==◌, ok, err, ◌>>=◌,
  ◌>>◌, >>=-eq-ok,
}
use mathlib.Core.Path.{subst}
use padi_chain.Staking.Store.{Store}
use padi_chain.Staking.Registry.{Error, already_processed, Outcome, EpochState, load_epoch_state}
use padi_chain.Staking.Lifecycle.{guard}
use padi_chain.Staking.Epoch.{
  Participation, EpochReport, transition, is_processed, close_epoch, process_epoch,
}
use padi_chain.Staking.Exits.{
  IsStorableEpoch, load-IsStorableEpoch, load_epoch_state-save_epoch_state,
}

guard_passed {ℓ} :
    {A : Type ℓ} (b : Bool) (e : Error) (k : Outcome A) {r : A} → (guard b e >> k) ≡ ok r → k ≡ ok r
guard_passed true e k h = h
guard_passed false e k h = cc

ok_injective {ℓ} : {A : Type ℓ} {a b : A} → ◌≡◌ {A = Outcome A} (ok a) (ok b) → a ≡ b
ok_injective h = cc

closed_record :
    (e : EpochState) (epoch finalized : ℕ) (d r : Store × EpochReport)
    → IsStorableEpoch e
    → epoch < 2 ^ 64
    → finalized < 2 ^ 64
    → close_epoch e epoch finalized d ≡ ok r
    → load_epoch_state r.0 ≡ record e { last_processed_epoch = epoch; finalized_epoch = finalized }
unfolding close_epoch
closed_record e epoch finalized (s, report) r h small early is =
    let e' = record e { last_processed_epoch = epoch; finalized_epoch = finalized } in
    subst (λ r. load_epoch_state r.0 ≡ e') (ok_injective is)
      (load_epoch_state-save_epoch_state s e' (record {
        last_small = small;
        finalized_small = early;
        queue_small = h.queue_small;
        places_small = h.places_small;
      }))

-- A ProcessEpoch that returns leaves the two epochs it was given, and the exit queue as it was
-- before the call, whatever exits the ejections in it have scheduled.
pub process_epoch-load_epoch_state :
    (s : Store) (epoch finalized : ℕ) (p : Option Participation) {r : Store × EpochReport}
    → epoch < 2 ^ 64
    → finalized < 2 ^ 64
    → process_epoch s epoch p finalized ≡ ok r
    → load_epoch_state r.0
      ≡ record (load_epoch_state s) { last_processed_epoch = epoch; finalized_epoch = finalized }
unfolding process_epoch
process_epoch-load_epoch_state s epoch finalized p {r} small early h =
    let e = load_epoch_state s in
    let next = close_epoch e epoch finalized in
    let passed =
      guard_passed (not (is_processed e epoch)) already_processed
        (transition s epoch p finalized >>= next) h in
    let (d, _, is) = >>=-eq-ok (transition s epoch p finalized) next passed in
    closed_record e epoch finalized d r (load-IsStorableEpoch s) small early is

le_test : (a b : ℕ) → a ≤ b → leb a b ≡ true
le_test a b h = ground arith

ne_test : (a : ℕ) → 0 < a → (a == 0) ≡ false
ne_test a h = ground arith

-- After an epoch other than 0 has been processed, neither it nor an earlier one is again.
pub process_epoch_once :
    (s : Store) (epoch finalized : ℕ) (p : Option Participation) {r : Store × EpochReport}
    (epoch' finalized' : ℕ) (p' : Option Participation)
    → 0 < epoch
    → epoch < 2 ^ 64
    → finalized < 2 ^ 64
    → process_epoch s epoch p finalized ≡ ok r
    → epoch' ≤ epoch
    → process_epoch r.0 epoch' p' finalized' ≡ err already_processed
unfolding process_epoch is_processed
process_epoch_once s epoch finalized p {r} epoch' finalized' p' pos small early h le =
    rw
      (
        process_epoch-load_epoch_state s epoch finalized p small early h,
        le_test epoch' epoch le,
        ne_test epoch pos,
      )
      refl
