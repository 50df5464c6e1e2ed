-- ===== src/Staking/Exits.antt =====
-- staking/lifecycle.go: the exit queue, which bounds how many validators leave in one epoch.
use padi_chain.Base.{ℕ, ◌+◌, ◌%◌, ◌^◌, ◌≤◌, ◌<◌, ◌≡◌, refl, ◌⊎◌, arith}
use padi_chain.Staking.Params.{churn_limit}
use padi_chain.Staking.Store.{Store}
use padi_chain.Staking.Registry.{
  EpochState, get_uint64, put_uint64, pack_epoch, load_epoch_state, save_epoch_state,
}
use padi_chain.Staking.Lifecycle.{active_count, take_place, schedule_exit}

-- Every field fits in 64 bits.
pub record IsStorableEpoch (e : EpochState) : Type 0 where
  pub last_small : e.last_processed_epoch < 2 ^ 64
  pub finalized_small : e.finalized_epoch < 2 ^ 64
  pub queue_small : e.exit_queue_epoch < 2 ^ 64
  pub places_small : e.exit_queue_count < 2 ^ 64

load_last :
    (s : Store) (e : EpochState)
    → IsStorableEpoch e
    → (load_epoch_state (save_epoch_state s e)).last_processed_epoch ≡ e.last_processed_epoch
unfolding load_epoch_state save_epoch_state pack_epoch put_uint64 get_uint64
load_last s e h = omega (arith, h.last_small)

load_finalized :
    (s : Store) (e : EpochState)
    → IsStorableEpoch e
    → (load_epoch_state (save_epoch_state s e)).finalized_epoch ≡ e.finalized_epoch
unfolding load_epoch_state save_epoch_state pack_epoch put_uint64 get_uint64
load_finalized s e h = omega (arith, h.finalized_small)

load_queue :
    (s : Store) (e : EpochState)
    → IsStorableEpoch e
    → (load_epoch_state (save_epoch_state s e)).exit_queue_epoch ≡ e.exit_queue_epoch
unfolding load_epoch_state save_epoch_state pack_epoch put_uint64 get_uint64
load_queue s e h = omega (arith, h.queue_small)

load_places :
    (s : Store) (e : EpochState)
    → IsStorableEpoch e
    → (load_epoch_state (save_epoch_state s e)).exit_queue_count ≡ e.exit_queue_count
unfolding load_epoch_state save_epoch_state pack_epoch put_uint64 get_uint64
load_places s e h = omega (arith, h.places_small)

-- A bookkeeping record whose fields fit in 64 bits is read back as it was saved.
pub load_epoch_state-save_epoch_state :
    (s : Store) (e : EpochState) → IsStorableEpoch e → load_epoch_state (save_epoch_state s e) ≡ e
load_epoch_state-save_epoch_state s e h i = record {
  last_processed_epoch = load_last s e h i;
  finalized_epoch = load_finalized s e h i;
  exit_queue_epoch = load_queue s e h i;
  exit_queue_count = load_places s e h i;
}

-- A place in the queue, by its epoch and its number there, that may be given: in an epoch not before
-- the earliest one, within the limit, and behind the last one given.
abbrev pub IsFree : ℕ → ℕ → EpochState → ℕ → ℕ → Type 0
IsFree earliest limit before epoch place =
    (earliest ≤ epoch)
    × (1 ≤ place)
    × (place ≤ limit)
    × ((before.exit_queue_epoch < epoch)
        ⊎ ((before.exit_queue_epoch ≡ epoch) × (before.exit_queue_count < place)))

-- What one call of the scheduler promises: the first of the places that may be given.
abbrev pub IsNextPlace : ℕ → ℕ → EpochState → EpochState → Type 0
IsNextPlace earliest limit before after =
    IsFree earliest limit before after.exit_queue_epoch after.exit_queue_count
    × ((epoch place : ℕ)
        → IsFree earliest limit before epoch place
        → (after.exit_queue_epoch < epoch)
          ⊎ ((after.exit_queue_epoch ≡ epoch) × (after.exit_queue_count ≤ place)))

take_place-IsNextPlace :
    (earliest limit : ℕ) (e : EpochState)
    → 0 < limit
    → limit < 2 ^ 64
    → e.exit_queue_epoch + 1 < 2 ^ 64
    → earliest + 1 < 2 ^ 64
    → IsNextPlace earliest limit e (take_place earliest limit e)
unfolding take_place
take_place-IsNextPlace earliest limit e pos small room soon =
    (ground arith, λ epoch place free. ground (arith, free))

pub churn_limit-ge : (n : ℕ) → 4 ≤ churn_limit n
unfolding churn_limit
churn_limit-ge n = ground arith

churn_limit-le : (n : ℕ) → n < 2 ^ 63 → churn_limit n < 2 ^ 64
unfolding churn_limit
churn_limit-le n h = ground arith

take_place-IsStorableEpoch :
    (earliest limit : ℕ) (e : EpochState)
    → IsStorableEpoch e
    → earliest < 2 ^ 64
    → IsStorableEpoch (take_place earliest limit e)
unfolding take_place
take_place-IsStorableEpoch earliest limit e h soon = record {
  last_small = ground (arith, h.last_small);
  finalized_small = ground (arith, h.finalized_small);
  queue_small = ground (arith, h.queue_small);
  places_small = ground (arith, h.places_small);
}

pub load-IsStorableEpoch : (s : Store) → IsStorableEpoch (load_epoch_state s)
unfolding load_epoch_state get_uint64
load-IsStorableEpoch s = record {
  last_small = omega arith;
  finalized_small = omega arith;
  queue_small = omega arith;
  places_small = omega arith;
}

no_wrap : (epoch : ℕ) → epoch + 2 < 2 ^ 64 → (epoch + 1) % 2 ^ 64 ≡ epoch + 1
no_wrap epoch h = omega arith

-- scheduleExit gives the exit the first free place of the queue and stores it: of all the places that
-- are in an epoch after the current one, within the churn limit of the active set, and behind the place
-- given last, the one in the lowest epoch, and in that with the lowest number; for epochs away from the
-- end of the 64-bit range and an active set that an int can count.
pub schedule_exit-IsNextPlace :
    (s : Store) (epoch : ℕ)
    → (load_epoch_state s).exit_queue_epoch + 1 < 2 ^ 64
    → epoch + 2 < 2 ^ 64
    → active_count s epoch < 2 ^ 63
    → IsNextPlace
        (epoch + 1)
        (churn_limit (active_count s epoch))
        (load_epoch_state s)
        (load_epoch_state (schedule_exit s epoch).0)
      × ((schedule_exit s epoch).1 ≡ (load_epoch_state (schedule_exit s epoch).0).exit_queue_epoch)
unfolding schedule_exit
schedule_exit-IsNextPlace s epoch room soon int =
    let limit = churn_limit (active_count s epoch) in
    let e = load_epoch_state s in
    let stored =
      load_epoch_state-save_epoch_state s (take_place (epoch + 1) limit e)
        (take_place-IsStorableEpoch (epoch + 1) limit e (load-IsStorableEpoch s) (omega arith)) in
    rw (no_wrap epoch soon, stored)
      (
        take_place-IsNextPlace (epoch + 1) limit e
            (omega (arith, churn_limit-ge (active_count s epoch)))
            (churn_limit-le (active_count s epoch) int) room (omega arith),
        refl,
      )
