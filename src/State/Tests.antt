-- ===== src/State/Tests.antt =====
-- The world state at concrete accounts.
use padi_chain.Base.{suc, ◌≡◌, true, false, [], ◌∷◌, none, some, ◌==◌, if◌then◌else◌}
use padi_chain.Base.Ints.{pos}
use padi_chain.State.Objects.{
  Account, Object, StateDb, Backend, empty_root, empty_code_hash, get_state_object, get_balance,
  get_state,
}
use padi_chain.State.Writes.{set_balance, set_state}
use padi_chain.State.Snapshots.{snapshot, revert_to_snapshot, finalise}
use padi_chain.State.Observed.{Agrees}
use padi_chain.State.Calls.{perform, credit_by, assign_slot, destruct}
use padi_chain.State.Runs.{Run, done, and_then, calls, snapshots}
use padi_chain.State.Lives.{Life, opened, runs, new_state, IsSound, Life-IsSound}
use padi_chain.State.Contract.{revert_to_snapshot_lem}
use padi_chain.State.Balances.{get_balance-set_balance}
use padi_chain.State.Storage.{get_state-set_state}
use padi_chain.State.Sweep.{get_state_object-finalise}

abbrev rich : Account
rich = record { nonce = 1; balance = pos 50; root = empty_root; code_hash = empty_code_hash }

-- A trie with one account, whose slots all hold 3.
abbrev one_account : Backend
one_account = record {
  read_account = λ addr. some (if addr == 7 then some rich else none);
  read_slot = λ root key. some 3;
  read_code = λ hash. none;
  keccak = λ bytes. 11;
}

abbrev funded : StateDb
funded = perform one_account (credit_by 9 10) new_state

funded-Life : Life one_account funded
funded-Life = runs opened (calls (credit_by 9 10) new_state)

abbrev wrote : StateDb
wrote = perform one_account (assign_slot 7 1 5) (snapshot funded).0

abbrev destroyed : StateDb
destroyed = perform one_account (destruct 7) (snapshot wrote).0

spent : Run one_account (suc funded.next_rev_id) (snapshot funded).0 destroyed
spent =
    and_then
      (and_then (and_then done (calls (assign_slot 7 1 5) (snapshot funded).0)) (snapshots wrote))
      (calls (destruct 7) (snapshot wrote).0)

revert_to_snapshot_example :
    (u : StateDb) × (revert_to_snapshot destroyed funded.next_rev_id ≡ some u)
    × Agrees one_account u funded
    × (u.entries ≡ funded.entries)
    × (u.revisions ≡ funded.revisions)
revert_to_snapshot_example = revert_to_snapshot_lem one_account funded destroyed funded-Life spent

life_example : IsSound funded
life_example = Life-IsSound one_account funded-Life

get_balance-set_balance_example :
    (get_balance one_account (set_balance one_account new_state 7 (pos 4)) 7).1 ≡ pos 4
get_balance-set_balance_example = get_balance-set_balance one_account new_state 7 (pos 4) 7

get_state-set_state_example :
    (get_state one_account (set_state one_account new_state 7 1 5) 7 1).1 ≡ 5
get_state-set_state_example = get_state-set_state one_account new_state 7 1 5 7 1

abbrev dying : Object
dying = record {
  data_of = rich;
  code = none;
  code_dirty = false;
  origin_storage = [];
  dirty_storage = (1, 5) ∷ [];
  self_destructed = true;
  deleted = false;
  created = false;
}

abbrev doomed : StateDb
doomed = record new_state { objects = (7, dying) ∷ []; objects_dirty = (7, tt) ∷ [] }

get_state_object-finalise_example : (get_state_object one_account (finalise doomed true) 7).1 ≡ none
get_state_object-finalise_example = get_state_object-finalise one_account doomed true 7
