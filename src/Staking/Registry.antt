-- ===== src/Staking/Registry.antt =====
-- staking/registry.go: the validator records, as words of the store.
use padi_chain.Base.{
  ℕ, zero, suc, ◌+◌, ◌-◌, ◌*◌, ◌/◌, ◌%◌, ◌^◌, Bool, false, ◌&&◌, List, [], ◌∷◌, Option, none, some,
  ltb, leb, ◌==◌, if◌then◌else◌, Result, ok, err, ◌>>=◌,
}
use padi_chain.Staking.Params.{compute_effective_balance, slashing_window}
use padi_chain.Staking.Store.{Store, update}

pub data Error : Type 0 where
  not_found below_minimum not_active not_withdrawable already_slashed left_the_set : Error
  already_withdrawn bad_bls_key bad_possession already_processed : Error

abbrev pub Outcome {ℓ} : Type ℓ → Type ℓ
Outcome A = Result Error A

-- Status, one byte.
abbrev pub status_pending : ℕ
status_pending = 0

abbrev pub status_active : ℕ
status_active = 1

abbrev pub status_exiting : ℕ
status_exiting = 2

abbrev pub status_exited : ℕ
status_exited = 3

abbrev pub status_slashed : ℕ
status_slashed = 4

abbrev pub status_withdrawn : ℕ
status_withdrawn = 5

-- The attestation key is absent or the number of its 48 bytes.
pub record Validator : Type 0 where
  pub index : ℕ
  pub address : ℕ
  pub withdrawal_address : ℕ
  pub bls_public_key : Option ℕ
  pub balance : ℕ
  pub effective_balance : ℕ
  pub status : ℕ
  pub activation_epoch : ℕ
  pub exit_epoch : ℕ
  pub withdrawable_epoch : ℕ
  pub slashed_epoch : ℕ

-- IsActiveAt
unfoldable pub is_active_at : Validator → ℕ → Bool
is_active_at v epoch =
    if v.status == status_active
    then leb v.activation_epoch epoch
    else if v.status == status_exiting
    then leb v.activation_epoch epoch && ltb epoch v.exit_epoch
    else false

-- FarFutureEpoch
abbrev pub far_future_epoch : ℕ
far_future_epoch = 2 ^ 64 - 1

-- Count
unfoldable pub count : Store → ℕ
count s = s.count_word % 2 ^ 64

-- IndexOf; `raw.Uint64() - 1` wraps around.
unfoldable pub index_of : Store → ℕ → Option ℕ
index_of s addr =
    let raw = s.index_words addr in
    if raw == 0 then none else some ((raw % 2 ^ 64 + 2 ^ 64 - 1) % 2 ^ 64)

-- setIndex
unfoldable pub set_index : Store → ℕ → ℕ → Store
set_index s addr index = record s { index_words = update s.index_words addr ((index + 1) % 2 ^ 64) }

-- putUint64 into the next `width` bytes behind the bytes of `word`.
unfoldable pub put_uint64 : ℕ → ℕ → ℕ → ℕ
put_uint64 word width v = word * 2 ^ (8 * width) + v % 2 ^ (8 * width)

-- getUint64 of the `width` bytes in front of the last `behind` bytes.
unfoldable pub get_uint64 : ℕ → ℕ → ℕ → ℕ
get_uint64 word behind width = word / 2 ^ (8 * behind) % 2 ^ (8 * width)

-- packCore: one byte, three words of eight bytes, and seven bytes.
unfoldable pub pack_core : Validator → ℕ
pack_core v =
    let lead = v.status % 2 ^ 8 in
    let activation = put_uint64 lead 8 v.activation_epoch in
    let exit = put_uint64 activation 8 v.exit_epoch in
    let withdrawable = put_uint64 exit 8 v.withdrawable_epoch in
    put_uint64 withdrawable 7 v.slashed_epoch

-- unpackCore
unfoldable pub unpack_core : ℕ → Validator → Validator
unpack_core h v = record v {
  status = get_uint64 h 31 1;
  activation_epoch = get_uint64 h 23 8;
  exit_epoch = get_uint64 h 15 8;
  withdrawable_epoch = get_uint64 h 7 8;
  slashed_epoch = get_uint64 h 0 7;
}

-- The key of 48 bytes that spans two slots; zero bytes are no key.
unfoldable pub read_key : ℕ → ℕ → Option ℕ
read_key high low = let key = high * 2 ^ 128 + low % 2 ^ 128 in if key == 0 then none else some key

unfoldable pub high_of : Option ℕ → ℕ
high_of none = 0
high_of (some key) = key / 2 ^ 128

unfoldable pub low_of : Option ℕ → ℕ
low_of none = 0
low_of (some key) = key % 2 ^ 128

-- Get, behind its test of the index.
unfoldable pub read : Store → ℕ → Validator
read s index = unpack_core (s.core_words index) (record {
  index = index;
  address = s.addr_words index % 2 ^ 160;
  withdrawal_address = s.withdrawal_words index % 2 ^ 160;
  bls_public_key = read_key (s.bls_hi_words index) (s.bls_lo_words index);
  balance = s.balance_words index;
  effective_balance = compute_effective_balance (s.balance_words index);
  status = 0;
  activation_epoch = 0;
  exit_epoch = 0;
  withdrawable_epoch = 0;
  slashed_epoch = 0;
})

-- Get
unfoldable pub get : Store → ℕ → Outcome Validator
get s index = if leb (count s) index then err not_found else ok (read s index)

-- ByAddress
unfoldable pub by_address : Store → ℕ → Outcome Validator
by_address s addr = elim (index_of s addr) [ none ↦ err not_found | some index ↦ get s index ]

-- Put
unfoldable pub put : Store → Validator → Store
put s v = record s {
  core_words = update s.core_words v.index (pack_core v);
  addr_words = update s.addr_words v.index v.address;
  withdrawal_words = update s.withdrawal_words v.index v.withdrawal_address;
  balance_words = update s.balance_words v.index (v.balance % 2 ^ 256);
  bls_hi_words = update s.bls_hi_words v.index (high_of v.bls_public_key);
  bls_lo_words = update s.bls_lo_words v.index (low_of v.bls_public_key);
}

-- Append: the store, and the record with its index.
unfoldable pub append : Store → Validator → Store × Validator
append s v =
    let index = count s in
    let v' = record v { index = index } in
    let s' = set_index (put s v') v.address index in
    (record s' { count_word = (index + 1) % 2 ^ 64 }, v')

-- The loop of All, with the number of rounds left.
unfoldable pub all_from : Store → ℕ → ℕ → Outcome (List Validator)
all_from s zero i = ok []
all_from s (suc rounds) i = do v ← get s i; rest ← all_from s rounds (i + 1); ok (v ∷ rest)

-- All
unfoldable pub all : Store → Outcome (List Validator)
all s = all_from s (count s) 0

unfoldable pub keep_active : ℕ → List Validator → List Validator
keep_active epoch [] = []
keep_active epoch (v ∷ rest) =
    let rest' = keep_active epoch rest in if is_active_at v epoch then v ∷ rest' else rest'

-- ActiveAt
unfoldable pub active_at : Store → ℕ → Outcome (List Validator)
active_at s epoch = do vs ← all s; ok (keep_active epoch vs)

-- The effective balances, added up.
unfoldable pub stake : List Validator → ℕ
stake [] = 0
stake (v ∷ rest) = v.effective_balance + stake rest

-- TotalActiveStake
unfoldable pub total_active_stake : Store → ℕ → Outcome ℕ
total_active_stake s epoch = do active ← active_at s epoch; ok (stake active)

-- SlashedStakeIn, with slotSlashedStake
unfoldable pub slashed_stake_in : Store → ℕ → ℕ
slashed_stake_in s epoch = s.slashed_words (epoch % slashing_window)

-- AddSlashedStake
unfoldable pub add_slashed_stake : Store → ℕ → ℕ → Store
add_slashed_stake s epoch amount = record s {
  slashed_words =
      update s.slashed_words (epoch % slashing_window)
        ((slashed_stake_in s epoch + amount) % 2 ^ 256);
}

-- ResetSlashedStake
unfoldable pub reset_slashed_stake : Store → ℕ → Store
reset_slashed_stake s epoch = record s {
  slashed_words = update s.slashed_words (epoch % slashing_window) 0;
}

-- The loop of CorrelatedSlashedStake, from epoch `e` on.
unfoldable pub slashed_from : Store → ℕ → ℕ → ℕ
slashed_from s zero e = 0
slashed_from s (suc rounds) e = slashed_stake_in s e + slashed_from s rounds (e + 1)

-- CorrelatedSlashedStake
unfoldable pub correlated_slashed_stake : Store → ℕ → ℕ
correlated_slashed_stake s epoch =
    let start = if ltb slashing_window epoch then epoch - slashing_window else 0 in
    slashed_from s (epoch - start + 1) start

pub record EpochState : Type 0 where
  pub last_processed_epoch : ℕ
  pub finalized_epoch : ℕ
  pub exit_queue_epoch : ℕ
  pub exit_queue_count : ℕ

-- LoadEpochState
unfoldable pub load_epoch_state : Store → EpochState
load_epoch_state s = record {
  last_processed_epoch = get_uint64 s.epoch_word 24 8;
  finalized_epoch = get_uint64 s.epoch_word 16 8;
  exit_queue_epoch = get_uint64 s.epoch_word 8 8;
  exit_queue_count = get_uint64 s.epoch_word 0 8;
}

unfoldable pub pack_epoch : EpochState → ℕ
pack_epoch e =
    let last = put_uint64 0 8 e.last_processed_epoch in
    let finalized = put_uint64 last 8 e.finalized_epoch in
    let queue = put_uint64 finalized 8 e.exit_queue_epoch in put_uint64 queue 8 e.exit_queue_count

-- SaveEpochState
unfoldable pub save_epoch_state : Store → EpochState → Store
save_epoch_state s e = record s { epoch_word = pack_epoch e }

-- SetRandaoMix
unfoldable pub set_randao_mix : Store → ℕ → Store
set_randao_mix s mix = record s { randao_word = mix }

unfoldable pub keys_of : List Validator → List (Option ℕ)
keys_of [] = []
keys_of (v ∷ rest) = v.bls_public_key ∷ keys_of rest

-- ActiveBLSKeysAt
unfoldable pub active_bls_keys_at : Store → ℕ → Outcome (List (Option ℕ))
active_bls_keys_at s epoch = do active ← active_at s epoch; ok (keys_of active)

unfoldable pub addresses_of : List Validator → List ℕ
addresses_of [] = []
addresses_of (v ∷ rest) = v.address ∷ addresses_of rest

-- ActiveAddressesAt
unfoldable pub active_addresses_at : Store → ℕ → Outcome (List ℕ)
active_addresses_at s epoch = do active ← active_at s epoch; ok (addresses_of active)

-- RandaoMix
unfoldable pub randao_mix : Store → ℕ
randao_mix s = s.randao_word
