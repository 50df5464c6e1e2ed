-- ===== src/Staking/Params.antt =====
-- staking/params.go: amounts in wei, epochs in blocks.
use padi_chain.Base.{ℕ, ◌*◌, ◌/◌, ◌%◌, ◌^◌, Bool, ◌&&◌, ltb, leb, ◌==◌, if◌then◌else◌}

abbrev pub gwei : ℕ
gwei = 1000000000

abbrev pub ether : ℕ
ether = gwei * gwei

abbrev pub min_deposit : ℕ
min_deposit = 32 * ether

abbrev pub max_effective_balance : ℕ
max_effective_balance = 32 * ether

abbrev pub effective_balance_increment : ℕ
effective_balance_increment = ether

abbrev pub ejection_balance : ℕ
ejection_balance = 16 * ether

abbrev pub epoch_length : ℕ
epoch_length = 32

abbrev pub min_activation_delay : ℕ
min_activation_delay = 1

abbrev pub withdrawal_delay : ℕ
withdrawal_delay = 256

abbrev pub min_churn_limit : ℕ
min_churn_limit = 4

abbrev pub churn_limit_quotient : ℕ
churn_limit_quotient = 65536

abbrev pub slash_penalty_quotient : ℕ
slash_penalty_quotient = 32

abbrev pub correlation_penalty_multiplier : ℕ
correlation_penalty_multiplier = 3

abbrev pub slashing_window : ℕ
slashing_window = withdrawal_delay

abbrev pub correlation_penalty_epoch_offset : ℕ
correlation_penalty_epoch_offset = slashing_window / 2

abbrev pub proposer_reward_quotient : ℕ
proposer_reward_quotient = 8

abbrev pub base_reward_factor : ℕ
base_reward_factor = 64

abbrev pub inactivity_leak_threshold : ℕ
inactivity_leak_threshold = 4

abbrev pub inactivity_penalty_quotient : ℕ
inactivity_penalty_quotient = 65536

-- EpochOf
unfoldable pub epoch_of : ℕ → ℕ
epoch_of block_number = block_number / epoch_length

-- EpochStart, in 64 bits
unfoldable pub epoch_start : ℕ → ℕ
epoch_start epoch = epoch * epoch_length % 2 ^ 64

-- IsEpochBoundary
unfoldable pub is_epoch_boundary : ℕ → Bool
is_epoch_boundary block_number = ltb 0 block_number && (block_number % epoch_length == 0)

-- ChurnLimit
unfoldable pub churn_limit : ℕ → ℕ
churn_limit active_count =
    let limit = active_count / churn_limit_quotient in
    if ltb limit min_churn_limit then min_churn_limit else limit

-- computeEffectiveBalance
unfoldable pub compute_effective_balance : ℕ → ℕ
compute_effective_balance balance =
    if leb max_effective_balance balance
    then max_effective_balance
    else balance / effective_balance_increment * effective_balance_increment
