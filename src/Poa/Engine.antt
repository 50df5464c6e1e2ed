-- ===== src/Poa/Engine.antt =====
-- consensus/poa.go: the validator set, the rotation and the timing of rounds. Addresses are
-- numbers, whose order is that of their bytes; times are seconds in 64 bits.
use padi_chain.Base.{
  ℕ, ◌+◌, ◌-◌, ◌*◌, ◌/◌, ◌%◌, ◌^◌, Bool, false, ◌||◌, List, [], ◌∷◌, Option, none, some, ltb, leb,
  ◌==◌, if◌then◌else◌, length, get_elem?, Result, ok, err, panic,
}
use padi_chain.Attest.Aggregate.{quorum}

pub data Error : Type 0 where
  no_validators listed_twice unauthorized_proposer wrong_proposer_turn missing_seal : Error
  invalid_seal future_block timestamp_too_early unknown_parent invalid_number : Error
  extra_data_too_long round_too_high coinbase_mismatch not_signed : Error

-- ValidatorSetProvider: the set at a height, `none` for its error, and the proposer by stake.
pub record Provider : Type 0 where
  pub validators_at : ℕ → Option (List ℕ)
  pub proposer_at_height : ℕ → ℕ → Option ℕ

pub record Poa : Type 0 where
  pub validators : List ℕ
  pub period : ℕ
  pub round_timeout : ℕ
  pub provider : Option Provider

-- sort.Slice on addresses
unfoldable pub insert_address : ℕ → List ℕ → List ℕ
insert_address a [] = a ∷ []
insert_address a (b ∷ rest) = if leb a b then a ∷ b ∷ rest else b ∷ insert_address a rest

unfoldable pub sort_addresses : List ℕ → List ℕ
sort_addresses [] = []
sort_addresses (a ∷ rest) = insert_address a (sort_addresses rest)

-- `sorted[i] == sorted[i-1]` for some i
unfoldable pub has_repeat : ℕ → List ℕ → Bool
has_repeat previous [] = false
has_repeat previous (a ∷ rest) = (a == previous) || has_repeat a rest

-- setFor
unfoldable pub set_for : Poa → ℕ → List ℕ
set_for p block_number = elim p.provider [
  | none ↦ p.validators
  | some provider ↦ elim (provider.validators_at block_number) [
    | none ↦ p.validators
    | some [] ↦ p.validators
    | some (a ∷ rest) ↦ sort_addresses (a ∷ rest)
  ]
]

unfoldable pub build : List ℕ → ℕ → Result Error Poa
build [] period = err no_validators
build (a ∷ rest) period =
    let period' = if period == 0 then 1 else period in
    if has_repeat a rest
    then err listed_twice
    else ok (record {
      validators = a ∷ rest;
      period = period';
      round_timeout = period';
      provider = none;
    })

-- NewPoA
unfoldable pub new_poa : List ℕ → ℕ → Result Error Poa
new_poa validators period = build (sort_addresses validators) period

-- SetRoundTimeout
unfoldable pub set_round_timeout : Poa → ℕ → Poa
set_round_timeout p seconds = record p { round_timeout = if seconds == 0 then 1 else seconds }

unfoldable pub is_member : ℕ → List ℕ → Bool
is_member addr [] = false
is_member addr (v ∷ rest) = (v == addr) || is_member addr rest

-- IsValidatorAt
unfoldable pub is_validator_at : Poa → ℕ → ℕ → Bool
is_validator_at p addr block_number = is_member addr (set_for p block_number)

-- QuorumFor
unfoldable pub quorum_for : Poa → ℕ → ℕ
quorum_for p block_number = quorum (length (set_for p block_number))

-- The rotation at the end of ProposerAtRound; `number + round` wraps around.
unfoldable pub rotation : List ℕ → ℕ → ℕ → Result Error ℕ
rotation [] number round = err no_validators
rotation (a ∷ rest) number round =
    elim (get_elem? (a ∷ rest) ((number + round) % 2 ^ 64 % length (a ∷ rest))) [
      | none ↦ panic
      | some proposer ↦ ok proposer
    ]

-- ProposerAtRound
unfoldable pub proposer_at_round : Poa → ℕ → ℕ → Result Error ℕ
proposer_at_round p number round = elim p.provider [
  | none ↦ rotation (set_for p number) number round
  | some provider ↦ elim (provider.proposer_at_height number round) [
    | some proposer ↦ ok proposer
    | none ↦ rotation (set_for p number) number round
  ]
]

-- earliestTimeFor
unfoldable pub earliest_time_for : Poa → ℕ → ℕ → ℕ
earliest_time_for p parent_time round = (parent_time + p.period + round * p.round_timeout) % 2 ^ 64

-- RoundFor
unfoldable pub round_for : Poa → ℕ → ℕ → ℕ
round_for p parent_time now =
    let earliest = earliest_time_for p parent_time 0 in
    if leb now earliest || (p.round_timeout == 0) then 0 else (now - earliest) / p.round_timeout

-- The round that Prepare puts into a header: at most the number of validators.
unfoldable pub prepare_round : Poa → ℕ → ℕ → ℕ → ℕ
prepare_round p number parent_time now =
    let round = round_for p parent_time now in
    let most = length (set_for p number) in if ltb most round then most else round

-- The time that Prepare puts into a header of a round.
unfoldable pub prepare_time : Poa → ℕ → ℕ → ℕ → ℕ
prepare_time p parent_time round now =
    let earliest = earliest_time_for p parent_time round in
    if ltb now earliest then earliest else now

-- SetValidatorProvider
unfoldable pub set_validator_provider : Poa → Option Provider → Poa
set_validator_provider p provider = record p { provider = provider }

-- IsValidator
unfoldable pub is_validator : Poa → ℕ → Bool
is_validator p addr = is_member addr p.validators

-- ProposerAt
unfoldable pub proposer_at : Poa → ℕ → Result Error ℕ
proposer_at p number = proposer_at_round p number 0

-- IsMyTurn, at a time.
unfoldable pub is_my_turn : Poa → ℕ → ℕ → ℕ → ℕ → Bool
is_my_turn p addr next_number parent_time now =
    elim (proposer_at_round p next_number (prepare_round p next_number parent_time now)) [
      | ok proposer ↦ proposer == addr
      | err e ↦ false
      | panic ↦ false
    ]
