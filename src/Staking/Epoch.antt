-- ===== src/Staking/Epoch.antt =====
-- staking/lifecycle.go: what ProcessEpoch does at the end of an epoch.
use padi_chain.Base.{
  ℕ, zero, suc, ◌+◌, ◌-◌, ◌*◌, ◌/◌, ◌%◌, ◌^◌, Bool, true, false, not, ◌&&◌, ◌||◌, List, [], ◌∷◌,
  ◌++◌, Option, none, some, ltb, leb, ◌==◌, if◌then◌else◌, length, take, ok, ◌>>=◌, ◌>>◌,
}
use padi_chain.Staking.Params.{
  min_deposit, ejection_balance, min_activation_delay, correlation_penalty_multiplier,
  correlation_penalty_epoch_offset, proposer_reward_quotient, base_reward_factor,
  inactivity_leak_threshold, inactivity_penalty_quotient, churn_limit,
}
use padi_chain.Staking.Store.{Store, staking_address, add_balance, sub_balance}
use padi_chain.Staking.Registry.{
  already_processed, Outcome, Validator, EpochState, status_pending, status_active, status_exiting,
  status_exited, status_slashed, get, put, all, active_at, stake, total_active_stake,
  correlated_slashed_stake, reset_slashed_stake, load_epoch_state, save_epoch_state,
}
use padi_chain.Staking.Lifecycle.{guard, with_balance, at_most, request_exit}

-- big.Int.Sqrt, two bits a round: `fuel` above the number of rounds.
unfoldable pub sqrt_loop : ℕ → ℕ → ℕ
sqrt_loop zero n = 0
sqrt_loop (suc fuel) n = elim (n == 0) [
  | true ↦ 0
  | false ↦
      let root = 2 * sqrt_loop fuel (n / 4) in
      if leb ((root + 1) * (root + 1)) n then root + 1 else root
]

unfoldable pub sqrt : ℕ → ℕ
sqrt n = sqrt_loop n n

-- baseReward
unfoldable pub base_reward : ℕ → ℕ → ℕ
base_reward effective_balance total_stake =
    if total_stake == 0
    then 0
    else (let root = sqrt total_stake in
        if root == 0 then 0 else effective_balance * base_reward_factor / root / 4)

-- Participation: who attested, and how many blocks each proposed.
pub record Participation : Type 0 where
  pub attested : ℕ → Bool
  pub proposers : ℕ → ℕ

-- NewParticipation
unfoldable pub new_participation : Participation
new_participation = record { attested = λ addr. false; proposers = λ addr. 0 }

-- MarkAttested
unfoldable pub mark_attested : Participation → ℕ → Participation
mark_attested p addr = record p { attested = λ at. (at == addr) || p.attested at }

-- MarkProposed
unfoldable pub mark_proposed : Participation → ℕ → Participation
mark_proposed p addr = record p {
  proposers = λ at. if at == addr then (p.proposers at + 1) % 2 ^ 64 else p.proposers at;
}

pub record EpochReport : Type 0 where
  pub activated : List ℕ
  pub exited : List ℕ
  pub ejected : List ℕ
  pub rewarded : ℕ
  pub penalised : ℕ
  pub correlated : List ℕ
  pub issued : ℕ
  pub burned : ℕ
  pub leak_active : Bool

abbrev pub empty_report : EpochReport
empty_report = record {
  activated = [];
  exited = [];
  ejected = [];
  rewarded = 0;
  penalised = 0;
  correlated = [];
  issued = 0;
  burned = 0;
  leak_active = false;
}

-- 1. Exits whose epoch has arrived.
unfoldable pub finish_one : ℕ → Validator → Store × EpochReport → Store × EpochReport
finish_one epoch v (s, report) =
    if (v.status == status_exiting) && leb v.exit_epoch epoch
    then (
      put s (record v { status = status_exited }),
      record report { exited = report.exited ++ (v.address ∷ []) },
    )
    else (s, report)

unfoldable pub finish_exits : ℕ → List Validator → Store × EpochReport → Store × EpochReport
finish_exits epoch [] done = done
finish_exits epoch (v ∷ rest) done = finish_exits epoch rest (finish_one epoch v done)

-- The reward of a validator that attested.
unfoldable pub reward_of : ℕ → ℕ → ℕ
reward_of base proposed = base + base / proposer_reward_quotient * proposed

-- The penalty of one that did not, at most its balance.
unfoldable pub penalty_of : ℕ → ℕ → Bool → Validator → ℕ
penalty_of base finality_delay leak_active v =
    at_most
      (if leak_active
        then base + v.effective_balance * finality_delay / inactivity_penalty_quotient
        else base)
      v.balance

-- 2. One round of the loop that rewards and penalises.
unfoldable pub settle_one :
    Participation → ℕ → ℕ → Validator → Store × EpochReport → Store × EpochReport
settle_one p total_stake finality_delay v (s, report) =
    let base = base_reward v.effective_balance total_stake in
    let reward = reward_of base (p.proposers v.address) in
    let penalty = penalty_of base finality_delay report.leak_active v in
    if p.attested v.address
    then (
      put s (with_balance v (v.balance + reward)),
      record report { issued = report.issued + reward; rewarded = report.rewarded + 1 },
    )
    else (
      put s (with_balance v (v.balance - penalty)),
      record report { burned = report.burned + penalty; penalised = report.penalised + 1 },
    )

unfoldable pub settle :
    Participation → ℕ → ℕ → List Validator → Store × EpochReport → Store × EpochReport
settle p total_stake finality_delay [] done = done
settle p total_stake finality_delay (v ∷ rest) done =
    settle p total_stake finality_delay rest (settle_one p total_stake finality_delay v done)

-- `if totalStake.Sign() > 0 && participation != nil`
unfoldable pub settle_active :
    Option Participation → ℕ → ℕ → List Validator → Store × EpochReport → Store × EpochReport
settle_active none total_stake finality_delay active done = done
settle_active (some p) total_stake finality_delay active done =
    if total_stake == 0 then done else settle p total_stake finality_delay active done

-- The two calls that move the balance of the staking account.
unfoldable pub move_balance : Store → EpochReport → Store
move_balance s report =
    let s' = if report.issued == 0 then s else add_balance s staking_address report.issued in
    if report.burned == 0 then s' else sub_balance s' staking_address report.burned

-- One round of the loop of applyCorrelationPenalties; `correlated` is capped before.
unfoldable pub correlate_one : ℕ → ℕ → ℕ → Validator → Store × EpochReport → Store × EpochReport
correlate_one epoch total_stake correlated v (s, report) =
    let scaled = at_most (correlated * correlation_penalty_multiplier) total_stake in
    let penalty = at_most (v.effective_balance * scaled / total_stake) v.balance in
    if not (v.status == status_slashed) || (v.balance == 0)
    then (s, report)
    else if not ((v.slashed_epoch + correlation_penalty_epoch_offset) % 2 ^ 64 == epoch)
    then (s, report)
    else if penalty == 0
    then (s, report)
    else (
      sub_balance (put s (with_balance v (v.balance - penalty))) staking_address penalty,
      record report {
        burned = report.burned + penalty;
        correlated = report.correlated ++ (v.address ∷ []);
      },
    )

unfoldable pub correlate : ℕ → ℕ → ℕ → List Validator → Store × EpochReport → Store × EpochReport
correlate epoch total_stake correlated [] done = done
correlate epoch total_stake correlated (v ∷ rest) done =
    correlate epoch total_stake correlated rest (correlate_one epoch total_stake correlated v done)

-- applyCorrelationPenalties
unfoldable pub apply_correlation_penalties : ℕ → Store × EpochReport → Outcome (Store × EpochReport)
apply_correlation_penalties epoch (s, report) = do
  vs ← all s
  total_stake ← total_active_stake s epoch
  let correlated = at_most (correlated_slashed_stake s epoch) total_stake
  ok (
      if total_stake == 0
      then (s, report)
      else correlate epoch total_stake correlated vs (s, report))

-- 4. One round of the loop that ejects; an exit that is refused leaves no trace.
unfoldable pub eject_one : ℕ → Validator → Store × EpochReport → Store × EpochReport
eject_one epoch current (s, report) =
    if (current.status == status_active) && ltb current.balance ejection_balance
    then elim (request_exit s current.address epoch) [
      | ok (s', exiting) ↦
          (s', record report { ejected = report.ejected ++ (current.address ∷ []) })
      | _ ↦ (s, report)
    ]
    else (s, report)

unfoldable pub eject : ℕ → List Validator → Store × EpochReport → Outcome (Store × EpochReport)
eject epoch [] done = ok done
eject epoch (v ∷ rest) done = do
  current ← get done.0 v.index
  eject epoch rest (eject_one epoch current done)

-- 5. The deposits that wait, read again.
unfoldable pub find_pending : Store → List Validator → Outcome (List Validator)
find_pending s [] = ok []
find_pending s (v ∷ rest) = do
  refreshed ← get s v.index
  later ← find_pending s rest
  ok (
      if (refreshed.status == status_pending) && leb min_deposit refreshed.balance
      then refreshed ∷ later
      else later)

-- sort.Slice by index
unfoldable pub insert_sorted : Validator → List Validator → List Validator
insert_sorted v [] = v ∷ []
insert_sorted v (w ∷ rest) = if leb v.index w.index then v ∷ w ∷ rest else w ∷ insert_sorted v rest

unfoldable pub sort_pending : List Validator → List Validator
sort_pending [] = []
sort_pending (v ∷ rest) = insert_sorted v (sort_pending rest)

unfoldable pub activate : ℕ → List Validator → Store × EpochReport → Store × EpochReport
activate epoch [] done = done
activate epoch (v ∷ rest) (s, report) = activate epoch rest (
  put s (record v {
    status = status_active;
    activation_epoch = (epoch + min_activation_delay) % 2 ^ 64;
  }),
  record report { activated = report.activated ++ (v.address ∷ []) },
)

-- The five parts of ProcessEpoch, between its guard and the record it saves at the end.
unfoldable pub transition : Store → ℕ → Option Participation → ℕ → Outcome (Store × EpochReport)
transition s epoch participation finalized_epoch = do
  vs ← all s
  let (s1, report1) = finish_exits epoch vs (s, empty_report)
  active ← active_at s1 epoch
  let total_stake = stake active
  let finality_delay = epoch - finalized_epoch
  let leak_active = ltb inactivity_leak_threshold finality_delay
  let settled =
      settle_active participation total_stake finality_delay active
        (s1, record report1 { leak_active = leak_active })
  (s3, report3) ← apply_correlation_penalties epoch (move_balance settled.0 settled.1, settled.1)
  let s4 = reset_slashed_stake s3 ((epoch + 1) % 2 ^ 64)
  (s5, report5) ← eject epoch active (s4, report3)
  active_after ← active_at s5 epoch
  pending ← find_pending s5 vs
  ok (
      activate epoch (take (churn_limit (length active_after)) (sort_pending pending))
        (s5, report5))

-- `epoch <= state.LastProcessedEpoch && state.LastProcessedEpoch != 0`
unfoldable pub is_processed : EpochState → ℕ → Bool
is_processed state epoch =
    leb epoch state.last_processed_epoch && not (state.last_processed_epoch == 0)

-- The record as it was loaded at the start, with its two epochs set.
unfoldable pub close_epoch :
    EpochState → ℕ → ℕ → Store × EpochReport → Outcome (Store × EpochReport)
close_epoch state epoch finalized_epoch (s, report) = ok (
  save_epoch_state s
      (record state { last_processed_epoch = epoch; finalized_epoch = finalized_epoch }),
  report,
)

-- ProcessEpoch
unfoldable pub process_epoch : Store → ℕ → Option Participation → ℕ → Outcome (Store × EpochReport)
process_epoch s epoch participation finalized_epoch =
    let state = load_epoch_state s in
    guard (not (is_processed state epoch)) already_processed
    >> (transition s epoch participation finalized_epoch
        >>= close_epoch state epoch finalized_epoch)
