-- ===== src/Poa/Tests.antt =====
-- The rounds of an engine with three validators and blocks every five seconds.
use padi_chain.Base.{◌+◌, ◌≤◌, ◌<◌, ◌≡◌, refl, none, [], ◌∷◌, arith}
use padi_chain.Poa.Engine.{Poa, earliest_time_for, round_for}
use padi_chain.Poa.Rounds.{round_for_highest}

abbrev pub engine : Poa
engine = record { validators = 3 ∷ 5 ∷ 9 ∷ []; period = 5; round_timeout = 4; provider = none }

-- Round 2 opens at 113, round 3 at 117.
round_at_114 : round_for engine 100 114 ≡ 2
unfolding round_for earliest_time_for
round_at_114 = refl

round_for_highest_example :
    (earliest_time_for engine 100 (round_for engine 100 114) ≤ 114)
    × (114 < earliest_time_for engine 100 (round_for engine 100 114 + 1))
round_for_highest_example =
    round_for_highest engine 100 114 (omega arith) (omega arith) (omega arith)
