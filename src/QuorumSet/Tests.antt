-- ===== src/QuorumSet/Tests.antt =====
-- Runs of common/quorumset.h, and its theorem at a concrete set: two messages are needed.
use specpaxos.Base.{ℕ, ◌≡◌, ◌≢◌, ◌≤◌, refl, some, none, List, [], ◌∷◌, arith}
use specpaxos.Base.Map.{Map, lookup, insert}
use specpaxos.Configuration.Quorums.{members}
use specpaxos.QuorumSet.{nat_key, at, put, check_for_quorum, add}
use specpaxos.QuorumSet.Laws.{Message, gather, has_sent, newest, check_for_quorum-gather}

-- Replica 2 sends twice, and replica 0 for another view first.
abbrev told : List (Message ℕ ℕ)
told =
    record { identifier = 5; replica_idx = 2; content = 12 }
    ∷ record { identifier = 5; replica_idx = 0; content = 11 }
    ∷ record { identifier = 4; replica_idx = 0; content = 10 }
    ∷ record { identifier = 5; replica_idx = 2; content = 9 }
    ∷ []

enough : check_for_quorum 5 (gather 2 told) ≡ some ((0, 11) ∷ (2, 12) ∷ [])
unfolding check_for_quorum gather at put insert add
enough = refl

too_few : check_for_quorum 4 (gather 2 told) ≡ none
unfolding check_for_quorum gather at put insert add
too_few = refl

check_for_quorum-gather_example :
    ((ms : Map ℕ)
      → check_for_quorum 5 (gather 2 told) ≡ some ms
      → (2 ≤ members 3 (has_sent 5 told)) × ((i : ℕ) → lookup i ms ≡ newest 5 i told))
    × (2 ≤ members 3 (has_sent 5 told) → check_for_quorum 5 (gather 2 told) ≢ none)
check_for_quorum-gather_example =
    check_for_quorum-gather 2 3 5 told
      (omega arith, (omega arith, (omega arith, (omega arith, tt))))
