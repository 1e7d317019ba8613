-- ===== src/Configuration/Tests.antt =====
-- The quorums of lib/configuration.cc in a cluster of five replicas, of which two may fail.
use specpaxos.Base.{ℕ, ◌≡◌, ◌<◌, refl, Bool, true, arith, ltb, ◌==◌, ◌||◌}
use specpaxos.Configuration.{Configuration, get_leader_index, quorum_size, fast_quorum_size}
use specpaxos.Configuration.Quorums.{members, quorums_intersect, fast_quorums_intersect}

abbrev five : Configuration
five = record { n = 5; f = 2 }

sizes : (quorum_size five ≡ 3) × (fast_quorum_size five ≡ 4) × (get_leader_index five 7 ≡ 2)
unfolding quorum_size fast_quorum_size get_leader_index
sizes = (refl, refl, refl)

abbrev low_half : ℕ → Bool
low_half i = ltb i 3

abbrev high_half : ℕ → Bool
high_half i = ltb 1 i

abbrev all_but_one : ℕ → Bool
all_but_one i = i == 0 || ltb 1 i

abbrev all_but_four : ℕ → Bool
all_but_four i = ltb i 4

low_enough : quorum_size five ≡ members 5 low_half
unfolding quorum_size
low_enough = refl

high_enough : quorum_size five ≡ members 5 high_half
unfolding quorum_size
high_enough = refl

fast_low_enough : fast_quorum_size five ≡ members 5 all_but_one
unfolding fast_quorum_size
fast_low_enough = refl

fast_high_enough : fast_quorum_size five ≡ members 5 all_but_four
unfolding fast_quorum_size
fast_high_enough = refl

quorums_intersect_example : (i : ℕ) × (i < 5) × (low_half i ≡ true) × (high_half i ≡ true)
quorums_intersect_example =
    quorums_intersect five low_half high_half (omega arith) (omega (arith, low_enough))
      (omega (arith, high_enough))

fast_quorums_intersect_example :
    (i : ℕ) × (i < 5) × (all_but_one i ≡ true) × (all_but_four i ≡ true) × (high_half i ≡ true)
fast_quorums_intersect_example =
    fast_quorums_intersect five all_but_one all_but_four high_half (omega arith)
      (omega (arith, fast_low_enough)) (omega (arith, fast_high_enough))
      (omega (arith, high_enough))
