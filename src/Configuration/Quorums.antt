-- ===== src/Configuration/Quorums.antt =====
-- Sets of replicas of the sizes that lib/configuration.cc gives.
use specpaxos.Base.{
  ℕ, zero, suc, ◌+◌, ◌*◌, ◌≤◌, ◌<◌, ◌≡◌, inl, inr, Bool, true, ◌&&◌, arith, if◌then◌else◌,
  Bool-cases,
}
use specpaxos.Configuration.{Configuration, quorum_size, fast_quorum_size}

-- How many of the replicas 0 .. n - 1 are in the set.
abbrev pub members : ℕ → (ℕ → Bool) → ℕ
members zero s = 0
members (suc n) s = (if s n then 1 else 0) + members n s

both : (ℕ → Bool) → (ℕ → Bool) → ℕ → Bool
both s t i = s i && t i

members-both : (n : ℕ) (s t : ℕ → Bool) → members n s + members n t ≤ members n (both s t) + n
unfolding both
members-both zero s t = omega arith
members-both (suc n) s t = ground (arith, members-both n s t)

found : (n : ℕ) (s : ℕ → Bool) → 0 < members n s → (i : ℕ) × (i < n) × (s i ≡ true)
found zero s h = elim h [ ]
found (suc n) s h = elim (Bool-cases (s n)) [
  | inl e ↦ (n, omega arith, e)
  | inr e ↦ let (i, lt, hit) = found n s (ground arith) in (i, omega arith, hit)
]

-- With n ≤ 2f + 1 replicas, two quorums of QuorumSize() have a replica in common.
pub quorums_intersect :
    (c : Configuration) (s t : ℕ → Bool)
    → c.n ≤ 2 * c.f + 1
    → quorum_size c ≤ members c.n s
    → quorum_size c ≤ members c.n t
    → (i : ℕ) × (i < c.n) × (s i ≡ true) × (t i ≡ true)
unfolding quorum_size both
quorums_intersect c s t small hs ht =
    let (i, lt, hit) = found c.n (both s t) (omega (arith, members-both c.n s t)) in
    (i, lt, ground arith, ground arith)

-- Two fast quorums and one quorum have a replica in common.
pub fast_quorums_intersect :
    (c : Configuration) (s t u : ℕ → Bool)
    → c.n ≤ 2 * c.f + 1
    → fast_quorum_size c ≤ members c.n s
    → fast_quorum_size c ≤ members c.n t
    → quorum_size c ≤ members c.n u
    → (i : ℕ) × (i < c.n) × (s i ≡ true) × (t i ≡ true) × (u i ≡ true)
unfolding quorum_size fast_quorum_size both
fast_quorums_intersect c s t u small hs ht hu =
    let (i, lt, hit) =
      found c.n (both s (both t u))
        (omega (arith, members-both c.n s (both t u), members-both c.n t u)) in
    (i, lt, ground arith, ground arith, ground arith)
