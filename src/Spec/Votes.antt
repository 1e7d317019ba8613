-- ===== src/Spec/Votes.antt =====
-- The count of the hashes in the SYNCREPLYs of a quorum, in spec/replica.cc.
use specpaxos.Base.{
  ℕ, ◌+◌, ◌≤◌, ◌≡◌, refl, subst, Option, none, some, [], ◌∷◌, arith, leb→le, All, All-map,
  Bool-cases, Option-cases, inl, inr,
}
use specpaxos.Base.Code.{
  if◌then◌else◌, Ensures, returns, faults, Ensures-if, Ensures-bind, Ensures-if_null,
}
use specpaxos.Base.Dictionary.{
  Bytes, Dictionary, bytes_eq, bytes_eq_refl, bytes_eq→≡, find_key, set_key,
}
use specpaxos.Base.Map.{Map}
use specpaxos.Spec.Messages.{SyncReplyMessage}
use specpaxos.Spec.Sync.{count_hash, count_hashes, matching_hash}

-- 1 for a hash that is the given one.
unfoldable pub vote : Bytes → Bytes → ℕ
vote sent hash = if bytes_eq sent hash then 1 else 0

-- How many of the messages carry the hash.
unfoldable pub votes : Bytes → Map SyncReplyMessage → ℕ
votes hash [] = 0
votes hash ((i, m) ∷ ms) = vote m.last_speculative_hash hash + votes hash ms

or_zero : Option ℕ → ℕ
or_zero none = 0
or_zero (some n) = n

-- The count of a hash, 0 if there is none.
unfoldable pub count_of : Bytes → Dictionary ℕ → ℕ
unfolding or_zero
count_of hash counts = or_zero (find_key hash counts)

-- No count is larger than what `bound` says.
abbrev Bounded : (Bytes → ℕ) → Dictionary ℕ → Type 0
Bounded bound counts = All (λ kv. kv.1 ≤ bound kv.0) counts

find_key-Bounded :
    (bound : Bytes → ℕ) (hash : Bytes) (counts : Dictionary ℕ)
    → Bounded bound counts
    → count_of hash counts ≤ bound hash
unfolding count_of or_zero find_key
find_key-Bounded bound hash [] h = omega arith
find_key-Bounded bound hash ((k, n) ∷ rest) h = elim (Bool-cases (bytes_eq k hash)) [
  | inl same ↦
      let le : n ≤ bound hash = subst (λ x. n ≤ bound x) (bytes_eq→≡ k hash same) h.0 in
      ground arith
  | inr other ↦ ground (arith, find_key-Bounded bound hash rest h.1)
]

set_key-Bounded :
    (bound : Bytes → ℕ) (hash : Bytes) (n : ℕ) (counts : Dictionary ℕ)
    → n ≤ bound hash
    → Bounded bound counts
    → Bounded bound (set_key hash n counts)
unfolding set_key
set_key-Bounded bound hash n [] le h = (le, tt)
set_key-Bounded bound hash n ((k, m) ∷ rest) le h =
    ground (arith, set_key-Bounded bound hash n rest le h.1)

-- One more of a hash.
count_hash_lem :
    (hash : Bytes) (counts : Dictionary ℕ)
    → count_hash hash counts ≡ set_key hash (count_of hash counts + 1) counts
unfolding count_hash count_of or_zero
count_hash_lem hash counts = elim (Option-cases (find_key hash counts)) [
  | inl none_yet ↦ rw (none_yet, count_hash) refl
  | inr (n, some_yet) ↦ rw (some_yet, count_hash) refl
]

pub count_hash-Bounded :
    (bound : Bytes → ℕ) (hash : Bytes) (counts : Dictionary ℕ)
    → Bounded bound counts
    → Bounded (λ k. vote hash k + bound k) (count_hash hash counts)
unfolding vote if◌then◌else◌
count_hash-Bounded bound hash counts h =
    let more : Bounded (λ k. vote hash k + bound k) counts =
      All-map {Q = λ kv. kv.1 ≤ vote hash kv.0 + bound kv.0} (λ kv le. omega arith) counts h in
    let seen = find_key-Bounded bound hash counts h in
    let own = bytes_eq_refl hash in
    rw (count_hash_lem hash counts) (
      set_key-Bounded (λ k. vote hash k + bound k) hash (count_of hash counts + 1) counts
        (ground arith) more)

-- The counts are no larger than the numbers of messages.
pub count_hashes-Bounded :
    (bound : Bytes → ℕ) (msgs : Map SyncReplyMessage) (counts : Dictionary ℕ)
    → Bounded bound counts
    → Bounded (λ k. bound k + votes k msgs) (count_hashes msgs counts)
unfolding count_hashes votes
count_hashes-Bounded bound [] counts h =
    All-map {Q = λ kv. kv.1 ≤ bound kv.0 + 0} (λ kv le. omega arith) counts h
count_hashes-Bounded bound ((i, m) ∷ ms) counts h =
    let sent = m.last_speculative_hash in
    All-map {Q = λ kv. kv.1 ≤ bound kv.0 + (vote sent kv.0 + votes kv.0 ms)} (λ kv le. omega arith)
      (count_hashes ms (count_hash sent counts))
      (count_hashes-Bounded (λ k. vote sent k + bound k) ms (count_hash sent counts)
        (count_hash-Bounded bound sent counts h))

-- A hash that is chosen has as many votes as are needed.
pub matching_hash-Ensures :
    (bound : Bytes → ℕ) (needed : ℕ) (counts : Dictionary ℕ) (chosen : Option Bytes)
    → Bounded bound counts
    → ((x : Bytes) → chosen ≡ some x → needed ≤ bound x)
    → Ensures
        (λ o. (x : Bytes) → o ≡ some x → needed ≤ bound x)
        (matching_hash needed counts chosen)
unfolding matching_hash
matching_hash-Ensures bound needed [] chosen h c = returns c
matching_hash-Ensures bound needed ((hash, n) ∷ rest) chosen h c =
    Ensures-bind {P = λ o. (x : Bytes) → o ≡ some x → needed ≤ bound x}
      (Ensures-if _
        (λ enough.
          Ensures-if_null chosen
            (λ _.
              let le : needed ≤ bound hash = omega (arith, leb→le needed n enough, h.0) in
              returns (λ x same. let eq : hash ≡ x = cc in subst (λ y. needed ≤ bound y) eq le))
            (λ other _. faults))
        (λ _. returns c))
      λ chosen' c'. matching_hash-Ensures bound needed rest chosen' h.1 c'
