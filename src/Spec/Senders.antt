-- ===== src/Spec/Senders.antt =====
-- Which replicas have sent a hash in their SYNCREPLYs, for HandleSyncReply of spec/replica.cc.
use specpaxos.Base.{
  ℕ, zero, suc, ◌+◌, ◌≤◌, ◌<◌, ◌≡◌, refl, ap, ◌≢◌, sym, ◌∙◌, Bool, true, false, ◌&&◌, ◌||◌, Option,
  none, some, List, [], ◌∷◌, arith, ◌==◌, if◌then◌else◌, All, Bool-cases, inl, inr,
}
use specpaxos.Base.Code
use specpaxos.Base.Dictionary.{Bytes, bytes_eq}
use specpaxos.Base.Map.{Map, lookup, insert, Rises, lookup_below}
use specpaxos.Configuration.Quorums.{members}
use specpaxos.QuorumSet.{nat_key, at}
use specpaxos.QuorumSet.Laws.{
  Message, gather, newest, has_sent, has_sent-cons, gather-Rises, lookup-gather, is_some-newest,
  is_some, members-ext, members-or, members-none, at-put,
}
use specpaxos.Spec.Messages.{SyncReplyMessage}
use specpaxos.Spec.Votes.{vote, votes}

members-or_le : (n k : ℕ) (s : ℕ → Bool) → k < n → members n (λ i. k == i || s i) ≤ 1 + members n s
members-or_le n k s h = ground (arith, members-or n k s h)

-- Whether a replica's SYNCREPLY is there and has the hash.
unfoldable pub sent_hash : Bytes → Option SyncReplyMessage → Bool
sent_hash hash none = false
sent_hash hash (some m) = bytes_eq m.last_speculative_hash hash

abbrev Below : ℕ → Map SyncReplyMessage → Type 0
Below r ms = All (λ kv. kv.0 < r) ms

insert-Below :
    (r k : ℕ) (m : SyncReplyMessage) (ms : Map SyncReplyMessage)
    → k < r
    → Below r ms
    → Below r (insert k m ms)
unfolding insert
insert-Below r k m [] h b = (h, tt)
insert-Below r k m ((j, x) ∷ ms) h b = ground (arith, insert-Below r k m ms)

vote_lem :
    (m : SyncReplyMessage) (hash : Bytes)
    → vote m.last_speculative_hash hash ≡ (if sent_hash hash (some m) then 1 else 0)
unfolding vote sent_hash Code.if◌then◌else◌
vote_lem m hash = ground arith

-- One replica more, if `b`.
members_one :
    (r j : ℕ) (b : Bool) (p : ℕ → Bool)
    → j < r
    → p j ≡ false
    → members r (λ i. (j == i && b) || p i) ≡ (if b then 1 else 0) + members r p
members_one r j true p h free =
    members-ext r (λ i. (j == i && true) || p i) (λ i. j == i || p i) (λ i. ground arith)
    ∙ (members-or r j p h ∙ rw free refl)
members_one r j false p h free =
    let same = members-ext r (λ i. (j == i && false) || p i) p (λ i. ground arith) in
    omega (arith, same)

sent_hash-lookup :
    (n j i : ℕ) (hash : Bytes) (m : SyncReplyMessage) (ms : Map SyncReplyMessage)
    → Rises n ((j, m) ∷ ms)
    → sent_hash hash (lookup i ((j, m) ∷ ms))
      ≡ ((j == i && sent_hash hash (some m)) || sent_hash hash (lookup i ms))
unfolding sent_hash lookup
sent_hash-lookup n j i hash m ms rises = ground (arith, lookup_below (j + 1) i ms rises.1)

-- Every vote in a map is that of one replica.
votes-lookup :
    (n r : ℕ) (hash : Bytes) (ms : Map SyncReplyMessage)
    → Rises n ms
    → Below r ms
    → votes hash ms ≡ members r (λ i. sent_hash hash (lookup i ms))
unfolding votes sent_hash lookup
votes-lookup n r hash [] rises b = members-none r
votes-lookup n r hash ((j, m) ∷ ms) rises b =
    let others : ℕ → Bool = λ i. sent_hash hash (lookup i ms) in
    let own = sent_hash hash (some m) in
    let free : others j ≡ false = ground (arith, lookup_below (j + 1) j ms rises.1) in
    let split = members-ext r _ _ (λ i. sent_hash-lookup n j i hash m ms rises) in
    let one = members_one r j own others b.0 free in
    omega (arith, vote_lem m hash, split, one, votes-lookup (j + 1) r hash ms rises.1 b.1)

gather-Below :
    (n r k : ℕ) (xs : List (Message ℕ SyncReplyMessage))
    → All (λ x. x.replica_idx < r) xs
    → Below r (at k (gather n xs).messages)
unfolding gather at
gather-Below n r k [] small = tt
gather-Below n r k (x ∷ xs) small =
    rw (at-put x.identifier k _ _) (elim (Bool-cases (x.identifier == k)) [
      | inl e ↦ rw e (
          insert-Below r x.replica_idx x.content _ small.0
            (gather-Below n r x.identifier xs small.1))
      | inr e ↦ rw e (gather-Below n r k xs small.1)
    ])

-- The votes for a hash are the replicas whose newest SYNCREPLY has it.
pub votes-gather :
    (n r k : ℕ) (hash : Bytes) (xs : List (Message ℕ SyncReplyMessage))
    → All (λ x. x.replica_idx < r) xs
    → votes hash (at k (gather n xs).messages) ≡ members r (λ i. sent_hash hash (newest k i xs))
votes-gather n r k hash xs small =
    votes-lookup 0 r hash (at k (gather n xs).messages) (gather-Rises n k xs)
      (gather-Below n r k xs small)
    ∙ members-ext r _ _ (λ i. ap (sent_hash hash) (lookup-gather n k i xs))

newest-none :
    (k j : ℕ) (xs : List (Message ℕ SyncReplyMessage))
    → All (λ x. x.replica_idx ≢ j) xs
    → newest k j xs ≡ none
unfolding newest
newest-none k j [] h = refl
newest-none k j (x ∷ xs) h = ground (arith, h.0, newest-none k j xs h.1)

-- The replicas whose newest SYNCREPLY has the hash, and the leader if its own entry has it.
abbrev pub supporters : ℕ → ℕ → Bytes → Bytes → List (Message ℕ SyncReplyMessage) → ℕ → Bool
supporters leader k own hash xs i =
    (leader == i && bytes_eq own hash) || sent_hash hash (newest k i xs)

-- They are counted by the votes, if the leader has sent none of the messages.
pub members-supporters :
    (n r k leader : ℕ) (own hash : Bytes) (xs : List (Message ℕ SyncReplyMessage))
    → leader < r
    → All (λ x. x.replica_idx < r) xs
    → All (λ x. x.replica_idx ≢ leader) xs
    → vote own hash + votes hash (at k (gather n xs).messages)
      ≡ members r (supporters leader k own hash xs)
unfolding vote Code.if◌then◌else◌ sent_hash
members-supporters n r k leader own hash xs here small others =
    let free : sent_hash hash (newest k leader xs) ≡ false =
      ap (sent_hash hash) (newest-none k leader xs others) in
    let one =
      members_one r leader (bytes_eq own hash) (λ i. sent_hash hash (newest k i xs)) here free in
    ground (arith, one, votes-gather n r k hash xs small)

members_mono :
    (n : ℕ) (s t : ℕ → Bool) → ((i : ℕ) → s i ≡ true → t i ≡ true) → members n s ≤ members n t
members_mono zero s t h = omega arith
members_mono (suc n) s t h = ground (arith, h n, members_mono n s t h)

sent_hash-is_some :
    (hash : Bytes) (o : Option SyncReplyMessage) → sent_hash hash o ≡ true → is_some o ≡ true
unfolding sent_hash is_some
sent_hash-is_some hash none h = h
sent_hash-is_some hash (some m) h = refl

-- Not more than the replicas that have sent any.
pub votes-senders :
    (n r k : ℕ) (hash : Bytes) (x : Message ℕ SyncReplyMessage)
    (xs : List (Message ℕ SyncReplyMessage))
    → All (λ y. y.replica_idx < r) (x ∷ xs)
    → votes hash (at k (gather n (x ∷ xs)).messages) ≤ 1 + members r (has_sent k xs)
votes-senders n r k hash x xs small =
    let count = votes-gather n r k hash (x ∷ xs) small in
    let most =
      members_mono r (λ i. sent_hash hash (newest k i (x ∷ xs))) (has_sent k (x ∷ xs))
        (λ i h.
          sym (is_some-newest k i (x ∷ xs)) ∙ sent_hash-is_some hash (newest k i (x ∷ xs)) h) in
    elim (Bool-cases (x.identifier == k)) [
      | inl e ↦
          let same = members-ext r _ _ (has_sent-cons k x xs true e) in
          omega (arith, count, most, same, members-or_le r x.replica_idx (has_sent k xs) small.0)
      | inr e ↦
          let same = members-ext r _ _ (has_sent-cons k x xs false e) in
          omega (arith, count, most, same)
    ]
