-- ===== src/QuorumSet/Laws.antt =====
-- Lemmas on common/quorumset.h: the set after a sequence of messages, and what each replica has sent.
use specpaxos.Base.{
  ℕ, zero, suc, ◌+◌, ◌≤◌, ◌<◌, ◌≡◌, ◌≢◌, refl, ap, sym, ◌∙◌, inl, inr, Bool, true, false, ◌&&◌,
  ◌||◌, Option, none, some, List, [], ◌∷◌, arith, ◌==◌, length, if◌then◌else◌, Bool-cases, All,
}
use specpaxos.Base.Map.{Map, lookup, insert, lookup-insert, Rises, insert-Rises, lookup_below}
use specpaxos.Configuration.Quorums.{members}
use specpaxos.QuorumSet.{Key, QuorumSet, new, at, put, check_for_quorum, add}

unfoldable pub is_some : {A : Type 0} → Option A → Bool
is_some none = false
is_some (some a) = true

pub members-ext : (n : ℕ) (s t : ℕ → Bool) → ((i : ℕ) → s i ≡ t i) → members n s ≡ members n t
members-ext zero s t h = refl
members-ext (suc n) s t h = ground (arith, h n, members-ext n s t h)

pub members-none : (n : ℕ) → 0 ≡ members n (λ _. false)
members-none zero = refl
members-none (suc n) = omega (arith, members-none n)

-- One more member, if it is new.
members-or_of_le : (n k : ℕ) (s : ℕ → Bool) → n ≤ k → members n (λ i. k == i || s i) ≡ members n s
members-or_of_le zero k s h = refl
members-or_of_le (suc n) k s h = ground (arith, members-or_of_le n k s)

pub members-or :
    (n k : ℕ) (s : ℕ → Bool)
    → k < n
    → members n (λ i. k == i || s i) ≡ (if s k then 0 else 1) + members n s
members-or zero k s h = absurd (omega arith)
members-or (suc n) k s h = elim (Bool-cases (k == n)) [
  | inl e ↦ ground (arith, members-or_of_le n k s)
  | inr e ↦ ground (arith, members-or n k s)
]

length-insert :
    {M : Type 0} (n k : ℕ) (v : M) (m : Map M)
    → Rises n m
    → length (insert k v m) ≡ (if is_some (lookup k m) then 0 else 1) + length m
unfolding insert lookup is_some
length-insert n k v [] r = refl
length-insert n k v ((j, w) ∷ m) r =
    ground (arith, length-insert (j + 1) k v m, lookup_below (j + 1) k m)

-- What a quorum set was told.
pub record Message (K M : Type 0) : Type 0 where
  pub identifier : K
  pub replica_idx : ℕ
  pub content : M

module _ {K M : Type 0} ⦃key : Key K⦄ where
  open key use {beq, beq_iff}

  pub at-put :
      (k j : K) (m : Map M) (l : List (K × Map M))
      → at j (put k m l) ≡ (if beq k j then m else at j l)
  unfolding at put
  at-put k j m [] = refl
  at-put k j m ((i, w) ∷ l) = ground (arith, at-put k j m l, beq_iff i k, beq_iff i j, beq_iff k j)

  -- The set after these messages, of which the head is the newest.
  unfoldable pub gather : ℕ → List (Message K M) → QuorumSet K M
  unfolding add
  gather n [] = new n
  gather n (x ∷ xs) = add x.identifier x.replica_idx x.content (gather n xs)

  -- Replica `i` is among the senders of messages with this identifier.
  unfoldable pub has_sent : K → List (Message K M) → ℕ → Bool
  has_sent k [] i = false
  has_sent k (x ∷ xs) i = (beq x.identifier k && x.replica_idx == i) || has_sent k xs i

  -- The newest message of replica `i` with this identifier.
  unfoldable pub newest : K → ℕ → List (Message K M) → Option M
  newest k i [] = none
  newest k i (x ∷ xs) =
      if beq x.identifier k && x.replica_idx == i then some x.content else newest k i xs

  gather-num_required : (n : ℕ) (xs : List (Message K M)) → (gather n xs).num_required ≡ n
  unfolding gather
  gather-num_required n [] = refl
  gather-num_required n (x ∷ xs) = gather-num_required n xs

  at-gather :
      (n : ℕ) (k : K) (x : Message K M) (xs : List (Message K M))
      → at k (gather n (x ∷ xs)).messages ≡ (
          if beq x.identifier k
          then insert x.replica_idx x.content (at x.identifier (gather n xs).messages)
          else at k (gather n xs).messages)
  unfolding gather
  at-gather n k x xs = at-put x.identifier k _ _

  pub gather-Rises :
      (n : ℕ) (k : K) (xs : List (Message K M)) → Rises 0 (at k (gather n xs).messages)
  unfolding gather at
  gather-Rises n k [] = tt
  gather-Rises n k (x ∷ xs) =
      rw (at-put x.identifier k _ _) (elim (Bool-cases (beq x.identifier k)) [
        | inl e ↦ rw e (insert-Rises 0 _ _ _ (omega arith) (gather-Rises n x.identifier xs))
        | inr e ↦ rw e (gather-Rises n k xs)
      ])

  pub lookup-gather :
      (n : ℕ) (k : K) (i : ℕ) (xs : List (Message K M))
      → lookup i (at k (gather n xs).messages) ≡ newest k i xs
  unfolding gather at newest lookup
  lookup-gather n k i [] = refl
  lookup-gather n k i (x ∷ xs) =
      rw (at-put x.identifier k _ _) (elim (Bool-cases (beq x.identifier k)) [
        | inl e ↦
            let same : x.identifier ≡ k = (beq_iff x.identifier k).0 e in
            rw (e, same)
              (lookup-insert x.replica_idx i x.content (at k (gather n xs).messages)
                ∙ ap (λ o. if x.replica_idx == i then some x.content else o)
                    (lookup-gather n k i xs))
        | inr e ↦ rw e (lookup-gather n k i xs)
      ])

  pub is_some-newest :
      (k : K) (i : ℕ) (xs : List (Message K M)) → is_some (newest k i xs) ≡ has_sent k xs i
  unfolding newest has_sent is_some
  is_some-newest k i [] = refl
  is_some-newest k i (x ∷ xs) = ground (arith, is_some-newest k i xs)

  pub has_sent-cons :
      (k : K) (x : Message K M) (xs : List (Message K M)) (b : Bool)
      → beq x.identifier k ≡ b
      → (i : ℕ) → has_sent k (x ∷ xs) i ≡ (b && x.replica_idx == i || has_sent k xs i)
  unfolding has_sent
  has_sent-cons k x xs b e i = rw e

  -- The newest message adds its sender, if that is new.
  length-insert-gather :
      (n r : ℕ) (k j : K) (i : ℕ) (m : M) (xs : List (Message K M))
      → j ≡ k
      → i < r
      → length (at k (gather n xs).messages) ≡ members r (has_sent k xs)
      → length (insert i m (at j (gather n xs).messages))
        ≡ members r (λ a. i == a || has_sent k xs a)
  length-insert-gather n r k j i m xs same small ih = rw same (
      length-insert 0 i m (at k (gather n xs).messages) (gather-Rises n k xs)
      ∙ rw (lookup-gather n k i xs, is_some-newest k i xs, ih)
          (sym (members-or r i (has_sent k xs) small)))

  -- As many messages are kept as replicas have sent one, if their indices are below `r`.
  length-gather :
      (n r : ℕ) (k : K) (xs : List (Message K M))
      → All (λ x. x.replica_idx < r) xs
      → length (at k (gather n xs).messages) ≡ members r (has_sent k xs)
  unfolding gather at has_sent
  length-gather n r k [] small = members-none r
  length-gather n r k (x ∷ xs) small =
      rw (at-put x.identifier k _ _) (elim (Bool-cases (beq x.identifier k)) [
        | inl e ↦
            let same = (beq_iff x.identifier k).0 e in
            rw e (
              length-insert-gather n r k x.identifier x.replica_idx x.content xs same small.0
                (length-gather n r k xs small.1)
              ∙ members-ext r _ _ (λ i. sym (has_sent-cons k x xs true e i)))
        | inr e ↦ rw e (
            length-gather n r k xs small.1
            ∙ members-ext r _ _ (λ i. sym (has_sent-cons k x xs false e i)))
      ])

  -- The quorum is complete exactly when enough distinct replicas have sent a message with this
  -- identifier; then the result holds the newest message of each of them, and nothing else.
  pub check_for_quorum-gather :
      (n r : ℕ) (k : K) (xs : List (Message K M))
      → All (λ x. x.replica_idx < r) xs
      → ((ms : Map M)
          → check_for_quorum k (gather n xs) ≡ some ms
          → (n ≤ members r (has_sent k xs)) × ((i : ℕ) → lookup i ms ≡ newest k i xs))
        × (n ≤ members r (has_sent k xs) → check_for_quorum k (gather n xs) ≢ none)
  unfolding check_for_quorum
  check_for_quorum-gather n r k xs small = (
    λ ms h.
        let few : length (at k (gather n xs).messages) ≡ members r (has_sent k xs) =
          length-gather n r k xs small in
        let needed : (gather n xs).num_required ≡ n = gather-num_required n xs in
        (
          ground (arith, few, needed),
          λ i.
              let e : at k (gather n xs).messages ≡ ms = ground arith in
              rw (← e) (lookup-gather n k i xs),
        ),
    λ h. ground (arith, length-gather n r k xs small, gather-num_required n xs),
  )
