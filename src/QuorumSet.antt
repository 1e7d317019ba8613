-- ===== src/QuorumSet.antt =====
-- common/quorumset.h: the messages of distinct replicas, by an identifier, until there are enough.
pub mod Laws
mod Tests
use Prim.Native.Nat.{min}
use specpaxos.Base.{
  ℕ, ◌≡◌, ◌↔◌, Bool, true, false, Option, none, some, List, [], ◌∷◌, leb, ◌==◌, ==_iff, length,
  if◌then◌else◌, Result, ok, err, undefined,
}
use specpaxos.Base.Code.{◌>>=◌}
use specpaxos.Base.Map.{Map, insert}

-- An identifier that indexes a std::map: views, nonces and viewstamps.
pub record Key (K : Type 0) : Type 0 where
  pub beq : K → K → Bool
  pub beq_iff : (a b : K) → (beq a b ≡ true) ↔ (a ≡ b)

instance abbrev pub nat_key : Key ℕ
nat_key = record { beq = ◌==◌; beq_iff = ==_iff }

-- No code iterates over the outer map, so it is kept in the order of first use, and reading at a
-- missing identifier, which inserts an empty map, leaves it as it is.
pub record QuorumSet (K M : Type 0) : Type 0 where
  pub num_required : ℕ
  pub messages : List (K × Map M)

-- The constructor.
abbrev pub new : {K M : Type 0} → ℕ → QuorumSet K M
new n = record { num_required = n; messages = [] }

-- Clear()
unfoldable pub clear : {K M : Type 0} → QuorumSet K M → QuorumSet K M
clear q = record q { messages = [] }

-- std::min_element over the messages of a map, at the field `f`. It is dereferenced, which an empty
-- range does not allow.
unfoldable pub least : {M : Type 0} → (M → ℕ) → Map M → Result ℕ
least f [] = err undefined
least f ((i, m) ∷ []) = ok (f m)
least f ((i, m) ∷ x ∷ ms) = do rest ← least f (x ∷ ms); ok (min (f m) rest)

module _ {K M : Type 0} ⦃key : Key K⦄ where
  open key use {beq}

  -- messages[vs]
  unfoldable pub at : K → List (K × Map M) → Map M
  at vs [] = []
  at vs ((k, m) ∷ rest) = if beq k vs then m else at vs rest

  unfoldable pub put : K → Map M → List (K × Map M) → List (K × Map M)
  put vs m [] = (vs, m) ∷ []
  put vs m ((k, m') ∷ rest) = if beq k vs then (k, m) ∷ rest else (k, m') ∷ put vs m rest

  -- Clear(vs)
  unfoldable pub clear_at : K → QuorumSet K M → QuorumSet K M
  unfolding put
  clear_at vs q = record q { messages = put vs [] q.messages }

  unfoldable pub get_messages : K → QuorumSet K M → Map M
  unfolding at
  get_messages vs q = at vs q.messages

  -- A pointer to the messages if there are enough, and otherwise NULL.
  unfoldable pub check_for_quorum : K → QuorumSet K M → Option (Map M)
  unfolding at
  check_for_quorum vs q =
      let vsmessages = at vs q.messages in
      if leb q.num_required (length vsmessages) then some vsmessages else none

  -- A second message of a replica replaces its first.
  unfoldable pub add_and_check_for_quorum :
      K → ℕ → M → QuorumSet K M → QuorumSet K M × Option (Map M)
  unfolding at put insert check_for_quorum
  add_and_check_for_quorum vs replica_idx msg q =
      let q' : QuorumSet K M = record q {
        messages = put vs (insert replica_idx msg (at vs q.messages)) q.messages;
      } in
      (q', check_for_quorum vs q')

  unfoldable pub add : K → ℕ → M → QuorumSet K M → QuorumSet K M
  unfolding add_and_check_for_quorum
  add vs replica_idx msg q = (add_and_check_for_quorum vs replica_idx msg q).0
