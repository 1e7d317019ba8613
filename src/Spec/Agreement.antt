-- ===== src/Spec/Agreement.antt =====
-- HandleSyncReply of spec/replica.cc: what the leader commits, and when.
use specpaxos.Base.{
  ℕ, ◌+◌, ◌≤◌, ◌<◌, ◌≡◌, ◌≢◌, ◌⊎◌, ap, ◌∙◌, subst, none, some, ok, arith, List, [], ◌∷◌, All,
  Bool-cases, inl, inr,
}
use specpaxos.Base.Code.{
  if◌then◌else◌, Ensures, returns, faults, Ensures-elim, Ensures-if, Ensures-assert, Ensures-ok,
  Ensures-asserted, Ensures-if_null, Ensures-all, Ensures-weaken, Ensures-bind,
}
use specpaxos.Base.Dictionary.{Bytes, bytes_eq, bytes_eq→≡}
use specpaxos.Base.Map.{Map}
use specpaxos.Configuration.{fast_quorum_size}
use specpaxos.QuorumSet.{nat_key, at, get_messages, add, add_and_check_for_quorum, check_for_quorum}
use specpaxos.QuorumSet.Laws.{gather, has_sent, Message as QuorumMessage}
use specpaxos.Configuration.Quorums.{members}
use specpaxos.Spec.Senders.{supporters, members-supporters, votes-senders}
use specpaxos.Log.{LogEntry, find}
use specpaxos.Spec.Messages.{SyncReplyMessage}
use specpaxos.Spec.State.{SpecReplica, Environment, send}
use specpaxos.Spec.Actions.{start_view_change}
use specpaxos.Spec.Sync.{compare_hashes, handle_sync_reply}
use specpaxos.Spec.Votes.{
  vote, votes, count_hashes-Bounded, count_hash-Bounded, matching_hash-Ensures,
}

-- The votes for one hash, by these messages and by the replica's own entry, are enough.
record HashQuorum {A : Type 0} (opnum : ℕ) (msgs : Map SyncReplyMessage) (s : SpecReplica A)
    : Type 0 where
  entry : LogEntry
  hash : Bytes
  has_entry : find opnum s.log ≡ ok (some entry)
  enough : fast_quorum_size s.configuration ≤ vote entry.hash hash + votes hash msgs

-- A fast quorum of distinct replicas has one hash for the opnum: the replica whose state this is, by
-- its own log, if it has that hash, and those whose newest message of `xs` has it. Its own log has it,
-- unless all others that a fast quorum needs had sent a message before the newest.
pub record FastQuorum {A : Type 0} (opnum : ℕ) (x : QuorumMessage ℕ SyncReplyMessage)
    (xs : List (QuorumMessage ℕ SyncReplyMessage)) (s : SpecReplica A) : Type 0 where
  pub entry : LogEntry
  pub hash : Bytes
  pub has_entry : find opnum s.log ≡ ok (some entry)
  pub enough :
      fast_quorum_size s.configuration
      ≤ members s.configuration.n (supporters s.my_idx opnum entry.hash hash (x ∷ xs))
  pub own_or_late :
      (entry.hash ≡ hash)
      ⊎ (fast_quorum_size s.configuration ≤ 1 + members s.configuration.n (has_sent opnum xs))

-- A SYNCREPLY as HandleSyncReply adds it to the quorum set.
abbrev pub sync_reply : SyncReplyMessage → QuorumMessage ℕ SyncReplyMessage
sync_reply msg = record {
  identifier = msg.last_speculative;
  replica_idx = msg.replica_idx;
  content = msg;
}

module _ {A : Type 0} (s : SpecReplica A) (required opnum : ℕ)
    (x : QuorumMessage ℕ SyncReplyMessage) (xs : List (QuorumMessage ℕ SyncReplyMessage)) where
  distinct :
      s.my_idx < s.configuration.n
      → All (λ y. y.replica_idx < s.configuration.n) (x ∷ xs)
      → All (λ y. y.replica_idx ≢ s.my_idx) (x ∷ xs)
      → HashQuorum opnum (at opnum (gather required (x ∷ xs)).messages) s
      → FastQuorum opnum x xs s
  unfolding vote if◌then◌else◌
  distinct here small others q =
      let n = s.configuration.n in
      let own = q.entry.hash in
      let count =
        members-supporters required n opnum s.my_idx own q.hash (x ∷ xs) here small others in
      let senders = votes-senders required n opnum q.hash x xs small in
      record {
        entry = q.entry;
        hash = q.hash;
        has_entry = q.has_entry;
        enough = omega (arith, q.enough, count);
        own_or_late = elim (Bool-cases (bytes_eq own q.hash)) [
          | inl same ↦ inl (bytes_eq→≡ own q.hash same)
          | inr other ↦
              let no_vote : vote own q.hash ≡ 0 = ground arith in
              inr (omega (arith, q.enough, no_vote, senders))
        ];
      }

module _ (env : Environment) where
  open env use {application}
  open application use {State}

  compare_hashes-Ensures :
      (opnum : ℕ) (msgs : Map SyncReplyMessage) (s : SpecReplica State)
      → Ensures
          (λ s'. s.last_committed < s'.last_committed → HashQuorum opnum msgs s)
          (compare_hashes env opnum msgs s)
  unfolding compare_hashes start_view_change send
  compare_hashes-Ensures opnum msgs s =
      Ensures-if _ (λ _. returns (λ more. absurd (omega arith)))
        λ _. Ensures-ok _ λ found f. Ensures-asserted _ λ entry e.
          let first = count_hashes-Bounded (λ k. 0) msgs [] tt in
          let all = count_hash-Bounded _ entry.hash _ first in
          Ensures-bind
            (matching_hash-Ensures (λ k. vote entry.hash k + (0 + votes k msgs)) _ _ none all
              (λ x same. absurd cc))
            λ matching enough.
              Ensures-if_null _ (λ _. returns (λ more. absurd (omega arith)))
                λ hash same. Ensures-all _ λ s' more. record {
                  entry = entry;
                  hash = hash;
                  has_entry = f ∙ ap ok e;
                  enough = omega (arith, enough hash same);
                }

  kept_messages :
      (msg : SyncReplyMessage) (ms : Map SyncReplyMessage) (s : SpecReplica State)
      → (add_and_check_for_quorum msg.last_speculative msg.replica_idx msg s.sync_reply_quorum).1
        ≡ some ms
      → ms
        ≡ get_messages msg.last_speculative
            (add msg.last_speculative msg.replica_idx msg s.sync_reply_quorum)
  unfolding add get_messages add_and_check_for_quorum check_for_quorum
  kept_messages msg ms s same = ground arith

  of_quorum :
      (msg : SyncReplyMessage) (ms : Map SyncReplyMessage) (s : SpecReplica State)
      → ms
        ≡ get_messages msg.last_speculative
            (add msg.last_speculative msg.replica_idx msg s.sync_reply_quorum)
      → HashQuorum msg.last_speculative ms s
      → HashQuorum msg.last_speculative
          (get_messages msg.last_speculative
            (add msg.last_speculative msg.replica_idx msg s.sync_reply_quorum))
          s
  of_quorum msg ms s same q = subst (λ m. HashQuorum msg.last_speculative m s) same q

  handle_sync_reply-Ensures :
      (msg : SyncReplyMessage) (s : SpecReplica State)
      → Ensures
          (λ s'.
            s.last_committed < s'.last_committed
            → HashQuorum msg.last_speculative
                (get_messages msg.last_speculative
                  (add msg.last_speculative msg.replica_idx msg s.sync_reply_quorum))
                s)
          (handle_sync_reply env msg s)
  unfolding handle_sync_reply
  handle_sync_reply-Ensures msg s =
      Ensures-if _ (λ _. returns (λ more. absurd (omega arith)))
        λ _.
          Ensures-if _ (λ _. returns (λ more. absurd (omega arith)))
            λ _.
              Ensures-if _ (λ _. faults)
                λ _.
                  Ensures-if _ (λ _. faults)
                    λ _. Ensures-assert _ λ _.
                      Ensures-if_null _ (λ _. returns (λ more. absurd (omega arith)))
                        λ ms same.
                          Ensures-weaken (compare_hashes-Ensures msg.last_speculative ms _)
                            λ s' q more. of_quorum msg ms s (kept_messages msg ms s same) (
                              let x = q more in
                              record {
                                entry = x.entry;
                                hash = x.hash;
                                has_entry = x.has_entry;
                                enough = x.enough;
                              })

  -- A leader whose quorum set holds what a list of SYNCREPLYs, the newest first, has put there, all
  -- of them from other replicas of the configuration, and so is the message. When HandleSyncReply
  -- returns and has committed more, there is one hash that a fast quorum of distinct replicas has for
  -- the opnum of the message: replicas whose newest SYNCREPLY for it has the hash, and the leader if the
  -- entry in its log has it. The leader's entry has it, unless as many others as a fast quorum needs
  -- besides the leader had sent one before this message.
  pub handle_sync_reply_quorum :
      (msg : SyncReplyMessage) (required : ℕ) (xs : List (QuorumMessage ℕ SyncReplyMessage))
      (s s' : SpecReplica State)
      → s.sync_reply_quorum ≡ gather required xs
      → s.my_idx < s.configuration.n
      → All (λ x. x.replica_idx < s.configuration.n) (sync_reply msg ∷ xs)
      → All (λ x. x.replica_idx ≢ s.my_idx) (sync_reply msg ∷ xs)
      → handle_sync_reply env msg s ≡ ok s'
      → s.last_committed < s'.last_committed
      → FastQuorum msg.last_speculative (sync_reply msg) xs s
  unfolding gather get_messages
  handle_sync_reply_quorum msg required xs s s' told here small others e more =
      let opnum = msg.last_speculative in
      let votes = Ensures-elim (handle_sync_reply-Ensures msg s) e more in
      let kept =
        subst (λ q. HashQuorum opnum (get_messages opnum (add opnum msg.replica_idx msg q)) s) told
          votes in
      distinct s required opnum (sync_reply msg) xs here small others kept
