-- ===== src/Spec/Durable/Sync.antt =====
-- Committed operations under SYNC and SYNCREPLY of spec/replica.cc.
use specpaxos.Base.{ℕ}
use specpaxos.Base.Map.{Map}
use specpaxos.Base.Code.{
  if◌then◌else◌, Ensures, returns, faults, Ensures-if, Ensures-assert, Ensures-bind, Ensures-ok,
  Ensures-asserted, Ensures-if_null,
}
use specpaxos.Log.{Bytes, LogEntry}
use specpaxos.Spec.Messages.{SyncMessage, SyncReplyMessage}
use specpaxos.Spec.State.{SpecReplica, Environment}
use specpaxos.Spec.Durable.{Progress, From}
use specpaxos.Spec.Durable.Actions.{start_view_change-From, send_sync_reply-From, commit_up_to-From}
use specpaxos.Spec.Sync.{
  answer_sync, handle_sync, commit_matching, compare_hashes, handle_sync_reply,
}
use specpaxos.Base.{Bool-cases, inl, inr}
use specpaxos.Base.Dictionary.{bytes_eq}

module _ (env : Environment) where
  open env use {application}
  open application use {State}

  answer_sync-From :
      {p : Progress} (msg : SyncMessage) (s : SpecReplica State)
      → From p s
      → Ensures (From p) (answer_sync env msg s)
  unfolding answer_sync
  answer_sync-From msg s h = Ensures-if _ (λ _. returns h) (λ _. send_sync_reply-From _ s h)

  pub handle_sync-From :
      {p : Progress} (msg : SyncMessage) (s : SpecReplica State)
      → From p s
      → Ensures (From p) (handle_sync env msg s)
  unfolding handle_sync
  handle_sync-From msg s h =
      Ensures-if _ (λ _. returns h)
        λ _.
          Ensures-if _ (λ _. returns h)
            λ _.
              Ensures-if _ (λ _. returns (start_view_change-From _ s h))
                λ _.
                  Ensures-if _ (λ _. faults)
                    λ _.
                      Ensures-if _ (λ _. returns (start_view_change-From _ _ h))
                        λ _.
                          Ensures-if _
                            (λ _. Ensures-ok _ λ found _. Ensures-asserted _ λ entry _.
                              Ensures-if _
                                (λ _.
                                  Ensures-bind (commit_up_to-From env _ _ h)
                                    λ s2 h2. answer_sync-From msg s2 h2)
                                (λ _. returns (start_view_change-From _ _ h)))
                            (λ _. answer_sync-From msg _ h)

  commit_matching-From :
      {p : Progress} (opnum : ℕ) (entry : LogEntry) (matching : Bytes) (s : SpecReplica State)
      → From p s
      → Ensures (From p) (commit_matching env opnum entry matching s)
  unfolding commit_matching if◌then◌else◌
  commit_matching-From {p} opnum entry matching s h =
      commit_up_to-From env opnum _ (elim (Bool-cases (bytes_eq entry.hash matching)) [
        | inl same ↦ rw same h
        | inr other ↦ rw other (start_view_change-From _ s h)
      ])

  compare_hashes-From :
      {p : Progress} (opnum : ℕ) (msgs : Map SyncReplyMessage) (s : SpecReplica State)
      → From p s
      → Ensures (From p) (compare_hashes env opnum msgs s)
  unfolding compare_hashes
  compare_hashes-From opnum msgs s h =
      Ensures-if _ (λ _. returns h)
        λ _. Ensures-ok _ λ found _. Ensures-asserted _ λ entry _. Ensures-ok _ λ matching _.
          Ensures-if_null _ (λ _. returns (start_view_change-From _ s h))
            λ hash _. commit_matching-From opnum entry hash s h

  pub handle_sync_reply-From :
      {p : Progress} (msg : SyncReplyMessage) (s : SpecReplica State)
      → From p s
      → Ensures (From p) (handle_sync_reply env msg s)
  unfolding handle_sync_reply
  handle_sync_reply-From msg s h =
      Ensures-if _ (λ _. returns h)
        λ _.
          Ensures-if _ (λ _. returns h)
            λ _.
              Ensures-if _ (λ _. faults)
                λ _.
                  Ensures-if _ (λ _. faults)
                    λ _.
                      Ensures-assert _
                        λ _. Ensures-if_null _ (λ _. returns h) λ ms _. compare_hashes-From _ ms _ h
