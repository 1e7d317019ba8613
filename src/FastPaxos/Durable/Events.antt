-- ===== src/FastPaxos/Durable/Events.antt =====
-- Committed operations under state transfer, ReceiveMessage and the timeouts of fastpaxos/replica.cc.
use specpaxos.Base.{ℕ, List, [], ◌∷◌, ok, ◌≡◌, arith}
use specpaxos.Base.Code.{
  if◌then◌else◌, Ensures, returns, faults, Ensures-elim, Ensures-if, Ensures-assert, Ensures-bind,
  Ensures-ok, Ensures-deref,
}
use specpaxos.Log.{EntryMessage, prepared}
use specpaxos.Log.Stable.{append-Keeps, remove_after-Keeps}
use specpaxos.Log.Progress.{Progress, IsSound, Extends, Extends-refl, Extends-Keeps}
use specpaxos.Replica.{Address}
use specpaxos.FastPaxos.Messages.{
  Message, RequestStateTransferMessage, StateTransferMessage, request_message, reply_message,
  unlogged_request_message, unlogged_reply_message, prepare_message, prepare_ok_message,
  commit_message, request_state_transfer_message, state_transfer_message,
}
use specpaxos.FastPaxos.State.{FastPaxosReplica, Environment, send}
use specpaxos.FastPaxos.Actions.{enter_view}
use specpaxos.FastPaxos.Durable.{
  progress, From, From-eq, send_prepare_oks-From, request_state_transfer-From, resend_prepare-From,
  commit_up_to-From,
}
use specpaxos.FastPaxos.Durable.Normal.{
  replace_request-From, handle_request-From, handle_unlogged_request-From, handle_prepare-From,
  handle_prepare_ok-From, handle_commit-From,
}
use specpaxos.FastPaxos.Transfer.{
  handle_request_state_transfer, append_entry, check_committed, merge_prepared, new_entry,
  transfer_entry, transfer_entries, enter_newer, handle_state_transfer,
}
use specpaxos.FastPaxos.Receive.{
  Event, receives, state_transfer_fires, resend_prepare_fires, receive_message, timeout_callback,
  step, run,
}

module _ (env : Environment) where
  open env use {application, sha1}
  open application use {State}

  handle_request_state_transfer-From :
      {p : Progress} (remote : Address) (msg : RequestStateTransferMessage)
      (s : FastPaxosReplica State)
      → From p s
      → Ensures (From p) (handle_request_state_transfer env remote msg s)
  unfolding handle_request_state_transfer send
  handle_request_state_transfer-From remote msg s h =
      Ensures-if _ (λ _. returns h)
        λ _.
          Ensures-if _ (λ _. returns (request_state_transfer-From s h))
            λ _.
              Ensures-if _ (λ _. returns h)
                λ _. Ensures-assert _ λ _. Ensures-ok _ λ entries _. returns h

  append_entry-From :
      {p : Progress} (m : EntryMessage) (s : FastPaxosReplica State)
      → From p s
      → Ensures (From p) (append_entry env m s)
  unfolding append_entry
  append_entry-From m s h = Ensures-ok _ λ log' a.
      returns (Extends-Keeps h (append-Keeps h.is_sound.has_committed sha1 _ m.request prepared a))

  merge_prepared-From :
      {p : Progress} (m : EntryMessage) (s : FastPaxosReplica State) (old_last : ℕ)
      → From p s
      → Ensures (λ t. From p t.0) (merge_prepared env m (s, old_last))
  unfolding merge_prepared
  merge_prepared-From m s old_last h = Ensures-ok _ λ found _. Ensures-deref _ λ entry _.
      Ensures-assert _ λ _. Ensures-assert _ λ _.
        Ensures-if _ (λ _. Ensures-assert _ λ _. returns h)
          λ _. Ensures-assert _ λ _. Ensures-ok _ λ log' r.
            Ensures-bind
              (append_entry-From m _
                (Extends-Keeps h (remove_after-Keeps h.is_sound.has_committed m.opnum r)))
              λ s' h'. returns h'

  new_entry-From :
      {p : Progress} (m : EntryMessage) (s : FastPaxosReplica State) (old_last : ℕ)
      → From p s
      → Ensures (λ t. From p t.0) (new_entry env m (s, old_last))
  unfolding new_entry
  new_entry-From m s old_last h =
      Ensures-if _
        (λ _. Ensures-bind (replace_request-From m.opnum m.request s h) λ s' h'. returns h')
        (λ _. Ensures-assert _ λ _. Ensures-bind (append_entry-From m _ h) λ s' h'. returns h')

  transfer_entry-From :
      {p : Progress} (m : EntryMessage) (s : FastPaxosReplica State) (old_last : ℕ)
      → From p s
      → Ensures (λ t. From p t.0) (transfer_entry env m (s, old_last))
  unfolding transfer_entry check_committed
  transfer_entry-From m s old_last h =
      Ensures-if _
        (λ _. Ensures-ok _ λ found _.
          Ensures-deref _ λ entry _. Ensures-assert _ λ _. Ensures-assert _ λ _. returns h)
        λ _.
          Ensures-if _ (λ _. merge_prepared-From m s old_last h)
            (λ _. new_entry-From m s old_last h)

  transfer_entries-From :
      {p : Progress} (ms : List EntryMessage) (s : FastPaxosReplica State) (old_last : ℕ)
      → From p s
      → Ensures (λ t. From p t.0) (transfer_entries env ms (s, old_last))
  unfolding transfer_entries
  transfer_entries-From [] s old_last h = returns h
  transfer_entries-From (m ∷ ms) s old_last h =
      Ensures-bind (transfer_entry-From m s old_last h) λ t h'. transfer_entries-From ms t.0 t.1 h'

  enter_newer-From :
      {p : Progress} (view : ℕ) (s : FastPaxosReplica State)
      → From p s
      → From p (enter_newer env view s)
  unfolding enter_newer enter_view if◌then◌else◌
  enter_newer-From view s h = From-eq s (enter_newer env view s) (ground arith) h

  handle_state_transfer-From :
      {p : Progress} (msg : StateTransferMessage) (s : FastPaxosReplica State)
      → From p s
      → Ensures (From p) (handle_state_transfer env msg s)
  unfolding handle_state_transfer
  handle_state_transfer-From msg s h =
      Ensures-if _ (λ _. returns h)
        λ _. Ensures-bind (transfer_entries-From msg.entries s _ h) λ t h1. Ensures-assert _ λ _.
          Ensures-assert _ λ _.
            Ensures-bind (commit_up_to-From env msg.opnum _ (enter_newer-From msg.view t.0 h1))
              λ s3 h3. Ensures-bind (send_prepare_oks-From t.1 s3 h3) λ s4 h4. returns h4

  receive_message-From :
      {p : Progress} (remote : Address) (m : Message) (s : FastPaxosReplica State)
      → From p s
      → Ensures (From p) (receive_message env remote m s)
  unfolding receive_message
  receive_message-From remote (request_message m) s h = handle_request-From env remote m s h
  receive_message-From remote (unlogged_request_message m) s h =
      handle_unlogged_request-From env remote m s h
  receive_message-From remote (prepare_message m) s h = handle_prepare-From env remote m s h
  receive_message-From remote (prepare_ok_message m) s h = handle_prepare_ok-From env remote m s h
  receive_message-From remote (commit_message m) s h = handle_commit-From env m s h
  receive_message-From remote (request_state_transfer_message m) s h =
      handle_request_state_transfer-From remote m s h
  receive_message-From remote (state_transfer_message m) s h = handle_state_transfer-From m s h
  receive_message-From remote (reply_message m) s h = faults
  receive_message-From remote (unlogged_reply_message m) s h = faults

  step-From :
      {p : Progress} (e : Event) (s : FastPaxosReplica State)
      → From p s
      → Ensures (From p) (step env e s)
  unfolding step timeout_callback
  step-From (receives remote m) s h = receive_message-From remote m s h
  step-From state_transfer_fires s h = returns h
  step-From resend_prepare_fires s h = resend_prepare-From s h

  run-From :
      {p : Progress} (es : List Event) (s : FastPaxosReplica State)
      → From p s
      → Ensures (From p) (run env es s)
  unfolding run
  run-From [] s h = returns h
  run-From (e ∷ es) s h = Ensures-bind (step-From e s h) λ s' h'. run-From es s' h'

  -- Whatever messages arrive and timeouts fire at a sound replica of Fast Paxos, in any order: while no
  -- check fails, its number of committed operations does not fall, the entries that were committed stay
  -- the same, although guessed requests are replaced, and all entries up to the new number are present,
  -- numbered and marked committed.
  pub run_stable :
      (es : List Event) (s s' : FastPaxosReplica State)
      → IsSound (progress s)
      → run env es s ≡ ok s'
      → Extends (progress s) (progress s')
  run_stable es s s' h e = Ensures-elim (run-From es s (Extends-refl h)) e
