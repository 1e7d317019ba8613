-- ===== src/Vr/Durable/Transfer.antt =====
-- Committed operations under the handlers of state transfer of vr/replica.cc.
use specpaxos.Base.{ℕ, List, [], ◌∷◌, arith}
use specpaxos.Base.Code.{
  if◌then◌else◌, Ensures, returns, Ensures-if, Ensures-assert, Ensures-bind, Ensures-ok,
  Ensures-deref,
}
use specpaxos.Log.{EntryMessage, prepared}
use specpaxos.Log.Stable.{append-Keeps, remove_after-Keeps}
use specpaxos.Vr.Messages.{RequestStateTransferMessage, StateTransferMessage}
use specpaxos.Vr.Durable.Actions.{
  From-eq, request_state_transfer-From, send_prepare_oks-From, commit_up_to-From,
}
use specpaxos.Vr.State.{VrReplica, Environment, Address, send}
use specpaxos.Log.Progress.{Progress, Extends-Keeps}
use specpaxos.Vr.Durable.{From}
use specpaxos.Vr.Actions.{enter_view}
use specpaxos.Vr.Transfer.{
  handle_request_state_transfer, append_entry, check_committed, merge_prepared, transfer_entry,
  transfer_entries, handle_prepares, process_pending, handle_state_transfer, enter_newer,
}

module _ (env : Environment) where
  open env use {application, sha1}
  open application use {State}

  pub handle_request_state_transfer-From :
      {p : Progress} (remote : Address) (msg : RequestStateTransferMessage) (s : VrReplica State)
      → From p s
      → Ensures (From p) (handle_request_state_transfer env remote msg s)
  unfolding handle_request_state_transfer send
  handle_request_state_transfer-From remote msg s h =
      Ensures-if _ (λ _. returns h)
        λ _.
          Ensures-if _ (λ _. returns (request_state_transfer-From s h))
            λ _. Ensures-ok _ λ entries _. returns h

  append_entry-From :
      {p : Progress} (m : EntryMessage) (s : VrReplica State)
      → From p s
      → Ensures (From p) (append_entry env m s)
  unfolding append_entry
  append_entry-From m s h = Ensures-ok _ λ log' a.
      returns (Extends-Keeps h (append-Keeps h.is_sound.has_committed sha1 _ m.request prepared a))

  check_committed-From :
      {p : Progress} (m : EntryMessage) (s : VrReplica State)
      → From p s
      → Ensures (From p) (check_committed env m s)
  unfolding check_committed
  check_committed-From m s h =
      Ensures-ok _
        λ found _. Ensures-deref _ λ entry _. Ensures-assert _ λ _. Ensures-assert _ λ _. returns h

  merge_prepared-From :
      {p : Progress} (m : EntryMessage) (s : VrReplica State) (old : ℕ)
      → From p s
      → Ensures (λ t. From p t.0) (merge_prepared env m (s, old))
  unfolding merge_prepared
  merge_prepared-From m s old h = Ensures-ok _ λ found _. Ensures-deref _ λ entry _.
      Ensures-assert _ λ _. Ensures-assert _ λ _.
        Ensures-if _ (λ _. Ensures-assert _ λ _. returns h)
          λ _. Ensures-assert _ λ _. Ensures-ok _ λ log' r.
            let k = Extends-Keeps h (remove_after-Keeps h.is_sound.has_committed m.opnum r) in
            Ensures-bind (append_entry-From m _ k) λ s' k'. returns k'

  transfer_entry-From :
      {p : Progress} (m : EntryMessage) (s : VrReplica State) (old : ℕ)
      → From p s
      → Ensures (λ t. From p t.0) (transfer_entry env m (s, old))
  unfolding transfer_entry
  transfer_entry-From m s old h =
      Ensures-if _ (λ _. Ensures-bind (check_committed-From m s h) λ s' k. returns k)
        λ _.
          Ensures-if _ (λ _. merge_prepared-From m s old h)
            λ _. Ensures-assert _ λ _. Ensures-bind (append_entry-From m _ h) λ s' k. returns k

  transfer_entries-From :
      {p : Progress} (ms : List EntryMessage) (s : VrReplica State) (old : ℕ)
      → From p s
      → Ensures (λ t. From p t.0) (transfer_entries env ms (s, old))
  unfolding transfer_entries
  transfer_entries-From [] s old h = returns h
  transfer_entries-From (m ∷ ms) s old h =
      Ensures-bind (transfer_entry-From m s old h) λ t k. transfer_entries-From ms t.0 t.1 k

  enter_newer-From :
      {p : Progress} (view : ℕ) (s : VrReplica State) → From p s → From p (enter_newer env view s)
  unfolding enter_newer if◌then◌else◌ enter_view
  enter_newer-From view s h = From-eq s (enter_newer env view s) (ground arith) h

  pub handle_state_transfer-From :
      {p : Progress} (msg : StateTransferMessage) (s : VrReplica State)
      → From p s
      → Ensures (From p) (handle_state_transfer env msg s)
  unfolding handle_state_transfer process_pending handle_prepares
  handle_state_transfer-From msg s h =
      Ensures-if _ (λ _. returns h)
        λ _. Ensures-bind (transfer_entries-From msg.entries s s.last_op h) λ t k.
          let k' = enter_newer-From msg.view t.0 k in
          Ensures-assert _ λ _.
            Ensures-bind (commit_up_to-From env msg.opnum _ k')
              λ s3 h3. Ensures-bind (send_prepare_oks-From t.1 s3 h3) λ s4 h4. returns h4
