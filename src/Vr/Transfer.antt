-- ===== src/Vr/Transfer.antt =====
-- vr/replica.cc: state transfer.
use specpaxos.Base.{ℕ, not, List, [], ◌∷◌, Result, ok, ltb, leb, ◌==◌, add64}
use specpaxos.Base.Code.{◌>>=◌, ◌>>◌, assert, deref, if◌then◌else◌}
use specpaxos.Log.{EntryMessage, prepared, is_committed, find, append, remove_after}
use specpaxos.Log.Transfer.{dump}
use specpaxos.Replica.{is_normal}
use specpaxos.Vr.Messages.{
  PrepareMessage, RequestStateTransferMessage, StateTransferMessage, state_transfer_message,
}
use specpaxos.Vr.State.{Address, to_address, Environment, VrReplica, send, nat_key, viewstamp_key}
use specpaxos.Vr.Actions.{
  is_prepared, send_prepare_oks, request_state_transfer, enter_view, commit_up_to,
}
use specpaxos.Vr.Normal.{handle_prepare}

module _ (env : Environment) where
  open env use {application, sha1}
  open application use {State}

  unfoldable pub handle_request_state_transfer :
      Address → RequestStateTransferMessage → VrReplica State → Result (VrReplica State)
  handle_request_state_transfer remote msg s =
      if not (is_normal s.status)
      then ok s
      else if ltb s.view msg.view
      then ok (request_state_transfer s)
      else do
        entries ← dump (add64 msg.opnum 1) s.log
        ok (
            send
              (to_address remote (
                state_transfer_message
                  (record { view = s.view; opnum = s.last_committed; entries = entries })))
              s)

  -- A replica, and the opnum from which on its PREPAREOKs are due.
  abbrev pub Transfer : Type 0
  Transfer = VrReplica State × ℕ

  unfoldable pub append_entry : EntryMessage → VrReplica State → Result (VrReplica State)
  append_entry m s = do
    log' ← append sha1 (record { view = m.view; opnum = m.opnum }) m.request prepared s.log
    ok (record s { log = log' })

  -- An entry that is committed already is only compared.
  unfoldable pub check_committed : EntryMessage → VrReplica State → Result (VrReplica State)
  check_committed m s = do
    found ← find m.opnum s.log
    entry ← deref found
    assert (entry.viewstamp.opnum == m.opnum)
    assert (entry.viewstamp.view == m.view)
    ok s

  -- An entry with an opnum that is prepared already: one of an older view is replaced.
  unfoldable pub merge_prepared : EntryMessage → Transfer → Result Transfer
  merge_prepared m (s, old_last_op) = do
    found ← find m.opnum s.log
    entry ← deref found
    assert (entry.viewstamp.opnum == m.opnum)
    assert (leb entry.viewstamp.view m.view)
    if entry.viewstamp.view == m.view
        then (assert (is_prepared entry.state) >> ok (s, old_last_op))
        else do
          assert (not (is_committed entry.state))
          log' ← remove_after m.opnum s.log
          s' ← append_entry m (record s { log = log'; last_op = m.opnum })
          ok (s', m.opnum)

  unfoldable pub transfer_entry : EntryMessage → Transfer → Result Transfer
  transfer_entry m (s, old_last_op) =
      if leb m.opnum s.last_committed
      then (do s' ← check_committed m s; ok (s', old_last_op))
      else if leb m.opnum s.last_op
      then merge_prepared m (s, old_last_op)
      else do
        assert (m.opnum == add64 s.last_op 1)
        s' ← append_entry m (record s { last_op = add64 s.last_op 1 })
        ok (s', old_last_op)

  unfoldable pub transfer_entries : List EntryMessage → Transfer → Result Transfer
  transfer_entries [] t = ok t
  transfer_entries (m ∷ ms) t = do t' ← transfer_entry m t; transfer_entries ms t'

  unfoldable pub handle_prepares :
      List (Address × PrepareMessage) → VrReplica State → Result (VrReplica State)
  handle_prepares [] s = ok s
  handle_prepares ((remote, msg) ∷ rest) s = do
    s' ← handle_prepare env remote msg s
    handle_prepares rest s'

  -- The list of pending PREPAREs is copied and cleared; the loop is over the cleared list.
  unfoldable pub process_pending : VrReplica State → Result (VrReplica State)
  process_pending s =
      let s' = record s { pending_prepares = [] } in handle_prepares s'.pending_prepares s'

  -- Enter the view of the message, if it is a later one.
  unfoldable pub enter_newer : ℕ → VrReplica State → VrReplica State
  enter_newer view s = if ltb s.view view then enter_view view s else s

  unfoldable pub handle_state_transfer :
      StateTransferMessage → VrReplica State → Result (VrReplica State)
  handle_state_transfer msg s = if ltb msg.view s.view then ok s else do
    (s1, old_last_op) ← transfer_entries msg.entries (s, s.last_op)
    let s2 = enter_newer msg.view s1
    assert (leb msg.opnum s2.last_op)
    s3 ← commit_up_to env msg.opnum s2
    s4 ← send_prepare_oks old_last_op s3
    process_pending s4
