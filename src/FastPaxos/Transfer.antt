-- ===== src/FastPaxos/Transfer.antt =====
-- fastpaxos/replica.cc: state transfer.
use specpaxos.Base.{ℕ, not, List, [], ◌∷◌, Result, ok, ltb, leb, ◌==◌, add64}
use specpaxos.Base.Code.{◌>>=◌, ◌>>◌, assert, deref, if◌then◌else◌}
use specpaxos.Log.{EntryMessage, prepared, is_committed, find, append, remove_after}
use specpaxos.Log.Transfer.{dump}
use specpaxos.Replica.{Address, is_normal}
use specpaxos.FastPaxos.Messages.{
  RequestStateTransferMessage, StateTransferMessage, state_transfer_message,
}
use specpaxos.FastPaxos.State.{to_address, Environment, FastPaxosReplica, am_leader, send}
use specpaxos.FastPaxos.Actions.{
  is_prepared, send_prepare_oks, request_state_transfer, enter_view, commit_up_to,
}
use specpaxos.FastPaxos.Normal.{replace_request}

module _ (env : Environment) where
  open env use {application, sha1}
  open application use {State}

  unfoldable pub handle_request_state_transfer :
      Address
      → RequestStateTransferMessage
      → FastPaxosReplica State
      → Result (FastPaxosReplica State)
  handle_request_state_transfer remote msg s =
      if not (is_normal s.status)
      then ok s
      else if ltb s.view msg.view
      then ok (request_state_transfer s)
      else if not (am_leader s)
      then ok s
      else (do
        assert (s.last_slow_path == s.last_fast_path)
        entries ← dump (add64 msg.opnum 1) s.log
        let reply : StateTransferMessage = record {
          view = s.view;
          opnum = s.last_committed;
          entries = entries;
          lastop = s.last_slow_path;
        }
        ok (send (to_address remote (state_transfer_message reply)) s))

  -- A replica, and the opnum from which on its PREPAREOKs are due.
  abbrev pub Transfer : Type 0
  Transfer = FastPaxosReplica State × ℕ

  unfoldable pub append_entry :
      EntryMessage → FastPaxosReplica State → Result (FastPaxosReplica State)
  append_entry m s = do
    log' ← append sha1 (record { view = m.view; opnum = m.opnum }) m.request prepared s.log
    ok (record s { log = log' })

  -- An entry that is committed already is only compared.
  unfoldable pub check_committed : EntryMessage → Transfer → Result Transfer
  check_committed m (s, old_last) = do
    found ← find m.opnum s.log
    entry ← deref found
    assert (entry.viewstamp.opnum == m.opnum)
    assert (entry.viewstamp.view == m.view)
    ok (s, old_last)

  -- An entry with an opnum that is prepared already: one of an older view is replaced.
  unfoldable pub merge_prepared : EntryMessage → Transfer → Result Transfer
  merge_prepared m (s, old_last) = do
    found ← find m.opnum s.log
    entry ← deref found
    assert (entry.viewstamp.opnum == m.opnum)
    assert (leb entry.viewstamp.view m.view)
    if entry.viewstamp.view == m.view
        then (assert (is_prepared entry.state) >> ok (s, old_last))
        else (do
          assert (not (is_committed entry.state))
          log' ← remove_after m.opnum s.log
          s' ← append_entry m (record s { log = log'; last_slow_path = m.opnum })
          ok (s', m.opnum))

  -- An entry of the fast path is replaced, and one beyond is appended.
  unfoldable pub new_entry : EntryMessage → Transfer → Result Transfer
  new_entry m (s, old_last) =
      if leb m.opnum s.last_fast_path
      then (do
        s' ← replace_request m.opnum m.request s
        ok (record s' { last_slow_path = add64 s'.last_slow_path 1 }, old_last))
      else (do
        assert (m.opnum == add64 s.last_slow_path 1)
        s' ← append_entry m (record s {
          last_slow_path = add64 s.last_slow_path 1;
          last_fast_path = add64 s.last_fast_path 1;
        })
        ok (s', old_last))

  unfoldable pub transfer_entry : EntryMessage → Transfer → Result Transfer
  transfer_entry m (s, old_last) =
      if leb m.opnum s.last_committed
      then check_committed m (s, old_last)
      else if leb m.opnum s.last_slow_path
      then merge_prepared m (s, old_last)
      else new_entry m (s, old_last)

  unfoldable pub transfer_entries : List EntryMessage → Transfer → Result Transfer
  transfer_entries [] t = ok t
  transfer_entries (m ∷ ms) t = do t' ← transfer_entry m t; transfer_entries ms t'

  unfoldable pub enter_newer : ℕ → FastPaxosReplica State → FastPaxosReplica State
  enter_newer view s = if ltb s.view view then enter_view view s else s

  -- The loop over the pending PREPAREs goes over the list that has just been cleared, so none of them
  -- is handled.
  unfoldable pub handle_state_transfer :
      StateTransferMessage → FastPaxosReplica State → Result (FastPaxosReplica State)
  handle_state_transfer msg s = if ltb msg.view s.view then ok s else do
    (s1, old_last) ← transfer_entries msg.entries (s, s.last_slow_path)
    let s2 = enter_newer msg.view s1
    assert (leb msg.opnum s2.last_slow_path)
    assert (leb s2.last_slow_path s2.last_fast_path)
    s3 ← commit_up_to env msg.opnum s2
    s4 ← send_prepare_oks old_last s3
    ok (record s4 { pending_prepares = [] })
