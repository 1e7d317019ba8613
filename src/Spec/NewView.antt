-- ===== src/Spec/NewView.antt =====
-- spec/replica.cc: the start of a new view: HandleDoViewChange, HandleStartView and HandleInView.
use specpaxos.Base.{
  ℕ, Bool, ◌+◌, true, false, not, [], ◌∷◌, Result, ok, err, panicked, ltb, leb, ◌==◌, ◌||◌,
}
use specpaxos.Base.Code.{◌>>=◌, ◌>>◌, assert, asserted, deref, if_null, if◌then◌else◌}
use specpaxos.Base.Dictionary.{bytes_eq}
use specpaxos.Base.Map.{Map}
use specpaxos.Configuration.{get_leader_index}
use specpaxos.QuorumSet.{
  nat_key, least, get_messages, add, check_for_quorum, add_and_check_for_quorum,
}
use specpaxos.Log.{find}
use specpaxos.Log.Transfer.{dump}
use specpaxos.Replica.{Address, is_normal}
use specpaxos.Spec.Messages.{
  DoViewChangeMessage, StartViewMessage, InViewMessage, GapMessage, start_view_message,
  in_view_message, fill_log_gap_message,
}
use specpaxos.Spec.State.{to_all, to_replica, to_address, Environment, SpecReplica, am_leader, send}
use specpaxos.Spec.Actions.{send_sync, commit_up_to}
use specpaxos.Spec.Requests.{enter_view}
use specpaxos.Spec.MergeChecks.{merge_logs}
use specpaxos.Spec.Install.{install_log}
use specpaxos.Spec.ViewChange.{
  dump_start, logs_agree, greatest_start, convert_log, is_old_view, join_view_change,
  send_fill_dvc_gap, need_fill_dvc_gap, leaves_gap, start_view_of,
}

module _ (env : Environment) where
  open env use {application, sha1}
  open application use {State}

  -- With a quorum of DOVIEWCHANGEs: merge and install the logs, enter the view, and send the new log.
  -- The least committed opnums are computed and not used, but they need messages.
  unfoldable pub lead_view :
      ℕ → ℕ → Map DoViewChangeMessage → SpecReplica State → Result (SpecReplica State)
  lead_view view max_start msgs s = do
    new_log ← merge_logs sha1 s.view max_start msgs s
    s1 ← install_log env new_log s
    committed_svc ← least (λ m. m.last_committed) (get_messages s1.view s1.start_view_change_quorum)
    committed_dvc ← least (λ m. m.last_committed) msgs
    let first = dump_start s1.last_speculative
    s2 ← enter_view env view s1
    assert (am_leader s2)
    entries ← dump first s2.log
    ok (send (to_all (start_view_message (start_view_of entries s2))) s2)

  unfoldable pub complete_view_change : ℕ → ℕ → SpecReplica State → Result (SpecReplica State)
  complete_view_change view max_start s =
      if_null (check_for_quorum view s.do_view_change_quorum) (ok s)
        λ msgs. lead_view view max_start msgs s

  -- A DOVIEWCHANGE, when longer logs have been asked for.
  unfoldable pub handle_longer_log :
      DoViewChangeMessage → SpecReplica State → Result (SpecReplica State)
  handle_longer_log msg s =
      if leaves_gap msg s
      then send_fill_dvc_gap msg.replica_idx msg.view s
      else complete_view_change msg.view 0 (record s {
        do_view_change_quorum = add msg.view msg.replica_idx msg s.do_view_change_quorum;
      })

  -- The logs have to agree where the last of them starts. Otherwise longer ones are asked for.
  unfoldable pub compare_logs :
      DoViewChangeMessage → Map DoViewChangeMessage → SpecReplica State → Result (SpecReplica State)
  compare_logs msg dvcs s =
      let max_start = greatest_start dvcs 0 in
      if ltb s.last_speculative max_start
      then need_fill_dvc_gap msg.view s
      else if ltb 0 max_start
      then (do
        found ← find max_start s.log
        my_entry ← asserted found
        agree ← logs_agree max_start my_entry.hash dvcs
        if agree then complete_view_change msg.view max_start s else need_fill_dvc_gap msg.view s)
      else complete_view_change msg.view max_start s

  unfoldable pub handle_do_view_change :
      DoViewChangeMessage → SpecReplica State → Result (SpecReplica State)
  handle_do_view_change msg s = if is_old_view msg.view s then ok s else do
    let s1 = join_view_change msg.view s
    assert (get_leader_index s1.configuration msg.view == s1.my_idx)
    if s1.need_fill_dvc == msg.view
        then handle_longer_log msg s1
        else let q = add msg.view msg.replica_idx msg s1.do_view_change_quorum in
          compare_logs msg (get_messages msg.view q) (record s1 { do_view_change_quorum = q })

  -- Install the leader's log, tell the leader, and enter the view.
  unfoldable pub follow_view : StartViewMessage → SpecReplica State → Result (SpecReplica State)
  follow_view msg s = do
    new_log ← convert_log msg.entries 0
    s1 ← install_log env new_log s
    s2 ← commit_up_to env msg.last_committed s1
    let iv : InViewMessage = record {
      view = msg.view;
      last_speculative = msg.last_speculative;
      replica_idx = s2.my_idx;
    }
    let s3 = send (to_replica (get_leader_index s2.configuration msg.view) (in_view_message iv)) s2
    assert (s3.last_speculative == msg.last_speculative)
    assert (leb msg.last_committed s3.last_committed)
    s4 ← enter_view env msg.view s3
    assert (not (am_leader s4))
    ok s4

  unfoldable pub request_longer_log :
      Address → StartViewMessage → SpecReplica State → SpecReplica State
  request_longer_log remote msg s =
      let flg : GapMessage = record { view = msg.view; last_committed = s.last_committed } in
      send (to_address remote (fill_log_gap_message flg)) s

  -- Whether the entries of a STARTVIEW do not connect to the replica's log.
  unfoldable pub is_too_short : StartViewMessage → SpecReplica State → Result Bool
  is_too_short msg s = elim msg.entries [
    | [] ↦ ok false
    | first ∷ rest ↦
        if ltb (s.last_committed + 1) first.opnum
        then if ltb s.last_speculative first.opnum then ok true else (do
          found ← find first.opnum s.log
          entry ← deref found
          ok (not (bytes_eq first.hash entry.hash)))
        else ok false
  ]

  unfoldable pub handle_start_view :
      Address → StartViewMessage → SpecReplica State → Result (SpecReplica State)
  handle_start_view remote msg s = if is_old_view msg.view s then ok s else do
    assert (not (get_leader_index s.configuration msg.view == s.my_idx))
    short ← is_too_short msg s
    if short then ok (request_longer_log remote msg s) else follow_view msg s

  -- With a quorum of INVIEWs.
  unfoldable pub commit_in_view : InViewMessage → SpecReplica State → Result (SpecReplica State)
  commit_in_view msg s = do
    assert (leb msg.last_speculative s.last_speculative)
    if ltb msg.last_speculative s.last_committed
        then ok s
        else (do s' ← commit_up_to env msg.last_speculative s; send_sync s')

  unfoldable pub handle_in_view : InViewMessage → SpecReplica State → Result (SpecReplica State)
  handle_in_view msg s =
      if ltb msg.view s.view
      then ok s
      else if ltb s.view msg.view || not (is_normal s.status)
      then err panicked
      else (do
        assert (get_leader_index s.configuration msg.view == s.my_idx)
        let (q, msgs) = add_and_check_for_quorum msg.view msg.replica_idx msg s.in_view_quorum
        let s' = record s { in_view_quorum = q }
        if_null msgs (ok s') (λ ms. commit_in_view msg s'))
