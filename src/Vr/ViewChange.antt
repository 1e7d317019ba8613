-- ===== src/Vr/ViewChange.antt =====
-- vr/replica.cc: the view change.
use Prim.Native.Nat.{min}
use specpaxos.Base.{
  ℕ, Bool, not, ◌&&◌, ◌||◌, Option, none, some, List, [], ◌∷◌, Result, ok, err, panicked, ltb, ◌==◌,
  add64,
}
use specpaxos.Base.Code.{◌>>=◌, ◌>>◌, assert, if_null, if◌then◌else◌}
use specpaxos.Base.Map.{Map}
use specpaxos.Configuration.{get_leader_index}
use specpaxos.QuorumSet.{least, get_messages, add_and_check_for_quorum}
use specpaxos.Log.{EntryMessage, remove_after, last_viewstamp}
use specpaxos.Log.Transfer.{dump, install}
use specpaxos.Replica.{is_view_change}
use specpaxos.Vr.Messages.{
  StartViewChangeMessage, DoViewChangeMessage, StartViewMessage, do_view_change_message,
  start_view_message,
}
use specpaxos.Vr.State.{
  to_all, to_replica, Environment, VrReplica, am_leader, send, nat_key, viewstamp_key,
}
use specpaxos.Vr.Actions.{send_prepare_oks, enter_view, start_view_change, commit_up_to}

-- The best viewstamp so far, and the message that has it, if one does.
pub record Best : Type 0 where
  pub latest_view : ℕ
  pub latest_op : ℕ
  pub latest_msg : Option DoViewChangeMessage

-- The loop over the DOVIEWCHANGE messages.
unfoldable pub choose_latest : Map DoViewChangeMessage → Best → Best
choose_latest [] b = b
choose_latest ((i, x) ∷ ms) b = choose_latest ms (
    if ltb b.latest_view x.last_normal_view
      || (x.last_normal_view == b.latest_view && ltb b.latest_op x.last_op)
    then record { latest_view = x.last_normal_view; latest_op = x.last_op; latest_msg = some x }
    else b)

module _ {A : Type 0} where
  -- The DOVIEWCHANGE for the new leader, with the log from the least committed opnum on.
  unfoldable pub send_do_view_change :
      Map StartViewChangeMessage → VrReplica A → Result (VrReplica A)
  send_do_view_change msgs s = do
    committed_by_all ← least (λ m. m.last_committed) msgs
    entries ← dump (min committed_by_all s.last_committed) s.log
    let dvc : DoViewChangeMessage = record {
      view = s.view;
      last_normal_view = (last_viewstamp s.log).view;
      last_op = s.last_op;
      last_committed = s.last_committed;
      entries = entries;
      replica_idx = s.my_idx;
    }
    ok (send (to_replica (get_leader_index s.configuration s.view) (do_view_change_message dvc)) s)

  -- A message of a later view starts a view change.
  unfoldable pub join_view_change : ℕ → VrReplica A → VrReplica A
  join_view_change view s =
      let changing = is_view_change s.status in
      if not changing || ltb s.view view then start_view_change view s else s

  -- A message of an older view, or of this one when it is entered already.
  unfoldable pub is_old_view : ℕ → VrReplica A → Bool
  is_old_view view s =
      let changing = is_view_change s.status in ltb view s.view || (view == s.view && not changing)

  unfoldable pub handle_start_view_change :
      StartViewChangeMessage → VrReplica A → Result (VrReplica A)
  handle_start_view_change msg s = if is_old_view msg.view s then ok s else do
    let s1 = join_view_change msg.view s
    assert (msg.view == s1.view)
    let (q, msgs) =
        add_and_check_for_quorum msg.view msg.replica_idx msg s1.start_view_change_quorum
    let s2 = record s1 { start_view_change_quorum = q }
    if_null msgs (ok s2) λ ms.
        if get_leader_index s2.configuration s2.view == s2.my_idx
        then ok s2
        else send_do_view_change ms s2

abbrev pub first_opnum_of : List EntryMessage → Option ℕ
first_opnum_of [] = none
first_opnum_of (m ∷ ms) = some m.opnum

module _ (env : Environment) where
  open env use {application, sha1, dangling}
  open application use {State}

  -- Without entries both logs should be the same: the message's numbers are compared.
  unfoldable pub nothing_to_install : ℕ → ℕ → VrReplica State → Result (VrReplica State)
  nothing_to_install last_op last_committed s = do
    assert (s.last_committed == last_committed)
    assert (last_op == last_committed)
    ok s

  -- The entries, of which `opnum` is the first one's, are installed up to `last_op`.
  unfoldable pub install_entries :
      ℕ → ℕ → List EntryMessage → VrReplica State → Result (VrReplica State)
  install_entries opnum last_op entries s =
      if ltb (add64 s.last_committed 1) opnum then err panicked else do
        log1 ← remove_after (add64 last_op 1) s.log
        log2 ← install sha1 entries log1
        ok (record s { log = log2 })

  -- The log of the most recent DOVIEWCHANGE message `m`; `msg` is the one that completed the quorum.
  unfoldable pub install_latest :
      DoViewChangeMessage → DoViewChangeMessage → VrReplica State → Result (VrReplica State)
  install_latest msg m s =
      if_null (first_opnum_of m.entries) (nothing_to_install msg.last_op msg.last_committed s)
        (λ opnum. install_entries opnum m.last_op m.entries s)

  -- Enter the view with the log as it is, commit, and send it to the others from `from` on.
  unfoldable pub lead_view :
      ℕ → ℕ → ℕ → Option DoViewChangeMessage → VrReplica State → Result (VrReplica State)
  lead_view view from latest_op latest s = do
    let s1 = enter_view view s
    assert (am_leader s1)
    let s2 = record s1 { last_op = latest_op }
    s3 ← if_null latest (ok s2) (λ m. commit_up_to env m.last_committed s2)
    entries ← dump from s3.log
    let sv : StartViewMessage = record {
      view = s3.view;
      last_op = s3.last_op;
      last_committed = s3.last_committed;
      entries = entries;
    }
    ok (send (to_all (start_view_message sv)) s3)

  -- With a quorum of DOVIEWCHANGE messages. `latest_msg` points to the copy that a round of the
  -- loop made, which is destroyed at its end: its reads go through `dangling`.
  unfoldable pub complete_view_change :
      DoViewChangeMessage → Map DoViewChangeMessage → VrReplica State → Result (VrReplica State)
  complete_view_change msg ms s = do
    let own = last_viewstamp s.log
    let best =
        choose_latest ms
          (record { latest_view = own.view; latest_op = own.opnum; latest_msg = none })
    let latest : Option DoViewChangeMessage = elim best.latest_msg [
      | none ↦ none
      | some m ↦ some (dangling m)
    ]
    s1 ← if_null latest (ok s) (λ m. install_latest msg m s)
    min_svc ← least (λ m. m.last_committed) (get_messages s1.view s1.start_view_change_quorum)
    min_dvc ← least (λ m. m.last_committed) ms
    lead_view msg.view (min (min min_svc min_dvc) s1.last_committed) best.latest_op latest s1

  unfoldable pub handle_do_view_change :
      DoViewChangeMessage → VrReplica State → Result (VrReplica State)
  handle_do_view_change msg s = if is_old_view msg.view s then ok s else do
    let s1 = join_view_change msg.view s
    assert (get_leader_index s1.configuration msg.view == s1.my_idx)
    let (q, msgs) = add_and_check_for_quorum msg.view msg.replica_idx msg s1.do_view_change_quorum
    let s2 = record s1 { do_view_change_quorum = q }
    if_null msgs (ok s2) (λ ms. complete_view_change msg ms s2)

  -- The log of a STARTVIEW message.
  unfoldable pub install_start_view : StartViewMessage → VrReplica State → Result (VrReplica State)
  install_start_view msg s =
      if_null (first_opnum_of msg.entries) (nothing_to_install msg.last_op msg.last_committed s)
        (λ opnum. install_entries opnum msg.last_op msg.entries s)

  unfoldable pub handle_start_view : StartViewMessage → VrReplica State → Result (VrReplica State)
  handle_start_view msg s = if is_old_view msg.view s then ok s else do
    assert (not (get_leader_index s.configuration msg.view == s.my_idx))
    s1 ← install_start_view msg s
    let s2 = enter_view msg.view s1
    let s3 = record s2 { last_op = msg.last_op }
    assert (not (am_leader s3))
    s4 ← commit_up_to env msg.last_committed s3
    send_prepare_oks s2.last_op s4
