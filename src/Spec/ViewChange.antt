-- ===== src/Spec/ViewChange.antt =====
-- spec/replica.cc: the view change, from REQUESTVIEWCHANGE to FILLDVCGAP.
use Prim.Native.Nat.{max, min}
use specpaxos.Base.{
  ℕ, ◌-◌, Bool, true, false, not, ◌&&◌, ◌||◌, none, some, List, [], ◌∷◌, Result, ok, ltb, ◌==◌,
  length, get_elem?, add64, sub64,
}
use specpaxos.Base.Code.{◌>>=◌, ◌>>◌, assert, deref, if_null, if◌then◌else◌}
use specpaxos.Base.Dictionary.{Bytes, bytes_eq}
use specpaxos.Base.Map.{Map, lookup}
use specpaxos.Configuration.{get_leader_index}
use specpaxos.QuorumSet.{nat_key, least, get_messages, add, clear, add_and_check_for_quorum}
use specpaxos.Log.{LogEntry, EntryMessage, last_viewstamp}
use specpaxos.Log.Transfer.{dump}
use specpaxos.Replica.{Address, is_view_change}
use specpaxos.Spec.Messages.{
  StartViewChangeMessage, DoViewChangeMessage, StartViewMessage, GapMessage, do_view_change_message,
  start_view_message, fill_dvc_gap_message,
}
use specpaxos.Spec.State.{to_replica, to_address, SpecReplica, am_leader, send, dvc_fudge}
use specpaxos.Spec.Actions.{start_view_change}
use specpaxos.Spec.Merge.{entry_of}

-- From where a log is sent: so many entries from its end.
unfoldable pub dump_start : ℕ → ℕ
dump_start last_speculative =
    if ltb dvc_fudge last_speculative then last_speculative - dvc_fudge else 1

-- Whether the logs agree with a hash at the opnum from which on all of them are known.
unfoldable pub logs_agree : ℕ → Bytes → Map DoViewChangeMessage → Result Bool
logs_agree max_start hash [] = ok true
logs_agree max_start hash ((i, m) ∷ ms) = elim m.entries [
  | [] ↦ logs_agree max_start hash ms
  | first ∷ rest ↦ if ltb m.last_speculative max_start then ok false else (do
    assert (ltb (sub64 max_start first.opnum) (length m.entries))
    entry ← deref (get_elem? m.entries (sub64 max_start first.opnum))
    assert (entry.opnum == max_start)
    if not (bytes_eq entry.hash hash) then ok false else logs_agree max_start hash ms)
]

-- The highest opnum at which one of the logs starts.
unfoldable pub greatest_start : Map DoViewChangeMessage → ℕ → ℕ
greatest_start [] start = start
greatest_start ((i, m) ∷ ms) start =
    greatest_start ms (elim m.entries [ [] ↦ start | first ∷ rest ↦ max start first.opnum ])

-- ConvertLog: the entries of a message, of which the opnums have no gap. `last` is 0 at the first.
unfoldable pub convert_log : List EntryMessage → ℕ → Result (List LogEntry)
convert_log [] last = ok []
convert_log (m ∷ ms) last = do
  (if not (last == 0) then assert (add64 last 1 == m.opnum) else ok tt)
  rest ← convert_log ms m.opnum
  ok (entry_of m.view m.opnum m.state m.request m.hash ∷ rest)

module _ {A : Type 0} where
  -- REQUESTVIEWCHANGE, from a client that has seen this view fail.
  unfoldable pub handle_request_view_change : ℕ → SpecReplica A → SpecReplica A
  handle_request_view_change view s =
      if not (view == s.view) then s else start_view_change (add64 s.view 1) s

  -- A message of an older view, or of this one when it is entered already.
  unfoldable pub is_old_view : ℕ → SpecReplica A → Bool
  is_old_view view s =
      let changing = is_view_change s.status in ltb view s.view || (view == s.view && not changing)

  -- A message of a later view starts a view change.
  unfoldable pub join_view_change : ℕ → SpecReplica A → SpecReplica A
  join_view_change view s =
      let changing = is_view_change s.status in
      if not changing || ltb s.view view then start_view_change view s else s

  -- The DOVIEWCHANGE with these entries.
  unfoldable pub do_view_change : List EntryMessage → SpecReplica A → DoViewChangeMessage
  do_view_change entries s = record {
    view = s.view;
    last_normal_view = (last_viewstamp s.log).view;
    last_speculative = s.last_speculative;
    last_committed = s.last_committed;
    entries = entries;
    replica_idx = s.my_idx;
  }

  -- DOVIEWCHANGE goes to the new leader; the leader keeps its own. The opnum that is computed first,
  -- from the STARTVIEWCHANGE messages, is not used.
  unfoldable pub send_do_view_change :
      ℕ → Map StartViewChangeMessage → SpecReplica A → Result (SpecReplica A)
  send_do_view_change view msgs s = do
    unused ← least (λ m. m.last_committed) msgs
    let first = dump_start s.last_speculative
    entries ← dump first s.log
    assert (add64 (sub64 s.last_speculative first) 1 == length entries)
    let dvc = do_view_change entries s
    let leader = get_leader_index s.configuration s.view
    if not (leader == s.my_idx)
        then ok (send (to_replica leader (do_view_change_message dvc)) s)
        else ok (record s { do_view_change_quorum = add view s.my_idx dvc s.do_view_change_quorum })

  -- With a quorum of STARTVIEWCHANGEs, once in a view, and when the leader's is among them.
  unfoldable pub answer_view_change :
      ℕ → Map StartViewChangeMessage → SpecReplica A → Result (SpecReplica A)
  answer_view_change view msgs s =
      if s.sent_do_view_change == view
      then ok s
      else let leader = get_leader_index s.configuration s.view in
        let heard : Bool = elim (lookup leader msgs) [ none ↦ false | some m ↦ true ] in
        if not (s.my_idx == leader) && not heard
        then ok s
        else send_do_view_change view msgs (record s { sent_do_view_change = view })

  unfoldable pub handle_start_view_change :
      StartViewChangeMessage → SpecReplica A → Result (SpecReplica A)
  handle_start_view_change msg s = if is_old_view msg.view s then ok s else do
    let s1 = join_view_change msg.view s
    assert (msg.view == s1.view)
    let (q, msgs) =
        add_and_check_for_quorum msg.view msg.replica_idx msg s1.start_view_change_quorum
    let s2 = record s1 { start_view_change_quorum = q }
    if_null msgs (ok s2) λ ms. answer_view_change msg.view ms s2

  unfoldable pub send_fill_dvc_gap : ℕ → ℕ → SpecReplica A → Result (SpecReplica A)
  send_fill_dvc_gap replica view s = do
    assert (not (replica == s.my_idx))
    let m : GapMessage = record { view = view; last_committed = s.last_committed }
    ok (send (to_replica replica (fill_dvc_gap_message m)) s)

  -- The loop of NeedFillDVCGap: `mine` is the replica's own message.
  unfoldable pub request_longer_logs :
      ℕ
      → Map DoViewChangeMessage
      → DoViewChangeMessage × SpecReplica A
      → Result (DoViewChangeMessage × SpecReplica A)
  request_longer_logs view [] (mine, s) = ok (mine, s)
  request_longer_logs view ((i, m) ∷ ms) (mine, s) = do
    next ←
        (if i == s.my_idx then ok (m, s) else (do s' ← send_fill_dvc_gap i view s; ok (mine, s')))
    request_longer_logs view ms next

  unfoldable pub need_fill_dvc_gap : ℕ → SpecReplica A → Result (SpecReplica A)
  need_fill_dvc_gap view s = do
    let unset : DoViewChangeMessage = record {
      view = 0;
      last_normal_view = 0;
      last_speculative = 0;
      last_committed = 0;
      entries = [];
      replica_idx = 0;
    }
    assert (view == s.view)
    (mine, s') ← request_longer_logs view (get_messages view s.do_view_change_quorum) (unset, s)
    ok (record s' {
      do_view_change_quorum = add view s'.my_idx mine (clear s'.do_view_change_quorum);
      need_fill_dvc = view;
    })

  -- Whether a log that was asked for leaves a gap still.
  unfoldable pub leaves_gap : DoViewChangeMessage → SpecReplica A → Bool
  leaves_gap msg s = elim msg.entries [
    | [] ↦ false
    | first ∷ rest ↦
        not (s.last_committed == 0 && first.opnum == 1)
        && (ltb s.last_committed first.opnum || ltb msg.last_committed first.opnum)
  ]

  -- The STARTVIEW with these entries.
  unfoldable pub start_view_of : List EntryMessage → SpecReplica A → StartViewMessage
  start_view_of entries s = record {
    view = s.view;
    last_speculative = s.last_speculative;
    last_committed = s.last_committed;
    entries = entries;
  }

  unfoldable pub handle_fill_log_gap : Address → GapMessage → SpecReplica A → Result (SpecReplica A)
  handle_fill_log_gap remote msg s = if not (msg.view == s.view) then ok s else do
    assert (am_leader s)
    entries ← dump msg.last_committed s.log
    ok (send (to_address remote (start_view_message (start_view_of entries s))) s)

  unfoldable pub handle_fill_dvc_gap : Address → GapMessage → SpecReplica A → Result (SpecReplica A)
  handle_fill_dvc_gap remote msg s = if not (msg.view == s.view) then ok s else do
    assert (not (am_leader s))
    entries ← dump (min s.last_committed msg.last_committed) s.log
    ok (send (to_address remote (do_view_change_message (do_view_change entries s))) s)
