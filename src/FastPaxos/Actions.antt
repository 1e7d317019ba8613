-- ===== src/FastPaxos/Actions.antt =====
-- fastpaxos/replica.cc: the actions that the handlers and the timers of a FastPaxosReplica share.
use specpaxos.Base.{
  ℕ, zero, suc, ◌+◌, ◌-◌, Bool, true, false, not, ◌&&◌, none, some, Result, ok, ltb, leb, ◌==◌,
}
use specpaxos.Base.Code.{◌>>=◌, ◌>>◌, assert, deref, or_panic, if◌then◌else◌}
use specpaxos.Base.Map.{Map, lookup, insert}
use specpaxos.Configuration.{get_leader_index}
use specpaxos.QuorumSet.{clear}
use specpaxos.Log.{Request, LogEntryState, committed, prepared, find, set_status}
use specpaxos.Replica.{normal, execute}
use specpaxos.FastPaxos.Messages.{
  ReplyMessage, PrepareOkMessage, reply_message, prepare_message, prepare_ok_message,
  request_state_transfer_message,
}
use specpaxos.FastPaxos.State.{
  to_all, to_replica, to_address, ClientTableEntry, new_client, Environment, FastPaxosReplica,
  am_leader, send,
}

unfoldable pub is_prepared : LogEntryState → Bool
is_prepared prepared = true
is_prepared _ = false

-- The client's entry, which a read inserts if it is missing.
unfoldable pub client_entry : ℕ → Map ClientTableEntry → ClientTableEntry
client_entry client table = elim (lookup client table) [ none ↦ new_client | some e ↦ e ]

module _ {A : Type 0} where
  unfoldable pub update_client_table : Request → FastPaxosReplica A → FastPaxosReplica A
  update_client_table req s =
      let entry = client_entry req.clientid s.client_table in
      let entry' : ClientTableEntry =
        if leb req.clientreqid entry.last_req_id
        then entry
        else record { last_req_id = req.clientreqid; replied = false; reply = none } in
      record s { client_table = insert req.clientid entry' s.client_table }

  -- The reply of an executed request goes into the client table, unless the client has gone on.
  unfoldable pub store_reply : ℕ → ReplyMessage → FastPaxosReplica A → FastPaxosReplica A
  store_reply client reply s =
      let cte = client_entry client s.client_table in
      let cte' : ClientTableEntry =
        if leb cte.last_req_id reply.clientreqid
        then record { last_req_id = reply.clientreqid; replied = true; reply = some reply }
        else cte in
      record s { client_table = insert client cte' s.client_table }

  -- The reply goes to the client, if its address is known.
  unfoldable pub send_reply : ℕ → ReplyMessage → FastPaxosReplica A → FastPaxosReplica A
  send_reply client reply s = elim (lookup client s.client_addresses) [
    | none ↦ s
    | some address ↦ send (to_address address (reply_message reply)) s
  ]

  -- A PREPAREOK for the leader.
  unfoldable pub send_ok : ℕ → ℕ → Request → Bool → FastPaxosReplica A → FastPaxosReplica A
  send_ok view opnum req slowpath s =
      let reply : PrepareOkMessage = record {
        view = view;
        opnum = opnum;
        replica_idx = s.my_idx;
        req = req;
        slowpath = slowpath;
      } in
      send (to_replica (get_leader_index s.configuration s.view) (prepare_ok_message reply)) s

  -- One round of SendPrepareOKs.
  unfoldable pub send_prepare_ok : ℕ → FastPaxosReplica A → Result (FastPaxosReplica A)
  send_prepare_ok i s = if leb i s.last_committed then ok s else do
    found ← find i s.log
    entry ← or_panic found
    assert (is_prepared entry.state)
    ok (send_ok s.view i entry.request true (update_client_table entry.request s))

  unfoldable pub send_prepare_oks_from : ℕ → ℕ → FastPaxosReplica A → Result (FastPaxosReplica A)
  send_prepare_oks_from zero i s = ok s
  send_prepare_oks_from (suc rounds) i s = do
    s' ← send_prepare_ok i s
    send_prepare_oks_from rounds (i + 1) s'

  -- SendPrepareOKs: for (i = oldLastOp; i <= lastSlowPath; i++)
  unfoldable pub send_prepare_oks : ℕ → FastPaxosReplica A → Result (FastPaxosReplica A)
  send_prepare_oks old_last_op s =
      send_prepare_oks_from (s.last_slow_path + 1 - old_last_op) old_last_op s

  unfoldable pub request_state_transfer : FastPaxosReplica A → FastPaxosReplica A
  request_state_transfer s =
      if not (s.last_request_state_transfer_opnum == 0)
        && s.last_request_state_transfer_view == s.view
        && s.last_request_state_transfer_opnum == s.last_committed
      then s
      else send
          (to_all
            (request_state_transfer_message (record { view = s.view; opnum = s.last_committed })))
          (record s {
            last_request_state_transfer_view = s.view;
            last_request_state_transfer_opnum = s.last_committed;
          })

  unfoldable pub enter_view : ℕ → FastPaxosReplica A → FastPaxosReplica A
  enter_view newview s = record s {
    view = newview;
    status = normal;
    fast_prepare_ok_quorum = clear s.fast_prepare_ok_quorum;
    slow_prepare_ok_quorum = clear s.slow_prepare_ok_quorum;
  }

  -- The last PREPARE goes out. One that was never set has no required field, and sending it is
  -- undefined.
  unfoldable pub resend_prepare : FastPaxosReplica A → Result (FastPaxosReplica A)
  resend_prepare s = do
    assert (am_leader s)
    if s.last_slow_path == s.last_committed then ok s else (do
      p ← deref s.last_prepare
      ok (
          send (to_all (prepare_message p))
            (record s { timers = record s.timers { resend_prepare_timeout = true } })))

module _ (env : Environment) where
  open env use {application}
  open application use {State}

  -- One round of CommitUpTo: execute the entry after the last committed one.
  unfoldable pub commit_next : FastPaxosReplica State → Result (FastPaxosReplica State)
  commit_next s = do
    let op = s.last_committed + 1
    found ← find op s.log
    entry ← or_panic found
    let (res, app') = execute application op entry.request s.app
    let reply : ReplyMessage = record {
      view = entry.viewstamp.view;
      opnum = entry.viewstamp.opnum;
      reply = res;
      clientreqid = entry.request.clientreqid;
    }
    (log', set) ← set_status op committed s.log
    let s' = record s { last_committed = op; log = log'; app = app' }
    ok (send_reply entry.request.clientid reply (store_reply entry.request.clientid reply s'))

  unfoldable pub commit_rounds : ℕ → FastPaxosReplica State → Result (FastPaxosReplica State)
  commit_rounds zero s = ok s
  commit_rounds (suc rounds) s = do s' ← commit_next s; commit_rounds rounds s'

  -- CommitUpTo: while (lastCommitted < upto), in which a round adds one to lastCommitted.
  unfoldable pub commit_up_to : ℕ → FastPaxosReplica State → Result (FastPaxosReplica State)
  commit_up_to upto s = do
    s1 ← commit_rounds (upto - s.last_committed) s
    let slow =
        if ltb s1.last_slow_path s1.last_committed then s1.last_committed else s1.last_slow_path
    assert (leb s1.last_committed s1.last_fast_path)
    ok (record s1 { last_slow_path = slow })
