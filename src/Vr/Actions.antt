-- ===== src/Vr/Actions.antt =====
-- vr/replica.cc: the actions that the handlers and the timers of a VRReplica share.
use specpaxos.Base.{
  ℕ, zero, suc, ◌+◌, ◌-◌, Bool, true, false, not, ◌&&◌, none, some, List, [], ◌∷◌, Result, ok, ltb,
  leb, ◌==◌,
}
use specpaxos.Base.Code.{◌>>=◌, ◌>>◌, assert, deref, or_panic, if◌then◌else◌}
use specpaxos.Base.Map.{Map, lookup, insert}
use specpaxos.Configuration.{get_leader_index}
use specpaxos.QuorumSet.{clear}
use specpaxos.Log.{Request, LogEntryState, committed, prepared, find, set_status, is_present}
use specpaxos.Replica.{normal, view_change, execute}
use specpaxos.Vr.Messages.{
  ReplyMessage, PrepareMessage, PrepareOkMessage, reply_message, prepare_message,
  prepare_ok_message, commit_message, request_state_transfer_message, start_view_change_message,
  recovery_message,
}
use specpaxos.Vr.State.{
  to_all, to_replica, to_address, ClientTableEntry, new_client, Environment, VrReplica, am_leader,
  send, nat_key, viewstamp_key,
}

-- Timeout::Start and Reset arm a timeout, and Stop disarms it.
abbrev pub on : Bool
on = true

abbrev pub off : Bool
off = false

unfoldable pub is_prepared : LogEntryState → Bool
is_prepared prepared = true
is_prepared _ = false

-- The client's entry, which a read inserts if it is missing.
unfoldable pub client_entry : ℕ → Map ClientTableEntry → ClientTableEntry
client_entry client table = elim (lookup client table) [ none ↦ new_client | some e ↦ e ]

module _ {A : Type 0} where
  unfoldable pub update_client_table : Request → VrReplica A → Result (VrReplica A)
  update_client_table req s = do
    let entry = client_entry req.clientid s.client_table
    assert (leb entry.last_req_id req.clientreqid)
    let entry' : ClientTableEntry =
        if entry.last_req_id == req.clientreqid
        then entry
        else record { last_req_id = req.clientreqid; replied = false; reply = none }
    ok (record s { client_table = insert req.clientid entry' s.client_table })

  -- The reply of an executed request goes into the client table, unless the client has gone on.
  unfoldable pub store_reply : ℕ → ReplyMessage → VrReplica A → VrReplica A
  store_reply client reply s =
      let cte = client_entry client s.client_table in
      let cte' : ClientTableEntry =
        if leb cte.last_req_id reply.clientreqid
        then record { last_req_id = reply.clientreqid; replied = true; reply = some reply }
        else cte in
      record s { client_table = insert client cte' s.client_table }

  -- The reply goes to the client, if its address is known.
  unfoldable pub send_reply : ℕ → ReplyMessage → VrReplica A → VrReplica A
  send_reply client reply s = elim (lookup client s.client_addresses) [
    | none ↦ s
    | some address ↦ send (to_address address (reply_message reply)) s
  ]

  unfoldable pub reply_client : ℕ → ReplyMessage → VrReplica A → VrReplica A
  reply_client client reply s = send_reply client reply (store_reply client reply s)

  -- One round of SendPrepareOKs.
  unfoldable pub send_prepare_ok : ℕ → VrReplica A → Result (VrReplica A)
  send_prepare_ok i s = if leb i s.last_committed then ok s else do
    found ← find i s.log
    entry ← or_panic found
    assert (is_prepared entry.state)
    s' ← update_client_table entry.request s
    let reply : PrepareOkMessage = record { view = s.view; opnum = i; replica_idx = s.my_idx }
    ok (send (to_replica (get_leader_index s.configuration s.view) (prepare_ok_message reply)) s')

  unfoldable pub send_prepare_oks_from : ℕ → ℕ → VrReplica A → Result (VrReplica A)
  send_prepare_oks_from zero i s = ok s
  send_prepare_oks_from (suc rounds) i s = do
    s' ← send_prepare_ok i s
    send_prepare_oks_from rounds (i + 1) s'

  -- SendPrepareOKs: for (i = oldLastOp; i <= lastOp; i++)
  unfoldable pub send_prepare_oks : ℕ → VrReplica A → Result (VrReplica A)
  send_prepare_oks old_last_op s = send_prepare_oks_from (s.last_op + 1 - old_last_op) old_last_op s

  unfoldable pub send_recovery_messages : VrReplica A → VrReplica A
  send_recovery_messages s =
      send (to_all (recovery_message (record { replica_idx = s.my_idx; nonce = s.recovery_nonce })))
        s

  unfoldable pub request_state_transfer : VrReplica A → VrReplica A
  request_state_transfer s =
      if not (s.last_request_state_transfer_opnum == 0)
        && s.last_request_state_transfer_view == s.view
        && s.last_request_state_transfer_opnum == s.last_committed
      then s
      else send
          (to_all
            (request_state_transfer_message (record { view = s.view; opnum = s.last_committed })))
          (record s {
            last_request_state_transfer_view = s.view;
            last_request_state_transfer_opnum = s.last_committed;
          })

  unfoldable pub enter_view : ℕ → VrReplica A → VrReplica A
  enter_view newview s =
      let leads = get_leader_index s.configuration newview == s.my_idx in
      let t = s.timers in
      record s {
        view = newview;
        status = normal;
        last_batch_end = s.last_op;
        batch_complete = true;
        timers =
            if leads
            then record t {
              recovery_timeout = off;
              view_change_timeout = off;
              null_commit_timeout = on;
            }
            else record t {
              recovery_timeout = off;
              view_change_timeout = on;
              null_commit_timeout = off;
              resend_prepare_timeout = off;
              close_batch_timeout = off;
            };
        prepare_ok_quorum = clear s.prepare_ok_quorum;
        start_view_change_quorum = clear s.start_view_change_quorum;
        do_view_change_quorum = clear s.do_view_change_quorum;
        recovery_response_quorum = clear s.recovery_response_quorum;
      }

  unfoldable pub start_view_change : ℕ → VrReplica A → VrReplica A
  start_view_change newview s =
      send
        (to_all (
          start_view_change_message
            (record { view = newview; replica_idx = s.my_idx; last_committed = s.last_committed })))
        (record s {
          view = newview;
          status = view_change;
          timers = record s.timers {
            view_change_timeout = on;
            null_commit_timeout = off;
            resend_prepare_timeout = off;
            close_batch_timeout = off;
          };
        })

  unfoldable pub send_null_commit : VrReplica A → Result (VrReplica A)
  send_null_commit s = do
    assert (am_leader s)
    ok (send (to_all (commit_message (record { view = s.view; opnum = s.last_committed }))) s)

  -- The last PREPARE goes out again. One that was never set has no required field, and sending it
  -- is undefined.
  unfoldable pub resend_prepare : VrReplica A → Result (VrReplica A)
  resend_prepare s = do
    assert (am_leader s)
    if s.last_op == s.last_committed
        then ok s
        else do p ← deref s.last_prepare; ok (send (to_all (prepare_message p)) s)

  -- The requests of a batch, from the entry `i` on.
  unfoldable pub batch_requests : ℕ → ℕ → VrReplica A → Result (List Request)
  batch_requests zero i s = ok []
  batch_requests (suc rounds) i s = do
    found ← find i s.log
    assert (is_present found)
    entry ← deref found
    assert (entry.viewstamp.view == s.view)
    assert (entry.viewstamp.opnum == i)
    rest ← batch_requests rounds (i + 1) s
    ok (entry.request ∷ rest)

  unfoldable pub close_batch : VrReplica A → Result (VrReplica A)
  close_batch s = do
    assert (am_leader s)
    assert (ltb s.last_batch_end s.last_op)
    let batch_start = s.last_batch_end + 1
    requests ← batch_requests (s.last_op + 1 - batch_start) batch_start s
    let p : PrepareMessage = record {
      view = s.view;
      opnum = s.last_op;
      batchstart = batch_start;
      request = requests;
    }
    ok (
        send (to_all (prepare_message p)) (record s {
          last_prepare = some p;
          last_batch_end = s.last_op;
          batch_complete = false;
          timers = record s.timers { resend_prepare_timeout = on; close_batch_timeout = off };
        }))

module _ (env : Environment) where
  open env use {application}
  open application use {State}

  -- One round of CommitUpTo: execute the entry after the last committed one.
  unfoldable pub commit_next : VrReplica State → Result (VrReplica State)
  commit_next s = do
    let op = s.last_committed + 1
    found ← find op s.log
    entry ← or_panic found
    let (res, app') = execute application op entry.request s.app
    let reply : ReplyMessage = record {
      view = entry.viewstamp.view;
      opnum = entry.viewstamp.opnum;
      reply = res;
      clientreqid = entry.request.clientreqid;
    }
    (log', set) ← set_status op committed s.log
    let s' = record s { last_committed = op; log = log'; app = app' }
    ok (reply_client entry.request.clientid reply s')

  unfoldable pub commit_rounds : ℕ → VrReplica State → Result (VrReplica State)
  commit_rounds zero s = ok s
  commit_rounds (suc rounds) s = do s' ← commit_next s; commit_rounds rounds s'

  -- CommitUpTo: while (lastCommitted < upto). A round adds one to lastCommitted.
  unfoldable pub commit_up_to : ℕ → VrReplica State → Result (VrReplica State)
  commit_up_to upto s = commit_rounds (upto - s.last_committed) s
