-- ===== src/Spec/Requests.antt =====
-- spec/replica.cc: HandleRequest and HandleUnloggedRequest, and EnterView, which handles the requests
-- that have waited.
use specpaxos.Base.{
  ℕ, true, false, not, ◌&&◌, some, List, [], ◌∷◌, ◌++◌, Result, ok, ltb, leb, ◌==◌, add64,
}
use specpaxos.Base.Code.{◌>>=◌, asserted, if_null, if◌then◌else◌}
use specpaxos.Base.Map.{lookup, insert}
use specpaxos.QuorumSet.{clear, nat_key}
use specpaxos.Log.{
  Request, SpeculativeReplyMessage, speculative, append, find, replace, is_committed, last_hash,
}
use specpaxos.Replica.{Address, normal, is_normal, execute, execute_unlogged}
use specpaxos.Spec.Messages.{speculative_reply_message, unlogged_reply_message}
use specpaxos.Spec.State.{
  to_address, ClientTableEntry, Environment, SpecReplica, am_leader, send, sync_timeout_requests,
}
use specpaxos.Spec.Actions.{on, off, update_client_table, send_sync, send_sync_reply}

module _ {A : Type 0} where
  -- The reply to a duplicate request, from the log. That the operation is committed goes into the
  -- reply that the log keeps.
  unfoldable pub resend_reply : Address → ClientTableEntry → SpecReplica A → Result (SpecReplica A)
  resend_reply remote entry s = do
    found ← find entry.last_req_opnum s.log
    le ← asserted found
    reply ← asserted le.reply_message
    let reply' : SpeculativeReplyMessage =
        if is_committed le.state then record reply { committed = true } else reply
    let log' = replace entry.last_req_opnum (record le { reply_message = some reply' }) s.log
    ok (send (to_address remote (speculative_reply_message reply')) (record s { log = log' }))

  -- A SYNC for this opnum has come before its request.
  unfoldable pub answer_pending_sync : ℕ → SpecReplica A → Result (SpecReplica A)
  answer_pending_sync opnum s =
      if opnum == s.pending_sync then send_sync_reply s.pending_sync s else ok s

  -- The leader synchronizes after so many requests.
  unfoldable pub sync_if_due : ℕ → SpecReplica A → Result (SpecReplica A)
  sync_if_due opnum s =
      if am_leader s && leb (add64 s.last_sync sync_timeout_requests) opnum
      then send_sync s
      else ok s

module _ (env : Environment) where
  open env use {application, sha1}
  open application use {State}

  -- The request gets the next opnum, goes into the log, and is executed; the reply is kept in the log.
  unfoldable pub speculate : Address → Request → SpecReplica State → Result (SpecReplica State)
  speculate remote req s = do
    let op = add64 s.last_speculative 1
    log' ← append sha1 (record { view = s.view; opnum = op }) req speculative s.log
    let (res, app') = execute application op req s.app
    let reply : SpeculativeReplyMessage = record {
      clientreqid = req.clientreqid;
      replica_idx = s.my_idx;
      view = s.view;
      opnum = op;
      loghash = last_hash log';
      reply = res;
      committed = false;
    }
    update_client_table req reply (
        send (to_address remote (speculative_reply_message reply))
          (record s { last_speculative = op; log = log'; app = app' }))

  unfoldable pub accept_request : Address → Request → SpecReplica State → Result (SpecReplica State)
  accept_request remote req s =
      if not (is_normal s.status)
      then ok (record s { pending_requests = s.pending_requests ++ (remote, req) ∷ [] })
      else (do
        s1 ← speculate remote req s
        s2 ← answer_pending_sync s1.last_speculative s1
        sync_if_due s1.last_speculative s2)

  unfoldable pub handle_request : Address → Request → SpecReplica State → Result (SpecReplica State)
  handle_request remote req s =
      let s1 = record s { client_addresses = insert req.clientid remote s.client_addresses } in
      if_null (lookup req.clientid s1.client_table) (accept_request remote req s1) λ entry.
        if ltb req.clientreqid entry.last_req_id
        then ok s1
        else if req.clientreqid == entry.last_req_id
        then resend_reply remote entry s1
        else accept_request remote req s1

  unfoldable pub handle_unlogged_request :
      Address → Request → SpecReplica State → Result (SpecReplica State)
  handle_unlogged_request remote req s =
      if not (is_normal s.status)
      then ok s
      else let (res, app') = execute_unlogged application req s.app in
        ok (send (to_address remote (unlogged_reply_message res)) (record s { app = app' }))

  -- The deferred requests, in their order.
  unfoldable pub handle_requests :
      List (Address × Request) → SpecReplica State → Result (SpecReplica State)
  handle_requests [] s = ok s
  handle_requests ((remote, req) ∷ msgs) s = do
    s' ← handle_request remote req s
    handle_requests msgs s'

  -- EnterView, before it handles the deferred requests.
  unfoldable pub start_view : ℕ → SpecReplica State → SpecReplica State
  start_view newview s =
      let s1 = record s { view = newview; status = normal } in
      let s2 =
        if am_leader s1
        then record s1 {
          timers = record {
            view_change_timeout = off;
            sync_timeout = on;
            failed_sync_timeout = on;
          };
          last_sync = s1.last_committed;
        }
        else record s1 {
          timers = record {
            view_change_timeout = on;
            sync_timeout = off;
            failed_sync_timeout = off;
          };
        } in
      record s2 {
        sync_reply_quorum = clear s2.sync_reply_quorum;
        start_view_change_quorum = clear s2.start_view_change_quorum;
        do_view_change_quorum = clear s2.do_view_change_quorum;
        in_view_quorum = clear s2.in_view_quorum;
        pending_sync = 0;
      }

  unfoldable pub enter_view : ℕ → SpecReplica State → Result (SpecReplica State)
  enter_view newview s =
      let s' = start_view newview s in
      handle_requests s'.pending_requests (record s' { pending_requests = [] })
