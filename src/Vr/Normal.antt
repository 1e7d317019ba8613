-- ===== src/Vr/Normal.antt =====
-- vr/replica.cc: the normal case, HandleRequest to HandleCommit.
use specpaxos.Base.{
  ℕ, true, not, ◌||◌, Option, none, some, List, [], ◌∷◌, ◌++◌, Result, ok, err, panicked, undefined,
  ltb, leb, ◌==◌, length, add64, sub64,
}
use specpaxos.Base.Code.{◌>>=◌, ◌>>◌, assert, if_null, if◌then◌else◌}
use specpaxos.Base.Map.{Map, lookup, insert}
use specpaxos.Viewstamp.{Viewstamp}
use specpaxos.Configuration.{get_leader_index, quorum_size}
use specpaxos.QuorumSet.{add_and_check_for_quorum}
use specpaxos.Log.{Bytes, Request, prepared, append}
use specpaxos.Replica.{is_normal, execute_unlogged}
use specpaxos.Vr.Messages.{
  ReplyMessage, PrepareMessage, PrepareOkMessage, CommitMessage, reply_message,
  unlogged_reply_message, prepare_ok_message, commit_message,
}
use specpaxos.Vr.State.{
  Address, to_all, to_replica, to_address, ClientTableEntry, Environment, VrReplica, am_leader,
  send, nat_key, viewstamp_key,
}
use specpaxos.Vr.Actions.{
  on, client_entry, update_client_table, request_state_transfer, close_batch, commit_up_to,
}

-- A duplicate or stale request, with the reply that is sent again, or a new one.
pub data Freshness : Type 0 where
  stale : Freshness
  answered : Option ReplyMessage → Freshness
  waiting : Freshness
  fresh : Freshness

-- The check of the client table in HandleRequest.
unfoldable pub freshness : Request → Map ClientTableEntry → Freshness
freshness req table = elim (lookup req.clientid table) [
  | none ↦ fresh
  | some entry ↦
      if ltb req.clientreqid entry.last_req_id
      then stale
      else if req.clientreqid == entry.last_req_id
      then if entry.replied then answered entry.reply else waiting
      else fresh
]

module _ (env : Environment) where
  open env use {application, sha1}
  open application use {State, leader_upcall}

  -- The request is not replicated: the leader answers by itself.
  unfoldable pub answer_alone : Address → Request → Bytes → VrReplica State → VrReplica State
  answer_alone remote req res s =
      let reply : ReplyMessage = record {
        view = 0;
        opnum = 0;
        reply = res;
        clientreqid = req.clientreqid;
      } in
      let cte = client_entry req.clientid s.client_table in
      send (to_address remote (reply_message reply)) (record s {
        client_table =
            insert req.clientid (record cte { replied = true; reply = some reply }) s.client_table;
      })

  -- The request gets the next opnum, and goes into the log and a batch.
  unfoldable pub replicate_request : Request → VrReplica State → Result (VrReplica State)
  replicate_request request s = do
    let op = add64 s.last_op 1
    log' ← append sha1 (record { view = s.view; opnum = op }) request prepared s.log
    let s' = record s { last_op = op; log = log' }
    s'' ←
        (if s'.batch_complete || ltb s'.batch_size (add64 (sub64 op s'.last_batch_end) 1)
          then close_batch s'
          else ok (record s' { timers = record s'.timers { close_batch_timeout = on } }))
    ok (record s'' { timers = record s''.timers { null_commit_timeout = on } })

  unfoldable pub accept_request : Address → Request → VrReplica State → Result (VrReplica State)
  accept_request remote req s = do
    s' ← update_client_table req s
    let r = leader_upcall s'.last_committed req.op s'.app
    let s'' = record s' { app = r.app }
    if r.replicate
        then replicate_request (record req { op = r.res }) s''
        else ok (answer_alone remote req r.res s'')

  -- The rest of HandleRequest, after the check of the client table.
  unfoldable pub respond :
      Address → Request → Freshness → VrReplica State → Result (VrReplica State)
  respond remote req stale s = ok s
  respond remote req waiting s = ok s
  respond remote req (answered none) s = err undefined
  respond remote req (answered (some reply)) s =
      ok (send (to_address remote (reply_message reply)) s)
  respond remote req fresh s = accept_request remote req s

  unfoldable pub handle_request : Address → Request → VrReplica State → Result (VrReplica State)
  handle_request remote req s =
      if not (is_normal s.status)
      then ok s
      else if not (am_leader s)
      then ok s
      else respond remote req (freshness req s.client_table)
          (record s { client_addresses = insert req.clientid remote s.client_addresses })

  unfoldable pub handle_unlogged_request :
      Address → Request → VrReplica State → Result (VrReplica State)
  handle_unlogged_request remote req s =
      if not (is_normal s.status)
      then ok s
      else let (res, app') = execute_unlogged application req s.app in
        ok (send (to_address remote (unlogged_reply_message res)) (record s { app = app' }))

  -- The loop of HandlePrepare over the requests of a batch: `op` is the opnum before the first.
  unfoldable pub prepare_requests :
      ℕ → ℕ → List Request → VrReplica State → Result (VrReplica State × ℕ)
  prepare_requests view op [] s = ok (s, op)
  prepare_requests view op (req ∷ reqs) s =
      let op' = add64 op 1 in
      let skip = prepare_requests view op' reqs s in
      if leb op' s.last_op then skip else do
        log' ← append sha1 (record { view = view; opnum = op' }) req prepared s.log
        s' ← update_client_table req (record s { last_op = add64 s.last_op 1; log = log' })
        prepare_requests view op' reqs s'

  -- The PREPAREOK for a PREPARE.
  unfoldable pub acknowledge : PrepareMessage → VrReplica State → VrReplica State
  acknowledge msg s =
      send
        (to_replica (get_leader_index s.configuration s.view) (
          prepare_ok_message
            (record { view = msg.view; opnum = msg.opnum; replica_idx = s.my_idx })))
        s

  -- Ask for what is missing, and keep the PREPARE for later.
  unfoldable pub postpone : Address → PrepareMessage → VrReplica State → VrReplica State
  postpone remote msg s =
      let s' = request_state_transfer s in
      record s' { pending_prepares = s'.pending_prepares ++ (remote, msg) ∷ [] }

  unfoldable pub prepare_batch : PrepareMessage → VrReplica State → Result (VrReplica State)
  prepare_batch msg s = do
    (s', op) ← prepare_requests msg.view (sub64 msg.batchstart 1) msg.request s
    assert (op == msg.opnum)
    ok (acknowledge msg s')

  unfoldable pub handle_prepare :
      Address → PrepareMessage → VrReplica State → Result (VrReplica State)
  handle_prepare remote msg s =
      if not (is_normal s.status)
      then ok s
      else if ltb msg.view s.view
      then ok s
      else if ltb s.view msg.view
      then ok (postpone remote msg s)
      else if am_leader s
      then err panicked
      else do
        assert (leb msg.batchstart msg.opnum)
        assert (add64 (sub64 msg.opnum msg.batchstart) 1 == length msg.request)
        let s' = record s { timers = record s.timers { view_change_timeout = on } }
        if leb msg.opnum s'.last_op
            then ok (acknowledge msg s')
            else if ltb (add64 s'.last_op 1) msg.batchstart
            then ok (postpone remote msg s')
            else prepare_batch msg s'

  -- Send COMMIT, and if the last batch is complete close the next one.
  unfoldable pub announce_commit : PrepareOkMessage → VrReplica State → Result (VrReplica State)
  announce_commit msg s =
      let cm : CommitMessage = record { view = s.view; opnum = s.last_committed } in
      let told = send (to_all (commit_message cm)) s in
      let waits = record told { timers = record told.timers { null_commit_timeout = on } } in
      let complete = record waits { batch_complete = true } in
      if waits.last_batch_end == msg.opnum
      then if ltb complete.last_batch_end complete.last_op
        then close_batch complete
        else ok complete
      else ok waits

  -- After the quorum of PREPAREOKs: commit, and announce it unless the quorum was already there.
  unfoldable pub commit_quorum : ℕ → PrepareOkMessage → VrReplica State → Result (VrReplica State)
  commit_quorum answers msg s = do
    s' ← commit_up_to env msg.opnum s
    if leb (quorum_size s'.configuration) answers then ok s' else announce_commit msg s'

  unfoldable pub handle_prepare_ok : PrepareOkMessage → VrReplica State → Result (VrReplica State)
  handle_prepare_ok msg s =
      if not (is_normal s.status)
      then ok s
      else if ltb msg.view s.view
      then ok s
      else if ltb s.view msg.view
      then ok (request_state_transfer s)
      else if not (am_leader s)
      then ok s
      else let vs : Viewstamp = record { view = msg.view; opnum = msg.opnum } in
        let (q, msgs) = add_and_check_for_quorum vs msg.replica_idx msg s.prepare_ok_quorum in
        let s' = record s { prepare_ok_quorum = q } in
        if_null msgs (ok s') (λ ms. commit_quorum (length ms) msg s')

  unfoldable pub handle_commit : CommitMessage → VrReplica State → Result (VrReplica State)
  handle_commit msg s =
      if not (is_normal s.status)
      then ok s
      else if ltb msg.view s.view
      then ok s
      else if ltb s.view msg.view
      then ok (request_state_transfer s)
      else if am_leader s
      then err panicked
      else let s' = record s { timers = record s.timers { view_change_timeout = on } } in
        if leb msg.opnum s'.last_committed
        then ok s'
        else if ltb s'.last_op msg.opnum
        then ok (request_state_transfer s')
        else commit_up_to env msg.opnum s'
