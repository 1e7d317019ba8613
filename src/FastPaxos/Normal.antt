-- ===== src/FastPaxos/Normal.antt =====
-- fastpaxos/replica.cc: the normal case, HandleRequest to HandleCommit.
use specpaxos.Base.{
  ℕ, Bool, true, false, not, ◌&&◌, some, List, [], ◌∷◌, ◌++◌, Result, ok, err, panicked, undefined,
  ltb, leb, ◌==◌, length, add64,
}
use specpaxos.Base.Code.{◌>>=◌, ◌>>◌, assert, asserted, if_null, if◌then◌else◌}
use specpaxos.Base.Dictionary.{bytes_eq}
use specpaxos.Base.Map.{Map, lookup, insert}
use specpaxos.Viewstamp.{Viewstamp}
use specpaxos.QuorumSet.{QuorumSet, add_and_check_for_quorum}
use specpaxos.Log.{Request, LogEntry, prepared, find, append, set_request}
use specpaxos.Replica.{Address, is_normal, execute_unlogged}
use specpaxos.FastPaxos.Messages.{
  ProposalMessage, PrepareOkMessage, reply_message, unlogged_reply_message, commit_message,
}
use specpaxos.FastPaxos.State.{
  to_all, to_address, viewstamp_key, Environment, FastPaxosReplica, am_leader, send,
}
use specpaxos.FastPaxos.Actions.{
  is_prepared, update_client_table, send_ok, request_state_transfer, resend_prepare, commit_up_to,
}

-- The requests are of the same client and have the same number.
unfoldable pub same_request : Request → Request → Bool
same_request a b = a.clientid == b.clientid && a.clientreqid == b.clientreqid

module _ {A : Type 0} where
  -- The quorum set of the path that a PREPAREOK comes by.
  unfoldable pub quorum_of : Bool → FastPaxosReplica A → QuorumSet Viewstamp PrepareOkMessage
  quorum_of true s = s.slow_prepare_ok_quorum
  quorum_of false s = s.fast_prepare_ok_quorum

  unfoldable pub set_quorum :
      Bool → QuorumSet Viewstamp PrepareOkMessage → FastPaxosReplica A → FastPaxosReplica A
  set_quorum true q s = record s { slow_prepare_ok_quorum = q }
  set_quorum false q s = record s { fast_prepare_ok_quorum = q }

  -- Ask for what is missing, and keep the PREPARE for later.
  unfoldable pub postpone : Address → ProposalMessage → FastPaxosReplica A → FastPaxosReplica A
  postpone remote msg s =
      let s' = request_state_transfer s in
      record s' { pending_prepares = s'.pending_prepares ++ (remote, msg) ∷ [] }

  -- An entry that is prepared gets another request.
  unfoldable pub replace_request : ℕ → Request → FastPaxosReplica A → Result (FastPaxosReplica A)
  replace_request opnum req s = do
    found ← find opnum s.log
    entry ← asserted found
    assert (is_prepared entry.state)
    (log', set) ← set_request opnum req s.log
    ok (record s { log = log' })

module _ (env : Environment) where
  open env use {application, sha1}
  open application use {State}

  -- With a quorum: commit, and announce it unless the quorum was already there.
  unfoldable pub commit_quorum :
      PrepareOkMessage
      → LogEntry
      → Map PrepareOkMessage
      → FastPaxosReplica State
      → Result (FastPaxosReplica State)
  commit_quorum msg entry msgs s = do
    s' ← commit_up_to env msg.opnum s
    if ltb (quorum_of msg.slowpath s').num_required (length msgs)
        then ok s'
        else (let cm : ProposalMessage = record {
          view = s'.view;
          opnum = s'.last_committed;
          req = entry.request;
        } in
            ok (send (to_all (commit_message cm)) s'))

  unfoldable pub count_prepare_ok :
      PrepareOkMessage → LogEntry → FastPaxosReplica State → Result (FastPaxosReplica State)
  count_prepare_ok msg entry s =
      let vs : Viewstamp = record { view = msg.view; opnum = msg.opnum } in
      let (q, msgs) = add_and_check_for_quorum vs msg.replica_idx msg (quorum_of msg.slowpath s) in
      let s' = set_quorum msg.slowpath q s in
      if_null msgs (ok s') λ ms. commit_quorum msg entry ms s'

  -- A PREPAREOK for an entry of the log. One by the fast path may be for another request.
  unfoldable pub match_prepare_ok :
      PrepareOkMessage → LogEntry → FastPaxosReplica State → Result (FastPaxosReplica State)
  match_prepare_ok msg entry s =
      if not msg.slowpath && not (same_request entry.request msg.req) then resend_prepare s else (do
        assert (same_request entry.request msg.req)
        assert (bytes_eq entry.request.op msg.req.op)
        count_prepare_ok msg entry s)

  unfoldable pub handle_prepare_ok :
      Address → PrepareOkMessage → FastPaxosReplica State → Result (FastPaxosReplica State)
  handle_prepare_ok remote msg s =
      if not (is_normal s.status)
      then ok s
      else if ltb msg.view s.view
      then ok s
      else if ltb s.view msg.view
      then ok (request_state_transfer s)
      else if not (am_leader s)
      then ok s
      else if leb msg.opnum s.last_committed
      then ok s
      else if ltb s.last_slow_path msg.opnum
      then ok (record s { pending_prepare_oks = s.pending_prepare_oks ++ (remote, msg) ∷ [] })
      else (do
        found ← find msg.opnum s.log
        entry ← asserted found
        assert (is_prepared entry.state)
        match_prepare_ok msg entry s)

  -- The PREPAREOKs that came before their request, in their order.
  unfoldable pub handle_prepare_oks :
      List (Address × PrepareOkMessage) → FastPaxosReplica State → Result (FastPaxosReplica State)
  handle_prepare_oks [] s = ok s
  handle_prepare_oks ((remote, msg) ∷ msgs) s = do
    s' ← handle_prepare_ok remote msg s
    handle_prepare_oks msgs s'

  -- The leader gives the request the next opnum, and waits for the fast path.
  unfoldable pub lead_request : Request → FastPaxosReplica State → Result (FastPaxosReplica State)
  lead_request req s = do
    assert (s.last_fast_path == s.last_slow_path)
    let op = add64 s.last_slow_path 1
    log' ← append sha1 (record { view = s.view; opnum = op }) req prepared s.log
    let p : ProposalMessage = record { view = s.view; opnum = op; req = req }
    let s1 = record s {
      last_slow_path = op;
      last_fast_path = op;
      log = log';
      last_prepare = some p;
      timers = record s.timers { resend_prepare_timeout = true };
    }
    handle_prepare_oks s1.pending_prepare_oks (record s1 { pending_prepare_oks = [] })

  -- Another replica guesses the opnum, and tells the leader.
  unfoldable pub follow_request : Request → FastPaxosReplica State → Result (FastPaxosReplica State)
  follow_request req s = do
    let op = add64 s.last_fast_path 1
    log' ← append sha1 (record { view = s.view; opnum = op }) req prepared s.log
    ok (send_ok s.view op req false (record s { last_fast_path = op; log = log' }))

  unfoldable pub accept_request : Request → FastPaxosReplica State → Result (FastPaxosReplica State)
  accept_request req s =
      let s' = update_client_table req s in
      if am_leader s' then lead_request req s' else follow_request req s'

  unfoldable pub handle_request :
      Address → Request → FastPaxosReplica State → Result (FastPaxosReplica State)
  handle_request remote req s =
      if not (is_normal s.status)
      then ok s
      else let s1 = record s { client_addresses = insert req.clientid remote s.client_addresses } in
        if_null (lookup req.clientid s1.client_table) (accept_request req s1) λ entry.
          if ltb req.clientreqid entry.last_req_id
          then ok s1
          else if req.clientreqid == entry.last_req_id
          then if entry.replied
            then if_null entry.reply (err undefined)
                (λ reply. ok (send (to_address remote (reply_message reply)) s1))
            else ok s1
          else accept_request req s1

  unfoldable pub handle_unlogged_request :
      Address → Request → FastPaxosReplica State → Result (FastPaxosReplica State)
  handle_unlogged_request remote req s =
      if not (is_normal s.status)
      then ok s
      else let (res, app') = execute_unlogged application req s.app in
        ok (send (to_address remote (unlogged_reply_message res)) (record s { app = app' }))

  -- The operation goes into the log, or replaces the one that the replica has guessed.
  unfoldable pub prepare_entry :
      ProposalMessage → FastPaxosReplica State → Result (FastPaxosReplica State)
  prepare_entry msg s =
      if ltb s.last_fast_path msg.opnum
      then (do
        assert (msg.opnum == add64 s.last_fast_path 1)
        log' ← append sha1 (record { view = msg.view; opnum = msg.opnum }) msg.req prepared s.log
        ok (record s {
          last_fast_path = add64 s.last_fast_path 1;
          last_slow_path = add64 s.last_slow_path 1;
          log = log';
        }))
      else (do
        assert (msg.opnum == add64 s.last_slow_path 1)
        s' ← replace_request msg.opnum msg.req s
        ok (record s' { last_slow_path = add64 s'.last_slow_path 1 }))

  unfoldable pub handle_prepare :
      Address → ProposalMessage → FastPaxosReplica State → Result (FastPaxosReplica State)
  handle_prepare remote msg s =
      if not (is_normal s.status)
      then ok s
      else if ltb msg.view s.view
      then ok s
      else if ltb s.view msg.view
      then ok (postpone remote msg s)
      else if am_leader s
      then err panicked
      else if leb msg.opnum s.last_slow_path
      then ok (send_ok msg.view msg.opnum msg.req true s)
      else if ltb (add64 s.last_slow_path 1) msg.opnum
      then ok (postpone remote msg s)
      else (do
        s' ← prepare_entry msg s
        ok (send_ok msg.view msg.opnum msg.req true (update_client_table msg.req s')))

  -- A COMMIT of an operation that has come by the fast path only sets its request first.
  unfoldable pub commit_fast :
      ProposalMessage → FastPaxosReplica State → Result (FastPaxosReplica State)
  commit_fast msg s =
      if ltb s.last_slow_path msg.opnum
      then if ltb (add64 s.last_slow_path 1) msg.opnum
        then ok s
        else (do s' ← replace_request msg.opnum msg.req s; commit_up_to env msg.opnum s')
      else commit_up_to env msg.opnum s

  unfoldable pub handle_commit :
      ProposalMessage → FastPaxosReplica State → Result (FastPaxosReplica State)
  handle_commit msg s =
      if not (is_normal s.status)
      then ok s
      else if ltb msg.view s.view
      then ok s
      else if ltb s.view msg.view
      then ok (request_state_transfer s)
      else if am_leader s
      then err panicked
      else if leb msg.opnum s.last_committed
      then ok s
      else if ltb s.last_fast_path msg.opnum
      then ok (request_state_transfer s)
      else commit_fast msg s
