-- ===== src/Spec/Actions.antt =====
-- spec/replica.cc: CommitUpTo, RollbackTo, UpdateClientTable, StartViewChange, and the sending of
-- SYNC and SYNCREPLY.
use specpaxos.Base.{
  ℕ, zero, suc, ◌+◌, ◌-◌, Bool, true, false, not, none, some, [], Result, ok, err, panicked, ltb,
  leb, ◌==◌, length, set,
}
use specpaxos.Base.Code.{◌>>=◌, ◌>>◌, assert, asserted, deref, if◌then◌else◌}
use specpaxos.Base.Map.{Map, lookup, insert}
use specpaxos.Configuration.{get_leader_index}
use specpaxos.Log.{
  Bytes, Request, Log, LogEntry, SpeculativeReplyMessage, committed, find, set_status, last,
  remove_after,
}
use specpaxos.Replica.{view_change, is_normal, rollback, commit}
use specpaxos.Spec.Messages.{
  SyncMessage, SyncReplyMessage, sync_message, sync_reply_message, start_view_change_message,
}
use specpaxos.Spec.State.{
  to_all, to_replica, ClientTableEntry, new_client, Environment, SpecReplica, am_leader, send,
}

-- Timeout::Start and Reset arm a timeout, and Stop disarms it.
abbrev pub on : Bool
on = true

abbrev pub off : Bool
off = false

-- clientTable[client]: the client's entry, which the read inserts if it is missing.
unfoldable pub client_entry : ℕ → Map ClientTableEntry → ClientTableEntry
client_entry client table = elim (lookup client table) [ none ↦ new_client | some e ↦ e ]

-- The last entry of a log, changed through the reference that Append has returned.
unfoldable pub set_last : LogEntry → Log → Log
set_last e l = record l { entries = set l.entries (length l.entries - 1) e }

-- The request's number that the client table goes back to: that of the client's request before, at
-- the opnum `previous`, if there was one.
unfoldable pub previous_req_id : ℕ → Log → Result ℕ
previous_req_id previous l =
    if ltb 0 previous
    then (do found ← find previous l; old_entry ← asserted found; ok old_entry.request.clientreqid)
    else ok 0

-- One round of RollbackTo, at the opnum `i`. prevClientReqOpnum is read, which it must not be unset.
unfoldable pub rollback_client : ℕ → Log → Map ClientTableEntry → Result (Map ClientTableEntry)
rollback_client i l table = do
  found ← find i l
  entry ← asserted found
  let cte = client_entry entry.request.clientid table
  assert (cte.last_req_opnum == entry.viewstamp.opnum)
  previous ← deref entry.prev_client_req_opnum
  id ← previous_req_id previous l
  let cte' : ClientTableEntry = record { last_req_id = id; last_req_opnum = previous }
  ok (insert entry.request.clientid cte' table)

-- for (i = lastSpeculative; i > backto; i--)
unfoldable pub rollback_clients : ℕ → ℕ → Log → Map ClientTableEntry → Result (Map ClientTableEntry)
rollback_clients zero i l table = ok table
rollback_clients (suc rounds) i l table = do
  table' ← rollback_client i l table
  rollback_clients rounds (i - 1) l table'

-- The hash of SendSyncReply.
unfoldable pub hash_at : ℕ → Log → Result Bytes
hash_at opnum l =
    if opnum == 0 then ok [] else (do found ← find opnum l; entry ← asserted found; ok entry.hash)

module _ {A : Type 0} where
  -- The entry that is changed is the last one of the log, which has just been appended.
  unfoldable pub update_client_table :
      Request → SpeculativeReplyMessage → SpecReplica A → Result (SpecReplica A)
  update_client_table req reply s = do
    let entry = client_entry req.clientid s.client_table
    assert (leb entry.last_req_id req.clientreqid)
    log_entry ← deref (last s.log)
    let log' =
        set_last
          (record log_entry {
            prev_client_req_opnum = some entry.last_req_opnum;
            reply_message = some reply;
          })
          s.log
    let entry' : ClientTableEntry =
        if entry.last_req_id == req.clientreqid
        then entry
        else record { last_req_id = req.clientreqid; last_req_opnum = log_entry.viewstamp.opnum }
    ok (record s { log = log'; client_table = insert req.clientid entry' s.client_table })

  unfoldable pub start_view_change : ℕ → SpecReplica A → SpecReplica A
  start_view_change newview s =
      send
        (to_all (
          start_view_change_message
            (record { view = newview; replica_idx = s.my_idx; last_committed = s.last_committed })))
        (record s {
          view = newview;
          status = view_change;
          timers = record {
            sync_timeout = off;
            failed_sync_timeout = off;
            view_change_timeout = on;
          };
        })

  -- The hash of the last committed entry, if there is one.
  unfoldable pub committed_hash : SpecReplica A → Result Bytes
  committed_hash s =
      if not (s.last_committed == 0)
      then (do found ← find s.last_committed s.log; entry ← deref found; ok entry.hash)
      else ok []

  unfoldable pub send_sync : SpecReplica A → Result (SpecReplica A)
  send_sync s = do
    assert (am_leader s)
    assert (is_normal s.status)
    let s' = record s { last_sync = s.last_speculative }
    hash ← committed_hash s'
    let msg : SyncMessage = record {
      view = s'.view;
      last_committed = s'.last_committed;
      last_committed_hash = hash;
      last_speculative = s'.last_speculative;
    }
    ok (send (to_all (sync_message msg)) s')

  unfoldable pub send_sync_reply : ℕ → SpecReplica A → Result (SpecReplica A)
  send_sync_reply opnum s = do
    hash ← hash_at opnum s.log
    let reply : SyncReplyMessage = record {
      view = s.view;
      last_speculative = opnum;
      last_speculative_hash = hash;
      replica_idx = s.my_idx;
    }
    ok (send (to_replica (get_leader_index s.configuration s.view) (sync_reply_message reply)) s)

module _ (env : Environment) where
  open env use {application}
  open application use {State}

  -- One round of CommitUpTo: mark the entry after the last committed one.
  unfoldable pub commit_next : SpecReplica State → Result (SpecReplica State)
  commit_next s = do
    let op = s.last_committed + 1
    (log', success) ← set_status op committed s.log
    if success then ok (record s { last_committed = op; log = log' }) else err panicked

  unfoldable pub commit_rounds : ℕ → SpecReplica State → Result (SpecReplica State)
  commit_rounds zero s = ok s
  commit_rounds (suc rounds) s = do s' ← commit_next s; commit_rounds rounds s'

  -- CommitUpTo: while (lastCommitted < upto), in which a round adds one to lastCommitted.
  unfoldable pub commit_up_to : ℕ → SpecReplica State → Result (SpecReplica State)
  commit_up_to upto s = do
    s' ← commit_rounds (upto - s.last_committed) s
    ok (record s' { app = commit application upto s'.app })

  unfoldable pub rollback_to : ℕ → SpecReplica State → Result (SpecReplica State)
  rollback_to backto s = if leb s.last_speculative backto then ok s else do
    assert (leb s.last_committed backto)
    table ← rollback_clients (s.last_speculative - backto) s.last_speculative s.log s.client_table
    app' ← rollback application s.last_speculative backto s.log s.app
    log' ← remove_after (backto + 1) s.log
    ok (record s { client_table = table; app = app'; log = log'; last_speculative = backto })
