-- ===== src/Spec/Tests.antt =====
-- Runs of the code of spec/replica.cc, and the theorems at concrete replicas: three replicas, of which
-- number 0 leads view 0, and an application that appends each operation to its state.
use specpaxos.Base.{
  ℕ, ◌-◌, length, ◌≡◌, refl, true, false, List, [], ◌∷◌, Result, ok, err, add64, sub64, ◌<◌, ◌≤◌,
  arith,
}
use specpaxos.Base.Map.{lookup, insert}
use specpaxos.Base.Dictionary.{set_key, find_key, bytes_lt}
use specpaxos.Base.Code.{◌>>=◌, if◌then◌else◌, assert, asserted, deref, if_null, Ensures-elim}
use specpaxos.Configuration.{Configuration, get_leader_index, quorum_size, fast_quorum_size}
use specpaxos.QuorumSet.{add_and_check_for_quorum, new, clear, nat_key}
use specpaxos.Log
use specpaxos.Log.{Bytes, Request, Log, LogEntry, empty_hash}
use specpaxos.Replica.{AppReplica, normal, is_normal, execute, commit}
use specpaxos.Spec.Messages.{SyncReplyMessage, request_message, sync_reply_message}
use specpaxos.Spec.State.{Environment, SpecReplica, am_leader, send}
use specpaxos.Spec.Actions.{
  client_entry, set_last, update_client_table, send_sync, commit_next, commit_rounds, commit_up_to,
  start_view_change, previous_req_id, rollback_to,
}
use specpaxos.Spec.Requests.{
  handle_request, accept_request, speculate, answer_pending_sync, sync_if_due, start_view,
  handle_requests, enter_view,
}
use specpaxos.Spec.Sync.{
  handle_sync_reply, compare_hashes, commit_matching, matching_hash, count_hash, count_hashes,
}
use specpaxos.Spec.Receive.{Event, receives, new_replica, receive_message, step, run}
use specpaxos.Spec.Commit.{Commits, commit_up_to_returns}
use specpaxos.Spec.Agreement.{FastQuorum, handle_sync_reply_quorum, sync_reply}
use specpaxos.QuorumSet.Laws.{gather}
use specpaxos.Spec.LastEntry.{last_request}
use specpaxos.Spec.Rollback.{TakenBack, rollback_to-speculate}
use specpaxos.Spec.Durable.{IsSound, Extends, progress}
use specpaxos.Spec.Durable.Events.{run_durable, new_replica-Ensures}

-- An application whose state is what it has executed; a rollback drops the last operation.
abbrev journal : AppReplica
journal = record {
  State = List Bytes;
  leader_upcall = λ opnum op a. record { replicate = true; res = op; app = a };
  replica_upcall = λ opnum op a. (op, op ∷ a);
  unlogged_upcall = λ op a. (op, a);
  rollback_upcall = λ current to reqs a. elim a [ [] ↦ [] | op ∷ rest ↦ rest ];
  commit_upcall = λ op a. a;
}

abbrev world : Environment
world = record { application = journal; sha1 = λ bytes. length bytes ∷ [] }

abbrev three : Configuration
three = record { n = 3; f = 1 }

abbrev put_x : Request
put_x = record { op = 120 ∷ []; clientid = 7; clientreqid = 1 }

-- The replica that a computation gives, or else the given one.
abbrev or_else :
    SpecReplica (List Bytes) → Result (SpecReplica (List Bytes)) → SpecReplica (List Bytes)
or_else d (ok s) = s
or_else d (err e) = d

abbrev leader : SpecReplica (List Bytes)
leader = record {
  configuration = three;
  my_idx = 0;
  status = normal;
  log = record { entries = []; initial_hash = empty_hash; start = 1; use_hash = true };
  view = 0;
  last_committed = 0;
  last_committed_sent = 0;
  last_speculative = 0;
  pending_sync = 0;
  last_sync = 0;
  sent_do_view_change = 0;
  need_fill_dvc = 0;
  client_addresses = [];
  client_table = [];
  pending_requests = [];
  sync_reply_quorum = new 2;
  start_view_change_quorum = new 1;
  do_view_change_quorum = new 2;
  in_view_quorum = new 1;
  timers = record { sync_timeout = true; failed_sync_timeout = true; view_change_timeout = false };
  app = [];
  sent = [];
}

leader_starts : new_replica world three 0 true [] ≡ ok leader
unfolding new_replica enter_view start_view handle_requests am_leader ◌>>=◌ if◌then◌else◌
    Log.new_log Log.bytes_eq get_leader_index quorum_size fast_quorum_size clear
leader_starts = refl

leader-IsSound : IsSound (progress leader)
leader-IsSound = Ensures-elim (new_replica-Ensures world three 0 true []) leader_starts

-- What a request and its commit compute with.
commit_path : Unit {0}
unfolding run step receive_message handle_request is_normal am_leader get_leader_index lookup
    accept_request speculate answer_pending_sync sync_if_due send_sync update_client_table set_last
    client_entry insert Log.append Log.last_opnum Log.last_hash Log.last Log.hashed Log.new_entry
    Log.compute_hash Log.bytes_eq Log.is_committed add64 sub64 Log.find send handle_sync_reply
    add_and_check_for_quorum compare_hashes commit_matching matching_hash count_hash count_hashes
    commit_up_to commit_rounds commit_next execute commit Log.set_status Log.replace
    fast_quorum_size ◌>>=◌ if◌then◌else◌ assert asserted deref if_null set_key find_key bytes_lt
    start_view_change
commit_path = tt

-- The leader executes a request, and commits it when all replicas have sent the hash of its log.
abbrev sync_events : Bytes → List Event
sync_events hash =
    receives 9 (request_message put_x)
    ∷ receives 1 (
        sync_reply_message (record {
          view = 0;
          last_speculative = 1;
          last_speculative_hash = hash;
          replica_idx = 1;
        }))
    ∷ receives 2 (
        sync_reply_message (record {
          view = 0;
          last_speculative = 1;
          last_speculative_hash = hash;
          replica_idx = 2;
        }))
    ∷ []

leader_commits :
    let s = or_else leader (run world (sync_events (36 ∷ [])) leader) in
    (s.last_committed ≡ 1) × (s.app ≡ (120 ∷ []) ∷ []) × (s.view ≡ 0)
unfolding commit_path
leader_commits = (refl, refl, refl)

-- The other two agree on a hash that is not the leader's: no fast quorum, so nothing is committed.
leader_differs :
    let s = or_else leader (run world (sync_events (37 ∷ [])) leader) in
    (s.last_committed ≡ 0) × (s.view ≡ 1)
unfolding commit_path
leader_differs = (refl, refl)

run_durable_example :
    Extends (progress leader) (progress (or_else leader (run world (sync_events (36 ∷ [])) leader)))
unfolding commit_path
run_durable_example = run_durable world (sync_events (36 ∷ [])) leader _ leader-IsSound refl

leader_knows :
    previous_req_id (last_request 7 leader).last_req_opnum leader.log
    ≡ ok (last_request 7 leader).last_req_id
unfolding previous_req_id client_entry lookup if◌then◌else◌
leader_knows = refl

leader_newer : (last_request 7 leader).last_req_id < 1
unfolding client_entry lookup
leader_newer = omega arith

rollback_to-speculate_example :
    (s' : SpecReplica (List Bytes)) × (s'' : SpecReplica (List Bytes)) × (speculate world 9 put_x
        leader
      ≡ ok s')
    × (rollback_to world 0 s' ≡ ok s'')
    × TakenBack world put_x leader s''
rollback_to-speculate_example =
    rollback_to-speculate world 9 put_x leader leader-IsSound (omega arith) leader_newer
      leader_knows

-- The leader with one request, and then with a SYNCREPLY for it.
abbrev one_request : SpecReplica (List Bytes)
one_request = or_else leader (run world (receives 9 (request_message put_x) ∷ []) leader)

abbrev sync_reply_of : ℕ → SyncReplyMessage
sync_reply_of idx = record {
  view = 0;
  last_speculative = 1;
  last_speculative_hash = 36 ∷ [];
  replica_idx = idx;
}

abbrev one_reply : SpecReplica (List Bytes)
one_reply = or_else leader (handle_sync_reply world (sync_reply_of 1) one_request)

abbrev two_replies : SpecReplica (List Bytes)
two_replies = or_else leader (handle_sync_reply world (sync_reply_of 2) one_reply)

second_returns : handle_sync_reply world (sync_reply_of 2) one_reply ≡ ok two_replies
unfolding commit_path
second_returns = refl

second_commits : one_reply.last_committed < two_replies.last_committed
unfolding commit_path
second_commits = omega arith

handle_sync_reply_quorum_example :
    FastQuorum 1 (sync_reply (sync_reply_of 2)) (sync_reply (sync_reply_of 1) ∷ []) one_reply
unfolding commit_path gather
handle_sync_reply_quorum_example =
    handle_sync_reply_quorum world (sync_reply_of 2) 2 (sync_reply (sync_reply_of 1) ∷ []) one_reply
      two_replies refl (omega arith) (omega arith, (omega arith, tt)) ((λ e. cc), ((λ e. cc), tt))
      second_returns second_commits

one_request-IsSound : IsSound (progress one_request)
unfolding commit_path
one_request-IsSound =
    (run_durable world (receives 9 (request_message put_x) ∷ []) leader _ leader-IsSound
      refl).is_sound

one_speculative : 1 ≤ one_request.last_speculative
unfolding commit_path
one_speculative = omega arith

commit_up_to_returns_example :
    (s' : SpecReplica (List Bytes)) × (commit_up_to world 1 one_request ≡ ok s')
    × Commits world (1 - one_request.last_committed) one_request s'
    × (s'.app ≡ journal.commit_upcall 1 one_request.app)
commit_up_to_returns_example =
    commit_up_to_returns world 1 one_request one_request-IsSound one_speculative
