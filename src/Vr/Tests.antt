-- ===== src/Vr/Tests.antt =====
-- Runs of the code of vr/replica.cc, and the theorems at concrete replicas: three replicas, of which
-- number 0 leads view 0, and an application that appends each operation to its state.
use specpaxos.Base.{
  ◌-◌, length, ◌≡◌, ◌≤◌, refl, true, false, none, List, [], ◌∷◌, ◌++◌, Result, ok, err, arith,
  add64, sub64,
}
use specpaxos.Base.Map.{lookup, insert}
use specpaxos.Base.Code.{◌>>=◌, if◌then◌else◌, assert, deref, or_panic, if_null}
use specpaxos.Viewstamp.{viewstamp_eq}
use specpaxos.Configuration.{Configuration, get_leader_index, quorum_size}
use specpaxos.QuorumSet.{add_and_check_for_quorum, new}
use specpaxos.Log
use specpaxos.Log.{Bytes, Request, Log, empty_hash}
use specpaxos.Replica.{AppReplica, normal, is_normal, execute}
use specpaxos.Vr.Messages.{request_message, prepare_ok_message}
use specpaxos.Vr.State.{Environment, VrReplica, new_replica, am_leader, send}
use specpaxos.Vr.Actions.{
  client_entry, update_client_table, store_reply, send_reply, reply_client, batch_requests,
  close_batch, commit_next, commit_rounds, commit_up_to,
}
use specpaxos.Vr.Normal.{
  freshness, respond, accept_request, replicate_request, handle_request, handle_prepare_ok,
  commit_quorum, announce_commit,
}
use specpaxos.Vr.Receive.{Event, receives, receive_message, step, run}
use specpaxos.Log.Progress.{IsSound, Extends}
use specpaxos.Vr.Durable.{progress}
use specpaxos.Vr.Durable.Events.{run-Extends, new_replica-IsSound}
use specpaxos.Base.{some}
use specpaxos.Vr.State.{ClientTableEntry}
use specpaxos.Vr.Requests.{Unchanged, handle_request-Unchanged}
use specpaxos.Vr.Execute.{HasRun, commit_up_to_lem}

-- An application whose state is what it has executed.
abbrev journal : AppReplica
journal = record {
  State = List Bytes;
  leader_upcall = λ opnum op a. record { replicate = true; res = op; app = a };
  replica_upcall = λ opnum op a. (op, a ++ op ∷ []);
  unlogged_upcall = λ op a. (op, a);
  rollback_upcall = λ current to reqs a. a;
  commit_upcall = λ op a. a;
}

abbrev world : Environment
world = record { application = journal; sha1 = λ bytes. bytes; dangling = λ m. m }

abbrev three : Configuration
three = record { n = 3; f = 1 }

abbrev put_x : Request
put_x = record { op = 120 ∷ []; clientid = 7; clientreqid = 1 }

-- The replica that a computation gives, or else the given one.
abbrev or_else : VrReplica (List Bytes) → Result (VrReplica (List Bytes)) → VrReplica (List Bytes)
or_else d (ok s) = s
or_else d (err e) = d

abbrev leader : VrReplica (List Bytes)
leader = record {
  configuration = three;
  my_idx = 0;
  status = normal;
  view = 0;
  last_committed = 0;
  last_op = 0;
  last_request_state_transfer_view = 0;
  last_request_state_transfer_opnum = 0;
  recovery_nonce = 0;
  pending_prepares = [];
  last_prepare = none;
  batch_size = 1;
  last_batch_end = 0;
  batch_complete = true;
  log = record { entries = []; initial_hash = empty_hash; start = 1; use_hash = false };
  client_addresses = [];
  client_table = [];
  prepare_ok_quorum = new 1;
  start_view_change_quorum = new 1;
  do_view_change_quorum = new 1;
  recovery_response_quorum = new 2;
  timers = record {
    view_change_timeout = false;
    null_commit_timeout = true;
    state_transfer_timeout = true;
    resend_prepare_timeout = false;
    close_batch_timeout = false;
    recovery_timeout = false;
  };
  app = [];
  sent = [];
}

leader_starts : new_replica three 0 true 1 0 [] ≡ ok leader
unfolding new_replica ◌>>=◌ if◌then◌else◌ Log.new_log Log.bytes_eq get_leader_index quorum_size
leader_starts = refl

leader-IsSound : IsSound (progress leader)
leader-IsSound = new_replica-IsSound three 0 true 1 0 [] leader leader_starts

-- What a request and its commit compute with.
commit_path : Unit {0}
unfolding run step receive_message handle_request is_normal am_leader get_leader_index freshness
    lookup respond accept_request update_client_table client_entry insert replicate_request
    Log.append Log.last_opnum Log.last_hash Log.hashed Log.new_entry add64 sub64 close_batch
    batch_requests Log.find send handle_prepare_ok add_and_check_for_quorum viewstamp_eq
    commit_quorum commit_up_to commit_rounds commit_next execute Log.set_status Log.replace
    reply_client store_reply send_reply quorum_size announce_commit ◌>>=◌ if◌then◌else◌ assert deref
    or_panic if_null
commit_path = tt

-- The leader takes a request, and commits it at the first PREPAREOK of another replica.
abbrev commit_one : List Event
commit_one =
    receives 9 (request_message put_x)
    ∷ receives 1 (prepare_ok_message (record { view = 0; opnum = 1; replica_idx = 1 }))
    ∷ []

abbrev after_one : VrReplica (List Bytes)
unfolding commit_path
after_one = or_else leader (run world commit_one leader)

commit_one_runs : run world commit_one leader ≡ ok after_one
unfolding commit_path
commit_one_runs = refl

run_app : after_one.app ≡ (120 ∷ []) ∷ []
unfolding commit_path
run_app = refl

run-Extends_example : Extends (progress leader) (progress after_one)
run-Extends_example = run-Extends world commit_one leader after_one leader-IsSound commit_one_runs

-- The leader with an operation in its log that is not committed.
abbrev prepared_leader : VrReplica (List Bytes)
unfolding commit_path
prepared_leader = or_else leader (step world (receives 9 (request_message put_x)) leader)

prepared_runs : run world (receives 9 (request_message put_x) ∷ []) leader ≡ ok prepared_leader
unfolding commit_path
prepared_runs = refl

prepared-IsSound : IsSound (progress prepared_leader)
prepared-IsSound =
    (run-Extends world (receives 9 (request_message put_x) ∷ []) leader prepared_leader
      leader-IsSound prepared_runs).is_sound

has_one : 1 ≤ length prepared_leader.log.entries
unfolding commit_path
has_one = omega arith

commit_up_to_lem_example :
    (s' : VrReplica (List Bytes)) × (commit_up_to world 1 prepared_leader ≡ ok s')
    × HasRun world (1 - prepared_leader.last_committed) prepared_leader s'
commit_up_to_lem_example = commit_up_to_lem world 1 prepared_leader prepared-IsSound has_one

new_replica-IsSound_example : IsSound (progress leader)
new_replica-IsSound_example = new_replica-IsSound three 0 true 1 0 [] leader leader_starts

-- The client's entry after its request has been committed.
abbrev answered_entry : ClientTableEntry
answered_entry = record {
  last_req_id = 1;
  replied = true;
  reply = some (record { view = 0; opnum = 1; reply = 120 ∷ []; clientreqid = 1 });
}

has_answered : lookup 7 after_one.client_table ≡ some answered_entry
unfolding commit_path
has_answered = refl

handle_request-Unchanged_example :
    (s' : VrReplica (List Bytes)) × (handle_request world 9 put_x after_one ≡ ok s')
    × Unchanged world after_one s'
handle_request-Unchanged_example =
    handle_request-Unchanged world 9 put_x answered_entry after_one has_answered (omega arith)
      (λ h g. cc)
