-- ===== src/FastPaxos/Tests.antt =====
-- Runs of the code of fastpaxos/replica.cc, and the theorems at concrete replicas: three replicas, of
-- which number 0 leads view 0, and an application that keeps what it has executed.
use specpaxos.Base.{
  ℕ, ◌<◌, ◌≡◌, refl, true, false, none, List, [], ◌∷◌, ◌++◌, Result, ok, err, arith, add64, sub64,
}
use specpaxos.Base.Map.{lookup, insert}
use specpaxos.Base.Dictionary.{bytes_eq}
use specpaxos.Base.Code.{◌>>=◌, if◌then◌else◌, assert, asserted, deref, or_panic, if_null}
use specpaxos.Viewstamp.{viewstamp_eq}
use specpaxos.Configuration.{get_leader_index, quorum_size, fast_quorum_size}
use specpaxos.QuorumSet.{add_and_check_for_quorum, new}
use specpaxos.Log
use specpaxos.Log.{Bytes, Request, empty_hash}
use specpaxos.Log.Progress.{IsSound, Extends}
use specpaxos.Replica.{AppReplica, normal, is_normal, execute}
use specpaxos.FastPaxos.Messages.{PrepareOkMessage, request_message, prepare_ok_message}
use specpaxos.FastPaxos.State.{Environment, FastPaxosReplica, new_replica, am_leader, send}
use specpaxos.FastPaxos.Actions.{
  is_prepared, client_entry, update_client_table, store_reply, send_reply, resend_prepare,
  commit_next, commit_rounds, commit_up_to,
}
use specpaxos.FastPaxos.Normal.{
  same_request, quorum_of, set_quorum, commit_quorum, count_prepare_ok, match_prepare_ok,
  handle_prepare_ok, handle_prepare_oks, lead_request, accept_request, handle_request,
}
use specpaxos.FastPaxos.Receive.{Event, receives, receive_message, step, run}
use specpaxos.FastPaxos.Durable.{progress}
use specpaxos.FastPaxos.Durable.Events.{run_stable}
use specpaxos.FastPaxos.Agreement.{Agreed, handle_prepare_ok_quorum}

abbrev journal : AppReplica
journal = record {
  State = List Bytes;
  leader_upcall = λ opnum op a. record { replicate = true; res = op; app = a };
  replica_upcall = λ opnum op a. (op, a ++ op ∷ []);
  unlogged_upcall = λ op a. (op, a);
  rollback_upcall = λ current to reqs a. a;
  commit_upcall = λ op a. a;
}

abbrev world : Environment
world = record { application = journal; sha1 = λ bytes. bytes }

abbrev put_x : Request
put_x = record { op = 120 ∷ []; clientid = 7; clientreqid = 1 }

-- The replica that a computation gives, or else the given one.
abbrev or_else :
    FastPaxosReplica (List Bytes)
    → Result (FastPaxosReplica (List Bytes))
    → FastPaxosReplica (List Bytes)
or_else d (ok s) = s
or_else d (err e) = d

abbrev leader : FastPaxosReplica (List Bytes)
leader = record {
  configuration = record { n = 3; f = 1 };
  my_idx = 0;
  status = normal;
  view = 0;
  last_committed = 0;
  last_fast_path = 0;
  last_slow_path = 0;
  last_request_state_transfer_view = 0;
  last_request_state_transfer_opnum = 0;
  pending_prepares = [];
  pending_prepare_oks = [];
  last_prepare = none;
  log = record { entries = []; initial_hash = empty_hash; start = 1; use_hash = false };
  client_addresses = [];
  client_table = [];
  slow_prepare_ok_quorum = new 1;
  fast_prepare_ok_quorum = new 2;
  timers = record { state_transfer_timeout = true; resend_prepare_timeout = false };
  app = [];
  sent = [];
}

leader_starts : new_replica (record { n = 3; f = 1 }) 0 true [] ≡ ok leader
unfolding new_replica ◌>>=◌ if◌then◌else◌ Log.new_log bytes_eq quorum_size fast_quorum_size
leader_starts = refl

leader-IsSound : IsSound (progress leader)
leader-IsSound = record {
  has_committed = record {
    well_formed = record {
      numbered = tt;
      fits = omega arith;
      positive = omega arith;
      small = omega arith;
    };
    room = omega arith;
    done = tt;
  };
  from_one = refl;
}

-- What a request and its commit compute with.
commit_path : Unit {0}
unfolding run step receive_message handle_request is_normal am_leader get_leader_index lookup
    accept_request update_client_table client_entry insert lead_request handle_prepare_oks
    Log.append Log.last_opnum Log.last_hash Log.hashed Log.new_entry add64 sub64 Log.find send
    handle_prepare_ok is_prepared match_prepare_ok same_request bytes_eq count_prepare_ok quorum_of
    set_quorum add_and_check_for_quorum viewstamp_eq commit_quorum commit_up_to commit_rounds
    commit_next execute Log.set_status Log.replace store_reply send_reply resend_prepare ◌>>=◌
    if◌then◌else◌ assert asserted deref or_panic if_null
commit_path = tt

abbrev fast_ok : ℕ → PrepareOkMessage
fast_ok idx = record { view = 0; opnum = 1; replica_idx = idx; req = put_x; slowpath = false }

-- A PREPAREOK that comes before the request, the request, and the other PREPAREOK.
abbrev fast_events : List Event
fast_events =
    receives 1 (prepare_ok_message (fast_ok 1))
    ∷ receives 9 (request_message put_x)
    ∷ receives 2 (prepare_ok_message (fast_ok 2))
    ∷ []

leader_commits :
    let s = or_else leader (run world fast_events leader) in
    (s.last_committed ≡ 1) × (s.app ≡ (120 ∷ []) ∷ [])
unfolding commit_path
leader_commits = (refl, refl)

run_stable_example :
    Extends (progress leader) (progress (or_else leader (run world fast_events leader)))
unfolding commit_path
run_stable_example = run_stable world fast_events leader _ leader-IsSound refl

-- The leader with the request and one PREPAREOK.
abbrev one_answer : FastPaxosReplica (List Bytes)
one_answer = or_else leader (
    run world
      (receives 9 (request_message put_x) ∷ receives 1 (prepare_ok_message (fast_ok 1)) ∷ [])
      leader)

abbrev two_answers : FastPaxosReplica (List Bytes)
two_answers = or_else leader (handle_prepare_ok world 2 (fast_ok 2) one_answer)

second_returns : handle_prepare_ok world 2 (fast_ok 2) one_answer ≡ ok two_answers
unfolding commit_path
second_returns = refl

second_commits : one_answer.last_committed < two_answers.last_committed
unfolding commit_path
second_commits = omega arith

handle_prepare_ok_quorum_example : Agreed (fast_ok 2) one_answer
handle_prepare_ok_quorum_example =
    handle_prepare_ok_quorum world 2 (fast_ok 2) one_answer two_answers second_returns
      second_commits

-- The other replicas have the second request at the leader's opnum, and have said nothing of the first:
-- the leader commits both.
abbrev put_y : Request
put_y = record { op = 121 ∷ []; clientid = 8; clientreqid = 1 }

abbrev second_ok : ℕ → PrepareOkMessage
second_ok idx = record { view = 0; opnum = 2; replica_idx = idx; req = put_y; slowpath = false }

abbrev gap_events : List Event
gap_events =
    receives 9 (request_message put_x)
    ∷ receives 10 (request_message put_y)
    ∷ receives 1 (prepare_ok_message (second_ok 1))
    ∷ receives 2 (prepare_ok_message (second_ok 2))
    ∷ []

leader_commits_both :
    let s = or_else leader (run world gap_events leader) in
    (s.last_committed ≡ 2) × (s.app ≡ (120 ∷ []) ∷ (121 ∷ []) ∷ [])
unfolding commit_path
leader_commits_both = (refl, refl)
