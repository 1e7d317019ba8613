-- ===== src/Vr/ClientTests.antt =====
-- Runs of the client of vr/client.cc.
use specpaxos.Base.{
  ℕ, ◌≡◌, refl, true, false, some, none, List, [], ◌∷◌, ok, err, ◌>>=◌, arith, add64,
  bad_function_call,
}
use specpaxos.Log.{Bytes, Request}
use specpaxos.Vr.Messages.{ReplyMessage, reply_message, request_message, unlogged_reply_message}
use specpaxos.Vr.Client.{
  PendingRequest, Completion, VrClient, new_client, send_to_all, invoke, invoke_unlogged,
  handle_reply, handle_unlogged_reply, send_request, resend_request, refuse_second, complete,
  call_function, unlogged_request_timeout_callback, receive_message,
}
use specpaxos.Vr.ClientRuns.{
  Event, invokes, invokes_unlogged, receives, request_times_out, unlogged_request_times_out,
  perform, run, IsTracked, IsConsistent, run-IsConsistent,
}
use specpaxos.Vr.ClientRetry.{is_answer, has_answer, run_retries}

unfoldable client_path : Unit {0}
unfolding new_client invoke invoke_unlogged handle_reply handle_unlogged_reply send_request
    resend_request refuse_second complete call_function unlogged_request_timeout_callback
    receive_message perform run add64 is_answer has_answer
client_path = tt

abbrev reply_to : ℕ → Bytes → ReplyMessage
reply_to n reply = record { view = 0; opnum = n; reply = reply; clientreqid = n }

-- Of two requests the first is answered twice, and the late second answer is ignored.
abbrev events : List Event
events =
    invokes (10 ∷ []) (some 100)
    ∷ request_times_out
    ∷ receives (reply_message (reply_to 1 (20 ∷ [])))
    ∷ invokes (11 ∷ []) (some 101)
    ∷ receives (reply_message (reply_to 1 (20 ∷ [])))
    ∷ []

abbrev first_request : Request
first_request = record { op = 10 ∷ []; clientid = 5; clientreqid = 1 }

abbrev second_request : Request
second_request = record { op = 11 ∷ []; clientid = 5; clientreqid = 2 }

abbrev second_pending : PendingRequest
second_pending = record {
  request = 11 ∷ [];
  client_req_id = 2;
  continuation = some 101;
  timeout_continuation = none;
}

abbrev first_completion : Completion
first_completion = record {
  function = 100;
  request = 10 ∷ [];
  client_req_id = 1;
  reply = some (20 ∷ []);
}

abbrev after_events : VrClient
after_events = record {
  clientid = 5;
  last_req_id = 2;
  pending_request = some second_pending;
  pending_unlogged_request = none;
  request_timeout = true;
  unlogged_request_timeout = false;
  sent =
      send_to_all (request_message second_request)
      ∷ send_to_all (request_message first_request)
      ∷ send_to_all (request_message first_request)
      ∷ [];
  completed = first_completion ∷ [];
  completed_unlogged = [];
}

run-events : run events (new_client 5) ≡ ok after_events
unfolding client_path
run-events = refl

-- An unlogged request times out, and the next one takes the late reply to the first for its own.
late_unlogged_reply :
    (do
      s ←
          run
            (invokes_unlogged 0 (10 ∷ []) (some 100) (some 200)
              ∷ unlogged_request_times_out
              ∷ invokes_unlogged 0 (11 ∷ []) (some 101) (some 201)
              ∷ receives (unlogged_reply_message (20 ∷ []))
              ∷ [])
            (new_client 5)
      ok s.completed_unlogged)
    ≡ ok (
        record { function = 101; request = 11 ∷ []; client_req_id = 2; reply = some (20 ∷ []) }
        ∷ record { function = 200; request = 10 ∷ []; client_req_id = 1; reply = none }
        ∷ [])
unfolding client_path
late_unlogged_reply = refl

-- Without a function for it, the timeout of an unlogged request throws.
timeout_without_function :
    run
      (invokes_unlogged 0 (10 ∷ []) (some 100) none ∷ unlogged_request_times_out ∷ [])
      (new_client 5)
    ≡ err bad_function_call
unfolding client_path
timeout_without_function = refl

new_client-IsConsistent : IsConsistent (new_client 5)
unfolding new_client IsTracked
new_client-IsConsistent = record { logged = (refl, tt); unlogged = (refl, tt) }

run-IsConsistent_example : IsConsistent after_events
unfolding client_path
run-IsConsistent_example =
    run-IsConsistent events (new_client 5) after_events (omega arith) new_client-IsConsistent
      run-events

abbrev late : List Event
late = request_times_out ∷ receives (reply_message (reply_to 1 (20 ∷ []))) ∷ []

abbrev later : VrClient
later = record after_events {
  sent = send_to_all (request_message second_request) ∷ after_events.sent;
}

abbrev second_completion : Completion
second_completion = record {
  function = 101;
  request = 11 ∷ [];
  client_req_id = 2;
  reply = some (21 ∷ []);
}

run_retries_example :
    (perform request_times_out later
      ≡ ok (record later { sent = send_to_all (request_message second_request) ∷ later.sent }))
    × (perform (receives (reply_message (reply_to 2 (21 ∷ [])))) later
        ≡ ok (record later {
          request_timeout = false;
          pending_request = none;
          completed = second_completion ∷ later.completed;
        }))
unfolding client_path
run_retries_example =
    run_retries second_pending 101 (reply_to 2 (21 ∷ [])) late after_events later refl refl refl
      refl refl refl
