-- ===== src/Vr/Client.antt =====
-- vr/client.h, vr/client.cc and common/client.cc: the client of Viewstamped Replication.
use specpaxos.Base.{
  ℕ, Bool, true, false, Option, none, some, List, [], ◌∷◌, Result, ok, err, panicked,
  bad_function_call, ◌>>=◌, ◌>>◌, assert, deref, not, ◌==◌, if◌then◌else◌, add64,
}
use specpaxos.Log.{Bytes, Request}
use specpaxos.Vr.Messages.{
  Message, ReplyMessage, request_message, reply_message, unlogged_request_message,
  unlogged_reply_message,
}

-- A std::function that the caller passes, by a number; an empty one is `none`.
abbrev pub Continuation : Type 0
Continuation = Option ℕ

pub record PendingRequest : Type 0 where
  pub request : Bytes
  pub client_req_id : ℕ
  pub continuation : Continuation
  pub timeout_continuation : Continuation

-- To all replicas, or to one.
pub data Send : Type 0 where
  send_to_all : Message → Send
  send_to_replica : ℕ → Message → Send

-- The calls of the caller's functions: with the request and its number, and the reply if there is one.
pub record Completion : Type 0 where
  pub function : ℕ
  pub request : Bytes
  pub client_req_id : ℕ
  pub reply : Option Bytes

-- Whether a timeout is active is a Boolean. The newest of `sent`, of the completed requests and of the
-- completed unlogged requests stands first.
pub record VrClient : Type 0 where
  pub clientid : ℕ
  pub last_req_id : ℕ
  pub pending_request : Option PendingRequest
  pub pending_unlogged_request : Option PendingRequest
  pub request_timeout : Bool
  pub unlogged_request_timeout : Bool
  pub sent : List Send
  pub completed : List Completion
  pub completed_unlogged : List Completion

-- The constructor, for a client number that is not 0 or has been drawn.
unfoldable pub new_client : ℕ → VrClient
new_client clientid = record {
  clientid = clientid;
  last_req_id = 0;
  pending_request = none;
  pending_unlogged_request = none;
  request_timeout = false;
  unlogged_request_timeout = false;
  sent = [];
  completed = [];
  completed_unlogged = [];
}

-- A call of a std::function.
unfoldable pub call_function : Continuation → Result ℕ
call_function none = err bad_function_call
call_function (some f) = ok f

-- if (pending != NULL) Panic(...)
unfoldable pub refuse_second : Option PendingRequest → Result (Unit {0})
refuse_second none = ok tt
refuse_second (some p) = err panicked

-- The request that a message carries.
abbrev pub request_of : ℕ → PendingRequest → Request
request_of clientid p = record {
  op = p.request;
  clientid = clientid;
  clientreqid = p.client_req_id;
}

unfoldable pub send_request : VrClient → Result VrClient
send_request s = do
  p ← deref s.pending_request
  ok (record s {
    sent = send_to_all (request_message (request_of s.clientid p)) ∷ s.sent;
    request_timeout = true;
  })

unfoldable pub invoke : Bytes → Continuation → VrClient → Result VrClient
unfolding refuse_second send_request
invoke request continuation s = do
  refuse_second s.pending_request
  let req_id = add64 s.last_req_id 1
  let pending : PendingRequest = record {
    request = request;
    client_req_id = req_id;
    continuation = continuation;
    timeout_continuation = none;
  }
  send_request (record s { last_req_id = req_id; pending_request = some pending })

-- InvokeUnlogged. The length of the timeout is not used.
unfoldable pub invoke_unlogged :
    ℕ → Bytes → Continuation → Continuation → VrClient → Result VrClient
unfolding refuse_second
invoke_unlogged replica_idx request continuation timeout_continuation s = do
  refuse_second s.pending_unlogged_request
  let req_id = add64 s.last_req_id 1
  let pending : PendingRequest = record {
    request = request;
    client_req_id = req_id;
    continuation = continuation;
    timeout_continuation = timeout_continuation;
  }
  assert (not s.unlogged_request_timeout)
  ok (record s {
    last_req_id = req_id;
    pending_unlogged_request = some pending;
    unlogged_request_timeout = true;
    sent =
        send_to_replica replica_idx (unlogged_request_message (request_of s.clientid pending))
        ∷ s.sent;
  })

-- req->continuation(req->request, reply)
unfoldable pub complete : Continuation → Option Bytes → PendingRequest → Result Completion
unfolding call_function
complete continuation reply p = do
  f ← call_function continuation
  ok (record { function = f; request = p.request; client_req_id = p.client_req_id; reply = reply })

unfoldable pub handle_reply : ReplyMessage → VrClient → Result VrClient
unfolding complete
handle_reply msg s = elim s.pending_request [
  | none ↦ ok s
  | some p ↦ if not (msg.clientreqid == p.client_req_id) then ok s else (do
    c ← complete p.continuation (some msg.reply) p
    ok (record s { request_timeout = false; pending_request = none; completed = c ∷ s.completed }))
]

unfoldable pub handle_unlogged_reply : Bytes → VrClient → Result VrClient
unfolding complete
handle_unlogged_reply reply s = elim s.pending_unlogged_request [
  | none ↦ ok s
  | some p ↦ do
    c ← complete p.continuation (some reply) p
    ok (record s {
      unlogged_request_timeout = false;
      pending_unlogged_request = none;
      completed_unlogged = c ∷ s.completed_unlogged;
    })
]

-- The timeout of a request, which starts again before it calls ResendRequest.
unfoldable pub resend_request : VrClient → Result VrClient
unfolding send_request
resend_request s = send_request s

unfoldable pub unlogged_request_timeout_callback : VrClient → Result VrClient
unfolding complete
unlogged_request_timeout_callback s = do
  p ← deref s.pending_unlogged_request
  c ← complete p.timeout_continuation none p
  ok (record s {
    unlogged_request_timeout = false;
    pending_unlogged_request = none;
    completed_unlogged = c ∷ s.completed_unlogged;
  })

-- ReceiveMessage; the base class panics.
unfoldable pub receive_message : Message → VrClient → Result VrClient
unfolding handle_reply handle_unlogged_reply
receive_message (reply_message msg) s = handle_reply msg s
receive_message (unlogged_reply_message reply) s = handle_unlogged_reply reply s
receive_message _ s = err panicked
