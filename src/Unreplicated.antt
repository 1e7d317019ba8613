-- ===== src/Unreplicated.antt =====
-- unreplicated/: one replica that executes each request as it comes, and its client.
use specpaxos.Base.{
  Bool, true, false, Option, none, some, List, [], ◌∷◌, Result, ok, err, panicked, ◌>>=◌, ◌>>◌,
  deref, not, ◌==◌, if◌then◌else◌, ℕ,
}
use specpaxos.Log.{Bytes, Request}
use specpaxos.Replica.{AppReplica, Address, ReplicaStatus, normal, execute, execute_unlogged}
use specpaxos.Vr.Client.{Continuation, call_function}
pub mod Calls
mod Tests

-- unreplicated/unreplicated-proto.proto
pub record ReplyMessage : Type 0 where
  pub view : ℕ
  pub opnum : ℕ
  pub reply : Bytes

pub data Message : Type 0 where
  request_message unlogged_request_message : Request → Message
  reply_message : ReplyMessage → Message
  unlogged_reply_message : Bytes → Message

-- The newest message that was sent stands first, with the address that it goes to.
pub record UnreplicatedReplica (State : Type 0) : Type 0 where
  pub status : ReplicaStatus
  pub app : State
  pub sent : List (Address × Message)

module _ (application : AppReplica) where
  open application use {State}

  -- The constructor.
  unfoldable pub new_replica : Bool → State → Result (UnreplicatedReplica State)
  new_replica true a = ok (record { status = normal; app = a; sent = [] })
  new_replica false a = err panicked

  unfoldable pub handle_request :
      Address → Request → UnreplicatedReplica State → UnreplicatedReplica State
  unfolding execute
  handle_request remote req s =
      let (reply, a) = execute application 0 req s.app in
      let message = reply_message (record { view = 0; opnum = 0; reply = reply }) in
      record s { app = a; sent = (remote, message) ∷ s.sent }

  unfoldable pub handle_unlogged_request :
      Address → Request → UnreplicatedReplica State → UnreplicatedReplica State
  unfolding execute_unlogged
  handle_unlogged_request remote req s =
      let (reply, a) = execute_unlogged application req s.app in
      record s { app = a; sent = (remote, unlogged_reply_message reply) ∷ s.sent }

  -- ReceiveMessage of the replica.
  unfoldable pub receive_message :
      Address → Message → UnreplicatedReplica State → Result (UnreplicatedReplica State)
  unfolding handle_request handle_unlogged_request
  receive_message remote (request_message req) s = ok (handle_request remote req s)
  receive_message remote (unlogged_request_message req) s =
      ok (handle_unlogged_request remote req s)
  receive_message remote _ s = err panicked

pub record PendingRequest : Type 0 where
  pub request : Bytes
  pub continuation : Continuation

-- A call of a caller's function, with the request and the reply.
pub record Completion : Type 0 where
  pub function : ℕ
  pub request : Bytes
  pub reply : Bytes

-- The client sends to replica 0 only; the newest of `sent` and of `completed` stands first.
pub record UnreplicatedClient : Type 0 where
  pub clientid : ℕ
  pub pending_request : Option PendingRequest
  pub pending_unlogged_request : Option PendingRequest
  pub sent : List Message
  pub completed : List Completion

unfoldable pub new_client : ℕ → UnreplicatedClient
new_client clientid = record {
  clientid = clientid;
  pending_request = none;
  pending_unlogged_request = none;
  sent = [];
  completed = [];
}

abbrev pub request_of : ℕ → Bytes → Request
request_of clientid op = record { op = op; clientid = clientid; clientreqid = 0 }

unfoldable pub invoke : Bytes → Continuation → UnreplicatedClient → Result UnreplicatedClient
invoke request continuation s = elim s.pending_request [
  | some p ↦ err panicked
  | none ↦ ok (record s {
    pending_request = some (record { request = request; continuation = continuation });
    sent = request_message (request_of s.clientid request) ∷ s.sent;
  })
]

-- InvokeUnlogged, which keeps neither the timeout nor its function.
unfoldable pub invoke_unlogged :
    ℕ → Bytes → Continuation → UnreplicatedClient → Result UnreplicatedClient
invoke_unlogged replica_idx request continuation s = elim s.pending_unlogged_request [
  | some p ↦ err panicked
  | none ↦
      if not (replica_idx == 0)
      then err panicked
      else ok (record s {
        pending_unlogged_request = some (record { request = request; continuation = continuation });
        sent = unlogged_request_message (request_of s.clientid request) ∷ s.sent;
      })
]

-- req->continuation(req->request, reply)
unfoldable pub complete : Bytes → PendingRequest → Result Completion
unfolding call_function
complete reply p = do
  f ← call_function p.continuation
  ok (record { function = f; request = p.request; reply = reply })

-- Without a pending request the code warns, and goes on to dereference the null pointer.
unfoldable pub handle_reply : ReplyMessage → UnreplicatedClient → Result UnreplicatedClient
unfolding complete
handle_reply msg s = do
  p ← deref s.pending_request
  c ← complete msg.reply p
  ok (record s { pending_request = none; completed = c ∷ s.completed })

unfoldable pub handle_unlogged_reply : Bytes → UnreplicatedClient → Result UnreplicatedClient
unfolding complete
handle_unlogged_reply reply s = do
  p ← deref s.pending_unlogged_request
  c ← complete reply p
  ok (record s { pending_unlogged_request = none; completed = c ∷ s.completed })

-- ReceiveMessage of the client.
unfoldable pub client_receive : Message → UnreplicatedClient → Result UnreplicatedClient
unfolding handle_reply handle_unlogged_reply
client_receive (reply_message msg) s = handle_reply msg s
client_receive (unlogged_reply_message reply) s = handle_unlogged_reply reply s
client_receive _ s = err panicked
