-- ===== src/Spec/Client.antt =====
-- spec/client.h and spec/client.cc: the client of Speculative Paxos. What it shares with the client of
-- Viewstamped Replication is taken from there.
use specpaxos.Base.{
  ℕ, ◌+◌, Bool, true, false, Option, none, some, List, [], ◌∷◌, Result, ok, err, panicked, ltb, leb,
  not, ◌==◌, add64,
}
use specpaxos.Base.Code.{◌>>=◌, ◌>>◌, assert, deref, if◌then◌else◌, if_null}
use specpaxos.Base.Map.{Map}
use specpaxos.Base.Dictionary.{Bytes, bytes_eq}
use specpaxos.Configuration.{Configuration, fast_quorum_size}
use specpaxos.QuorumSet.{QuorumSet, nat_key, new, clear, add_and_check_for_quorum}
use specpaxos.Log.{SpeculativeReplyMessage}
use specpaxos.Vr.Client.{
  Continuation, PendingRequest, Completion, refuse_second, request_of, complete,
}
use specpaxos.Spec.Messages.{
  Message, request_message, speculative_reply_message, unlogged_request_message,
  unlogged_reply_message, request_view_change_message,
}

pub data Send : Type 0 where
  send_to_all : Message → Send
  send_to_replica : ℕ → Message → Send

-- The newest of `sent`, of the completed requests and of the completed unlogged requests stands first.
pub record SpecClient : Type 0 where
  pub configuration : Configuration
  pub clientid : ℕ
  pub view : ℕ
  pub last_req_id : ℕ
  pub pending_request : Option PendingRequest
  pub pending_unlogged_request : Option PendingRequest
  pub request_timeout : Bool
  pub unlogged_request_timeout : Bool
  pub speculative_reply_quorum : QuorumSet ℕ SpeculativeReplyMessage
  pub sent : List Send
  pub completed : List Completion
  pub completed_unlogged : List Completion

unfoldable pub new_client : Configuration → ℕ → SpecClient
unfolding fast_quorum_size
new_client configuration clientid = record {
  configuration = configuration;
  clientid = clientid;
  view = 0;
  last_req_id = 0;
  pending_request = none;
  pending_unlogged_request = none;
  request_timeout = false;
  unlogged_request_timeout = false;
  speculative_reply_quorum = new (fast_quorum_size configuration);
  sent = [];
  completed = [];
  completed_unlogged = [];
}

unfoldable pub send_request : SpecClient → Result SpecClient
send_request s = do
  p ← deref s.pending_request
  ok (record s {
    sent = send_to_all (request_message (request_of s.clientid p)) ∷ s.sent;
    request_timeout = true;
  })

unfoldable pub invoke : Bytes → Continuation → SpecClient → Result SpecClient
unfolding refuse_second send_request
invoke request continuation s = do
  refuse_second s.pending_request
  let req_id = add64 s.last_req_id 1
  let pending : PendingRequest = record {
    request = request;
    client_req_id = req_id;
    continuation = continuation;
    timeout_continuation = none;
  }
  send_request (record s { last_req_id = req_id; pending_request = some pending })

-- InvokeUnlogged. The length of the timeout is not used.
unfoldable pub invoke_unlogged :
    ℕ → Bytes → Continuation → Continuation → SpecClient → Result SpecClient
unfolding refuse_second
invoke_unlogged replica_idx request continuation timeout_continuation s = do
  refuse_second s.pending_unlogged_request
  let req_id = add64 s.last_req_id 1
  let pending : PendingRequest = record {
    request = request;
    client_req_id = req_id;
    continuation = continuation;
    timeout_continuation = timeout_continuation;
  }
  assert (not s.unlogged_request_timeout)
  ok (record s {
    last_req_id = req_id;
    pending_unlogged_request = some pending;
    unlogged_request_timeout = true;
    sent =
        send_to_replica replica_idx (unlogged_request_message (request_of s.clientid pending))
        ∷ s.sent;
  })

-- The timeout of a request calls ResendRequest.
unfoldable pub resend_request : SpecClient → Result SpecClient
unfolding send_request
resend_request s = send_request s

unfoldable pub complete_operation : SpeculativeReplyMessage → SpecClient → Result SpecClient
unfolding complete
complete_operation msg s = do
  p ← deref s.pending_request
  c ← complete p.continuation (some msg.reply) p
  ok (record s {
    request_timeout = false;
    pending_request = none;
    speculative_reply_quorum = clear s.speculative_reply_quorum;
    completed = c ∷ s.completed;
  })

-- The loop that counts the replies with the message's hash.
unfoldable pub count_matching : SpeculativeReplyMessage → ℕ → Map SpeculativeReplyMessage → Result ℕ
count_matching msg matching [] = ok matching
count_matching msg matching ((idx, m) ∷ rest) =
    if bytes_eq m.loghash msg.loghash
    then (do
      assert (m.clientreqid == msg.clientreqid)
      assert (m.view == msg.view)
      assert (m.opnum == msg.opnum)
      assert (bytes_eq m.reply msg.reply)
      count_matching msg (matching + 1) rest)
    else count_matching msg matching rest

-- A quorum has answered: the replies match, or the replicas are asked for a view change.
unfoldable pub check_replies :
    SpeculativeReplyMessage → Map SpeculativeReplyMessage → SpecClient → Result SpecClient
unfolding count_matching complete_operation fast_quorum_size
check_replies msg msgs s = do
  matching ← count_matching msg 0 msgs
  if leb (fast_quorum_size s.configuration) matching
      then complete_operation msg s
      else ok (record s { sent = send_to_all (request_view_change_message msg.view) ∷ s.sent })

-- A newer view, which makes the earlier replies void.
unfoldable pub enter_view : ℕ → SpecClient → SpecClient
enter_view view s =
    if ltb s.view view
    then record s { speculative_reply_quorum = clear s.speculative_reply_quorum; view = view }
    else s

-- A speculative reply to the pending request.
unfoldable pub add_reply : SpeculativeReplyMessage → SpecClient → Result SpecClient
unfolding check_replies add_and_check_for_quorum
add_reply msg s =
    let quorum = s.speculative_reply_quorum in
    let (q, msgs) = add_and_check_for_quorum msg.clientreqid msg.replica_idx msg quorum in
    let s' : SpecClient = record s { speculative_reply_quorum = q } in
    if_null msgs (ok s') (λ msgs. check_replies msg msgs s')

unfoldable pub handle_reply : SpeculativeReplyMessage → SpecClient → Result SpecClient
unfolding enter_view complete_operation add_reply
handle_reply msg s = if_null s.pending_request (ok s) (λ p.
    if not (msg.clientreqid == p.client_req_id)
    then ok s
    else if msg.committed
    then complete_operation msg (enter_view msg.view s)
    else add_reply msg (enter_view msg.view s))

unfoldable pub handle_unlogged_reply : Bytes → SpecClient → Result SpecClient
unfolding complete
handle_unlogged_reply reply s = if_null s.pending_unlogged_request (ok s) (λ p. do
  c ← complete p.continuation (some reply) p
  ok (record s {
    unlogged_request_timeout = false;
    pending_unlogged_request = none;
    completed_unlogged = c ∷ s.completed_unlogged;
  }))

unfoldable pub unlogged_request_timeout_callback : SpecClient → Result SpecClient
unfolding complete
unlogged_request_timeout_callback s = do
  p ← deref s.pending_unlogged_request
  c ← complete p.timeout_continuation none p
  ok (record s {
    unlogged_request_timeout = false;
    pending_unlogged_request = none;
    completed_unlogged = c ∷ s.completed_unlogged;
  })

-- ReceiveMessage: a request is ignored, and the base class panics.
unfoldable pub receive_message : Message → SpecClient → Result SpecClient
unfolding handle_reply handle_unlogged_reply
receive_message (request_message req) s = ok s
receive_message (speculative_reply_message msg) s = handle_reply msg s
receive_message (unlogged_reply_message reply) s = handle_unlogged_reply reply s
receive_message _ s = err panicked
