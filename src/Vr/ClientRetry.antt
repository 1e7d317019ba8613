-- ===== src/Vr/ClientRetry.antt =====
-- vr/client.cc: a request that is not answered is sent again.
use specpaxos.Base.{
  ℕ, ◌≡◌, Bool, true, false, none, some, List, [], ◌∷◌, ok, ◌==◌, if◌then◌else◌, arith, subst,
  >>=-eq-ok, ok-injective,
}
use specpaxos.Vr.Messages.{
  Message, ReplyMessage, reply_message, unlogged_reply_message, request_message,
}
use specpaxos.Vr.Client.{
  PendingRequest, VrClient, send_to_all, request_of, invoke, invoke_unlogged, handle_reply,
  handle_unlogged_reply, resend_request, send_request, refuse_second, complete, call_function,
  unlogged_request_timeout_callback, receive_message,
}
use specpaxos.Vr.ClientRuns.{
  Event, invokes, invokes_unlogged, receives, request_times_out, unlogged_request_times_out,
  perform, run,
}

-- Whether an event is a reply with a request's number.
unfoldable pub is_answer : ℕ → Event → Bool
is_answer n (receives (reply_message msg)) = msg.clientreqid == n
is_answer n _ = false

unfoldable pub has_answer : ℕ → List Event → Bool
unfolding is_answer
has_answer n [] = false
has_answer n (e ∷ es) = if is_answer n e then true else has_answer n es

-- The request is pending and its timeout active.
abbrev pub IsWaiting : PendingRequest → VrClient → Type 0
IsWaiting p s = (s.pending_request ≡ some p) × (s.request_timeout ≡ true)

receive_message-IsWaiting :
    (p : PendingRequest) (m : Message) (s s' : VrClient)
    → IsWaiting p s
    → is_answer p.client_req_id (receives m) ≡ false
    → receive_message m s ≡ ok s'
    → IsWaiting p s'
unfolding receive_message is_answer handle_reply handle_unlogged_reply
receive_message-IsWaiting p (reply_message msg) s s' (here, active) other e =
    let same : s ≡ s' = ground arith in subst (IsWaiting p) same (here, active)
receive_message-IsWaiting p (unlogged_reply_message reply) s s' (here, active) other e =
    (ground arith, ground arith)
receive_message-IsWaiting p _ s s' (here, active) other e = absurd (cc)

perform-IsWaiting :
    (p : PendingRequest) (o : Event) (s s' : VrClient)
    → IsWaiting p s
    → is_answer p.client_req_id o ≡ false
    → perform o s ≡ ok s'
    → IsWaiting p s'
unfolding perform invoke invoke_unlogged refuse_second resend_request send_request
    unlogged_request_timeout_callback
perform-IsWaiting p (invokes request f) s s' (here, active) other e = absurd (ground arith)
perform-IsWaiting p (invokes_unlogged idx request f g) s s' (here, active) other e =
    (ground arith, ground arith)
perform-IsWaiting p (receives m) s s' w other e = receive_message-IsWaiting p m s s' w other e
perform-IsWaiting p request_times_out s s' (here, active) other e = (ground arith, ground arith)
perform-IsWaiting p unlogged_request_times_out s s' (here, active) other e =
    (ground arith, ground arith)

run-IsWaiting :
    (p : PendingRequest) (es : List Event) (s s' : VrClient)
    → IsWaiting p s
    → has_answer p.client_req_id es ≡ false
    → run es s ≡ ok s'
    → IsWaiting p s'
unfolding run has_answer
run-IsWaiting p [] s s' w other e = subst (IsWaiting p) (ok-injective e) w
run-IsWaiting p (o ∷ es) s s' w other e =
    let (k, first, rest) = >>=-eq-ok (perform o s) _ e in
    run-IsWaiting p es k s' (perform-IsWaiting p o s k w (ground arith) first) (ground arith) rest

-- A client whose request is pending, with its timeout active, after any calls, messages and timeouts
-- that do not fail a check and have no reply with the request's number: the next timeout sends the
-- request to all replicas again, and the next reply with its number, whichever it is, completes it by
-- calling its continuation, with its own text.
pub run_retries :
    (p : PendingRequest) (f : ℕ) (msg : ReplyMessage) (es : List Event) (s s' : VrClient)
    → s.pending_request ≡ some p
    → s.request_timeout ≡ true
    → p.continuation ≡ some f
    → msg.clientreqid ≡ p.client_req_id
    → has_answer p.client_req_id es ≡ false
    → run es s ≡ ok s'
    → (perform request_times_out s'
        ≡ ok (record s' {
          sent = send_to_all (request_message (request_of s'.clientid p)) ∷ s'.sent;
        }))
      × (perform (receives (reply_message msg)) s'
          ≡ ok (record s' {
            request_timeout = false;
            pending_request = none;
            completed =
                record {
                  function = f;
                  request = p.request;
                  client_req_id = p.client_req_id;
                  reply = some msg.reply;
                }
                ∷ s'.completed;
          }))
unfolding perform resend_request send_request receive_message handle_reply complete call_function
run_retries p f msg es s s' here active named number other e =
    let (waits, ticks) = run-IsWaiting p es s s' (here, active) other e in
    (ground arith, ground arith)
