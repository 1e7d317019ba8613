-- ===== src/Vr/ClientRuns.antt =====
-- vr/client.cc: the client over any sequence of calls, messages and timeouts. A continuation that
-- invokes the next request does so when the client has forgotten the one before, so that call is the
-- next event.
use specpaxos.Base.{
  ℕ, ◌+◌, ◌≡◌, ◌≤◌, ◌<◌, refl, Bool, true, false, Option, none, some, List, [], ◌∷◌, Result, ok,
  ◌>>=◌, ◌==◌, if◌then◌else◌, length, add64-eq-add, u64_mod, arith, subst, >>=-eq-ok, ok-injective,
  inl, inr, Option-cases, Bool-cases, deref, deref-eq-ok,
}
use specpaxos.Log.{Bytes}
use specpaxos.Vr.Messages.{
  Message, ReplyMessage, reply_message, unlogged_reply_message, request_message,
  unlogged_request_message,
}
use specpaxos.Vr.Client.{
  Continuation, PendingRequest, Completion, VrClient, send_to_all, send_to_replica, request_of,
  invoke, invoke_unlogged, handle_reply, handle_unlogged_reply, resend_request, send_request,
  refuse_second, complete, unlogged_request_timeout_callback, receive_message,
}

pub data Event : Type 0 where
  invokes : Bytes → Continuation → Event
  invokes_unlogged : ℕ → Bytes → Continuation → Continuation → Event
  receives : Message → Event
  request_times_out unlogged_request_times_out : Event

-- A timeout calls back only while it is active.
unfoldable pub perform : Event → VrClient → Result VrClient
unfolding invoke invoke_unlogged receive_message resend_request unlogged_request_timeout_callback
perform (invokes request continuation) s = invoke request continuation s
perform (invokes_unlogged idx request continuation timeout_continuation) s =
    invoke_unlogged idx request continuation timeout_continuation s
perform (receives message) s = receive_message message s
perform request_times_out s = if s.request_timeout then resend_request s else ok s
perform unlogged_request_times_out s =
    if s.unlogged_request_timeout then unlogged_request_timeout_callback s else ok s

unfoldable pub run : List Event → VrClient → Result VrClient
unfolding perform
run [] s = ok s
run (e ∷ es) s = do s' ← perform e s; run es s'

-- The numbers of the completed requests fall strictly from the newest on, and all lie below a bound.
abbrev pub Falls : ℕ → List Completion → Type 0
Falls n [] = Unit
Falls n (c ∷ cs) = (c.client_req_id < n) × Falls c.client_req_id cs

-- The timeout is active exactly while a request is pending, whose number has been given out and is
-- greater than that of every completed one.
unfoldable pub IsTracked : ℕ → Option PendingRequest → Bool → List Completion → Type 0
IsTracked last none active done = (active ≡ false) × Falls (last + 1) done
IsTracked last (some p) active done =
    (active ≡ true) × (p.client_req_id ≤ last) × Falls p.client_req_id done

pub record IsConsistent (s : VrClient) : Type 0 where
  pub logged : IsTracked s.last_req_id s.pending_request s.request_timeout s.completed
  pub unlogged :
      IsTracked s.last_req_id s.pending_unlogged_request s.unlogged_request_timeout
        s.completed_unlogged

Falls-weaken : (m n : ℕ) (cs : List Completion) → m ≤ n → Falls m cs → Falls n cs
Falls-weaken m n [] h f = tt
Falls-weaken m n (c ∷ cs) h f = (omega arith, f.1)

IsTracked-next :
    (n : ℕ) (o : Option PendingRequest) (b : Bool) (cs : List Completion)
    → IsTracked n o b cs
    → IsTracked (n + 1) o b cs
unfolding IsTracked
IsTracked-next n none b cs t = (t.0, Falls-weaken (n + 1) (n + 1 + 1) cs (omega arith) t.1)
IsTracked-next n (some p) b cs t = (t.0, omega arith, t.2)

IsTracked-start :
    (n : ℕ) (p : PendingRequest) (b : Bool) (cs : List Completion)
    → p.client_req_id ≡ n + 1
    → IsTracked n none b cs
    → IsTracked (n + 1) (some p) true cs
unfolding IsTracked
IsTracked-start n p b cs e t =
    (refl, omega arith, Falls-weaken (n + 1) p.client_req_id cs (omega arith) t.1)

IsTracked-finish :
    (n : ℕ) (p : PendingRequest) (b : Bool) (c : Completion) (cs : List Completion)
    → c.client_req_id ≡ p.client_req_id
    → IsTracked n (some p) b cs
    → IsTracked n none false (c ∷ cs)
unfolding IsTracked
IsTracked-finish n p b c cs e t =
    (refl, (omega arith, Falls-weaken p.client_req_id c.client_req_id cs (omega arith) t.2))

-- The two halves of the state, each with its pending request.
module _ (s : VrClient) (h : IsConsistent s) where
  logged_at :
      (o : Option PendingRequest)
      → s.pending_request ≡ o
      → IsTracked s.last_req_id o s.request_timeout s.completed
  logged_at o e = subst (λ x. IsTracked s.last_req_id x s.request_timeout s.completed) e h.logged

  unlogged_at :
      (o : Option PendingRequest)
      → s.pending_unlogged_request ≡ o
      → IsTracked s.last_req_id o s.unlogged_request_timeout s.completed_unlogged
  unlogged_at o e =
      subst (λ x. IsTracked s.last_req_id x s.unlogged_request_timeout s.completed_unlogged) e
        h.unlogged

-- After one event.
abbrev Follows : VrClient → VrClient → Type 0
Follows s s' = IsConsistent s' × (s'.last_req_id ≤ s.last_req_id + 1)

invoke-IsConsistent :
    (request : Bytes) (continuation : Continuation) (s s' : VrClient)
    → s.last_req_id + 1 < u64_mod
    → IsConsistent s
    → invoke request continuation s ≡ ok s'
    → Follows s s'
unfolding invoke refuse_second send_request
invoke-IsConsistent request continuation s s' small h e = elim (Option-cases s.pending_request) [
  | inr (p, here) ↦ absurd (ground arith)
  | inl free ↦
      let p : PendingRequest = record {
        request = request;
        client_req_id = s.last_req_id + 1;
        continuation = continuation;
        timeout_continuation = none;
      } in
      let same : (record s {
        last_req_id = s.last_req_id + 1;
        pending_request = some p;
        request_timeout = true;
        sent = send_to_all (request_message (request_of s.clientid p)) ∷ s.sent;
      })
          ≡ s' =
        ground (arith, add64-eq-add s.last_req_id 1 small) in
      (
        subst IsConsistent same (record {
          logged =
              IsTracked-start s.last_req_id p s.request_timeout s.completed refl
                (logged_at s h none free);
          unlogged = IsTracked-next s.last_req_id _ _ s.completed_unlogged h.unlogged;
        }),
        ground arith,
      )
]

invoke_unlogged-IsConsistent :
    (idx : ℕ) (request : Bytes) (continuation timeout_continuation : Continuation) (s s' : VrClient)
    → s.last_req_id + 1 < u64_mod
    → IsConsistent s
    → invoke_unlogged idx request continuation timeout_continuation s ≡ ok s'
    → Follows s s'
unfolding invoke_unlogged refuse_second
invoke_unlogged-IsConsistent idx request continuation timeout_continuation s s' small h e =
    elim (Option-cases s.pending_unlogged_request) [
      | inr (p, here) ↦ absurd (ground arith)
      | inl free ↦
          let p : PendingRequest = record {
            request = request;
            client_req_id = s.last_req_id + 1;
            continuation = continuation;
            timeout_continuation = timeout_continuation;
          } in
          let message = unlogged_request_message (request_of s.clientid p) in
          let same : (record s {
            last_req_id = s.last_req_id + 1;
            pending_unlogged_request = some p;
            unlogged_request_timeout = true;
            sent = send_to_replica idx message ∷ s.sent;
          })
              ≡ s' =
            ground (arith, add64-eq-add s.last_req_id 1 small) in
          (
            subst IsConsistent same (record {
              logged = IsTracked-next s.last_req_id _ _ s.completed h.logged;
              unlogged =
                  IsTracked-start s.last_req_id p s.unlogged_request_timeout s.completed_unlogged
                    refl (unlogged_at s h none free);
            }),
            ground arith,
          )
    ]

complete_number :
    (f : Continuation) (reply : Option Bytes) (p : PendingRequest) (c : Completion)
    → complete f reply p ≡ ok c
    → c.client_req_id ≡ p.client_req_id
unfolding complete
complete_number f reply p c e = ground arith

handle_reply-IsConsistent :
    (msg : ReplyMessage) (s s' : VrClient)
    → IsConsistent s
    → handle_reply msg s ≡ ok s'
    → Follows s s'
unfolding handle_reply
handle_reply-IsConsistent msg s s' h e = elim (Option-cases s.pending_request) [
  | inl free ↦ let same : s ≡ s' = ground arith in (subst IsConsistent same h, ground arith)
  | inr (p, here) ↦ elim (Bool-cases (msg.clientreqid == p.client_req_id)) [
    | inr other ↦ let same : s ≡ s' = ground arith in (subst IsConsistent same h, ground arith)
    | inl matching ↦
        let (c, done, rest) =
          >>=-eq-ok (complete p.continuation (some msg.reply) p) _
            (rw (here, matching, handle_reply) at e) in
        let number = complete_number p.continuation (some msg.reply) p c done in
        (
          subst IsConsistent (ok-injective rest) (record {
            logged =
                IsTracked-finish s.last_req_id p s.request_timeout c s.completed number
                  (logged_at s h (some p) here);
            unlogged = h.unlogged;
          }),
          ground arith,
        )
  ]
]

handle_unlogged_reply-IsConsistent :
    (reply : Bytes) (s s' : VrClient)
    → IsConsistent s
    → handle_unlogged_reply reply s ≡ ok s'
    → Follows s s'
unfolding handle_unlogged_reply
handle_unlogged_reply-IsConsistent reply s s' h e = elim (Option-cases s.pending_unlogged_request) [
  | inl free ↦ let same : s ≡ s' = ground arith in (subst IsConsistent same h, ground arith)
  | inr (p, here) ↦
      let (c, done, rest) =
        >>=-eq-ok (complete p.continuation (some reply) p) _
          (rw (here, handle_unlogged_reply) at e) in
      let number = complete_number p.continuation (some reply) p c done in
      (
        subst IsConsistent (ok-injective rest) (record {
          logged = h.logged;
          unlogged =
              IsTracked-finish s.last_req_id p s.unlogged_request_timeout c s.completed_unlogged
                number (unlogged_at s h (some p) here);
        }),
        ground arith,
      )
]

unlogged_request_timeout_callback-IsConsistent :
    (s s' : VrClient) → IsConsistent s → unlogged_request_timeout_callback s ≡ ok s' → Follows s s'
unfolding unlogged_request_timeout_callback
unlogged_request_timeout_callback-IsConsistent s s' h e =
    let (p, here, after) = >>=-eq-ok (deref s.pending_unlogged_request) _ e in
    let (c, done, rest) = >>=-eq-ok (complete p.timeout_continuation none p) _ after in
    let number = complete_number p.timeout_continuation none p c done in
    (
      subst IsConsistent (ok-injective rest) (record {
        logged = h.logged;
        unlogged =
            IsTracked-finish s.last_req_id p s.unlogged_request_timeout c s.completed_unlogged
              number (unlogged_at s h (some p) (deref-eq-ok s.pending_unlogged_request p here));
      }),
      ground arith,
    )

resend_request-IsConsistent :
    (s s' : VrClient)
    → s.request_timeout ≡ true
    → IsConsistent s
    → resend_request s ≡ ok s'
    → Follows s s'
unfolding resend_request send_request
resend_request-IsConsistent s s' active h e =
    let (p, here, rest) = >>=-eq-ok (deref s.pending_request) _ e in
    let tracked =
      subst (λ b. IsTracked s.last_req_id s.pending_request b s.completed) active h.logged in
    (
      subst IsConsistent (ok-injective rest) (record { logged = tracked; unlogged = h.unlogged }),
      ground arith,
    )

receive_message-IsConsistent :
    (m : Message) (s s' : VrClient) → IsConsistent s → receive_message m s ≡ ok s' → Follows s s'
unfolding receive_message
receive_message-IsConsistent (reply_message msg) s s' h e = handle_reply-IsConsistent msg s s' h e
receive_message-IsConsistent (unlogged_reply_message reply) s s' h e =
    handle_unlogged_reply-IsConsistent reply s s' h e
receive_message-IsConsistent _ s s' h e = absurd (cc)

perform-IsConsistent :
    (o : Event) (s s' : VrClient)
    → s.last_req_id + 1 < u64_mod
    → IsConsistent s
    → perform o s ≡ ok s'
    → Follows s s'
unfolding perform
perform-IsConsistent (invokes request f) s s' small h e =
    invoke-IsConsistent request f s s' small h e
perform-IsConsistent (invokes_unlogged idx request f g) s s' small h e =
    invoke_unlogged-IsConsistent idx request f g s s' small h e
perform-IsConsistent (receives m) s s' small h e = receive_message-IsConsistent m s s' h e
perform-IsConsistent request_times_out s s' small h e = elim (Bool-cases s.request_timeout) [
  | inl active ↦ resend_request-IsConsistent s s' active h (ground arith)
  | inr idle ↦ let same : s ≡ s' = ground arith in (subst IsConsistent same h, ground arith)
]
perform-IsConsistent unlogged_request_times_out s s' small h e =
    elim (Bool-cases s.unlogged_request_timeout) [
      | inl active ↦ unlogged_request_timeout_callback-IsConsistent s s' h (ground arith)
      | inr idle ↦ let same : s ≡ s' = ground arith in (subst IsConsistent same h, ground arith)
    ]

-- Over any calls, messages and timeouts that do not fail a check, and while fewer than 2 ^ 64 requests
-- have been numbered: if it held before, each timeout is active exactly while a request of its kind is
-- pending, and the requests of each kind have been completed at most once each, in the order in which
-- they were numbered, the pending one not yet.
pub run-IsConsistent :
    (es : List Event) (s s' : VrClient)
    → s.last_req_id + length es < u64_mod
    → IsConsistent s
    → run es s ≡ ok s'
    → IsConsistent s'
unfolding run
run-IsConsistent [] s s' small h e = subst IsConsistent (ok-injective e) h
run-IsConsistent (o ∷ es) s s' small h e =
    let (k, first, rest) = >>=-eq-ok (perform o s) _ e in
    let (good, close) = perform-IsConsistent o s k (omega arith) h first in
    run-IsConsistent es k s' (omega arith) good rest
