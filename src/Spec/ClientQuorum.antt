-- ===== src/Spec/ClientQuorum.antt =====
-- spec/client.cc: when the client takes a speculative reply for the result.
use specpaxos.Base.{
  ℕ, ◌+◌, ◌≤◌, ◌≡◌, refl, subst, Bool, true, false, not, ◌&&◌, none, some, [], ◌∷◌, ok, leb, leb→le,
  ◌==◌, arith,
}
use specpaxos.Base.Code.{
  if◌then◌else◌, Ensures, Ensures-elim, returns, Ensures-if, Ensures-assert, Ensures-if_null,
  Ensures-bind, Ensures-weaken, Ensures-all,
}
use specpaxos.Base.Map.{Map}
use specpaxos.Base.Dictionary.{bytes_eq}
use specpaxos.Configuration.{fast_quorum_size}
use specpaxos.QuorumSet.{nat_key, add_and_check_for_quorum, check_for_quorum, get_messages, add}
use specpaxos.Log.{SpeculativeReplyMessage}
use specpaxos.Vr.Client.{PendingRequest}
use specpaxos.Spec.Client.{
  SpecClient, count_matching, check_replies, complete_operation, add_reply, enter_view,
  handle_reply,
}

-- The same state of the log, the same request, view and opnum, and the same reply.
unfoldable pub agrees : SpeculativeReplyMessage → SpeculativeReplyMessage → Bool
agrees msg m =
    bytes_eq m.loghash msg.loghash
    && m.clientreqid == msg.clientreqid
    && m.view == msg.view
    && m.opnum == msg.opnum
    && bytes_eq m.reply msg.reply

-- How many of the replies agree with a message.
unfoldable pub agreeing : SpeculativeReplyMessage → Map SpeculativeReplyMessage → ℕ
unfolding agrees
agreeing msg [] = 0
agreeing msg ((idx, m) ∷ rest) = (if agrees msg m then 1 else 0) + agreeing msg rest

agreeing_more :
    (msg m : SpeculativeReplyMessage) (idx n k : ℕ) (ms : Map SpeculativeReplyMessage)
    → k ≤ n + agreeing msg ms
    → k ≤ n + agreeing msg ((idx, m) ∷ ms)
unfolding agreeing if◌then◌else◌
agreeing_more msg m idx n k ms h = ground arith

agreeing_one_more :
    (msg m : SpeculativeReplyMessage) (idx n k : ℕ) (ms : Map SpeculativeReplyMessage)
    → agrees msg m ≡ true
    → k ≤ n + 1 + agreeing msg ms
    → k ≤ n + agreeing msg ((idx, m) ∷ ms)
unfolding agreeing if◌then◌else◌
agreeing_one_more msg m idx n k ms same h = ground arith

all_agree :
    (msg m : SpeculativeReplyMessage)
    → bytes_eq m.loghash msg.loghash ≡ true
    → m.clientreqid == msg.clientreqid ≡ true
    → m.view == msg.view ≡ true
    → m.opnum == msg.opnum ≡ true
    → bytes_eq m.reply msg.reply ≡ true
    → agrees msg m ≡ true
unfolding agrees
all_agree msg m loghash request view opnum reply = rw (loghash, request, view, opnum, reply) refl

count_matching-Ensures :
    (msg : SpeculativeReplyMessage) (n : ℕ) (ms : Map SpeculativeReplyMessage)
    → Ensures (λ k. k ≤ n + agreeing msg ms) (count_matching msg n ms)
unfolding count_matching agreeing
count_matching-Ensures msg n [] = returns (omega arith)
count_matching-Ensures msg n ((idx, m) ∷ rest) =
    Ensures-if (bytes_eq m.loghash msg.loghash)
      (λ same. Ensures-assert (m.clientreqid == msg.clientreqid) λ request.
        Ensures-assert (m.view == msg.view) λ view. Ensures-assert (m.opnum == msg.opnum) λ opnum.
          Ensures-assert (bytes_eq m.reply msg.reply) λ reply.
            Ensures-weaken (count_matching-Ensures msg (n + 1) rest) (λ k le.
              agreeing_one_more msg m idx n k rest (all_agree msg m same request view opnum reply)
                le))
      (λ other.
        Ensures-weaken (count_matching-Ensures msg n rest)
          (λ k le. agreeing_more msg m idx n k rest le))

check_replies-Ensures :
    (msg : SpeculativeReplyMessage) (ms : Map SpeculativeReplyMessage) (p : PendingRequest)
    (s : SpecClient)
    → s.pending_request ≡ some p
    → Ensures
        (λ s'. s'.pending_request ≡ none → fast_quorum_size s.configuration ≤ agreeing msg ms)
        (check_replies msg ms s)
unfolding check_replies
check_replies-Ensures msg ms p s here = Ensures-bind (count_matching-Ensures msg 0 ms) λ k le.
    Ensures-if (leb (fast_quorum_size s.configuration) k)
      (λ enough.
        Ensures-all (complete_operation msg s)
          (λ s' e. let most = leb→le (fast_quorum_size s.configuration) k enough in omega arith))
      (λ few. returns (λ e. absurd (cc)))

-- The replies for a request that the client has, with the one that arrives.
abbrev pub replies_with : SpeculativeReplyMessage → SpecClient → Map SpeculativeReplyMessage
replies_with msg s =
    get_messages msg.clientreqid
      (add msg.clientreqid msg.replica_idx msg s.speculative_reply_quorum)

kept_replies :
    (msg : SpeculativeReplyMessage) (s : SpecClient) (ms : Map SpeculativeReplyMessage)
    → (add_and_check_for_quorum msg.clientreqid msg.replica_idx msg s.speculative_reply_quorum).1
      ≡ some ms
    → ms ≡ replies_with msg s
unfolding add_and_check_for_quorum check_for_quorum get_messages add
kept_replies msg s ms e = ground arith

add_reply-Ensures :
    (msg : SpeculativeReplyMessage) (p : PendingRequest) (s : SpecClient)
    → s.pending_request ≡ some p
    → Ensures
        (λ s'.
          s'.pending_request ≡ none
          → fast_quorum_size s.configuration ≤ agreeing msg (replies_with msg s))
        (add_reply msg s)
unfolding add_reply
add_reply-Ensures msg p s here =
    let quorum = s.speculative_reply_quorum in
    let added = add_and_check_for_quorum msg.clientreqid msg.replica_idx msg quorum in
    let s' : SpecClient = record s { speculative_reply_quorum = added.0 } in
    Ensures-if_null added.1 (λ few. returns (λ e. absurd (cc)))
      λ ms same. Ensures-weaken (check_replies-Ensures msg ms p s' here) λ k h e.
        subst (λ x. fast_quorum_size s.configuration ≤ agreeing msg x) (kept_replies msg s ms same)
          (h e)

enter_view-pending_request :
    (v : ℕ) (s : SpecClient)
    → ((enter_view v s).pending_request ≡ s.pending_request)
      × ((enter_view v s).configuration ≡ s.configuration)
unfolding enter_view if◌then◌else◌
enter_view-pending_request v s = (ground arith, ground arith)

handle_reply-Ensures :
    (msg : SpeculativeReplyMessage) (p : PendingRequest) (s : SpecClient)
    → s.pending_request ≡ some p
    → msg.committed ≡ false
    → Ensures
        (λ s'.
          s'.pending_request ≡ none
          → fast_quorum_size s.configuration
            ≤ agreeing msg (replies_with msg (enter_view msg.view s)))
        (handle_reply msg s)
unfolding handle_reply
handle_reply-Ensures msg p s here speculative =
    let kept = enter_view-pending_request msg.view s in
    Ensures-if_null s.pending_request (λ free. returns (λ e. absurd (cc)))
      λ p' same.
        Ensures-if (not (msg.clientreqid == p'.client_req_id)) (λ other. returns (λ e. absurd (cc)))
          λ answer.
            Ensures-if msg.committed (λ settled. absurd (cc))
              λ not_settled.
                Ensures-weaken
                  (add_reply-Ensures msg p (enter_view msg.view s) (ground (arith, kept.0)))
                  λ k h e.
                    subst
                      (λ c.
                        fast_quorum_size c
                        ≤ agreeing msg (replies_with msg (enter_view msg.view s)))
                      kept.1 (h e)

-- When a reply that is not committed makes the client complete its request, a fast quorum of the
-- replies for it that the client has kept in this view, this one among them, agree with it: in the
-- hash of the log, the number of the request, the view, the opnum and the result.
pub handle_reply_quorum :
    (msg : SpeculativeReplyMessage) (p : PendingRequest) (s s' : SpecClient)
    → s.pending_request ≡ some p
    → msg.committed ≡ false
    → handle_reply msg s ≡ ok s'
    → s'.pending_request ≡ none
    → fast_quorum_size s.configuration ≤ agreeing msg (replies_with msg (enter_view msg.view s))
handle_reply_quorum msg p s s' here speculative e done =
    Ensures-elim (handle_reply-Ensures msg p s here speculative) e done
