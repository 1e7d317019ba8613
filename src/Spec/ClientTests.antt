-- ===== src/Spec/ClientTests.antt =====
-- Runs of the client of spec/client.cc.
use specpaxos.Base.{
  ℕ, ◌≡◌, ◌≤◌, refl, true, false, Option, none, some, List, [], ◌∷◌, Result, ok, add64,
}
use specpaxos.Base.Code.{◌>>=◌, assert, deref, if◌then◌else◌, if_null}
use specpaxos.Base.Map.{insert, lookup}
use specpaxos.Base.Dictionary.{Bytes, bytes_eq}
use specpaxos.Configuration.{Configuration, fast_quorum_size}
use specpaxos.QuorumSet.{
  nat_key, new, clear, add_and_check_for_quorum, check_for_quorum, at, put, get_messages, add,
}
use specpaxos.Log.{SpeculativeReplyMessage}
use specpaxos.Vr.Client.{PendingRequest, refuse_second, complete, call_function}
use specpaxos.Spec.Messages.{request_view_change_message}
use specpaxos.Spec.Client.{
  SpecClient, Send, send_to_all, new_client, send_request, invoke, complete_operation,
  count_matching, check_replies, enter_view, add_reply, handle_reply,
}
use specpaxos.Spec.ClientQuorum.{agrees, agreeing, replies_with, handle_reply_quorum}

unfoldable client_path : Unit {0}
unfolding ◌>>=◌ assert deref if◌then◌else◌ if_null insert lookup bytes_eq fast_quorum_size clear
    add_and_check_for_quorum check_for_quorum at put get_messages add refuse_second complete
    call_function new_client send_request invoke complete_operation count_matching check_replies
    enter_view add_reply handle_reply add64 agrees agreeing
client_path = tt

abbrev three : Configuration
three = record { n = 3; f = 1 }

-- A reply of a replica to request 1, with this hash of its log.
abbrev reply_of : ℕ → Bytes → SpeculativeReplyMessage
reply_of idx hash = record {
  clientreqid = 1;
  replica_idx = idx;
  view = 2;
  opnum = 4;
  loghash = hash;
  reply = 8 ∷ [];
  committed = false;
}

unfoldable after_two : Result SpecClient
unfolding client_path
after_two = do
  s1 ← invoke (10 ∷ []) (some 100) (new_client three 5)
  s2 ← handle_reply (reply_of 0 (1 ∷ [])) s1
  handle_reply (reply_of 1 (1 ∷ [])) s2

abbrev newest : List Send → Option Send
newest [] = none
newest (x ∷ xs) = some x

-- A third reply with another hash: the client asks for a view change, and goes on waiting.
third_differs :
    (do s ← after_two; s' ← handle_reply (reply_of 2 (3 ∷ [])) s; ok (newest s'.sent))
    ≡ ok (some (send_to_all (request_view_change_message 2)))
unfolding after_two client_path
third_differs = refl

abbrev pending : PendingRequest
pending = record {
  request = 10 ∷ [];
  client_req_id = 1;
  continuation = some 100;
  timeout_continuation = none;
}

abbrev waiting : SpecClient
waiting = record {
  configuration = three;
  clientid = 5;
  view = 2;
  last_req_id = 1;
  pending_request = some pending;
  pending_unlogged_request = none;
  request_timeout = true;
  unlogged_request_timeout = false;
  speculative_reply_quorum = record {
    num_required = 3;
    messages = (1, (0, reply_of 0 (1 ∷ [])) ∷ (1, reply_of 1 (1 ∷ [])) ∷ []) ∷ [];
  };
  sent = [];
  completed = [];
  completed_unlogged = [];
}

abbrev answered : SpecClient
answered = record waiting {
  pending_request = none;
  request_timeout = false;
  speculative_reply_quorum = new 3;
  completed =
      record { function = 100; request = 10 ∷ []; client_req_id = 1; reply = some (8 ∷ []) } ∷ [];
}

handle_reply_quorum_example :
    3 ≤ agreeing (reply_of 2 (1 ∷ [])) (replies_with (reply_of 2 (1 ∷ [])) waiting)
unfolding client_path
handle_reply_quorum_example =
    handle_reply_quorum (reply_of 2 (1 ∷ [])) pending waiting answered refl refl refl refl
