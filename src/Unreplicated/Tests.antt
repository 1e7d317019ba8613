-- ===== src/Unreplicated/Tests.antt =====
-- Runs of the unreplicated protocol.
use specpaxos.Base.{ℕ, ◌≡◌, refl, true, none, List, [], ◌∷◌, ◌++◌, ok, err, undefined}
use specpaxos.Log.{Bytes}
use specpaxos.Replica.{AppReplica, normal}
use specpaxos.Unreplicated.{
  UnreplicatedReplica, UnreplicatedClient, Completion, new_client, handle_reply,
}
use specpaxos.Unreplicated.Calls.{call_all, call_all-run_app}

-- An application that appends each operation to what it has, and replies with all of it.
abbrev register : AppReplica
register = record {
  State = Bytes;
  leader_upcall = λ opnum op a. record { replicate = true; res = op; app = a };
  replica_upcall = λ opnum op a. (a ++ op, a ++ op);
  unlogged_upcall = λ op a. (a, a);
  rollback_upcall = λ current to reqs a. a;
  commit_upcall = λ op a. a;
}

abbrev replica : UnreplicatedReplica Bytes
replica = record { status = normal; app = []; sent = [] }

abbrev requests : List (Bytes × ℕ)
requests = (1 ∷ [], 100) ∷ (2 ∷ [], 101) ∷ []

abbrev completions : List Completion
completions =
    record { function = 101; request = 2 ∷ []; reply = 1 ∷ 2 ∷ [] }
    ∷ record { function = 100; request = 1 ∷ []; reply = 1 ∷ [] }
    ∷ []

call_all-run_app_example :
    (c' : UnreplicatedClient) × (r' : UnreplicatedReplica Bytes) × (call_all register 7 requests
        (new_client 3, replica)
      ≡ ok (c', r'))
    × (c'.pending_request ≡ none)
    × (c'.completed ≡ completions)
    × (r'.app ≡ 1 ∷ 2 ∷ [])
unfolding new_client
call_all-run_app_example = call_all-run_app register 7 requests (new_client 3) replica refl

-- A reply without a request, which the code warns of, makes it dereference a null pointer.
reply_without_request :
    handle_reply (record { view = 0; opnum = 0; reply = [] }) (new_client 3) ≡ err undefined
unfolding handle_reply new_client
reply_without_request = refl
