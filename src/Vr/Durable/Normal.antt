-- ===== src/Vr/Durable/Normal.antt =====
-- Committed operations under the handlers of the normal case of vr/replica.cc.
use specpaxos.Base.{ℕ, List, [], ◌∷◌, none, some, add64}
use specpaxos.Base.Code.{
  Ensures, returns, faults, Ensures-if, Ensures-assert, Ensures-bind, Ensures-ok, Ensures-if_null,
}
use specpaxos.Log.{Bytes, Request, prepared}
use specpaxos.Log.Stable.{append-Keeps}
use specpaxos.Vr.Messages.{PrepareMessage, PrepareOkMessage, CommitMessage}
use specpaxos.Vr.Durable.Actions.{
  update_client_table-From, request_state_transfer-From, close_batch-From, commit_up_to-From,
}
use specpaxos.Vr.State.{VrReplica, Environment, Address, send}
use specpaxos.Log.Progress.{Progress, Extends-Keeps}
use specpaxos.Vr.Durable.{From}
use specpaxos.Vr.Normal.{
  Freshness, stale, waiting, answered, fresh, answer_alone, replicate_request, accept_request,
  respond, handle_request, handle_unlogged_request, prepare_requests, acknowledge, postpone,
  prepare_batch, handle_prepare, announce_commit, commit_quorum, handle_prepare_ok, handle_commit,
}

module _ (env : Environment) where
  open env use {application, sha1}
  open application use {State}

  answer_alone-From :
      {p : Progress} (remote : Address) (req : Request) (res : Bytes) (s : VrReplica State)
      → From p s
      → From p (answer_alone env remote req res s)
  unfolding answer_alone send
  answer_alone-From remote req res s h = h

  replicate_request-From :
      {p : Progress} (req : Request) (s : VrReplica State)
      → From p s
      → Ensures (From p) (replicate_request env req s)
  unfolding replicate_request
  replicate_request-From req s h = Ensures-ok _ λ log' a.
      let h' = Extends-Keeps h (append-Keeps h.is_sound.has_committed sha1 _ req prepared a) in
      Ensures-bind (Ensures-if _ (λ _. close_batch-From _ h') (λ _. returns h')) λ s' k. returns k

  accept_request-From :
      {p : Progress} (remote : Address) (req : Request) (s : VrReplica State)
      → From p s
      → Ensures (From p) (accept_request env remote req s)
  unfolding accept_request
  accept_request-From remote req s h = Ensures-bind (update_client_table-From req s h) λ s' h'.
      Ensures-if _ (λ _. replicate_request-From _ _ h')
        (λ _. returns (answer_alone-From remote req _ _ h'))

  respond-From :
      {p : Progress} (remote : Address) (req : Request) (f : Freshness) (s : VrReplica State)
      → From p s
      → Ensures (From p) (respond env remote req f s)
  unfolding respond send
  respond-From remote req stale s h = returns h
  respond-From remote req waiting s h = returns h
  respond-From remote req (answered none) s h = faults
  respond-From remote req (answered (some reply)) s h = returns h
  respond-From remote req fresh s h = accept_request-From remote req s h

  pub handle_request-From :
      {p : Progress} (remote : Address) (req : Request) (s : VrReplica State)
      → From p s
      → Ensures (From p) (handle_request env remote req s)
  unfolding handle_request
  handle_request-From remote req s h =
      Ensures-if _ (λ _. returns h)
        λ _. Ensures-if _ (λ _. returns h) λ _. respond-From remote req _ _ h

  pub handle_unlogged_request-From :
      {p : Progress} (remote : Address) (req : Request) (s : VrReplica State)
      → From p s
      → Ensures (From p) (handle_unlogged_request env remote req s)
  unfolding handle_unlogged_request send
  handle_unlogged_request-From remote req s h = Ensures-if _ (λ _. returns h) λ _. returns h

  prepare_requests-From :
      {p : Progress} (view op : ℕ) (reqs : List Request) (s : VrReplica State)
      → From p s
      → Ensures (λ t. From p t.0) (prepare_requests env view op reqs s)
  unfolding prepare_requests
  prepare_requests-From view op [] s h = returns h
  prepare_requests-From view op (req ∷ reqs) s h =
      Ensures-if _ (λ _. prepare_requests-From view (add64 op 1) reqs s h)
        λ _. Ensures-ok _ λ log' a.
          let h' = Extends-Keeps h (append-Keeps h.is_sound.has_committed sha1 _ req prepared a) in
          Ensures-bind (update_client_table-From req _ h')
            λ s' k. prepare_requests-From view (add64 op 1) reqs s' k

  prepare_batch-From :
      {p : Progress} (msg : PrepareMessage) (s : VrReplica State)
      → From p s
      → Ensures (From p) (prepare_batch env msg s)
  unfolding prepare_batch acknowledge send
  prepare_batch-From msg s h =
      Ensures-bind (prepare_requests-From msg.view _ msg.request s h)
        λ t k. Ensures-assert _ λ _. returns k

  postpone-From :
      {p : Progress} (remote : Address) (msg : PrepareMessage) (s : VrReplica State)
      → From p s
      → From p (postpone env remote msg s)
  unfolding postpone
  postpone-From remote msg s h = request_state_transfer-From s h

  pub handle_prepare-From :
      {p : Progress} (remote : Address) (msg : PrepareMessage) (s : VrReplica State)
      → From p s
      → Ensures (From p) (handle_prepare env remote msg s)
  unfolding handle_prepare acknowledge send
  handle_prepare-From remote msg s h =
      Ensures-if _ (λ _. returns h)
        λ _.
          Ensures-if _ (λ _. returns h)
            λ _.
              Ensures-if _ (λ _. returns (postpone-From remote msg s h))
                λ _.
                  Ensures-if _ (λ _. faults)
                    λ _. Ensures-assert _ λ _. Ensures-assert _ λ _.
                      Ensures-if _ (λ _. returns h)
                        λ _.
                          Ensures-if _ (λ _. returns (postpone-From remote msg _ h))
                            (λ _. prepare_batch-From msg _ h)

  announce_commit-From :
      {p : Progress} (msg : PrepareOkMessage) (s : VrReplica State)
      → From p s
      → Ensures (From p) (announce_commit env msg s)
  unfolding announce_commit send
  announce_commit-From msg s h =
      Ensures-if _ (λ _. Ensures-if _ (λ _. close_batch-From _ h) (λ _. returns h)) (λ _. returns h)

  commit_quorum-From :
      {p : Progress} (answers : ℕ) (msg : PrepareOkMessage) (s : VrReplica State)
      → From p s
      → Ensures (From p) (commit_quorum env answers msg s)
  unfolding commit_quorum
  commit_quorum-From answers msg s h =
      Ensures-bind (commit_up_to-From env msg.opnum s h)
        λ s' k. Ensures-if _ (λ _. returns k) (λ _. announce_commit-From msg s' k)

  pub handle_prepare_ok-From :
      {p : Progress} (msg : PrepareOkMessage) (s : VrReplica State)
      → From p s
      → Ensures (From p) (handle_prepare_ok env msg s)
  unfolding handle_prepare_ok
  handle_prepare_ok-From msg s h =
      Ensures-if _ (λ _. returns h)
        λ _.
          Ensures-if _ (λ _. returns h)
            λ _.
              Ensures-if _ (λ _. returns (request_state_transfer-From s h))
                λ _.
                  Ensures-if _ (λ _. returns h)
                    λ _. Ensures-if_null _ (λ _. returns h) (λ ms _. commit_quorum-From _ msg _ h)

  pub handle_commit-From :
      {p : Progress} (msg : CommitMessage) (s : VrReplica State)
      → From p s
      → Ensures (From p) (handle_commit env msg s)
  unfolding handle_commit
  handle_commit-From msg s h =
      Ensures-if _ (λ _. returns h)
        λ _.
          Ensures-if _ (λ _. returns h)
            λ _.
              Ensures-if _ (λ _. returns (request_state_transfer-From s h))
                λ _.
                  Ensures-if _ (λ _. faults)
                    λ _.
                      Ensures-if _ (λ _. returns h)
                        λ _.
                          Ensures-if _ (λ _. returns (request_state_transfer-From _ h))
                            (λ _. commit_up_to-From env msg.opnum _ h)
