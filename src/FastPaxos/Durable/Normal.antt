-- ===== src/FastPaxos/Durable/Normal.antt =====
-- Committed operations under the handlers of the normal case of fastpaxos/replica.cc.
use specpaxos.Base.{ℕ, ap, ◌∙◌, Bool, true, false, List, [], ◌∷◌, ok}
use specpaxos.Base.Code.{
  Ensures, returns, faults, Ensures-if, Ensures-assert, Ensures-bind, Ensures-ok, Ensures-asserted,
  Ensures-if_null,
}
use specpaxos.Base.Map.{Map}
use specpaxos.QuorumSet.{QuorumSet}
use specpaxos.Viewstamp.{Viewstamp}
use specpaxos.Log.{Request, LogEntry, prepared}
use specpaxos.Log.Stable.{append-Keeps}
use specpaxos.Log.Progress.{Progress, Extends-Keeps, set_request-Keeps}
use specpaxos.Replica.{Address}
use specpaxos.FastPaxos.Messages.{ProposalMessage, PrepareOkMessage}
use specpaxos.FastPaxos.State.{FastPaxosReplica, Environment, send}
use specpaxos.FastPaxos.Durable.{
  From, is_prepared→uncommitted, update_client_table-From, send_ok-From,
  request_state_transfer-From, resend_prepare-From, commit_up_to-From,
}
use specpaxos.FastPaxos.Normal.{
  set_quorum, postpone, replace_request, commit_quorum, count_prepare_ok, match_prepare_ok,
  handle_prepare_ok, handle_prepare_oks, lead_request, follow_request, accept_request,
  handle_request, handle_unlogged_request, prepare_entry, handle_prepare, commit_fast,
  handle_commit,
}

module _ {A : Type 0} {p : Progress} where
  set_quorum-From :
      (slowpath : Bool) (q : QuorumSet Viewstamp PrepareOkMessage) (s : FastPaxosReplica A)
      → From p s
      → From p (set_quorum slowpath q s)
  unfolding set_quorum
  set_quorum-From true q s h = h
  set_quorum-From false q s h = h

  postpone-From :
      (remote : Address) (msg : ProposalMessage) (s : FastPaxosReplica A)
      → From p s
      → From p (postpone remote msg s)
  unfolding postpone
  postpone-From remote msg s h = request_state_transfer-From s h

  pub replace_request-From :
      (opnum : ℕ) (req : Request) (s : FastPaxosReplica A)
      → From p s
      → Ensures (From p) (replace_request opnum req s)
  unfolding replace_request
  replace_request-From opnum req s h = Ensures-ok _ λ found f. Ensures-asserted _ λ entry e.
      Ensures-assert _ λ state. Ensures-ok _ λ changed r. returns (
        Extends-Keeps h (
          set_request-Keeps opnum req entry h.is_sound.has_committed (f ∙ ap ok e)
            (is_prepared→uncommitted entry.state state) r))

module _ (env : Environment) where
  open env use {application, sha1}
  open application use {State}

  commit_quorum-From :
      {p : Progress} (msg : PrepareOkMessage) (entry : LogEntry) (ms : Map PrepareOkMessage)
      (s : FastPaxosReplica State)
      → From p s
      → Ensures (From p) (commit_quorum env msg entry ms s)
  unfolding commit_quorum send
  commit_quorum-From msg entry ms s h =
      Ensures-bind (commit_up_to-From env msg.opnum s h)
        λ s' k. Ensures-if _ (λ _. returns k) (λ _. returns k)

  count_prepare_ok-From :
      {p : Progress} (msg : PrepareOkMessage) (entry : LogEntry) (s : FastPaxosReplica State)
      → From p s
      → Ensures (From p) (count_prepare_ok env msg entry s)
  unfolding count_prepare_ok
  count_prepare_ok-From msg entry s h =
      let h' = set_quorum-From msg.slowpath _ s h in
      Ensures-if_null _ (λ _. returns h') λ ms _. commit_quorum-From msg entry ms _ h'

  match_prepare_ok-From :
      {p : Progress} (msg : PrepareOkMessage) (entry : LogEntry) (s : FastPaxosReplica State)
      → From p s
      → Ensures (From p) (match_prepare_ok env msg entry s)
  unfolding match_prepare_ok
  match_prepare_ok-From msg entry s h =
      Ensures-if _ (λ _. resend_prepare-From s h)
        λ _. Ensures-assert _ λ _. Ensures-assert _ λ _. count_prepare_ok-From msg entry s h

  pub handle_prepare_ok-From :
      {p : Progress} (remote : Address) (msg : PrepareOkMessage) (s : FastPaxosReplica State)
      → From p s
      → Ensures (From p) (handle_prepare_ok env remote msg s)
  unfolding handle_prepare_ok
  handle_prepare_ok-From remote msg s h =
      Ensures-if _ (λ _. returns h)
        λ _.
          Ensures-if _ (λ _. returns h)
            λ _.
              Ensures-if _ (λ _. returns (request_state_transfer-From s h))
                λ _.
                  Ensures-if _ (λ _. returns h)
                    λ _.
                      Ensures-if _ (λ _. returns h)
                        λ _.
                          Ensures-if _ (λ _. returns h)
                            λ _. Ensures-ok _ λ found _.
                              Ensures-asserted _
                                λ entry _. Ensures-assert _ λ _. match_prepare_ok-From msg entry s h

  handle_prepare_oks-From :
      {p : Progress} (msgs : List (Address × PrepareOkMessage)) (s : FastPaxosReplica State)
      → From p s
      → Ensures (From p) (handle_prepare_oks env msgs s)
  unfolding handle_prepare_oks
  handle_prepare_oks-From [] s h = returns h
  handle_prepare_oks-From ((remote, msg) ∷ msgs) s h =
      Ensures-bind (handle_prepare_ok-From remote msg s h)
        λ s' h'. handle_prepare_oks-From msgs s' h'

  lead_request-From :
      {p : Progress} (req : Request) (s : FastPaxosReplica State)
      → From p s
      → Ensures (From p) (lead_request env req s)
  unfolding lead_request
  lead_request-From req s h = Ensures-assert _ λ _. Ensures-ok _ λ log' a.
      handle_prepare_oks-From _ _
        (Extends-Keeps h (append-Keeps h.is_sound.has_committed sha1 _ req prepared a))

  follow_request-From :
      {p : Progress} (req : Request) (s : FastPaxosReplica State)
      → From p s
      → Ensures (From p) (follow_request env req s)
  unfolding follow_request
  follow_request-From req s h = Ensures-ok _ λ log' a. returns (
      send_ok-From _ _ req false _
        (Extends-Keeps h (append-Keeps h.is_sound.has_committed sha1 _ req prepared a)))

  accept_request-From :
      {p : Progress} (req : Request) (s : FastPaxosReplica State)
      → From p s
      → Ensures (From p) (accept_request env req s)
  unfolding accept_request
  accept_request-From req s h =
      let h' = update_client_table-From req s h in
      Ensures-if _ (λ _. lead_request-From req _ h') (λ _. follow_request-From req _ h')

  pub handle_request-From :
      {p : Progress} (remote : Address) (req : Request) (s : FastPaxosReplica State)
      → From p s
      → Ensures (From p) (handle_request env remote req s)
  unfolding handle_request send
  handle_request-From remote req s h =
      Ensures-if _ (λ _. returns h)
        λ _.
          Ensures-if_null _ (λ _. accept_request-From req _ h)
            λ entry _.
              Ensures-if _ (λ _. returns h)
                λ _.
                  Ensures-if _
                    (λ _.
                      Ensures-if _ (λ _. Ensures-if_null _ (λ _. faults) (λ reply _. returns h))
                        (λ _. returns h))
                    (λ _. accept_request-From req _ h)

  pub handle_unlogged_request-From :
      {p : Progress} (remote : Address) (req : Request) (s : FastPaxosReplica State)
      → From p s
      → Ensures (From p) (handle_unlogged_request env remote req s)
  unfolding handle_unlogged_request send
  handle_unlogged_request-From remote req s h = Ensures-if _ (λ _. returns h) λ _. returns h

  prepare_entry-From :
      {p : Progress} (msg : ProposalMessage) (s : FastPaxosReplica State)
      → From p s
      → Ensures (From p) (prepare_entry env msg s)
  unfolding prepare_entry
  prepare_entry-From msg s h =
      Ensures-if _
        (λ _. Ensures-assert _ λ _. Ensures-ok _ λ log' a.
          returns
            (Extends-Keeps h (append-Keeps h.is_sound.has_committed sha1 _ msg.req prepared a)))
        (λ _.
          Ensures-assert _
            λ _. Ensures-bind (replace_request-From msg.opnum msg.req s h) λ s' h'. returns h')

  pub handle_prepare-From :
      {p : Progress} (remote : Address) (msg : ProposalMessage) (s : FastPaxosReplica State)
      → From p s
      → Ensures (From p) (handle_prepare env remote msg s)
  unfolding handle_prepare
  handle_prepare-From remote msg s h =
      Ensures-if _ (λ _. returns h)
        λ _.
          Ensures-if _ (λ _. returns h)
            λ _.
              Ensures-if _ (λ _. returns (postpone-From remote msg s h))
                λ _.
                  Ensures-if _ (λ _. faults)
                    λ _.
                      Ensures-if _ (λ _. returns (send_ok-From _ _ msg.req true s h))
                        λ _.
                          Ensures-if _ (λ _. returns (postpone-From remote msg s h))
                            λ _. Ensures-bind (prepare_entry-From msg s h) λ s' h'. returns (
                              send_ok-From _ _ msg.req true _
                                (update_client_table-From msg.req s' h'))

  commit_fast-From :
      {p : Progress} (msg : ProposalMessage) (s : FastPaxosReplica State)
      → From p s
      → Ensures (From p) (commit_fast env msg s)
  unfolding commit_fast
  commit_fast-From msg s h =
      Ensures-if _
        (λ _.
          Ensures-if _ (λ _. returns h)
            λ _.
              Ensures-bind (replace_request-From msg.opnum msg.req s h)
                λ s' h'. commit_up_to-From env msg.opnum s' h')
        (λ _. commit_up_to-From env msg.opnum s h)

  pub handle_commit-From :
      {p : Progress} (msg : ProposalMessage) (s : FastPaxosReplica State)
      → From p s
      → Ensures (From p) (handle_commit env msg s)
  unfolding handle_commit
  handle_commit-From msg s h =
      Ensures-if _ (λ _. returns h)
        λ _.
          Ensures-if _ (λ _. returns h)
            λ _.
              Ensures-if _ (λ _. returns (request_state_transfer-From s h))
                λ _.
                  Ensures-if _ (λ _. faults)
                    λ _.
                      Ensures-if _ (λ _. returns h)
                        λ _.
                          Ensures-if _ (λ _. returns (request_state_transfer-From s h))
                            (λ _. commit_fast-From msg s h)
