-- ===== src/Spec/Durable/ViewChange.antt =====
-- Committed operations under the view change of spec/replica.cc.
use specpaxos.Base.{ℕ, [], ◌∷◌, arith}
use specpaxos.Base.Map.{Map}
use specpaxos.Base.Code.{
  if◌then◌else◌, Ensures, returns, faults, Ensures-if, Ensures-assert, Ensures-bind, Ensures-ok,
  Ensures-asserted, Ensures-if_null,
}
use specpaxos.Replica.{Address}
use specpaxos.Spec.Messages.{
  StartViewChangeMessage, DoViewChangeMessage, StartViewMessage, InViewMessage, GapMessage,
}
use specpaxos.Spec.State.{SpecReplica, Environment, send}
use specpaxos.Spec.Durable.{Progress, From}
use specpaxos.Spec.Durable.Actions.{From-eq, send_sync-From, commit_up_to-From}
use specpaxos.Spec.Durable.Requests.{enter_view-From}
use specpaxos.Spec.Durable.Install.{install_log-From}
use specpaxos.Spec.Actions.{start_view_change}
use specpaxos.Spec.ViewChange.{
  handle_request_view_change, join_view_change, send_do_view_change, answer_view_change,
  handle_start_view_change, send_fill_dvc_gap, request_longer_logs, need_fill_dvc_gap,
  handle_fill_log_gap, handle_fill_dvc_gap,
}
use specpaxos.Spec.NewView.{
  lead_view, complete_view_change, handle_longer_log, compare_logs, handle_do_view_change,
  follow_view, request_longer_log, handle_start_view, commit_in_view, handle_in_view,
}

module _ {A : Type 0} {p : Progress} where
  pub handle_request_view_change-From :
      (view : ℕ) (s : SpecReplica A) → From p s → From p (handle_request_view_change view s)
  unfolding handle_request_view_change start_view_change send if◌then◌else◌
  handle_request_view_change-From view s h =
      From-eq s (handle_request_view_change view s) (ground arith) h

  join_view_change-From :
      (view : ℕ) (s : SpecReplica A) → From p s → From p (join_view_change view s)
  unfolding join_view_change start_view_change send if◌then◌else◌
  join_view_change-From view s h = From-eq s (join_view_change view s) (ground arith) h

  send_do_view_change-From :
      (view : ℕ) (msgs : Map StartViewChangeMessage) (s : SpecReplica A)
      → From p s
      → Ensures (From p) (send_do_view_change view msgs s)
  unfolding send_do_view_change send
  send_do_view_change-From view msgs s h = Ensures-ok _ λ _ _.
      Ensures-ok _ λ entries _. Ensures-assert _ λ _. Ensures-if _ (λ _. returns h) (λ _. returns h)

  answer_view_change-From :
      (view : ℕ) (msgs : Map StartViewChangeMessage) (s : SpecReplica A)
      → From p s
      → Ensures (From p) (answer_view_change view msgs s)
  unfolding answer_view_change
  answer_view_change-From view msgs s h =
      Ensures-if _ (λ _. returns h)
        λ _. Ensures-if _ (λ _. returns h) λ _. send_do_view_change-From view msgs _ h

  pub handle_start_view_change-From :
      (msg : StartViewChangeMessage) (s : SpecReplica A)
      → From p s
      → Ensures (From p) (handle_start_view_change msg s)
  unfolding handle_start_view_change
  handle_start_view_change-From msg s h =
      Ensures-if _ (λ _. returns h)
        λ _.
          let h' = join_view_change-From msg.view s h in
          Ensures-assert _ λ _.
            Ensures-if_null _ (λ _. returns h') λ ms _. answer_view_change-From msg.view ms _ h'

  send_fill_dvc_gap-From :
      (replica view : ℕ) (s : SpecReplica A)
      → From p s
      → Ensures (From p) (send_fill_dvc_gap replica view s)
  unfolding send_fill_dvc_gap send
  send_fill_dvc_gap-From replica view s h = Ensures-assert _ λ _. returns h

  request_longer_logs-From :
      (view : ℕ) (ms : Map DoViewChangeMessage) (mine : DoViewChangeMessage) (s : SpecReplica A)
      → From p s
      → Ensures (λ t. From p t.1) (request_longer_logs view ms (mine, s))
  unfolding request_longer_logs
  request_longer_logs-From view [] mine s h = returns h
  request_longer_logs-From view ((i, m) ∷ ms) mine s h =
      Ensures-bind
        (Ensures-if _ (λ _. returns h)
          λ _. Ensures-bind (send_fill_dvc_gap-From i view s h) λ s' h'. returns h')
        λ t k. request_longer_logs-From view ms t.0 t.1 k

  need_fill_dvc_gap-From :
      (view : ℕ) (s : SpecReplica A) → From p s → Ensures (From p) (need_fill_dvc_gap view s)
  unfolding need_fill_dvc_gap
  need_fill_dvc_gap-From view s h =
      Ensures-assert _ λ _. Ensures-bind (request_longer_logs-From view _ _ s h) λ t k. returns k

  pub handle_fill_log_gap-From :
      (remote : Address) (msg : GapMessage) (s : SpecReplica A)
      → From p s
      → Ensures (From p) (handle_fill_log_gap remote msg s)
  unfolding handle_fill_log_gap send
  handle_fill_log_gap-From remote msg s h =
      Ensures-if _ (λ _. returns h) λ _. Ensures-assert _ λ _. Ensures-ok _ λ entries _. returns h

  pub handle_fill_dvc_gap-From :
      (remote : Address) (msg : GapMessage) (s : SpecReplica A)
      → From p s
      → Ensures (From p) (handle_fill_dvc_gap remote msg s)
  unfolding handle_fill_dvc_gap send
  handle_fill_dvc_gap-From remote msg s h =
      Ensures-if _ (λ _. returns h) λ _. Ensures-assert _ λ _. Ensures-ok _ λ entries _. returns h

module _ (env : Environment) where
  open env use {application}
  open application use {State}

  lead_view-From :
      {p : Progress} (view start : ℕ) (msgs : Map DoViewChangeMessage) (s : SpecReplica State)
      → From p s
      → Ensures (From p) (lead_view env view start msgs s)
  unfolding lead_view send
  lead_view-From view start msgs s h = Ensures-ok _ λ new_log _.
      Ensures-bind (install_log-From env new_log s h) λ s1 h1. Ensures-ok _ λ _ _.
        Ensures-ok _ λ _ _.
          Ensures-bind (enter_view-From env view s1 h1)
            λ s2 h2. Ensures-assert _ λ _. Ensures-ok _ λ entries _. returns h2

  complete_view_change-From :
      {p : Progress} (view start : ℕ) (s : SpecReplica State)
      → From p s
      → Ensures (From p) (complete_view_change env view start s)
  unfolding complete_view_change
  complete_view_change-From view start s h =
      Ensures-if_null _ (λ _. returns h) λ msgs _. lead_view-From view start msgs s h

  handle_longer_log-From :
      {p : Progress} (msg : DoViewChangeMessage) (s : SpecReplica State)
      → From p s
      → Ensures (From p) (handle_longer_log env msg s)
  unfolding handle_longer_log
  handle_longer_log-From msg s h =
      Ensures-if _ (λ _. send_fill_dvc_gap-From _ _ s h)
        (λ _. complete_view_change-From msg.view 0 _ h)

  compare_logs-From :
      {p : Progress} (msg : DoViewChangeMessage) (dvcs : Map DoViewChangeMessage)
      (s : SpecReplica State)
      → From p s
      → Ensures (From p) (compare_logs env msg dvcs s)
  unfolding compare_logs
  compare_logs-From msg dvcs s h =
      Ensures-if _ (λ _. need_fill_dvc_gap-From msg.view s h)
        λ _.
          Ensures-if _
            (λ _. Ensures-ok _ λ found _. Ensures-asserted _ λ entry _. Ensures-ok _ λ agree _.
              Ensures-if _ (λ _. complete_view_change-From msg.view _ s h)
                (λ _. need_fill_dvc_gap-From msg.view s h))
            (λ _. complete_view_change-From msg.view _ s h)

  pub handle_do_view_change-From :
      {p : Progress} (msg : DoViewChangeMessage) (s : SpecReplica State)
      → From p s
      → Ensures (From p) (handle_do_view_change env msg s)
  unfolding handle_do_view_change
  handle_do_view_change-From msg s h =
      Ensures-if _ (λ _. returns h)
        λ _.
          let h' = join_view_change-From msg.view s h in
          Ensures-assert _ λ _.
            Ensures-if _ (λ _. handle_longer_log-From msg _ h') (λ _. compare_logs-From msg _ _ h')

  follow_view-From :
      {p : Progress} (msg : StartViewMessage) (s : SpecReplica State)
      → From p s
      → Ensures (From p) (follow_view env msg s)
  unfolding follow_view send
  follow_view-From msg s h = Ensures-ok _ λ new_log _.
      Ensures-bind (install_log-From env new_log s h) λ s1 h1.
        Ensures-bind (commit_up_to-From env msg.last_committed s1 h1) λ s2 h2. Ensures-assert _ λ _.
          Ensures-assert _ λ _.
            Ensures-bind (enter_view-From env msg.view _ h2)
              λ s4 h4. Ensures-assert _ λ _. returns h4

  pub handle_start_view-From :
      {p : Progress} (remote : Address) (msg : StartViewMessage) (s : SpecReplica State)
      → From p s
      → Ensures (From p) (handle_start_view env remote msg s)
  unfolding handle_start_view request_longer_log send
  handle_start_view-From remote msg s h =
      Ensures-if _ (λ _. returns h)
        λ _.
          Ensures-assert _ λ _.
            Ensures-ok _ λ short _. Ensures-if _ (λ _. returns h) (λ _. follow_view-From msg s h)

  commit_in_view-From :
      {p : Progress} (msg : InViewMessage) (s : SpecReplica State)
      → From p s
      → Ensures (From p) (commit_in_view env msg s)
  unfolding commit_in_view
  commit_in_view-From msg s h = Ensures-assert _ λ _.
      Ensures-if _ (λ _. returns h)
        λ _.
          Ensures-bind (commit_up_to-From env msg.last_speculative s h)
            λ s' h'. send_sync-From s' h'

  pub handle_in_view-From :
      {p : Progress} (msg : InViewMessage) (s : SpecReplica State)
      → From p s
      → Ensures (From p) (handle_in_view env msg s)
  unfolding handle_in_view
  handle_in_view-From msg s h =
      Ensures-if _ (λ _. returns h)
        λ _.
          Ensures-if _ (λ _. faults)
            λ _.
              Ensures-assert _
                λ _. Ensures-if_null _ (λ _. returns h) λ ms _. commit_in_view-From msg _ h
