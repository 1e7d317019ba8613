-- ===== src/Vr/Durable/ViewChange.antt =====
-- Committed operations under the handlers of the view change of vr/replica.cc.
use specpaxos.Base.{ℕ, List, Option, arith}
use specpaxos.Base.Code.{
  if◌then◌else◌, Ensures, returns, faults, Ensures-if, Ensures-assert, Ensures-bind, Ensures-ok,
  Ensures-if_null,
}
use specpaxos.Log.{EntryMessage}
use specpaxos.Log.Stable.{remove_after-Keeps, install-Keeps}
use specpaxos.Vr.Messages.{StartViewChangeMessage, DoViewChangeMessage, StartViewMessage}
use specpaxos.Base.Map.{Map}
use specpaxos.Vr.Durable.Actions.{From-eq, send_prepare_oks-From, commit_up_to-From}
use specpaxos.Vr.State.{VrReplica, Environment, send}
use specpaxos.Log.Progress.{Progress, Extends-Keeps}
use specpaxos.Vr.Durable.{From}
use specpaxos.Vr.Actions.{enter_view, start_view_change}
use specpaxos.Vr.ViewChange.{
  send_do_view_change, join_view_change, handle_start_view_change, nothing_to_install,
  install_entries, install_latest, lead_view, complete_view_change, handle_do_view_change,
  install_start_view, handle_start_view,
}

module _ {A : Type 0} where
  pub enter_view-From :
      {p : Progress} (view : ℕ) (s : VrReplica A) → From p s → From p (enter_view view s)
  unfolding enter_view
  enter_view-From view s h = h

  pub start_view_change-From :
      {p : Progress} (view : ℕ) (s : VrReplica A) → From p s → From p (start_view_change view s)
  unfolding start_view_change send
  start_view_change-From view s h = h

  join_view_change-From :
      {p : Progress} (view : ℕ) (s : VrReplica A) → From p s → From p (join_view_change view s)
  unfolding join_view_change if◌then◌else◌ start_view_change send
  join_view_change-From view s h = From-eq s (join_view_change view s) (ground arith) h

  send_do_view_change-From :
      {p : Progress} (ms : Map StartViewChangeMessage) (s : VrReplica A)
      → From p s
      → Ensures (From p) (send_do_view_change ms s)
  unfolding send_do_view_change send
  send_do_view_change-From ms s h = Ensures-ok _ λ c _. Ensures-ok _ λ entries _. returns h

  pub handle_start_view_change-From :
      {p : Progress} (msg : StartViewChangeMessage) (s : VrReplica A)
      → From p s
      → Ensures (From p) (handle_start_view_change msg s)
  unfolding handle_start_view_change
  handle_start_view_change-From msg s h =
      let k = join_view_change-From msg.view s h in
      Ensures-if _ (λ _. returns h)
        λ _. Ensures-assert _ λ _.
          Ensures-if_null _ (λ _. returns k)
            λ ms _. Ensures-if _ (λ _. returns k) (λ _. send_do_view_change-From ms _ k)

module _ (env : Environment) where
  open env use {application, sha1}
  open application use {State}

  nothing_to_install-From :
      {p : Progress} (op count : ℕ) (s : VrReplica State)
      → From p s
      → Ensures (From p) (nothing_to_install env op count s)
  unfolding nothing_to_install
  nothing_to_install-From op count s h = Ensures-assert _ λ _. Ensures-assert _ λ _. returns h

  install_entries-From :
      {p : Progress} (opnum op : ℕ) (ms : List EntryMessage) (s : VrReplica State)
      → From p s
      → Ensures (From p) (install_entries env opnum op ms s)
  unfolding install_entries
  install_entries-From opnum op ms s h =
      Ensures-if _ (λ _. faults)
        λ _. Ensures-ok _ λ log1 r. Ensures-ok _ λ log2 i.
          let k = Extends-Keeps h (remove_after-Keeps h.is_sound.has_committed _ r) in
          returns (Extends-Keeps k (install-Keeps sha1 ms k.is_sound.has_committed i))

  install_latest-From :
      {p : Progress} (msg m : DoViewChangeMessage) (s : VrReplica State)
      → From p s
      → Ensures (From p) (install_latest env msg m s)
  unfolding install_latest
  install_latest-From msg m s h =
      Ensures-if_null _ (λ _. nothing_to_install-From _ _ s h)
        (λ opnum _. install_entries-From opnum _ m.entries s h)

  lead_view-From :
      {p : Progress} (view from op : ℕ) (latest : Option DoViewChangeMessage) (s : VrReplica State)
      → From p s
      → Ensures (From p) (lead_view env view from op latest s)
  unfolding lead_view send
  lead_view-From view from op latest s h = Ensures-assert _ λ _.
      Ensures-bind
        (Ensures-if_null latest (λ _. returns (enter_view-From view s h))
          (λ m _. commit_up_to-From env m.last_committed _ (enter_view-From view s h)))
        λ s3 h3. Ensures-ok _ λ entries _. returns h3

  complete_view_change-From :
      {p : Progress} (msg : DoViewChangeMessage) (ms : Map DoViewChangeMessage)
      (s : VrReplica State)
      → From p s
      → Ensures (From p) (complete_view_change env msg ms s)
  unfolding complete_view_change
  complete_view_change-From msg ms s h =
      Ensures-bind (Ensures-if_null _ (λ _. returns h) (λ m _. install_latest-From msg m s h))
        λ s1 h1. Ensures-ok _ λ svc _. Ensures-ok _ λ dvc _. lead_view-From msg.view _ _ _ s1 h1

  pub handle_do_view_change-From :
      {p : Progress} (msg : DoViewChangeMessage) (s : VrReplica State)
      → From p s
      → Ensures (From p) (handle_do_view_change env msg s)
  unfolding handle_do_view_change
  handle_do_view_change-From msg s h =
      let k = join_view_change-From msg.view s h in
      Ensures-if _ (λ _. returns h)
        λ _.
          Ensures-assert _
            λ _. Ensures-if_null _ (λ _. returns k) (λ ms _. complete_view_change-From msg ms _ k)

  install_start_view-From :
      {p : Progress} (msg : StartViewMessage) (s : VrReplica State)
      → From p s
      → Ensures (From p) (install_start_view env msg s)
  unfolding install_start_view
  install_start_view-From msg s h =
      Ensures-if_null _ (λ _. nothing_to_install-From _ _ s h)
        (λ opnum _. install_entries-From opnum _ msg.entries s h)

  pub handle_start_view-From :
      {p : Progress} (msg : StartViewMessage) (s : VrReplica State)
      → From p s
      → Ensures (From p) (handle_start_view env msg s)
  unfolding handle_start_view
  handle_start_view-From msg s h =
      Ensures-if _ (λ _. returns h)
        λ _. Ensures-assert _ λ _. Ensures-bind (install_start_view-From msg s h) λ s1 h1.
          Ensures-assert _ λ _.
            Ensures-bind
              (commit_up_to-From env msg.last_committed _ (enter_view-From msg.view s1 h1))
              λ s4 h4. send_prepare_oks-From _ s4 h4
