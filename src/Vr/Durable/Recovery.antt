-- ===== src/Vr/Durable/Recovery.antt =====
-- Committed operations under the handlers of recovery of vr/replica.cc.
use specpaxos.Base.Code.{Ensures, returns, Ensures-if, Ensures-assert, Ensures-ok, Ensures-if_null}
use specpaxos.Log.Stable.{install-Keeps}
use specpaxos.Vr.Messages.{RecoveryMessage, RecoveryResponseMessage}
use specpaxos.Base.Map.{Map}
use specpaxos.Vr.Durable.Actions.{commit_up_to-From}
use specpaxos.Vr.State.{VrReplica, Environment, Address, send}
use specpaxos.Log.Progress.{Progress, Extends-Keeps}
use specpaxos.Vr.Durable.{From}
use specpaxos.Vr.Durable.ViewChange.{enter_view-From}
use specpaxos.Vr.Recovery.{handle_recovery, recover, complete_recovery, handle_recovery_response}

pub handle_recovery-From :
    {A : Type 0} {p : Progress} (remote : Address) (msg : RecoveryMessage) (s : VrReplica A)
    → From p s
    → Ensures (From p) (handle_recovery remote msg s)
unfolding handle_recovery send
handle_recovery-From remote msg s h =
    Ensures-if _ (λ _. returns h) λ _. Ensures-ok _ λ full _. returns h

module _ (env : Environment) where
  open env use {application, sha1}
  open application use {State}

  recover-From :
      {p : Progress} (m : RecoveryResponseMessage) (s : VrReplica State)
      → From p s
      → Ensures (From p) (recover env m s)
  unfolding recover
  recover-From m s h = Ensures-ok _ λ log' i.
      let k = Extends-Keeps h (install-Keeps sha1 m.entries h.is_sound.has_committed i) in
      commit_up_to-From env m.last_committed _ (enter_view-From m.view (record s { log = log' }) k)

  complete_recovery-From :
      {p : Progress} (ms : Map RecoveryResponseMessage) (s : VrReplica State)
      → From p s
      → Ensures (From p) (complete_recovery env ms s)
  unfolding complete_recovery
  complete_recovery-From ms s h = Ensures-assert _ λ _.
      Ensures-if_null _ (λ _. returns h)
        λ response _. Ensures-if _ (λ _. recover-From response s h) (λ _. returns h)

  pub handle_recovery_response-From :
      {p : Progress} (msg : RecoveryResponseMessage) (s : VrReplica State)
      → From p s
      → Ensures (From p) (handle_recovery_response env msg s)
  unfolding handle_recovery_response
  handle_recovery_response-From msg s h =
      Ensures-if _ (λ _. returns h)
        λ _.
          Ensures-if _ (λ _. returns h)
            λ _. Ensures-if_null _ (λ _. returns h) (λ ms _. complete_recovery-From ms _ h)
