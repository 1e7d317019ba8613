-- ===== src/Vr/Durable/Events.antt =====
-- Committed operations under ReceiveMessage and the timeouts of vr/replica.cc.
use specpaxos.Base.{ℕ, Bool, subst, refl, arith, ok-injective, ◌≡◌, List, [], ◌∷◌, ok}
use specpaxos.Base.Code.{◌>>=◌, Ensures, returns, faults, Ensures-bind, Ensures-elim}
use specpaxos.Vr.Messages.{
  Message, request_message, reply_message, unlogged_request_message, unlogged_reply_message,
  prepare_message, prepare_ok_message, commit_message, request_state_transfer_message,
  state_transfer_message, start_view_change_message, do_view_change_message, start_view_message,
  recovery_message, recovery_response_message,
}
use specpaxos.Vr.Durable.Actions.{close_batch-From, send_null_commit-From, resend_prepare-From}
use specpaxos.Configuration.{Configuration}
use specpaxos.Log.{new_log, bytes_eq}
use specpaxos.Vr.State.{new_replica, VrReplica, Environment, Address, send}
use specpaxos.Log.Progress.{Progress, IsSound, Extends, Extends-refl}
use specpaxos.Vr.Durable.{progress, From}
use specpaxos.Vr.Actions.{send_recovery_messages}
use specpaxos.Vr.Durable.Normal.{
  handle_request-From, handle_unlogged_request-From, handle_prepare-From, handle_prepare_ok-From,
  handle_commit-From,
}
use specpaxos.Vr.Durable.Transfer.{handle_request_state_transfer-From, handle_state_transfer-From}
use specpaxos.Vr.Durable.ViewChange.{
  start_view_change-From, handle_start_view_change-From, handle_do_view_change-From,
  handle_start_view-From,
}
use specpaxos.Vr.Durable.Recovery.{handle_recovery-From, handle_recovery_response-From}
use specpaxos.Vr.Receive.{
  Event, receives, view_change_fires, null_commit_fires, state_transfer_fires, resend_prepare_fires,
  close_batch_fires, recovery_fires, receive_message, timeout_callback, step, run,
}

module _ (env : Environment) where
  open env use {application}
  open application use {State}

  receive_message-From :
      {p : Progress} (remote : Address) (m : Message) (s : VrReplica State)
      → From p s
      → Ensures (From p) (receive_message env remote m s)
  unfolding receive_message
  receive_message-From remote (request_message m) s h = handle_request-From env remote m s h
  receive_message-From remote (unlogged_request_message m) s h =
      handle_unlogged_request-From env remote m s h
  receive_message-From remote (prepare_message m) s h = handle_prepare-From env remote m s h
  receive_message-From remote (prepare_ok_message m) s h = handle_prepare_ok-From env m s h
  receive_message-From remote (commit_message m) s h = handle_commit-From env m s h
  receive_message-From remote (request_state_transfer_message m) s h =
      handle_request_state_transfer-From env remote m s h
  receive_message-From remote (state_transfer_message m) s h = handle_state_transfer-From env m s h
  receive_message-From remote (start_view_change_message m) s h =
      handle_start_view_change-From m s h
  receive_message-From remote (do_view_change_message m) s h = handle_do_view_change-From env m s h
  receive_message-From remote (start_view_message m) s h = handle_start_view-From env m s h
  receive_message-From remote (recovery_message m) s h = handle_recovery-From remote m s h
  receive_message-From remote (recovery_response_message m) s h =
      handle_recovery_response-From env m s h
  receive_message-From remote (reply_message m) s h = faults
  receive_message-From remote (unlogged_reply_message m) s h = faults

  step-From :
      {p : Progress} (e : Event) (s : VrReplica State) → From p s → Ensures (From p) (step env e s)
  unfolding step timeout_callback send_recovery_messages send
  step-From (receives remote m) s h = receive_message-From remote m s h
  step-From view_change_fires s h = returns (start_view_change-From _ s h)
  step-From null_commit_fires s h = send_null_commit-From s h
  step-From state_transfer_fires s h = returns h
  step-From resend_prepare_fires s h = resend_prepare-From s h
  step-From close_batch_fires s h = close_batch-From s h
  step-From recovery_fires s h = returns h

  run-From :
      {p : Progress} (es : List Event) (s : VrReplica State)
      → From p s
      → Ensures (From p) (run env es s)
  unfolding run
  run-From [] s h = returns h
  run-From (e ∷ es) s h = Ensures-bind (step-From e s h) λ s' h'. run-From es s' h'

  -- Whatever messages arrive and timeouts fire, in any order: while the replica does not stop at a
  -- failed check, its number of committed operations does not fall, the entries that were committed
  -- stay the same, and all entries up to the new number are present, numbered and marked committed.
  pub run-Extends :
      (es : List Event) (s s' : VrReplica State)
      → IsSound (progress s)
      → run env es s ≡ ok s'
      → Extends (progress s) (progress s')
  run-Extends es s s' h e = Ensures-elim (run-From es s (Extends-refl h)) e

-- The replica that the constructor returns has a well-formed log from opnum 1 on, and as many
-- committed entries as it says.
pub new_replica-IsSound :
    {A : Type 0} (config : Configuration) (my_idx : ℕ) (initialize : Bool) (batch_size nonce : ℕ)
    (app : A) (s : VrReplica A)
    → new_replica config my_idx initialize batch_size nonce app ≡ ok s
    → IsSound (progress s)
unfolding new_replica new_log bytes_eq ◌>>=◌
new_replica-IsSound config my_idx initialize batch_size nonce app s e =
    subst (λ r. IsSound (progress r)) (ok-injective e)
      (record {
        has_committed = record {
          well_formed = record {
            numbered = tt;
            fits = omega arith;
            positive = omega arith;
            small = omega arith;
          };
          room = omega arith;
          done = tt;
        };
        from_one = refl;
      })
