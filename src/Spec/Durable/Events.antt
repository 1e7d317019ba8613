-- ===== src/Spec/Durable/Events.antt =====
-- Committed operations under ReceiveMessage and the timeouts of spec/replica.cc.
use specpaxos.Base.{ℕ, Bool, true, subst, refl, arith, ok-injective, ◌≡◌, List, [], ◌∷◌, ok}
use specpaxos.Base.Code.{
  ◌>>=◌, Ensures, returns, faults, Ensures-bind, Ensures-elim, Ensures-weaken, Ensures-ok,
  Ensures-if,
}
use specpaxos.Spec.Messages.{
  Message, request_message, speculative_reply_message, unlogged_request_message,
  unlogged_reply_message, sync_message, sync_reply_message, request_view_change_message,
  start_view_change_message, do_view_change_message, start_view_message, in_view_message,
  fill_log_gap_message, fill_dvc_gap_message,
}
use specpaxos.Configuration.{Configuration}
use specpaxos.Log.{new_log, bytes_eq, empty_hash, Log}
use specpaxos.Replica.{Address}
use specpaxos.Spec.State.{SpecReplica, Environment}
use specpaxos.Spec.Durable.{Progress, progress, IsSound, Extends, Extends-refl, From}
use specpaxos.Spec.Durable.Actions.{start_view_change-From, send_sync-From}
use specpaxos.Spec.Durable.Requests.{
  handle_request-From, handle_unlogged_request-From, enter_view-From,
}
use specpaxos.Spec.Durable.Sync.{handle_sync-From, handle_sync_reply-From}
use specpaxos.Spec.Durable.ViewChange.{
  handle_request_view_change-From, handle_start_view_change-From, handle_do_view_change-From,
  handle_start_view-From, handle_in_view-From, handle_fill_log_gap-From, handle_fill_dvc_gap-From,
}
use specpaxos.Spec.Receive.{
  Event, receives, sync_fires, failed_sync_fires, view_change_fires, new_replica, receive_message,
  timeout_callback, step, run,
}

-- The constructor's log.
new_log-IsSound :
    (log : Log)
    → new_log true 1 empty_hash ≡ ok log
    → IsSound (record { log = log; committed = 0; last_speculative = 0 })
unfolding new_log bytes_eq ◌>>=◌
new_log-IsSound log e =
    subst (λ l. IsSound (record { log = l; committed = 0; last_speculative = 0 })) (ok-injective e)
      (record {
        has_committed = record {
          well_formed = record {
            numbered = tt;
            fits = omega arith;
            positive = omega arith;
            small = omega arith;
          };
          room = omega arith;
          done = tt;
        };
        from_one = refl;
        ends = refl;
      })

module _ (env : Environment) where
  open env use {application}
  open application use {State}

  receive_message-From :
      {p : Progress} (remote : Address) (m : Message) (s : SpecReplica State)
      → From p s
      → Ensures (From p) (receive_message env remote m s)
  unfolding receive_message
  receive_message-From remote (request_message m) s h = handle_request-From env remote m s h
  receive_message-From remote (unlogged_request_message m) s h =
      handle_unlogged_request-From env remote m s h
  receive_message-From remote (sync_message m) s h = handle_sync-From env m s h
  receive_message-From remote (sync_reply_message m) s h = handle_sync_reply-From env m s h
  receive_message-From remote (start_view_change_message m) s h =
      handle_start_view_change-From m s h
  receive_message-From remote (do_view_change_message m) s h = handle_do_view_change-From env m s h
  receive_message-From remote (start_view_message m) s h = handle_start_view-From env remote m s h
  receive_message-From remote (in_view_message m) s h = handle_in_view-From env m s h
  receive_message-From remote (fill_log_gap_message m) s h = handle_fill_log_gap-From remote m s h
  receive_message-From remote (fill_dvc_gap_message m) s h = handle_fill_dvc_gap-From remote m s h
  receive_message-From remote (request_view_change_message m) s h =
      returns (handle_request_view_change-From m s h)
  receive_message-From remote (speculative_reply_message m) s h = faults
  receive_message-From remote (unlogged_reply_message m) s h = faults

  step-From :
      {p : Progress} (e : Event) (s : SpecReplica State)
      → From p s
      → Ensures (From p) (step env e s)
  unfolding step timeout_callback
  step-From (receives remote m) s h = receive_message-From remote m s h
  step-From sync_fires s h = send_sync-From s h
  step-From failed_sync_fires s h = returns (start_view_change-From _ s h)
  step-From view_change_fires s h = returns (start_view_change-From _ s h)

  run-From :
      {p : Progress} (es : List Event) (s : SpecReplica State)
      → From p s
      → Ensures (From p) (run env es s)
  unfolding run
  run-From [] s h = returns h
  run-From (e ∷ es) s h = Ensures-bind (step-From e s h) λ s' h'. run-From es s' h'

  -- Whatever messages arrive and timeouts fire, in any order: while the replica of Speculative Paxos
  -- does not stop at a failed check, its number of committed operations does not fall, the entries
  -- that were committed stay the same but for the kept reply and the client's previous opnum, all
  -- entries up to the new number are present, numbered and marked committed, and the log ends at
  -- lastSpeculative. No rollback removes a committed operation.
  pub run_durable :
      (es : List Event) (s s' : SpecReplica State)
      → IsSound (progress s)
      → run env es s ≡ ok s'
      → Extends (progress s) (progress s')
  run_durable es s s' h e = Ensures-elim (run-From es s (Extends-refl h)) e

  -- The replica that the constructor returns has a well-formed log from opnum 1 to lastSpeculative.
  pub new_replica-Ensures :
      (config : Configuration) (my_idx : ℕ) (initialize : Bool) (app : State)
      → Ensures (λ s. IsSound (progress s)) (new_replica env config my_idx initialize app)
  unfolding new_replica
  new_replica-Ensures config my_idx initialize app =
      Ensures-if _ (λ _. faults)
        λ _. Ensures-ok _ λ log e.
          Ensures-weaken (enter_view-From env 0 _ (Extends-refl (new_log-IsSound log e)))
            λ s x. x.is_sound
