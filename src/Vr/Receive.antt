-- ===== src/Vr/Receive.antt =====
-- vr/replica.cc: ReceiveMessage, and the callbacks of the timeouts.
use specpaxos.Base.{List, [], ◌∷◌, Result, ok, err, panicked, add64}
use specpaxos.Base.Code.{◌>>=◌}
use specpaxos.Vr.Messages.{
  Message, request_message, reply_message, unlogged_request_message, unlogged_reply_message,
  prepare_message, prepare_ok_message, commit_message, request_state_transfer_message,
  state_transfer_message, start_view_change_message, do_view_change_message, start_view_message,
  recovery_message, recovery_response_message,
}
use specpaxos.Vr.State.{Address, Environment, VrReplica, nat_key, viewstamp_key}
use specpaxos.Vr.Actions.{
  send_recovery_messages, start_view_change, send_null_commit, resend_prepare, close_batch,
}
use specpaxos.Vr.Normal.{
  handle_request, handle_unlogged_request, handle_prepare, handle_prepare_ok, handle_commit,
}
use specpaxos.Vr.Transfer.{handle_request_state_transfer, handle_state_transfer}
use specpaxos.Vr.ViewChange.{handle_start_view_change, handle_do_view_change, handle_start_view}
use specpaxos.Vr.Recovery.{handle_recovery, handle_recovery_response}

-- What can happen at a replica: a message from an address, or a timeout that fires.
pub data Event : Type 0 where
  receives : Address → Message → Event
  view_change_fires null_commit_fires state_transfer_fires : Event
  resend_prepare_fires close_batch_fires recovery_fires : Event

module _ (env : Environment) where
  open env use {application}
  open application use {State}

  -- ReceiveMessage, on a message that the transport has parsed.
  unfoldable pub receive_message : Address → Message → VrReplica State → Result (VrReplica State)
  receive_message remote (request_message m) s = handle_request env remote m s
  receive_message remote (unlogged_request_message m) s = handle_unlogged_request env remote m s
  receive_message remote (prepare_message m) s = handle_prepare env remote m s
  receive_message remote (prepare_ok_message m) s = handle_prepare_ok env m s
  receive_message remote (commit_message m) s = handle_commit env m s
  receive_message remote (request_state_transfer_message m) s =
      handle_request_state_transfer env remote m s
  receive_message remote (state_transfer_message m) s = handle_state_transfer env m s
  receive_message remote (start_view_change_message m) s = handle_start_view_change m s
  receive_message remote (do_view_change_message m) s = handle_do_view_change env m s
  receive_message remote (start_view_message m) s = handle_start_view env m s
  receive_message remote (recovery_message m) s = handle_recovery remote m s
  receive_message remote (recovery_response_message m) s = handle_recovery_response env m s
  receive_message remote (reply_message m) s = err panicked
  receive_message remote (unlogged_reply_message m) s = err panicked

  -- The callbacks of the constructor. A timeout that fires is armed again before its callback runs.
  unfoldable pub timeout_callback : Event → VrReplica State → Result (VrReplica State)
  timeout_callback (receives remote m) s = ok s
  timeout_callback view_change_fires s = ok (start_view_change (add64 s.view 1) s)
  timeout_callback null_commit_fires s = send_null_commit s
  timeout_callback state_transfer_fires s =
      ok (record s { last_request_state_transfer_view = 0; last_request_state_transfer_opnum = 0 })
  timeout_callback resend_prepare_fires s = resend_prepare s
  timeout_callback close_batch_fires s = close_batch s
  timeout_callback recovery_fires s = ok (send_recovery_messages s)

  -- One event.
  unfoldable pub step : Event → VrReplica State → Result (VrReplica State)
  step (receives remote m) s = receive_message remote m s
  step e s = timeout_callback e s

  -- Events in any order: each way in which the transport delivers messages and fires timeouts.
  unfoldable pub run : List Event → VrReplica State → Result (VrReplica State)
  run [] s = ok s
  run (e ∷ es) s = do s' ← step e s; run es s'
