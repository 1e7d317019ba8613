-- ===== src/FastPaxos/Receive.antt =====
-- fastpaxos/replica.cc: ReceiveMessage, and the callbacks of the timeouts.
use specpaxos.Base.{List, [], ◌∷◌, Result, ok, err, panicked}
use specpaxos.Base.Code.{◌>>=◌}
use specpaxos.Replica.{Address}
use specpaxos.FastPaxos.Messages.{
  Message, request_message, reply_message, unlogged_request_message, unlogged_reply_message,
  prepare_message, prepare_ok_message, commit_message, request_state_transfer_message,
  state_transfer_message,
}
use specpaxos.FastPaxos.State.{Environment, FastPaxosReplica}
use specpaxos.FastPaxos.Actions.{resend_prepare}
use specpaxos.FastPaxos.Normal.{
  handle_request, handle_unlogged_request, handle_prepare, handle_prepare_ok, handle_commit,
}
use specpaxos.FastPaxos.Transfer.{handle_request_state_transfer, handle_state_transfer}

-- What can happen at a replica: a message from an address, or a timeout that fires.
pub data Event : Type 0 where
  receives : Address → Message → Event
  state_transfer_fires resend_prepare_fires : Event

module _ (env : Environment) where
  open env use {application}
  open application use {State}

  -- ReceiveMessage, on a message that the transport has parsed.
  unfoldable pub receive_message :
      Address → Message → FastPaxosReplica State → Result (FastPaxosReplica State)
  receive_message remote (request_message m) s = handle_request env remote m s
  receive_message remote (unlogged_request_message m) s = handle_unlogged_request env remote m s
  receive_message remote (prepare_message m) s = handle_prepare env remote m s
  receive_message remote (prepare_ok_message m) s = handle_prepare_ok env remote m s
  receive_message remote (commit_message m) s = handle_commit env m s
  receive_message remote (request_state_transfer_message m) s =
      handle_request_state_transfer env remote m s
  receive_message remote (state_transfer_message m) s = handle_state_transfer env m s
  receive_message remote (reply_message m) s = err panicked
  receive_message remote (unlogged_reply_message m) s = err panicked

  -- The callbacks of the constructor. A timeout that fires is armed again before its callback runs.
  unfoldable pub timeout_callback : Event → FastPaxosReplica State → Result (FastPaxosReplica State)
  timeout_callback (receives remote m) s = ok s
  timeout_callback state_transfer_fires s =
      ok (record s { last_request_state_transfer_view = 0; last_request_state_transfer_opnum = 0 })
  timeout_callback resend_prepare_fires s = resend_prepare s

  -- One event.
  unfoldable pub step : Event → FastPaxosReplica State → Result (FastPaxosReplica State)
  step (receives remote m) s = receive_message remote m s
  step e s = timeout_callback e s

  -- Events in any order: each way in which the transport delivers messages and fires timeouts.
  unfoldable pub run : List Event → FastPaxosReplica State → Result (FastPaxosReplica State)
  run [] s = ok s
  run (e ∷ es) s = do s' ← step e s; run es s'
