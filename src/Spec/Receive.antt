-- ===== src/Spec/Receive.antt =====
-- spec/replica.cc: the constructor, ReceiveMessage, and the callbacks of the timeouts.
use specpaxos.Base.{ℕ, Bool, true, not, ◌-◌, List, [], ◌∷◌, Result, ok, err, panicked, add64}
use specpaxos.Base.Code.{◌>>=◌, if◌then◌else◌}
use specpaxos.Configuration.{Configuration, quorum_size, fast_quorum_size}
use specpaxos.QuorumSet.{new}
use specpaxos.Log.{new_log, empty_hash}
use specpaxos.Replica.{Address, normal}
use specpaxos.Spec.Messages.{
  Message, request_message, speculative_reply_message, unlogged_request_message,
  unlogged_reply_message, sync_message, sync_reply_message, request_view_change_message,
  start_view_change_message, do_view_change_message, start_view_message, in_view_message,
  fill_log_gap_message, fill_dvc_gap_message,
}
use specpaxos.Spec.State.{Environment, SpecReplica}
use specpaxos.Spec.Actions.{off, start_view_change, send_sync}
use specpaxos.Spec.Requests.{handle_request, handle_unlogged_request, enter_view}
use specpaxos.Spec.Sync.{handle_sync, handle_sync_reply}
use specpaxos.Spec.ViewChange.{
  handle_request_view_change, handle_start_view_change, handle_fill_log_gap, handle_fill_dvc_gap,
}
use specpaxos.Spec.NewView.{handle_do_view_change, handle_start_view, handle_in_view}

-- What can happen at a replica: a message from an address, or a timeout that fires.
pub data Event : Type 0 where
  receives : Address → Message → Event
  sync_fires failed_sync_fires view_change_fires : Event

module _ (env : Environment) where
  open env use {application}
  open application use {State}

  -- The constructor.
  unfoldable pub new_replica : Configuration → ℕ → Bool → State → Result (SpecReplica State)
  new_replica config my_idx initialize app = if not initialize then err panicked else do
    log ← new_log true 1 empty_hash
    enter_view env 0 (record {
      configuration = config;
      my_idx = my_idx;
      status = normal;
      log = log;
      view = 0;
      last_committed = 0;
      last_committed_sent = 0;
      last_speculative = 0;
      pending_sync = 0;
      last_sync = 0;
      sent_do_view_change = 0;
      need_fill_dvc = 0;
      client_addresses = [];
      client_table = [];
      pending_requests = [];
      sync_reply_quorum = new (fast_quorum_size config - 1);
      start_view_change_quorum = new (quorum_size config - 1);
      do_view_change_quorum = new (quorum_size config);
      in_view_quorum = new (quorum_size config - 1);
      timers = record { sync_timeout = off; failed_sync_timeout = off; view_change_timeout = off };
      app = app;
      sent = [];
    })

  -- ReceiveMessage, on a message that the transport has parsed.
  unfoldable pub receive_message :
      Address → Message → SpecReplica State → Result (SpecReplica State)
  receive_message remote (request_message m) s = handle_request env remote m s
  receive_message remote (unlogged_request_message m) s = handle_unlogged_request env remote m s
  receive_message remote (sync_message m) s = handle_sync env m s
  receive_message remote (sync_reply_message m) s = handle_sync_reply env m s
  receive_message remote (start_view_change_message m) s = handle_start_view_change m s
  receive_message remote (do_view_change_message m) s = handle_do_view_change env m s
  receive_message remote (start_view_message m) s = handle_start_view env remote m s
  receive_message remote (in_view_message m) s = handle_in_view env m s
  receive_message remote (fill_log_gap_message m) s = handle_fill_log_gap remote m s
  receive_message remote (fill_dvc_gap_message m) s = handle_fill_dvc_gap remote m s
  receive_message remote (request_view_change_message m) s = ok (handle_request_view_change m s)
  receive_message remote (speculative_reply_message m) s = err panicked
  receive_message remote (unlogged_reply_message m) s = err panicked

  -- The callbacks of the constructor. A timeout that fires is armed again before its callback runs.
  unfoldable pub timeout_callback : Event → SpecReplica State → Result (SpecReplica State)
  timeout_callback (receives remote m) s = ok s
  timeout_callback sync_fires s = send_sync s
  timeout_callback failed_sync_fires s = ok (start_view_change (add64 s.view 1) s)
  timeout_callback view_change_fires s = ok (start_view_change (add64 s.view 1) s)

  -- One event.
  unfoldable pub step : Event → SpecReplica State → Result (SpecReplica State)
  step (receives remote m) s = receive_message remote m s
  step e s = timeout_callback e s

  -- Events in any order: each way in which the transport delivers messages and fires timeouts.
  unfoldable pub run : List Event → SpecReplica State → Result (SpecReplica State)
  run [] s = ok s
  run (e ∷ es) s = do s' ← step e s; run es s'
