-- ===== src/Vr/State.antt =====
-- vr/replica.h: the state of a VRReplica, its constructor, and its timers.
use specpaxos.Base.{
  ℕ, ◌-◌, Bool, true, false, not, ◌&&◌, Option, none, List, [], ◌∷◌, Result, ok, ◌==◌,
}
use specpaxos.Base.Code.{◌>>=◌, if◌then◌else◌}
use specpaxos.Base.Map.{Map}
use specpaxos.Viewstamp.{Viewstamp, viewstamp_eq, viewstamp_eq_iff}
use specpaxos.Configuration.{Configuration, get_leader_index, quorum_size}
use specpaxos.QuorumSet.{QuorumSet, Key, new}
use specpaxos.Log.{Bytes, Log, new_log, empty_hash}
use specpaxos.Replica.{AppReplica, ReplicaStatus, normal, recovering}
pub use specpaxos.Replica.{Address}
pub use specpaxos.QuorumSet.{nat_key}
use specpaxos.Vr.Messages.{
  Message, ReplyMessage, PrepareMessage, PrepareOkMessage, StartViewChangeMessage,
  DoViewChangeMessage, RecoveryResponseMessage, recovery_message,
}

instance abbrev pub viewstamp_key : Key Viewstamp
viewstamp_key = record { beq = viewstamp_eq; beq_iff = viewstamp_eq_iff }

-- What a replica hands to the transport.
pub data Output : Type 0 where
  to_all : Message → Output
  to_replica : ℕ → Message → Output
  to_address : Address → Message → Output

-- struct ClientTableEntry; a reply that is cleared or was never set is `none`.
pub record ClientTableEntry : Type 0 where
  pub last_req_id : ℕ
  pub replied : Bool
  pub reply : Option ReplyMessage

-- What clientTable[id] makes of a missing entry.
abbrev pub new_client : ClientTableEntry
new_client = record { last_req_id = 0; replied = false; reply = none }

-- Which of the six timeouts are active.
pub record Timers : Type 0 where
  pub view_change_timeout : Bool
  pub null_commit_timeout : Bool
  pub state_transfer_timeout : Bool
  pub resend_prepare_timeout : Bool
  pub close_batch_timeout : Bool
  pub recovery_timeout : Bool

-- The code outside the replica: the application, OpenSSL's SHA1, and what a read of a destroyed
-- DoViewChangeMessage gives (HandleDoViewChange keeps a pointer to one).
pub record Environment : Type 1 where
  pub application : AppReplica
  pub sha1 : Bytes → Bytes
  pub dangling : DoViewChangeMessage → DoViewChangeMessage

-- class VRReplica, over the application's state. `sent` is what went to the transport, newest first.
pub record VrReplica (A : Type 0) : Type 0 where
  pub configuration : Configuration
  pub my_idx : ℕ
  pub status : ReplicaStatus
  pub view : ℕ
  pub last_committed : ℕ
  pub last_op : ℕ
  pub last_request_state_transfer_view : ℕ
  pub last_request_state_transfer_opnum : ℕ
  pub recovery_nonce : ℕ
  pub pending_prepares : List (Address × PrepareMessage)
  pub last_prepare : Option PrepareMessage
  pub batch_size : ℕ
  pub last_batch_end : ℕ
  pub batch_complete : Bool
  pub log : Log
  pub client_addresses : Map Address
  pub client_table : Map ClientTableEntry
  pub prepare_ok_quorum : QuorumSet Viewstamp PrepareOkMessage
  pub start_view_change_quorum : QuorumSet ℕ StartViewChangeMessage
  pub do_view_change_quorum : QuorumSet ℕ DoViewChangeMessage
  pub recovery_response_quorum : QuorumSet ℕ RecoveryResponseMessage
  pub timers : Timers
  pub app : A
  pub sent : List Output

-- The constructor, with the nonce that GenerateNonce draws.
unfoldable pub new_replica :
    {A : Type 0} → Configuration → ℕ → Bool → ℕ → ℕ → A → Result (VrReplica A)
new_replica config my_idx initialize batch_size nonce app = do
  log ← new_log false 1 empty_hash
  let leader = get_leader_index config 0 == my_idx
  ok (record {
    configuration = config;
    my_idx = my_idx;
    status = if initialize then normal else recovering;
    view = 0;
    last_committed = 0;
    last_op = 0;
    last_request_state_transfer_view = 0;
    last_request_state_transfer_opnum = 0;
    recovery_nonce = if initialize then 0 else nonce;
    pending_prepares = [];
    last_prepare = none;
    batch_size = batch_size;
    last_batch_end = 0;
    batch_complete = true;
    log = log;
    client_addresses = [];
    client_table = [];
    prepare_ok_quorum = new (quorum_size config - 1);
    start_view_change_quorum = new (quorum_size config - 1);
    do_view_change_quorum = new (quorum_size config - 1);
    recovery_response_quorum = new (quorum_size config);
    timers = record {
      view_change_timeout = initialize && not leader;
      null_commit_timeout = initialize && leader;
      state_transfer_timeout = true;
      resend_prepare_timeout = false;
      close_batch_timeout = false;
      recovery_timeout = not initialize;
    };
    app = app;
    sent =
        if initialize
        then []
        else to_all (recovery_message (record { replica_idx = my_idx; nonce = nonce })) ∷ [];
  })

module _ {A : Type 0} where
  unfoldable pub am_leader : VrReplica A → Bool
  am_leader s = get_leader_index s.configuration s.view == s.my_idx

  -- transport->SendMessageToAll, SendMessageToReplica and SendMessage. A failure is only reported.
  unfoldable pub send : Output → VrReplica A → VrReplica A
  send m s = record s { sent = m ∷ s.sent }

  unfoldable pub set_timers : Timers → VrReplica A → VrReplica A
  set_timers t s = record s { timers = t }
