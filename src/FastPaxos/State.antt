-- ===== src/FastPaxos/State.antt =====
-- fastpaxos/replica.h: the state of a FastPaxosReplica, and its constructor.
use specpaxos.Base.{
  ℕ, ◌-◌, Bool, true, false, not, Option, none, List, [], ◌∷◌, Result, ok, err, panicked, ◌==◌,
}
use specpaxos.Base.Code.{◌>>=◌, if◌then◌else◌}
use specpaxos.Base.Map.{Map}
use specpaxos.Viewstamp.{Viewstamp, viewstamp_eq, viewstamp_eq_iff}
use specpaxos.Configuration.{Configuration, get_leader_index, quorum_size, fast_quorum_size}
use specpaxos.QuorumSet.{QuorumSet, Key, new}
use specpaxos.Log.{Bytes, Log, new_log, empty_hash}
use specpaxos.Replica.{AppReplica, ReplicaStatus, Address, normal}
use specpaxos.FastPaxos.Messages.{Message, ReplyMessage, ProposalMessage, PrepareOkMessage}

instance abbrev pub viewstamp_key : Key Viewstamp
viewstamp_key = record { beq = viewstamp_eq; beq_iff = viewstamp_eq_iff }

-- What a replica hands to the transport.
pub data Output : Type 0 where
  to_all : Message → Output
  to_replica : ℕ → Message → Output
  to_address : Address → Message → Output

-- struct ClientTableEntry; a reply that is cleared or was never set is `none`.
pub record ClientTableEntry : Type 0 where
  pub last_req_id : ℕ
  pub replied : Bool
  pub reply : Option ReplyMessage

-- What clientTable[id] makes of a missing entry.
abbrev pub new_client : ClientTableEntry
new_client = record { last_req_id = 0; replied = false; reply = none }

-- Which of the two timeouts are active.
pub record Timers : Type 0 where
  pub state_transfer_timeout : Bool
  pub resend_prepare_timeout : Bool

-- The code outside the replica: the application, and OpenSSL's SHA1.
pub record Environment : Type 1 where
  pub application : AppReplica
  pub sha1 : Bytes → Bytes

-- class FastPaxosReplica, over the application's state. `sent` is what went to the transport, newest
-- first.
pub record FastPaxosReplica (A : Type 0) : Type 0 where
  pub configuration : Configuration
  pub my_idx : ℕ
  pub status : ReplicaStatus
  pub view : ℕ
  pub last_committed : ℕ
  pub last_fast_path : ℕ
  pub last_slow_path : ℕ
  pub last_request_state_transfer_view : ℕ
  pub last_request_state_transfer_opnum : ℕ
  pub pending_prepares : List (Address × ProposalMessage)
  pub pending_prepare_oks : List (Address × PrepareOkMessage)
  pub last_prepare : Option ProposalMessage
  pub log : Log
  pub client_addresses : Map Address
  pub client_table : Map ClientTableEntry
  pub slow_prepare_ok_quorum : QuorumSet Viewstamp PrepareOkMessage
  pub fast_prepare_ok_quorum : QuorumSet Viewstamp PrepareOkMessage
  pub timers : Timers
  pub app : A
  pub sent : List Output

-- The constructor.
unfoldable pub new_replica :
    {A : Type 0} → Configuration → ℕ → Bool → A → Result (FastPaxosReplica A)
new_replica config my_idx initialize app = if not initialize then err panicked else do
  log ← new_log false 1 empty_hash
  ok (record {
    configuration = config;
    my_idx = my_idx;
    status = normal;
    view = 0;
    last_committed = 0;
    last_fast_path = 0;
    last_slow_path = 0;
    last_request_state_transfer_view = 0;
    last_request_state_transfer_opnum = 0;
    pending_prepares = [];
    pending_prepare_oks = [];
    last_prepare = none;
    log = log;
    client_addresses = [];
    client_table = [];
    slow_prepare_ok_quorum = new (quorum_size config - 1);
    fast_prepare_ok_quorum = new (fast_quorum_size config - 1);
    timers = record { state_transfer_timeout = true; resend_prepare_timeout = false };
    app = app;
    sent = [];
  })

module _ {A : Type 0} where
  unfoldable pub am_leader : FastPaxosReplica A → Bool
  am_leader s = get_leader_index s.configuration s.view == s.my_idx

  -- transport->SendMessageToAll, SendMessageToReplica and SendMessage. A failure is only reported.
  unfoldable pub send : Output → FastPaxosReplica A → FastPaxosReplica A
  send m s = record s { sent = m ∷ s.sent }
