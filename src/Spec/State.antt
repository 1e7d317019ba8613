-- ===== src/Spec/State.antt =====
-- spec/replica.h: the state of a SpecReplica.
use specpaxos.Base.{ℕ, Bool, List, ◌∷◌, ◌==◌}
use specpaxos.Base.Map.{Map}
use specpaxos.Configuration.{Configuration, get_leader_index}
use specpaxos.QuorumSet.{QuorumSet}
use specpaxos.Log.{Bytes, Request, Log}
use specpaxos.Replica.{AppReplica, ReplicaStatus, Address}
use specpaxos.Spec.Messages.{
  Message, SyncReplyMessage, StartViewChangeMessage, DoViewChangeMessage, InViewMessage,
}

-- What a replica hands to the transport.
pub data Output : Type 0 where
  to_all : Message → Output
  to_replica : ℕ → Message → Output
  to_address : Address → Message → Output

-- struct ClientTableEntry
pub record ClientTableEntry : Type 0 where
  pub last_req_id : ℕ
  pub last_req_opnum : ℕ

-- What clientTable[id] makes of a missing entry.
abbrev pub new_client : ClientTableEntry
new_client = record { last_req_id = 0; last_req_opnum = 0 }

-- Which of the three timeouts are active.
pub record Timers : Type 0 where
  pub sync_timeout : Bool
  pub failed_sync_timeout : Bool
  pub view_change_timeout : Bool

-- The code outside the replica: the application, and OpenSSL's SHA1.
pub record Environment : Type 1 where
  pub application : AppReplica
  pub sha1 : Bytes → Bytes

-- class SpecReplica, over the application's state. `sent` is what went to the transport, newest first.
pub record SpecReplica (A : Type 0) : Type 0 where
  pub configuration : Configuration
  pub my_idx : ℕ
  pub status : ReplicaStatus
  pub log : Log
  pub view : ℕ
  pub last_committed : ℕ
  pub last_committed_sent : ℕ
  pub last_speculative : ℕ
  pub pending_sync : ℕ
  pub last_sync : ℕ
  pub sent_do_view_change : ℕ
  pub need_fill_dvc : ℕ
  pub client_addresses : Map Address
  pub client_table : Map ClientTableEntry
  pub pending_requests : List (Address × Request)
  pub sync_reply_quorum : QuorumSet ℕ SyncReplyMessage
  pub start_view_change_quorum : QuorumSet ℕ StartViewChangeMessage
  pub do_view_change_quorum : QuorumSet ℕ DoViewChangeMessage
  pub in_view_quorum : QuorumSet ℕ InViewMessage
  pub timers : Timers
  pub app : A
  pub sent : List Output

-- SYNC_TIMEOUT_REQUESTS and DVC_FUDGE of spec/replica.cc.
abbrev pub sync_timeout_requests : ℕ
sync_timeout_requests = 10000

abbrev pub dvc_fudge : ℕ
dvc_fudge = 25

module _ {A : Type 0} where
  unfoldable pub am_leader : SpecReplica A → Bool
  am_leader s = get_leader_index s.configuration s.view == s.my_idx

  -- transport->SendMessageToAll, SendMessageToReplica and SendMessage. A failure is only reported.
  unfoldable pub send : Output → SpecReplica A → SpecReplica A
  send m s = record s { sent = m ∷ s.sent }
