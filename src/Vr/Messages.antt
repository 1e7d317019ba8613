-- ===== src/Vr/Messages.antt =====
-- vr/vr-proto.proto: the messages of Viewstamped Replication. A field that is not set reads as 0.
use specpaxos.Base.{ℕ, List}
use specpaxos.Log.{Bytes, Request, EntryMessage}

pub record ReplyMessage : Type 0 where
  pub view : ℕ
  pub opnum : ℕ
  pub reply : Bytes
  pub clientreqid : ℕ

pub record PrepareMessage : Type 0 where
  pub view : ℕ
  pub opnum : ℕ
  pub batchstart : ℕ
  pub request : List Request

pub record PrepareOkMessage : Type 0 where
  pub view : ℕ
  pub opnum : ℕ
  pub replica_idx : ℕ

pub record CommitMessage : Type 0 where
  pub view : ℕ
  pub opnum : ℕ

pub record RequestStateTransferMessage : Type 0 where
  pub view : ℕ
  pub opnum : ℕ

pub record StateTransferMessage : Type 0 where
  pub view : ℕ
  pub opnum : ℕ
  pub entries : List EntryMessage

pub record StartViewChangeMessage : Type 0 where
  pub view : ℕ
  pub replica_idx : ℕ
  pub last_committed : ℕ

pub record DoViewChangeMessage : Type 0 where
  pub view : ℕ
  pub last_normal_view : ℕ
  pub last_op : ℕ
  pub last_committed : ℕ
  pub entries : List EntryMessage
  pub replica_idx : ℕ

pub record StartViewMessage : Type 0 where
  pub view : ℕ
  pub last_op : ℕ
  pub last_committed : ℕ
  pub entries : List EntryMessage

pub record RecoveryMessage : Type 0 where
  pub replica_idx : ℕ
  pub nonce : ℕ

pub record RecoveryResponseMessage : Type 0 where
  pub view : ℕ
  pub nonce : ℕ
  pub entries : List EntryMessage
  pub last_op : ℕ
  pub last_committed : ℕ
  pub replica_idx : ℕ

-- A request carries a Request, an unlogged one an UnloggedRequest, which has the same fields.
pub data Message : Type 0 where
  request_message : Request → Message
  reply_message : ReplyMessage → Message
  unlogged_request_message : Request → Message
  unlogged_reply_message : Bytes → Message
  prepare_message : PrepareMessage → Message
  prepare_ok_message : PrepareOkMessage → Message
  commit_message : CommitMessage → Message
  request_state_transfer_message : RequestStateTransferMessage → Message
  state_transfer_message : StateTransferMessage → Message
  start_view_change_message : StartViewChangeMessage → Message
  do_view_change_message : DoViewChangeMessage → Message
  start_view_message : StartViewMessage → Message
  recovery_message : RecoveryMessage → Message
  recovery_response_message : RecoveryResponseMessage → Message
