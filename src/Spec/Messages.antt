-- ===== src/Spec/Messages.antt =====
-- spec/spec-proto.proto: the messages of Speculative Paxos. SpeculativeReplyMessage, which a log entry
-- keeps, stands with the log.
use specpaxos.Base.{ℕ, List}
use specpaxos.Log.{Bytes, Request, EntryMessage, SpeculativeReplyMessage}

-- An optional field that is not set reads as 0 or the empty string.
pub record SyncMessage : Type 0 where
  pub view : ℕ
  pub last_committed : ℕ
  pub last_committed_hash : Bytes
  pub last_speculative : ℕ

pub record SyncReplyMessage : Type 0 where
  pub view : ℕ
  pub last_speculative : ℕ
  pub last_speculative_hash : Bytes
  pub replica_idx : ℕ

pub record StartViewChangeMessage : Type 0 where
  pub view : ℕ
  pub replica_idx : ℕ
  pub last_committed : ℕ

pub record DoViewChangeMessage : Type 0 where
  pub view : ℕ
  pub last_normal_view : ℕ
  pub last_speculative : ℕ
  pub last_committed : ℕ
  pub entries : List EntryMessage
  pub replica_idx : ℕ

pub record StartViewMessage : Type 0 where
  pub view : ℕ
  pub last_speculative : ℕ
  pub last_committed : ℕ
  pub entries : List EntryMessage

pub record InViewMessage : Type 0 where
  pub view : ℕ
  pub last_speculative : ℕ
  pub replica_idx : ℕ

-- FillLogGapMessage and FillDVCGapMessage have the same fields.
pub record GapMessage : Type 0 where
  pub view : ℕ
  pub last_committed : ℕ

-- What the transport carries, by its type's name. REQUESTVIEWCHANGE holds a view.
pub data Message : Type 0 where
  request_message : Request → Message
  speculative_reply_message : SpeculativeReplyMessage → Message
  unlogged_request_message : Request → Message
  unlogged_reply_message : Bytes → Message
  sync_message : SyncMessage → Message
  sync_reply_message : SyncReplyMessage → Message
  request_view_change_message : ℕ → Message
  start_view_change_message : StartViewChangeMessage → Message
  do_view_change_message : DoViewChangeMessage → Message
  start_view_message : StartViewMessage → Message
  in_view_message : InViewMessage → Message
  fill_log_gap_message : GapMessage → Message
  fill_dvc_gap_message : GapMessage → Message
