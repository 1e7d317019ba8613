-- ===== src/FastPaxos/Messages.antt =====
-- fastpaxos/fastpaxos-proto.proto: the messages of Fast Paxos.
use specpaxos.Base.{ℕ, Bool, List}
use specpaxos.Log.{Bytes, Request, EntryMessage}

pub record ReplyMessage : Type 0 where
  pub view : ℕ
  pub opnum : ℕ
  pub reply : Bytes
  pub clientreqid : ℕ

-- `slowpath` is an integer of which the code only tests whether it is 0.
pub record PrepareOkMessage : Type 0 where
  pub view : ℕ
  pub opnum : ℕ
  pub replica_idx : ℕ
  pub req : Request
  pub slowpath : Bool

-- PrepareMessage and CommitMessage have the same fields.
pub record ProposalMessage : Type 0 where
  pub view : ℕ
  pub opnum : ℕ
  pub req : Request

pub record RequestStateTransferMessage : Type 0 where
  pub view : ℕ
  pub opnum : ℕ

pub record StateTransferMessage : Type 0 where
  pub view : ℕ
  pub opnum : ℕ
  pub entries : List EntryMessage
  pub lastop : ℕ

-- What the transport carries, by its type's name.
pub data Message : Type 0 where
  request_message : Request → Message
  reply_message : ReplyMessage → Message
  unlogged_request_message : Request → Message
  unlogged_reply_message : Bytes → Message
  prepare_message : ProposalMessage → Message
  prepare_ok_message : PrepareOkMessage → Message
  commit_message : ProposalMessage → Message
  request_state_transfer_message : RequestStateTransferMessage → Message
  state_transfer_message : StateTransferMessage → Message
