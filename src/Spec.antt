-- ===== src/Spec.antt =====
-- spec/replica.h, spec/replica.cc: Speculative Paxos. The children hold the messages, the state, the
-- handlers by their part of the protocol, and what is proved of them.
pub mod Messages
pub mod State
pub mod Actions
pub mod Requests
pub mod Sync
pub mod Merge
pub mod MergeChecks
pub mod Install
pub mod ViewChange
pub mod NewView
pub mod Receive
pub mod Durable
pub mod Client
pub mod ClientQuorum
mod ClientTests
mod Tests
pub mod Commit
pub mod Votes
pub mod Senders
pub mod Agreement
pub mod LastEntry
pub mod Rollback
