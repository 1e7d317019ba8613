-- ===== src/Vr.antt =====
-- vr/replica.h, vr/replica.cc: Viewstamped Replication. The children hold the messages, the state,
-- the handlers by their part of the protocol, and what is proved of them.
pub mod Messages
pub mod State
pub mod Actions
pub mod Normal
pub mod Transfer
pub mod ViewChange
pub mod Recovery
pub mod Receive
pub mod Durable
pub mod Execute
pub mod Requests
pub mod Client
pub mod ClientRuns
pub mod ClientRetry
mod ClientTests
mod Tests
