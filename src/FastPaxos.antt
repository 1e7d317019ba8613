-- ===== src/FastPaxos.antt =====
-- fastpaxos/replica.h, fastpaxos/replica.cc: Fast Paxos. The children hold the messages, the state, the
-- handlers, and what is proved of them.
pub mod Messages
pub mod State
pub mod Actions
pub mod Normal
pub mod Transfer
pub mod Receive
pub mod Durable
pub mod Agreement
mod Tests
