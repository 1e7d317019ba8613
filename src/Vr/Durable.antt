-- ===== src/Vr/Durable.antt =====
-- What a replica of vr/replica.cc has committed: the relation between two states, and how it
-- composes. The children go through the code.
mod Actions
mod Normal
mod Transfer
mod ViewChange
mod Recovery
pub mod Events
use specpaxos.Log.Progress.{Progress, Extends}
use specpaxos.Vr.State.{VrReplica}

abbrev pub progress : {A : Type 0} → VrReplica A → Progress
progress s = record { log = s.log; committed = s.last_committed }

-- A state whose progress extends `p`.
abbrev pub From : {A : Type 0} → Progress → VrReplica A → Type 0
From p s = Extends p (progress s)
