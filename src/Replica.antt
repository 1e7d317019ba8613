-- ===== src/Replica.antt =====
-- common/replica.h, common/replica.cc, common/replica-inl.h: what every replication protocol shares,
-- and the application that it replicates.
use specpaxos.Base.{ℕ, zero, suc, ◌-◌, ◌%◌, Bool, true, false, [], Result, ok, ◌==◌}
use specpaxos.Base.Code.{◌>>=◌, deref}
use specpaxos.Base.Map.{Map, insert}
use specpaxos.Log.{Bytes, Request, Log, find}

pub data ReplicaStatus : Type 0 where
  normal view_change recovering : ReplicaStatus

unfoldable pub is_normal : ReplicaStatus → Bool
is_normal normal = true
is_normal _ = false

unfoldable pub is_view_change : ReplicaStatus → Bool
is_view_change view_change = true
is_view_change _ = false

unfoldable pub is_recovering : ReplicaStatus → Bool
is_recovering recovering = true
is_recovering _ = false

-- The answer of LeaderUpcall: whether to replicate, the operation or the reply, and the
-- application's new state.
pub record LeaderResult (A : Type 0) : Type 0 where
  pub replicate : Bool
  pub res : Bytes
  pub app : A

-- class AppReplica: an application, whose state the upcalls change.
pub record AppReplica : Type 1 where
  pub State : Type 0
  pub leader_upcall : ℕ → Bytes → State → LeaderResult State
  pub replica_upcall : ℕ → Bytes → State → Bytes × State
  pub unlogged_upcall : Bytes → State → Bytes × State
  pub rollback_upcall : ℕ → ℕ → Map Bytes → State → State
  pub commit_upcall : ℕ → State → State

-- The application of the base class: every request is replicated, and every reply is empty.
abbrev pub null_app : AppReplica
null_app = record {
  State = Unit {0};
  leader_upcall = λ opnum op a. record { replicate = true; res = op; app = a };
  replica_upcall = λ opnum op a. ([], a);
  unlogged_upcall = λ op a. ([], a);
  rollback_upcall = λ current to reqs a. a;
  commit_upcall = λ op a. a;
}

-- Odd nodes are witnesses.
unfoldable pub is_witness : ℕ → Bool
is_witness idx = idx % 2 == 1

-- A TransportAddress, which the protocols only keep and compare by identity.
abbrev pub Address : Type 0
Address = ℕ

-- The operations that Rollback gathers, from `x` downwards, with the rounds left.
unfoldable pub rollback_requests : ℕ → ℕ → Log → Result (Map Bytes)
rollback_requests zero x log = ok []
rollback_requests (suc rounds) x log = do
  found ← find x log
  entry ← deref found
  reqs ← rollback_requests rounds (x - 1) log
  ok (insert x entry.request.op reqs)

module _ (app : AppReplica) where
  open app use {State, replica_upcall, unlogged_upcall, rollback_upcall, commit_upcall}

  -- Execute: the reply and the application's new state.
  unfoldable pub execute : ℕ → Request → State → Bytes × State
  execute opnum msg a = replica_upcall opnum msg.op a

  unfoldable pub execute_unlogged : Request → State → Bytes × State
  execute_unlogged msg a = unlogged_upcall msg.op a

  -- Rollback, from the opnum `current` back to `to`.
  unfoldable pub rollback : ℕ → ℕ → Log → State → Result State
  unfolding rollback_requests
  rollback current to log a = do
    reqs ← rollback_requests (current - to) current log
    ok (rollback_upcall current to reqs a)

  -- Commit
  unfoldable pub commit : ℕ → State → State
  commit op a = commit_upcall op a
