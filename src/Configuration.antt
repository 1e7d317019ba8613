-- ===== src/Configuration.antt =====
-- lib/configuration.h, lib/configuration.cc: the sizes of the cluster and of its quorums.
pub mod Quorums
mod Tests
use specpaxos.Base.{ℕ, ◌+◌, ◌*◌, ◌/◌, ◌%◌, ◌≤◌, ◌<◌, ◌≡◌, arith}

-- n replicas, of which f may fail. The addresses of the replicas are the transport's.
pub record Configuration : Type 0 where
  pub n : ℕ
  pub f : ℕ

unfoldable pub get_leader_index : Configuration → ℕ → ℕ
get_leader_index c view = view % c.n

unfoldable pub quorum_size : Configuration → ℕ
quorum_size c = c.f + 1

unfoldable pub fast_quorum_size : Configuration → ℕ
fast_quorum_size c = c.f + (c.f + 1) / 2 + 1
