-- ===== src/Lib.antt =====
-- A verification library for specpaxos: the shared data structures of its replication protocols
-- (common/, lib/), the replicas of Viewstamped Replication (vr/), with its client, of Speculative Paxos
-- (spec/), with its client, and of Fast Paxos (fastpaxos/), the unreplicated protocol (unreplicated/), and the
-- transactional stores with optimistic concurrency control and with locks and their lock server
-- (nistore/), as functions on state records, with theorems about them.
--
-- How the parts interact. The transport delivers messages to a replica and fires its timeouts. Each
-- handler of vr/replica.cc reads and changes the replica's state: its view and status, its log, its
-- client table and the quorum sets that collect the messages of other replicas; it sends messages,
-- and runs committed operations on the application by upcalls. A run is a list of such events. The
-- transactional store is such an application: its operations come with operations that undo them, for
-- a protocol that executes speculatively.
--
-- Files:
--   Base, Base/Lists, Base/Map, Base/Dictionary, Base/Results, Base/Code, Base/Tests: what the components
--     share: numbers and Boolean tests, lists over the native numbers, std::map as an ordered association
--     list with integer keys (Map) and with strings (Dictionary), faults as
--     results, and `Ensures`, the rules by which a property is followed through a handler.
--   Viewstamp: lib/viewstamp.h.
--   Configuration, Configuration/Quorums: lib/configuration.h and lib/configuration.cc.
--   QuorumSet, QuorumSet/Laws: common/quorumset.h.
--   Log, Log/Trim, Log/Transfer: common/log.h, common/log.cc and common/log-impl.h. Log/WellFormed,
--     Log/Stable, Log/Progress, Log/Installed, Log/Chain and Log/Collisions have the proofs.
--   Replica: common/replica.h, common/replica.cc and common/replica-inl.h.
--   Vr: vr/replica.h, vr/replica.cc and the messages of vr/vr-proto.proto. Vr/State is the class,
--     Vr/Actions the helpers from CommitUpTo to CloseBatch, Vr/Normal the handlers of requests, PREPARE,
--     PREPAREOK and COMMIT, Vr/Transfer those of state transfer, Vr/ViewChange those of the view change,
--     Vr/Recovery those of recovery, Vr/Receive ReceiveMessage and the timeouts. The handlers keep the
--     names of the C++ methods in lower case (handle_prepare is VRReplica::HandlePrepare). Vr/Durable,
--     Vr/Execute and Vr/Requests have the proofs.
--   Spec: spec/replica.h, spec/replica.cc and the messages of spec/spec-proto.proto. Spec/State is the
--     class, Spec/Actions the helpers, Spec/Requests the speculative execution of requests, Spec/Sync SYNC
--     and SYNCREPLY, Spec/Merge and Spec/MergeChecks MergeLogs, Spec/Install InstallLog, Spec/ViewChange and
--     Spec/NewView the handlers of reconciliation, Spec/Receive the constructor, ReceiveMessage and the
--     timeouts. Spec/Durable, Spec/Commit, Spec/Votes, Spec/Senders, Spec/Agreement, Spec/LastEntry and Spec/Rollback have
--     the proofs.
--   Vr/Client: vr/client.h, vr/client.cc and common/client.cc: the client. Vr/ClientRuns and
--     Vr/ClientRetry have the proofs.
--   Spec/Client: spec/client.h and spec/client.cc: the client. Spec/ClientQuorum has the proofs.
--   FastPaxos: fastpaxos/replica.h, fastpaxos/replica.cc and the messages of
--     fastpaxos/fastpaxos-proto.proto: FastPaxos/State is the class, FastPaxos/Actions the helpers,
--     FastPaxos/Normal the handlers of requests, PREPARE, PREPAREOK and COMMIT, FastPaxos/Transfer those of
--     state transfer, FastPaxos/Receive ReceiveMessage and the timeouts. FastPaxos/Durable and
--     FastPaxos/Agreement have the proofs.
--   Unreplicated: unreplicated/replica.h, unreplicated/replica.cc, unreplicated/client.h,
--     unreplicated/client.cc and their messages. Unreplicated/Calls connects the two.
--   Nistore/Versions: nistore/versionedKVStore.h and nistore/versionedKVStore.cc. Nistore/Reads has the
--     proofs.
--   Nistore/Occ, Nistore/Commit: nistore/occstore.h and nistore/occstore.cc: running transactions, and
--     how they are prepared, committed, aborted, and how that is undone. get and put of
--     OCCStore are get_value and put_value here. Nistore/Isolation, Nistore/Operations and Nistore/Undo have the proofs.
--   Nistore/Locks, Nistore/Locking: nistore/lockserver.h and nistore/lockserver.cc: the methods on one
--     lock, and the server, whose calls carry what they read from the clock.
--   Nistore/KvStore: nistore/kvstore.h and nistore/kvstore.cc; get, put and remove are get_latest,
--     put_latest and remove_latest here.
--   Nistore/LockStore, Nistore/LockCommit: nistore/lockstore.h and nistore/lockstore.cc, the store with
--     two-phase locking on the lock server. Nistore/LockUndo has the proofs.
--
-- How code becomes definitions. A method that changes its object returns the new state, a method that
-- can fail returns a `Result`: a failed ASSERT, a Panic, undefined behaviour (a null or dangling
-- pointer, front() of an empty container) and the std::length_error of a full deque are its faults, and the
-- std::bad_function_call of an empty std::function too.
-- What a replica sends stands in `sent`, the newest first; whether a send succeeds changes nothing in
-- the code but a warning. A timeout is a Boolean: whether it is running. Views and opnums are natural
-- numbers; where the code adds to or subtracts from an opnum, and where that can leave the 64 bits, the
-- wrap-around is written out (add64, sub64). A loop that counts up to a bound is structural recursion
-- on the number of its rounds, computed before the loop, which is the number the code runs as its bound
-- does not change in the loop; so no definition takes fuel. A std::deque holds at most 2 ^ 63 - 1
-- elements, so an opnum of a log that starts at 2 ^ 63 at most does not wrap around.
--
-- Parameters: the application (AppReplica: any state and upcalls), SHA1, and what a read through the
-- dangling pointer of HandleDoViewChange gives (Environment). The address of a client is a number that
-- the code only stores and passes on. A replica's nonce is an argument of the constructor.
--
-- Not modelled: the encoding of messages by protobuf (messages are values; enumerations and required
-- fields are taken as decoded), logging, latency measurement, and the transports' sockets and threads.
-- The transport calls one handler at a time, so no two handlers of a replica interleave. VR with
-- witnesses (vrw/) and the clients of fastpaxos/ and vrw/ are not modelled; these clients have the text of vr/client.cc but for names and log messages.
pub mod Base
pub mod Viewstamp
pub mod Configuration
pub mod QuorumSet
pub mod Log
pub mod Replica
pub mod Vr
pub mod Spec
pub mod FastPaxos
pub mod Unreplicated
pub mod Nistore
