-- ===== src/Nistore.antt =====
-- nistore/: the transactional key-value stores that the protocols replicate.
pub mod Versions
pub mod Reads
pub mod Locks
pub mod Locking
pub mod Occ
pub mod Commit
pub mod Isolation
pub mod Operations
pub mod Undo
pub mod KvStore
pub mod LockStore
pub mod LockCommit
pub mod LockUndo
mod LockStoreTests
mod Tests
mod LockTests
