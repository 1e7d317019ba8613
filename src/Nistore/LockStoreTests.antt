-- ===== src/Nistore/LockStoreTests.antt =====
-- Runs of the store with locks of nistore/lockstore.cc.
use specpaxos.Base.{
  ℕ, ◌≡◌, refl, true, false, some, List, [], ◌∷◌, ok, err, assertion, ◌>>=◌, last?, arith, Result,
  add64, sub64,
}
use specpaxos.Base.Map.{lookup, insert, erase}
use specpaxos.Base.Dictionary.{Bytes, bytes_eq, bytes_lt, find_key, set_key, erase_key}
use specpaxos.Nistore.Locks.{
  LockServer, Lock, locked_for_write, prune, check_timeout, try_acquire_lock, is_write_next,
  wait_for_lock, lock_for_read, lock_for_write, release_for_read, release_for_write, remove_holder,
  holds,
}
use specpaxos.Nistore.Locking.{serve}
use specpaxos.Nistore.Occ.{increment, same_state, committed}
use specpaxos.Nistore.KvStore.{get_latest, put_latest, remove_latest, values_of}
use specpaxos.Nistore.LockStore.{
  Reading, Transaction, LockStore, Found, found, begin, unbegin, get_txn, set_running, take_read,
  take_write, release, read_stored, get_value, unget, put_value, unput,
}
use specpaxos.Nistore.LockCommit.{
  get_retired_txn, drop_write_locks, drop_read_locks, drop_locks, get_write_locks, get_read_locks,
  get_locks, prepare, unprepare, put_writes, remove_writes, retire, commit, uncommit, abort_txn,
  unabort, drop_retired, spec_commit,
}
use specpaxos.Nistore.LockUndo.{unprepare-prepare_locks, uncommit-commit_empty}

abbrev no_locks : LockServer
no_locks = record { locks = []; readers = 0; writers = 0 }

abbrev first_store : LockStore
first_store = record {
  store = record { store = (7 ∷ [], (1 ∷ []) ∷ []) ∷ [] };
  locks = no_locks;
  running = [];
  prepared = [];
  retired = [];
}

abbrev reading : ℕ → Reading
reading n = (record { tv_sec = n; tv_usec = 0 }, record { tv_sec = n; tv_usec = 0 })

unfoldable lock_store_path : Unit {0}
unfolding serve lock_for_read lock_for_write release_for_read release_for_write prune check_timeout
    try_acquire_lock is_write_next wait_for_lock remove_holder holds lookup insert erase find_key
    set_key erase_key bytes_eq bytes_lt add64 sub64 increment same_state get_latest put_latest
    remove_latest values_of begin unbegin get_txn set_running take_read take_write release
    read_stored get_value unget put_value unput get_retired_txn drop_write_locks drop_read_locks
    drop_locks get_write_locks get_read_locks get_locks prepare unprepare put_writes remove_writes
    retire commit uncommit abort_txn unabort drop_retired spec_commit
lock_store_path = tt

-- Transaction 4 reads the key, writes it, reads its own write, and is committed: another can read the
-- new value then.
unfoldable read_and_write : Result (LockStore × List Found)
unfolding lock_store_path
read_and_write = do
  (s1, before) ← get_value (reading 1) 4 (7 ∷ []) first_store
  (s2, granted) ← put_value (reading 2) 4 (7 ∷ []) (9 ∷ []) s1
  (s3, own) ← get_value (reading 3) 4 (7 ∷ []) s2
  let (s4, prepared) = prepare 4 s3
  s5 ← commit 4 1 s4
  (s6, after) ← get_value (reading 5) 5 (7 ∷ []) s5
  ok (s5, before ∷ own ∷ after ∷ [])

read_and_write_values :
    (do (s, values) ← read_and_write; ok values)
    ≡ ok (found (1 ∷ []) ∷ found (9 ∷ []) ∷ found (9 ∷ []) ∷ [])
unfolding read_and_write lock_store_path
read_and_write_values = refl

-- The commit of that transaction cannot be taken back: the assertion on the removed value fails.
uncommit_fails : (do (s, values) ← read_and_write; uncommit reading 4 1 s) ≡ err assertion
unfolding read_and_write lock_store_path
uncommit_fails = refl

-- An abort gives the locks back, and unabort takes them again.
abort_and_back :
    (do
      (s, granted) ← put_value (reading 1) 4 (7 ∷ []) (9 ∷ []) first_store
      s' ← abort_txn 4 2 s
      s'' ← unabort reading 4 2 s'
      (s''', other) ← put_value (reading 5) 5 (7 ∷ []) (8 ∷ []) s''
      ok other)
    ≡ ok false
unfolding lock_store_path
abort_and_back = refl

abbrev fourth : Transaction
fourth = record { id = 4; read_set = []; write_set = (8 ∷ [], [] ∷ []) ∷ [] }

-- A transaction that writes an empty value to a new key.
abbrev empty_write : LockStore
empty_write = record first_store { running = (4, fourth) ∷ [] }

abbrev empty_prepared : LockStore
empty_prepared = record first_store { prepared = (4, fourth) ∷ [] }

unprepare-prepare_locks_example : (true ≡ true) × (unprepare 4 1 empty_prepared ≡ ok empty_write)
unfolding lock_store_path
unprepare-prepare_locks_example =
    unprepare-prepare_locks 4 1 fourth empty_write empty_prepared true (ground arith) refl refl refl

abbrev empty_committed : LockStore
empty_committed = record empty_prepared {
  store = put_latest (8 ∷ []) [] first_store.store;
  prepared = [];
  retired = (1, record { txn = fourth; state = committed }) ∷ [];
}

abbrev written : Lock
written = record { state = locked_for_write; holders = 4 ∷ []; wait_q = []; waiters = [] }

abbrev empty_uncommitted : LockStore
empty_uncommitted = record empty_prepared {
  store = record { store = (7 ∷ [], (1 ∷ []) ∷ []) ∷ (8 ∷ [], []) ∷ [] };
  locks = record { locks = (8 ∷ [], written) ∷ []; readers = 0; writers = 1 };
}

abbrev empty_value : List Bytes
empty_value = [] ∷ []

uncommit-commit_empty_example : last? empty_value ≡ some []
unfolding lock_store_path
uncommit-commit_empty_example =
    uncommit-commit_empty reading 4 1 fourth empty_prepared empty_committed empty_uncommitted
      (8 ∷ []) empty_value refl refl refl refl
