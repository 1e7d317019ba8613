-- ===== src/Nistore/LockTests.antt =====
-- A run of the lock server of nistore/lockserver.cc.
use specpaxos.Base.{ℕ, ◌≡◌, refl, List, [], ◌∷◌, ok, add64, sub64}
use specpaxos.Base.Map.{lookup, insert, erase}
use specpaxos.Base.Dictionary.{bytes_eq, bytes_lt, find_key, set_key}
use specpaxos.Nistore.Locks.{
  Time, Lock, LockServer, locked_for_write, prune, check_timeout, try_acquire_lock, is_write_next,
  wait_for_lock, lock_for_read, lock_for_write, release_for_read, release_for_write, remove_holder,
  holds,
}
use specpaxos.Nistore.Locking.{
  Call, lock_read, lock_write, release_read, serve, serve_all, AllExclusive, serve_all-AllExclusive,
}

abbrev no_locks : LockServer
no_locks = record { locks = []; readers = 0; writers = 0 }

abbrev second : ℕ → Time
second n = record { tv_sec = n; tv_usec = 0 }

-- Clients 1 and 2 read, client 3 waits to write, and gets the lock when both have released it.
abbrev calls : List Call
calls =
    lock_read [] 1 (second 1) (second 1)
    ∷ lock_read [] 2 (second 1) (second 1)
    ∷ lock_write [] 3 (second 1) (second 9)
    ∷ release_read [] 1
    ∷ release_read [] 2
    ∷ lock_write [] 3 (record { tv_sec = 9; tv_usec = 1 }) (second 9)
    ∷ []

unfoldable lock_path : Unit {0}
unfolding serve_all serve lock_for_read lock_for_write release_for_read release_for_write prune
    check_timeout try_acquire_lock is_write_next wait_for_lock remove_holder holds lookup insert
    erase find_key set_key bytes_eq bytes_lt add64 sub64
lock_path = tt

abbrev written : Lock
written = record { state = locked_for_write; holders = 3 ∷ []; wait_q = []; waiters = [] }

abbrev after_calls : LockServer
after_calls = record { locks = ([], written) ∷ []; readers = 0; writers = 1 }

calls_run : serve_all calls no_locks ≡ ok after_calls
unfolding lock_path
calls_run = refl

no_locks-AllExclusive : AllExclusive no_locks
unfolding find_key
no_locks-AllExclusive = λ key l e. absurd (cc)

serve_all-AllExclusive_example : AllExclusive after_calls
serve_all-AllExclusive_example =
    serve_all-AllExclusive calls no_locks after_calls no_locks-AllExclusive calls_run
