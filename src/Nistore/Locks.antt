-- ===== src/Nistore/Locks.antt =====
-- nistore/lockserver.h and nistore/lockserver.cc: read and write locks with queues of waiters.
use specpaxos.Base.{
  ℕ, ◌-◌, Bool, true, false, not, ◌&&◌, ◌||◌, none, some, List, [], ◌∷◌, ◌++◌, Result, ok, err,
  assertion, ◌>>=◌, ◌>>◌, assert, deref, ltb, ◌==◌, if◌then◌else◌, length,
}
use specpaxos.Base.Map.{Map, lookup, insert, erase}
use specpaxos.Base.Dictionary.{Dictionary}

-- struct timeval
pub record Time : Type 0 where
  pub tv_sec : ℕ
  pub tv_usec : ℕ

pub record Waiter : Type 0 where
  pub write : Bool
  pub wait_time : Time

pub data LockState : Type 0 where
  unlocked locked_for_read locked_for_write locked_for_read_write : LockState

-- `wait_q` has the front of the queue first.
pub record Lock : Type 0 where
  pub state : LockState
  pub holders : List ℕ
  pub wait_q : List ℕ
  pub waiters : Map Waiter

pub record LockServer : Type 0 where
  pub locks : Dictionary Lock
  pub readers : ℕ
  pub writers : ℕ

abbrev pub new_lock : Lock
new_lock = record { state = unlocked; holders = []; wait_q = []; waiters = [] }

abbrev pub lock_wait_timeout : ℕ
lock_wait_timeout = 5000

-- Membership in a std::unordered_set.
unfoldable pub holds : ℕ → List ℕ → Bool
holds x [] = false
holds x (y ∷ ys) = x == y || holds x ys

unfoldable pub remove_holder : ℕ → List ℕ → List ℕ
remove_holder x [] = []
remove_holder x (y ∷ ys) = if x == y then ys else y ∷ remove_holder x ys

abbrev pub is_waiting : ℕ → Map Waiter → Bool
is_waiting requester waiters = elim (lookup requester waiters) [ none ↦ false | some w ↦ true ]

-- checkTimeout
unfoldable pub check_timeout : Time → Waiter → Result Bool
check_timeout now w = if ltb w.wait_time.tv_sec now.tv_sec then ok true else do
  assert (ltb w.wait_time.tv_usec now.tv_usec && now.tv_sec == w.wait_time.tv_sec)
  ok (ltb lock_wait_timeout (now.tv_usec - w.wait_time.tv_usec))

-- waitForLock, at the time that the new waiter reads from the clock.
unfoldable pub wait_for_lock : Time → ℕ → Bool → Lock → Lock
wait_for_lock clock requester write l = if is_waiting requester l.waiters then l else record l {
  waiters = insert requester (record { write = write; wait_time = clock }) l.waiters;
  wait_q = l.wait_q ++ requester ∷ [];
}

-- The loops that prune old requests out of the queue. A default waiter has no time yet.
unfoldable pub prune : Time → List ℕ → Map Waiter → Result (List ℕ × Map Waiter)
unfolding check_timeout
prune now [] waiters = ok ([], waiters)
prune now (w ∷ q) waiters = do
  let rest = prune now q (erase w waiters)
  waiter ← deref (lookup w waiters)
  old ← check_timeout now waiter
  if old
      then (do assert (elim q [ [] ↦ true | next ∷ q' ↦ is_waiting next (erase w waiters) ]); rest)
      else ok (w ∷ q, waiters)

-- tryAcquireLock
unfoldable pub try_acquire_lock : Time → Time → ℕ → Bool → Lock → Result (Lock × Bool)
unfolding prune wait_for_lock
try_acquire_lock now clock requester write l = do
  (q, waiters) ← prune now l.wait_q l.waiters
  let l' : Lock = record l { wait_q = q; waiters = waiters }
  elim q [
    | [] ↦ ok (l', true)
    | first ∷ later ↦
        if first == requester
        then (do
          w ← elim (lookup requester waiters) [ none ↦ err assertion | some w ↦ ok w ]
          assert (if w.write then write else not write)
          ok (record l' { wait_q = later; waiters = erase requester waiters }, true))
        else ok (wait_for_lock clock requester write l', false)
  ]

-- isWriteNext
unfoldable pub is_write_next : Time → Lock → Result (Lock × Bool)
unfolding prune
is_write_next now l = do
  (q, waiters) ← prune now l.wait_q l.waiters
  let l' : Lock = record l { wait_q = q; waiters = waiters }
  elim q [
    | [] ↦ ok (l', false)
    | first ∷ later ↦ do
      w ← elim (lookup first waiters) [ none ↦ err assertion | some w ↦ ok w ]
      ok (l', w.write)
  ]

-- lockForRead on the lock itself: the lock, whether it was granted, and whether that adds a reader.
unfoldable pub lock_for_read : Time → Time → ℕ → Lock → Result (Lock × Bool × Bool)
unfolding try_acquire_lock is_write_next wait_for_lock holds
lock_for_read now clock requester l = elim l.state [
  | unlocked ↦ do
    (l', granted) ← try_acquire_lock now clock requester false l
    if granted
        then (do
          assert (length l'.holders == 0)
          ok (record l' { state = locked_for_read; holders = requester ∷ l'.holders }, true, true))
        else ok (l', false, false)
  | locked_for_read ↦ if holds requester l.holders then ok (l, true, false) else do
    (l', write_next) ← is_write_next now l
    if write_next
        then ok (wait_for_lock clock requester false l', false, false)
        else ok (record l' { holders = requester ∷ l'.holders }, true, true)
  | _ ↦
      if holds requester l.holders
      then ok (record l { state = locked_for_read_write }, true, true)
      else (do
        assert (length l.holders == 1)
        ok (wait_for_lock clock requester false l, false, false))
]

-- lockForWrite on the lock itself.
unfoldable pub lock_for_write : Time → Time → ℕ → Lock → Result (Lock × Bool × Bool)
unfolding try_acquire_lock wait_for_lock holds
lock_for_write now clock requester l = elim l.state [
  | unlocked ↦ do
    (l', granted) ← try_acquire_lock now clock requester true l
    if granted
        then (do
          assert (length l'.holders == 0)
          ok (record l' { state = locked_for_write; holders = requester ∷ l'.holders }, true, true))
        else ok (l', false, false)
  | locked_for_read ↦
      if length l.holders == 1 && holds requester l.holders
      then ok (record l { state = locked_for_read_write }, true, true)
      else ok (wait_for_lock clock requester true l, false, false)
  | _ ↦ do
    assert (length l.holders == 1)
    if holds requester l.holders
        then ok (l, true, false)
        else ok (wait_for_lock clock requester true l, false, false)
]

-- releaseForRead on the lock itself, and whether that takes a reader away.
unfoldable pub release_for_read : ℕ → Lock → Result (Lock × Bool)
unfolding holds remove_holder
release_for_read holder l = if not (holds holder l.holders) then ok (l, false) else elim l.state [
  | locked_for_read ↦
      let rest = remove_holder holder l.holders in
      let next : LockState = if length rest == 0 then unlocked else locked_for_read in
      ok (record l { holders = rest; state = next }, true)
  | locked_for_read_write ↦ ok (record l { state = locked_for_write }, true)
  | _ ↦ ok (l, false)
]

-- releaseForWrite on the lock itself.
unfoldable pub release_for_write : ℕ → Lock → Result (Lock × Bool)
unfolding holds remove_holder
release_for_write holder l = if not (holds holder l.holders) then ok (l, false) else elim l.state [
  | locked_for_write ↦ do
    let rest = remove_holder holder l.holders
    assert (length rest == 0)
    ok (record l { holders = rest; state = unlocked }, true)
  | locked_for_read_write ↦ do
    assert (length l.holders == 1)
    ok (record l { state = locked_for_read }, true)
  | _ ↦ ok (l, false)
]
