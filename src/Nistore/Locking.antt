-- ===== src/Nistore/Locking.antt =====
-- The lock server of nistore/lockserver.cc: who can hold a lock at the same time.
use specpaxos.Base.{
  ℕ, ◌⊎◌, ◌≤◌, ◌≡◌, refl, Bool, true, false, none, some, List, [], ◌∷◌, Result, ok, ◌>>=◌,
  if◌then◌else◌, length, add64, sub64, arith, subst, inl, inr, Option-cases, Bool-cases, >>=-eq-ok,
  ok-injective,
}
use specpaxos.Base.Dictionary.{Bytes, Dictionary, bytes_eq, find_key, set_key, find_key-set_key}
use specpaxos.Nistore.Locks.{
  Time, Lock, LockState, LockServer, new_lock, unlocked, locked_for_read, locked_for_write,
  locked_for_read_write, try_acquire_lock, is_write_next, wait_for_lock, lock_for_read,
  lock_for_write, release_for_read, release_for_write, holds,
}

-- The calls of the server, each with what it reads from the clock: before the queue is pruned, and
-- for a new waiter.
pub data Call : Type 0 where
  lock_read lock_write : Bytes → ℕ → Time → Time → Call
  release_read release_write : Bytes → ℕ → Call

abbrev pub lock_of : Bytes → LockServer → Lock
lock_of key s = elim (find_key key s.locks) [ none ↦ new_lock | some l ↦ l ]

unfoldable pub serve : Call → LockServer → Result LockServer
serve (lock_read key requester now clock) s = do
  (l, granted, more) ← lock_for_read now clock requester (lock_of key s)
  ok (record s {
    locks = set_key key l s.locks;
    readers = if more then add64 s.readers 1 else s.readers;
  })
serve (lock_write key requester now clock) s = do
  (l, granted, more) ← lock_for_write now clock requester (lock_of key s)
  ok (record s {
    locks = set_key key l s.locks;
    writers = if more then add64 s.writers 1 else s.writers;
  })
serve (release_read key holder) s = elim (find_key key s.locks) [
  | none ↦ ok s
  | some l ↦ do
    (l', fewer) ← release_for_read holder l
    ok (record s {
      locks = set_key key l' s.locks;
      readers = if fewer then sub64 s.readers 1 else s.readers;
    })
]
serve (release_write key holder) s = elim (find_key key s.locks) [
  | none ↦ ok s
  | some l ↦ do
    (l', fewer) ← release_for_write holder l
    ok (record s {
      locks = set_key key l' s.locks;
      writers = if fewer then sub64 s.writers 1 else s.writers;
    })
]

unfoldable pub serve_all : List Call → LockServer → Result LockServer
unfolding serve
serve_all [] s = ok s
serve_all (c ∷ cs) s = do s' ← serve c s; serve_all cs s'

-- An unlocked lock has no holder, a lock that is read has some, and a lock that is written exactly one.
abbrev pub IsExclusive : Lock → Type 0
IsExclusive l =
    (l.state ≡ unlocked → length l.holders ≡ 0)
    × (l.state ≡ locked_for_read → 1 ≤ length l.holders)
    × (l.state ≡ locked_for_write → length l.holders ≡ 1)
    × (l.state ≡ locked_for_read_write → length l.holders ≡ 1)

abbrev pub AllExclusive : LockServer → Type 0
AllExclusive s = (key : Bytes) (l : Lock) → find_key key s.locks ≡ some l → IsExclusive l

-- What changes the queue only.
abbrev SameHolders : Lock → Lock → Type 0
SameHolders l l' = (l'.state ≡ l.state) × (l'.holders ≡ l.holders)

wait_for_lock-SameHolders :
    (clock : Time) (r : ℕ) (w : Bool) (l : Lock) → SameHolders l (wait_for_lock clock r w l)
unfolding wait_for_lock
wait_for_lock-SameHolders clock r w l = (ground arith, ground arith)

try_acquire_lock-SameHolders :
    (now clock : Time) (r : ℕ) (w g : Bool) (l l' : Lock)
    → try_acquire_lock now clock r w l ≡ ok (l', g)
    → SameHolders l l'
unfolding try_acquire_lock wait_for_lock
try_acquire_lock-SameHolders now clock r w g l l' e = (ground arith, ground arith)

is_write_next-SameHolders :
    (now : Time) (g : Bool) (l l' : Lock) → is_write_next now l ≡ ok (l', g) → SameHolders l l'
unfolding is_write_next
is_write_next-SameHolders now g l l' e = (ground arith, ground arith)

release_for_read-IsExclusive :
    (holder : ℕ) (b : Bool) (l l' : Lock)
    → IsExclusive l
    → release_for_read holder l ≡ ok (l', b)
    → IsExclusive l'
unfolding release_for_read
release_for_read-IsExclusive holder b l l' h e = ground arith

release_for_write-IsExclusive :
    (holder : ℕ) (b : Bool) (l l' : Lock)
    → IsExclusive l
    → release_for_write holder l ≡ ok (l', b)
    → IsExclusive l'
unfolding release_for_write
release_for_write-IsExclusive holder b l l' h e = ground arith

state-cases :
    (st : LockState)
    → (st ≡ unlocked)
      ⊎ (st ≡ locked_for_read)
      ⊎ ((st ≡ locked_for_write) ⊎ (st ≡ locked_for_read_write))
state-cases unlocked = inl refl
state-cases locked_for_read = inr (inl refl)
state-cases locked_for_write = inr (inr (inl refl))
state-cases locked_for_read_write = inr (inr (inr refl))

lock_for_read-IsExclusive :
    (now clock : Time) (r : ℕ) (g b : Bool) (l l' : Lock)
    → IsExclusive l
    → lock_for_read now clock r l ≡ ok (l', g, b)
    → IsExclusive l'
unfolding lock_for_read
lock_for_read-IsExclusive now clock r g b l l' h e = elim (state-cases l.state) [
  | inl free ↦
      let ((k, granted), first, rest) =
        >>=-eq-ok (try_acquire_lock now clock r false l) _ (rw (free, lock_for_read) at e) in
      ground (arith, try_acquire_lock-SameHolders now clock r false granted l k first)
  | inr (inl shared) ↦ elim (Bool-cases (holds r l.holders)) [
    | inl held ↦ ground arith
    | inr other ↦
        let ((k, next), first, rest) =
          >>=-eq-ok (is_write_next now l) _ (rw (shared, other, lock_for_read) at e) in
        ground (
          arith,
          is_write_next-SameHolders now next l k first,
          wait_for_lock-SameHolders clock r false k,
        )
  ]
  | inr (inr busy) ↦ ground (arith, wait_for_lock-SameHolders clock r false l)
]

lock_for_write-IsExclusive :
    (now clock : Time) (r : ℕ) (g b : Bool) (l l' : Lock)
    → IsExclusive l
    → lock_for_write now clock r l ≡ ok (l', g, b)
    → IsExclusive l'
unfolding lock_for_write
lock_for_write-IsExclusive now clock r g b l l' h e = elim (state-cases l.state) [
  | inl free ↦
      let ((k, granted), first, rest) =
        >>=-eq-ok (try_acquire_lock now clock r true l) _ (rw (free, lock_for_write) at e) in
      ground (arith, try_acquire_lock-SameHolders now clock r true granted l k first)
  | inr (inl shared) ↦ ground (arith, wait_for_lock-SameHolders clock r true l)
  | inr (inr busy) ↦ ground (arith, wait_for_lock-SameHolders clock r true l)
]

set_key-AllExclusive :
    (key : Bytes) (l : Lock) (d : Dictionary Lock)
    → ((k : Bytes) (x : Lock) → find_key k d ≡ some x → IsExclusive x)
    → IsExclusive l
    → (k : Bytes) (x : Lock) → find_key k (set_key key l d) ≡ some x
    → IsExclusive x
set_key-AllExclusive key l d h good k x e = elim (Bool-cases (bytes_eq key k)) [
  | inl same ↦
      let eq : l ≡ x = ground (arith, find_key-set_key key k l d) in subst IsExclusive eq good
  | inr other ↦ h k x (ground (arith, find_key-set_key key k l d))
]

lock_of-IsExclusive : (key : Bytes) (s : LockServer) → AllExclusive s → IsExclusive (lock_of key s)
lock_of-IsExclusive key s h = elim (Option-cases (find_key key s.locks)) [
  | inl missing ↦
      let same : new_lock ≡ lock_of key s = ground arith in subst IsExclusive same (ground arith)
  | inr (l, here) ↦
      let same : l ≡ lock_of key s = ground arith in subst IsExclusive same (h key l here)
]

serve-AllExclusive :
    (c : Call) (s s' : LockServer) → AllExclusive s → serve c s ≡ ok s' → AllExclusive s'
unfolding serve
serve-AllExclusive (lock_read key r now clock) s s' h e =
    let ((l, g, b), first, rest) = >>=-eq-ok (lock_for_read now clock r (lock_of key s)) _ e in
    subst AllExclusive (ok-injective rest) (
      set_key-AllExclusive key l s.locks h
        (lock_for_read-IsExclusive now clock r g b _ l (lock_of-IsExclusive key s h) first))
serve-AllExclusive (lock_write key r now clock) s s' h e =
    let ((l, g, b), first, rest) = >>=-eq-ok (lock_for_write now clock r (lock_of key s)) _ e in
    subst AllExclusive (ok-injective rest) (
      set_key-AllExclusive key l s.locks h
        (lock_for_write-IsExclusive now clock r g b _ l (lock_of-IsExclusive key s h) first))
serve-AllExclusive (release_read key holder) s s' h e = elim (Option-cases (find_key key s.locks)) [
  | inl missing ↦ let same : s ≡ s' = ground arith in subst AllExclusive same h
  | inr (l, here) ↦
      let ((k, b), first, rest) = >>=-eq-ok (release_for_read holder l) _ (rw (here, serve) at e) in
      subst AllExclusive (ok-injective rest) (
        set_key-AllExclusive key k s.locks h
          (release_for_read-IsExclusive holder b l k (h key l here) first))
]
serve-AllExclusive (release_write key holder) s s' h e =
    elim (Option-cases (find_key key s.locks)) [
      | inl missing ↦ let same : s ≡ s' = ground arith in subst AllExclusive same h
      | inr (l, here) ↦
          let ((k, b), first, rest) =
            >>=-eq-ok (release_for_write holder l) _ (rw (here, serve) at e) in
          subst AllExclusive (ok-injective rest) (
            set_key-AllExclusive key k s.locks h
              (release_for_write-IsExclusive holder b l k (h key l here) first))
    ]

-- After any calls of the lock server that do not fail a check, if it held before: no lock that is
-- unlocked has a holder, each that is locked for read has at least one, and each that is locked for
-- write, or for read and write, has exactly one.
pub serve_all-AllExclusive :
    (cs : List Call) (s s' : LockServer) → AllExclusive s → serve_all cs s ≡ ok s' → AllExclusive s'
unfolding serve_all
serve_all-AllExclusive [] s s' h e = subst AllExclusive (ok-injective e) h
serve_all-AllExclusive (c ∷ cs) s s' h e =
    let (k, first, rest) = >>=-eq-ok (serve c s) _ e in
    serve_all-AllExclusive cs k s' (serve-AllExclusive c s k h first) rest
