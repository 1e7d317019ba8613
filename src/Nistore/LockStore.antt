-- ===== src/Nistore/LockStore.antt =====
-- nistore/lockstore.h and nistore/lockstore.cc: transactions with locks, up to the reads and writes and
-- the undoing of them. The commits are in Nistore/LockCommit.antt.
use specpaxos.Base.{
  ℕ, ◌-◌, Bool, true, false, none, not, some, List, [], ◌∷◌, ◌++◌, Result, ok, err, panicked, ◌>>=◌,
  ◌>>◌, assert, deref, ltb, ◌==◌, if◌then◌else◌, length, take, last?,
}
use specpaxos.Base.Map.{Map, lookup, insert, erase}
use specpaxos.Base.Dictionary.{Bytes, Dictionary, bytes_eq, find_key, set_key, erase_key}
use specpaxos.Nistore.Locks.{Time, LockServer, lock_for_read, lock_for_write}
use specpaxos.Nistore.Locking.{
  Call, lock_read, lock_write, release_read, release_write, serve, lock_of,
}
use specpaxos.Nistore.KvStore.{KvStore, get_latest, values_of}
use specpaxos.Nistore.Occ.{RetiredState, increment}

-- The keys read, each with the number of times, and the keys written, each with the values.
pub record Transaction : Type 0 where
  pub id : ℕ
  pub read_set : Dictionary ℕ
  pub write_set : Dictionary (List Bytes)

pub record RetiredTxn : Type 0 where
  pub txn : Transaction
  pub state : RetiredState

-- `retired` has the oldest first.
pub record LockStore : Type 0 where
  pub store : KvStore
  pub locks : LockServer
  pub running : Map Transaction
  pub prepared : Map Transaction
  pub retired : List (ℕ × RetiredTxn)

-- The result of get: 0, -1 for a key that is not there, or -2 for a lock that is not granted. With 0 and
-- with -2 the caller's string has the value.
pub data Found : Type 0 where
  found refused : Bytes → Found
  missing : Found

-- What a request for a lock reads from the clock: before the queue is pruned, and for a new waiter.
abbrev pub Reading : Type 0
Reading = Time × Time

abbrev pub new_transaction : ℕ → Transaction
new_transaction id = record { id = id; read_set = []; write_set = [] }

-- running[id] = txn, which is also what a change through getTxn's reference does.
unfoldable pub set_running : Transaction → ℕ → LockStore → LockStore
set_running txn id s = record s { running = insert id txn s.running }

-- getTxn: the running transaction, a new one if there is none.
unfoldable pub get_txn : ℕ → LockStore → Result (Transaction × LockStore)
unfolding set_running
get_txn id s = elim (lookup id s.running) [
  | none ↦ ok (new_transaction id, set_running (new_transaction id) id s)
  | some txn ↦ do assert (txn.id == id); ok (txn, s)
]

-- locks.lockForRead(key, id)
unfoldable pub take_read : Reading → Bytes → ℕ → LockStore → Result (LockStore × Bool)
take_read (now, clock) key id s = do
  (l, granted, more) ← lock_for_read now clock id (lock_of key s.locks)
  locks ← serve (lock_read key id now clock) s.locks
  ok (record s { locks = locks }, granted)

-- locks.lockForWrite(key, id)
unfoldable pub take_write : Reading → Bytes → ℕ → LockStore → Result (LockStore × Bool)
take_write (now, clock) key id s = do
  (l, granted, more) ← lock_for_write now clock id (lock_of key s.locks)
  locks ← serve (lock_write key id now clock) s.locks
  ok (record s { locks = locks }, granted)

-- locks.releaseForRead(key, id), or for write.
unfoldable pub release : Call → LockStore → Result LockStore
release call s = do locks ← serve call s.locks; ok (record s { locks = locks })

unfoldable pub begin : ℕ → LockStore → LockStore
unfolding set_running
begin id s = set_running (new_transaction id) id s

unfoldable pub unbegin : ℕ → LockStore → LockStore
unbegin id s = record s { running = erase id s.running }

-- A key that the transaction has not written and that the store has.
unfoldable pub read_stored :
    Reading → ℕ → Bytes → Bytes → Transaction → LockStore → Result (LockStore × Found)
unfolding increment set_running take_read
read_stored reading id key value txn s = elim (find_key key txn.read_set) [
  | some times ↦ do
    more ← increment times
    ok (set_running (record txn { read_set = set_key key more txn.read_set }) id s, found value)
  | none ↦ do
    (s', granted) ← take_read reading key id s
    let txn' : Transaction = record txn { read_set = set_key key 1 txn.read_set }
    if granted then ok (set_running txn' id s', found value) else ok (s', refused value)
]

-- get: the last own write of the key, if there is one.
unfoldable pub get_value : Reading → ℕ → Bytes → LockStore → Result (LockStore × Found)
unfolding get_txn read_stored get_latest
get_value reading id key s = do
  (txn, s') ← get_txn id s
  elim (find_key key txn.write_set) [
    | some values ↦ do value ← deref (last? values); ok (s', found value)
    | none ↦ elim (get_latest key s'.store) [
      | none ↦ ok (s', missing)
      | some value ↦ read_stored reading id key value txn s'
    ]
  ]

-- unget: one read of the key less, and without the lock when it was the only one.
unfoldable pub unget : ℕ → Bytes → LockStore → Result LockStore
unfolding set_running release
unget id key s = elim (lookup id s.running) [
  | none ↦ err panicked
  | some txn ↦ elim (find_key key txn.read_set) [
    | none ↦ ok s
    | some times ↦
        let fewer = set_key key (times - 1) txn.read_set in
        let gone = erase_key key txn.read_set in
        if ltb 1 times
        then ok (set_running (record txn { read_set = fewer }) id s)
        else release (release_read key id) (set_running (record txn { read_set = gone }) id s)
  ]
]

-- put: the write is recorded in the transaction when the lock is granted.
unfoldable pub put_value : Reading → ℕ → Bytes → Bytes → LockStore → Result (LockStore × Bool)
unfolding get_txn set_running take_write values_of
put_value reading id key value s = do
  (txn, s') ← get_txn id s
  (s'', granted) ← take_write reading key id s'
  let values : List Bytes = values_of key txn.write_set ++ value ∷ []
  let txn' : Transaction = record txn { write_set = set_key key values txn.write_set }
  if granted then ok (set_running txn' id s'', true) else ok (s'', false)

-- unput: the last write of the key is taken back. The list stays in the map when it is empty.
unfoldable pub unput : ℕ → Bytes → Bytes → LockStore → Result LockStore
unfolding set_running release
unput id key value s = elim (lookup id s.running) [
  | none ↦ err panicked
  | some txn ↦ elim (find_key key txn.write_set) [
    | none ↦ err panicked
    | some values ↦ do
      newest ← deref (last? values)
      let fewer = take (length values - 1) values
      let txn' : Transaction = record txn { write_set = set_key key fewer txn.write_set }
      let s' : LockStore = set_running txn' id s
      if not (bytes_eq newest value)
          then err panicked
          else if length fewer == 0
          then release (release_write key id) s'
          else ok s'
  ]
]
