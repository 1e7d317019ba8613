-- ===== src/Nistore/LockCommit.antt =====
-- nistore/lockstore.cc: how transactions prepare, commit and abort, and the undoing of that.
use specpaxos.Base.{
  panicked, ℕ, ◌+◌, ◌-◌, Bool, true, false, not, none, some, List, [], ◌∷◌, ◌++◌, Result, ok, err,
  assertion, ◌>>=◌, ◌>>◌, assert, deref, leb, ◌==◌, if◌then◌else◌, length, take, last?,
}
use specpaxos.Base.Map.{lookup, insert, erase}
use specpaxos.Base.Dictionary.{Bytes, Dictionary, bytes_eq}
use specpaxos.Nistore.Locking.{release_read, release_write}
use specpaxos.Nistore.KvStore.{KvStore, put_latest, remove_latest}
use specpaxos.Nistore.Occ.{
  RetiredState, committed, aborted_prepared, aborted_running, same_state, is_some,
}
use specpaxos.Nistore.LockStore.{
  Reading, Transaction, RetiredTxn, LockStore, set_running, take_read, take_write, release,
}

-- getRetiredTxn: the transaction that was retired last.
unfoldable pub get_retired_txn : ℕ → ℕ → RetiredState → LockStore → Result (Transaction × LockStore)
get_retired_txn op id state s = do
  (t, retired_txn) ← deref (last? s.retired)
  assert (t == op)
  assert (retired_txn.txn.id == id)
  assert (same_state retired_txn.state state)
  ok (retired_txn.txn, record s { retired = take (length s.retired - 1) s.retired })

unfoldable pub drop_write_locks : ℕ → Dictionary (List Bytes) → LockStore → Result LockStore
unfolding release
drop_write_locks id [] s = ok s
drop_write_locks id ((key, values) ∷ rest) s = do
  s' ← release (release_write key id) s
  drop_write_locks id rest s'

unfoldable pub drop_read_locks : ℕ → Dictionary ℕ → LockStore → Result LockStore
unfolding release
drop_read_locks id [] s = ok s
drop_read_locks id ((key, times) ∷ rest) s = do
  s' ← release (release_read key id) s
  drop_read_locks id rest s'

unfoldable pub drop_locks : Transaction → LockStore → Result LockStore
unfolding drop_write_locks drop_read_locks
drop_locks txn s = do
  s' ← drop_write_locks txn.id txn.write_set s
  drop_read_locks txn.id txn.read_set s'

-- The loops of getLocks. The request number `n` of a call reads `clock n`.
unfoldable pub get_write_locks :
    (ℕ → Reading) → ℕ → ℕ → Dictionary (List Bytes) → LockStore → Result LockStore
unfolding take_write
get_write_locks clock n id [] s = ok s
get_write_locks clock n id ((key, values) ∷ rest) s = do
  (s', granted) ← take_write (clock n) key id s
  assert granted
  get_write_locks clock (n + 1) id rest s'

unfoldable pub get_read_locks : (ℕ → Reading) → ℕ → ℕ → Dictionary ℕ → LockStore → Result LockStore
unfolding take_read
get_read_locks clock n id [] s = ok s
get_read_locks clock n id ((key, times) ∷ rest) s = do
  (s', granted) ← take_read (clock n) key id s
  assert granted
  get_read_locks clock (n + 1) id rest s'

-- getLocks
unfoldable pub get_locks : (ℕ → Reading) → Transaction → LockStore → Result LockStore
unfolding get_write_locks get_read_locks
get_locks clock txn s = do
  s' ← get_write_locks clock 0 txn.id txn.write_set s
  get_read_locks clock (length txn.write_set) txn.id txn.read_set s'

-- prepare: whether there is such a transaction.
unfoldable pub prepare : ℕ → LockStore → LockStore × Bool
prepare id s = elim (lookup id s.running) [
  | none ↦ (s, false)
  | some txn ↦
      (record s { running = erase id s.running; prepared = insert id txn s.prepared }, true)
]

unfoldable pub unprepare : ℕ → ℕ → LockStore → Result LockStore
unfolding set_running get_retired_txn
unprepare id op s = elim (lookup id s.prepared) [
  | some txn ↦ ok (record s { running = insert id txn s.running; prepared = erase id s.prepared })
  | none ↦ do (txn, s') ← get_retired_txn op id aborted_running s; ok (set_running txn id s')
]

-- The loop of commit, for the latest value of each key.
unfoldable pub put_writes : Dictionary (List Bytes) → KvStore → Result KvStore
unfolding put_latest
put_writes [] s = ok s
put_writes ((key, values) ∷ rest) s = do
  value ← deref (last? values)
  put_writes rest (put_latest key value s)

-- The loop of uncommit, with `val` empty before each call of remove.
unfoldable pub remove_writes : Dictionary (List Bytes) → KvStore → Result KvStore
unfolding remove_latest
remove_writes [] s = ok s
remove_writes ((key, values) ∷ rest) s =
    let (s', removed, val) = remove_latest key [] s in
    (do
      assert removed
      newest ← deref (last? values)
      assert (bytes_eq val newest)
      remove_writes rest s')

unfoldable pub retire : ℕ → Transaction → RetiredState → LockStore → LockStore
retire op txn state s = record s {
  retired = s.retired ++ (op, record { txn = txn; state = state }) ∷ [];
}

unfoldable pub commit : ℕ → ℕ → LockStore → Result LockStore
unfolding put_writes drop_locks retire
commit id op s = elim (lookup id s.prepared) [
  | none ↦ err assertion
  | some txn ↦ do
    assert (txn.id == id)
    store ← put_writes txn.write_set s.store
    s' ← drop_locks txn (record s { store = store })
    ok (retire op txn committed (record s' { prepared = erase id s'.prepared }))
]

unfoldable pub uncommit : (ℕ → Reading) → ℕ → ℕ → LockStore → Result LockStore
unfolding get_retired_txn remove_writes get_locks
uncommit clock id op s = do
  (txn, s') ← get_retired_txn op id committed s
  store ← remove_writes txn.write_set s'.store
  s'' ← get_locks clock txn (record s' { store = store })
  assert (not (is_some (lookup id s''.prepared)))
  ok (record s'' { prepared = insert id txn s''.prepared })

-- abortTxn
unfoldable pub abort_txn : ℕ → ℕ → LockStore → Result LockStore
unfolding drop_locks retire
abort_txn id op s = elim (lookup id s.running) [
  | some txn ↦ do
    s' ← drop_locks txn s
    ok (record (retire op txn aborted_running s') { running = erase id s'.running })
  | none ↦ elim (lookup id s.prepared) [
    | none ↦ err panicked
    | some txn ↦ do
      s' ← drop_locks txn s
      ok (record (retire op txn aborted_prepared s') { prepared = erase id s'.prepared })
  ]
]

unfoldable pub unabort : (ℕ → Reading) → ℕ → ℕ → LockStore → Result LockStore
unfolding set_running get_locks
unabort clock id op s = do
  (t, retired_txn) ← deref (last? s.retired)
  assert (t == op)
  let txn : Transaction = retired_txn.txn
  assert (txn.id == id)
  s' ← elim retired_txn.state [
    | committed ↦ err assertion
    | aborted_prepared ↦ do
      assert (not (is_some (lookup id s.prepared)))
      ok (record s { prepared = insert id txn s.prepared })
    | aborted_running ↦ do assert (not (is_some (lookup id s.running))); ok (set_running txn id s)
  ]
  s'' ← get_locks clock txn s'
  ok (record s'' { retired = take (length s''.retired - 1) s''.retired })

-- The loop of specCommit.
unfoldable pub drop_retired : ℕ → List (ℕ × RetiredTxn) → List (ℕ × RetiredTxn)
drop_retired op [] = []
drop_retired op ((t, retired_txn) ∷ rest) =
    let later = drop_retired op rest in if leb t op then later else (t, retired_txn) ∷ rest

unfoldable pub spec_commit : ℕ → LockStore → LockStore
unfolding drop_retired
spec_commit op s = record s { retired = drop_retired op s.retired }
