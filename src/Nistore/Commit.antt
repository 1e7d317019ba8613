-- ===== src/Nistore/Commit.antt =====
-- nistore/occstore.cc: how a transaction is prepared, committed and aborted, and how each of these is
-- undone.
use specpaxos.Base.{
  ℕ, ◌-◌, Bool, true, false, not, ◌&&◌, ◌||◌, none, some, List, [], ◌∷◌, ◌++◌, Result, ok, err,
  assertion, panicked, ◌>>=◌, ◌>>◌, assert, deref, leb, ◌==◌, if◌then◌else◌, length, take, last?,
}
use specpaxos.Base.Map.{lookup, insert, erase}
use specpaxos.Base.Dictionary.{Bytes, Dictionary, bytes_eq}
use specpaxos.Nistore.Versions.{VersionedKvStore, get, put, remove}
use specpaxos.Nistore.Occ.{
  Read, Transaction, RetiredState, RetiredTxn, OccStore, committed, aborted_prepared,
  aborted_running, is_some, same_state, has_key, prepared_writes, prepared_read_writes,
  get_retired_txn, set_running,
}

-- The first loop of prepare: no key that was read has been written since, or is about to be.
unfoldable pub reads_hold : VersionedKvStore → List Bytes → Dictionary Read → Result Bool
unfolding has_key
reads_hold store writes [] = ok true
reads_hold store writes ((key, read) ∷ rest) = do
  found ← get key store
  cur ← elim found [ none ↦ err assertion | some v ↦ ok v ]
  let later = reads_hold store writes rest
  if not (cur.timestamp == read.timestamp) || has_key key writes then ok false else later

-- The second loop of prepare: no key that was written is in a prepared transaction.
unfoldable pub writes_hold : List Bytes → Dictionary (List Bytes) → Bool
unfolding has_key
writes_hold accessed [] = true
writes_hold accessed ((key, values) ∷ rest) =
    not (has_key key accessed) && writes_hold accessed rest

unfoldable pub retire : ℕ → Transaction → RetiredState → OccStore → OccStore
retire op txn state s = record s {
  retired = s.retired ++ (op, record { txn = txn; state = state }) ∷ [];
}

unfoldable pub abort_txn : ℕ → ℕ → OccStore → Result OccStore
unfolding retire
abort_txn id op s = elim (lookup id s.running) [
  | some txn ↦
      let s' = retire op txn aborted_running s in ok (record s' { running = erase id s.running })
  | none ↦ elim (lookup id s.prepared) [
    | some txn ↦
        let s' = retire op txn aborted_prepared s in
        ok (record s' { prepared = erase id s.prepared })
    | none ↦ err panicked
  ]
]

-- prepare: whether the transaction is prepared (the result 0) or not (the result -1).
unfoldable pub prepare : ℕ → ℕ → OccStore → Result (OccStore × Bool)
unfolding reads_hold writes_hold abort_txn
prepare id op s = elim (lookup id s.running) [
  | none ↦ ok (s, false)
  | some txn ↦ do
    unchanged ← reads_hold s.store (prepared_writes s.prepared) txn.read_set
    if unchanged && writes_hold (prepared_read_writes s.prepared) txn.write_set
        then ok
            (record s { running = erase id s.running; prepared = insert id txn s.prepared }, true)
        else do s' ← abort_txn id op s; ok (s', false)
]

unfoldable pub unprepare : ℕ → ℕ → OccStore → Result OccStore
unfolding get_retired_txn set_running
unprepare id op s = elim (lookup id s.prepared) [
  | some txn ↦ ok (record s { running = insert id txn s.running; prepared = erase id s.prepared })
  | none ↦ do (txn, s') ← get_retired_txn op id aborted_running s; ok (set_running txn id s')
]

-- The loop of commit: the last value that was written of each key.
unfoldable pub put_writes : ℕ → Dictionary (List Bytes) → VersionedKvStore → Result VersionedKvStore
put_writes timestamp [] store = ok store
put_writes timestamp ((key, values) ∷ rest) store = do
  value ← deref (last? values)
  (store', ret) ← put key value timestamp store
  assert ret
  put_writes timestamp rest store'

unfoldable pub commit : ℕ → ℕ → ℕ → OccStore → Result OccStore
unfolding put_writes retire
commit id timestamp op s = do
  txn ← elim (lookup id s.prepared) [ none ↦ err assertion | some txn ↦ ok txn ]
  assert (txn.id == id)
  store' ← put_writes timestamp txn.write_set s.store
  let s' = retire op txn committed s
  ok (record s' { store = store'; prepared = erase id s.prepared })

-- The loop of uncommit.
unfoldable pub remove_writes :
    ℕ → Dictionary (List Bytes) → VersionedKvStore → Result VersionedKvStore
remove_writes timestamp [] store = ok store
remove_writes timestamp ((key, values) ∷ rest) store = do
  (store', removed) ← remove key store
  val ← elim removed [ none ↦ err assertion | some v ↦ ok v ]
  assert (val.timestamp == timestamp)
  value ← deref (last? values)
  assert (bytes_eq val.value value)
  remove_writes timestamp rest store'

unfoldable pub uncommit : ℕ → ℕ → ℕ → OccStore → Result OccStore
unfolding get_retired_txn remove_writes
uncommit id timestamp op s = do
  (txn, s') ← get_retired_txn op id committed s
  store' ← remove_writes timestamp txn.write_set s'.store
  assert (not (is_some (lookup id s'.prepared)))
  ok (record s' { store = store'; prepared = insert id txn s'.prepared })

unfoldable pub unabort : ℕ → ℕ → OccStore → Result OccStore
unabort id op s = do
  (t, retired_txn) ← deref (last? s.retired)
  let s' = record s { retired = take (length s.retired - 1) s.retired }
  assert (t == op)
  assert (retired_txn.txn.id == id)
  assert (
      same_state retired_txn.state aborted_prepared || same_state retired_txn.state aborted_running)
  if same_state retired_txn.state aborted_prepared
      then (do
        assert (not (is_some (lookup id s.prepared)))
        ok (record s' { prepared = insert id retired_txn.txn s.prepared }))
      else (do
        assert (not (is_some (lookup id s.running)))
        ok (record s' { running = insert id retired_txn.txn s.running }))

-- The loop of specCommit: what was retired up to the opnum is dropped.
unfoldable pub drop_retired : ℕ → List (ℕ × RetiredTxn) → List (ℕ × RetiredTxn)
drop_retired op [] = []
drop_retired op ((t, retired_txn) ∷ rest) =
    let later = drop_retired op rest in if leb t op then later else (t, retired_txn) ∷ rest

unfoldable pub spec_commit : ℕ → OccStore → OccStore
unfolding drop_retired
spec_commit op s = record s { retired = drop_retired op s.retired }
