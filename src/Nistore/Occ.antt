-- ===== src/Nistore/Occ.antt =====
-- nistore/occstore.h and nistore/occstore.cc: transactions with optimistic concurrency control, and
-- the undoing of their operations for a protocol that speculates.
use specpaxos.Base.{
  ℕ, ◌+◌, ◌-◌, ◌^◌, Bool, true, false, ◌||◌, Option, none, some, List, [], ◌∷◌, ◌++◌, Result, ok,
  err, assertion, undefined, ◌>>=◌, ◌>>◌, assert, deref, ltb, ◌==◌, if◌then◌else◌, length, take,
  last?,
}
use specpaxos.Base.Map.{Map, lookup, insert, erase}
use specpaxos.Base.Dictionary.{Bytes, Dictionary, bytes_eq, find_key, set_key, erase_key}
use specpaxos.Nistore.Versions.{VersionedKvStore, get, get_at}

-- The timestamp at which a key was read, and how many times.
pub record Read : Type 0 where
  pub timestamp : ℕ
  pub times : ℕ

pub record Transaction : Type 0 where
  pub id : ℕ
  pub read_set : Dictionary Read
  pub write_set : Dictionary (List Bytes)

pub data RetiredState : Type 0 where
  committed aborted_prepared aborted_running : RetiredState

pub record RetiredTxn : Type 0 where
  pub txn : Transaction
  pub state : RetiredState

-- `retired` has the oldest first.
pub record OccStore : Type 0 where
  pub store : VersionedKvStore
  pub running : Map Transaction
  pub prepared : Map Transaction
  pub retired : List (ℕ × RetiredTxn)

abbrev pub is_some {ℓ} : {A : Type ℓ} → Option A → Bool
is_some none = false
is_some (some a) = true

unfoldable pub same_state : RetiredState → RetiredState → Bool
same_state committed committed = true
same_state aborted_prepared aborted_prepared = true
same_state aborted_running aborted_running = true
same_state _ _ = false

abbrev pub new_transaction : ℕ → Transaction
new_transaction id = record { id = id; read_set = []; write_set = [] }

-- Membership in a std::set of keys.
unfoldable pub has_key : Bytes → List Bytes → Bool
has_key key [] = false
has_key key (k ∷ ks) = bytes_eq k key || has_key key ks

unfoldable pub keys {ℓ} : {V : Type ℓ} → Dictionary V → List Bytes
keys [] = []
keys ((k, v) ∷ rest) = k ∷ keys rest

-- getPreparedWrites
unfoldable pub prepared_writes : Map Transaction → List Bytes
unfolding keys
prepared_writes [] = []
prepared_writes ((id, t) ∷ rest) = keys t.write_set ++ prepared_writes rest

-- getPreparedReadWrites
unfoldable pub prepared_read_writes : Map Transaction → List Bytes
unfolding keys
prepared_read_writes [] = []
prepared_read_writes ((id, t) ∷ rest) =
    keys t.write_set ++ (keys t.read_set ++ prepared_read_writes rest)

-- running[id] = txn, which is also what a change through getTxn's reference does.
unfoldable pub set_running : Transaction → ℕ → OccStore → OccStore
set_running txn id s = record s { running = insert id txn s.running }

-- getTxn: the running transaction, a new one if there is none.
unfoldable pub get_txn : ℕ → OccStore → Result (Transaction × OccStore)
unfolding set_running
get_txn id s = elim (lookup id s.running) [
  | none ↦ ok (new_transaction id, set_running (new_transaction id) id s)
  | some txn ↦ do assert (txn.id == id); ok (txn, s)
]

-- getRetiredTxn: the transaction that was retired last.
unfoldable pub get_retired_txn : ℕ → ℕ → RetiredState → OccStore → Result (Transaction × OccStore)
get_retired_txn op id state s = do
  (t, retired_txn) ← deref (last? s.retired)
  assert (t == op)
  assert (retired_txn.txn.id == id)
  assert (same_state retired_txn.state state)
  ok (retired_txn.txn, record s { retired = take (length s.retired - 1) s.retired })

unfoldable pub begin : ℕ → OccStore → OccStore
unfolding set_running
begin id s = set_running (new_transaction id) id s

unfoldable pub unbegin : ℕ → OccStore → OccStore
unbegin id s = record s { running = erase id s.running }

-- ++ on an int.
unfoldable pub increment : ℕ → Result ℕ
increment n = if ltb n (2 ^ 31 - 1) then ok (n + 1) else err undefined

-- A key that the transaction has read already, at the timestamp of that read.
unfoldable pub read_again :
    ℕ → Bytes → Transaction → Read → OccStore → Result (OccStore × Option Bytes)
unfolding increment set_running
read_again id key txn read s = do
  value ← elim (get_at key read.timestamp s.store) [ none ↦ err assertion | some v ↦ ok v ]
  times ← increment read.times
  let txn' = record txn { read_set = set_key key (record read { times = times }) txn.read_set }
  ok (set_running txn' id s, some value)

-- A key that the transaction has not accessed, from the store.
unfoldable pub read_first : ℕ → Bytes → Transaction → OccStore → Result (OccStore × Option Bytes)
unfolding set_running
read_first id key txn s = do
  found ← get key s.store
  elim found [
    | none ↦ ok (s, none)
    | some v ↦
        let read : Read = record { timestamp = v.timestamp; times = 1 } in
        let txn' = record txn { read_set = set_key key read txn.read_set } in
        ok (set_running txn' id s, some v.value)
  ]

-- get: the value, or nothing for the result -1.
unfoldable pub get_value : ℕ → Bytes → OccStore → Result (OccStore × Option Bytes)
unfolding get_txn read_again read_first
get_value id key s = do
  (txn, s') ← get_txn id s
  elim (find_key key txn.write_set) [
    | some values ↦ do value ← deref (last? values); ok (s', some value)
    | none ↦ elim (find_key key txn.read_set) [
      | some read ↦ read_again id key txn read s'
      | none ↦ read_first id key txn s'
    ]
  ]

-- unget: one read of the key less.
unfoldable pub unget : ℕ → Bytes → OccStore → Result OccStore
unfolding get_txn set_running
unget id key s = do
  (txn, s') ← get_txn id s
  elim (find_key key txn.read_set) [
    | none ↦ ok s'
    | some read ↦
        let fewer = set_key key (record read { times = read.times - 1 }) txn.read_set in
        let reads = if ltb 1 read.times then fewer else erase_key key txn.read_set in
        ok (set_running (record txn { read_set = reads }) id s')
  ]

-- put: the write is recorded in the transaction.
unfoldable pub put_value : ℕ → Bytes → Bytes → OccStore → Result OccStore
unfolding get_txn set_running
put_value id key value s = do
  (txn, s') ← get_txn id s
  let values : List Bytes = elim (find_key key txn.write_set) [ none ↦ [] | some values ↦ values ]
  ok (
      set_running (record txn { write_set = set_key key (values ++ value ∷ []) txn.write_set }) id
        s')

-- unput: the last write of the key is taken back. The list stays in the map when it is empty.
unfoldable pub unput : ℕ → Bytes → Bytes → OccStore → Result OccStore
unfolding get_txn set_running
unput id key value s = do
  (txn, s') ← get_txn id s
  values ← elim (find_key key txn.write_set) [ none ↦ err assertion | some values ↦ ok values ]
  newest ← elim (last? values) [ none ↦ err assertion | some v ↦ ok v ]
  assert (bytes_eq newest value)
  let fewer = take (length values - 1) values
  ok (set_running (record txn { write_set = set_key key fewer txn.write_set }) id s')
