-- ===== src/Nistore/KvStore.antt =====
-- nistore/kvstore.h and nistore/kvstore.cc: of each key the values, of which the last is the current
-- one.
use specpaxos.Base.{
  ◌-◌, Bool, true, false, Option, none, some, List, [], ◌∷◌, ◌++◌, length, take, last?,
}
use specpaxos.Base.Dictionary.{Bytes, Dictionary, find_key, set_key}

pub record KvStore : Type 0 where
  pub store : Dictionary (List Bytes)

-- store[key], which is an empty list when the key is not there.
unfoldable pub values_of : Bytes → Dictionary (List Bytes) → List Bytes
values_of key d = elim (find_key key d) [ none ↦ [] | some values ↦ values ]

-- get: a key without values is not found.
unfoldable pub get_latest : Bytes → KvStore → Option Bytes
unfolding values_of
get_latest key s = last? (values_of key s.store)

-- put, which returns true.
unfoldable pub put_latest : Bytes → Bytes → KvStore → KvStore
unfolding values_of
put_latest key value s = record {
  store = set_key key (values_of key s.store ++ value ∷ []) s.store;
}

-- remove: the store, whether there was a value, and what the caller's `value` is then, to which the
-- function does not assign.
unfoldable pub remove_latest : Bytes → Bytes → KvStore → KvStore × Bool × Bytes
unfolding values_of
remove_latest key value s = elim (last? (values_of key s.store)) [
  | none ↦ (s, false, value)
  | some newest ↦
      let values = values_of key s.store in
      (record { store = set_key key (take (length values - 1) values) s.store }, true, value)
]
