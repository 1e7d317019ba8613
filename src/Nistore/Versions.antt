-- ===== src/Nistore/Versions.antt =====
-- nistore/versionedKVStore.h and nistore/versionedKVStore.cc: values by key and timestamp.
use specpaxos.Base.{
  ℕ, Bool, true, Option, none, some, List, [], ◌∷◌, Result, ok, err, undefined, ◌>>=◌, deref, ltb,
  leb, if◌then◌else◌,
}
use specpaxos.Base.Dictionary.{Bytes, Dictionary, find_key, set_key}

-- pair<uint64_t, string>
pub record Version : Type 0 where
  pub timestamp : ℕ
  pub value : Bytes

-- Of each key the versions, the newest first.
pub record VersionedKvStore : Type 0 where
  pub store : Dictionary (List Version)

abbrev pub front : List Version → Option Version
front [] = none
front (v ∷ vs) = some v

-- get(key, value): the newest version. The front of an empty list is undefined.
unfoldable pub get : Bytes → VersionedKvStore → Result (Option Version)
get key s = elim (find_key key s.store) [
  | none ↦ ok none
  | some versions ↦ do newest ← deref (front versions); ok (some newest)
]

-- The first version that is no newer than the timestamp.
unfoldable pub valid_at : ℕ → List Version → Option Bytes
valid_at timestamp [] = none
valid_at timestamp (v ∷ vs) =
    if leb v.timestamp timestamp then some v.value else valid_at timestamp vs

-- get(key, timestamp, value)
unfoldable pub get_at : Bytes → ℕ → VersionedKvStore → Option Bytes
unfolding valid_at
get_at key timestamp s = elim (find_key key s.store) [
  | none ↦ none
  | some versions ↦ valid_at timestamp versions
]

-- The loop of put: before the first older version, and nowhere if there is none.
unfoldable pub insert_version : Version → List Version → List Version
insert_version new [] = []
insert_version new (v ∷ vs) =
    let rest = insert_version new vs in
    if ltb v.timestamp new.timestamp then new ∷ v ∷ vs else v ∷ rest

-- put, which returns true on every path that the code can take.
unfoldable pub put : Bytes → Bytes → ℕ → VersionedKvStore → Result (VersionedKvStore × Bool)
unfolding insert_version
put key value timestamp s =
    let new : Version = record { timestamp = timestamp; value = value } in
    elim (find_key key s.store) [
      | none ↦ ok (record { store = set_key key (new ∷ []) s.store }, true)
      | some versions ↦ do
        newest ← deref (front versions)
        if ltb newest.timestamp timestamp
            then ok (record { store = set_key key (new ∷ versions) s.store }, true)
            else ok (record { store = set_key key (insert_version new versions) s.store }, true)
    ]

-- remove: the newest version, and the store without it.
unfoldable pub remove : Bytes → VersionedKvStore → Result (VersionedKvStore × Option Version)
remove key s = elim (find_key key s.store) [
  | none ↦ ok (s, none)
  | some versions ↦ elim versions [
    | [] ↦ err undefined
    | newest ∷ older ↦ ok (record { store = set_key key older s.store }, some newest)
  ]
]
