-- ===== src/Nistore/Reads.antt =====
-- What is read from the store of nistore/versionedKVStore.cc after a write, and after its removal.
use specpaxos.Base.{
  ℕ, ◌<◌, ◌≡◌, ◌≢◌, Bool, true, ◌&&◌, none, some, List, [], ◌∷◌, ok, leb, if◌then◌else◌, arith,
  subst, Option-cases, inl, inr,
}
use specpaxos.Base.Dictionary.{
  Bytes, bytes_eq, bytes_eq→≡, bytes_eq_refl, find_key, set_key, find_key-set_key,
}
use specpaxos.Nistore.Versions.{Version, VersionedKvStore, get, get_at, valid_at, put, remove}

-- The timestamp is newer than all that the key has, which is not an empty list.
pub record IsNewer (timestamp : ℕ) (key : Bytes) (s : VersionedKvStore) : Type 0 where
  pub not_empty : find_key key s.store ≢ some []
  pub newer :
      (v : Version) (vs : List Version)
      → find_key key s.store ≡ some (v ∷ vs)
      → v.timestamp < timestamp

-- The store with the versions `vs` of the key.
abbrev pub with_versions : Bytes → List Version → VersionedKvStore → VersionedKvStore
with_versions key vs s = record { store = set_key key vs s.store }

abbrev pub versions_of : Bytes → VersionedKvStore → List Version
versions_of key s = elim (find_key key s.store) [ none ↦ [] | some vs ↦ vs ]

abbrev pub version : ℕ → Bytes → Version
version timestamp value = record { timestamp = timestamp; value = value }

put_newer :
    (key value : Bytes) (timestamp : ℕ) (s : VersionedKvStore)
    → IsNewer timestamp key s
    → put key value timestamp s
      ≡ ok (with_versions key (version timestamp value ∷ versions_of key s) s, true)
unfolding put
put_newer key value timestamp s h = elim (Option-cases (find_key key s.store)) [
  | inl missing ↦ ground arith
  | inr ([], here) ↦ elim (h.not_empty here) [ ]
  | inr (v ∷ vs, here) ↦ ground (arith, h.newer v vs here)
]

get-with_versions :
    (key : Bytes) (v : Version) (vs : List Version) (s : VersionedKvStore)
    → get key (with_versions key (v ∷ vs) s) ≡ ok (some v)
unfolding get
get-with_versions key v vs s =
    ground (arith, find_key-set_key key key (v ∷ vs) s.store, bytes_eq_refl key)

get_at-with_versions :
    (key other : Bytes) (t : ℕ) (value : Bytes) (timestamp : ℕ) (s : VersionedKvStore)
    → get_at other t (with_versions key (version timestamp value ∷ versions_of key s) s)
      ≡ (if bytes_eq key other && leb timestamp t then some value else get_at other t s)
unfolding get_at valid_at
get_at-with_versions key other t value timestamp s = ground (
  arith,
  find_key-set_key key other (version timestamp value ∷ versions_of key s) s.store,
  bytes_eq→≡ key other,
)

remove-with_versions :
    (key : Bytes) (v : Version) (vs : List Version) (s : VersionedKvStore)
    → remove key (with_versions key (v ∷ vs) s)
      ≡ ok (with_versions key vs (with_versions key (v ∷ vs) s), some v)
unfolding remove
remove-with_versions key v vs s =
    ground (arith, find_key-set_key key key (v ∷ vs) s.store, bytes_eq_refl key)

-- Giving a key its own versions again changes no read.
get_at-same_versions :
    (key other : Bytes) (t : ℕ) (vs : List Version) (s : VersionedKvStore)
    → get_at other t (with_versions key (versions_of key s) (with_versions key vs s))
      ≡ get_at other t s
unfolding get_at valid_at
get_at-same_versions key other t vs s = ground (
  arith,
  find_key-set_key key other (versions_of key s) (set_key key vs s.store),
  find_key-set_key key other vs s.store,
  bytes_eq→≡ key other,
)

-- put with a timestamp newer than all of the key: it returns true, get returns the new version, and a
-- read at any time of any key sees the new value exactly if it is of that key and not before the
-- timestamp, and else what it saw before.
pub get_at-put :
    (key value : Bytes) (timestamp : ℕ) (s : VersionedKvStore)
    → IsNewer timestamp key s
    → (s' : VersionedKvStore) × (put key value timestamp s ≡ ok (s', true))
      × (get key s' ≡ ok (some (version timestamp value)))
      × ((other : Bytes) (t : ℕ)
          → get_at other t s'
            ≡ (if bytes_eq key other && leb timestamp t then some value else get_at other t s))
get_at-put key value timestamp s h = (
  with_versions key (version timestamp value ∷ versions_of key s) s,
  put_newer key value timestamp s h,
  get-with_versions key (version timestamp value) (versions_of key s) s,
  λ other t. get_at-with_versions key other t value timestamp s,
)

-- put with a timestamp newer than all of the key, and then remove: the version that was put is
-- returned, and every read at a time, of any key, is again as before both.
pub remove-put :
    (key value : Bytes) (timestamp : ℕ) (s s' : VersionedKvStore) (b : Bool)
    → IsNewer timestamp key s
    → put key value timestamp s ≡ ok (s', b)
    → (s'' : VersionedKvStore) × (remove key s' ≡ ok (s'', some (version timestamp value)))
      × ((other : Bytes) (t : ℕ) → get_at other t s'' ≡ get_at other t s)
remove-put key value timestamp s s' b h e =
    let new : Version = version timestamp value in
    let after = with_versions key (new ∷ versions_of key s) s in
    let same : after ≡ s' = ground (arith, put_newer key value timestamp s h) in
    (
      with_versions key (versions_of key s) after,
      subst (λ k. remove key k ≡ ok (with_versions key (versions_of key s) after, some new)) same
          (remove-with_versions key new (versions_of key s) s),
      λ other t. get_at-same_versions key other t (new ∷ versions_of key s) s,
    )
