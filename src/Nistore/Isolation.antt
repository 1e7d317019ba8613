-- ===== src/Nistore/Isolation.antt =====
-- Conflicts between prepared transactions of nistore/occstore.cc, and the checks of prepare.
use specpaxos.Base.{
  ℕ, ◌≡◌, ◌≢◌, refl, Bool, true, false, ◌||◌, some, List, [], ◌∷◌, ◌++◌, ok, arith,
}
use specpaxos.Base.Map.{
  Map, lookup, insert, erase, lookup-insert, lookup-erase, Rises, insert-Rises, erase-Rises,
}
use specpaxos.Base.Dictionary.{Bytes, Dictionary, bytes_eq→≡}
use specpaxos.Nistore.Versions.{VersionedKvStore}
use specpaxos.Nistore.Occ.{Read, Transaction, has_key, keys, prepared_writes, prepared_read_writes}
use specpaxos.Nistore.Commit.{reads_hold, writes_hold}

-- The transaction writes, or reads, the key.
abbrev pub writes_key : Bytes → Transaction → Bool
writes_key key t = has_key key (keys t.write_set)

abbrev pub reads_key : Bytes → Transaction → Bool
reads_key key t = has_key key (keys t.read_set)

-- No prepared transaction writes what another one reads or writes.
pub record IsIsolated (prepared : Map Transaction) : Type 0 where
  pub rises : Rises 0 prepared
  pub apart :
      (i j : ℕ) (t u : Transaction) (key : Bytes)
      → i ≢ j
      → lookup i prepared ≡ some t
      → lookup j prepared ≡ some u
      → writes_key key t ≡ true
      → (writes_key key u ≡ false) × (reads_key key u ≡ false)

has_key-append :
    (key : Bytes) (xs ys : List Bytes) → has_key key (xs ++ ys) ≡ (has_key key xs || has_key key ys)
unfolding has_key
has_key-append key [] ys = refl
has_key-append key (x ∷ xs) ys = ground (arith, has_key-append key xs ys)

prepared_writes-lookup :
    (p : Map Transaction) (j : ℕ) (u : Transaction) (key : Bytes)
    → lookup j p ≡ some u
    → has_key key (prepared_writes p) ≡ false
    → writes_key key u ≡ false
unfolding lookup prepared_writes
prepared_writes-lookup [] j u key h miss = cc
prepared_writes-lookup ((i, t) ∷ p) j u key h miss = ground (
  arith,
  prepared_writes-lookup p j u key,
  has_key-append key (keys t.write_set) (prepared_writes p),
)

prepared_read_writes-lookup :
    (p : Map Transaction) (j : ℕ) (u : Transaction) (key : Bytes)
    → lookup j p ≡ some u
    → has_key key (prepared_read_writes p) ≡ false
    → (writes_key key u ≡ false) × (reads_key key u ≡ false)
unfolding lookup prepared_read_writes
prepared_read_writes-lookup [] j u key h miss = absurd (cc)
prepared_read_writes-lookup ((i, t) ∷ p) j u key h miss = ground (
  arith,
  prepared_read_writes-lookup p j u key,
  has_key-append key (keys t.write_set) (keys t.read_set ++ prepared_read_writes p),
  has_key-append key (keys t.read_set) (prepared_read_writes p),
)

reads_hold-has_key :
    (store : VersionedKvStore) (writes : List Bytes) (reads : Dictionary Read) (key : Bytes)
    → reads_hold store writes reads ≡ ok true
    → has_key key (keys reads) ≡ true
    → has_key key writes ≡ false
unfolding reads_hold keys has_key
reads_hold-has_key store writes [] key h hit = cc
reads_hold-has_key store writes ((k, read) ∷ rest) key h hit =
    ground (arith, reads_hold-has_key store writes rest key, bytes_eq→≡ k key)

writes_hold-has_key :
    (accessed : List Bytes) (writes : Dictionary (List Bytes)) (key : Bytes)
    → writes_hold accessed writes ≡ true
    → has_key key (keys writes) ≡ true
    → has_key key accessed ≡ false
unfolding writes_hold keys has_key
writes_hold-has_key accessed [] key h hit = cc
writes_hold-has_key accessed ((k, values) ∷ rest) key h hit =
    ground (arith, writes_hold-has_key accessed rest key, bytes_eq→≡ k key)

-- A transaction that passes the checks is put among the prepared ones.
pub insert-IsIsolated :
    (store : VersionedKvStore) (id : ℕ) (txn : Transaction) (p : Map Transaction)
    → IsIsolated p
    → reads_hold store (prepared_writes p) txn.read_set ≡ ok true
    → writes_hold (prepared_read_writes p) txn.write_set ≡ true
    → IsIsolated (insert id txn p)
insert-IsIsolated store id txn p h reads writes = record {
  rises = insert-Rises 0 id txn p (omega arith) h.rises;
  apart = λ i j t u key other at_i at_j wrote. ground (
    arith,
    lookup-insert id i txn p,
    lookup-insert id j txn p,
    h.apart i j t u key,
    writes_hold-has_key (prepared_read_writes p) txn.write_set key,
    reads_hold-has_key store (prepared_writes p) txn.read_set key,
    prepared_read_writes-lookup p j u key,
    prepared_read_writes-lookup p i t key,
    prepared_writes-lookup p i t key,
  );
}

pub erase-IsIsolated : (id : ℕ) (p : Map Transaction) → IsIsolated p → IsIsolated (erase id p)
erase-IsIsolated id p h = record {
  rises = erase-Rises 0 id p h.rises;
  apart = λ i j t u key other at_i at_j wrote.
      ground
        (arith, lookup-erase 0 id i p h.rises, lookup-erase 0 id j p h.rises, h.apart i j t u key);
}
