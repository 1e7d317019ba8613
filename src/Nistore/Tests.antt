-- ===== src/Nistore/Tests.antt =====
-- Runs of the transactional store of nistore/, and its theorems at concrete stores.
use specpaxos.Base.{
  ℕ, ◌≡◌, ◌&&◌, refl, true, some, none, List, [], ◌∷◌, ok, err, Result, arith, inl, leb,
  if◌then◌else◌,
}
use specpaxos.Base.Map.{lookup, insert, erase}
use specpaxos.Base.Dictionary.{Bytes, bytes_eq, bytes_lt, find_key, set_key, erase_key}
use specpaxos.Nistore.Versions.{
  VersionedKvStore, get, get_at, put, remove, valid_at, insert_version,
}
use specpaxos.Nistore.Reads.{IsNewer, version, get_at-put, remove-put}
use specpaxos.Nistore.Occ.{
  Transaction, OccStore, get_txn, get_value, put_value, read_first, read_again, increment,
  set_running, has_key, keys, prepared_writes, prepared_read_writes, get_retired_txn, same_state,
}
use specpaxos.Nistore.Commit.{
  prepare, unprepare, commit, abort_txn, unabort, retire, reads_hold, writes_hold, put_writes,
}
use specpaxos.Nistore.Isolation.{IsIsolated}
use specpaxos.Nistore.Operations.{
  Operation, gets, puts, prepares, perform, perform_all, perform_all-IsIsolated,
}
use specpaxos.Nistore.Undo.{IsRunning, unprepare-prepare, unabort-abort_txn}

-- The keys "a" and "b".
abbrev a_key : Bytes
a_key = 97 ∷ []

abbrev b_key : Bytes
b_key = 98 ∷ []

-- "a" was written at time 5.
abbrev shelf : VersionedKvStore
shelf = record { store = (a_key, version 5 (49 ∷ []) ∷ []) ∷ [] }

unfoldable shelf_path : Unit {0}
unfolding put get get_at remove find_key set_key bytes_eq bytes_lt valid_at insert_version
shelf_path = tt

shelf-IsNewer : IsNewer 7 a_key shelf
unfolding find_key bytes_eq
shelf-IsNewer = record { not_empty = λ h. cc; newer = λ v vs h. ground arith }

abbrev shelf_later : VersionedKvStore
shelf_later = record { store = (a_key, version 7 (50 ∷ []) ∷ version 5 (49 ∷ []) ∷ []) ∷ [] }

puts_later : put a_key (50 ∷ []) 7 shelf ≡ ok (shelf_later, true)
unfolding shelf_path
puts_later = refl

-- A version that is older than all others is dropped.
drops_oldest : put a_key (50 ∷ []) 3 shelf ≡ ok (shelf, true)
unfolding shelf_path
drops_oldest = refl

get_at-put_example :
    (s' : VersionedKvStore) × (put a_key (50 ∷ []) 7 shelf ≡ ok (s', true))
    × (get a_key s' ≡ ok (some (version 7 (50 ∷ []))))
    × ((other : Bytes) (t : ℕ)
        → get_at other t s'
          ≡ (if bytes_eq a_key other && leb 7 t then some (50 ∷ []) else get_at other t shelf))
get_at-put_example = get_at-put a_key (50 ∷ []) 7 shelf shelf-IsNewer

remove-put_example :
    (s'' : VersionedKvStore) × (remove a_key shelf_later ≡ ok (s'', some (version 7 (50 ∷ []))))
    × ((other : Bytes) (t : ℕ) → get_at other t s'' ≡ get_at other t shelf)
remove-put_example = remove-put a_key (50 ∷ []) 7 shelf shelf_later true shelf-IsNewer puts_later

abbrev fresh : OccStore
fresh = record { store = shelf; running = []; prepared = []; retired = [] }

-- The store that a computation gives, or else the given one.
abbrev or_else : OccStore → Result OccStore → OccStore
or_else d (ok s) = s
or_else d (err e) = d

unfoldable occ_path : Unit {0}
unfolding shelf_path perform_all perform get_value put_value prepare commit get_txn read_first
    read_again increment set_running lookup insert erase has_key keys prepared_writes
    prepared_read_writes reads_hold writes_hold abort_txn retire put_writes same_state
    get_retired_txn unabort unprepare erase_key
occ_path = tt

-- Transaction 1 reads "a" and writes "b", and is prepared; then transaction 2 writes "a", and is
-- aborted as it conflicts.
abbrev conflict : List Operation
conflict =
    gets 1 a_key
    ∷ puts 1 b_key (51 ∷ [])
    ∷ prepares 1 10
    ∷ puts 2 a_key (52 ∷ [])
    ∷ prepares 2 11
    ∷ []

abbrev after_conflict : OccStore
unfolding occ_path
after_conflict = or_else fresh (perform_all conflict fresh)

conflict_runs : perform_all conflict fresh ≡ ok after_conflict
unfolding occ_path
conflict_runs = refl

second_aborted :
    (lookup 2 after_conflict.prepared ≡ none) × (lookup 2 after_conflict.running ≡ none)
unfolding occ_path
second_aborted = (refl, refl)

fresh-IsIsolated : IsIsolated fresh.prepared
unfolding lookup
fresh-IsIsolated = record { rises = tt; apart = λ i j t u key other at_i at_j wrote. absurd (cc) }

perform_all-IsIsolated_example : IsIsolated after_conflict.prepared
perform_all-IsIsolated_example =
    perform_all-IsIsolated conflict fresh after_conflict fresh-IsIsolated conflict_runs

-- Transaction 1 before it is prepared.
abbrev reader : Transaction
reader = record {
  id = 1;
  read_set = (a_key, record { timestamp = 5; times = 1 }) ∷ [];
  write_set = (b_key, (51 ∷ []) ∷ []) ∷ [];
}

abbrev one_running : OccStore
one_running = record fresh { running = (1, reader) ∷ [] }

abbrev one_prepared : OccStore
one_prepared = record fresh { prepared = (1, reader) ∷ [] }

abbrev one_aborted : OccStore
unfolding occ_path
one_aborted = or_else fresh (abort_txn 1 10 one_running)

reader-IsRunning : IsRunning 1 reader one_running
unfolding lookup
reader-IsRunning = record { rises = (omega arith, tt); here = refl; number = refl }

no_prepared : lookup 1 one_running.prepared ≡ none
unfolding lookup
no_prepared = refl

prepares_one : prepare 1 10 one_running ≡ ok (one_prepared, true)
unfolding occ_path
prepares_one = refl

aborts_one : abort_txn 1 10 one_running ≡ ok one_aborted
unfolding occ_path
aborts_one = refl

unprepare-prepare_example : unprepare 1 10 one_prepared ≡ ok one_running
unprepare-prepare_example =
    unprepare-prepare 1 10 reader one_running one_prepared true reader-IsRunning no_prepared
      prepares_one

unabort-abort_txn_example : unabort 1 10 one_aborted ≡ ok one_running
unabort-abort_txn_example =
    unabort-abort_txn 1 10 reader one_running one_aborted (inl reader-IsRunning) aborts_one
