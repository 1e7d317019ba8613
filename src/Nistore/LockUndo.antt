-- ===== src/Nistore/LockUndo.antt =====
-- nistore/lockstore.cc: what the undoing of a prepare and of a commit gives.
use specpaxos.Base.{
  ℕ, ◌≡◌, refl, ◌==◌, Bool, true, none, some, List, [], ◌∷◌, ok, assert-eq-ok, deref, deref-eq-ok,
  arith, >>=-eq-ok, subst, last?, last?-append,
}
use specpaxos.Base.Map.{
  lookup, insert, erase, lookup-insert_self, Rises, insert-erase, erase-insert,
}
use specpaxos.Base.Dictionary.{Bytes, Dictionary, bytes_eq, find_key}
use specpaxos.Nistore.Occ.{committed}
use specpaxos.Nistore.KvStore.{KvStore, remove_latest}
use specpaxos.Nistore.LockStore.{Reading, Transaction, RetiredTxn, LockStore}
use specpaxos.Nistore.LockCommit.{
  prepare, unprepare, commit, uncommit, retire, remove_writes, get_retired_txn, drop_locks,
  put_writes,
}

-- The store after a running transaction has been prepared.
abbrev accepted : ℕ → Transaction → LockStore → LockStore
accepted id t s = record s { running = erase id s.running; prepared = insert id t s.prepared }

unprepare-accepted :
    (id op : ℕ) (t : Transaction) (s : LockStore)
    → Rises 0 s.running
    → lookup id s.running ≡ some t
    → lookup id s.prepared ≡ none
    → unprepare id op (accepted id t s) ≡ ok s
unfolding unprepare
unprepare-accepted id op t s rises here free =
    rw
      (
        unprepare,
        lookup-insert_self id t s.prepared,
        erase-insert id t s.prepared free,
        insert-erase 0 id t s.running rises here,
      )
      refl

-- A running transaction that is not prepared too, in a store whose running transactions are in the
-- order of their numbers: prepare returns that it has prepared it, and unprepare then gives the store
-- as it was, the locks included.
pub unprepare-prepare_locks :
    (id op : ℕ) (t : Transaction) (s s' : LockStore) (b : Bool)
    → Rises 0 s.running
    → lookup id s.running ≡ some t
    → lookup id s.prepared ≡ none
    → prepare id s ≡ (s', b)
    → (b ≡ true) × (unprepare id op s' ≡ ok s)
unfolding prepare
unprepare-prepare_locks id op t s s' b rises here free e =
    let same : accepted id t s ≡ s' = ground arith in
    (
      ground arith,
      subst (λ k. unprepare id op k ≡ ok s) same (unprepare-accepted id op t s rises here free),
    )

-- The string that remove leaves to its caller is empty.
remove_latest-snd : (key : Bytes) (s : KvStore) → (remove_latest key [] s).2 ≡ []
unfolding remove_latest
remove_latest-snd key s = ground arith

bytes_eq-nil : (b : Bytes) → bytes_eq [] b ≡ true → b ≡ []
unfolding bytes_eq
bytes_eq-nil [] h = refl
bytes_eq-nil (c ∷ cs) h = absurd (cc)

remove_writes_empty :
    (d : Dictionary (List Bytes)) (s s' : KvStore) (key : Bytes) (values : List Bytes)
    → remove_writes d s ≡ ok s'
    → find_key key d ≡ some values
    → last? values ≡ some []
unfolding remove_writes find_key
remove_writes_empty [] s s' key values e h = absurd (cc)
remove_writes_empty ((k, vs) ∷ rest) s s' key values e h =
    let left = remove_latest k [] s in
    let (removed, after) = assert-eq-ok left.1 _ e in
    let (newest, last, then_checks) = >>=-eq-ok (deref (last? vs)) _ after in
    let (equal, later) = assert-eq-ok (bytes_eq left.2 newest) _ then_checks in
    ground (
      arith,
      remove_latest-snd k s,
      bytes_eq-nil newest,
      deref-eq-ok (last? vs) newest last,
      equal,
      remove_writes_empty rest left.0 s' key values later,
    )

commit_last :
    (id op : ℕ) (t : Transaction) (s s' : LockStore)
    → lookup id s.prepared ≡ some t
    → commit id op s ≡ ok s'
    → last? s'.retired ≡ some (op, record { txn = t; state = committed })
unfolding commit retire
commit_last id op t s s' here c =
    let (same, after) = assert-eq-ok (t.id == id) _ (rw (here, commit) at c) in
    let (store, puts, rest) = >>=-eq-ok (put_writes t.write_set s.store) _ after in
    let (k, drops, end) = >>=-eq-ok (drop_locks t (record s { store = store })) _ rest in
    let last : ℕ × RetiredTxn = (op, record { txn = t; state = committed }) in
    ground (arith, last?-append k.retired last)

get_retired_txn_last :
    (id op : ℕ) (t t' : Transaction) (s s' : LockStore)
    → last? s.retired ≡ some (op, record { txn = t; state = committed })
    → get_retired_txn op id committed s ≡ ok (t', s')
    → t' ≡ t
unfolding get_retired_txn
get_retired_txn_last id op t t' s s' h e = ground arith

-- uncommit of a transaction that was committed, at the same operation and with nothing retired in
-- between: it returns only if every value that commit put in the store was empty.
pub uncommit-commit_empty :
    (clock : ℕ → Reading) (id op : ℕ) (t : Transaction) (s s' k : LockStore) (key : Bytes)
    (values : List Bytes)
    → lookup id s.prepared ≡ some t
    → commit id op s ≡ ok s'
    → uncommit clock id op s' ≡ ok k
    → find_key key t.write_set ≡ some values
    → last? values ≡ some []
unfolding commit uncommit retire
uncommit-commit_empty clock id op t s s' k key values here c u w =
    let ((t', m), first, rest) = >>=-eq-ok (get_retired_txn op id committed s') _ u in
    let (store, removed, end) = >>=-eq-ok (remove_writes t'.write_set m.store) _ rest in
    let same = get_retired_txn_last id op t t' s' m (commit_last id op t s s' here c) first in
    remove_writes_empty t'.write_set m.store store key values removed (ground (arith, same))
