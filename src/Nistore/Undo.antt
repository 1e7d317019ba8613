-- ===== src/Nistore/Undo.antt =====
-- The operations of nistore/occstore.cc that take back a prepare or an abort.
use specpaxos.Base.{
  ℕ, ◌≡◌, refl, Bool, ◌&&◌, ◌⊎◌, none, some, [], ◌∷◌, ◌++◌, ok, inl, inr, arith, Bool-cases,
  >>=-eq-ok, subst, sym, last?-append, take-append_one,
}
use specpaxos.Base.Map.{
  lookup, insert, erase, lookup-insert_self, lookup-erase_self, Rises, insert-erase, erase-insert,
}
use specpaxos.Nistore.Occ.{
  Transaction, OccStore, RetiredTxn, aborted_running, aborted_prepared, same_state, get_retired_txn,
  set_running, prepared_writes, prepared_read_writes,
}
use specpaxos.Nistore.Commit.{
  prepare, unprepare, abort_txn, unabort, retire, reads_hold, writes_hold,
}

-- A transaction that runs, and is stored under its number.
pub record IsRunning (id : ℕ) (t : Transaction) (s : OccStore) : Type 0 where
  pub rises : Rises 0 s.running
  pub here : lookup id s.running ≡ some t
  pub number : t.id ≡ id

pub record IsPrepared (id : ℕ) (t : Transaction) (s : OccStore) : Type 0 where
  pub rises : Rises 0 s.prepared
  pub here : lookup id s.prepared ≡ some t
  pub number : t.id ≡ id
  pub not_running : lookup id s.running ≡ none

-- The store after a running transaction has been retired.
abbrev aborted : ℕ → ℕ → Transaction → OccStore → OccStore
aborted id op t s = record s {
  running = erase id s.running;
  retired = s.retired ++ (op, record { txn = t; state = aborted_running }) ∷ [];
}

abort_running :
    (id op : ℕ) (t : Transaction) (s : OccStore)
    → lookup id s.running ≡ some t
    → abort_txn id op s ≡ ok (aborted id op t s)
unfolding abort_txn retire
abort_running id op t s here = rw (abort_txn, here) refl

get_retired_txn-aborted :
    (id op : ℕ) (t : Transaction) (s : OccStore)
    → t.id ≡ id
    → get_retired_txn op id aborted_running (aborted id op t s)
      ≡ ok (t, record s { running = erase id s.running })
unfolding get_retired_txn same_state
get_retired_txn-aborted id op t s number =
    let last : ℕ × RetiredTxn = (op, record { txn = t; state = aborted_running }) in
    rw (last?-append s.retired last, take-append_one s.retired last) (ground arith)

-- The store after a running transaction has been prepared.
abbrev accepted : ℕ → Transaction → OccStore → OccStore
accepted id t s = record s { running = erase id s.running; prepared = insert id t s.prepared }

unprepare-accepted :
    (id op : ℕ) (t : Transaction) (s : OccStore)
    → IsRunning id t s
    → lookup id s.prepared ≡ none
    → unprepare id op (accepted id t s) ≡ ok s
unfolding unprepare
unprepare-accepted id op t s h free =
    rw
      (
        unprepare,
        lookup-insert_self id t s.prepared,
        erase-insert id t s.prepared free,
        insert-erase 0 id t s.running h.rises h.here,
      )
      refl

unprepare-aborted :
    (id op : ℕ) (t : Transaction) (s : OccStore)
    → IsRunning id t s
    → lookup id s.prepared ≡ none
    → unprepare id op (aborted id op t s) ≡ ok s
unfolding unprepare set_running
unprepare-aborted id op t s h free =
    rw
      (
        unprepare,
        free,
        get_retired_txn-aborted id op t s h.number,
        insert-erase 0 id t s.running h.rises h.here,
      )
      refl

-- A running transaction that is not prepared too: after prepare, whether it has prepared the
-- transaction or aborted it, unprepare gives the store as it was.
pub unprepare-prepare :
    (id op : ℕ) (t : Transaction) (s s' : OccStore) (b : Bool)
    → IsRunning id t s
    → lookup id s.prepared ≡ none
    → prepare id op s ≡ ok (s', b)
    → unprepare id op s' ≡ ok s
unfolding prepare unprepare set_running
unprepare-prepare id op t s s' b h free e =
    let reads = reads_hold s.store (prepared_writes s.prepared) t.read_set in
    let (unchanged, checked, rest) = >>=-eq-ok reads _ (rw (h.here, prepare) at e) in
    let writes = writes_hold (prepared_read_writes s.prepared) t.write_set in
    elim (Bool-cases (unchanged && writes)) [
      | inl good ↦
          let same : s' ≡ accepted id t s = ground arith in
          subst (λ k. unprepare id op k ≡ ok s) (sym same) (unprepare-accepted id op t s h free)
      | inr bad ↦
          let same : s' ≡ aborted id op t s = ground (arith, abort_running id op t s h.here) in
          subst (λ k. unprepare id op k ≡ ok s) (sym same) (unprepare-aborted id op t s h free)
    ]

-- abort of a running transaction, and of a prepared one that is not running, is taken back by unabort:
-- the store is as it was.
pub unabort-abort_txn :
    (id op : ℕ) (t : Transaction) (s s' : OccStore)
    → IsRunning id t s ⊎ IsPrepared id t s
    → abort_txn id op s ≡ ok s'
    → unabort id op s' ≡ ok s
unfolding abort_txn unabort retire same_state
unabort-abort_txn id op t s s' (inl h) e =
    let last : ℕ × RetiredTxn = (op, record { txn = t; state = aborted_running }) in
    let same : s' ≡ aborted id op t s = ground (arith, abort_running id op t s h.here) in
    rw
      (
        same,
        unabort,
        last?-append s.retired last,
        take-append_one s.retired last,
        lookup-erase_self 0 id s.running h.rises,
        insert-erase 0 id t s.running h.rises h.here,
      )
      (ground (arith, h.number))
unabort-abort_txn id op t s s' (inr h) e =
    let last : ℕ × RetiredTxn = (op, record { txn = t; state = aborted_prepared }) in
    let same : s' ≡ record s { prepared = erase id s.prepared; retired = s.retired ++ last ∷ [] } =
      ground (arith, h.not_running, h.here) in
    rw
      (
        same,
        unabort,
        last?-append s.retired last,
        take-append_one s.retired last,
        lookup-erase_self 0 id s.prepared h.rises,
        insert-erase 0 id t s.prepared h.rises h.here,
      )
      (ground (arith, h.number))
