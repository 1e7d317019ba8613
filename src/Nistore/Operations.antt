-- ===== src/Nistore/Operations.antt =====
-- The operations of TxnStore (nistore/txnstore.h) on an OccStore, in any order: all but those that
-- take back a commit or an abort.
use specpaxos.Base.{
  ℕ, ◌≡◌, Bool, Option, List, [], ◌∷◌, Result, ok, ◌>>=◌, inl, inr, arith, Option-cases, >>=-eq-ok,
  ok-injective, subst, sym, Bool-cases, ◌&&◌,
}
use specpaxos.Base.Map.{lookup, insert, erase}
use specpaxos.Base.Dictionary.{Bytes}
use specpaxos.Nistore.Occ.{
  Read, Transaction, OccStore, set_running, begin, unbegin, get_txn, get_value, put_value, unget,
  unput, read_again, read_first, get_retired_txn, prepared_writes, prepared_read_writes,
}
use specpaxos.Nistore.Commit.{
  prepare, unprepare, commit, abort_txn, retire, reads_hold, writes_hold, spec_commit,
}
use specpaxos.Nistore.Isolation.{IsIsolated, insert-IsIsolated, erase-IsIsolated}

pub data Operation : Type 0 where
  begins unbegins : ℕ → Operation
  gets ungets : ℕ → Bytes → Operation
  puts unputs : ℕ → Bytes → Bytes → Operation
  prepares unprepares aborts : ℕ → ℕ → Operation
  commits : ℕ → ℕ → ℕ → Operation
  spec_commits : ℕ → Operation

unfoldable pub perform : Operation → OccStore → Result OccStore
unfolding begin unbegin get_value put_value prepare commit spec_commit
perform (begins id) s = ok (begin id s)
perform (unbegins id) s = ok (unbegin id s)
perform (gets id key) s = do (s', value) ← get_value id key s; ok s'
perform (ungets id key) s = unget id key s
perform (puts id key value) s = put_value id key value s
perform (unputs id key value) s = unput id key value s
perform (prepares id op) s = do (s', prepared) ← prepare id op s; ok s'
perform (unprepares id op) s = unprepare id op s
perform (aborts id op) s = abort_txn id op s
perform (commits id timestamp op) s = commit id timestamp op s
perform (spec_commits op) s = ok (spec_commit op s)

unfoldable pub perform_all : List Operation → OccStore → Result OccStore
unfolding perform
perform_all [] s = ok s
perform_all (o ∷ os) s = do s' ← perform o s; perform_all os s'

get_txn-prepared :
    (id : ℕ) (s s' : OccStore) (t : Transaction)
    → get_txn id s ≡ ok (t, s')
    → s'.prepared ≡ s.prepared
unfolding get_txn set_running
get_txn-prepared id s s' t e = ground arith

read_again-prepared :
    (id : ℕ) (key : Bytes) (t : Transaction) (r : Read) (s s' : OccStore) (v : Option Bytes)
    → read_again id key t r s ≡ ok (s', v)
    → s'.prepared ≡ s.prepared
unfolding read_again set_running
read_again-prepared id key t r s s' v e = ground arith

read_first-prepared :
    (id : ℕ) (key : Bytes) (t : Transaction) (s s' : OccStore) (v : Option Bytes)
    → read_first id key t s ≡ ok (s', v)
    → s'.prepared ≡ s.prepared
unfolding read_first set_running
read_first-prepared id key t s s' v e = ground arith

get_value-prepared :
    (id : ℕ) (key : Bytes) (s s' : OccStore) (v : Option Bytes)
    → get_value id key s ≡ ok (s', v)
    → s'.prepared ≡ s.prepared
unfolding get_value
get_value-prepared id key s s' v e =
    let ((t, k), first, rest) = >>=-eq-ok (get_txn id s) _ e in
    ground (
      arith,
      get_txn-prepared id s k t first,
      (λ (r : Read). read_again-prepared id key t r k s' v),
      read_first-prepared id key t k s' v,
    )

put_value-prepared :
    (id : ℕ) (key value : Bytes) (s s' : OccStore)
    → put_value id key value s ≡ ok s'
    → s'.prepared ≡ s.prepared
unfolding put_value set_running
put_value-prepared id key value s s' e =
    let ((t, k), first, rest) = >>=-eq-ok (get_txn id s) _ e in
    ground (arith, get_txn-prepared id s k t first)

unget-prepared :
    (id : ℕ) (key : Bytes) (s s' : OccStore) → unget id key s ≡ ok s' → s'.prepared ≡ s.prepared
unfolding unget set_running
unget-prepared id key s s' e =
    let ((t, k), first, rest) = >>=-eq-ok (get_txn id s) _ e in
    ground (arith, get_txn-prepared id s k t first)

unput-prepared :
    (id : ℕ) (key value : Bytes) (s s' : OccStore)
    → unput id key value s ≡ ok s'
    → s'.prepared ≡ s.prepared
unfolding unput set_running
unput-prepared id key value s s' e =
    let ((t, k), first, rest) = >>=-eq-ok (get_txn id s) _ e in
    ground (arith, get_txn-prepared id s k t first)

abort_txn-IsIsolated :
    (id op : ℕ) (s s' : OccStore)
    → IsIsolated s.prepared
    → abort_txn id op s ≡ ok s'
    → IsIsolated s'.prepared
unfolding abort_txn retire
abort_txn-IsIsolated id op s s' h e = elim (Option-cases (lookup id s.running)) [
  | inl none_running ↦ elim (Option-cases (lookup id s.prepared)) [
    | inl none_prepared ↦ absurd (ground arith)
    | inr (t, here) ↦
        let same : erase id s.prepared ≡ s'.prepared = ground arith in
        subst IsIsolated same (erase-IsIsolated id s.prepared h)
  ]
  | inr (t, here) ↦ let same : s.prepared ≡ s'.prepared = ground arith in subst IsIsolated same h
]

prepare-IsIsolated :
    (id op : ℕ) (b : Bool) (s s' : OccStore)
    → IsIsolated s.prepared
    → prepare id op s ≡ ok (s', b)
    → IsIsolated s'.prepared
unfolding prepare
prepare-IsIsolated id op b s s' h e = elim (Option-cases (lookup id s.running)) [
  | inl none_running ↦ let same : s.prepared ≡ s'.prepared = ground arith in subst IsIsolated same h
  | inr (t, here) ↦
      let reads = reads_hold s.store (prepared_writes s.prepared) t.read_set in
      let (unchanged, checked, rest) = >>=-eq-ok reads _ (rw (here, prepare) at e) in
      let writes = writes_hold (prepared_read_writes s.prepared) t.write_set in
      elim (Bool-cases (unchanged && writes)) [
        | inl good ↦
            let same : insert id t s.prepared ≡ s'.prepared = ground arith in
            subst IsIsolated same
              (insert-IsIsolated s.store id t s.prepared h (ground arith) (ground arith))
        | inr bad ↦ abort_txn-IsIsolated id op s s' h (ground arith)
      ]
]

commit-IsIsolated :
    (id timestamp op : ℕ) (s s' : OccStore)
    → IsIsolated s.prepared
    → commit id timestamp op s ≡ ok s'
    → IsIsolated s'.prepared
unfolding commit retire
commit-IsIsolated id timestamp op s s' h e =
    let same : erase id s.prepared ≡ s'.prepared = ground arith in
    subst IsIsolated same (erase-IsIsolated id s.prepared h)

unprepare-IsIsolated :
    (id op : ℕ) (s s' : OccStore)
    → IsIsolated s.prepared
    → unprepare id op s ≡ ok s'
    → IsIsolated s'.prepared
unfolding unprepare get_retired_txn set_running
unprepare-IsIsolated id op s s' h e = elim (Option-cases (lookup id s.prepared)) [
  | inl missing ↦ let same : s.prepared ≡ s'.prepared = ground arith in subst IsIsolated same h
  | inr (t, here) ↦
      let same : erase id s.prepared ≡ s'.prepared = ground arith in
      subst IsIsolated same (erase-IsIsolated id s.prepared h)
]

perform-IsIsolated :
    (o : Operation) (s s' : OccStore)
    → IsIsolated s.prepared
    → perform o s ≡ ok s'
    → IsIsolated s'.prepared
unfolding perform begin unbegin set_running spec_commit
perform-IsIsolated (begins id) s s' h e =
    let same : s.prepared ≡ s'.prepared = ground arith in subst IsIsolated same h
perform-IsIsolated (unbegins id) s s' h e =
    let same : s.prepared ≡ s'.prepared = ground arith in subst IsIsolated same h
perform-IsIsolated (gets id key) s s' h e =
    let ((k, v), first, rest) = >>=-eq-ok (get_value id key s) _ e in
    let same : s.prepared ≡ s'.prepared = ground (arith, get_value-prepared id key s k v first) in
    subst IsIsolated same h
perform-IsIsolated (ungets id key) s s' h e =
    subst IsIsolated (sym (unget-prepared id key s s' e)) h
perform-IsIsolated (puts id key value) s s' h e =
    subst IsIsolated (sym (put_value-prepared id key value s s' e)) h
perform-IsIsolated (unputs id key value) s s' h e =
    subst IsIsolated (sym (unput-prepared id key value s s' e)) h
perform-IsIsolated (prepares id op) s s' h e =
    let ((k, b), first, rest) = >>=-eq-ok (prepare id op s) _ e in
    subst (λ (r : OccStore). IsIsolated r.prepared) (ok-injective rest)
      (prepare-IsIsolated id op b s k h first)
perform-IsIsolated (unprepares id op) s s' h e = unprepare-IsIsolated id op s s' h e
perform-IsIsolated (aborts id op) s s' h e = abort_txn-IsIsolated id op s s' h e
perform-IsIsolated (commits id timestamp op) s s' h e = commit-IsIsolated id timestamp op s s' h e
perform-IsIsolated (spec_commits op) s s' h e =
    let same : s.prepared ≡ s'.prepared = ground arith in subst IsIsolated same h

-- After any operations but uncommit and unabort, in any order and of any transactions, that do not
-- fail a check: if no prepared transaction wrote what another prepared one had read or written, that
-- is still so.
pub perform_all-IsIsolated :
    (os : List Operation) (s s' : OccStore)
    → IsIsolated s.prepared
    → perform_all os s ≡ ok s'
    → IsIsolated s'.prepared
unfolding perform_all
perform_all-IsIsolated [] s s' h e =
    subst (λ (r : OccStore). IsIsolated r.prepared) (ok-injective e) h
perform_all-IsIsolated (o ∷ os) s s' h e =
    let (k, first, rest) = >>=-eq-ok (perform o s) _ e in
    perform_all-IsIsolated os k s' (perform-IsIsolated o s k h first) rest
