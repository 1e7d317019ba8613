-- ===== src/Spec/LastEntry.antt =====
-- RollbackTo of spec/replica.cc, UpdateClientTable and the log, at the last entry.
use specpaxos.Base.{
  ℕ, ◌+◌, ◌-◌, ◌≤◌, ◌<◌, ◌≡◌, refl, ap, ◌∙◌, subst, false, some, List, [], ◌∷◌, ◌++◌, ok, arith,
  length, set, take, length-append, last?-append, take-append_one, get_elem?-length,
  get_elem?-append_left, sub64, sub64-eq-sub, inl, inr, Option-cases,
}
use specpaxos.Base.Code.{◌>>=◌, assert, asserted, deref, if◌then◌else◌}
use specpaxos.Base.Map.{Map, insert}
use specpaxos.Log.{
  Request, Log, LogEntry, SpeculativeReplyMessage, find, last, last_hash, remove_after,
  none_committed, last_opnum, is_committed,
}
use specpaxos.Log.WellFormed.{
  IsWellFormed, entry_at, entry_at_number, find_lem, last_opnum_lem, set-IsWellFormed,
}
use specpaxos.Replica.{rollback, rollback_requests}
use specpaxos.Spec.State.{ClientTableEntry, Environment, SpecReplica}
use specpaxos.Spec.Actions.{
  client_entry, set_last, previous_req_id, rollback_client, rollback_clients, update_client_table,
  rollback_to,
}

pub set-length_append :
    {A : Type 0} (xs : List A) (x y : A)
    → set (xs ++ x ∷ []) (length (xs ++ x ∷ []) - 1) y ≡ xs ++ y ∷ []
set-length_append xs x y =
    let idx : length (xs ++ x ∷ []) - 1 ≡ length xs = omega (arith, length-append xs (x ∷ [])) in
    rw idx (go xs)
  where
    go : (zs : List _) → set (zs ++ x ∷ []) (length zs) y ≡ zs ++ y ∷ []
    go [] = refl
    go (z ∷ zs) = ap (λ t. z ∷ t) (go zs)

-- A log with one speculative entry more, which has the next opnum.
abbrev pub extended : Log → LogEntry → Log
extended l e = record l { entries = l.entries ++ e ∷ [] }

module _ (l : Log) (e : LogEntry) (w : IsWellFormed (extended l e)) where
  size_extended : length (l.entries ++ e ∷ []) ≡ length l.entries + 1
  size_extended = omega (arith, length-append l.entries (e ∷ []))

  pub find_top : find (l.start + length l.entries) (extended l e) ≡ ok (some e)
  find_top =
      let idx : l.start + length l.entries - l.start ≡ length l.entries = omega arith in
      find_lem (l.start + length l.entries) (extended l e) w
      ∙ ap ok (ground (arith, idx, get_elem?-length l.entries e))

  -- RemoveAfter of the last opnum takes the entry back.
  pub remove_top :
      is_committed e.state ≡ false
      → IsWellFormed l
      → remove_after (l.start + length l.entries) (extended l e) ≡ ok l
  unfolding remove_after none_committed
  remove_top s v =
      let k = length l.entries in
      let top = last_opnum_lem (extended l e) w in
      let rounds : last_opnum (extended l e) + 1 - (l.start + k) ≡ 1 =
        omega (arith, top, size_extended, w.positive) in
      let bound = w.fits in
      let low = w.small in
      let gap : sub64 (l.start + k) l.start ≡ k =
        sub64-eq-sub (l.start + k) l.start (omega arith) (omega (arith, size_extended))
        ∙ omega arith in
      let fewer : length (l.entries ++ e ∷ []) - 1 ≡ k = omega (arith, size_extended) in
      let cut : take k (l.entries ++ e ∷ []) ≡ l.entries =
        subst (λ n. take n (l.entries ++ e ∷ []) ≡ l.entries) fewer (take-append_one l.entries e) in
      let below = last_opnum_lem l v in
      let one : sub64 (l.start + k) 1 ≡ l.start + k - 1 =
        sub64-eq-sub (l.start + k) 1 (omega (arith, v.positive)) (omega (arith, size_extended)) in
      rw (rounds, none_committed, gap, cut, find_top)
        (ground (arith, size_extended, top, below, one))

-- Bookkeeping of the last entry leaves a log well-formed.
pub retouched :
    (l : Log) (e e' : LogEntry)
    → IsWellFormed (extended l e)
    → e'.viewstamp ≡ e.viewstamp
    → IsWellFormed (extended l e')
retouched l e e' w same =
    let k = length l.entries in
    let fewer : length (l.entries ++ e ∷ []) - 1 ≡ k =
      omega (arith, length-append l.entries (e ∷ [])) in
    let idx : l.start + k - l.start ≡ k = omega arith in
    let here = get_elem?-length l.entries e in
    let number : e.viewstamp.opnum ≡ l.start + k =
      (entry_at_number (l.start + k) (extended l e) e w (ground (arith, idx))).2 in
    let changed = set-IsWellFormed k e' (extended l e) w (rw same number) in
    subst (λ es. IsWellFormed (record l { entries = es }))
      (subst (λ n. set (l.entries ++ e ∷ []) n e' ≡ l.entries ++ e' ∷ []) fewer
        (set-length_append l.entries e e'))
      changed

-- A longer log gives the client's request before as the shorter one does.
pub previous_extended :
    (previous id : ℕ) (l : Log) (e : LogEntry)
    → IsWellFormed l
    → IsWellFormed (extended l e)
    → previous_req_id previous l ≡ ok id
    → previous_req_id previous (extended l e) ≡ ok id
unfolding previous_req_id ◌>>=◌ asserted if◌then◌else◌
previous_extended previous id l e v w h = elim (Option-cases (entry_at previous l)) [
  | inl missing ↦ ground (arith, find_lem previous l v)
  | inr (old, here) ↦
      let bound = (entry_at_number previous l old v here).1 in
      let low = (entry_at_number previous l old v here).0 in
      let stays = get_elem?-append_left l.entries (e ∷ []) (previous - l.start) (omega arith) in
      ground (arith, find_lem previous l v, find_lem previous (extended l e) w)
]

-- What a replica knows of a client's last request.
abbrev pub last_request : {A : Type 0} → ℕ → SpecReplica A → ClientTableEntry
last_request client s = client_entry client s.client_table

pub last_hash_extended : (l : Log) (e : LogEntry) → last_hash (extended l e) ≡ e.hash
unfolding last_hash
last_hash_extended l e = rw (last?-append l.entries e, last_hash) refl

-- UpdateClientTable for a client's new request, of which the entry is the last one.
pub update_extended :
    {A : Type 0} (req : Request) (reply : SpeculativeReplyMessage) (s : SpecReplica A) (l : Log)
    (e : LogEntry)
    → (last_request req.clientid s).last_req_id < req.clientreqid
    → update_client_table req reply (record s { log = extended l e })
      ≡ ok (record s {
        log = extended l (record e {
          prev_client_req_opnum = some (last_request req.clientid s).last_req_opnum;
          reply_message = some reply;
        });
        client_table =
            insert req.clientid
              (record { last_req_id = req.clientreqid; last_req_opnum = e.viewstamp.opnum })
              s.client_table;
      })
unfolding update_client_table set_last last ◌>>=◌ deref assert if◌then◌else◌
update_extended req reply s l e newer =
    let e' : LogEntry = record e {
      prev_client_req_opnum = some (last_request req.clientid s).last_req_opnum;
      reply_message = some reply;
    } in
    rw (last?-append l.entries e, set-length_append l.entries e e') (ground arith)

-- One round of RollbackTo, at the last entry.
pub rollback_client_top :
    (op : ℕ) (l : Log) (e : LogEntry) (previous id : ℕ) (table : Map ClientTableEntry)
    → IsWellFormed l
    → IsWellFormed (extended l e)
    → op ≡ l.start + length l.entries
    → (client_entry e.request.clientid table).last_req_opnum ≡ e.viewstamp.opnum
    → e.prev_client_req_opnum ≡ some previous
    → previous_req_id previous l ≡ ok id
    → rollback_client op (extended l e) table
      ≡ ok
          (insert e.request.clientid (record { last_req_id = id; last_req_opnum = previous }) table)
unfolding rollback_client ◌>>=◌ asserted deref assert
rollback_client_top op l e previous id table v w number same prev before =
    let found : find op (extended l e) ≡ ok (some e) = rw number (find_top l e w) in
    let after = previous_extended previous id l e v w before in
    rw (found, same) (ground (arith, prev, after))

module _ (env : Environment) where
  open env use {application}
  open application use {State, rollback_upcall}

  -- RollbackTo the opnum before the last one.
  pub rollback_to_top :
      (n previous id : ℕ) (l : Log) (e : LogEntry) (s : SpecReplica State)
      → IsWellFormed l
      → IsWellFormed (extended l e)
      → l.start ≡ 1
      → n ≡ length l.entries
      → s.last_committed ≤ n
      → is_committed e.state ≡ false
      → (client_entry e.request.clientid s.client_table).last_req_opnum ≡ e.viewstamp.opnum
      → e.prev_client_req_opnum ≡ some previous
      → previous_req_id previous l ≡ ok id
      → rollback_to env n (record s { log = extended l e; last_speculative = n + 1 })
        ≡ ok (record s {
          client_table =
              insert e.request.clientid
                (record { last_req_id = id; last_req_opnum = previous })
                s.client_table;
          app = rollback_upcall (n + 1) n ((n + 1, e.request.op) ∷ []) s.app;
          log = l;
          last_speculative = n;
        })
  unfolding rollback_to rollback_clients rollback rollback_requests ◌>>=◌ assert deref insert
      if◌then◌else◌
  rollback_to_top n previous id l e s v w one size room state same prev before =
      let number : n + 1 ≡ l.start + length l.entries = omega arith in
      let found : find (n + 1) (extended l e) ≡ ok (some e) = rw number (find_top l e w) in
      let rounds : n + 1 - n ≡ 1 = omega arith in
      let client =
        rollback_client_top (n + 1) l e previous id s.client_table v w number same prev before in
      let removed : remove_after (n + 1) (extended l e) ≡ ok l =
        rw number (remove_top l e w state v) in
      rw (rounds, rollback_clients, client, rollback_requests, found, removed) (ground arith)
