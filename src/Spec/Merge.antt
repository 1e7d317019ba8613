-- ===== src/Spec/Merge.antt =====
-- spec/replica.cc: MergeLogs, which makes one log of those in the DOVIEWCHANGE messages.
use Prim.Native.Nat.{max, min}
use specpaxos.Base.{
  ℕ, zero, suc, ◌+◌, ◌-◌, ◌%◌, ◌^◌, Bool, true, false, ◌&&◌, ◌||◌, Option, none, some, List, [],
  ◌∷◌, ◌++◌, Result, ok, err, undefined, ltb, leb, ◌==◌, get_elem?, last?, add64, sub64,
}
use specpaxos.Base.Code.{◌>>=◌, ◌>>◌, assert, deref, if_null, if◌then◌else◌}
use specpaxos.Base.Dictionary.{Bytes, bytes_eq, Dictionary, find_key, set_key}
use specpaxos.Base.Map.{Map}
use specpaxos.Configuration.{Configuration, fast_quorum_size}
use specpaxos.Log.{
  Request, LogEntry, LogEntryState, EntryMessage, committed, speculative, empty_hash, is_committed,
  new_entry, compute_hash,
}
use specpaxos.Spec.Messages.{DoViewChangeMessage}

unfoldable pub is_speculative : LogEntryState → Bool
is_speculative speculative = true
is_speculative _ = false

-- LogEntry's constructor with a hash.
unfoldable pub entry_of : ℕ → ℕ → LogEntryState → Request → Bytes → LogEntry
entry_of view opnum state req hash =
    record (new_entry (record { view = view; opnum = opnum }) state req) { hash = hash }

-- The log that is made: `out`, the requests in it by client and number, and the next opnum.
pub record Merge : Type 0 where
  pub out : List LogEntry
  pub seen : List (ℕ × ℕ)
  pub next : ℕ

abbrev pub request_id : Request → ℕ × ℕ
request_id r = (r.clientid, r.clientreqid)

-- seen.find(id) != seen.end()
unfoldable pub is_seen : ℕ × ℕ → List (ℕ × ℕ) → Bool
is_seen id [] = false
is_seen id (x ∷ xs) = let later = is_seen id xs in (x.0 == id.0 && x.1 == id.1) || later

-- An entry at the end of `out`, of which the request is seen now.
unfoldable pub add_entry : LogEntry → Merge → Merge
add_entry e m = record m { out = m.out ++ e ∷ []; seen = request_id e.request ∷ m.seen }

-- The highest normal view, and the messages with it.
unfoldable pub latest_messages :
    Map DoViewChangeMessage → ℕ × List DoViewChangeMessage → ℕ × List DoViewChangeMessage
latest_messages [] found = found
latest_messages ((i, m) ∷ ms) found =
    let found1 = if ltb found.0 m.last_normal_view then (m.last_normal_view, []) else found in
    latest_messages ms
      (if m.last_normal_view == found1.0 then (found1.0, found1.1 ++ m ∷ []) else found1)

-- *std::max_element, the first of the greatest, which an empty range does not have.
unfoldable pub greatest_from :
    (DoViewChangeMessage → ℕ) → DoViewChangeMessage → List DoViewChangeMessage → DoViewChangeMessage
greatest_from f best [] = best
greatest_from f best (m ∷ ms) = greatest_from f (if ltb (f best) (f m) then m else best) ms

unfoldable pub greatest :
    (DoViewChangeMessage → ℕ) → List DoViewChangeMessage → Result DoViewChangeMessage
greatest f [] = err undefined
greatest f (m ∷ ms) = ok (greatest_from f m ms)

-- The committed entries of the log with the most of them, up to `upto`.
unfoldable pub take_committed : ℕ → ℕ → List EntryMessage → Merge → Result Merge
take_committed max_start upto [] m = ok m
take_committed max_start upto (entry ∷ entries) m =
    let skip = take_committed max_start upto entries m in
    if ltb entry.opnum max_start then skip else if ltb upto entry.opnum then ok m else (do
      assert (is_committed entry.state)
      let e = entry_of entry.view entry.opnum committed entry.request entry.hash
      take_committed max_start upto entries (record (add_entry e m) { next = entry.opnum }))

-- msg.entries(opnum - msg.entries(0).opnum()): the index is an int.
unfoldable pub entry_at_opnum : ℕ → DoViewChangeMessage → Result EntryMessage
entry_at_opnum opnum msg = do
  first ← deref (get_elem? msg.entries 0)
  entry ← deref (get_elem? msg.entries (sub64 opnum first.opnum % 2 ^ 32))
  assert (entry.opnum == opnum)
  ok entry

-- What is known of a hash: hashCount, reqsByHash and viewnumByHash.
pub record Tally : Type 0 where
  pub count : ℕ
  pub request : Request
  pub view : ℕ

unfoldable pub tally_entry : EntryMessage → Dictionary Tally → Result (Dictionary Tally)
tally_entry entry tallies = elim (find_key entry.hash tallies) [
  | none ↦
      let first : Tally = record { count = 1; request = entry.request; view = entry.view } in
      ok (set_key entry.hash first tallies)
  | some t ↦
      assert (bytes_eq entry.request.op t.request.op)
      >> assert (entry.view == t.view)
      >> ok (set_key entry.hash (record t { count = t.count + 1 }) tallies)
]

unfoldable pub tally_messages :
    ℕ → List DoViewChangeMessage → Dictionary Tally → Result (Dictionary Tally)
tally_messages next [] tallies = ok tallies
tally_messages next (msg ∷ msgs) tallies = do
  tallies' ←
      (if ltb msg.last_speculative next
        then ok tallies
        else (do entry ← entry_at_opnum next msg; tally_entry entry tallies))
  tally_messages next msgs tallies'

-- The hash with enough matching entries, of which there may be one at most.
unfoldable pub choose_tally :
    ℕ → Dictionary Tally → Option (Bytes × Tally) → Result (Option (Bytes × Tally))
choose_tally needed [] chosen = ok chosen
choose_tally needed ((hash, t) ∷ rest) chosen = do
  chosen' ←
      (if leb needed t.count
        then assert (elim chosen [ none ↦ true | some c ↦ false ]) >> ok (some (hash, t))
        else ok chosen)
  choose_tally needed rest chosen'

unfoldable pub matching_entries_needed : Configuration → ℕ → ℕ
matching_entries_needed config messages = min (fast_quorum_size config - config.f) messages

-- One round: the entry that enough logs have at the opnum `next`.
unfoldable pub merge_round : ℕ → List DoViewChangeMessage → Bool → Merge → Result (Merge × Bool)
merge_round needed msgs last_found m = do
  tallies ← tally_messages m.next msgs []
  chosen ← choose_tally needed tallies none
  let m' = record m { next = add64 m.next 1 }
  if_null chosen (ok (m', false)) λ c.
      assert last_found
      >> ok (add_entry (entry_of c.1.view m.next speculative c.1.request c.0) m', true)

-- for (; next <= maxSpeculative; next++), with PARANOID: once no entry is found, none may be later.
unfoldable pub merge_rounds : ℕ → ℕ → List DoViewChangeMessage → Bool → Merge → Result Merge
merge_rounds zero needed msgs last_found m = ok m
merge_rounds (suc rounds) needed msgs last_found m = do
  (m', found) ← merge_round needed msgs last_found m
  merge_rounds rounds needed msgs found m'

-- A speculative operation that is not seen yet gets a new place in the new view. The hash is that of
-- the last entry that was made.
unfoldable pub add_unseen : (Bytes → Bytes) → ℕ → EntryMessage → Merge × Bytes → Merge × Bytes
add_unseen sha1 new_view entry (m, hash) =
    if is_seen (request_id entry.request) m.seen
    then (m, hash)
    else let e = entry_of new_view m.next speculative entry.request empty_hash in
      let hash' = compute_hash sha1 hash e in
      (record (add_entry (record e { hash = hash' }) m) { next = add64 m.next 1 }, hash')

unfoldable pub add_speculative :
    (Bytes → Bytes) → ℕ → ℕ → ℕ → DoViewChangeMessage → Merge × Bytes → Result (Merge × Bytes)
add_speculative sha1 new_view zero i msg m = ok m
add_speculative sha1 new_view (suc rounds) i msg m = do
  entry ← entry_at_opnum i msg
  add_speculative sha1 new_view rounds (i + 1) msg (add_unseen sha1 new_view entry m)

unfoldable pub add_all_speculative :
    (Bytes → Bytes) → ℕ → ℕ → List DoViewChangeMessage → Merge × Bytes → Result (Merge × Bytes)
add_all_speculative sha1 new_view max_start [] m = ok m
add_all_speculative sha1 new_view max_start (msg ∷ msgs) m = do
  let first = max (msg.last_committed + 1) max_start
  m' ← add_speculative sha1 new_view (msg.last_speculative + 1 - first) first msg m
  add_all_speculative sha1 new_view max_start msgs m'

-- From where the new entries go on: after the last one, or from opnum 1.
unfoldable pub continue_merge : Merge → Merge × Bytes
continue_merge m = elim (last? m.out) [
  | none ↦ (record m { next = 1 }, empty_hash)
  | some e ↦ (record m { next = add64 e.viewstamp.opnum 1 }, e.hash)
]

-- next++, and the check of it.
unfoldable pub after_committed : ℕ → Merge → Result Merge
after_committed max_start m = do
  let next = add64 m.next 1
  (if ltb 1 next
      then (do e ← deref (last? m.out); assert (add64 e.viewstamp.opnum 1 == next))
      else ok tt)
  ok (record m { next = max next max_start })
