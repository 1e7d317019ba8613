-- ===== src/Spec/MergeChecks.antt =====
-- spec/replica.cc: the checks of MergeLogs, which PARANOID turns on, and MergeLogs with them.
use specpaxos.Base.{
  ℕ, ◌+◌, ◌-◌, Bool, true, false, not, ◌&&◌, List, [], ◌∷◌, Result, ok, ltb, leb, ◌==◌, length,
  get_elem?, add64,
}
use specpaxos.Base.Code.{◌>>=◌, ◌>>◌, assert, deref, if◌then◌else◌}
use specpaxos.Base.Dictionary.{Bytes, bytes_eq}
use specpaxos.Base.Map.{Map}
use specpaxos.Configuration.{quorum_size}
use specpaxos.Log.{LogEntry, EntryMessage, is_committed, compute_hash}
use specpaxos.Spec.Messages.{DoViewChangeMessage}
use specpaxos.Spec.State.{SpecReplica}
use specpaxos.Spec.Merge.{
  is_speculative, Merge, latest_messages, greatest, take_committed, after_committed,
  matching_entries_needed, merge_rounds, continue_merge, add_all_speculative,
}

-- What the first check keeps of the entry before.
pub record Before : Type 0 where
  pub last_opnum : ℕ
  pub last_view : ℕ
  pub seen_speculative : Bool
  pub last_hash : Bytes

unfoldable pub check_link : (Bytes → Bytes) → LogEntry → Before → Result (Unit {0})
check_link sha1 entry b =
    if not (b.last_opnum == 0)
    then (do
      assert (entry.viewstamp.opnum == add64 b.last_opnum 1)
      assert (leb b.last_view entry.viewstamp.view)
      (if b.seen_speculative then assert (is_speculative entry.state) else ok tt)
      assert (bytes_eq entry.hash (compute_hash sha1 b.last_hash entry)))
    else ok tt

-- The log is well-formed: opnums without gaps, views that do not fall, and a chain of hashes.
unfoldable pub check_chain : (Bytes → Bytes) → List LogEntry → Before → Result (Unit {0})
check_chain sha1 [] b = ok tt
check_chain sha1 (entry ∷ entries) b = do
  check_link sha1 entry b
  check_chain sha1 entries (record {
    last_opnum = entry.viewstamp.opnum;
    last_view = entry.viewstamp.view;
    seen_speculative = is_speculative entry.state;
    last_hash = entry.hash;
  })

unfoldable pub same_entry : EntryMessage → LogEntry → Bool
same_entry entry e =
    e.viewstamp.view == entry.view
    && e.viewstamp.opnum == entry.opnum
    && bytes_eq e.request.op entry.request.op
    && e.request.clientid == entry.request.clientid
    && e.request.clientreqid == entry.request.clientreqid
    && bytes_eq e.hash entry.hash

-- A committed entry of an old log has the same place in the new one.
unfoldable pub check_committed : List LogEntry → EntryMessage → Result (Unit {0})
check_committed out entry = if not (is_committed entry.state) then ok tt else do
  first ← deref (get_elem? out 0)
  if ltb entry.opnum first.viewstamp.opnum then ok tt else (do
    e ← deref (get_elem? out (entry.opnum - first.viewstamp.opnum))
    assert (same_entry entry e))

-- How often a request is in the new log: once.
unfoldable pub check_once : EntryMessage → List LogEntry → Bool → Result (Unit {0})
check_once entry [] found = assert found
check_once entry (e ∷ out) found = do
  let same =
      e.request.clientid == entry.request.clientid
      && e.request.clientreqid == entry.request.clientreqid
  (if same then assert (not found) >> assert (bytes_eq e.request.op entry.request.op) else ok tt)
  check_once entry out (if same then true else found)

-- A speculative entry of the latest view is in the new log, somewhere.
unfoldable pub check_speculative : ℕ → ℕ → List LogEntry → EntryMessage → Result (Unit {0})
check_speculative max_start latest_view out entry =
    if ltb entry.opnum max_start
    then ok tt
    else if not (is_speculative entry.state)
    then ok tt
    else if not (entry.view == latest_view)
    then ok tt
    else check_once entry out false

unfoldable pub check_entries :
    (EntryMessage → Result (Unit {0})) → List EntryMessage → Result (Unit {0})
check_entries check [] = ok tt
check_entries check (entry ∷ entries) = check entry >> check_entries check entries

unfoldable pub check_messages :
    (EntryMessage → Result (Unit {0})) → Map DoViewChangeMessage → Result (Unit {0})
check_messages check [] = ok tt
check_messages check ((i, m) ∷ ms) = check_entries check m.entries >> check_messages check ms

module _ {A : Type 0} (sha1 : Bytes → Bytes) where
  -- MergeLogs, of the messages with the highest normal view.
  unfoldable pub merge_latest :
      ℕ → ℕ → List DoViewChangeMessage → SpecReplica A → Result (Merge × Bytes)
  merge_latest new_view max_start latest s = do
    most_committed ← greatest (λ m. m.last_committed) latest
    m1 ←
        take_committed max_start most_committed.last_committed most_committed.entries
          (record { out = []; seen = []; next = 0 })
    m2 ← after_committed max_start m1
    most_speculative ← greatest (λ m. m.last_speculative) latest
    m3 ←
        merge_rounds (most_speculative.last_speculative + 1 - m2.next)
          (matching_entries_needed s.configuration (length latest)) latest true m2
    add_all_speculative sha1 new_view max_start latest (continue_merge m3)

  unfoldable pub merge_logs :
      ℕ → ℕ → Map DoViewChangeMessage → SpecReplica A → Result (List LogEntry)
  merge_logs new_view max_start dvcs s = do
    assert (leb (quorum_size s.configuration) (length dvcs))
    assert (leb max_start s.last_speculative)
    let (latest_view, latest) = latest_messages dvcs (0, [])
    (m, hash) ← merge_latest new_view max_start latest s
    check_chain sha1 m.out
        (record { last_opnum = 0; last_view = 0; seen_speculative = false; last_hash = hash })
    check_messages (check_committed m.out) dvcs
    check_messages (check_speculative max_start latest_view m.out) dvcs
    ok m.out
