-- ===== src/Spec/Install.antt =====
-- spec/replica.cc: InstallLog, which brings the log of a replica to the one of a new view.
use Prim.Native.Nat.{max, min}
use specpaxos.Base.{
  ℕ, zero, suc, ◌+◌, ◌-◌, Bool, true, false, not, Option, none, some, List, [], ◌∷◌, Result, ok,
  ltb, leb, ◌==◌, get_elem?, last?,
}
use specpaxos.Base.Code.{◌>>=◌, ◌>>◌, assert, asserted, deref, if◌then◌else◌}
use specpaxos.Base.Dictionary.{bytes_eq}
use specpaxos.Base.Map.{lookup}
use specpaxos.Log.{
  Log, LogEntry, SpeculativeReplyMessage, speculative, find, append, last_hash, is_committed,
}
use specpaxos.Replica.{execute}
use specpaxos.Spec.Messages.{speculative_reply_message}
use specpaxos.Spec.State.{to_address, Environment, SpecReplica, send}
use specpaxos.Spec.Actions.{update_client_table, commit_up_to, rollback_to}
use specpaxos.Spec.Merge.{is_speculative}

-- The last entry that is not speculative, which a loop from the end finds.
unfoldable pub last_not_speculative : List LogEntry → Option LogEntry
last_not_speculative [] = none
last_not_speculative (e ∷ es) =
    let later = last_not_speculative es in
    elim later [ some x ↦ some x | none ↦ if is_speculative e.state then none else some e ]

unfoldable pub opnum_or_zero : Option LogEntry → ℕ
opnum_or_zero none = 0
opnum_or_zero (some e) = e.viewstamp.opnum

-- What InstallLog reads off the entries first.
pub record Extent : Type 0 where
  pub new_last_committed : ℕ
  pub new_last_speculative : ℕ
  pub entries_start : ℕ

unfoldable pub extent : List LogEntry → Extent
extent [] = record { new_last_committed = 0; new_last_speculative = 0; entries_start = 0 }
extent (e ∷ es) = record {
  new_last_committed = opnum_or_zero (last_not_speculative (e ∷ es));
  new_last_speculative = opnum_or_zero (last? (e ∷ es));
  entries_start = e.viewstamp.opnum;
}

-- entries[i - entriesStart], which has to exist.
unfoldable pub new_entry_at : ℕ → ℕ → List LogEntry → Result LogEntry
new_entry_at i start entries =
    if ltb i start then deref none else deref (get_elem? entries (i - start))

-- The checks of an old entry against a new one, up to the hash.
unfoldable pub check_same : ℕ → LogEntry → LogEntry → Result (Unit {0})
check_same i old new = do
  assert (old.viewstamp.opnum == i)
  assert (new.viewstamp.opnum == i)
  assert (old.viewstamp.view == new.viewstamp.view)
  assert (bytes_eq old.request.op new.request.op)
  assert (old.request.clientid == new.request.clientid)
  assert (old.request.clientreqid == new.request.clientreqid)
  assert (bytes_eq old.hash new.hash)

-- The two loops of checks, with PARANOID. The second wants the old entries to be committed, too.
unfoldable pub check_old : Bool → ℕ → ℕ → ℕ → List LogEntry → Log → Result (Unit {0})
check_old is_second zero i start entries l = ok tt
check_old is_second (suc rounds) i start entries l = do
  found ← find i l
  old ← asserted found
  new ← new_entry_at i start entries
  check_same i old new
  (if is_second then assert (is_committed old.state) else ok tt)
  check_old is_second rounds (i + 1) start entries l

-- From `i` on, the first opnum at which the hashes differ, or the one after all rounds.
unfoldable pub first_mismatch : ℕ → ℕ → ℕ → List LogEntry → Log → Result ℕ
first_mismatch zero i start entries l = ok i
first_mismatch (suc rounds) i start entries l = do
  found ← find i l
  old ← asserted found
  new ← new_entry_at i start entries
  if not (bytes_eq old.hash new.hash) then ok i else first_mismatch rounds (i + 1) start entries l

module _ {A : Type 0} where
  -- The new lastCommitted, which is the old one if that is higher, when the logs agree up to it.
  unfoldable pub settle_committed : Extent → List LogEntry → SpecReplica A → Result ℕ
  settle_committed x entries s =
      if ltb x.new_last_committed s.last_committed
      then (do
        assert (leb s.last_committed x.new_last_speculative)
        let first = max (x.new_last_committed + 1) x.entries_start
        check_old false (s.last_committed + 1 - first) first x.entries_start entries s.log
        ok s.last_committed)
      else ok x.new_last_committed

  -- What the replica has committed had better match the log.
  unfoldable pub check_installed : ℕ → ℕ → List LogEntry → SpecReplica A → Result (Unit {0})
  check_installed new_last_committed start [] s = ok tt
  check_installed new_last_committed start (e ∷ es) s =
      check_old true (min s.last_committed new_last_committed - start) start start (e ∷ es) s.log

  -- The reply for an entry that has been executed.
  unfoldable pub installed_reply : LogEntry → List ℕ → SpecReplica A → SpeculativeReplyMessage
  installed_reply new res s = record {
    clientreqid = new.request.clientreqid;
    replica_idx = s.my_idx;
    view = new.viewstamp.view;
    opnum = new.viewstamp.opnum;
    loghash = last_hash s.log;
    reply = res;
    committed = is_committed new.state;
  }

  -- The reply goes to the client, if its address is known.
  unfoldable pub send_installed : ℕ → SpeculativeReplyMessage → SpecReplica A → SpecReplica A
  send_installed client reply s = elim (lookup client s.client_addresses) [
    | none ↦ s
    | some address ↦ send (to_address address (speculative_reply_message reply)) s
  ]

module _ (env : Environment) where
  open env use {application, sha1}
  open application use {State}

  -- Commit what the logs have in common.
  unfoldable pub commit_common :
      ℕ → ℕ → List LogEntry → SpecReplica State → Result (SpecReplica State)
  commit_common new_last_committed start entries s = do
    let first = max (s.last_committed + 1) start
    to_commit ←
        first_mismatch (min new_last_committed s.last_speculative + 1 - first) first start entries
          s.log
    if ltb start to_commit
        then (do
          s' ← commit_up_to env (to_commit - 1) s
          assert (s'.last_committed == to_commit - 1)
          ok s')
        else ok s

  -- Roll back what diverges.
  unfoldable pub rollback_diverging :
      ℕ → ℕ → List LogEntry → SpecReplica State → Result (SpecReplica State)
  rollback_diverging new_last_speculative start entries s = do
    let first = max (s.last_committed + 1) start
    first_diverging ←
        first_mismatch (min s.last_speculative new_last_speculative + 1 - first) first start entries
          s.log
    s' ← rollback_to env (first_diverging - 1) s
    assert (ltb s'.last_speculative first_diverging)
    ok s'

  -- One entry is appended and executed, as speculative, and its client gets a reply.
  unfoldable pub install_entry : LogEntry → SpecReplica State → Result (SpecReplica State)
  install_entry new s = do
    log' ← append sha1 new.viewstamp new.request speculative s.log
    let (res, app') = execute application new.viewstamp.opnum new.request s.app
    let s1 = record s { last_speculative = s.last_speculative + 1; log = log'; app = app' }
    let reply = installed_reply new res s1
    s2 ← update_client_table new.request reply (send_installed new.request.clientid reply s1)
    assert (bytes_eq (last_hash s2.log) new.hash)
    ok s2

  unfoldable pub install_new :
      ℕ → ℕ → ℕ → List LogEntry → SpecReplica State → Result (SpecReplica State)
  install_new zero i start entries s = ok s
  install_new (suc rounds) i start entries s = do
    new ← new_entry_at i start entries
    s' ← install_entry new s
    install_new rounds (i + 1) start entries s'

  -- InstallLog, from the commit of what the logs have in common.
  unfoldable pub install_extent :
      ℕ → Extent → List LogEntry → SpecReplica State → Result (SpecReplica State)
  install_extent new_last_committed x entries s = do
    s1 ← commit_common new_last_committed x.entries_start entries s
    assert (leb s1.last_committed new_last_committed)
    s2 ← rollback_diverging x.new_last_speculative x.entries_start entries s1
    s3 ←
        install_new (x.new_last_speculative - s2.last_speculative) (s2.last_speculative + 1)
          x.entries_start entries s2
    assert (s3.last_speculative == x.new_last_speculative)
    s4 ← commit_up_to env new_last_committed s3
    assert (s4.last_committed == new_last_committed)
    ok s4

  unfoldable pub install_log : List LogEntry → SpecReplica State → Result (SpecReplica State)
  install_log entries s = do
    let x = extent entries
    (elim entries [ [] ↦ assert (s.last_committed == 0) | e ∷ es ↦ ok tt ])
    new_last_committed ← settle_committed x entries s
    assert (leb s.last_committed new_last_committed)
    check_installed new_last_committed x.entries_start entries s
    install_extent new_last_committed x entries s
