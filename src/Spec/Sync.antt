-- ===== src/Spec/Sync.antt =====
-- spec/replica.cc: HandleSync and HandleSyncReply.
use specpaxos.Base.{
  ℕ, not, Option, none, some, [], ◌∷◌, Result, ok, err, panicked, assertion, ltb, leb, ◌+◌, add64,
}
use specpaxos.Base.Code.{◌>>=◌, ◌>>◌, assert, asserted, if_null, if◌then◌else◌}
use specpaxos.Base.Dictionary.{Bytes, bytes_eq, Dictionary, find_key, set_key}
use specpaxos.Base.Map.{Map}
use specpaxos.Configuration.{fast_quorum_size}
use specpaxos.QuorumSet.{nat_key, add_and_check_for_quorum}
use specpaxos.Log.{LogEntry, find}
use specpaxos.Replica.{is_normal}
use specpaxos.Spec.Messages.{SyncMessage, SyncReplyMessage}
use specpaxos.Spec.State.{Environment, SpecReplica, am_leader}
use specpaxos.Spec.Actions.{on, start_view_change, send_sync_reply, commit_up_to}

-- How many replicas have sent each hash: `hashes.count`, for every key of the multimap.
unfoldable pub count_hash : Bytes → Dictionary ℕ → Dictionary ℕ
count_hash hash counts = elim (find_key hash counts) [
  | none ↦ set_key hash 1 counts
  | some n ↦ set_key hash (n + 1) counts
]

unfoldable pub count_hashes : Map SyncReplyMessage → Dictionary ℕ → Dictionary ℕ
count_hashes [] counts = counts
count_hashes ((i, m) ∷ msgs) counts = count_hashes msgs (count_hash m.last_speculative_hash counts)

-- The loop over the unique hashes. At most one may have been sent by a fast quorum.
unfoldable pub matching_hash : ℕ → Dictionary ℕ → Option Bytes → Result (Option Bytes)
matching_hash needed [] matching = ok matching
matching_hash needed ((hash, count) ∷ rest) matching = do
  matching' ←
      (if leb needed count
        then if_null matching (ok (some hash)) (λ other. err assertion)
        else ok matching)
  matching_hash needed rest matching'

module _ (env : Environment) where
  open env use {application}
  open application use {State}

  -- The rest of HandleSync, after what it commits.
  unfoldable pub answer_sync : SyncMessage → SpecReplica State → Result (SpecReplica State)
  answer_sync msg s =
      if ltb s.last_speculative msg.last_speculative
      then ok (record s { pending_sync = msg.last_speculative })
      else send_sync_reply msg.last_speculative s

  unfoldable pub handle_sync : SyncMessage → SpecReplica State → Result (SpecReplica State)
  handle_sync msg s =
      if not (is_normal s.status)
      then ok s
      else if ltb msg.view s.view
      then ok s
      else if ltb s.view msg.view
      then ok (start_view_change (add64 msg.view 1) s)
      else if am_leader s
      then err panicked
      else let s1 = record s { timers = record s.timers { view_change_timeout = on } } in
        if ltb s1.last_speculative msg.last_committed
        then ok (start_view_change (add64 s1.view 1) s1)
        else if ltb s1.last_committed msg.last_committed
        then (do
          found ← find msg.last_committed s1.log
          entry ← asserted found
          if bytes_eq entry.hash msg.last_committed_hash
              then (do s2 ← commit_up_to env msg.last_committed s1; answer_sync msg s2)
              else ok (start_view_change (add64 s1.view 1) s1))
        else answer_sync msg s1

  -- A hash that a fast quorum has sent. A replica whose own entry has another hash starts a view
  -- change, and does not return before it commits.
  unfoldable pub commit_matching :
      ℕ → LogEntry → Bytes → SpecReplica State → Result (SpecReplica State)
  commit_matching opnum entry matching s =
      commit_up_to env opnum
        (if not (bytes_eq entry.hash matching) then start_view_change (add64 s.view 1) s else s)

  -- With a quorum of SYNCREPLYs, and this replica's own entry.
  unfoldable pub compare_hashes :
      ℕ → Map SyncReplyMessage → SpecReplica State → Result (SpecReplica State)
  compare_hashes opnum msgs s = if leb opnum s.last_committed then ok s else do
    found ← find opnum s.log
    entry ← asserted found
    matching ←
        matching_hash (fast_quorum_size s.configuration)
          (count_hash entry.hash (count_hashes msgs [])) none
    if_null matching (ok (start_view_change (add64 s.view 1) s))
        λ hash. commit_matching opnum entry hash s

  unfoldable pub handle_sync_reply :
      SyncReplyMessage → SpecReplica State → Result (SpecReplica State)
  handle_sync_reply msg s =
      if not (is_normal s.status)
      then ok s
      else if ltb msg.view s.view
      then ok s
      else if ltb s.view msg.view
      then err panicked
      else if not (am_leader s)
      then err panicked
      else (do
        assert (leb msg.last_speculative s.last_speculative)
        let (q, msgs) =
            add_and_check_for_quorum msg.last_speculative msg.replica_idx msg s.sync_reply_quorum
        let s1 = record s { sync_reply_quorum = q }
        if_null msgs (ok s1) λ ms.
            compare_hashes msg.last_speculative ms
              (record s1 { timers = record s1.timers { failed_sync_timeout = on } }))
