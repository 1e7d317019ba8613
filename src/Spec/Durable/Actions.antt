-- ===== src/Spec/Durable/Actions.antt =====
-- Committed operations under the shared actions of spec/replica.cc, from CommitUpTo to SendSyncReply.
use specpaxos.Base.{
  ℕ, zero, suc, ◌+◌, ◌-◌, ◌≤◌, ◌≡◌, refl, sym, ◌∙◌, subst, Bool, true, some, ok, arith,
  ok-injective, length, get_elem?, Option-cases, inl, inr, get_elem?_of_last?, length-take,
}
use specpaxos.Base.Code.{
  Ensures, returns, faults, Ensures-if, Ensures-assert, Ensures-bind, Ensures-ok, Ensures-deref,
}
use specpaxos.Log.{
  Log, LogEntry, Request, SpeculativeReplyMessage, set_status, committed, last, remove_after,
}
use specpaxos.Log.WellFormed.{find_lem, entry_at}
use specpaxos.Log.Stable.{set_status_commit, remove_after_inv, remove_after-Keeps}
use specpaxos.Spec.State.{SpecReplica, Environment, send}
use specpaxos.Spec.Durable.{
  Progress, progress, IsSound, Extends, Extends-commit, Extends-Keeps, Extends-retouch, From, core,
}
use specpaxos.Spec.Actions.{
  set_last, update_client_table, start_view_change, send_sync, send_sync_reply, commit_next,
  commit_rounds, commit_up_to, rollback_to,
}

module _ {A : Type 0} {p : Progress} where
  -- An action that leaves the progress.
  pub From-eq : (s s' : SpecReplica A) → progress s' ≡ progress s → From p s → From p s'
  From-eq s s' e h = subst (Extends p) (sym e) h

  pub update_client_table-From :
      (req : Request) (reply : SpeculativeReplyMessage) (s : SpecReplica A)
      → From p s
      → Ensures (From p) (update_client_table req reply s)
  unfolding update_client_table set_last last core
  update_client_table-From req reply s h = Ensures-assert _ λ _. Ensures-deref _ λ entry e.
      returns (
        Extends-retouch (length s.log.entries - 1) entry _ h (get_elem?_of_last? s.log.entries e)
          refl)

  pub start_view_change-From :
      (view : ℕ) (s : SpecReplica A) → From p s → From p (start_view_change view s)
  unfolding start_view_change send
  start_view_change-From view s h = h

  pub send_sync-From : (s : SpecReplica A) → From p s → Ensures (From p) (send_sync s)
  unfolding send_sync send
  send_sync-From s h = Ensures-assert _ λ _. Ensures-assert _ λ _. Ensures-ok _ λ hash _. returns h

  pub send_sync_reply-From :
      (opnum : ℕ) (s : SpecReplica A) → From p s → Ensures (From p) (send_sync_reply opnum s)
  unfolding send_sync_reply send
  send_sync_reply-From opnum s h = Ensures-ok _ λ hash _. returns h

module _ (env : Environment) where
  open env use {application}
  open application use {State}

  -- SetStatus succeeds when the log has the entry.
  marked_entry :
      (s : SpecReplica State) (marked : Log × Bool)
      → IsSound (progress s)
      → set_status (s.last_committed + 1) committed s.log ≡ ok marked
      → marked.1 ≡ true
      → (e : LogEntry) × (get_elem? s.log.entries s.last_committed ≡ some e)
  unfolding set_status
  marked_entry s marked h m success =
      let w = h.has_committed.well_formed in
      let looked = find_lem (s.last_committed + 1) s.log w in
      elim (Option-cases (entry_at (s.last_committed + 1) s.log)) [
        | inl missing ↦ absurd (ground arith)
        | inr (e, here) ↦ (e, ground (arith, h.from_one))
      ]

  commit_next-From :
      {p : Progress} (s : SpecReplica State) → From p s → Ensures (From p) (commit_next env s)
  unfolding commit_next
  commit_next-From {p} s h = Ensures-ok _ λ marked m.
      Ensures-if _
        (λ success.
          let (e, here) = marked_entry s marked h.is_sound m success in
          let number : s.last_committed + 1 ≡ s.log.start + s.last_committed =
            omega (arith, h.is_sound.from_one) in
          let marks =
            set_status_commit h.is_sound.has_committed (s.last_committed + 1) e number here in
          let same = ok-injective (sym m ∙ marks) in returns (rw same (Extends-commit e h here)))
        (λ _. faults)

  commit_rounds-From :
      {p : Progress} (n : ℕ) (s : SpecReplica State)
      → From p s
      → Ensures (From p) (commit_rounds env n s)
  unfolding commit_rounds
  commit_rounds-From zero s h = returns h
  commit_rounds-From (suc n) s h =
      Ensures-bind (commit_next-From s h) λ s' h'. commit_rounds-From n s' h'

  pub commit_up_to-From :
      {p : Progress} (upto : ℕ) (s : SpecReplica State)
      → From p s
      → Ensures (From p) (commit_up_to env upto s)
  unfolding commit_up_to
  commit_up_to-From upto s h = Ensures-bind (commit_rounds-From _ s h) λ s' h'. returns h'

  -- What RemoveAfter leaves, when there was something above.
  removed_length :
      (backto : ℕ) (s : SpecReplica State) (log' : Log)
      → IsSound (progress s)
      → suc backto ≤ s.last_speculative
      → remove_after (backto + 1) s.log ≡ ok log'
      → backto ≡ length log'.entries
  removed_length backto s log' h below r =
      elim (remove_after_inv (backto + 1) s.log log' h.has_committed.well_formed r) [
        | inl (high, _) ↦ absurd (omega (arith, h.from_one, h.ends))
        | inr (e, _, _, same) ↦
            let k : backto + 1 - s.log.start ≡ backto = omega (arith, h.from_one) in
            rw (same, k) (omega (arith, length-take backto s.log.entries, h.ends))
      ]

  pub rollback_to-From :
      {p : Progress} (backto : ℕ) (s : SpecReplica State)
      → From p s
      → Ensures (From p) (rollback_to env backto s)
  unfolding rollback_to
  rollback_to-From backto s h =
      Ensures-if _ (λ _. returns h)
        λ above. Ensures-assert _ λ _. Ensures-ok _ λ table _. Ensures-ok _ λ app' _.
          Ensures-ok _ λ log' r. returns (
            Extends-Keeps h (remove_after-Keeps h.is_sound.has_committed (backto + 1) r)
              (removed_length backto s log' h.is_sound (ground arith) r))
