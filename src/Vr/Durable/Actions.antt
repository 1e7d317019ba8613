-- ===== src/Vr/Durable/Actions.antt =====
-- Committed operations under the shared actions of vr/replica.cc, from CommitUpTo to CloseBatch.
use specpaxos.Base.{ℕ, zero, suc, ◌+◌, ◌≡◌, sym, subst, arith}
use specpaxos.Base.Code.{
  if◌then◌else◌, Ensures, returns, Ensures-if, Ensures-assert, Ensures-bind, Ensures-ok,
  Ensures-or_panic, Ensures-deref,
}
use specpaxos.Log.{Request}
use specpaxos.Vr.Messages.{ReplyMessage}
use specpaxos.Vr.State.{VrReplica, Environment, send}
use specpaxos.Log.Progress.{Progress, Extends, find_next, Extends-set_status}
use specpaxos.Vr.Durable.{progress, From}
use specpaxos.Vr.Actions.{
  update_client_table, store_reply, send_reply, reply_client, send_prepare_ok,
  send_prepare_oks_from, send_prepare_oks, request_state_transfer, send_null_commit, resend_prepare,
  close_batch, commit_next, commit_rounds, commit_up_to,
}

module _ {A : Type 0} where
  reply_client-progress :
      (client : ℕ) (reply : ReplyMessage) (s : VrReplica A)
      → progress (reply_client client reply s) ≡ progress s
  unfolding reply_client send_reply store_reply send
  reply_client-progress client reply s = ground arith

module _ {A : Type 0} {p : Progress} where
  -- An action that leaves the progress.
  pub From-eq : (s s' : VrReplica A) → progress s' ≡ progress s → From p s → From p s'
  From-eq s s' e h = subst (Extends p) (sym e) h

  pub update_client_table-From :
      (req : Request) (s : VrReplica A) → From p s → Ensures (From p) (update_client_table req s)
  unfolding update_client_table
  update_client_table-From req s h = Ensures-assert _ λ _. returns h

  pub reply_client-From :
      (client : ℕ) (reply : ReplyMessage) (s : VrReplica A)
      → From p s
      → From p (reply_client client reply s)
  reply_client-From client reply s h =
      From-eq s (reply_client client reply s) (reply_client-progress client reply s) h

  pub request_state_transfer-From : (s : VrReplica A) → From p s → From p (request_state_transfer s)
  unfolding request_state_transfer send if◌then◌else◌
  request_state_transfer-From s h = From-eq s (request_state_transfer s) (ground arith) h

  send_prepare_ok-From :
      (i : ℕ) (s : VrReplica A) → From p s → Ensures (From p) (send_prepare_ok i s)
  unfolding send_prepare_ok send
  send_prepare_ok-From i s h =
      Ensures-if _ (λ _. returns h)
        λ _. Ensures-ok _ λ found _. Ensures-or_panic _ λ entry _.
          Ensures-assert _
            λ _. Ensures-bind (update_client_table-From entry.request s h) λ s' h'. returns h'

  send_prepare_oks_from-From :
      (rounds i : ℕ) (s : VrReplica A)
      → From p s
      → Ensures (From p) (send_prepare_oks_from rounds i s)
  unfolding send_prepare_oks_from
  send_prepare_oks_from-From zero i s h = returns h
  send_prepare_oks_from-From (suc n) i s h =
      Ensures-bind (send_prepare_ok-From i s h) λ s' h'. send_prepare_oks_from-From n (i + 1) s' h'

  pub send_prepare_oks-From :
      (old : ℕ) (s : VrReplica A) → From p s → Ensures (From p) (send_prepare_oks old s)
  unfolding send_prepare_oks
  send_prepare_oks-From old s h = send_prepare_oks_from-From _ old s h

  pub close_batch-From : (s : VrReplica A) → From p s → Ensures (From p) (close_batch s)
  unfolding close_batch send
  close_batch-From s h =
      Ensures-assert _ λ _. Ensures-assert _ λ _. Ensures-ok _ λ requests _. returns h

  pub send_null_commit-From : (s : VrReplica A) → From p s → Ensures (From p) (send_null_commit s)
  unfolding send_null_commit send
  send_null_commit-From s h = Ensures-assert _ λ _. returns h

  pub resend_prepare-From : (s : VrReplica A) → From p s → Ensures (From p) (resend_prepare s)
  unfolding resend_prepare send
  resend_prepare-From s h =
      Ensures-assert _
        λ _. Ensures-if _ (λ _. returns h) λ _. Ensures-deref _ λ prepare _. returns h

module _ (env : Environment) where
  open env use {application}
  open application use {State}

  commit_next-From :
      {p : Progress} (s : VrReplica State) → From p s → Ensures (From p) (commit_next env s)
  unfolding commit_next
  commit_next-From s h = Ensures-ok _ λ found f. Ensures-or_panic _ λ entry e.
      Ensures-ok _ λ marked m. returns (
        reply_client-From _ _ _
          (Extends-set_status marked entry h (find_next found entry h.is_sound f e) m))

  commit_rounds-From :
      {p : Progress} (n : ℕ) (s : VrReplica State)
      → From p s
      → Ensures (From p) (commit_rounds env n s)
  unfolding commit_rounds
  commit_rounds-From zero s h = returns h
  commit_rounds-From (suc n) s h =
      Ensures-bind (commit_next-From s h) λ s' h'. commit_rounds-From n s' h'

  pub commit_up_to-From :
      {p : Progress} (upto : ℕ) (s : VrReplica State)
      → From p s
      → Ensures (From p) (commit_up_to env upto s)
  unfolding commit_up_to
  commit_up_to-From upto s h = commit_rounds-From _ s h
