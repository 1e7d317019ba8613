-- ===== src/FastPaxos/Durable.antt =====
-- What a replica of fastpaxos/replica.cc has committed, under its shared actions. The children go
-- through the handlers.
pub mod Normal
pub mod Events
use specpaxos.Base.{
  ℕ, zero, suc, ◌+◌, ◌-◌, ◌≡◌, sym, ap, ◌∙◌, subst, Bool, true, false, Option, some, ok, arith,
  ok-injective, get_elem?,
}
use specpaxos.Base.Code.{
  if◌then◌else◌, Ensures, returns, Ensures-if, Ensures-assert, Ensures-bind, Ensures-ok,
  Ensures-or_panic, Ensures-deref,
}
use specpaxos.Log.{Log, LogEntry, LogEntryState, Request, find, set_status, committed, is_committed}
use specpaxos.Log.WellFormed.{find_lem}
use specpaxos.Log.Stable.{set_status_commit}
use specpaxos.Log.Progress.{Progress, IsSound, Extends, find_next, Extends-set_status}
use specpaxos.FastPaxos.Messages.{ReplyMessage}
use specpaxos.FastPaxos.State.{FastPaxosReplica, Environment, send}
use specpaxos.FastPaxos.Actions.{
  is_prepared, update_client_table, store_reply, send_reply, send_ok, send_prepare_ok,
  send_prepare_oks_from, send_prepare_oks, request_state_transfer, resend_prepare, commit_next,
  commit_rounds, commit_up_to,
}

abbrev pub progress : {A : Type 0} → FastPaxosReplica A → Progress
progress s = record { log = s.log; committed = s.last_committed }

-- A state whose progress extends `p`.
abbrev pub From : {A : Type 0} → Progress → FastPaxosReplica A → Type 0
From p s = Extends p (progress s)

pub is_prepared→uncommitted :
    (state : LogEntryState) → is_prepared state ≡ true → is_committed state ≡ false
unfolding is_prepared is_committed
is_prepared→uncommitted state h = ground arith

module _ {A : Type 0} {p : Progress} where
  -- An action that leaves the progress.
  pub From-eq : (s s' : FastPaxosReplica A) → progress s' ≡ progress s → From p s → From p s'
  From-eq s s' e h = subst (Extends p) (sym e) h

  pub update_client_table-From :
      (req : Request) (s : FastPaxosReplica A) → From p s → From p (update_client_table req s)
  unfolding update_client_table
  update_client_table-From req s h = h

  pub send_ok-From :
      (view opnum : ℕ) (req : Request) (slowpath : Bool) (s : FastPaxosReplica A)
      → From p s
      → From p (send_ok view opnum req slowpath s)
  unfolding send_ok send
  send_ok-From view opnum req slowpath s h = h

  send_reply-From :
      (client : ℕ) (reply : ReplyMessage) (s : FastPaxosReplica A)
      → From p s
      → From p (send_reply client reply (store_reply client reply s))
  unfolding send_reply store_reply send
  send_reply-From client reply s h =
      From-eq s (send_reply client reply (store_reply client reply s)) (ground arith) h

  pub request_state_transfer-From :
      (s : FastPaxosReplica A) → From p s → From p (request_state_transfer s)
  unfolding request_state_transfer send if◌then◌else◌
  request_state_transfer-From s h = From-eq s (request_state_transfer s) (ground arith) h

  pub resend_prepare-From :
      (s : FastPaxosReplica A) → From p s → Ensures (From p) (resend_prepare s)
  unfolding resend_prepare send
  resend_prepare-From s h =
      Ensures-assert _
        λ _. Ensures-if _ (λ _. returns h) λ _. Ensures-deref _ λ prepare _. returns h

  send_prepare_ok-From :
      (i : ℕ) (s : FastPaxosReplica A) → From p s → Ensures (From p) (send_prepare_ok i s)
  unfolding send_prepare_ok
  send_prepare_ok-From i s h =
      Ensures-if _ (λ _. returns h)
        λ _. Ensures-ok _ λ found _. Ensures-or_panic _ λ entry _.
          Ensures-assert _
            λ _. returns (send_ok-From _ _ _ _ _ (update_client_table-From entry.request s h))

  send_prepare_oks_from-From :
      (rounds i : ℕ) (s : FastPaxosReplica A)
      → From p s
      → Ensures (From p) (send_prepare_oks_from rounds i s)
  unfolding send_prepare_oks_from
  send_prepare_oks_from-From zero i s h = returns h
  send_prepare_oks_from-From (suc n) i s h =
      Ensures-bind (send_prepare_ok-From i s h) λ s' h'. send_prepare_oks_from-From n (i + 1) s' h'

  pub send_prepare_oks-From :
      (old : ℕ) (s : FastPaxosReplica A) → From p s → Ensures (From p) (send_prepare_oks old s)
  unfolding send_prepare_oks
  send_prepare_oks-From old s h = send_prepare_oks_from-From _ old s h

module _ (env : Environment) where
  open env use {application}
  open application use {State}

  commit_next-From :
      {p : Progress} (s : FastPaxosReplica State) → From p s → Ensures (From p) (commit_next env s)
  unfolding commit_next
  commit_next-From s h = Ensures-ok _ λ found f. Ensures-or_panic _ λ entry e.
      Ensures-ok _ λ marked m. returns (
        send_reply-From _ _ _
          (Extends-set_status marked entry h (find_next found entry h.is_sound f e) m))

  commit_rounds-From :
      {p : Progress} (n : ℕ) (s : FastPaxosReplica State)
      → From p s
      → Ensures (From p) (commit_rounds env n s)
  unfolding commit_rounds
  commit_rounds-From zero s h = returns h
  commit_rounds-From (suc n) s h =
      Ensures-bind (commit_next-From s h) λ s' h'. commit_rounds-From n s' h'

  pub commit_up_to-From :
      {p : Progress} (upto : ℕ) (s : FastPaxosReplica State)
      → From p s
      → Ensures (From p) (commit_up_to env upto s)
  unfolding commit_up_to
  commit_up_to-From upto s h =
      Ensures-bind (commit_rounds-From _ s h) λ s' h'. Ensures-assert _ λ _. returns h'
