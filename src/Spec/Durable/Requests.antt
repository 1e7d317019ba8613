-- ===== src/Spec/Durable/Requests.antt =====
-- Committed operations under the requests of spec/replica.cc, and under EnterView.
use specpaxos.Base.{
  ℕ, ◌+◌, ◌≡◌, refl, sym, subst, List, [], ◌∷◌, ok, arith, length, length-append, add64,
}
use specpaxos.Base.Code.{
  if◌then◌else◌, Ensures, returns, Ensures-if, Ensures-bind, Ensures-ok, Ensures-asserted,
  Ensures-if_null,
}
use specpaxos.Log.{Log, Request, speculative, append, replace, hashed, new_entry}
use specpaxos.Log.WellFormed.{find_lem, append_inv}
use specpaxos.Log.Stable.{append-Keeps}
use specpaxos.Replica.{Address}
use specpaxos.Viewstamp.{Viewstamp}
use specpaxos.Spec.State.{SpecReplica, Environment, ClientTableEntry, am_leader, send}
use specpaxos.Spec.Durable.{Progress, progress, Extends, Extends-Keeps, Extends-retouch, From, core}
use specpaxos.Spec.Durable.Actions.{
  From-eq, update_client_table-From, send_sync-From, send_sync_reply-From,
}
use specpaxos.Spec.Requests.{
  resend_reply, answer_pending_sync, sync_if_due, speculate, accept_request, handle_request,
  handle_unlogged_request, handle_requests, start_view, enter_view,
}

-- The log ends at the opnum that is appended.
pub append-ends :
    {p : Progress} {l l' : Log} {c n : ℕ} (sha1 : List ℕ → List ℕ) (vs : Viewstamp) (req : Request)
    → Extends p (record { log = l; committed = c; last_speculative = n })
    → append sha1 vs req speculative l ≡ ok l'
    → (vs.opnum ≡ n + 1) × Extends p (record { log = l'; committed = c; last_speculative = n + 1 })
append-ends {p} {l} {l'} {c} {n} sha1 vs req h a =
    let w = h.is_sound.has_committed.well_formed in
    let (number, _, same) = append_inv sha1 vs req speculative l l' w a in
    let size : n + 1 ≡ length l'.entries = rw same (
      omega (
        arith,
        length-append l.entries (hashed sha1 l (new_entry vs speculative req) ∷ []),
        h.is_sound.ends,
      )) in
    (
      omega (arith, number, h.is_sound.ends, h.is_sound.from_one),
      Extends-Keeps h (append-Keeps h.is_sound.has_committed sha1 vs req speculative a) size,
    )

module _ {A : Type 0} {p : Progress} where
  resend_reply-From :
      (remote : Address) (entry : ClientTableEntry) (s : SpecReplica A)
      → From p s
      → Ensures (From p) (resend_reply remote entry s)
  unfolding resend_reply replace send core
  resend_reply-From remote entry s h =
      let looked = find_lem entry.last_req_opnum s.log h.is_sound.has_committed.well_formed in
      Ensures-ok _ λ found f.
        Ensures-asserted _ λ le e.
          Ensures-asserted _ λ reply _. returns (Extends-retouch _ le _ h (ground arith) refl)

  answer_pending_sync-From :
      (opnum : ℕ) (s : SpecReplica A) → From p s → Ensures (From p) (answer_pending_sync opnum s)
  unfolding answer_pending_sync
  answer_pending_sync-From opnum s h =
      Ensures-if _ (λ _. send_sync_reply-From _ s h) (λ _. returns h)

  sync_if_due-From :
      (opnum : ℕ) (s : SpecReplica A) → From p s → Ensures (From p) (sync_if_due opnum s)
  unfolding sync_if_due
  sync_if_due-From opnum s h = Ensures-if _ (λ _. send_sync-From s h) (λ _. returns h)

module _ (env : Environment) where
  open env use {application, sha1}
  open application use {State}

  speculate-From :
      {p : Progress} (remote : Address) (req : Request) (s : SpecReplica State)
      → From p s
      → Ensures (From p) (speculate env remote req s)
  unfolding speculate send
  speculate-From {p} remote req s h = Ensures-ok _ λ log' a.
      let (number, h') = append-ends sha1 _ req h a in
      let next : add64 s.last_speculative 1 ≡ s.last_speculative + 1 = number in
      update_client_table-From req _ _ (
        subst
          (λ n.
            Extends p (record { log = log'; committed = s.last_committed; last_speculative = n }))
          (sym next) h')

  accept_request-From :
      {p : Progress} (remote : Address) (req : Request) (s : SpecReplica State)
      → From p s
      → Ensures (From p) (accept_request env remote req s)
  unfolding accept_request
  accept_request-From remote req s h =
      Ensures-if _ (λ _. returns h)
        λ _.
          Ensures-bind (speculate-From remote req s h) λ s1 h1.
            Ensures-bind (answer_pending_sync-From _ s1 h1) λ s2 h2. sync_if_due-From _ s2 h2

  pub handle_request-From :
      {p : Progress} (remote : Address) (req : Request) (s : SpecReplica State)
      → From p s
      → Ensures (From p) (handle_request env remote req s)
  unfolding handle_request
  handle_request-From remote req s h =
      Ensures-if_null _ (λ _. accept_request-From remote req _ h)
        λ entry _.
          Ensures-if _ (λ _. returns h)
            λ _.
              Ensures-if _ (λ _. resend_reply-From remote entry _ h)
                (λ _. accept_request-From remote req _ h)

  pub handle_unlogged_request-From :
      {p : Progress} (remote : Address) (req : Request) (s : SpecReplica State)
      → From p s
      → Ensures (From p) (handle_unlogged_request env remote req s)
  unfolding handle_unlogged_request send
  handle_unlogged_request-From remote req s h = Ensures-if _ (λ _. returns h) λ _. returns h

  handle_requests-From :
      {p : Progress} (msgs : List (Address × Request)) (s : SpecReplica State)
      → From p s
      → Ensures (From p) (handle_requests env msgs s)
  unfolding handle_requests
  handle_requests-From [] s h = returns h
  handle_requests-From ((remote, req) ∷ msgs) s h =
      Ensures-bind (handle_request-From remote req s h) λ s' h'. handle_requests-From msgs s' h'

  start_view-progress :
      (view : ℕ) (s : SpecReplica State) → progress (start_view env view s) ≡ progress s
  unfolding start_view am_leader if◌then◌else◌
  start_view-progress view s = ground arith

  pub enter_view-From :
      {p : Progress} (view : ℕ) (s : SpecReplica State)
      → From p s
      → Ensures (From p) (enter_view env view s)
  unfolding enter_view
  enter_view-From view s h =
      let h' = From-eq s (start_view env view s) (start_view-progress view s) h in
      handle_requests-From _ _ h'
