-- ===== src/FastPaxos/Agreement.antt =====
-- HandlePrepareOK of fastpaxos/replica.cc: when the leader commits.
use specpaxos.Base.{ℕ, ◌≤◌, ◌<◌, ◌≡◌, refl, ap, ◌∙◌, Bool, true, false, some, ok, arith, length}
use specpaxos.Base.Code.{
  if◌then◌else◌, Ensures, returns, Ensures-elim, Ensures-if, Ensures-assert, Ensures-ok,
  Ensures-asserted, Ensures-deref, Ensures-if_null, Ensures-all, Ensures-weaken,
}
use specpaxos.Viewstamp.{Viewstamp}
use specpaxos.QuorumSet.{get_messages, add, add_and_check_for_quorum, check_for_quorum}
use specpaxos.Base.Map.{Map}
use specpaxos.Log.{LogEntry, find}
use specpaxos.Replica.{Address}
use specpaxos.FastPaxos.Messages.{PrepareOkMessage}
use specpaxos.FastPaxos.State.{viewstamp_key, FastPaxosReplica, Environment, send}
use specpaxos.FastPaxos.Actions.{request_state_transfer, resend_prepare}
use specpaxos.FastPaxos.Normal.{
  same_request, quorum_of, set_quorum, count_prepare_ok, match_prepare_ok, handle_prepare_ok,
}

abbrev stamp_of : PrepareOkMessage → Viewstamp
stamp_of msg = record { view = msg.view; opnum = msg.opnum }

-- The PREPAREOKs for the opnum of the message that the leader has kept, this one among them, by the
-- path that it has come.
abbrev pub answers : {A : Type 0} → PrepareOkMessage → FastPaxosReplica A → Map PrepareOkMessage
answers msg s =
    get_messages (stamp_of msg) (add (stamp_of msg) msg.replica_idx msg (quorum_of msg.slowpath s))

-- A quorum of the path has answered, and the message is about the request that the log has.
pub record Agreed {A : Type 0} (msg : PrepareOkMessage) (s : FastPaxosReplica A) : Type 0 where
  pub entry : LogEntry
  pub has_entry : find msg.opnum s.log ≡ ok (some entry)
  pub same : same_request entry.request msg.req ≡ true
  pub enough : (quorum_of msg.slowpath s).num_required ≤ length (answers msg s)

module _ {A : Type 0} where
  enough_answers :
      (msg : PrepareOkMessage) (ms : Map PrepareOkMessage) (s : FastPaxosReplica A)
      → (add_and_check_for_quorum (stamp_of msg) msg.replica_idx msg (quorum_of msg.slowpath s)).1
        ≡ some ms
      → (quorum_of msg.slowpath s).num_required ≤ length (answers msg s)
  unfolding add get_messages add_and_check_for_quorum check_for_quorum
  enough_answers msg ms s e = ground arith

  set_quorum-committed :
      (slowpath : Bool) (q : _) (s : FastPaxosReplica A)
      → (set_quorum slowpath q s).last_committed ≡ s.last_committed
  unfolding set_quorum
  set_quorum-committed true q s = refl
  set_quorum-committed false q s = refl

  transfer_same :
      (s : FastPaxosReplica A) → (request_state_transfer s).last_committed ≡ s.last_committed
  unfolding request_state_transfer send if◌then◌else◌
  transfer_same s = ground arith

  resend_same :
      (s : FastPaxosReplica A)
      → Ensures (λ s'. s'.last_committed ≡ s.last_committed) (resend_prepare s)
  unfolding resend_prepare send
  resend_same s =
      Ensures-assert _
        λ _. Ensures-if _ (λ _. returns refl) λ _. Ensures-deref _ λ p _. returns refl

module _ (env : Environment) where
  open env use {application}
  open application use {State}

  -- An outcome that has not committed more.
  idle :
      (msg : PrepareOkMessage) (s : FastPaxosReplica State) (c : ℕ)
      → c ≡ s.last_committed
      → s.last_committed < c
      → Agreed msg s
  idle msg s c e more = absurd (omega arith)

  match_prepare_ok-Ensures :
      (msg : PrepareOkMessage) (entry : LogEntry) (s : FastPaxosReplica State)
      → find msg.opnum s.log ≡ ok (some entry)
      → Ensures
          (λ s'. s.last_committed < s'.last_committed → Agreed msg s)
          (match_prepare_ok env msg entry s)
  unfolding match_prepare_ok count_prepare_ok
  match_prepare_ok-Ensures msg entry s here =
      Ensures-if _ (λ _. Ensures-weaken (resend_same s) λ s' e. idle msg s _ e)
        λ _. Ensures-assert _ λ same. Ensures-assert _ λ _.
          Ensures-if_null _ (λ _. returns (idle msg s _ (set_quorum-committed msg.slowpath _ s)))
            λ ms e. Ensures-all _ λ s' more. record {
              entry = entry;
              has_entry = here;
              same = same;
              enough = enough_answers msg ms s e;
            }

  handle_prepare_ok-Ensures :
      (remote : Address) (msg : PrepareOkMessage) (s : FastPaxosReplica State)
      → Ensures
          (λ s'. s.last_committed < s'.last_committed → Agreed msg s)
          (handle_prepare_ok env remote msg s)
  unfolding handle_prepare_ok
  handle_prepare_ok-Ensures remote msg s =
      Ensures-if _ (λ _. returns (idle msg s _ refl))
        λ _.
          Ensures-if _ (λ _. returns (idle msg s _ refl))
            λ _.
              Ensures-if _ (λ _. returns (idle msg s _ (transfer_same s)))
                λ _.
                  Ensures-if _ (λ _. returns (idle msg s _ refl))
                    λ _.
                      Ensures-if _ (λ _. returns (idle msg s _ refl))
                        λ _.
                          Ensures-if _ (λ _. returns (idle msg s _ refl))
                            λ _. Ensures-ok _ λ found f. Ensures-asserted _ λ entry e.
                              Ensures-assert _
                                λ _. match_prepare_ok-Ensures msg entry s (f ∙ ap ok e)

  -- When HandlePrepareOK returns and has committed more, the log has an entry for the opnum of the
  -- message, with the client and the number of the message's request, and as many PREPAREOKs for its
  -- viewstamp have come by the message's path as the quorum of this path needs, this one among them.
  pub handle_prepare_ok_quorum :
      (remote : Address) (msg : PrepareOkMessage) (s s' : FastPaxosReplica State)
      → handle_prepare_ok env remote msg s ≡ ok s'
      → s.last_committed < s'.last_committed
      → Agreed msg s
  handle_prepare_ok_quorum remote msg s s' e more =
      Ensures-elim (handle_prepare_ok-Ensures remote msg s) e more
