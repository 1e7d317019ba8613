-- ===== src/Vr/Recovery.antt =====
-- vr/replica.cc: recovery of a replica that starts with no state.
use specpaxos.Base.{ℕ, not, [], ◌∷◌, Result, ok, ltb, ◌==◌}
use specpaxos.Base.Code.{◌>>=◌, ◌>>◌, assert, if_null, if◌then◌else◌}
use specpaxos.Base.Map.{Map, lookup}
use specpaxos.Configuration.{get_leader_index}
use specpaxos.QuorumSet.{add_and_check_for_quorum}
use specpaxos.Log.Transfer.{dump, install}
use specpaxos.Replica.{is_normal, is_recovering}
use specpaxos.Vr.Messages.{RecoveryMessage, RecoveryResponseMessage, recovery_response_message}
use specpaxos.Vr.State.{
  Address, to_address, Environment, VrReplica, am_leader, send, nat_key, viewstamp_key,
}
use specpaxos.Vr.Actions.{enter_view, commit_up_to}

module _ {A : Type 0} where
  -- Only the leader's response carries its log and its opnums.
  unfoldable pub handle_recovery : Address → RecoveryMessage → VrReplica A → Result (VrReplica A)
  handle_recovery remote msg s = if not (is_normal s.status) then ok s else do
    let reply : RecoveryResponseMessage = record {
      view = s.view;
      nonce = msg.nonce;
      entries = [];
      last_op = 0;
      last_committed = 0;
      replica_idx = s.my_idx;
    }
    full ←
        (if am_leader s
          then (do
            entries ← dump 0 s.log
            ok (record reply {
              last_committed = s.last_committed;
              last_op = s.last_op;
              entries = entries;
            }))
          else ok reply)
    ok (send (to_address remote (recovery_response_message full)) s)

-- The highest view of any response.
unfoldable pub highest_view : Map RecoveryResponseMessage → ℕ → ℕ
highest_view [] v = v
highest_view ((i, m) ∷ ms) v = highest_view ms (if ltb v m.view then m.view else v)

module _ (env : Environment) where
  open env use {application, sha1}
  open application use {State}

  unfoldable pub recover : RecoveryResponseMessage → VrReplica State → Result (VrReplica State)
  recover m s = do
    log' ← install sha1 m.entries s.log
    let s1 = enter_view m.view (record s { log = log' })
    commit_up_to env m.last_committed (record s1 { last_op = m.last_op })

  -- With a quorum of responses, the leader's of the highest view among them.
  unfoldable pub complete_recovery :
      Map RecoveryResponseMessage → VrReplica State → Result (VrReplica State)
  complete_recovery msgs s = do
    let highest = highest_view msgs 0
    let leader = get_leader_index s.configuration highest
    assert (not (leader == s.my_idx))
    if_null (lookup leader msgs) (ok s)
        λ response. if response.view == highest then recover response s else ok s

  unfoldable pub handle_recovery_response :
      RecoveryResponseMessage → VrReplica State → Result (VrReplica State)
  handle_recovery_response msg s =
      if not (is_recovering s.status)
      then ok s
      else if not (msg.nonce == s.recovery_nonce)
      then ok s
      else let (q, msgs) =
          add_and_check_for_quorum msg.nonce msg.replica_idx msg s.recovery_response_quorum in
        let s1 = record s { recovery_response_quorum = q } in
        if_null msgs (ok s1) (λ ms. complete_recovery ms s1)
