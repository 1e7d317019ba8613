-- ===== src/Spec/Durable/Install.antt =====
-- Committed operations under InstallLog of spec/replica.cc.
use specpaxos.Base.{ℕ, zero, suc, ◌+◌, List, arith}
use specpaxos.Base.Code.{Ensures, returns, Ensures-if, Ensures-assert, Ensures-bind, Ensures-ok}
use specpaxos.Log.{LogEntry, SpeculativeReplyMessage}
use specpaxos.Spec.State.{SpecReplica, Environment, send}
use specpaxos.Spec.Durable.{Progress, From}
use specpaxos.Spec.Durable.Actions.{
  From-eq, update_client_table-From, commit_up_to-From, rollback_to-From,
}
use specpaxos.Spec.Durable.Requests.{append-ends}
use specpaxos.Spec.Install.{
  Extent, send_installed, commit_common, rollback_diverging, install_entry, install_new,
  install_extent, install_log,
}

module _ {A : Type 0} {p : Progress} where
  send_installed-From :
      (client : ℕ) (reply : SpeculativeReplyMessage) (s : SpecReplica A)
      → From p s
      → From p (send_installed client reply s)
  unfolding send_installed send
  send_installed-From client reply s h = From-eq s (send_installed client reply s) (ground arith) h

module _ (env : Environment) where
  open env use {application, sha1}
  open application use {State}

  commit_common-From :
      {p : Progress} (upto start : ℕ) (entries : List LogEntry) (s : SpecReplica State)
      → From p s
      → Ensures (From p) (commit_common env upto start entries s)
  unfolding commit_common
  commit_common-From upto start entries s h = Ensures-ok _ λ to_commit _.
      Ensures-if _
        (λ _. Ensures-bind (commit_up_to-From env _ s h) λ s' h'. Ensures-assert _ λ _. returns h')
        (λ _. returns h)

  rollback_diverging-From :
      {p : Progress} (upto start : ℕ) (entries : List LogEntry) (s : SpecReplica State)
      → From p s
      → Ensures (From p) (rollback_diverging env upto start entries s)
  unfolding rollback_diverging
  rollback_diverging-From upto start entries s h =
      Ensures-ok _ λ first _.
        Ensures-bind (rollback_to-From env _ s h) λ s' h'. Ensures-assert _ λ _. returns h'

  install_entry-From :
      {p : Progress} (new : LogEntry) (s : SpecReplica State)
      → From p s
      → Ensures (From p) (install_entry env new s)
  unfolding install_entry
  install_entry-From new s h = Ensures-ok _ λ log' a.
      let (_, h') = append-ends sha1 _ _ h a in
      Ensures-bind (update_client_table-From _ _ _ (send_installed-From _ _ _ h'))
        λ s2 h2. Ensures-assert _ λ _. returns h2

  install_new-From :
      {p : Progress} (rounds i start : ℕ) (entries : List LogEntry) (s : SpecReplica State)
      → From p s
      → Ensures (From p) (install_new env rounds i start entries s)
  unfolding install_new
  install_new-From zero i start entries s h = returns h
  install_new-From (suc n) i start entries s h = Ensures-ok _ λ new _.
      Ensures-bind (install_entry-From new s h)
        λ s' h'. install_new-From n (i + 1) start entries s' h'

  install_extent-From :
      {p : Progress} (upto : ℕ) (x : Extent) (entries : List LogEntry) (s : SpecReplica State)
      → From p s
      → Ensures (From p) (install_extent env upto x entries s)
  unfolding install_extent
  install_extent-From upto x entries s h =
      Ensures-bind (commit_common-From upto x.entries_start entries s h) λ s1 h1.
        Ensures-assert _ λ _.
          Ensures-bind (rollback_diverging-From _ x.entries_start entries s1 h1) λ s2 h2.
            Ensures-bind (install_new-From _ _ x.entries_start entries s2 h2) λ s3 h3.
              Ensures-assert _ λ _.
                Ensures-bind (commit_up_to-From env upto s3 h3)
                  λ s4 h4. Ensures-assert _ λ _. returns h4

  pub install_log-From :
      {p : Progress} (entries : List LogEntry) (s : SpecReplica State)
      → From p s
      → Ensures (From p) (install_log env entries s)
  unfolding install_log
  install_log-From entries s h = Ensures-ok _ λ _ _.
      Ensures-ok _
        λ upto _. Ensures-assert _ λ _. Ensures-ok _ λ _ _. install_extent-From upto _ entries s h
