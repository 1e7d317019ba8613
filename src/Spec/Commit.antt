-- ===== src/Spec/Commit.antt =====
-- CommitUpTo of spec/replica.cc returns on a sound replica whose log reaches so far.
use specpaxos.Base.{
  ℕ, zero, suc, ◌+◌, ◌-◌, ◌≤◌, ◌≡◌, refl, ap, some, ok, arith, get_elem?, set, get_elem?_of_lt,
}
use specpaxos.Base.Code.{◌>>=◌, if◌then◌else◌}
use specpaxos.Log.{LogEntry, committed}
use specpaxos.Log.Stable.{set_status_commit}
use specpaxos.Replica.{commit}
use specpaxos.Spec.State.{SpecReplica, Environment}
use specpaxos.Spec.Durable.{IsSound, progress, Extends, Extends-refl, Extends-trans, Extends-commit}
use specpaxos.Spec.Actions.{commit_next, commit_rounds, commit_up_to}

module _ (env : Environment) where
  open env use {application}
  open application use {State, commit_upcall}

  -- The replica when it has committed the entry `e`.
  abbrev marked : LogEntry → SpecReplica State → SpecReplica State
  marked e s = record s {
    last_committed = s.last_committed + 1;
    log = record s.log {
      entries = set s.log.entries s.last_committed (record e { state = committed });
    };
  }

  commit_next_lem :
      (s : SpecReplica State) (e : LogEntry)
      → IsSound (progress s)
      → get_elem? s.log.entries s.last_committed ≡ some e
      → commit_next env s ≡ ok (marked e s)
  unfolding commit_next ◌>>=◌ if◌then◌else◌
  commit_next_lem s e h here =
      let number : s.last_committed + 1 ≡ s.log.start + s.last_committed =
        omega (arith, h.from_one) in
      let marks = set_status_commit h.has_committed (s.last_committed + 1) e number here in
      rw marks refl

  -- The replica has committed `n` more operations.
  pub record Commits (n : ℕ) (s s' : SpecReplica State) : Type 0 where
    pub committed : s'.last_committed ≡ s.last_committed + n
    pub extends : Extends (progress s) (progress s')
    pub same_speculative : s'.last_speculative ≡ s.last_speculative
    pub same_view : s'.view ≡ s.view
    pub same_status : s'.status ≡ s.status

  commit_rounds_lem :
      (n : ℕ) (s : SpecReplica State)
      → IsSound (progress s)
      → s.last_committed + n ≤ s.last_speculative
      → (s' : SpecReplica State) × (commit_rounds env n s ≡ ok s')
        × Commits n s s'
        × (s'.app ≡ s.app)
  unfolding commit_rounds ◌>>=◌
  commit_rounds_lem zero s h room = (
    s,
    refl,
    record {
      committed = omega arith;
      extends = Extends-refl h;
      same_speculative = refl;
      same_view = refl;
      same_status = refl;
    },
    refl,
  )
  commit_rounds_lem (suc n) s h room =
      let (e, here) = get_elem?_of_lt s.log.entries s.last_committed (omega (arith, h.ends)) in
      let s1 = marked e s in
      let first : Extends (progress s) (progress s1) = Extends-commit e (Extends-refl h) here in
      let (s', run, x, app) = commit_rounds_lem n s1 first.is_sound (omega arith) in
      (
        s',
        rw (commit_next_lem s e h here) run,
        record {
          committed = omega (arith, x.committed);
          extends = Extends-trans first x.extends;
          same_speculative = x.same_speculative;
          same_view = x.same_view;
          same_status = x.same_status;
        },
        app,
      )

  -- CommitUpTo of a sound replica of Speculative Paxos, up to lastSpeculative at most: it returns,
  -- all operations up to the given one are committed, and the application is told by its commit upcall.
  pub commit_up_to_returns :
      (upto : ℕ) (s : SpecReplica State)
      → IsSound (progress s)
      → upto ≤ s.last_speculative
      → (s' : SpecReplica State) × (commit_up_to env upto s ≡ ok s')
        × Commits (upto - s.last_committed) s s'
        × (s'.app ≡ commit_upcall upto s.app)
  unfolding commit_up_to commit ◌>>=◌
  commit_up_to_returns upto s h room =
      let reach : s.last_committed + (upto - s.last_committed) ≤ s.last_speculative =
        omega (arith, h.ends, h.has_committed.room) in
      let (s', run, x, app) = commit_rounds_lem (upto - s.last_committed) s h reach in
      (
        record s' { app = commit_upcall upto s'.app },
        rw run refl,
        record {
          committed = x.committed;
          extends = x.extends;
          same_speculative = x.same_speculative;
          same_view = x.same_view;
          same_status = x.same_status;
        },
        ap (commit_upcall upto) app,
      )
