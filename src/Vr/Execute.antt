-- ===== src/Vr/Execute.antt =====
-- CommitUpTo of vr/replica.cc and the operations of the log that it runs.
use native.Mathlib.Numerals.{add-one}
use specpaxos.Base.{
  ℕ, zero, suc, ◌+◌, ◌-◌, ◌≤◌, ◌≡◌, refl, ap, ◌∙◌, List, [], ◌∷◌, some, ok, arith, length,
  get_elem?, set, take, drop, length-set, get_elem?_of_lt, drop-get_elem?, drop-set,
}
use specpaxos.Base.Code.{◌>>=◌, or_panic}
use specpaxos.Log.{LogEntry, committed, find}
use specpaxos.Log.WellFormed.{find_lem}
use specpaxos.Log.Stable.{set_status_commit}
use specpaxos.Replica.{AppReplica, execute}
use specpaxos.Vr.Messages.{ReplyMessage}
use specpaxos.Vr.State.{VrReplica, Environment, send}
use specpaxos.Vr.Actions.{
  store_reply, send_reply, reply_client, commit_next, commit_rounds, commit_up_to,
}
use specpaxos.Log.Progress.{IsSound, Extends, Extends-refl, Extends-trans, Extends-commit}
use specpaxos.Vr.Durable.{progress}

-- The application's state after these entries, the first of which has the opnum `op`.
pub replay : (app : AppReplica) → ℕ → List LogEntry → app.State → app.State
replay app op [] a = a
replay app op (e ∷ es) a = replay app (op + 1) es (execute app op e.request a).1

module _ (env : Environment) where
  open env use {application}
  open application use {State}

  -- What a replica has done, apart from its replies to clients.
  pub record Outcome (s s' : VrReplica State) : Type 0 where
    pub same_log : s'.log ≡ s.log
    pub same_app : s'.app ≡ s.app
    pub same_committed : s'.last_committed ≡ s.last_committed
    pub same_op : s'.last_op ≡ s.last_op
    pub same_view : s'.view ≡ s.view
    pub same_status : s'.status ≡ s.status

  reply_client-Outcome :
      (client : ℕ) (reply : ReplyMessage) (s : VrReplica State)
      → Outcome s (reply_client client reply s)
  unfolding reply_client store_reply send_reply send
  reply_client-Outcome client reply s = record {
    same_log = ground arith;
    same_app = ground arith;
    same_committed = ground arith;
    same_op = ground arith;
    same_view = ground arith;
    same_status = ground arith;
  }

  -- The replica when it has executed `e`, and before it replies.
  abbrev executed : LogEntry → VrReplica State → VrReplica State
  executed e s = record s {
    last_committed = s.last_committed + 1;
    log = record s.log {
      entries = set s.log.entries s.last_committed (record e { state = committed });
    };
    app = (execute application (s.last_committed + 1) e.request s.app).1;
  }

  abbrev reply_to : LogEntry → VrReplica State → ReplyMessage
  reply_to e s = record {
    view = e.viewstamp.view;
    opnum = e.viewstamp.opnum;
    reply = (execute application (s.last_committed + 1) e.request s.app).0;
    clientreqid = e.request.clientreqid;
  }

  pub commit_next_lem :
      (s : VrReplica State) (e : LogEntry)
      → IsSound (progress s)
      → get_elem? s.log.entries s.last_committed ≡ some e
      → commit_next env s ≡ ok (reply_client e.request.clientid (reply_to e s) (executed e s))
  unfolding commit_next ◌>>=◌ or_panic
  commit_next_lem s e h here =
      let w = h.has_committed.well_formed in
      let op = s.last_committed + 1 in
      let number : op ≡ s.log.start + s.last_committed = omega (arith, h.from_one) in
      let found : find op s.log ≡ ok (some e) =
        find_lem op s.log w ∙ ap ok (ground (arith, h.from_one)) in
      let marked = set_status_commit h.has_committed op e number here in rw (found, marked)

  -- The replica has committed and run `n` more operations of its log.
  pub record HasRun (n : ℕ) (s s' : VrReplica State) : Type 0 where
    pub committed : s'.last_committed ≡ s.last_committed + n
    pub ran :
        s'.app
        ≡ replay application
            (s.last_committed + 1)
            (take n (drop s.last_committed s.log.entries))
            s.app
    pub extends : Extends (progress s) (progress s')
    pub same_op : s'.last_op ≡ s.last_op
    pub same_view : s'.view ≡ s.view
    pub same_status : s'.status ≡ s.status

  -- After the first of `n + 1` operations.
  replay_next :
      (n : ℕ) (s s1 : VrReplica State) (e : LogEntry)
      → get_elem? s.log.entries s.last_committed ≡ some e
      → Outcome (executed e s) s1
      → replay application
          (s1.last_committed + 1)
          (take n (drop s1.last_committed s1.log.entries))
          s1.app
        ≡ replay application
            (s.last_committed + 1)
            (take (suc n) (drop s.last_committed s.log.entries))
            s.app
  unfolding replay
  replay_next n s s1 e here o =
      rw
        (
          o.same_committed,
          o.same_log,
          o.same_app,
          drop-get_elem? s.log.entries s.last_committed here,
        )
        (ap
          (λ es.
            replay application (s.last_committed + 1 + 1) (take n es)
              (execute application (s.last_committed + 1) e.request s.app).1)
          (ap (λ k. drop k (executed e s).log.entries) (add-one s.last_committed)
            ∙ drop-set s.log.entries s.last_committed (record e { state = committed })))

  commit_rounds_lem :
      (n : ℕ) (s : VrReplica State)
      → IsSound (progress s)
      → s.last_committed + n ≤ length s.log.entries
      → (s' : VrReplica State) × (commit_rounds env n s ≡ ok s') × HasRun n s s'
  unfolding commit_rounds ◌>>=◌ replay
  commit_rounds_lem zero s h room = (
    s,
    refl,
    record {
      committed = omega arith;
      ran = refl;
      extends = Extends-refl h;
      same_op = refl;
      same_view = refl;
      same_status = refl;
    },
  )
  commit_rounds_lem (suc n) s h room =
      let (e, here) = get_elem?_of_lt s.log.entries s.last_committed (omega arith) in
      let s1 = reply_client e.request.clientid (reply_to e s) (executed e s) in
      let o = reply_client-Outcome e.request.clientid (reply_to e s) (executed e s) in
      let first : Extends (progress s) (progress s1) =
        rw (o.same_committed, o.same_log) (Extends-commit e (Extends-refl h) here) in
      let size : length s1.log.entries ≡ length s.log.entries =
        rw o.same_log
          (length-set s.log.entries s.last_committed (record e { state = committed })) in
      let (s', run, x) =
        commit_rounds_lem n s1 first.is_sound (omega (arith, o.same_committed, size)) in
      (
        s',
        rw (commit_next_lem s e h here) run,
        record {
          committed = omega (arith, x.committed, o.same_committed);
          ran = x.ran ∙ replay_next n s s1 e here o;
          extends = Extends-trans first x.extends;
          same_op = x.same_op ∙ o.same_op;
          same_view = x.same_view ∙ o.same_view;
          same_status = x.same_status ∙ o.same_status;
        },
      )

  -- CommitUpTo of an opnum that the log has: it returns, and has run the operations from
  -- lastCommitted + 1 up to that opnum in the order of the log, once each. Its entries are marked
  -- committed, and nothing that was committed before has changed.
  pub commit_up_to_lem :
      (upto : ℕ) (s : VrReplica State)
      → IsSound (progress s)
      → upto ≤ length s.log.entries
      → (s' : VrReplica State) × (commit_up_to env upto s ≡ ok s')
        × HasRun (upto - s.last_committed) s s'
  unfolding commit_up_to
  commit_up_to_lem upto s h room =
      commit_rounds_lem (upto - s.last_committed) s h (omega (arith, h.has_committed.room))
