-- ===== src/Vr/Requests.antt =====
-- What HandleRequest of vr/replica.cc does with a request that the leader has seen before.
use specpaxos.Base.{
  ◌⊎◌, ◌≤◌, ◌≡◌, ◌≢◌, refl, Bool, true, false, none, some, ok, arith, inl, inr, Bool-cases, ltb,
  ◌==◌, Option-cases,
}
use specpaxos.Base.Code.{if◌then◌else◌}
use specpaxos.Base.Map.{lookup}
use specpaxos.Log.{Request}
use specpaxos.Replica.{is_normal}
use specpaxos.Vr.State.{Address, ClientTableEntry, Environment, VrReplica, am_leader, send}
use specpaxos.Vr.Normal.{
  Freshness, stale, answered, waiting, fresh, freshness, respond, handle_request,
}

module _ (env : Environment) where
  open env use {application}
  open application use {State}

  -- The request has left no trace but a reply or the client's address.
  pub record Unchanged (s s' : VrReplica State) : Type 0 where
    pub same_log : s'.log ≡ s.log
    pub same_op : s'.last_op ≡ s.last_op
    pub same_committed : s'.last_committed ≡ s.last_committed
    pub same_app : s'.app ≡ s.app
    pub same_table : s'.client_table ≡ s.client_table

  unchanged : (s : VrReplica State) → Unchanged s s
  unchanged s = record {
    same_log = refl;
    same_op = refl;
    same_committed = refl;
    same_app = refl;
    same_table = refl;
  }

  -- A request of this client that is not newer than the last one.
  Seen : Freshness → ClientTableEntry → Type 0
  Seen f entry = (f ≡ stale) ⊎ (f ≡ waiting) ⊎ ((f ≡ answered entry.reply) × (entry.replied ≡ true))

  freshness-Seen :
      (req : Request) (s : VrReplica State) (entry : ClientTableEntry)
      → lookup req.clientid s.client_table ≡ some entry
      → req.clientreqid ≤ entry.last_req_id
      → Seen (freshness req s.client_table) entry
  unfolding freshness if◌then◌else◌ Seen
  freshness-Seen req s entry here old =
      rw (freshness, here)
        (go (ltb req.clientreqid entry.last_req_id) refl (req.clientreqid == entry.last_req_id) refl
          entry.replied refl)
    where
      go :
          (b : Bool)
          → ltb req.clientreqid entry.last_req_id ≡ b
          → (c : Bool) → (req.clientreqid == entry.last_req_id) ≡ c
          → (d : Bool) → entry.replied ≡ d
          → Seen
              (if b
                then stale
                else (if c then (if d then answered entry.reply else waiting) else fresh))
              entry
      go true e c f d g = inl refl
      go false e true f true g = inr (inr (refl, g))
      go false e true f false g = inr (inl refl)
      go false e false f d g = absurd (ground arith)

  respond-Unchanged :
      (remote : Address) (req : Request) (f : Freshness) (entry : ClientTableEntry)
      (s s1 : VrReplica State)
      → Seen f entry
      → (entry.replied ≡ true → entry.reply ≢ none)
      → Unchanged s s1
      → (s' : VrReplica State) × (respond env remote req f s1 ≡ ok s') × Unchanged s s'
  unfolding Seen respond send
  respond-Unchanged remote req f entry s s1 (inl e) has u = rw e (s1, refl, u)
  respond-Unchanged remote req f entry s s1 (inr (inl e)) has u = rw e (s1, refl, u)
  respond-Unchanged remote req f entry s s1 (inr (inr (e, replied))) has u =
      elim (Option-cases entry.reply) [
        | inl missing ↦ elim (has replied missing) [ ]
        | inr (reply, here) ↦
            rw (e, here)
              (
                _,
                refl,
                record {
                  same_log = u.same_log;
                  same_op = u.same_op;
                  same_committed = u.same_committed;
                  same_app = u.same_app;
                  same_table = u.same_table;
                },
              )
      ]

  -- A request that is not newer than its client's last one: HandleRequest returns, and leaves the
  -- log, lastOp, lastCommitted, the application and the client table as they are, if an entry of the
  -- client table that says it has replied holds a reply.
  pub handle_request-Unchanged :
      (remote : Address) (req : Request) (entry : ClientTableEntry) (s : VrReplica State)
      → lookup req.clientid s.client_table ≡ some entry
      → req.clientreqid ≤ entry.last_req_id
      → (entry.replied ≡ true → entry.reply ≢ none)
      → (s' : VrReplica State) × (handle_request env remote req s ≡ ok s') × Unchanged s s'
  unfolding handle_request if◌then◌else◌
  handle_request-Unchanged remote req entry s here old has =
      elim (Bool-cases (is_normal s.status)) [
        | inr abnormal ↦ rw abnormal (s, refl, unchanged s)
        | inl normal ↦ elim (Bool-cases (am_leader s)) [
          | inr follower ↦ rw (normal, follower) (s, refl, unchanged s)
          | inl leads ↦
              rw (normal, leads)
                (respond-Unchanged remote req (freshness req s.client_table) entry s _
                  (freshness-Seen req s entry here old) has
                  (record {
                    same_log = refl;
                    same_op = refl;
                    same_committed = refl;
                    same_app = refl;
                    same_table = refl;
                  }))
        ]
      ]
