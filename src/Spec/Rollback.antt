-- ===== src/Spec/Rollback.antt =====
-- RollbackTo of spec/replica.cc after a request that was executed speculatively.
use specpaxos.Base.{
  ℕ, ◌+◌, ◌<◌, ◌≡◌, refl, sym, ap, subst, false, some, [], ◌∷◌, ok, arith, length, add64,
  add64-eq-add,
}
use specpaxos.Base.Code.{◌>>=◌}
use specpaxos.Base.Map.{Map, insert, lookup-insert, lookup-insert_self}
use specpaxos.Log.{
  Request, LogEntry, SpeculativeReplyMessage, max_size, speculative, append, hashed, new_entry,
  is_committed,
}
use specpaxos.Log.WellFormed.{IsWellFormed, append_lem, append-IsWellFormed, hashed-viewstamp}
use specpaxos.Replica.{Address, execute}
use specpaxos.Viewstamp.{Viewstamp}
use specpaxos.Spec.Messages.{speculative_reply_message}
use specpaxos.Spec.State.{to_address, ClientTableEntry, Environment, SpecReplica, send}
use specpaxos.Spec.Durable.{IsSound, progress}
use specpaxos.Spec.Actions.{client_entry, previous_req_id, rollback_to}
use specpaxos.Spec.Requests.{speculate}
use specpaxos.Spec.LastEntry.{
  extended, last_request, retouched, last_hash_extended, update_extended, rollback_to_top,
}

module _ (env : Environment) (remote : Address) (req : Request)
    (s : SpecReplica env.application.State) where
  open env use {application, sha1}
  open application use {State, replica_upcall, rollback_upcall}

  abbrev op : ℕ
  op = s.last_speculative + 1

  abbrev cte : ClientTableEntry
  cte = last_request req.clientid s

  abbrev stamp : Viewstamp
  stamp = record { view = s.view; opnum = op }

  abbrev reply : SpeculativeReplyMessage
  reply = record {
    clientreqid = req.clientreqid;
    replica_idx = s.my_idx;
    view = s.view;
    opnum = op;
    loghash = (hashed sha1 s.log (new_entry stamp speculative req)).hash;
    reply = (execute application op req s.app).0;
    committed = false;
  }

  -- The entry that the log gets.
  abbrev entry : LogEntry
  entry = record (hashed sha1 s.log (new_entry stamp speculative req)) {
    prev_client_req_opnum = some cte.last_req_opnum;
    reply_message = some reply;
  }

  -- The replica after the speculative execution.
  abbrev speculated : SpecReplica State
  speculated = record s {
    last_speculative = op;
    log = extended s.log entry;
    app = (execute application op req s.app).1;
    client_table =
        insert req.clientid
          (record { last_req_id = req.clientreqid; last_req_opnum = entry.viewstamp.opnum })
          s.client_table;
    sent = to_address remote (speculative_reply_message reply) ∷ s.sent;
  }

  module _ (h : IsSound (progress s)) (room : length s.log.entries < max_size) where
    wf : IsWellFormed s.log
    wf = h.has_committed.well_formed

    number : op ≡ s.log.start + length s.log.entries
    number = omega (arith, h.from_one, h.ends)

    next_op : add64 s.last_speculative 1 ≡ op
    next_op = add64-eq-add s.last_speculative 1 (omega (arith, h.ends, wf.fits))

    appended :
        append sha1 stamp req speculative s.log
        ≡ ok (extended s.log (hashed sha1 s.log (new_entry stamp speculative req)))
    appended = append_lem sha1 stamp req speculative s.log wf number room

    speculate_lem : cte.last_req_id < req.clientreqid → speculate env remote req s ≡ ok speculated
    unfolding speculate send ◌>>=◌
    speculate_lem newer =
        let e0 = hashed sha1 s.log (new_entry stamp speculative req) in
        rw (next_op, appended, last_hash_extended s.log e0)
          (update_extended req reply
            (send (to_address remote (speculative_reply_message reply))
              (record s { last_speculative = op; app = (execute application op req s.app).1 }))
            s.log e0 newer)

    extended-IsWellFormed : IsWellFormed (extended s.log entry)
    extended-IsWellFormed =
        let e0 = hashed sha1 s.log (new_entry stamp speculative req) in
        retouched s.log e0 entry
          (append-IsWellFormed sha1 stamp req speculative s.log (extended s.log e0) wf appended)
          refl

    entry-request : entry.request ≡ req
    unfolding hashed new_entry
    entry-request = ground arith

    entry_speculative : is_committed entry.state ≡ false
    unfolding hashed new_entry is_committed
    entry_speculative = ground arith

    entry_number : entry.viewstamp.opnum ≡ op
    unfolding new_entry
    entry_number =
        ap (λ (v : Viewstamp). v.opnum)
          (hashed-viewstamp sha1 s.log (new_entry stamp speculative req))

-- A replica on which a speculative execution has been taken back.
pub record TakenBack (env : Environment) (req : Request) (s s'' : SpecReplica env.application.State)
    : Type 0 where
  pub same_log : s''.log ≡ s.log
  pub same_speculative : s''.last_speculative ≡ s.last_speculative
  pub same_committed : s''.last_committed ≡ s.last_committed
  pub same_clients : (client : ℕ) → last_request client s'' ≡ last_request client s
  pub rolled :
      s''.app
      ≡ env.application.rollback_upcall
          (s.last_speculative + 1)
          s.last_speculative
          ((s.last_speculative + 1, req.op) ∷ [])
          (env.application.replica_upcall (s.last_speculative + 1) req.op s.app).1

client_entry-rolled :
    (client other : ℕ) (new old : ClientTableEntry) (table : Map ClientTableEntry)
    → old ≡ client_entry client table
    → client_entry other (insert client old (insert client new table)) ≡ client_entry other table
unfolding client_entry
client_entry-rolled client other new old table same = ground (
  arith,
  lookup-insert client other old (insert client new table),
  lookup-insert client other new table,
)

client_entry-insert :
    (client : ℕ) (new : ClientTableEntry) (table : Map ClientTableEntry)
    → client_entry client (insert client new table) ≡ new
unfolding client_entry
client_entry-insert client new table = rw (lookup-insert_self client new table, client_entry) refl

-- RollbackTo takes back a speculative execution: a sound replica that has room in its log executes a
-- new request of a client, whose last request the log has under the number of the client table; then
-- RollbackTo the opnum before returns, the log, lastSpeculative and every client's entry are as they
-- were, and the application is asked to roll back this operation alone.
pub rollback_to-speculate :
    (env : Environment) (remote : Address) (req : Request) (s : SpecReplica env.application.State)
    → IsSound (progress s)
    → length s.log.entries < max_size
    → (last_request req.clientid s).last_req_id < req.clientreqid
    → previous_req_id (last_request req.clientid s).last_req_opnum s.log
      ≡ ok (last_request req.clientid s).last_req_id
    → (s' : SpecReplica env.application.State) × (s'' : SpecReplica env.application.State)
      × (speculate env remote req s ≡ ok s')
      × (rollback_to env s.last_speculative s' ≡ ok s'')
      × TakenBack env req s s''
unfolding execute
rollback_to-speculate env remote req s h room newer before =
    let e = entry env remote req s in
    let t = speculated env remote req s in
    let same = entry-request env remote req s h room in
    let c = last_request req.clientid s in
    let new : ClientTableEntry = record {
      last_req_id = req.clientreqid;
      last_req_opnum = e.viewstamp.opnum;
    } in
    let client : e.request.clientid ≡ req.clientid = ap (λ (r : Request). r.clientid) same in
    let mine : (client_entry e.request.clientid t.client_table).last_req_opnum ≡ e.viewstamp.opnum =
      subst (λ k. (client_entry k t.client_table).last_req_opnum ≡ e.viewstamp.opnum) (sym client)
        (ap (λ (x : ClientTableEntry). x.last_req_opnum)
          (client_entry-insert req.clientid new s.client_table)) in
    let undone =
      rollback_to_top env s.last_speculative c.last_req_opnum c.last_req_id s.log e t
        h.has_committed.well_formed (extended-IsWellFormed env remote req s h room) h.from_one
        h.ends (omega (arith, h.ends, h.has_committed.room))
        (entry_speculative env remote req s h room) mine refl before in
    (
      t,
      _,
      speculate_lem env remote req s h room newer,
      undone,
      record {
        same_log = refl;
        same_speculative = refl;
        same_committed = refl;
        same_clients = λ other.
            subst
              (λ k.
                client_entry other (insert k c t.client_table) ≡ client_entry other s.client_table)
              (sym client) (client_entry-rolled req.clientid other new c s.client_table refl);
        rolled =
            subst
              (λ o.
                env.application.rollback_upcall (s.last_speculative + 1) s.last_speculative
                  ((s.last_speculative + 1, o) ∷ []) t.app
                ≡ env.application.rollback_upcall (s.last_speculative + 1) s.last_speculative
                    ((s.last_speculative + 1, req.op) ∷ []) t.app)
              (sym (ap (λ (r : Request). r.op) same)) refl;
      },
    )
