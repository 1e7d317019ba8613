-- ===== src/Unreplicated/Calls.antt =====
-- unreplicated/client.cc and unreplicated/replica.cc together: requests one after the other.
use specpaxos.Base.{ℕ, ◌≡◌, refl, none, some, List, [], ◌∷◌, Result, ok, ◌>>=◌, deref, sym, subst}
use specpaxos.Log.{Bytes}
use specpaxos.Replica.{AppReplica, Address, execute}
use specpaxos.Vr.Client.{call_function}
use specpaxos.Unreplicated.{
  request_message, reply_message, request_of, UnreplicatedReplica, UnreplicatedClient, Completion,
  handle_request, receive_message, invoke, complete, handle_reply, client_receive,
}

abbrev pub newest {ℓ} : {A : Type ℓ} → List A → Result A
newest [] = deref none
newest (x ∷ xs) = ok x

module _ (application : AppReplica) where
  open application use {State}

  -- A request: the client invokes it, the replica gets what the client has sent, and the client gets
  -- what the replica has sent.
  unfoldable pub call :
      Address
      → Bytes × ℕ
      → UnreplicatedClient × UnreplicatedReplica State
      → Result (UnreplicatedClient × UnreplicatedReplica State)
  unfolding invoke receive_message client_receive
  call remote (op, f) (c, r) = do
    c1 ← invoke op (some f) c
    request ← newest c1.sent
    r1 ← receive_message application remote request r
    (to, reply) ← newest r1.sent
    c2 ← client_receive reply c1
    ok (c2, r1)

  unfoldable pub call_all :
      Address
      → List (Bytes × ℕ)
      → UnreplicatedClient × UnreplicatedReplica State
      → Result (UnreplicatedClient × UnreplicatedReplica State)
  unfolding call
  call_all remote [] s = ok s
  call_all remote (o ∷ os) s = do s' ← call remote o s; call_all remote os s'

  -- What a run of the application alone gives: the replies, the newest first, and its state.
  abbrev pub run_app : List (Bytes × ℕ) → List Completion → State → List Completion × State
  run_app [] done a = (done, a)
  run_app ((op, f) ∷ os) done a =
      let (reply, a') = application.replica_upcall 0 op a in
      run_app os (record { function = f; request = op; reply = reply } ∷ done) a'

  abbrev answered : Bytes → ℕ → UnreplicatedClient → State → UnreplicatedClient
  answered op f c a = record c {
    sent = request_message (request_of c.clientid op) ∷ c.sent;
    pending_request = none;
    completed =
        record { function = f; request = op; reply = (application.replica_upcall 0 op a).0 }
        ∷ c.completed;
  }

  abbrev executed : Address → Bytes → UnreplicatedReplica State → UnreplicatedReplica State
  executed remote op r = record r {
    app = (application.replica_upcall 0 op r.app).1;
    sent =
        (
          remote,
          reply_message
              (record { view = 0; opnum = 0; reply = (application.replica_upcall 0 op r.app).0 }),
        )
        ∷ r.sent;
  }

  call-answered :
      (remote : Address) (op : Bytes) (f : ℕ) (c : UnreplicatedClient)
      (r : UnreplicatedReplica State)
      → c.pending_request ≡ none
      → call remote (op, f) (c, r) ≡ ok (answered op f c r.app, executed remote op r)
  unfolding call invoke receive_message handle_request execute client_receive handle_reply complete
      call_function
  call-answered remote op f c r free = rw (call, invoke, free) refl

  -- A client without a pending request and a replica, over any requests one after the other: every
  -- request returns, and in the end the client has completed exactly what the application by itself
  -- answers to these requests in their order, has none pending, and the replica has the application's
  -- state after them.
  pub call_all-run_app :
      (remote : Address) (os : List (Bytes × ℕ)) (c : UnreplicatedClient)
      (r : UnreplicatedReplica State)
      → c.pending_request ≡ none
      → (c' : UnreplicatedClient) × (r' : UnreplicatedReplica State) × (call_all remote os (c, r)
          ≡ ok (c', r'))
        × (c'.pending_request ≡ none)
        × (c'.completed ≡ (run_app os c.completed r.app).0)
        × (r'.app ≡ (run_app os c.completed r.app).1)
  unfolding call_all
  call_all-run_app remote [] c r free = (c, r, refl, free, refl, refl)
  call_all-run_app remote ((op, f) ∷ os) c r free =
      let (c', r', e, idle, completed, state) =
        call_all-run_app remote os (answered op f c r.app) (executed remote op r) refl in
      (
        c',
        r',
        subst (λ x. (x >>= call_all remote os) ≡ ok (c', r'))
            (sym (call-answered remote op f c r free)) e,
        idle,
        completed,
        state,
      )
