-- ===== src/Spec/Durable.antt =====
-- What a replica of spec/replica.cc has committed: the relation between two states, and how it
-- composes. The children go through the code.
pub mod Actions
pub mod Requests
pub mod Sync
pub mod Install
pub mod ViewChange
pub mod Events
use specpaxos.Base.{
  ℕ, zero, suc, some, ◌+◌, ◌-◌, ◌≤◌, ◌≡◌, refl, sym, ap, ◌∙◌, subst, none, true, List, [], ◌∷◌, map,
  take, take-take, arith, length, get_elem?, set, length-set, All,
}
use specpaxos.Log.{Log, LogEntry, committed, is_committed}
use specpaxos.Log.WellFormed.{IsWellFormed, set-IsWellFormed, entry_at, entry_at_number}
use specpaxos.Log.Stable.{HasCommitted, Keeps, commit-HasCommitted}
use specpaxos.Spec.State.{SpecReplica}

-- An entry without its bookkeeping: the reply that is kept for the client, and the opnum of the
-- client's request before.
unfoldable pub core : LogEntry → LogEntry
core e = record e { prev_client_req_opnum = none; reply_message = none }

-- A log that ends at `last_speculative`, of which the entries 1 to `committed` are committed.
pub record Progress : Type 0 where
  pub log : Log
  pub committed : ℕ
  pub last_speculative : ℕ

abbrev pub progress : {A : Type 0} → SpecReplica A → Progress
progress s = record {
  log = s.log;
  committed = s.last_committed;
  last_speculative = s.last_speculative;
}

pub record IsSound (p : Progress) : Type 0 where
  pub has_committed : HasCommitted p.committed p.log
  pub from_one : p.log.start ≡ 1
  pub ends : p.last_speculative ≡ length p.log.entries

-- From `p` to `q` nothing that is committed has changed.
pub record Extends (p q : Progress) : Type 0 where
  pub is_sound : IsSound q
  pub grows : p.committed ≤ q.committed
  pub kept : take p.committed (map core q.log.entries) ≡ take p.committed (map core p.log.entries)

pub Extends-refl : {p : Progress} → IsSound p → Extends p p
Extends-refl h = record { is_sound = h; grows = omega arith; kept = refl }

pub Extends-trans : {p q r : Progress} → Extends p q → Extends q r → Extends p r
Extends-trans {p} {q} {r} h k = record {
  is_sound = k.is_sound;
  grows = omega (arith, h.grows, k.grows);
  kept =
      sym (take-take p.committed q.committed (map core r.log.entries) h.grows)
      ∙ ap (take p.committed) k.kept
      ∙ take-take p.committed q.committed (map core q.log.entries) h.grows
      ∙ h.kept;
}

take-map-core : (n : ℕ) (es : List LogEntry) → take n (map core es) ≡ map core (take n es)
take-map-core zero es = refl
take-map-core (suc n) [] = refl
take-map-core (suc n) (e ∷ es) = ap (λ xs. core e ∷ xs) (take-map-core n es)

-- A change of the log that keeps its committed entries.
pub Extends-Keeps :
    {p : Progress} {l l' : Log} {c n n' : ℕ}
    → Extends p (record { log = l; committed = c; last_speculative = n })
    → Keeps c l l'
    → n' ≡ length l'.entries
    → Extends p (record { log = l'; committed = c; last_speculative = n' })
Extends-Keeps {l} {l'} {c} h k ends = Extends-trans h (record {
  is_sound = record {
    has_committed = k.has_committed;
    from_one = k.same_start ∙ h.is_sound.from_one;
    ends = ends;
  };
  grows = omega arith;
  kept = take-map-core c l'.entries ∙ ap (map core) k.kept ∙ sym (take-map-core c l.entries);
})

-- The next entry is committed.
pub Extends-commit :
    {p : Progress} {l : Log} {c n : ℕ} (e : LogEntry)
    → Extends p (record { log = l; committed = c; last_speculative = n })
    → get_elem? l.entries c ≡ some e
    → let l' = record l { entries = set l.entries c (record e { state = committed }) } in
      Extends p (record { log = l'; committed = c + 1; last_speculative = n })
Extends-commit {p} {l} {c} {n} e h here =
    let (k, more, _) = commit-HasCommitted h.is_sound.has_committed e here in
    let e' : LogEntry = record e { state = committed } in
    let size : n ≡ length (set l.entries c e') =
      h.is_sound.ends ∙ sym (length-set l.entries c e') in
    let next : c + 1 ≡ suc c = omega arith in
    let kept = Extends-Keeps h k size in
    Extends-trans kept (record {
      is_sound = record {
        has_committed = rw next more;
        from_one = h.is_sound.from_one;
        ends = size;
      };
      grows = omega arith;
      kept = refl;
    })

set-core :
    (es : List LogEntry) (i : ℕ) (e e' : LogEntry)
    → get_elem? es i ≡ some e
    → core e' ≡ core e
    → map core (set es i e') ≡ map core es
set-core [] i e e' here same = refl
set-core (x ∷ es) zero e e' here same =
    let found : x ≡ e = cc in ap (λ y. y ∷ map core es) (rw found same)
set-core (x ∷ es) (suc i) e e' here same = ap (λ xs. core x ∷ xs) (set-core es i e e' here same)

-- What is committed shows in the core of the entries.
committed_of_core :
    (c : ℕ) (es es' : List LogEntry)
    → map core es' ≡ map core es
    → All (λ e. is_committed e.state ≡ true) (take c es)
    → All (λ e. is_committed e.state ≡ true) (take c es')
unfolding core
committed_of_core zero es es' same h = tt
committed_of_core (suc c) es [] same h = tt
committed_of_core (suc c) [] (y ∷ ys) same h = absurd cc
committed_of_core (suc c) (x ∷ xs) (y ∷ ys) same h =
    let first : core y ≡ core x = cc in
    let state : y.state ≡ x.state = ap (λ (e : LogEntry). e.state) first in
    let rest : map core ys ≡ map core xs = cc in (rw state h.0, committed_of_core c xs ys rest h.1)

-- A change of the bookkeeping of an entry.
pub Extends-retouch :
    {p : Progress} {l : Log} {c n : ℕ} (i : ℕ) (e e' : LogEntry)
    → Extends p (record { log = l; committed = c; last_speculative = n })
    → get_elem? l.entries i ≡ some e
    → core e' ≡ core e
    → Extends p (record {
      log = record l { entries = set l.entries i e' };
      committed = c;
      last_speculative = n;
    })
unfolding core
Extends-retouch {p} {l} {c} {n} i e e' h here same =
    let x = h.is_sound.has_committed in
    let idx : l.start + i - l.start ≡ i = omega arith in
    let number : e.viewstamp.opnum ≡ l.start + i =
      (entry_at_number (l.start + i) l e x.well_formed (ground arith)).2 in
    let stamp : e'.viewstamp ≡ e.viewstamp = ap (λ (d : LogEntry). d.viewstamp) same in
    let cores = set-core l.entries i e e' here same in
    Extends-trans h (record {
      is_sound = record {
        has_committed = record {
          well_formed = set-IsWellFormed i e' l x.well_formed (rw stamp number);
          room = omega (arith, length-set l.entries i e', x.room);
          done = committed_of_core c l.entries (set l.entries i e') cores x.done;
        };
        from_one = h.is_sound.from_one;
        ends = h.is_sound.ends ∙ sym (length-set l.entries i e');
      };
      grows = omega arith;
      kept = ap (take c) cores;
    })

-- A state whose progress extends `p`.
abbrev pub From : {A : Type 0} → Progress → SpecReplica A → Type 0
From p s = Extends p (progress s)
