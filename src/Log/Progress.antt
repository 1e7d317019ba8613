-- ===== src/Log/Progress.antt =====
-- A log and how much of it is committed: the relation between two such states of a replica, and how it
-- composes.
use specpaxos.Base.{
  ℕ, suc, Option, some, ◌+◌, ◌≤◌, ◌≡◌, ◌-◌, Bool, false, ok, ok-injective, length-set, take-set,
  refl, sym, ap, ◌∙◌, subst, take, take-take, arith, get_elem?, set,
}
use specpaxos.Log.{
  Log, LogEntry, Request, committed, is_committed, find, set_request, set_status, replace,
}
use specpaxos.Log.WellFormed.{find_lem, entry_at, entry_at_number, set-IsWellFormed}
use specpaxos.Log.Stable.{
  HasCommitted, Keeps, commit-HasCommitted, keeps, drop_above, set_status_commit,
}

-- A log, of which the entries 1 to `committed` are committed.
pub record Progress : Type 0 where
  pub log : Log
  pub committed : ℕ

pub record IsSound (p : Progress) : Type 0 where
  pub has_committed : HasCommitted p.committed p.log
  pub from_one : p.log.start ≡ 1

-- From `p` to `q` nothing that is committed has changed.
pub record Extends (p q : Progress) : Type 0 where
  pub is_sound : IsSound q
  pub grows : p.committed ≤ q.committed
  pub kept : take p.committed q.log.entries ≡ take p.committed p.log.entries

pub Extends-refl : {p : Progress} → IsSound p → Extends p p
Extends-refl h = record { is_sound = h; grows = omega arith; kept = refl }

pub Extends-trans : {p q r : Progress} → Extends p q → Extends q r → Extends p r
Extends-trans {p} {q} {r} h k = record {
  is_sound = k.is_sound;
  grows = omega (arith, h.grows, k.grows);
  kept =
      sym (take-take p.committed q.committed r.log.entries h.grows)
      ∙ ap (take p.committed) k.kept
      ∙ take-take p.committed q.committed q.log.entries h.grows
      ∙ h.kept;
}

-- A change of the log that keeps its committed entries.
pub Extends-Keeps :
    {p : Progress} {l l' : Log} {c : ℕ}
    → Extends p (record { log = l; committed = c })
    → Keeps c l l'
    → Extends p (record { log = l'; committed = c })
Extends-Keeps h k = Extends-trans h (record {
  is_sound = record {
    has_committed = k.has_committed;
    from_one = k.same_start ∙ h.is_sound.from_one;
  };
  grows = omega arith;
  kept = k.kept;
})

-- The next entry is committed.
pub Extends-commit :
    {p : Progress} {l : Log} {c : ℕ} (e : LogEntry)
    → Extends p (record { log = l; committed = c })
    → get_elem? l.entries c ≡ some e
    → let l' = record l { entries = set l.entries c (record e { state = committed }) } in
      Extends p (record { log = l'; committed = c + 1 })
Extends-commit {p} {l} {c} e h here =
    let (k, more, _) = commit-HasCommitted h.is_sound.has_committed e here in
    let next : c + 1 ≡ suc c = omega arith in
    Extends-trans h (record {
      is_sound = record { has_committed = rw next more; from_one = h.is_sound.from_one };
      grows = omega arith;
      kept = k.kept;
    })

-- SetRequest of an entry that is not committed keeps the committed ones.
pub set_request-Keeps :
    {c : ℕ} {l l' : Log} {b : Bool} (op : ℕ) (req : Request) (e : LogEntry)
    → HasCommitted c l
    → find op l ≡ ok (some e)
    → is_committed e.state ≡ false
    → set_request op req l ≡ ok (l', b)
    → Keeps c l l'
unfolding set_request replace
set_request-Keeps {c} {l} {l'} op req e h found state r =
    let w = h.well_formed in
    let looked = find_lem op l w in
    let here : entry_at op l ≡ some e = ground arith in
    let (low, high, number) = entry_at_number op l e w here in
    let e' : LogEntry = record e { request = req } in
    let same : l' ≡ record l { entries = set l.entries (op - l.start) e' } = ground arith in
    let above = drop_above h op e here state in
    let place : e'.viewstamp.opnum ≡ l.start + (op - l.start) = omega arith in
    subst (Keeps c l) (sym same) (
      keeps h (set-IsWellFormed (op - l.start) e' l w place) refl
        (omega (arith, length-set l.entries (op - l.start) e', h.room))
        (take-set c l.entries (op - l.start) e' above))

-- Find returns the entry that the log has at the position after the committed ones.
pub find_next :
    {c : ℕ} {l : Log} (found : Option LogEntry) (e : LogEntry)
    → IsSound (record { log = l; committed = c })
    → find (c + 1) l ≡ ok found
    → found ≡ some e
    → get_elem? l.entries c ≡ some e
find_next {c} {l} found e h f same =
    let looked = find_lem (c + 1) l h.has_committed.well_formed in
    ground (arith, looked, h.from_one)

-- SetStatus marks that entry, so the progress is one entry further.
pub Extends-set_status :
    {p : Progress} {l : Log} {c : ℕ} (marked : Log × Bool) (e : LogEntry)
    → Extends p (record { log = l; committed = c })
    → get_elem? l.entries c ≡ some e
    → set_status (c + 1) committed l ≡ ok marked
    → Extends p (record { log = marked.0; committed = c + 1 })
Extends-set_status {l} {c} marked e h here m =
    let number : c + 1 ≡ l.start + c = omega (arith, h.is_sound.from_one) in
    let marks = set_status_commit h.is_sound.has_committed (c + 1) e number here in
    rw (ok-injective (sym m ∙ marks)) (Extends-commit e h here)
