-- ===== src/Log/Stable.antt =====
-- Logs of which the first `c` entries are committed, under the operations of common/log.cc and
-- common/log-impl.h.
use specpaxos.Base.{
  ℕ, zero, suc, ◌+◌, ◌-◌, ◌≤◌, ◌<◌, ◌≡◌, refl, sym, ap, ◌∙◌, subst, true, false, some, List, [],
  ◌∷◌, ◌++◌, ok, arith, ◌⊎◌, ltb, leb, ◌==◌, length, get_elem?, set, take, All, length-append,
  length-take, length-set, Bool-cases, Option-cases, get_elem?-lt, get_elem?-take,
  get_elem?-set_self, take-suc, All-append, leb→le, leb→lt, inl, inr, >>=-eq-ok, >>-eq-ok,
  take-append_left, take-take, take-set, All-get, sub64-eq-sub,
}
use specpaxos.Viewstamp.{Viewstamp}
use specpaxos.Log.{
  Bytes, Request, LogEntryState, Log, LogEntry, EntryMessage, committed, prepared, last_opnum,
  append, remove_after, set_status, replace, new_entry, none_committed, hashed, is_committed,
}
use specpaxos.Log.Transfer.{diverge, append_all, install}
use specpaxos.Log.WellFormed.{
  IsWellFormed, entry_at, find_lem, last_opnum_lem, append_inv, append-IsWellFormed,
  take-IsWellFormed, set-IsWellFormed, entry_at_number,
}

-- The first `c` entries are committed.
pub record HasCommitted (c : ℕ) (l : Log) : Type 0 where
  pub well_formed : IsWellFormed l
  pub room : c ≤ length l.entries
  pub done : All (λ e. is_committed e.state ≡ true) (take c l.entries)

-- The first `c` entries of a log stay as they are.
pub record Keeps (c : ℕ) (l l' : Log) : Type 0 where
  pub has_committed : HasCommitted c l'
  pub same_start : l'.start ≡ l.start
  pub kept : take c l'.entries ≡ take c l.entries

pub Keeps-refl : {c : ℕ} {l : Log} → HasCommitted c l → Keeps c l l
Keeps-refl h = record { has_committed = h; same_start = refl; kept = refl }

pub Keeps-trans : {c : ℕ} {l m n : Log} → Keeps c l m → Keeps c m n → Keeps c l n
Keeps-trans h k = record {
  has_committed = k.has_committed;
  same_start = k.same_start ∙ h.same_start;
  kept = k.kept ∙ h.kept;
}

-- A well-formed log with these first entries.
pub keeps :
    {c : ℕ} {l l' : Log}
    → HasCommitted c l
    → IsWellFormed l'
    → l'.start ≡ l.start
    → c ≤ length l'.entries
    → take c l'.entries ≡ take c l.entries
    → Keeps c l l'
keeps h w same room kept = record {
  has_committed = record { well_formed = w; room = room; done = subst (All _) (sym kept) h.done };
  same_start = same;
  kept = kept;
}

first_uncommitted :
    (rounds i : ℕ) (l : Log)
    → IsWellFormed l
    → 0 < rounds
    → none_committed rounds i l ≡ ok tt
    → (e : LogEntry) × (entry_at i l ≡ some e) × (is_committed e.state ≡ false)
unfolding none_committed
first_uncommitted zero i l w pos h = absurd (omega arith)
first_uncommitted (suc r) i l w pos h = ground (arith, find_lem i l w)

-- When RemoveAfter returns for a well-formed log, it has either kept the log as it is, as all of it
-- lies below the opnum, or dropped all from the entry of that opnum on, which was not committed.
pub remove_after_inv :
    (op : ℕ) (l l' : Log)
    → IsWellFormed l
    → remove_after op l ≡ ok l'
    → ((l.start + length l.entries ≤ op) × (l' ≡ l))
      ⊎ ((e : LogEntry) × (entry_at op l ≡ some e)
          × (is_committed e.state ≡ false)
          × (l' ≡ record l { entries = take (op - l.start) l.entries }))
unfolding remove_after
remove_after_inv op l l' w h =
    let (checked, rest) = >>-eq-ok (none_committed (last_opnum l + 1 - op) op l) _ h in
    elim (Bool-cases (ltb (last_opnum l) op)) [
      | inl above ↦ inl (ground (arith, last_opnum_lem l w))
      | inr within ↦
          let (e, here, uncommitted) =
            first_uncommitted (last_opnum l + 1 - op) op l w (ground arith) checked in
          let bounds = entry_at_number op l e w here in
          inr (e, here, uncommitted, ground (arith, sub64-eq-sub op l.start))
    ]

module _ {c : ℕ} {l : Log} (h : HasCommitted c l) where
  -- An append leaves every entry.
  pub append-Keeps :
      {l' : Log} (sha1 : Bytes → Bytes) (vs : Viewstamp) (req : Request) (st : LogEntryState)
      → append sha1 vs req st l ≡ ok l'
      → Keeps c l l'
  append-Keeps {l'} sha1 vs req st e =
      let (_, _, same) = append_inv sha1 vs req st l l' h.well_formed e in
      let new = hashed sha1 l (new_entry vs st req) in
      keeps h (append-IsWellFormed sha1 vs req st l l' h.well_formed e)
        (ap (λ (x : Log). x.start) same)
        (rw same (omega (arith, length-append l.entries (new ∷ []), h.room)))
        (rw same (take-append_left c l.entries (new ∷ []) h.room))

  -- An entry that RemoveAfter may drop is not committed, so it lies above the first `c`.
  pub drop_above :
      (op : ℕ) (e : LogEntry)
      → entry_at op l ≡ some e
      → is_committed e.state ≡ false
      → c ≤ op - l.start
  drop_above op e here uncommitted = elim (Bool-cases (leb c (op - l.start))) [
    | inl le ↦ leb→le _ _ le
    | inr lt ↦
        let (low, high, _) = entry_at_number op l e h.well_formed here in
        let below = leb→lt c (op - l.start) lt in
        let got : get_elem? l.entries (op - l.start) ≡ some e = ground arith in
        let yes_committed : is_committed e.state ≡ true =
          All-get _ (take c l.entries) (op - l.start) h.done
            (get_elem?-take c l.entries (op - l.start) below ∙ got) in
        cc
  ]

  pub remove_after-Keeps : {l' : Log} (op : ℕ) → remove_after op l ≡ ok l' → Keeps c l l'
  remove_after-Keeps {l'} op e = elim (remove_after_inv op l l' h.well_formed e) [
    | inl (_, same) ↦ rw same (Keeps-refl h)
    | inr (x, here, uncommitted, same) ↦
        let low = drop_above op x here uncommitted in
        let room = h.room in
        let k = op - l.start in
        rw same (
          keeps h (take-IsWellFormed k l h.well_formed) refl
            (omega (arith, length-take k l.entries)) (take-take c k l.entries low))
  ]

  -- SetStatus of the entry after the first `c`: one more entry is committed.
  pub set_status_commit :
      (op : ℕ) (e : LogEntry)
      → op ≡ l.start + c
      → get_elem? l.entries c ≡ some e
      → set_status op committed l
        ≡ ok (record l { entries = set l.entries c (record e { state = committed }) }, true)
  unfolding set_status replace
  set_status_commit op e number here =
      ground (arith, find_lem op l h.well_formed, entry_at_number op l e h.well_formed)

  pub commit-HasCommitted :
      (e : LogEntry)
      → get_elem? l.entries c ≡ some e
      → let l' = record l { entries = set l.entries c (record e { state = committed }) } in
        Keeps c l l'
        × HasCommitted (suc c) l'
        × (take (suc c) l'.entries ≡ take c l.entries ++ record e { state = committed } ∷ [])
  unfolding is_committed
  commit-HasCommitted e here =
      let e' : LogEntry = record e { state = committed } in
      let below = get_elem?-lt l.entries c here in
      let counted = length-set l.entries c e' in
      let idx : l.start + c - l.start ≡ c = omega arith in
      let number : e.viewstamp.opnum ≡ l.start + c =
        (entry_at_number (l.start + c) l e h.well_formed (ground arith)).2 in
      let wf = set-IsWellFormed c e' l h.well_formed number in
      let start_kept = take-set c l.entries c e' (omega arith) in
      let grown =
        take-suc c (set l.entries c e') (get_elem?-set_self l.entries c e' below)
        ∙ ap (λ t. t ++ e' ∷ []) start_kept in
      (
        keeps h wf refl (omega (arith, counted, h.room)) start_kept,
        record {
          well_formed = wf;
          room = omega (arith, counted);
          done = rw grown (All-append _ (take c l.entries) (e' ∷ []) h.done (refl, tt));
        },
        grown,
      )

-- The first loop of Install.
pub diverge-Keeps :
    {c : ℕ} {l' : Log} (ms rest : List EntryMessage) (l : Log)
    → HasCommitted c l
    → diverge ms l ≡ ok (l', rest)
    → Keeps c l l'
unfolding diverge
diverge-Keeps [] rest l h e =
    let same : l ≡ _ = ground arith in subst (Keeps _ l) same (Keeps-refl h)
diverge-Keeps {c} {l'} (m ∷ ms) rest l h e =
    let w = find_lem m.opnum l h.well_formed in
    elim (Option-cases (entry_at m.opnum l)) [
      | inl missing ↦ elim (Bool-cases (ltb m.opnum l.start)) [
        | inl trimmed ↦ diverge-Keeps ms rest l h (ground arith)
        | inr new ↦ let same : l ≡ l' = ground arith in subst (Keeps c l) same (Keeps-refl h)
      ]
      | inr (old, here) ↦ elim (Bool-cases (m.view == old.viewstamp.view)) [
        | inl same ↦ diverge-Keeps ms rest l h (ground arith)
        | inr other ↦ remove_after-Keeps h m.opnum (ground arith)
      ]
    ]

-- The second loop of Install.
pub append_all-Keeps :
    {c : ℕ} {l' : Log} (sha1 : Bytes → Bytes) (ms : List EntryMessage) (l : Log)
    → HasCommitted c l
    → append_all sha1 ms l ≡ ok l'
    → Keeps c l l'
unfolding append_all
append_all-Keeps sha1 [] l h e = subst (Keeps _ l) (ground arith) (Keeps-refl h)
append_all-Keeps {c} {l'} sha1 (m ∷ ms) l h e =
    let (k, first, more) = >>=-eq-ok (append sha1 _ m.request prepared l) _ e in
    let kept = append-Keeps h sha1 _ m.request prepared first in
    Keeps-trans kept (append_all-Keeps sha1 ms k kept.has_committed more)

-- Install, when it returns, keeps a log well-formed, its start, and its first `c` entries if they are
-- committed: these are equal afterwards, and still committed.
pub install-Keeps :
    {c : ℕ} {l l' : Log} (sha1 : Bytes → Bytes) (ms : List EntryMessage)
    → HasCommitted c l
    → install sha1 ms l ≡ ok l'
    → Keeps c l l'
unfolding install
install-Keeps {l} sha1 ms h e =
    let ((k, rest), first, more) = >>=-eq-ok (diverge ms l) _ e in
    let kept = diverge-Keeps ms rest l h first in
    Keeps-trans kept (append_all-Keeps sha1 rest k kept.has_committed more)
