-- ===== src/Log/Installed.antt =====
-- Log::Install of common/log-impl.h: the messages that it is given and the entries of the log.
use specpaxos.Base.{
  ℕ, ◌+◌, ◌-◌, ◌<◌, ◌≡◌, ◌⊎◌, inl, inr, refl, ◌∙◌, subst, some, List, [], ◌∷◌, ok, arith, ltb, ◌==◌,
  length, All, All-map, Option-cases, Bool-cases, >>=-eq-ok, get_elem?-lt, get_elem?-take,
  get_elem?-append_left, get_elem?-length,
}
use specpaxos.Viewstamp.{Viewstamp}
use specpaxos.Log.{Bytes, Log, LogEntry, EntryMessage, append, prepared, new_entry, hashed}
use specpaxos.Log.Transfer.{diverge, append_all, install}
use specpaxos.Log.WellFormed.{
  IsWellFormed, entry_at, entry_at_number, find_lem, append_inv, append-IsWellFormed,
  hashed-viewstamp,
}
use specpaxos.Log.Stable.{HasCommitted, diverge-Keeps, remove_after_inv}

-- The log has the entry of the message, by its view and its opnum.
pub record Has (l : Log) (m : EntryMessage) : Type 0 where
  pub entry : LogEntry
  pub here : entry_at m.opnum l ≡ some entry
  pub same : entry.viewstamp ≡ record { view = m.view; opnum = m.opnum }

-- The messages carry the opnums from `k` on.
abbrev pub Consecutive : ℕ → List EntryMessage → Type 0
Consecutive k [] = Unit {0}
Consecutive k (m ∷ ms) = (m.opnum ≡ k) × Consecutive (k + 1) ms

-- Every entry stays at its opnum.
record Grows (l l' : Log) : Type 0 where
  start : l'.start ≡ l.start
  stays : (op : ℕ) (e : LogEntry) → entry_at op l ≡ some e → entry_at op l' ≡ some e

Has-Grows : (l l' : Log) (m : EntryMessage) → Has l m → Grows l l' → Has l' m
Has-Grows l l' m h g = record {
  entry = h.entry;
  here = g.stays m.opnum h.entry h.here;
  same = h.same;
}

-- Append leaves the entries, and adds that of the message.
append-Grows :
    (sha1 : Bytes → Bytes) (m : EntryMessage) (l l' : Log)
    → IsWellFormed l
    → append sha1 (record { view = m.view; opnum = m.opnum }) m.request prepared l ≡ ok l'
    → Grows l l' × Has l' m
unfolding new_entry
append-Grows sha1 m l l' w e =
    let vs : Viewstamp = record { view = m.view; opnum = m.opnum } in
    let new = hashed sha1 l (new_entry vs prepared m.request) in
    let (next, room, same) = append_inv sha1 vs m.request prepared l l' w e in
    let index : m.opnum - l.start ≡ length l.entries = omega arith in
    (
      rw same (record {
        start = refl;
        stays = λ op x here. ground (
          arith,
          get_elem?-append_left l.entries (new ∷ []) (op - l.start),
          get_elem?-lt l.entries (op - l.start) {a = x},
        );
      }),
      rw same (record {
        entry = new;
        here = ground (arith, get_elem?-length l.entries new);
        same = hashed-viewstamp sha1 l (new_entry vs prepared m.request);
      }),
    )

Grows-trans : (l m n : Log) → Grows l m → Grows m n → Grows l n
Grows-trans l m n g h = record {
  start = h.start ∙ g.start;
  stays = λ op e here. h.stays op e (g.stays op e here);
}

append_all-Grows :
    (sha1 : Bytes → Bytes) (ms : List EntryMessage) (l l' : Log)
    → IsWellFormed l
    → append_all sha1 ms l ≡ ok l'
    → Grows l l' × All (Has l') ms
unfolding append_all
append_all-Grows sha1 [] l l' w e =
    let same : l ≡ l' = ground arith in
    (subst (Grows l) same (record { start = refl; stays = λ op x here. here }), tt)
append_all-Grows sha1 (m ∷ ms) l l' w e =
    let (k, first, more) = >>=-eq-ok (append sha1 _ m.request prepared l) _ e in
    let (g, has) = append-Grows sha1 m l k w first in
    let (g', rest) =
      append_all-Grows sha1 ms k l' (append-IsWellFormed sha1 _ m.request prepared l k w first)
        more in
    (Grows-trans l k l' g g', (Has-Grows k l' m has g', rest))

empty_prefix : (l : Log) → IsWellFormed l → HasCommitted 0 l
empty_prefix l w = record { well_formed = w; room = omega arith; done = tt }

-- What the first loop drops lies at the opnum of a message or above.
diverge-below :
    (k : ℕ) (ms rest : List EntryMessage) (l l' : Log) (op : ℕ) (e : LogEntry)
    → IsWellFormed l
    → Consecutive k ms
    → diverge ms l ≡ ok (l', rest)
    → op < k
    → entry_at op l ≡ some e
    → entry_at op l' ≡ some e
unfolding diverge
diverge-below k [] rest l l' op e w c h lt here =
    let same : l ≡ l' = ground arith in subst (λ x. entry_at op x ≡ some e) same here
diverge-below k (m ∷ ms) rest l l' op e w c h lt here =
    let found = find_lem m.opnum l w in
    let later = diverge-below (k + 1) ms rest l l' op e w c.1 in
    elim (Option-cases (entry_at m.opnum l)) [
      | inl missing ↦ elim (Bool-cases (ltb m.opnum l.start)) [
        | inl trimmed ↦ later (ground arith) (omega arith) here
        | inr new ↦
            let same : l ≡ l' = ground arith in subst (λ x. entry_at op x ≡ some e) same here
      ]
      | inr (old, at_m) ↦ elim (Bool-cases (m.view == old.viewstamp.view)) [
        | inl agrees ↦ later (ground arith) (omega arith) here
        | inr other ↦ elim (remove_after_inv m.opnum l l' w (ground arith)) [
          | inl (above, same) ↦ rw same here
          | inr (x, at_x, uncommitted, same) ↦
              let (low, high, number) = entry_at_number op l e w here in
              rw same (ground (arith, get_elem?-take (m.opnum - l.start) l.entries (op - l.start)))
        ]
      ]
    ]

-- The messages that the first loop skips are trimmed or in the log, and stay there.
diverge-Has :
    (k : ℕ) (ms rest : List EntryMessage) (l l' final : Log)
    → IsWellFormed l
    → Consecutive k ms
    → diverge ms l ≡ ok (l', rest)
    → Grows l' final
    → All (Has final) rest
    → All (λ m. (m.opnum < l.start) ⊎ Has final m) ms
unfolding diverge
diverge-Has k [] rest l l' final w c h g all = tt
diverge-Has k (m ∷ ms) rest l l' final w c h g all =
    let found = find_lem m.opnum l w in
    let later : diverge ms l ≡ ok (l', rest) → All (λ m. (m.opnum < l.start) ⊎ Has final m) ms =
      λ e. diverge-Has (k + 1) ms rest l l' final w c.1 e g all in
    let untouched : All (Has final) (m ∷ ms)
        → All (λ m. (m.opnum < l.start) ⊎ Has final m) (m ∷ ms) =
      All-map (λ m x. inr x) (m ∷ ms) in
    elim (Option-cases (entry_at m.opnum l)) [
      | inl missing ↦ elim (Bool-cases (ltb m.opnum l.start)) [
        | inl trimmed ↦ (inl (ground arith), later (ground arith))
        | inr new ↦
            let same : rest ≡ m ∷ ms = ground arith in untouched (subst (All (Has final)) same all)
      ]
      | inr (old, at_m) ↦ elim (Bool-cases (m.view == old.viewstamp.view)) [
        | inl agrees ↦
            let skipped : diverge ms l ≡ ok (l', rest) = ground arith in
            let kept =
              diverge-below (k + 1) ms rest l l' m.opnum old w c.1 skipped (omega arith) at_m in
            let (low, high, number) = entry_at_number m.opnum l old w at_m in
            (
              inr (record { entry = old; here = g.stays m.opnum old kept; same = ground arith }),
              later skipped,
            )
        | inr other ↦
            let same : rest ≡ m ∷ ms = ground arith in untouched (subst (All (Has final)) same all)
      ]
    ]

-- Install of messages with consecutive opnums into a well-formed log, when it returns: afterwards
-- every message's opnum is below the log's start, or has an entry with the message's view and opnum.
pub install-Has :
    (sha1 : Bytes → Bytes) (k : ℕ) (ms : List EntryMessage) (l l' : Log)
    → IsWellFormed l
    → Consecutive k ms
    → install sha1 ms l ≡ ok l'
    → All (λ m. (m.opnum < l.start) ⊎ Has l' m) ms
unfolding install
install-Has sha1 k ms l l' w c h =
    let ((m, rest), first, more) = >>=-eq-ok (diverge ms l) _ h in
    let kept = diverge-Keeps ms rest l (empty_prefix l w) first in
    let (g, all) = append_all-Grows sha1 rest m l' kept.has_committed.well_formed more in
    diverge-Has k ms rest l m l' w c first g all
