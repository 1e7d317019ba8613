-- ===== src/Log/WellFormed.antt =====
-- Well-formed logs of common/log.cc, whose entries carry consecutive opnums from the start on: Find,
-- LastOpnum and Append on them.
use specpaxos.Base.{
  ℕ, zero, suc, ◌+◌, ◌-◌, ◌^◌, ◌≤◌, ◌<◌, ◌≡◌, refl, ap, ◌∙◌, Option, none, some, List, [], ◌∷◌,
  ◌++◌, ok, sub64-eq-sub, add64-eq-add, le-get_elem?-none, arith, ltb, if◌then◌else◌, length,
  get_elem?, set, take, last?, length-append, length-take, length-set, Option-cases, get_elem?-lt,
  inl, inr,
}
use specpaxos.Viewstamp.{Viewstamp}
use specpaxos.Log.{
  Bytes, Request, LogEntryState, Log, LogEntry, max_size, last_opnum, find, append, new_entry,
  hashed,
}

abbrev pub Numbered : ℕ → List LogEntry → Type 0
Numbered n [] = Unit {0}
Numbered n (e ∷ es) = (e.viewstamp.opnum ≡ n) × Numbered (suc n) es

pub record IsWellFormed (l : Log) : Type 0 where
  pub numbered : Numbered l.start l.entries
  pub fits : length l.entries ≤ max_size
  pub positive : 1 ≤ l.start
  pub small : l.start ≤ 2 ^ 63

-- The entry of an opnum, with no test of its number.
abbrev pub entry_at : ℕ → Log → Option LogEntry
entry_at op l = if ltb op l.start then none else get_elem? l.entries (op - l.start)

Numbered-get :
    (n : ℕ) (es : List LogEntry) (i : ℕ) {e : LogEntry}
    → Numbered n es
    → get_elem? es i ≡ some e
    → e.viewstamp.opnum ≡ n + i
Numbered-get n [] i w h = absurd (ground arith)
Numbered-get n (x ∷ es) zero w h = ground arith
Numbered-get n (x ∷ es) (suc i) w h = omega (arith, Numbered-get (suc n) es i w.1 h)

Numbered-append :
    (n : ℕ) (es : List LogEntry) (e : LogEntry)
    → Numbered n es
    → e.viewstamp.opnum ≡ n + length es
    → Numbered n (es ++ e ∷ [])
Numbered-append n [] e w h = (omega arith, tt)
Numbered-append n (x ∷ es) e w h = (w.0, Numbered-append (suc n) es e w.1 (omega arith))

Numbered-take : (n k : ℕ) (es : List LogEntry) → Numbered n es → Numbered n (take k es)
Numbered-take n zero es w = tt
Numbered-take n (suc k) [] w = tt
Numbered-take n (suc k) (x ∷ es) w = (w.0, Numbered-take (suc n) k es w.1)

Numbered-set :
    (n : ℕ) (es : List LogEntry) (i : ℕ) (e : LogEntry)
    → Numbered n es
    → e.viewstamp.opnum ≡ n + i
    → Numbered n (set es i e)
Numbered-set n [] i e w h = tt
Numbered-set n (x ∷ es) zero e w h = (omega arith, w.1)
Numbered-set n (x ∷ es) (suc i) e w h = (w.0, Numbered-set (suc n) es i e w.1 (omega arith))

Numbered-last :
    (n : ℕ) (e : LogEntry) (es : List LogEntry)
    → Numbered n (e ∷ es)
    → (x : LogEntry) × (last? (e ∷ es) ≡ some x) × (x.viewstamp.opnum ≡ n + length es)
Numbered-last n e [] w = (e, refl, omega arith)
Numbered-last n e (e' ∷ es) w =
    let (x, at_end, number) = Numbered-last (suc n) e' es w.1 in (x, at_end, omega arith)

pub last_opnum_lem : (l : Log) → IsWellFormed l → last_opnum l ≡ l.start + length l.entries - 1
unfolding last_opnum
last_opnum_lem l w = go l.entries refl
  where
    go : (es : List LogEntry) → l.entries ≡ es → last_opnum l ≡ l.start + length l.entries - 1
    go [] e = rw e (omega (arith, sub64-eq-sub l.start 1, ap length e))
    go (x ∷ es) e =
        let (y, at_end, number) = Numbered-last l.start x es (rw e at w.numbered) in
        rw e (rw (at_end, last_opnum) (omega arith))

-- On a well-formed log Find does not fail its assertion, and is indexing: NULL for an opnum below the
-- start or above the end, and otherwise the entry at the distance of the opnum from the start.
pub find_lem : (op : ℕ) (l : Log) → IsWellFormed l → find op l ≡ ok (entry_at op l)
unfolding find
find_lem op l w = elim (Option-cases (get_elem? l.entries (op - l.start))) [
  | inl e ↦ rw e (ground (arith, le-get_elem?-none l.entries (op - l.start) e))
  | inr (x, e) ↦ rw e (
      ground (
        arith,
        get_elem?-lt l.entries (op - l.start) e,
        Numbered-get l.start l.entries (op - l.start) w.numbered e,
      ))
]

-- Append accepts the next opnum only, and puts the entry at the end.
pub append_inv :
    (sha1 : Bytes → Bytes) (vs : Viewstamp) (req : Request) (st : LogEntryState) (l l' : Log)
    → IsWellFormed l
    → append sha1 vs req st l ≡ ok l'
    → (vs.opnum ≡ l.start + length l.entries)
      × (length l.entries < max_size)
      × (l' ≡ record l { entries = l.entries ++ hashed sha1 l (new_entry vs st req) ∷ [] })
unfolding append
append_inv sha1 vs req st l l' w h =
    ground (arith, last_opnum_lem l w, add64-eq-add (last_opnum l) 1)

-- On a well-formed log with room, Append of the next opnum returns the log with one entry more, with
-- the hash of the chain if hashes are used.
pub append_lem :
    (sha1 : Bytes → Bytes) (vs : Viewstamp) (req : Request) (st : LogEntryState) (l : Log)
    → IsWellFormed l
    → vs.opnum ≡ l.start + length l.entries
    → length l.entries < max_size
    → append sha1 vs req st l
      ≡ ok (record l { entries = l.entries ++ hashed sha1 l (new_entry vs st req) ∷ [] })
unfolding append
append_lem sha1 vs req st l w next room =
    ground (arith, last_opnum_lem l w, add64-eq-add (last_opnum l) 1)

pub hashed-viewstamp :
    (sha1 : Bytes → Bytes) (l : Log) (e : LogEntry) → (hashed sha1 l e).viewstamp ≡ e.viewstamp
unfolding hashed
hashed-viewstamp sha1 l e = ground arith

pub append-IsWellFormed :
    (sha1 : Bytes → Bytes) (vs : Viewstamp) (req : Request) (st : LogEntryState) (l l' : Log)
    → IsWellFormed l
    → append sha1 vs req st l ≡ ok l'
    → IsWellFormed l'
unfolding new_entry
append-IsWellFormed sha1 vs req st l l' w h =
    let e = hashed sha1 l (new_entry vs st req) in
    let (next, room, same) = append_inv sha1 vs req st l l' w h in
    let number : e.viewstamp.opnum ≡ l.start + length l.entries =
      ap (λ (v : Viewstamp). v.opnum) (hashed-viewstamp sha1 l (new_entry vs st req)) ∙ next in
    rw same (record {
      numbered = Numbered-append l.start l.entries e w.numbered number;
      fits = omega (arith, length-append l.entries (e ∷ []));
      positive = w.positive;
      small = w.small;
    })

-- A log that keeps some of its entries from the first on.
pub take-IsWellFormed :
    (k : ℕ) (l : Log) → IsWellFormed l → IsWellFormed (record l { entries = take k l.entries })
take-IsWellFormed k l w = record {
  numbered = Numbered-take l.start k l.entries w.numbered;
  fits = omega (arith, length-take k l.entries);
  positive = w.positive;
  small = w.small;
}

-- A change of an entry that leaves its opnum.
pub set-IsWellFormed :
    (i : ℕ) (e : LogEntry) (l : Log)
    → IsWellFormed l
    → e.viewstamp.opnum ≡ l.start + i
    → IsWellFormed (record l { entries = set l.entries i e })
set-IsWellFormed i e l w number = record {
  numbered = Numbered-set l.start l.entries i e w.numbered number;
  fits = omega (arith, length-set l.entries i e);
  positive = w.positive;
  small = w.small;
}

-- The entry that Find returns has the opnum that was asked for.
pub entry_at_number :
    (op : ℕ) (l : Log) (e : LogEntry)
    → IsWellFormed l
    → entry_at op l ≡ some e
    → (l.start ≤ op) × (op < l.start + length l.entries) × (e.viewstamp.opnum ≡ op)
entry_at_number op l e w h = ground (
  arith,
  get_elem?-lt l.entries (op - l.start) {a = e},
  Numbered-get l.start l.entries (op - l.start) {e = e} w.numbered,
)
