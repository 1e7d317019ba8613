-- ===== src/Log/Chain.antt =====
-- The hash chain of common/log.cc: what the hash of the last entry says of the requests before it.
use specpaxos.Base.{
  ℕ, zero, suc, ◌+◌, ◌/◌, ◌%◌, ◌^◌, ◌≤◌, ◌≡◌, refl, ap, sym, ◌∙◌, subst, true, List, [], ◌∷◌, ◌++◌,
  map, Result, ok, ◌>>=◌, arith, length, length-append, last?-append,
}
use specpaxos.Viewstamp.{Viewstamp}
use specpaxos.Log.{
  Bytes, Request, LogEntryState, LogEntry, Log, max_size, append, hashed, new_entry, compute_hash,
  last_hash, le64,
}
use specpaxos.Log.WellFormed.{IsWellFormed, append_lem, append-IsWellFormed}

-- The lowest `n` bytes of a number, the lowest first.
abbrev pub low_bytes : ℕ → ℕ → Bytes
low_bytes zero x = []
low_bytes (suc n) x = (x % 256) ∷ low_bytes n (x / 256)

-- What the hash of an entry covers, after the hash before it: who has sent the request, and its number.
abbrev pub identity_bytes : Request → Bytes
identity_bytes r = low_bytes 8 r.clientid ++ low_bytes 8 r.clientreqid

-- The hash that the chain has after these requests.
abbrev pub chain : (Bytes → Bytes) → Bytes → List Request → Bytes
chain sha1 h [] = h
chain sha1 h (r ∷ rs) = chain sha1 (sha1 (h ++ identity_bytes r)) rs

-- These requests appended one after the other, the first at the opnum `op`.
unfoldable pub append_requests :
    (Bytes → Bytes) → ℕ → LogEntryState → ℕ → List Request → Log → Result Log
unfolding append
append_requests sha1 view st op [] l = ok l
append_requests sha1 view st op (r ∷ rs) l = do
  l' ← append sha1 (record { view = view; opnum = op }) r st l
  append_requests sha1 view st (op + 1) rs l'

le64_lem : (x : ℕ) → le64 x ≡ low_bytes 8 x
unfolding le64
le64_lem x =
    let two : x / 256 / 256 ≡ x / 2 ^ 16 = omega arith in
    let three : x / 2 ^ 16 / 256 ≡ x / 2 ^ 24 = omega arith in
    let four : x / 2 ^ 24 / 256 ≡ x / 2 ^ 32 = omega arith in
    let five : x / 2 ^ 32 / 256 ≡ x / 2 ^ 40 = omega arith in
    let six : x / 2 ^ 40 / 256 ≡ x / 2 ^ 48 = omega arith in
    let seven : x / 2 ^ 48 / 256 ≡ x / 2 ^ 56 = omega arith in
    rw (two, three, four, five, six, seven) refl

last_hash-last :
    (l : Log) (es : List LogEntry) (e : LogEntry)
    → last_hash (record l { entries = es ++ e ∷ [] }) ≡ e.hash
unfolding last_hash
last_hash-last l es e = rw (last_hash, last?-append es e) refl

compute_hash_lem :
    (sha1 : Bytes → Bytes) (h : Bytes) (e : LogEntry)
    → compute_hash sha1 h e ≡ sha1 (h ++ identity_bytes e.request)
unfolding compute_hash le64
compute_hash_lem sha1 h e =
    let client = e.request.clientid in
    let number = e.request.clientreqid in
    subst (λ x. compute_hash sha1 h e ≡ sha1 (h ++ (x ++ low_bytes 8 number))) (le64_lem client)
      (subst (λ y. compute_hash sha1 h e ≡ sha1 (h ++ (le64 client ++ y))) (le64_lem number) refl)

hashed_hash :
    (sha1 : Bytes → Bytes) (l : Log) (e : LogEntry)
    → l.use_hash ≡ true
    → (hashed sha1 l e).hash ≡ compute_hash sha1 (last_hash l) e
unfolding hashed
hashed_hash sha1 l e h = rw (hashed, h) refl

hashed-request :
    (sha1 : Bytes → Bytes) (l : Log) (e : LogEntry) → (hashed sha1 l e).request ≡ e.request
unfolding hashed
hashed-request sha1 l e = ground arith

abbrev appended : (Bytes → Bytes) → Viewstamp → Request → LogEntryState → Log → LogEntry
appended sha1 vs r st l = hashed sha1 l (new_entry vs st r)

appended_hash :
    (sha1 : Bytes → Bytes) (vs : Viewstamp) (r : Request) (st : LogEntryState) (l : Log)
    → l.use_hash ≡ true
    → (appended sha1 vs r st l).hash ≡ sha1 (last_hash l ++ identity_bytes r)
unfolding new_entry
appended_hash sha1 vs r st l h =
    hashed_hash sha1 l (new_entry vs st r) h
    ∙ compute_hash_lem sha1 (last_hash l) (new_entry vs st r)

appended_request :
    (sha1 : Bytes → Bytes) (vs : Viewstamp) (r : Request) (st : LogEntryState) (l : Log)
    → (appended sha1 vs r st l).request ≡ r
unfolding new_entry
appended_request sha1 vs r st l = hashed-request sha1 l (new_entry vs st r)

abbrev requests : List LogEntry → List Request
requests es = map (λ (e : LogEntry). e.request) es

requests-append :
    (es : List LogEntry) (e : LogEntry) (rs : List Request)
    → requests (es ++ e ∷ []) ++ rs ≡ requests es ++ e.request ∷ rs
requests-append [] e rs = refl
requests-append (x ∷ es) e rs = ap (◌∷◌ x.request) (requests-append es e rs)

-- What a log has after requests were appended.
pub record Chained (sha1 : Bytes → Bytes) (rs : List Request) (l l' : Log) : Type 0 where
  pub added : requests l'.entries ≡ requests l.entries ++ rs
  pub hash_of : last_hash l' ≡ chain sha1 (last_hash l) rs

append_nil : {A : Type 0} (xs : List A) → xs ≡ xs ++ []
append_nil [] = refl
append_nil (x ∷ xs) = ap (◌∷◌ x) (append_nil xs)

-- On a well-formed log that uses hashes and has room, requests that are appended one after the other,
-- from the next opnum on, all return. The log then has their requests after those it had, and the hash of
-- its last entry is that of the chain from the last one before: each hash is SHA1 of the hash before it
-- and of the 8 lowest bytes, the lowest first, of the client's number and of the request's number.
pub append_requests-Chained :
    (sha1 : Bytes → Bytes) (view : ℕ) (st : LogEntryState) (op : ℕ) (rs : List Request) (l : Log)
    → IsWellFormed l
    → l.use_hash ≡ true
    → op ≡ l.start + length l.entries
    → length l.entries + length rs ≤ max_size
    → (l' : Log) × (append_requests sha1 view st op rs l ≡ ok l') × Chained sha1 rs l l'
unfolding append_requests
append_requests-Chained sha1 view st op [] l w h next room =
    (l, refl, record { added = append_nil (requests l.entries); hash_of = refl })
append_requests-Chained sha1 view st op (r ∷ rs) l w h next room =
    let vs : Viewstamp = record { view = view; opnum = op } in
    let e = appended sha1 vs r st l in
    let k : Log = record l { entries = l.entries ++ e ∷ [] } in
    let first : append sha1 vs r st l ≡ ok k = append_lem sha1 vs r st l w next (omega arith) in
    let longer = length-append l.entries (e ∷ []) in
    let (l', run, c) =
      append_requests-Chained sha1 view st (op + 1) rs k
        (append-IsWellFormed sha1 vs r st l k w first) h (omega (arith, longer))
        (omega (arith, longer)) in
    (
      l',
      subst (λ x. (x >>= append_requests sha1 view st (op + 1) rs) ≡ ok l') (sym first) run,
      record {
        added =
            c.added
            ∙ (requests-append l.entries e rs
                ∙ ap (λ (x : Request). requests l.entries ++ x ∷ rs)
                    (appended_request sha1 vs r st l));
        hash_of =
            c.hash_of
            ∙ ap (λ (x : Bytes). chain sha1 x rs)
                (last_hash-last l l.entries e ∙ appended_hash sha1 vs r st l h);
      },
    )
