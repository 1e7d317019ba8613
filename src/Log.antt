-- ===== src/Log.antt =====
-- common/log.h, common/log.cc and common/log-impl.h: the log of a replica.
pub mod Trim
pub mod Transfer
pub mod WellFormed
pub mod Chain
pub mod Collisions
pub mod Stable
pub mod Installed
pub mod Progress
mod Tests
use specpaxos.Base.{
  ℕ, zero, suc, ◌+◌, ◌-◌, ◌*◌, ◌/◌, ◌%◌, ◌^◌, ◌≡◌, Bool, true, false, not, ◌||◌, ◌&&◌, Option, none,
  some, List, [], ◌∷◌, ◌++◌, Result, ok, err, panicked, assertion, undefined, length_error, ◌>>=◌,
  ◌>>◌, assert, deref, ltb, leb, ◌==◌, if◌then◌else◌, length, get_elem?, set, take, drop, last?,
  replicate, add64, sub64,
}
use specpaxos.Viewstamp.{Viewstamp}
pub use specpaxos.Base.Dictionary.{Bytes}
unfoldable pub use specpaxos.Base.Dictionary.{bytes_eq}

-- message Request of common/request.proto
pub record Request : Type 0 where
  pub op : Bytes
  pub clientid : ℕ
  pub clientreqid : ℕ

pub data LogEntryState : Type 0 where
  committed prepared speculative fast_prepared : LogEntryState

-- message SpeculativeReplyMessage of spec/spec-proto.proto, the one message that an entry keeps.
pub record SpeculativeReplyMessage : Type 0 where
  pub clientreqid : ℕ
  pub replica_idx : ℕ
  pub view : ℕ
  pub opnum : ℕ
  pub loghash : Bytes
  pub reply : Bytes
  pub committed : Bool

-- `prev_client_req_opnum` and `reply_message` are those of Speculative Paxos: the constructor leaves
-- the first unset (`none`), and the second NULL.
pub record LogEntry : Type 0 where
  pub viewstamp : Viewstamp
  pub state : LogEntryState
  pub request : Request
  pub hash : Bytes
  pub prev_client_req_opnum : Option ℕ
  pub reply_message : Option SpeculativeReplyMessage

-- The entries of the deque, the oldest first.
pub record Log : Type 0 where
  pub entries : List LogEntry
  pub initial_hash : Bytes
  pub start : ℕ
  pub use_hash : Bool

-- The LogEntry messages of the protocols: one element of a Dump.
pub record EntryMessage : Type 0 where
  pub view : ℕ
  pub opnum : ℕ
  pub state : LogEntryState
  pub hash : Bytes
  pub request : Request

abbrev pub empty_hash : Bytes
empty_hash = replicate 20 0

-- No std::deque holds more elements than this; a push_back there throws std::length_error.
abbrev pub max_size : ℕ
max_size = 2 ^ 63 - 1

abbrev pub is_present : Option LogEntry → Bool
is_present none = false
is_present (some e) = true

unfoldable pub is_committed : LogEntryState → Bool
is_committed committed = true
is_committed _ = false

-- Log::Log
unfoldable pub new_log : Bool → ℕ → Bytes → Result Log
new_log use_hash start initial_hash =
    let log : Log = record {
      entries = [];
      initial_hash = initial_hash;
      start = start;
      use_hash = use_hash;
    } in
    if start == 1 then assert (bytes_eq initial_hash empty_hash) >> ok log else ok log

unfoldable pub last_opnum : Log → ℕ
last_opnum l = elim (last? l.entries) [ none ↦ sub64 l.start 1 | some e ↦ e.viewstamp.opnum ]

unfoldable pub last_viewstamp : Log → Viewstamp
last_viewstamp l = elim (last? l.entries) [
  | none ↦ record { view = 0; opnum = sub64 l.start 1 }
  | some e ↦ e.viewstamp
]

unfoldable pub last_hash : Log → Bytes
last_hash l = elim (last? l.entries) [ none ↦ l.initial_hash | some e ↦ e.hash ]

unfoldable pub last : Log → Option LogEntry
last l = last? l.entries

unfoldable pub size : Log → ℕ
size l = length l.entries

unfoldable pub first_opnum : Log → ℕ
first_opnum l = l.start

-- Find: the entry, NULL (`none`), or a failed assertion.
unfoldable pub find : ℕ → Log → Result (Option LogEntry)
find opnum l =
    if length l.entries == 0
    then ok none
    else if ltb opnum l.start
    then ok none
    else if ltb (length l.entries - 1) (opnum - l.start)
    then ok none
    else do
      entry ← deref (get_elem? l.entries (opnum - l.start))
      assert (entry.viewstamp.opnum == opnum)
      ok (some entry)

-- Replace the entry at a position that Find has returned.
unfoldable pub replace : ℕ → LogEntry → Log → Log
replace opnum entry l = record l { entries = set l.entries (opnum - l.start) entry }

unfoldable pub set_status : ℕ → LogEntryState → Log → Result (Log × Bool)
set_status op state l = do
  found ← find op l
  elim found [
    | none ↦ ok (l, false)
    | some entry ↦ ok (replace op (record entry { state = state }) l, true)
  ]

unfoldable pub set_request : ℕ → Request → Log → Result (Log × Bool)
set_request op req l = if l.use_hash then err panicked else do
  found ← find op l
  elim found [
    | none ↦ ok (l, false)
    | some entry ↦ ok (replace op (record entry { request = req }) l, true)
  ]

-- The bytes of a uint64_t, the lowest first.
unfoldable pub le64 : ℕ → Bytes
le64 x =
    (x % 256)
    ∷ (x / 2 ^ 8 % 256)
    ∷ (x / 2 ^ 16 % 256)
    ∷ (x / 2 ^ 24 % 256)
    ∷ (x / 2 ^ 32 % 256)
    ∷ (x / 2 ^ 40 % 256)
    ∷ (x / 2 ^ 48 % 256)
    ∷ (x / 2 ^ 56 % 256)
    ∷ []

-- `sha1` is OpenSSL's.
unfoldable pub compute_hash : (Bytes → Bytes) → Bytes → LogEntry → Bytes
unfolding le64
compute_hash sha1 last_hash entry =
    sha1 (last_hash ++ (le64 entry.request.clientid ++ le64 entry.request.clientreqid))

-- The entry that LogEntry's constructor makes.
unfoldable pub new_entry : Viewstamp → LogEntryState → Request → LogEntry
new_entry vs state req = record {
  viewstamp = vs;
  state = state;
  request = req;
  hash = empty_hash;
  prev_client_req_opnum = none;
  reply_message = none;
}

-- The entry with the hash of the chain, if hashes are used.
unfoldable pub hashed : (Bytes → Bytes) → Log → LogEntry → LogEntry
unfolding compute_hash last_hash
hashed sha1 l entry =
    if l.use_hash then record entry { hash = compute_hash sha1 (last_hash l) entry } else entry

-- Append returns the log, at whose end the new entry is.
unfoldable pub append : (Bytes → Bytes) → Viewstamp → Request → LogEntryState → Log → Result Log
append sha1 vs req state l = do
  assert (if length l.entries == 0 then vs.opnum == l.start else vs.opnum == add64 (last_opnum l) 1)
  if ltb (length l.entries) max_size
      then ok (record l { entries = l.entries ++ hashed sha1 l (new_entry vs state req) ∷ [] })
      else err length_error

-- for (i = op; i < op + rounds; i++) ASSERT(Find(i)->state != LOG_STATE_COMMITTED)
unfoldable pub none_committed : ℕ → ℕ → Log → Result (Unit {0})
none_committed zero i l = ok tt
none_committed (suc rounds) i l = do
  found ← find i l
  entry ← deref found
  assert (not (is_committed entry.state))
  none_committed rounds (i + 1) l

-- RemoveAfter drops the entry `op` too. PARANOID is on, as in the Makefile.
unfoldable pub remove_after : ℕ → Log → Result Log
remove_after op l = do
  none_committed (last_opnum l + 1 - op) op l
  if ltb (last_opnum l) op then ok l else do
    assert (ltb (sub64 op l.start) (length l.entries))
    let l' = record l { entries = take (sub64 op l.start) l.entries }
    assert (last_opnum l' == sub64 op 1)
    ok l'
