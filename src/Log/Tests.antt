-- ===== src/Log/Tests.antt =====
-- Runs of common/log.cc and common/log-impl.h, and the theorems at a log of two entries, of which
-- the first is committed.
use specpaxos.Base.{
  ℕ, ◌≡◌, ◌≤◌, ◌⊎◌, refl, true, false, some, List, [], ◌∷◌, Result, ok, err, assertion, arith,
  add64, sub64, take,
}
use specpaxos.Log.{
  Bytes, Request, Log, LogEntry, EntryMessage, empty_hash, committed, prepared, new_entry, hashed,
  compute_hash, append, find, remove_after, none_committed, last_opnum, is_committed, set_status,
  replace,
}
use specpaxos.Log.Transfer.{install, diverge, append_all}
use specpaxos.Log.Trim.{remove_up_to, trim, starts_at}
use specpaxos.Log.WellFormed.{IsWellFormed, entry_at, find_lem}
use specpaxos.Log.Chain.{append_requests, Chained, append_requests-Chained}
use specpaxos.Log.Collisions
use specpaxos.Base.{All, ◌<◌}
use specpaxos.Log.Installed.{Has, install-Has}
use specpaxos.Log.Stable.{HasCommitted, Keeps, remove_after_inv, install-Keeps}

abbrev identity : Bytes → Bytes
identity bytes = bytes

abbrev put_x : Request
put_x = record { op = 120 ∷ []; clientid = 7; clientreqid = 1 }

abbrev put_y : Request
put_y = record { op = 121 ∷ []; clientid = 8; clientreqid = 1 }

abbrev x_entry : LogEntry
unfolding new_entry
x_entry = new_entry (record { view = 0; opnum = 1 }) committed put_x

abbrev y_entry : LogEntry
unfolding new_entry
y_entry = new_entry (record { view = 0; opnum = 2 }) prepared put_y

abbrev log_of : List LogEntry → Log
log_of es = record { entries = es; initial_hash = empty_hash; start = 1; use_hash = false }

abbrev two : Log
two = log_of (x_entry ∷ y_entry ∷ [])

two-IsWellFormed : IsWellFormed two
unfolding x_entry y_entry
two-IsWellFormed = record {
  numbered = (refl, (refl, tt));
  fits = omega arith;
  positive = omega arith;
  small = omega arith;
}

two-HasCommitted : HasCommitted 1 two
unfolding is_committed x_entry
two-HasCommitted = record { well_formed = two-IsWellFormed; room = omega arith; done = (refl, tt) }

-- A newer view has another entry 2, and an entry 3.
abbrev message : ℕ → ℕ → EntryMessage
message view opnum = record {
  view = view;
  opnum = opnum;
  state = prepared;
  hash = empty_hash;
  request = put_x;
}

abbrev newer : List EntryMessage
newer = message 0 1 ∷ message 1 2 ∷ message 1 3 ∷ []

unfoldable log_path : Unit {0}
unfolding install diverge append_all find remove_after none_committed last_opnum append new_entry
    hashed compute_hash is_committed sub64 add64 set_status replace remove_up_to trim starts_at
log_path = tt

abbrev merged : Log
unfolding new_entry
merged = log_of (
    x_entry
    ∷ new_entry (record { view = 1; opnum = 2 }) prepared put_x
    ∷ new_entry (record { view = 1; opnum = 3 }) prepared put_x
    ∷ [])

installs : install identity newer two ≡ ok merged
unfolding log_path
installs = refl

-- A committed entry is not replaced.
refuses : install identity (message 1 1 ∷ []) two ≡ err assertion
unfolding log_path
refuses = refl

trims : remove_up_to 1 two ≡ ok (record two { entries = y_entry ∷ []; start = 2 })
unfolding log_path
trims = refl

cuts : remove_after 2 two ≡ ok (log_of (x_entry ∷ []))
unfolding log_path
cuts = refl

install-Keeps_example : Keeps 1 two merged
install-Keeps_example = install-Keeps identity newer two-HasCommitted installs

remove_after_inv_example :
    ((3 ≤ 2) × (log_of (x_entry ∷ []) ≡ two))
    ⊎ ((e : LogEntry) × (entry_at 2 two ≡ some e)
        × (is_committed e.state ≡ false)
        × (log_of (x_entry ∷ []) ≡ record two { entries = take 1 two.entries }))
remove_after_inv_example = remove_after_inv 2 two (log_of (x_entry ∷ [])) two-IsWellFormed cuts

find_lem_example : find 2 two ≡ ok (some y_entry)
find_lem_example = find_lem 2 two two-IsWellFormed

abbrev no_entries : Log
no_entries = record { entries = []; initial_hash = 5 ∷ []; start = 1; use_hash = true }

no_entries-IsWellFormed : IsWellFormed no_entries
no_entries-IsWellFormed = record {
  numbered = tt;
  fits = omega arith;
  positive = omega arith;
  small = omega arith;
}

abbrev puts : List Request
puts = put_x ∷ put_y ∷ []

abbrev or_else : Log → Result Log → Log
or_else d (ok l) = l
or_else d (err e) = d

abbrev after_puts : Log
after_puts = or_else no_entries (append_requests identity 1 prepared 1 puts no_entries)

append_requests-Chained_example :
    (l' : Log) × (append_requests identity 1 prepared 1 puts no_entries ≡ ok l')
    × Chained identity puts no_entries l'
append_requests-Chained_example =
    append_requests-Chained identity 1 prepared 1 puts no_entries no_entries-IsWellFormed refl refl
      (omega arith)

-- Other operations of the same clients, with the same numbers, which the hash does not tell apart.
abbrev others : List Request
others = record put_x { op = [] } ∷ record put_y { op = [] } ∷ []

abbrev after_others : Log
after_others = or_else no_entries (append_requests identity 1 prepared 1 others no_entries)

install-Has_example : All (λ m. (m.opnum < two.start) ⊎ Has merged m) newer
install-Has_example =
    install-Has identity 1 newer two merged two-IsWellFormed (refl, (refl, (refl, tt))) installs
