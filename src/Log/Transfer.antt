-- ===== src/Log/Transfer.antt =====
-- Log::Dump and Log::Install of common/log-impl.h.
use Prim.Native.Nat.{max}
use specpaxos.Base.{
  ℕ, zero, suc, ◌+◌, ◌-◌, none, some, List, [], ◌∷◌, Result, ok, ◌>>=◌, ◌>>◌, assert, deref, ltb,
  ◌==◌, if◌then◌else◌,
}
use specpaxos.Log.{
  Bytes, Log, LogEntry, EntryMessage, prepared, is_present, find, remove_after, append, last_opnum,
}

unfoldable pub entry_message : LogEntry → EntryMessage
entry_message e = record {
  view = e.viewstamp.view;
  opnum = e.viewstamp.opnum;
  state = e.state;
  hash = e.hash;
  request = e.request;
}

-- for (i = i0; i < i0 + rounds; i++) of Dump
unfoldable pub dump_range : ℕ → ℕ → Log → Result (List EntryMessage)
dump_range zero i l = ok []
dump_range (suc rounds) i l = do
  found ← find i l
  assert (is_present found)
  entry ← deref found
  rest ← dump_range rounds (i + 1) l
  ok (entry_message entry ∷ rest)

-- Dump, from max(from, start) to LastOpnum().
unfoldable pub dump : ℕ → Log → Result (List EntryMessage)
dump from l = let first = max from l.start in dump_range (last_opnum l + 1 - first) first l

-- The first loop of Install: the messages from the first divergence on. At an entry of another view
-- the rest of the log is removed.
unfoldable pub diverge : List EntryMessage → Log → Result (Log × List EntryMessage)
diverge [] l = ok (l, [])
diverge (m ∷ ms) l = do
  found ← find m.opnum l
  elim found [
    | none ↦ let rest = diverge ms l in if ltb m.opnum l.start then rest else ok (l, m ∷ ms)
    | some old ↦
        let rest = diverge ms l in
        if m.view == old.viewstamp.view
        then rest
        else do l' ← remove_after m.opnum l; ok (l', m ∷ ms)
  ]

-- The second loop of Install.
unfoldable pub append_all : (Bytes → Bytes) → List EntryMessage → Log → Result Log
append_all sha1 [] l = ok l
append_all sha1 (m ∷ ms) l = do
  l' ← append sha1 (record { view = m.view; opnum = m.opnum }) m.request prepared l
  append_all sha1 ms l'

unfoldable pub install : (Bytes → Bytes) → List EntryMessage → Log → Result Log
install sha1 ms l = do (l', rest) ← diverge ms l; append_all sha1 rest l'
