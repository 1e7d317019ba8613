-- ===== src/Log/Trim.antt =====
-- Log::RemoveUpTo of common/log.cc.
use specpaxos.Base.{
  ℕ, zero, suc, ◌+◌, ◌-◌, Bool, true, Option, none, some, List, [], ◌∷◌, Result, ok, err, panicked,
  ◌>>=◌, ◌>>◌, assert, deref, leb, ◌==◌, if◌then◌else◌, drop, add64,
}
use specpaxos.Log.{Log, LogEntry, is_committed}

abbrev pub head? : List LogEntry → Option LogEntry
head? [] = none
head? (e ∷ es) = some e

-- entries.empty() || entries.begin()->viewstamp.opnum == op
unfoldable pub starts_at : ℕ → Log → Bool
starts_at op l = elim (head? l.entries) [ none ↦ true | some e ↦ e.viewstamp.opnum == op ]

-- while (start <= op) of RemoveUpTo, with the rounds left.
unfoldable pub trim : ℕ → Log → Result Log
trim zero l = ok l
trim (suc rounds) l = do
  first ← deref (head? l.entries)
  assert (is_committed first.state)
  let l' = record l { entries = drop 1 l.entries; start = add64 l.start 1 }
  assert (starts_at l'.start l')
  trim rounds l'

-- RemoveUpTo
unfoldable pub remove_up_to : ℕ → Log → Result Log
remove_up_to op l = if l.use_hash then err panicked else do
  assert (leb l.start op)
  first ← deref (head? l.entries)
  assert (first.viewstamp.opnum == l.start)
  l' ← trim (op + 1 - l.start) l
  assert (starts_at (add64 op 1) l')
  ok l'
