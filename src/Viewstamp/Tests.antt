-- ===== src/Viewstamp/Tests.antt =====
-- Viewstamps of lib/viewstamp.h: those of view 1 follow all of view 0.
use specpaxos.Base.{◌≡◌, ◌⊎◌, ◌↔◌, ◌<◌, true, false}
use specpaxos.Viewstamp.{Viewstamp, viewstamp_lt, viewstamp_eq, viewstamp_lt_iff, viewstamp_total}

abbrev early : Viewstamp
early = record { view = 0; opnum = 9 }

abbrev late : Viewstamp
late = record { view = 1; opnum = 3 }

viewstamp_lt_iff_example :
    (viewstamp_lt early late ≡ true)
    ↔ ((early.view < late.view) ⊎ ((early.view ≡ late.view) × (early.opnum < late.opnum)))
viewstamp_lt_iff_example = viewstamp_lt_iff early late

viewstamp_total_example :
    ((viewstamp_lt early late ≡ true)
      × (viewstamp_eq early late ≡ false)
      × (viewstamp_lt late early ≡ false))
    ⊎ ((viewstamp_eq early late ≡ true)
        × (viewstamp_lt early late ≡ false)
        × (viewstamp_lt late early ≡ false))
    ⊎ ((viewstamp_lt late early ≡ true)
        × (viewstamp_eq early late ≡ false)
        × (viewstamp_lt early late ≡ false))
viewstamp_total_example = viewstamp_total early late
