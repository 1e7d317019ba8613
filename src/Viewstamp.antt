-- ===== src/Viewstamp.antt =====
-- lib/viewstamp.h: view and operation numbers, and their lexicographic order.
mod Tests
use specpaxos.Base.{ℕ, ◌<◌, ◌≡◌, ◌⊎◌, ◌↔◌, Bool, true, false, not, arith, ltb, if◌then◌else◌}

-- struct viewstamp_t
pub record Viewstamp : Type 0 where
  pub view : ℕ
  pub opnum : ℕ

-- The values -1, 0 and 1 of Viewstamp_Compare.
pub data Comparison : Type 0 where
  minus_one nought one : Comparison

unfoldable pub viewstamp_compare : Viewstamp → Viewstamp → Comparison
viewstamp_compare a b =
    if ltb a.view b.view
    then minus_one
    else if ltb b.view a.view
    then one
    else if ltb a.opnum b.opnum
    then minus_one
    else if ltb b.opnum a.opnum
    then one
    else nought

-- operator==, operator< and those that are defined by them.
unfoldable pub viewstamp_eq : Viewstamp → Viewstamp → Bool
unfolding viewstamp_compare
viewstamp_eq a b = elim (viewstamp_compare a b) [ nought ↦ true | _ ↦ false ]

unfoldable pub viewstamp_lt : Viewstamp → Viewstamp → Bool
unfolding viewstamp_compare
viewstamp_lt a b = elim (viewstamp_compare a b) [ minus_one ↦ true | _ ↦ false ]

unfoldable pub viewstamp_le : Viewstamp → Viewstamp → Bool
unfolding viewstamp_lt
viewstamp_le a b = not (viewstamp_lt b a)

-- operator== holds of equal viewstamps only.
pub viewstamp_eq_iff : (a b : Viewstamp) → (viewstamp_eq a b ≡ true) ↔ (a ≡ b)
unfolding viewstamp_eq
viewstamp_eq_iff a b = (λ h. ground arith, λ h. ground arith)

-- operator< is the lexicographic order: first by the view, then by the opnum.
pub viewstamp_lt_iff :
    (a b : Viewstamp)
    → (viewstamp_lt a b ≡ true) ↔ ((a.view < b.view) ⊎ ((a.view ≡ b.view) × (a.opnum < b.opnum)))
unfolding viewstamp_lt
viewstamp_lt_iff a b = (λ h. ground arith, λ h. ground arith)

-- Of two viewstamps exactly one is less than the other, or they are equal.
pub viewstamp_total :
    (a b : Viewstamp)
    → ((viewstamp_lt a b ≡ true) × (viewstamp_eq a b ≡ false) × (viewstamp_lt b a ≡ false))
      ⊎ ((viewstamp_eq a b ≡ true) × (viewstamp_lt a b ≡ false) × (viewstamp_lt b a ≡ false))
      ⊎ ((viewstamp_lt b a ≡ true) × (viewstamp_eq a b ≡ false) × (viewstamp_lt a b ≡ false))
unfolding viewstamp_eq viewstamp_lt
viewstamp_total a b = ground arith
