-- ===== src/Base/Map.antt =====
-- std::map with integer keys: an association list in the order of its keys.
use mathlib.Core.List.{List, [], ◌∷◌}
use specpaxos.Base.Tests.{ltb, ◌==◌, if◌then◌else◌, Bool-cases}
use Prim.Native.Nat.{ℕ, ◌+◌, ◌≤◌, ◌<◌}
use mathlib.Core.Path.{◌≡◌, refl}
use mathlib.Core.Option.{Option, none, some}
use mathlib.Core.Logic.{inl, inr}
use native.Mathlib.Omega.{arith}

abbrev pub Map {ℓ} : Type ℓ → Type ℓ
Map V = List (ℕ × V)

module _ {ℓ} {V : Type ℓ} where
  unfoldable pub lookup : ℕ → Map V → Option V
  lookup key [] = none
  lookup key ((k, v) ∷ rest) = if k == key then some v else lookup key rest

  -- m[k] = v
  unfoldable pub insert : ℕ → V → Map V → Map V
  insert k v [] = (k, v) ∷ []
  insert k v ((j, w) ∷ m) =
      let rest = (j, w) ∷ insert k v m in
      if k == j then (k, v) ∷ m else if ltb k j then (k, v) ∷ (j, w) ∷ m else rest

  unfoldable pub erase : ℕ → Map V → Map V
  erase k [] = []
  erase k ((j, w) ∷ m) = if j == k then m else (j, w) ∷ erase k m

  pub lookup-insert :
      (k j : ℕ) (v : V) (m : Map V)
      → lookup j (insert k v m) ≡ (if k == j then some v else lookup j m)
  unfolding lookup insert
  lookup-insert key other v [] = refl
  lookup-insert key other v (binding ∷ rest) = ground (arith, lookup-insert key other v rest)

  pub lookup-insert_self : (k : ℕ) (v : V) (m : Map V) → lookup k (insert k v m) ≡ some v
  lookup-insert_self k v m = ground (arith, lookup-insert k k v m)

  -- The keys rise from `n` on, so none occurs twice.
  abbrev pub Rises : ℕ → Map V → Type 0
  Rises n [] = Unit
  Rises n ((k, v) ∷ m) = (n ≤ k) × Rises (k + 1) m

  pub insert-Rises : (n k : ℕ) (v : V) (m : Map V) → n ≤ k → Rises n m → Rises n (insert k v m)
  unfolding insert
  insert-Rises n k v [] h r = (h, tt)
  insert-Rises n k v ((j, w) ∷ m) h r = ground (arith, insert-Rises (j + 1) k v m)

  pub lookup_below : (n k : ℕ) (m : Map V) → Rises n m → k < n → lookup k m ≡ none
  unfolding lookup
  lookup_below n k [] r h = refl
  lookup_below n k ((j, w) ∷ m) r h = ground (arith, lookup_below (j + 1) k m)

  Rises-weaken : (a b : ℕ) (l : Map V) → a ≤ b → Rises b l → Rises a l
  Rises-weaken a b [] h q = tt
  Rises-weaken a b ((i, x) ∷ l) h q = (omega arith, q.1)

  pub erase-Rises : (n k : ℕ) (m : Map V) → Rises n m → Rises n (erase k m)
  unfolding erase
  erase-Rises n k [] r = tt
  erase-Rises n k ((j, w) ∷ m) r = ground (arith, erase-Rises (j + 1) k m, Rises-weaken n (j + 1) m)

  pub lookup-erase :
      (n k j : ℕ) (m : Map V)
      → Rises n m
      → lookup j (erase k m) ≡ (if k == j then none else lookup j m)
  unfolding lookup erase
  lookup-erase n k j [] r = ground arith
  lookup-erase n k j ((i, w) ∷ m) r =
      ground (arith, lookup-erase (i + 1) k j m, lookup_below (i + 1) j m)

  -- Taking back an insertion of a new key.
  pub erase-insert : (k : ℕ) (v : V) (m : Map V) → lookup k m ≡ none → erase k (insert k v m) ≡ m
  unfolding lookup erase insert
  erase-insert k v [] h = ground arith
  erase-insert k v ((j, w) ∷ m) h = ground (arith, erase-insert k v m)

  insert_below : (a : ℕ) (x : V) (l : Map V) → Rises (a + 1) l → insert a x l ≡ (a, x) ∷ l
  unfolding insert
  insert_below a x [] q = refl
  insert_below a x ((i, y) ∷ l) q = ground arith

  -- Taking back the removal of a key.
  pub insert-erase :
      (n k : ℕ) (v : V) (m : Map V) → Rises n m → lookup k m ≡ some v → insert k v (erase k m) ≡ m
  unfolding lookup erase insert
  insert-erase n k v [] r h = cc
  insert-erase n k v ((j, w) ∷ m) r h = elim (Bool-cases (j == k)) [
    | inl same ↦ ground (arith, insert_below k v m)
    | inr other ↦ ground (arith, insert-erase (j + 1) k v m, lookup_below (j + 1) k m)
  ]

  pub lookup-erase_self : (n k : ℕ) (m : Map V) → Rises n m → lookup k (erase k m) ≡ none
  lookup-erase_self n k m r = ground (arith, lookup-erase n k k m r)
