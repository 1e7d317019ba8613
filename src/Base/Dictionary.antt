-- ===== src/Base/Dictionary.antt =====
-- Strings by their bytes, and std::map and std::unordered_map with string keys: an association list in
-- the order of its keys. No code observes the order of an unordered map.
use Prim.Native.Nat.{ℕ}
use mathlib.Core.List.{List, [], ◌∷◌}
use mathlib.Core.Path.{◌≡◌, refl}
use mathlib.Core.Bool.{Bool, true, false, ◌&&◌}
use mathlib.Core.Option.{Option, none, some}
use native.Mathlib.Omega.{arith}
use specpaxos.Base.Tests.{ltb, ◌==◌, if◌then◌else◌}

-- A std::string, by its bytes.
abbrev pub Bytes : Type 0
Bytes = List ℕ

unfoldable pub bytes_eq : Bytes → Bytes → Bool
bytes_eq [] [] = true
bytes_eq [] (c ∷ cs) = false
bytes_eq (b ∷ bs) [] = false
bytes_eq (b ∷ bs) (c ∷ cs) = b == c && bytes_eq bs cs

-- The order of std::string.
unfoldable pub bytes_lt : Bytes → Bytes → Bool
bytes_lt [] [] = false
bytes_lt [] (c ∷ cs) = true
bytes_lt (b ∷ bs) [] = false
bytes_lt (b ∷ bs) (c ∷ cs) = let rest = bytes_lt bs cs in if b == c then rest else ltb b c

pub bytes_eq_refl : (b : Bytes) → bytes_eq b b ≡ true
unfolding bytes_eq
bytes_eq_refl [] = refl
bytes_eq_refl (b ∷ bs) = ground (arith, bytes_eq_refl bs)

pub bytes_eq→≡ : (a b : Bytes) → bytes_eq a b ≡ true → a ≡ b
unfolding bytes_eq
bytes_eq→≡ [] [] h = refl
bytes_eq→≡ [] (c ∷ cs) h = cc
bytes_eq→≡ (b ∷ bs) [] h = cc
bytes_eq→≡ (b ∷ bs) (c ∷ cs) h = ground (arith, bytes_eq→≡ bs cs)

abbrev pub Dictionary {ℓ} : Type ℓ → Type ℓ
Dictionary V = List (Bytes × V)

module _ {ℓ} {V : Type ℓ} where
  unfoldable pub find_key : Bytes → Dictionary V → Option V
  find_key key [] = none
  find_key key ((k, v) ∷ rest) = if bytes_eq k key then some v else find_key key rest

  -- m[key] = value
  unfoldable pub set_key : Bytes → V → Dictionary V → Dictionary V
  set_key key value [] = (key, value) ∷ []
  set_key key value ((k, v) ∷ rest) =
      let later = (k, v) ∷ set_key key value rest in
      if bytes_eq k key
      then (key, value) ∷ rest
      else if bytes_lt key k
      then (key, value) ∷ (k, v) ∷ rest
      else later

  unfoldable pub erase_key : Bytes → Dictionary V → Dictionary V
  erase_key key [] = []
  erase_key key ((k, v) ∷ rest) = if bytes_eq k key then rest else (k, v) ∷ erase_key key rest

  pub find_key-set_key :
      (key other : Bytes) (value : V) (d : Dictionary V)
      → find_key other (set_key key value d)
        ≡ (if bytes_eq key other then some value else find_key other d)
  unfolding find_key set_key
  find_key-set_key key other value [] = refl
  find_key-set_key key other value ((k, v) ∷ rest) = ground (
    arith,
    find_key-set_key key other value rest,
    bytes_eq→≡ k key,
    bytes_eq→≡ key other,
    bytes_eq_refl key,
  )
