-- ===== src/Base/Results.antt =====
-- Fallible code: a result or the fault that ends the process, and postconditions of such code.
use mathlib.Core.Path.{◌≡◌, refl, ap}
use mathlib.Core.Bool.{Bool, true, false}
use mathlib.Core.Option.{Option, none, some}

-- ASSERT fails; Panic is called, or NOT_REACHABLE is reached; the code's behaviour is undefined (a null pointer, `front` of an
-- empty container, the least element of an empty range); a container is asked to grow beyond its
-- maximal size, and throws; an empty std::function is called, and throws.
pub data Fault : Type 0 where
  assertion panicked undefined length_error bad_function_call : Fault

pub data Result {ℓ} (A : Type ℓ) : Type ℓ where
  ok : A → Result A
  err : Fault → Result A

infixl 4 ◌>>=◌ ◌>>◌
-- Code goes on with the value that came back, and stops at a fault.
abbrev pub ◌>>=◌ {ℓ κ} : {A : Type ℓ} {B : Type κ} → Result A → (A → Result B) → Result B
err fault >>= next = err fault
ok value >>= next = next value

abbrev pub ◌>>◌ {ℓ} : {B : Type ℓ} → Result (Unit {0}) → Result B → Result B
check >> rest = check >>= (λ u. rest)

-- ASSERT(b)
abbrev pub assert : Bool → Result (Unit {0})
assert true = ok tt
assert false = err assertion

-- A pointer that is dereferenced.
abbrev pub deref {ℓ} : {A : Type ℓ} → Option A → Result A
deref none = err undefined
deref (some a) = ok a

pub ok-injective {ℓ} : {A : Type ℓ} {a b : A} → ok a ≡ ok b → a ≡ b
ok-injective e = cc

-- Inversion of code that returns.
pub >>=-eq-ok {ℓ κ} :
    {A : Type ℓ} {B : Type κ} (first : Result A) (next : A → Result B) {y : B}
    → (first >>= next) ≡ ok y
    → (x : A) × (first ≡ ok x) × (next x ≡ ok y)
>>=-eq-ok (err fault) next e = cc
>>=-eq-ok (ok x) next e = (x, refl, e)

pub >>-eq-ok {ℓ} :
    {B : Type ℓ} (m : Result (Unit {0})) (r : Result B) {b : B}
    → (m >> r) ≡ ok b
    → (m ≡ ok tt) × (r ≡ ok b)
>>-eq-ok (ok tt) r h = (refl, h)
>>-eq-ok (err e) r h = cc

pub assert-eq-ok {ℓ} :
    {B : Type ℓ} (b : Bool) (r : Result B) {x : B}
    → (assert b >> r) ≡ ok x
    → (b ≡ true) × (r ≡ ok x)
assert-eq-ok true r h = (refl, h)
assert-eq-ok false r h = cc

pub deref-eq-ok {ℓ} : {A : Type ℓ} (o : Option A) (a : A) → deref o ≡ ok a → o ≡ some a
deref-eq-ok none a h = cc
deref-eq-ok (some b) a h = ap some (ok-injective h)
