-- ===== src/Base/Code.antt =====
-- Code over results that is proved by its postconditions. The connectives are shut, so that a proof
-- follows the code: one rule for each of them.
use mathlib.Core.Path.{◌≡◌, refl, subst}
use mathlib.Core.Bool.{Bool, true, false}
use mathlib.Core.Option.{Option, none, some}
use specpaxos.Base.Results.{Result, ok, err, Fault, assertion, undefined, panicked, ok-injective}

infixl 5 ◌>>=◌ ◌>>◌
unfoldable pub ◌>>=◌ {ℓ κ} : {A : Type ℓ} {B : Type κ} → Result A → (A → Result B) → Result B
err fault >>= next = err fault
ok value >>= next = next value

abbrev pub ◌>>◌ {ℓ} : {B : Type ℓ} → Result (Unit {0}) → Result B → Result B
check >> rest = check >>= (λ u. rest)

infix 1 if◌then◌else◌
unfoldable pub if◌then◌else◌ {ℓ} : {A : Type ℓ} → Bool → A → A → A
if true then x else y = x
if false then x else y = y

-- ASSERT(b)
unfoldable pub assert : Bool → Result (Unit {0})
assert true = ok tt
assert false = err assertion

-- A pointer that is dereferenced.
unfoldable pub deref {ℓ} : {A : Type ℓ} → Option A → Result A
deref none = err undefined
deref (some a) = ok a

-- ASSERT(p != NULL), and then what it points to.
unfoldable pub asserted {ℓ} : {A : Type ℓ} → Option A → Result A
asserted none = err assertion
asserted (some a) = ok a

-- if (!p) Panic(...)
unfoldable pub or_panic {ℓ} : {A : Type ℓ} → Option A → Result A
or_panic none = err panicked
or_panic (some a) = ok a

-- if (p == NULL) x else f(*p)
unfoldable pub if_null {ℓ κ} : {A : Type ℓ} {B : Type κ} → Option A → B → (A → B) → B
if_null none x f = x
if_null (some a) x f = f a

-- Whenever the code returns, its result satisfies `P`.
pub data Ensures {ℓ κ} {A : Type ℓ} (P : A → Type κ) : Result A → Type (ℓ ⊔ κ) where
  returns : {a : A} → P a → Ensures P (ok a)
  faults : {e : Fault} → Ensures P (err e)

module _ {ℓ κ} {A : Type ℓ} {P : A → Type κ} where
  pub Ensures-elim : {r : Result A} {a : A} → Ensures P r → r ≡ ok a → P a
  Ensures-elim (returns p) e = subst P (ok-injective e) p
  Ensures-elim faults e = cc

  pub Ensures-if :
      (b : Bool) {x y : Result A}
      → (b ≡ true → Ensures P x)
      → (b ≡ false → Ensures P y)
      → Ensures P (if b then x else y)
  unfolding if◌then◌else◌
  Ensures-if true h k = h refl
  Ensures-if false h k = k refl

  pub Ensures-assert :
      (b : Bool) {r : Result A} → (b ≡ true → Ensures P r) → Ensures P (assert b >> r)
  unfolding ◌>>=◌ assert
  Ensures-assert true h = h refl
  Ensures-assert false h = faults

module _ {ℓ κ μ ν} {A : Type ℓ} {B : Type κ} {P : A → Type μ} {Q : B → Type ν} where
  pub Ensures-bind :
      {r : Result A} {f : A → Result B}
      → Ensures P r
      → ((a : A) → P a → Ensures Q (f a))
      → Ensures Q (r >>= f)
  unfolding ◌>>=◌
  Ensures-bind {f} (returns p) k = k _ p
  Ensures-bind faults k = faults

module _ {ℓ κ} {A : Type ℓ} {P Q : A → Type κ} where
  pub Ensures-weaken : {r : Result A} → Ensures P r → ((a : A) → P a → Q a) → Ensures Q r
  Ensures-weaken (returns p) k = returns (k _ p)
  Ensures-weaken faults k = faults

module _ {ℓ κ μ} {A : Type ℓ} {B : Type κ} {P : B → Type μ} where
  pub Ensures-if_null :
      (o : Option A) {x : Result B} {f : A → Result B}
      → (o ≡ none → Ensures P x)
      → ((a : A) → o ≡ some a → Ensures P (f a))
      → Ensures P (if_null o x f)
  unfolding if_null
  Ensures-if_null none h k = h refl
  Ensures-if_null (some a) h k = k a refl

  pub Ensures-deref :
      (o : Option A) {f : A → Result B}
      → ((a : A) → o ≡ some a → Ensures P (f a))
      → Ensures P (deref o >>= f)
  unfolding ◌>>=◌ deref
  Ensures-deref none k = faults
  Ensures-deref (some a) k = k a refl

  pub Ensures-asserted :
      (o : Option A) {f : A → Result B}
      → ((a : A) → o ≡ some a → Ensures P (f a))
      → Ensures P (asserted o >>= f)
  unfolding ◌>>=◌ asserted
  Ensures-asserted none k = faults
  Ensures-asserted (some a) k = k a refl

  pub Ensures-or_panic :
      (o : Option A) {f : A → Result B}
      → ((a : A) → o ≡ some a → Ensures P (f a))
      → Ensures P (or_panic o >>= f)
  unfolding ◌>>=◌ or_panic
  Ensures-or_panic none k = faults
  Ensures-or_panic (some a) k = k a refl

  -- What is known of a step when it returns.
  pub Ensures-ok :
      (r : Result A) {f : A → Result B}
      → ((a : A) → r ≡ ok a → Ensures P (f a))
      → Ensures P (r >>= f)
  unfolding ◌>>=◌
  Ensures-ok (ok a) k = k a refl
  Ensures-ok (err e) k = faults

-- What holds of every value.
pub Ensures-all {ℓ κ} : {A : Type ℓ} {P : A → Type κ} (r : Result A) → ((a : A) → P a) → Ensures P r
Ensures-all (ok a) h = returns (h a)
Ensures-all (err e) h = faults
