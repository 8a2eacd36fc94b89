-- ===== src/Prelude/Results.antt =====
-- `{.error = e}` or `{.value = a}`: the result structures of the program, which carry a value only
-- where the error is `None`.
use mathlib.Core.Path.{◌≡◌, refl}
use mathlib.Core.Logic.{◌⊎◌, inl, inr}
use mathlib.Core.Option.{Option, none, some}
use mathlib.Core.Bool.{Bool, true, false}
use yo_authorize.Prelude.Tests.{if◌then◌else◌}

pub data Result {ℓ} (E : Type 0) (A : Type ℓ) : Type ℓ where
  ok : A → Result E A
  err : E → Result E A

module _ {E : Type 0} where
  -- `if (bad) return {.error = e};`
  abbrev pub fail_if : Bool → E → Result E (Unit {0})
  fail_if true e = err e
  fail_if false e = ok tt

  -- The next step, on the value of a success.
  infixl 5 ◌>>=◌
  abbrev pub ◌>>=◌ {ℓ κ} : {A : Type ℓ} {B : Type κ} → Result E A → (A → Result E B) → Result E B
  err e >>= step = err e
  ok a >>= step = step a

  abbrev pub or_fail {ℓ} : {A : Type ℓ} → Option A → E → Result E A
  or_fail none e = err e
  or_fail (some a) e = ok a

  infixl 5 ◌>>◌
  abbrev pub ◌>>◌ {ℓ} : {A : Type ℓ} → Result E (Unit {0}) → Result E A → Result E A
  test >> next = test >>= λ passed. next

  pub or_fail-eq-ok {ℓ} :
      {A : Type ℓ} (o : Option A) (e : E) {a : A} → or_fail o e ≡ ok a → o ≡ some a
  or_fail-eq-ok none e h = cc
  or_fail-eq-ok (some a) e h = cc

  pub Result-cases {ℓ} :
      {A : Type ℓ} (r : Result E A) → ((a : A) × (r ≡ ok a)) ⊎ ((e : E) × (r ≡ err e))
  Result-cases (ok a) = inl (a, refl)
  Result-cases (err e) = inr (e, refl)

  -- What a success says of the tests and steps before it.
  pub >>=-eq-ok {ℓ κ} :
      {A : Type ℓ} {B : Type κ} {b : B} (r : Result E A) (next : A → Result E B)
      → (r >>= next) ≡ ok b
      → (passed : A) × (r ≡ ok passed) × (next passed ≡ ok b)
  >>=-eq-ok (err x) next e = cc
  >>=-eq-ok (ok passed) next e = (passed, refl, e)

  pub fail_if-eq-ok {ℓ} :
      {A : Type ℓ} (t : Bool) (e : E) (r : Result E A) {a : A}
      → (fail_if t e >> r) ≡ ok a
      → (t ≡ false) × (r ≡ ok a)
  fail_if-eq-ok true e r h = cc
  fail_if-eq-ok false e r h = (refl, h)

  pub if-eq-ok {ℓ} :
      {A : Type ℓ} (t : Bool) (e : E) (r : Result E A) {a : A}
      → (if t then err e else r) ≡ ok a
      → (t ≡ false) × (r ≡ ok a)
  if-eq-ok true e r h = cc
  if-eq-ok false e r h = (refl, h)

  pub ok-injective {ℓ} : {A : Type ℓ} {a b : A} → ◌≡◌ {A = Result E A} (ok a) (ok b) → a ≡ b
  ok-injective e = cc

  abbrev pub is_ok {ℓ} : {A : Type ℓ} → Result E A → Bool
  is_ok (ok a) = true
  is_ok (err e) = false

-- A result whose error is replaced by another.
abbrev pub map_err {ℓ} : {E F : Type 0} {A : Type ℓ} → F → Result E A → Result F A
map_err f (ok a) = ok a
map_err f (err e) = err f

pub map_err-eq-ok {ℓ} :
    {E F : Type 0} {A : Type ℓ} (f : F) (r : Result E A) {a : A} → map_err f r ≡ ok a → r ≡ ok a
map_err-eq-ok f (ok a) h = cc
map_err-eq-ok f (err e) h = cc
