-- ===== src/Prelude/Ensures.antt =====
-- What a success promises of its value, through a chain of fallible steps.
use mathlib.Core.Path.{◌≡◌, subst, refl}
use mathlib.Core.Option.{Option, none, some}
use mathlib.Core.Bool.{Bool, true, false}
use yo_authorize.Prelude.Results.{Result, ok, err, ◌>>=◌, fail_if, or_fail, ◌>>◌}

pub Ensures {ℓ} : {E : Type 0} {A : Type ℓ} → (A → Type 0) → Result E A → Type 0
Ensures P (ok a) = P a
Ensures P (err e) = Unit {0}

pub ok-Ensures {ℓ} :
    (E : Type 0) {A : Type ℓ} (P : A → Type 0) (a : A) → P a → Ensures {E = E} P (ok a)
unfolding Ensures
ok-Ensures E P a h = h

module _ {E : Type 0} where
  pub bind-Ensures {ℓ κ} :
      {A : Type ℓ} {B : Type κ} (P : A → Type 0) (Q : B → Type 0) (r : Result E A)
      (f : A → Result E B)
      → Ensures P r
      → ((a : A) → P a → Ensures Q (f a))
      → Ensures Q (r >>= f)
  unfolding Ensures
  bind-Ensures P Q (ok a) f h k = k a h
  bind-Ensures P Q (err e) f h k = tt

  pub or_fail-Ensures {ℓ} :
      {A : Type ℓ} (P : A → Type 0) (x : Option A) (e : E)
      → ((a : A) → x ≡ some a → P a)
      → Ensures P (or_fail x e)
  unfolding Ensures
  or_fail-Ensures P none e h = tt
  or_fail-Ensures P (some a) e h = h a refl

  pub fail_if-Ensures : (t : Bool) (e : E) → Ensures (λ (u : Unit {0}). t ≡ false) (fail_if t e)
  unfolding Ensures
  fail_if-Ensures true e = tt
  fail_if-Ensures false e = refl

  -- The rest of a chain, behind a test that did not fail.
  pub then-Ensures {ℓ} :
      {A : Type ℓ} (Q : A → Type 0) (t : Bool) (e : E) (r : Result E A)
      → (t ≡ false → Ensures Q r)
      → Ensures Q (fail_if t e >> r)
  unfolding Ensures
  then-Ensures Q true e r h = tt
  then-Ensures Q false e r h = h refl

  pub any-Ensures {ℓ} : {A : Type ℓ} (r : Result E A) → Ensures (λ a. Unit {0}) r
  unfolding Ensures
  any-Ensures (ok a) = tt
  any-Ensures (err e) = tt

  -- Of the value that a step returned.
  pub ensured {ℓ} :
      {A : Type ℓ} (P : A → Type 0) (r : Result E A) {a : A} → Ensures P r → r ≡ ok a → P a
  unfolding Ensures
  ensured P r h e = subst (Ensures P) e h
