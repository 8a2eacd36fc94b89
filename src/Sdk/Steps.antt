-- ===== src/Sdk/Steps.antt =====
-- A chain of steps that fail with a status: `none` is a call that never returns.
use yo_authorize.Prelude.{Option, none, some, Result, ok, err, Bool, true, false, ◌≡◌, refl}
use yo_authorize.Sdk.Status.{Failure}

abbrev pub Step : Type 0 → Type 0
Step A = Option (Result Failure A)

infixl 5 ◌>>=◌ ◌>>◌
abbrev pub ◌>>=◌ : {A B : Type 0} → Step A → (A → Step B) → Step B
none >>= next = none
some (err failure) >>= next = some (err failure)
some (ok a) >>= next = next a

abbrev pub ◌>>◌ : {A : Type 0} → Step (Unit {0}) → Step A → Step A
test >> next = test >>= λ passed. next

abbrev pub require : Bool → Failure → Step (Unit {0})
require true failure = some (ok tt)
require false failure = some (err failure)

-- A result whose error becomes the status.
abbrev pub lift : {E A : Type 0} → Result E A → Failure → Step A
lift (ok a) failure = some (ok a)
lift (err e) failure = some (err failure)

-- The caller puts its own status in the place of the callee's.
abbrev pub failing_as : {A : Type 0} → Failure → Step A → Step A
failing_as failure none = none
failing_as failure (some (err f)) = some (err failure)
failing_as failure (some (ok a)) = some (ok a)

-- What a success says of the steps before it.
pub >>=-eq-ok :
    {A B : Type 0} {b : B} (r : Step A) (next : A → Step B)
    → (r >>= next) ≡ some (ok b)
    → (a : A) × (r ≡ some (ok a)) × (next a ≡ some (ok b))
>>=-eq-ok none next e = cc
>>=-eq-ok (some (err failure)) next e = cc
>>=-eq-ok (some (ok a)) next e = (a, refl, e)

pub require-eq-ok :
    {A : Type 0} {a : A} (t : Bool) (failure : Failure) (next : Step A)
    → (require t failure >> next) ≡ some (ok a)
    → (t ≡ true) × (next ≡ some (ok a))
require-eq-ok true failure next e = (refl, e)
require-eq-ok false failure next e = cc
