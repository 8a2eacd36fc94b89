-- ===== src/Files.antt =====
-- Files that the program reads whole through a descriptor: the answers of the calls that it makes.
use yo_authorize.Prelude.{
  ℕ, ◌-◌, Bytes, Bool, List, Option, none, some, [], ◌∷◌, ◌++◌, Result, ok, err, length, take, ◌==◌,
  if◌then◌else◌, empty, ◌&&◌, ◌≡◌, arith, subst, if-elim, if-lem, ◌+◌, length-append,
  length-take-le,
}

-- What `fstat` says; the size is not negative.
pub record FileStat : Type 0 where
  pub is_regular : Bool
  pub mode : ℕ
  pub size : ℕ

pub record FileCalls : Type 0 where
  -- `open` with O_NOFOLLOW, or errno
  pub opened : Result ℕ (Unit {0})
  pub stat : Option FileStat
  -- the answers of `read`, in order: the bytes that there are, or errno
  pub reads : List (Result ℕ Bytes)

abbrev eintr : ℕ
eintr = 4

unfoldable pub read_answered :
    Bool → (ℕ → Bytes → Option (Option Bytes)) → ℕ → Bytes → Result ℕ Bytes → Option (Option Bytes)
read_answered retries continue need output (err error) =
    if retries && error == eintr then continue need output else some none
read_answered retries continue need output (ok bytes) =
    let chunk = take need bytes in
    if empty chunk then some none else continue (need - length chunk) (output ++ chunk)

-- `while (offset < size) read(…)`: `some none` is a failure, `none` a script that ends before the
-- loop does. `retries` says whether the loop goes on where a signal interrupts the call.
unfoldable pub read_all : Bool → List (Result ℕ Bytes) → ℕ → Bytes → Option (Option Bytes)
unfolding read_answered
read_all retries [] need output = if need == 0 then some (some output) else none
read_all retries (answer ∷ answers) need output =
    if need == 0
    then some (some output)
    else read_answered retries (read_all retries answers) need output answer

abbrev Sized : ℕ → Option (Option Bytes) → Type 0
Sized size none = Unit {0}
Sized size (some none) = Unit {0}
Sized size (some (some bytes)) = length bytes ≡ size

read_all-Sized :
    (retries : Bool) (answers : List (Result ℕ Bytes)) (need : ℕ) (output : Bytes)
    → Sized (length output + need) (read_all retries answers need output)
unfolding read_all read_answered
read_all-Sized retries [] need output =
    if-elim (Sized (length output + need)) (need == 0) (λ e. ground (arith, e)) (λ e. tt)
read_all-Sized retries (answer ∷ answers) need output =
    if-elim (Sized (length output + need)) (need == 0) (λ e. ground (arith, e))
      (λ e. answered answer (read_all-Sized retries answers))
  where
    answered :
        (answer : Result ℕ Bytes)
        → ((need : ℕ) (output : Bytes)
            → Sized (length output + need) (read_all retries answers need output))
        → Sized
            (length output + need)
            (read_answered retries (read_all retries answers) need output answer)
    answered (err error) next =
        if-lem (Sized (length output + need)) (retries && error == eintr) (next need output) tt
    answered (ok bytes) next = if-lem (Sized (length output + need)) (empty (take need bytes)) tt (
        subst
          (λ n. Sized n (
            read_all retries answers (need - length (take need bytes)) (output ++ take need bytes)))
          (omega (arith, length-append output (take need bytes), length-take-le need bytes))
          (next (need - length (take need bytes)) (output ++ take need bytes)))

-- A file that is read to its end has the size that was asked for.
pub length-read_all :
    (retries : Bool) (answers : List (Result ℕ Bytes)) (size : ℕ) {bytes : Bytes}
    → read_all retries answers size [] ≡ some (some bytes)
    → length bytes ≡ size
length-read_all retries answers size e = subst (Sized size) e (
    subst (λ n. Sized n (read_all retries answers size [])) (omega arith)
      (read_all-Sized retries answers size []))
