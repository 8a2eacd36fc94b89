-- ===== src/Prelude/Bits.antt =====
-- Laws of `&` and `|` at variables, from the digit recursion that the native operations stand for.
use Prim.Native.Nat.{
  ℕ, zero, suc, ◌+◌, ◌*◌, ◌/◌, ◌%◌, ◌≤◌, ◌<◌, min, max, bit_and, bit_or, digits, bitwise,
  bit_and-bitwise, bit_or-bitwise,
}
use mathlib.Core.Path.{◌≡◌, ap, sym, ◌∙◌}
use native.Mathlib.Omega.{arith}

-- Both operations at once: `rest` is what they make of the second number where the first has run out
-- of digits, `digit` what they make of two digits.
module _ (rest : ℕ → ℕ) (digit : ℕ → ℕ → ℕ) where
  digits-none : (count b : ℕ) → digits rest digit count 0 b ≡ rest b
  digits-none zero b = λ i. rest b
  digits-none (suc count) b = λ i. rest b

  -- A count that is large enough may be exchanged for another.
  digits-exchange :
      (a b left right : ℕ)
      → a ≤ left
      → a ≤ right
      → digits rest digit left a b ≡ digits rest digit right a b
  digits-exchange zero b left right l r = digits-none left b ∙ sym (digits-none right b)
  digits-exchange (suc a) b zero right l r = absurd (omega (arith, l))
  digits-exchange (suc a) b (suc left) zero l r = absurd (omega (arith, r))
  digits-exchange (suc a) b (suc left) (suc right) l r =
      ap (λ upper. upper * 2 + digit (suc a % 2) (b % 2))
        (digits-exchange (suc a / 2) (b / 2) left right (omega (arith, l)) (omega (arith, r)))

  bitwise-halves :
      (a b : ℕ)
      → bitwise rest digit (suc a) b
        ≡ bitwise rest digit (suc a / 2) (b / 2) * 2 + digit (suc a % 2) (b % 2)
  bitwise-halves a b =
      ap (λ upper. upper * 2 + digit (suc a % 2) (b % 2))
        (digits-exchange (suc a / 2) (b / 2) a (suc a / 2) (omega arith) (omega arith))

bit_and_halves : (a b : ℕ) → bit_and a b ≡ bit_and (a / 2) (b / 2) * 2 + min (a % 2) (b % 2)
bit_and_halves zero b = omega (arith, bit_and-bitwise 0 b, bit_and-bitwise 0 (b / 2))
bit_and_halves (suc n) b = omega (
  arith,
  bitwise-halves (λ b. 0) min n b,
  bit_and-bitwise (suc n / 2) (b / 2),
  bit_and-bitwise (suc n) b,
)

bit_or_halves : (a b : ℕ) → bit_or a b ≡ bit_or (a / 2) (b / 2) * 2 + max (a % 2) (b % 2)
bit_or_halves zero b = omega (arith, bit_or-bitwise 0 b, bit_or-bitwise 0 (b / 2))
bit_or_halves (suc n) b = omega (
  arith,
  bitwise-halves (λ b. b) max n b,
  bit_or-bitwise (suc n / 2) (b / 2),
  bit_or-bitwise (suc n) b,
)

-- With no digits on the right, by recursion on a bound of the left.
bit_and_none : (bound a : ℕ) → a ≤ bound → bit_and a 0 ≡ 0
bit_and_none bound zero l = omega (arith, bit_and-bitwise 0 0)
bit_and_none zero (suc a) l = absurd (omega (arith, l))
bit_and_none (suc bound) (suc a) l =
    omega (arith, bit_and_none bound (suc a / 2) (omega (arith, l)), bit_and_halves (suc a) 0)

bit_or_none : (bound a : ℕ) → a ≤ bound → bit_or a 0 ≡ a
bit_or_none bound zero l = omega (arith, bit_or-bitwise 0 0)
bit_or_none zero (suc a) l = absurd (omega (arith, l))
bit_or_none (suc bound) (suc a) l =
    omega (arith, bit_or_none bound (suc a / 2) (omega (arith, l)), bit_or_halves (suc a) 0)

abbrev pow2 : ℕ → ℕ
pow2 zero = 1
pow2 (suc k) = pow2 k * 2

-- k ones.
abbrev mask : ℕ → ℕ
mask zero = 0
mask (suc k) = mask k * 2 + 1

bit_and-mask : (k a : ℕ) → a < pow2 k → bit_and a (mask k) ≡ a
bit_and-mask zero a h = omega (arith, bit_and_none a a (omega arith))
bit_and-mask (suc k) a h =
    let half : (mask k * 2 + 1) / 2 ≡ mask k = omega arith in
    omega (
      arith,
      bit_and_halves a (mask k * 2 + 1),
      ap (bit_and (a / 2)) half,
      bit_and-mask k (a / 2) (omega arith),
    )

-- `flags & ~1` on 16 bits clears the lowest bit.
pub bit_and_clear_lowest : (a : ℕ) → a < 65536 → bit_and a 0xfffe ≡ a / 2 * 2
bit_and_clear_lowest a h =
    omega (arith, bit_and_halves a 0xfffe, bit_and-mask 15 (a / 2) (omega arith))

-- Where the bits do not meet, `|` is `+`.
bit_or_disjoint : (k a b : ℕ) → b < pow2 k → bit_or (a * pow2 k) b ≡ a * pow2 k + b
bit_or_disjoint zero a b h =
    omega (arith, bit_or_none (a * 1) (a * 1) (omega arith), ap (bit_or (a * 1)) (small b h))
  where
    small : (b : ℕ) → b < 1 → b ≡ 0
    small b h = omega arith
bit_or_disjoint (suc k) a b h =
    let half : a * (pow2 k * 2) / 2 ≡ a * pow2 k = omega arith in
    omega (
      arith,
      bit_or_halves (a * (pow2 k * 2)) b,
      ap (λ x. bit_or x (b / 2)) half,
      bit_or_disjoint k a (b / 2) (omega arith),
    )

pub bit_or_byte : (a b : ℕ) → b < 256 → bit_or (a * 256) b ≡ a * 256 + b
bit_or_byte a b h = bit_or_disjoint 8 a b h
