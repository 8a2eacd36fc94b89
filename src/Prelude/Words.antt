-- ===== src/Prelude/Words.antt =====
-- Fixed-width words and their big-endian bytes, as every encoder of the program writes them.
use Prim.Native.Nat.{ℕ, zero, suc, ◌+◌, ◌*◌, ◌/◌, ◌%◌, ◌^◌, ◌≤◌, ◌<◌, bit_or}
use mathlib.Core.Path.{◌≡◌, refl, sym, ap, ◌∙◌}
use mathlib.Core.List.{[], ◌∷◌}
use native.Mathlib.Omega.{arith}
use yo_authorize.Prelude.Lists.{length, All}
use yo_authorize.Prelude.ByteLists.{Bytes, IsByte}
use yo_authorize.Prelude.Bits.{bit_or_byte}

-- `static_cast<std::uint8_t>` and its wider kin.
abbrev pub u8 : ℕ → ℕ
u8 v = v % 256

abbrev pub u16 : ℕ → ℕ
u16 v = v % 0x10000

abbrev pub u32 : ℕ → ℕ
u32 v = v % 0x1_0000_0000

abbrev pub u64 : ℕ → ℕ
u64 v = v % 0x1_0000_0000_0000_0000

abbrev pub u64_max : ℕ
u64_max = 0xffff_ffff_ffff_ffff

abbrev pub IsU16 : ℕ → Type 0
IsU16 v = v < 0x10000

abbrev pub IsU32 : ℕ → Type 0
IsU32 v = v < 0x1_0000_0000

abbrev pub IsU64 : ℕ → Type 0
IsU64 v = v < 0x1_0000_0000_0000_0000

-- The n bytes of `v`, highest first: the byte i is `v >> 8 * (n - 1 - i)`.
abbrev pub write_word : ℕ → ℕ → Bytes
write_word zero v = []
write_word (suc k) v = u8 (v / 2 ^ (8 * k)) ∷ write_word k v

-- `value = (value << 8) | byte` over the bytes, in a word that holds values below `bound`.
unfoldable pub read_word : ℕ → ℕ → Bytes → ℕ
read_word bound value [] = value
read_word bound value (b ∷ bs) = read_word bound (bit_or (value * 256 % bound) b) bs

-- The same in plain arithmetic, with no wrap-around.
abbrev pub value_of : ℕ → Bytes → ℕ
value_of value [] = value
value_of value (b ∷ bs) = value_of (value * 256 + b) bs

value_of-ge : (value : ℕ) (bs : Bytes) → value ≤ value_of value bs
value_of-ge value [] = omega arith
value_of-ge value (b ∷ bs) = omega (arith, value_of-ge (value * 256 + b) bs)

read_word-value_of :
    (bound value : ℕ) (bs : Bytes)
    → All IsByte bs
    → value_of value bs < bound
    → read_word bound value bs ≡ value_of value bs
unfolding read_word
read_word-value_of bound value [] a h = refl
read_word-value_of bound value (b ∷ bs) a h =
    let fits : value * 256 % bound ≡ value * 256 =
      grind (arith, value_of-ge (value * 256 + b) bs) in
    let next : bit_or (value * 256 % bound) b ≡ value * 256 + b =
      ap (λ x. bit_or x b) fits ∙ bit_or_byte value b a.0 in
    ap (λ x. read_word bound x bs) next ∙ read_word-value_of bound (value * 256 + b) bs a.1 h

pub read-write_u16 : (v : ℕ) → IsU16 v → read_word 0x10000 0 (write_word 2 v) ≡ v
read-write_u16 v h =
    let value : value_of 0 (write_word 2 v) ≡ v = omega arith in
    read_word-value_of 0x10000 0 (write_word 2 v) (omega arith) (omega arith) ∙ value

pub read-write_u32 : (v : ℕ) → IsU32 v → read_word 0x1_0000_0000 0 (write_word 4 v) ≡ v
read-write_u32 v h =
    let value : value_of 0 (write_word 4 v) ≡ v = omega arith in
    read_word-value_of 0x1_0000_0000 0 (write_word 4 v) (omega arith) (omega arith) ∙ value

pub read-write_u64 : (v : ℕ) → IsU64 v → read_word 0x1_0000_0000_0000_0000 0 (write_word 8 v) ≡ v
read-write_u64 v h =
    let value : value_of 0 (write_word 8 v) ≡ v = omega arith in
    read_word-value_of 0x1_0000_0000_0000_0000 0 (write_word 8 v) (omega arith) (omega arith)
    ∙ value

values_u16 :
    (b0 b1 : ℕ)
    → All IsByte (b0 ∷ b1 ∷ [])
    → (write_word 2 (value_of 0 (b0 ∷ b1 ∷ [])) ≡ b0 ∷ b1 ∷ [])
      × (value_of 0 (b0 ∷ b1 ∷ []) < 0x10000)
values_u16 b0 b1 h = (ground arith, omega arith)

values_u32 :
    (b0 b1 b2 b3 : ℕ)
    → All IsByte (b0 ∷ b1 ∷ b2 ∷ b3 ∷ [])
    → (write_word 4 (value_of 0 (b0 ∷ b1 ∷ b2 ∷ b3 ∷ [])) ≡ b0 ∷ b1 ∷ b2 ∷ b3 ∷ [])
      × (value_of 0 (b0 ∷ b1 ∷ b2 ∷ b3 ∷ []) < 0x1_0000_0000)
values_u32 b0 b1 b2 b3 h = (ground arith, omega arith)

values_u64 :
    (b0 b1 b2 b3 b4 b5 b6 b7 : ℕ)
    → All IsByte (b0 ∷ b1 ∷ b2 ∷ b3 ∷ b4 ∷ b5 ∷ b6 ∷ b7 ∷ [])
    → (write_word 8 (value_of 0 (b0 ∷ b1 ∷ b2 ∷ b3 ∷ b4 ∷ b5 ∷ b6 ∷ b7 ∷ []))
        ≡ b0 ∷ b1 ∷ b2 ∷ b3 ∷ b4 ∷ b5 ∷ b6 ∷ b7 ∷ [])
      × (value_of 0 (b0 ∷ b1 ∷ b2 ∷ b3 ∷ b4 ∷ b5 ∷ b6 ∷ b7 ∷ []) < 0x1_0000_0000_0000_0000)
values_u64 b0 b1 b2 b3 b4 b5 b6 b7 h = (ground arith, omega arith)

read_u16 :
    (bs : Bytes)
    → length bs ≡ 2
    → All IsByte bs
    → (write_word 2 (value_of 0 bs) ≡ bs) × (value_of 0 bs < 0x10000)
read_u16 [] n h = absurd (omega arith)
read_u16 (b0 ∷ []) n h = absurd (omega arith)
read_u16 (b0 ∷ b1 ∷ []) n h = values_u16 b0 b1 h
read_u16 (b0 ∷ b1 ∷ c ∷ cs) n h = absurd (omega arith)

-- What is read is in range, and writing it again gives the bytes back.
pub write-read_u16 :
    (bs : Bytes)
    → length bs ≡ 2
    → All IsByte bs
    → (write_word 2 (read_word 0x10000 0 bs) ≡ bs) × (read_word 0x10000 0 bs < 0x10000)
write-read_u16 bs n h =
    let (same, fits) = read_u16 bs n h in rw (read_word-value_of 0x10000 0 bs h fits) (same, fits)

read_u32 :
    (bs : Bytes)
    → length bs ≡ 4
    → All IsByte bs
    → (write_word 4 (value_of 0 bs) ≡ bs) × (value_of 0 bs < 0x1_0000_0000)
read_u32 [] n h = absurd (omega arith)
read_u32 (b0 ∷ []) n h = absurd (omega arith)
read_u32 (b0 ∷ b1 ∷ []) n h = absurd (omega arith)
read_u32 (b0 ∷ b1 ∷ b2 ∷ []) n h = absurd (omega arith)
read_u32 (b0 ∷ b1 ∷ b2 ∷ b3 ∷ []) n h = values_u32 b0 b1 b2 b3 h
read_u32 (b0 ∷ b1 ∷ b2 ∷ b3 ∷ c ∷ cs) n h = absurd (omega arith)

-- What is read is in range, and writing it again gives the bytes back.
pub write-read_u32 :
    (bs : Bytes)
    → length bs ≡ 4
    → All IsByte bs
    → (write_word 4 (read_word 0x1_0000_0000 0 bs) ≡ bs)
      × (read_word 0x1_0000_0000 0 bs < 0x1_0000_0000)
write-read_u32 bs n h =
    let (same, fits) = read_u32 bs n h in
    rw (read_word-value_of 0x1_0000_0000 0 bs h fits) (same, fits)

read_u64 :
    (bs : Bytes)
    → length bs ≡ 8
    → All IsByte bs
    → (write_word 8 (value_of 0 bs) ≡ bs) × (value_of 0 bs < 0x1_0000_0000_0000_0000)
read_u64 [] n h = absurd (omega arith)
read_u64 (b0 ∷ []) n h = absurd (omega arith)
read_u64 (b0 ∷ b1 ∷ []) n h = absurd (omega arith)
read_u64 (b0 ∷ b1 ∷ b2 ∷ []) n h = absurd (omega arith)
read_u64 (b0 ∷ b1 ∷ b2 ∷ b3 ∷ []) n h = absurd (omega arith)
read_u64 (b0 ∷ b1 ∷ b2 ∷ b3 ∷ b4 ∷ []) n h = absurd (omega arith)
read_u64 (b0 ∷ b1 ∷ b2 ∷ b3 ∷ b4 ∷ b5 ∷ []) n h = absurd (omega arith)
read_u64 (b0 ∷ b1 ∷ b2 ∷ b3 ∷ b4 ∷ b5 ∷ b6 ∷ []) n h = absurd (omega arith)
read_u64 (b0 ∷ b1 ∷ b2 ∷ b3 ∷ b4 ∷ b5 ∷ b6 ∷ b7 ∷ []) n h = values_u64 b0 b1 b2 b3 b4 b5 b6 b7 h
read_u64 (b0 ∷ b1 ∷ b2 ∷ b3 ∷ b4 ∷ b5 ∷ b6 ∷ b7 ∷ c ∷ cs) n h = absurd (omega arith)

-- What is read is in range, and writing it again gives the bytes back.
pub write-read_u64 :
    (bs : Bytes)
    → length bs ≡ 8
    → All IsByte bs
    → (write_word 8 (read_word 0x1_0000_0000_0000_0000 0 bs) ≡ bs)
      × (read_word 0x1_0000_0000_0000_0000 0 bs < 0x1_0000_0000_0000_0000)
write-read_u64 bs n h =
    let (same, fits) = read_u64 bs n h in
    rw (read_word-value_of 0x1_0000_0000_0000_0000 0 bs h fits) (same, fits)

pub length-write_word : (n v : ℕ) → length (write_word n v) ≡ n
length-write_word zero v = refl
length-write_word (suc k) v = ap suc (length-write_word k v)

pub IsByte-write_word : (n v : ℕ) → All IsByte (write_word n v)
IsByte-write_word zero v = tt
IsByte-write_word (suc k) v = (omega arith, IsByte-write_word k v)

pub write_u16_inj : {v w : ℕ} → IsU16 v → IsU16 w → write_word 2 v ≡ write_word 2 w → v ≡ w
write_u16_inj {v} {w} h k e =
    sym (read-write_u16 v h) ∙ ap (read_word 0x10000 0) e ∙ read-write_u16 w k

pub write_u32_inj : {v w : ℕ} → IsU32 v → IsU32 w → write_word 4 v ≡ write_word 4 w → v ≡ w
write_u32_inj {v} {w} h k e =
    sym (read-write_u32 v h) ∙ ap (read_word 0x1_0000_0000 0) e ∙ read-write_u32 w k

pub write_u64_inj : {v w : ℕ} → IsU64 v → IsU64 w → write_word 8 v ≡ write_word 8 w → v ≡ w
write_u64_inj {v} {w} h k e =
    sym (read-write_u64 v h) ∙ ap (read_word 0x1_0000_0000_0000_0000 0) e ∙ read-write_u64 w k
