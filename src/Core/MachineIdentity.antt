-- ===== src/Core/MachineIdentity.antt =====
-- The identity of a machine (core/machine_identity.h, machine_identity.cpp): its two values, read and
-- normalised, and the digest over them.
pub mod Normal
pub mod Binding
use mathlib.Core.Option
use yo_authorize.Prelude.{
  ℕ, ◌+◌, ◌/◌, ◌%◌, Bytes, Bool, true, false, not, List, [], ◌∷◌, ◌++◌, Option, none, some, codes,
  length, take, all_of, map, empty, leb, ltb, ◌==◌, ◌&&◌, ◌||◌, if◌then◌else◌, Result, ok, err,
  ◌>>=◌, ◌>>◌, fail_if, map_err, ◌-◌,
}
use yo_authorize.Prelude.Words.{write_word, u32}
use yo_authorize.OpenSsl.{OpenSsl}
use yo_authorize.Crypto.{sha256}
use yo_authorize.Core.Status.{ErrorCode, machine_identity_unavailable, internal_error}

abbrev pub hash_domain : Bytes
hash_domain = codes "YOAUTHORIZE-MACHINE-ID-V1"

abbrev pub component_hash_domain : Bytes
component_hash_domain = codes "YOAUTHORIZE-MACHINE-COMPONENT-V1"

abbrev max_component_size : ℕ
max_component_size = 4096

pub data ComponentType : Type 0 where
  machine_id product_uuid : ComponentType

pub data ComponentStatus : Type 0 where
  available missing unreadable invalid : ComponentStatus

-- `MachineIdentityReadResult`, whose status is `Success` where it has contents.
pub data ReadResult : Type 0 where
  success : Bytes → ReadResult
  absent failure : ReadResult

pub record LinuxMachineIdentityConfig : Type 0 where
  pub machine_id_path : Bytes
  pub product_uuid_path : Bytes
  pub require_machine_id : Bool
  pub require_product_uuid : Bool

pub record NormalizedComponent : Type 0 where
  pub type : Bytes
  pub value : Bytes

abbrev pub is_ascii_space : ℕ → Bool
is_ascii_space value =
    value == b' ' || value == 9 || value == 10 || value == 13 || value == 12 || value == 11

abbrev pub is_ascii_hex : ℕ → Bool
is_ascii_hex value =
    (leb b'0' value && leb value b'9')
    || (leb b'a' value && leb value b'f')
    || (leb b'A' value && leb value b'F')

abbrev pub ascii_lower : ℕ → ℕ
ascii_lower value = if leb b'A' value && leb value b'F' then value + (b'a' - b'A') else value

unfoldable pub trim_front : Bytes → Bytes
trim_front [] = []
trim_front (c ∷ cs) = let rest = trim_front cs in if is_ascii_space c then rest else c ∷ cs

unfoldable pub trim_back : Bytes → Bytes
trim_back [] = []
trim_back (c ∷ cs) =
    let rest = trim_back cs in if empty rest && is_ascii_space c then [] else c ∷ rest

abbrev pub trim_ascii : Bytes → Bytes
trim_ascii value = trim_back (trim_front value)

-- `none` is the result `false`.
unfoldable pub normalize_machine_id : Bytes → Option Bytes
normalize_machine_id input =
    let trimmed = trim_ascii input in
    if not (length trimmed == 32) || not (all_of is_ascii_hex trimmed)
    then none
    else some (map ascii_lower trimmed)

abbrev is_hyphen_index : ℕ → Bool
is_hyphen_index index = index == 8 || index == 13 || index == 18 || index == 23

unfoldable pub uuid_digits : ℕ → Bytes → Option Bytes
uuid_digits index [] = some []
uuid_digits index (c ∷ cs) =
    let rest = uuid_digits (index + 1) cs in
    if is_hyphen_index index
    then (if not (c == b'-') then none else rest)
    else (if not (is_ascii_hex c) then none else Option.map (◌∷◌ (ascii_lower c)) rest)

unfoldable pub normalize_product_uuid : Bytes → Option Bytes
unfolding uuid_digits
normalize_product_uuid input =
    let trimmed = trim_ascii input in
    if not (length trimmed == 36) then none else uuid_digits 0 trimmed

-- A file as `ifstream` finds it: not there, not to be opened, or its bytes and whether reading them
-- broke off.
pub data Stream : Type 0 where
  no_entry unopened : Stream
  opened : Bytes → Bool → Stream

unfoldable pub read_file : Stream → ReadResult
read_file no_entry = absent
read_file unopened = failure
read_file (opened bytes bad) =
    let contents = take (max_component_size + 1) bytes in
    if bad || ltb max_component_size (length contents) then failure else success contents

abbrev pub type_name : ComponentType → Bytes
type_name machine_id = codes "machine-id"
type_name product_uuid = codes "product-uuid"

unfoldable pub normalize : ComponentType → Bytes → Option Bytes
normalize machine_id contents = normalize_machine_id contents
normalize product_uuid contents = normalize_product_uuid contents

unfoldable pub component_of :
    ComponentType → Option Bytes → ComponentStatus × List NormalizedComponent
component_of type none = (invalid, [])
component_of type (some value) = (available, record { type = type_name type; value = value } ∷ [])

-- The status, and the component that is appended where there is one; `none` is an exception.
unfoldable pub read_component :
    ComponentType → Option ReadResult → ComponentStatus × List NormalizedComponent
unfolding component_of
read_component type none = (unreadable, [])
read_component type (some absent) = (missing, [])
read_component type (some failure) = (unreadable, [])
read_component type (some (success contents)) = component_of type (normalize type contents)

-- The appenders return what they append.
abbrev append_u32 : ℕ → Bytes
append_u32 value = write_word 4 (u32 value)

abbrev pub append_field : Bytes → Bytes
append_field value = append_u32 (length value) ++ value

-- `left.type < right.type` of two `string_view`s
unfoldable pub bytes_less : Bytes → Bytes → Bool
bytes_less [] [] = false
bytes_less [] (y ∷ ys) = true
bytes_less (x ∷ xs) [] = false
bytes_less (x ∷ xs) (y ∷ ys) = ltb x y || (x == y && bytes_less xs ys)

unfoldable pub insert_component :
    NormalizedComponent → List NormalizedComponent → List NormalizedComponent
insert_component c [] = c ∷ []
insert_component c (d ∷ ds) =
    let later = d ∷ insert_component c ds in if bytes_less d.type c.type then later else c ∷ d ∷ ds

unfoldable pub sort_components : List NormalizedComponent → List NormalizedComponent
sort_components [] = []
sort_components (c ∷ cs) = insert_component c (sort_components cs)

-- `digits[n]`
abbrev pub hex_digit : ℕ → ℕ
hex_digit n = if ltb n 10 then b'0' + n else b'a' + (n - 10)

unfoldable pub hex_digest : Bytes → Bytes
hex_digest [] = []
hex_digest (byte ∷ bytes) = hex_digit (byte / 16) ∷ hex_digit (byte % 16) ∷ hex_digest bytes

pub record MachineIdentity : Type 0 where
  pub exact_id : Result ErrorCode Bytes
  pub machine_id_status : ComponentStatus
  pub product_uuid_status : ComponentStatus

-- The components that are read, in the order of the reads.
unfoldable pub components_of :
    LinuxMachineIdentityConfig → (Bytes → Option ReadResult) → List NormalizedComponent
unfolding read_component
components_of config reader =
    (read_component machine_id (reader config.machine_id_path)).1
    ++ (read_component product_uuid (reader config.product_uuid_path)).1

abbrev is_available : ComponentStatus → Bool
is_available available = true
is_available _ = false

module _ (o : OpenSsl) where
  abbrev pub component_input : NormalizedComponent → Bytes
  component_input c =
      append_field component_hash_domain ++ (append_field c.type ++ append_field c.value)

  unfoldable pub append_components : List NormalizedComponent → Result ErrorCode Bytes
  append_components [] = ok []
  append_components (c ∷ cs) = do
    digest ← map_err internal_error (sha256 o (component_input c))
    rest ← append_components cs
    ok (append_field c.type ++ (append_u32 (length digest) ++ (digest ++ rest)))

  unfoldable pub identity_transcript : List NormalizedComponent → Result ErrorCode Bytes
  identity_transcript normalized = do
    components ← append_components normalized
    ok (append_field hash_domain ++ (append_u32 (length normalized) ++ components))

  unfoldable pub exact_id_of : List NormalizedComponent → Result ErrorCode Bytes
  exact_id_of normalized = do
    transcript ← identity_transcript (sort_components normalized)
    digest ← map_err internal_error (sha256 o transcript)
    ok (hex_digest digest)

  -- What the reader answers for each path, in place of the reader.
  unfoldable pub collect_linux_machine_identity :
      LinuxMachineIdentityConfig → (Bytes → Option ReadResult) → MachineIdentity
  collect_linux_machine_identity config reader =
      let first_status = (read_component machine_id (reader config.machine_id_path)).0 in
      let second_status = (read_component product_uuid (reader config.product_uuid_path)).0 in
      let normalized = components_of config reader in
      record {
        exact_id =
            if (config.require_machine_id && not (is_available first_status))
              || (config.require_product_uuid && not (is_available second_status))
              || empty normalized
            then err machine_identity_unavailable
            else exact_id_of normalized;
        machine_id_status = first_status;
        product_uuid_status = second_status;
      }
