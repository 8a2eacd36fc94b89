-- ===== src/Core/License.antt =====
-- Licence packages and their validation (core/license.h, license.cpp).
pub mod Buffers
pub mod Checks
pub mod Carried
pub mod Soundness
pub mod Signature
use yo_authorize.Prelude.{
  ℕ, ◌*◌, Bytes, List, if◌then◌else◌, Option, codes, ◌++◌, ◌==◌, Result, none, some, empty, [],
  length, ◌∷◌, bytes_eq, ◌>>◌, fail_if, not, ltb, ◌||◌, ◌&&◌, ◌>>=◌, leb, or_fail, ok, map_err,
}
use mathlib.Core.Option
use yo_authorize.Core.License.Buffers.{
  LicenseBuffers, LicensePayload, MachinePolicy, LicensePackage, schema_subscription,
  schema_permanent, schema_exact, schema_unbound, schema_trial,
}
use yo_authorize.FlatBuffers.{missing, str}
use mathlib.Core.Option.{Option, none, some}
use yo_authorize.OpenSsl.{OpenSsl}
use yo_authorize.Prelude.Words.{write_word, u16, u32}
use yo_authorize.Core.Status.{
  ErrorCode, not_yet_valid, invalid_license, unsupported_version, invalid_format, machine_mismatch,
  expired, unknown_key, product_mismatch, invalid_signature,
}
use yo_authorize.Crypto.{signature_size, verify_ed25519}

abbrev pub max_license_size : ℕ
max_license_size = 1024 * 1024

abbrev signature_domain : Bytes
signature_domain = codes "YOAUTHORIZE-LICENSE-V1"

pub data LicenseType : Type 0 where
  trial subscription permanent : LicenseType

pub data MachineMode : Type 0 where
  unbound exact : MachineMode

pub record LicenseSnapshot : Type 0 where
  pub license_id : Bytes
  pub product_id : Bytes
  pub customer_id : Bytes
  pub issue_time : ℕ
  pub not_before : ℕ
  pub expire_time : ℕ
  pub type : LicenseType
  pub features : List Bytes
  pub max_sessions : ℕ
  pub machine_mode : MachineMode
  pub machine_id : Bytes

-- `trusted_keys_`, an `unordered_map` from key ids to keys.
abbrev pub TrustedKeys : Type 0
TrustedKeys = List (Bytes × Bytes)

unfoldable pub find_key : Bytes → TrustedKeys → Option Bytes
find_key id [] = none
find_key id ((k, key) ∷ rest) = if bytes_eq k id then some key else find_key id rest

-- The appenders return what they append.
abbrev append_u16 : ℕ → Bytes
append_u16 value = write_word 2 value

abbrev append_u32 : ℕ → Bytes
append_u32 value = write_word 4 value

unfoldable pub signature_input : ℕ → Bytes → Bytes → Bytes
signature_input version key_id payload =
    signature_domain
    ++ (append_u16 version
        ++ (append_u16 (u16 (length key_id))
            ++ (key_id ++ (append_u32 (u32 (length payload)) ++ payload))))

abbrev convert_type : ℕ → LicenseType
convert_type type =
    if type == schema_subscription
    then subscription
    else if type == schema_permanent
    then permanent
    else trial

-- The loop over the features stops at the first that is null or empty.
unfoldable pub convert_features : List (Option Bytes) → Option (List Bytes)
convert_features [] = some []
convert_features (none ∷ rest) = none
convert_features (some feature ∷ rest) =
    let converted = convert_features rest in
    if empty feature then none else Option.map (◌∷◌ feature) converted

unfoldable pub snapshot_of : LicensePayload → MachinePolicy → List Bytes → LicenseSnapshot
snapshot_of p policy features = record {
  license_id = str p.license_id;
  product_id = str p.product_id;
  customer_id = str p.customer_id;
  issue_time = p.issue_time;
  not_before = p.not_before;
  expire_time = p.expire_time;
  type = convert_type p.license_type;
  features = features;
  max_sessions = p.max_sessions;
  machine_mode = if policy.mode == schema_exact then exact else unbound;
  machine_id = str policy.machine_id;
}

-- `features` may be absent; the other fields of the snapshot are read before the loop.
unfoldable pub features_of : Option (List (Option Bytes)) → Option (List Bytes)
features_of none = some []
features_of (some features) = convert_features features

unfoldable pub check_policy :
    LicensePayload → MachinePolicy → Bytes → Result ErrorCode LicenseSnapshot
check_policy p policy machine_id = do
  fail_if (not (policy.mode == schema_unbound) && not (policy.mode == schema_exact)) invalid_license
  fail_if
      (policy.mode == schema_exact
        && (missing policy.machine_id || not (bytes_eq (str policy.machine_id) machine_id)))
      machine_mismatch
  features ← or_fail (features_of p.features) invalid_license
  ok (snapshot_of p policy features)

-- The window: a permanent licence has no end, any other one ends after it begins.
unfoldable pub check_times : LicensePayload → ℕ → Result ErrorCode (Unit {0})
check_times p now = do
  fail_if (ltb now p.not_before) not_yet_valid
  fail_if (p.license_type == schema_permanent && not (p.expire_time == 0)) invalid_license
  fail_if
      (not (p.license_type == schema_permanent)
        && (leb p.expire_time p.not_before || leb p.expire_time now))
      expired

unfoldable pub check_payload : LicensePayload → Bytes → Bytes → ℕ → Result ErrorCode LicenseSnapshot
check_payload p expected_product machine_id now = do
  fail_if (missing p.license_id || missing p.product_id || p.max_sessions == 0) invalid_license
  policy ← or_fail p.machine_policy invalid_license
  fail_if
      (not (p.license_type == schema_trial)
        && not (p.license_type == schema_subscription)
        && not (p.license_type == schema_permanent))
      invalid_license
  fail_if (not (bytes_eq (str p.product_id) expected_product)) product_mismatch
  check_times p now
  check_policy p policy machine_id

module _ (o : OpenSsl) where
  -- The bytes under the signature, verified under the key that the package names.
  unfoldable pub check_signature : TrustedKeys → LicensePackage → Result ErrorCode Bytes
  check_signature trusted_keys outer = do
    fail_if (not (outer.format_version == 1)) unsupported_version
    fail_if
        (missing outer.key_id
          || ltb 0xffff (length (str outer.key_id))
          || missing outer.payload
          || not (length (str outer.signature) == signature_size))
        invalid_license
    key ← or_fail (find_key (str outer.key_id) trusted_keys) unknown_key
    map_err invalid_signature (
        verify_ed25519 o key
          (signature_input outer.format_version (str outer.key_id) (str outer.payload))
          (str outer.signature))
    ok (str outer.payload)

module _ (o : OpenSsl) (fb : LicenseBuffers) where
  open fb use {has_identifier, verify_package, get_package, verify_payload, get_payload}

  unfoldable pub validate :
      TrustedKeys → Bytes → Bytes → Bytes → ℕ → Result ErrorCode LicenseSnapshot
  validate trusted_keys bytes expected_product machine_id now = do
    fail_if
        (empty bytes
          || ltb max_license_size (length bytes)
          || ltb (length bytes) 8
          || not (has_identifier bytes))
        invalid_format
    fail_if (not (verify_package bytes)) invalid_format
    payload ← check_signature o trusted_keys (get_package bytes)
    fail_if (not (verify_payload payload)) invalid_license
    check_payload (get_payload payload) expected_product machine_id now
