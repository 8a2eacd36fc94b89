-- ===== src/Core/License/Buffers.antt =====
-- Licence packages as FlatBuffers tables (schema/license.fbs). The generated accessors and the
-- verifier are parameters. A field of a table that may be absent is an `Option`, an enum its number.
use yo_authorize.Prelude.{ℕ, Bytes, Bool, List, Option}

abbrev pub schema_trial : ℕ
schema_trial = 0

abbrev pub schema_subscription : ℕ
schema_subscription = 1

abbrev pub schema_permanent : ℕ
schema_permanent = 2

abbrev pub schema_unbound : ℕ
schema_unbound = 0

abbrev pub schema_exact : ℕ
schema_exact = 1

pub record MachinePolicy : Type 0 where
  pub mode : ℕ
  pub machine_id : Option Bytes

pub record LicensePayload : Type 0 where
  pub license_id : Option Bytes
  pub product_id : Option Bytes
  pub customer_id : Option Bytes
  pub issue_time : ℕ
  pub not_before : ℕ
  pub expire_time : ℕ
  pub license_type : ℕ
  pub features : Option (List (Option Bytes))
  pub max_sessions : ℕ
  pub machine_policy : Option MachinePolicy

pub record LicensePackage : Type 0 where
  pub format_version : ℕ
  pub key_id : Option Bytes
  pub payload : Option Bytes
  pub signature : Option Bytes

pub record LicenseBuffers : Type 0 where
  -- LicensePackageBufferHasIdentifier
  pub has_identifier : Bytes → Bool
  -- VerifyLicensePackageBuffer, and the root of a buffer that it accepts
  pub verify_package : Bytes → Bool
  pub get_package : Bytes → LicensePackage
  -- VerifyBuffer<LicensePayload>(nullptr), and the root
  pub verify_payload : Bytes → Bool
  pub get_payload : Bytes → LicensePayload
