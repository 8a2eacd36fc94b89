-- ===== src/Sdk/LocalAuthorizer.antt =====
-- The authorization from a licence file without a service (sdk/local_authorizer.h,
-- local_authorizer.cpp).
pub mod Granted
use yo_authorize.Core.Status.{ErrorCode}
use yo_authorize.Core.License.{TrustedKeys, validate, LicenseSnapshot}
use yo_authorize.Core.MachineIdentity.{
  LinuxMachineIdentityConfig, ReadResult, collect_linux_machine_identity,
}
use yo_authorize.Core.License.Buffers.{LicenseBuffers}
use yo_authorize.Files.{FileCalls, FileStat, read_all}
use yo_authorize.OpenSsl.{OpenSsl}
use yo_authorize.Prelude.{
  Bytes, Option, Result, Bool, ℕ, ok, err, none, some, [], codes, not, empty, ltb, if◌then◌else◌,
  ◌==◌, ◌||◌, ◌>>◌, ◌>>=◌, fail_if, map_err, or_fail, length, true,
}
use yo_authorize.Sdk.Status
use yo_authorize.Sdk.Status.{ClientError, ClientState, Failure}

abbrev pub max_license_size : ℕ
max_license_size = 1048576

pub record LocalAuthorizationConfig : Type 0 where
  pub product_id : Bytes
  pub trusted_license_keys : TrustedKeys
  pub machine_id_path : Bytes
  pub product_uuid_path : Bytes
  pub require_machine_id : Bool
  pub require_product_uuid : Bool

abbrev denied : Bytes → Failure
denied message = record { error = ClientError.authorization_denied; message = message }

abbrev untrusted : Bytes → Failure
untrusted message = record { error = ClientError.invalid_license; message = message }

unfoldable pub map_license_error : ErrorCode → Failure
map_license_error ErrorCode.expired = denied (codes "license has expired")
map_license_error ErrorCode.not_yet_valid = denied (codes "license is not yet valid")
map_license_error ErrorCode.product_mismatch = denied (codes "license product does not match")
map_license_error ErrorCode.machine_mismatch = denied (codes "license is bound to another machine")
map_license_error ErrorCode.unknown_key = untrusted (codes "license signing key is not trusted")
map_license_error ErrorCode.invalid_signature = untrusted (codes "license signature is invalid")
map_license_error _ = untrusted (codes "license format or policy is invalid")

abbrev pub license_file_failed : Bytes → Failure
license_file_failed message = record { error = ClientError.license_file; message = message }

unfoldable pub license_sized : FileCalls → Option FileStat → Option (Result Failure Bytes)
license_sized file none =
    some (err (license_file_failed (codes "license file is invalid or too large")))
license_sized file (some info) =
    if not info.is_regular || info.size == 0 || ltb max_license_size info.size
    then some (err (license_file_failed (codes "license file is invalid or too large")))
    else elim (read_all true file.reads info.size []) [
      | none ↦ none
      | some bytes ↦
          some (or_fail bytes (license_file_failed (codes "license file could not be read")))
    ]

unfoldable pub license_opened : FileCalls → Result ℕ (Unit {0}) → Option (Result Failure Bytes)
unfolding license_sized
license_opened file (err error) =
    some (err (license_file_failed (codes "license file could not be opened")))
license_opened file (ok u) = license_sized file file.stat

-- `none` where the script of the file's calls ends before its reading does.
unfoldable pub read_license : FileCalls → Option (Result Failure Bytes)
unfolding license_opened
read_license file = license_opened file file.opened

-- The snapshot of the SDK, from that of the validator.
abbrev pub granted : LicenseSnapshot → Status.LicenseSnapshot
granted license = record {
  state = ClientState.valid;
  features = license.features;
  expire_time = license.expire_time;
}

unfoldable pub license_validated :
    Result ErrorCode LicenseSnapshot → Result Failure Status.LicenseSnapshot
unfolding map_license_error
license_validated (err e) = err (map_license_error e)
license_validated (ok license) = ok (granted license)

module _ (o : OpenSsl) where
  unfoldable pub machine_identity :
      LocalAuthorizationConfig → (Bytes → Option ReadResult) → Result Failure Bytes
  machine_identity config reader =
      map_err
        (record {
          error = ClientError.machine_identity;
          message = codes "machine identity is unavailable";
        })
        (collect_linux_machine_identity o
          (record {
            machine_id_path = config.machine_id_path;
            product_uuid_path = config.product_uuid_path;
            require_machine_id = config.require_machine_id;
            require_product_uuid = config.require_product_uuid;
          })
          reader).exact_id

module _ (o : OpenSsl) (lb : LicenseBuffers) where
  -- The package, the machine's files and the time.
  unfoldable pub authorize_license :
      Bytes
      → LocalAuthorizationConfig
      → (Bytes → Option ReadResult)
      → ℕ
      → Result Failure Status.LicenseSnapshot
  unfolding machine_identity license_validated
  authorize_license package_bytes config reader now = do
    fail_if (empty config.product_id || empty config.trusted_license_keys) (record {
      error = ClientError.invalid_config;
      message = codes "local authorization is not configured";
    })
    machine_id ← machine_identity o config reader
    license_validated
        (validate o lb config.trusted_license_keys package_bytes config.product_id machine_id now)

  unfoldable pub file_read :
      Option (Result Failure Bytes)
      → LocalAuthorizationConfig
      → (Bytes → Option ReadResult)
      → ℕ
      → Option (Result Failure Status.LicenseSnapshot)
  unfolding authorize_license
  file_read none config reader now = none
  file_read (some (err failure)) config reader now = some (err failure)
  file_read (some (ok package_bytes)) config reader now =
      some (authorize_license package_bytes config reader now)

  unfoldable pub authorize_license_file :
      FileCalls
      → LocalAuthorizationConfig
      → (Bytes → Option ReadResult)
      → ℕ
      → Option (Result Failure Status.LicenseSnapshot)
  unfolding file_read read_license
  authorize_license_file file config reader now = file_read (read_license file) config reader now
