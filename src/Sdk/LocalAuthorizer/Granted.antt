-- ===== src/Sdk/LocalAuthorizer/Granted.antt =====
-- What a local authorization rests on (sdk/local_authorizer.cpp, core/license.cpp).
use yo_authorize.Core.License.{validate, LicenseSnapshot}
use yo_authorize.Core.License.Checks.{IsSigned, IsLicensed}
use yo_authorize.Core.License.Carried.{IsCarried}
use yo_authorize.FlatBuffers.{str}
use yo_authorize.Core.License.Buffers.{LicenseBuffers}
use yo_authorize.Core.MachineIdentity.{ReadResult}
use yo_authorize.Files.{FileCalls}
use yo_authorize.OpenSsl.{OpenSsl}
use yo_authorize.Prelude.{Bytes, Option, Result, ℕ, ok, err, none, some, ◌≡◌, ◌≤◌, ◌<◌, length}
use yo_authorize.Sdk.Status
use yo_authorize.Sdk.Status.{Failure}
use yo_authorize.Sdk.LocalAuthorizer.{
  LocalAuthorizationConfig, machine_identity, read_license, granted, max_license_size,
}

-- The bytes of a file, of one byte to 1 MiB.
Sized : Option (Result Failure Bytes) → Type 0
Sized none = Unit {0}
Sized (some (err failure)) = Unit {0}
Sized (some (ok bytes)) = (0 < length bytes) × (length bytes ≤ max_license_size)

module _ (o : OpenSsl) (lb : LicenseBuffers) where
  -- The package was read whole, it is signed by a trusted key, and its licence covers the product,
  -- this machine and this time; the snapshot is the licence's.
  pub record IsGranted (file : FileCalls) (config : LocalAuthorizationConfig)
      (reader : Bytes → Option ReadResult) (now : ℕ) (snapshot : Status.LicenseSnapshot)
      : Type 0 where
    pub package_bytes : Bytes
    pub machine_id : Bytes
    pub license : LicenseSnapshot
    pub read : read_license file ≡ some (ok package_bytes)
    pub size : (0 < length package_bytes) × (length package_bytes ≤ max_license_size)
    pub identified : machine_identity o config reader ≡ ok machine_id
    pub validated :
        validate o lb config.trusted_license_keys package_bytes config.product_id machine_id now
        ≡ ok license
    pub signed : IsSigned o config.trusted_license_keys (lb.get_package package_bytes)
    pub carried : IsCarried (lb.get_payload (str (lb.get_package package_bytes).payload)) license
    pub licensed : IsLicensed config.product_id machine_id now license
    pub shown : granted license ≡ snapshot
