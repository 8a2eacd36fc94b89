-- ===== src/Service/Creation/Sound.antt =====
-- A service that `create` makes (service/service.cpp).
use yo_authorize.Core.MachineIdentity.{collect_linux_machine_identity}
use yo_authorize.Core.License.{validate}
use yo_authorize.Core.License.Checks.{IsSigned, IsLicensed}
use yo_authorize.Core.License.Carried.{IsCarried}
use yo_authorize.FlatBuffers.{str}
use yo_authorize.Service.Config.{ServiceConfig, ConfigError}
use yo_authorize.Service.Config.Sound.{IsConfig}
use yo_authorize.Service.KeyStore.Loaded.{IsLoaded}
use yo_authorize.Service.Loop.{AuthorizationService}
use yo_authorize.Service.ServiceError.{ServiceError}
use yo_authorize.Service.Creation.{
  Surroundings, read_license, OpenSsl, LicenseBuffers, Option, Bytes, Result, empty_manager,
}
use yo_authorize.Prelude.{◌≡◌, some, ok, err, none}

module _ (o : OpenSsl) (lb : LicenseBuffers) where
  -- A service with the configuration that was loaded, its keys, no session, and the licence of the
  -- file that was read.
  pub record IsService (source : Result ConfigError ServiceConfig) {Node : Type 0}
      (env : Surroundings Node) (service : AuthorizationService) : Type 0 where
    pub loaded : source ≡ ok service.config
    pub config : IsConfig service.config
    pub keys : IsLoaded env.key_files service.config service.keys
    pub fresh : service.sessions ≡ empty_manager
    pub machine_id : Bytes
    pub identified :
        (collect_linux_machine_identity o service.config.machine_identity
          env.machine_files).exact_id
        ≡ ok machine_id
    pub license_bytes : Bytes
    pub read : read_license env.license_file ≡ some (ok license_bytes)
    pub validated :
        validate o lb service.keys.license_public_keys license_bytes service.config.product_id
          machine_id env.now
        ≡ ok service.license
    pub signed : IsSigned o service.keys.license_public_keys (lb.get_package license_bytes)
    pub carried :
        IsCarried (lb.get_payload (str (lb.get_package license_bytes).payload)) service.license
    pub licensed : IsLicensed service.config.product_id machine_id env.now service.license

  module _ (source : Result ConfigError ServiceConfig) {Node : Type 0}
      (env : Surroundings Node) where
    abbrev IsSource : ServiceConfig → Type 0
    IsSource config = (source ≡ ok config) × IsConfig config

    Service? : Option (Result ServiceError AuthorizationService) → Type 0
    Service? none = Unit {0}
    Service? (some (err e)) = Unit {0}
    Service? (some (ok service)) = IsService source env service
