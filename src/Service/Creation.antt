-- ===== src/Service/Creation.antt =====
-- `AuthorizationService::create` (service/service.cpp): what has to succeed before the service exists.
pub mod Sound
use yo_authorize.Service.Config.Document.{load_config}
use yo_authorize.Prelude.{
  ◌++◌, Option, ℕ, Bytes, Bool, Result, some, true, if◌then◌else◌, err, ◌+◌, ◌||◌, false, none,
  List, map_err, ◌>>=◌, not, ok, ◌*◌, ◌∷◌, ◌==◌, [], ltb, or_fail, suc, codes, ◌/◌, ◌%◌, zero,
}
use yo_authorize.Files.{FileCalls, FileStat, read_all}
use yo_authorize.Core.License.{TrustedKeys, LicenseSnapshot, validate, max_license_size}
use yo_authorize.Core.License.Buffers.{LicenseBuffers}
use yo_authorize.Core.MachineIdentity.{MachineIdentity, ReadResult, collect_linux_machine_identity}
use yo_authorize.Core.Session.{SessionManager, empty_manager}
use yo_authorize.Protocol.Frame.{
  decode_header, frame_header_size, default_max_payload_size, FrameDecoded, FrameError,
}
use yo_authorize.Service.ServiceError
use yo_authorize.Service.ServiceError.{ServiceError, transport, license_file, invalid_license}
use yo_authorize.Transport
use yo_authorize.Transport.{Transport, Status, Deadline, is_success}
use yo_authorize.Transport.UnixSocket.{PeerCredentials}
use yo_authorize.Service.Config.{Toml, ServiceConfig, ConfigError, contains_id}
use yo_authorize.Service.KeyStore.{LoadedKeys, KeyStoreError, load_keys}
use yo_authorize.Service.Connection.{
  Connection, ConnectionResult, Outcome, Draws, new_connection, established, close_session, State,
}
use yo_authorize.Service.Connection.Handling.{handle}
use yo_authorize.OpenSsl.{OpenSsl}
use yo_authorize.Prelude.Words.{u32}
use yo_authorize.Protocol.Envelope.{EnvelopeBuffers}
use yo_authorize.Core.Status.{ErrorCode}
use yo_authorize.Service.Loop.{AuthorizationService}

unfoldable pub license_sized : FileCalls → FileStat → Option (Result ServiceError Bytes)
license_sized file info =
    if not info.is_regular || info.size == 0 || ltb max_license_size info.size
    then some (err license_file)
    else elim (read_all false file.reads info.size []) [
      | none ↦ none
      | some bytes ↦ some (or_fail bytes license_file)
    ]

-- `none` where the script of the file's calls ends before its reading does.
unfoldable pub read_license : FileCalls → Option (Result ServiceError Bytes)
unfolding license_sized
read_license file = elim (file.opened) [
  | err error ↦ some (err license_file)
  | ok u ↦ elim (file.stat) [ none ↦ some (err license_file) | some info ↦ license_sized file info ]
]

-- What `create` reads: the configuration, the files, the machine and the time.
pub record Surroundings (Node : Type 0) : Type 0 where
  pub is_regular : Bool
  pub parsed : Result ConfigError Node
  pub key_files : Bytes → FileCalls
  pub machine_files : Bytes → Option ReadResult
  pub license_file : FileCalls
  pub now : ℕ

module _ (o : OpenSsl) (lb : LicenseBuffers) where
  abbrev pub exact_id : MachineIdentity → Result ServiceError Bytes
  exact_id machine = map_err ServiceError.machine_identity machine.exact_id

  unfoldable pub create_licensed :
      ServiceConfig
      → LoadedKeys
      → Bytes
      → ℕ
      → Option (Result ServiceError Bytes)
      → Option (Result ServiceError AuthorizationService)
  create_licensed config keys machine_id now none = none
  create_licensed config keys machine_id now (some (err e)) = some (err e)
  create_licensed config keys machine_id now (some (ok license_bytes)) = some (do
    license ←
        map_err invalid_license
          (validate o lb keys.license_public_keys license_bytes config.product_id machine_id now)
    ok (record { config = config; keys = keys; license = license; sessions = empty_manager }))

  unfoldable pub create_identified :
      {Node : Type 0}
      → Surroundings Node
      → ServiceConfig
      → LoadedKeys
      → Result ErrorCode Bytes
      → Option (Result ServiceError AuthorizationService)
  unfolding create_licensed read_license
  create_identified env config keys (err e) = some (err ServiceError.machine_identity)
  create_identified env config keys (ok machine_id) =
      create_licensed config keys machine_id env.now (read_license env.license_file)

  unfoldable pub create_keyed :
      {Node : Type 0}
      → Surroundings Node
      → ServiceConfig
      → Option (Result KeyStoreError LoadedKeys)
      → Option (Result ServiceError AuthorizationService)
  unfolding create_identified
  create_keyed env config none = none
  create_keyed env config (some (err e)) = some (err ServiceError.keys)
  create_keyed env config (some (ok keys)) =
      create_identified env config keys
        (collect_linux_machine_identity o config.machine_identity env.machine_files).exact_id

  unfoldable pub create_configured :
      {Node : Type 0}
      → Surroundings Node
      → Result ConfigError ServiceConfig
      → Option (Result ServiceError AuthorizationService)
  unfolding create_keyed load_keys
  create_configured env (err e) = some (err ServiceError.config)
  create_configured env (ok config) = create_keyed env config (load_keys env.key_files config)

  -- `none` where the script of a file's calls ends before its reading does.
  unfoldable pub create :
      (toml : Toml) → Surroundings toml.Node → Option (Result ServiceError AuthorizationService)
  unfolding create_configured load_config
  create toml env = create_configured env (load_config toml env.is_regular env.parsed)
