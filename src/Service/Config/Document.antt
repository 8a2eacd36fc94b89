-- ===== src/Service/Config/Document.antt =====
-- `loadConfig` over the parts of a document (service/config.cpp).
use mathlib.Core.Option
use yo_authorize.Core.MachineIdentity.{LinuxMachineIdentityConfig}
use mathlib.Core.Option.{Option, some, none}
use yo_authorize.Prelude.{
  Bytes, codes, List, Bool, Result, false, true, [], ok, ◌>>◌, ◌>>=◌, ◌∷◌, empty, or_fail, fail_if,
  ltb, not, leb, length,
}
use yo_authorize.Service.Config.{
  Toml, ServiceConfig, TrustKeyConfig, ConfigError, missing_field, invalid_value, duplicate_key_id,
  io, u16_max, contains_key, default_machine_identity, default_config, required_string,
  assign_integer, parse_ids, optional_string, flag_of, required_table, gids_of,
}

module _ (t : Toml) where
  open t use {Node, child, is_table, as_array, value_string, value_integer, value_bool}

  unfoldable pub machine_of : Option Node → Result ConfigError LinuxMachineIdentityConfig
  unfolding optional_string flag_of
  machine_of none = ok default_machine_identity
  machine_of (some machine) = do
    machine_id_path ←
        optional_string t machine (codes "machine_id_path") default_machine_identity.machine_id_path
    product_uuid_path ←
        optional_string t machine (codes "product_uuid_path")
          default_machine_identity.product_uuid_path
    require_machine_id ← flag_of t true (child machine (codes "require_machine_id"))
    require_product_uuid ← flag_of t false (child machine (codes "require_product_uuid"))
    ok (record {
      machine_id_path = machine_id_path;
      product_uuid_path = product_uuid_path;
      require_machine_id = require_machine_id;
      require_product_uuid = require_product_uuid;
    })

  -- One entry of `license_keys`, after those with the ids seen.
  unfoldable pub key_of : List Bytes → Node → Result ConfigError TrustKeyConfig
  unfolding required_string contains_key
  key_of key_ids item = do
    fail_if (not (is_table item)) invalid_value
    id ← or_fail (required_string t item (codes "id")) missing_field
    key_path ← or_fail (required_string t item (codes "public_key")) missing_field
    fail_if (contains_key id key_ids) duplicate_key_id
    ok (record { id = id; public_key_path = key_path })

  unfoldable pub parse_keys : List Bytes → List Node → Result ConfigError (List TrustKeyConfig)
  unfolding key_of
  parse_keys key_ids [] = ok []
  parse_keys key_ids (item ∷ items) = do
    key ← key_of key_ids item
    keys ← parse_keys (key.id ∷ key_ids) items
    ok (key ∷ keys)

  -- The integers of the service's table, into the fields of the configuration.
  unfoldable pub integers_of : Node → ServiceConfig → Result ConfigError ServiceConfig
  unfolding assign_integer
  integers_of service config = do
    socket_mode ←
        or_fail (assign_integer t service (codes "socket_mode") config.socket_mode 0 511)
          invalid_value
    backlog ←
        or_fail (assign_integer t service (codes "backlog") config.backlog 1 4096) invalid_value
    max_connections ←
        or_fail (assign_integer t service (codes "max_connections") config.max_connections 1 10000)
          invalid_value
    handshake_timeout_ms ←
        or_fail
          (assign_integer t service (codes "handshake_timeout_ms") config.handshake_timeout_ms 100
            60000)
          invalid_value
    io_timeout_ms ←
        or_fail (assign_integer t service (codes "io_timeout_ms") config.io_timeout_ms 100 60000)
          invalid_value
    idle_timeout_ms ←
        or_fail
          (assign_integer t service (codes "idle_timeout_ms") config.idle_timeout_ms 1000 3600000)
          invalid_value
    heartbeat_interval_ms ←
        or_fail
          (assign_integer t service (codes "heartbeat_interval_ms") config.heartbeat_interval_ms
            1000 60000)
          invalid_value
    heartbeat_timeout_ms ←
        or_fail
          (assign_integer t service (codes "heartbeat_timeout_ms") config.heartbeat_timeout_ms 2000
            300000)
          invalid_value
    fail_if (leb heartbeat_timeout_ms heartbeat_interval_ms) invalid_value
    ok (record config {
      socket_mode = socket_mode;
      backlog = backlog;
      max_connections = max_connections;
      handshake_timeout_ms = handshake_timeout_ms;
      io_timeout_ms = io_timeout_ms;
      idle_timeout_ms = idle_timeout_ms;
      heartbeat_interval_ms = heartbeat_interval_ms;
      heartbeat_timeout_ms = heartbeat_timeout_ms;
    })

  -- The strings that must be there, in a configuration of defaults, and the node of the uids.
  unfoldable pub required_of : Node → Result ConfigError (ServiceConfig × Node)
  unfolding required_string
  required_of service = do
    identity_id ← or_fail (required_string t service (codes "identity_key_id")) missing_field
    identity_path ← or_fail (required_string t service (codes "identity_private_key")) missing_field
    license_path ← or_fail (required_string t service (codes "license")) missing_field
    product_id ← or_fail (required_string t service (codes "product_id")) missing_field
    fail_if (ltb u16_max (length identity_id)) missing_field
    allowed_uids ← or_fail (child service (codes "allowed_uids")) missing_field
    ok (default_config identity_id identity_path license_path product_id, allowed_uids)

  unfoldable pub service_of :
      Node → List Node → Node → ServiceConfig × Node → Result ConfigError ServiceConfig
  unfolding optional_string parse_ids gids_of integers_of machine_of parse_keys required_table
  service_of service keys document (config, uids) = do
    socket_path ← optional_string t service (codes "socket") config.socket_path
    allowed_uids ← or_fail (parse_ids t uids) invalid_value
    fail_if (empty allowed_uids) invalid_value
    allowed_gids ← gids_of t (child service (codes "allowed_gids"))
    integers ← integers_of service config
    machine_identity ← machine_of (required_table t document (codes "machine_identity"))
    license_keys ← parse_keys [] keys
    ok (record integers {
      socket_path = socket_path;
      allowed_uids = allowed_uids;
      allowed_gids = allowed_gids;
      machine_identity = machine_identity;
      license_keys = license_keys;
    })

  -- Whether the path is a regular file, and what the parser makes of it.
  unfoldable pub load_config : Bool → Result ConfigError Node → Result ConfigError ServiceConfig
  unfolding required_table required_of service_of
  load_config is_regular parsed = do
    fail_if (not is_regular) io
    document ← parsed
    service ← or_fail (required_table t document (codes "service")) missing_field
    keys ← or_fail (Option.bind (child document (codes "license_keys")) as_array) missing_field
    fail_if (empty keys) missing_field
    required ← required_of service
    service_of service keys document required
