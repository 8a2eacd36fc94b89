-- ===== src/Service/Config.antt =====
-- The service's configuration (service/config.h, config.cpp): what `loadConfig` reads out of a TOML
-- document. The TOML library is a parameter.
pub mod Document
pub mod Bounds
pub mod Keys
pub mod Sound
use mathlib.Core.Option
use yo_authorize.Prelude.Int.{ℤ, pos, negsuc}
use yo_authorize.Core.MachineIdentity.{LinuxMachineIdentityConfig}
use Prim.Native.Nat.{ℕ}
use mathlib.Core.Option.{Option, some, none}
use yo_authorize.Prelude.{
  Bytes, codes, List, Bool, Result, false, true, [], ok, if◌then◌else◌, ◌>>◌, ◌>>=◌, ◌∷◌, empty,
  err, or_fail, fail_if, ◌==◌, bytes_eq, ltb, not, leb, ◌||◌, length,
}
use yo_authorize.Prelude.Words.{u32}

-- Nodes of a document, and what the library's views and conversions say of them.
pub record Toml : Type 1 where
  pub Node : Type 0
  -- the node under a key of a table
  pub child : Node → Bytes → Option Node
  pub is_table : Node → Bool
  pub as_array : Node → Option (List Node)
  pub value_string : Node → Option Bytes
  pub value_integer : Node → Option ℤ
  pub value_bool : Node → Option Bool

pub data ConfigError : Type 0 where
  io parse missing_field invalid_value duplicate_key_id : ConfigError

pub record TrustKeyConfig : Type 0 where
  pub id : Bytes
  pub public_key_path : Bytes

pub record ServiceConfig : Type 0 where
  pub identity_key_id : Bytes
  pub identity_private_key_path : Bytes
  pub license_path : Bytes
  pub product_id : Bytes
  pub license_keys : List TrustKeyConfig
  pub socket_path : Bytes
  pub socket_mode : ℕ
  pub backlog : ℕ
  pub allowed_uids : List ℕ
  pub allowed_gids : List ℕ
  pub max_connections : ℕ
  pub handshake_timeout_ms : ℕ
  pub io_timeout_ms : ℕ
  pub idle_timeout_ms : ℕ
  pub heartbeat_interval_ms : ℕ
  pub heartbeat_timeout_ms : ℕ
  pub machine_identity : LinuxMachineIdentityConfig

abbrev u32_max : ℕ
u32_max = 0xffff_ffff

abbrev u16_max : ℕ
u16_max = 0xffff

unfoldable pub contains_id : ℕ → List ℕ → Bool
contains_id id [] = false
contains_id id (x ∷ xs) = x == id || contains_id id xs

unfoldable pub contains_key : Bytes → List Bytes → Bool
contains_key id [] = false
contains_key id (x ∷ xs) = bytes_eq x id || contains_key id xs

-- The default of `ServiceConfig::machine_identity`
abbrev default_machine_identity : LinuxMachineIdentityConfig
default_machine_identity = record {
  machine_id_path = codes "/etc/machine-id";
  product_uuid_path = codes "/sys/class/dmi/id/product_uuid";
  require_machine_id = true;
  require_product_uuid = false;
}

-- The members' defaults, around the strings that are given.
unfoldable pub default_config : Bytes → Bytes → Bytes → Bytes → ServiceConfig
default_config identity_id identity_path license_path product_id = record {
  identity_key_id = identity_id;
  identity_private_key_path = identity_path;
  license_path = license_path;
  product_id = product_id;
  license_keys = [];
  socket_path = codes "/run/yoauthorize/license-v1.sock";
  socket_mode = 432;
  backlog = 64;
  allowed_uids = [];
  allowed_gids = [];
  max_connections = 64;
  handshake_timeout_ms = 5000;
  io_timeout_ms = 5000;
  idle_timeout_ms = 30000;
  heartbeat_interval_ms = 5000;
  heartbeat_timeout_ms = 15000;
  machine_identity = default_machine_identity;
}

-- The value of an integer within its limits, converted to the field's type.
unfoldable pub within : ℕ → ℕ → Option ℤ → Option ℕ
within minimum maximum none = none
within minimum maximum (some (negsuc n)) = none
within minimum maximum (some (pos n)) =
    if ltb n minimum || ltb maximum n then none else some (u32 n)

module _ (t : Toml) where
  open t use {Node, child, is_table, as_array, value_string, value_integer, value_bool}

  abbrev pub nonempty : Option Bytes → Option Bytes
  nonempty none = none
  nonempty (some value) = if empty value then none else some value

  unfoldable pub required_string : Node → Bytes → Option Bytes
  required_string table key = nonempty (Option.bind (child table key) value_string)

  unfoldable pub assigned : ℕ → ℕ → ℕ → Option Node → Option ℕ
  unfolding within
  assigned output minimum maximum none = some output
  assigned output minimum maximum (some node) = within minimum maximum (value_integer node)

  -- The field afterwards, which keeps its default where the key is absent; `none` is `false`.
  unfoldable pub assign_integer : Node → Bytes → ℕ → ℕ → ℕ → Option ℕ
  unfolding assigned
  assign_integer table key output minimum maximum =
      assigned output minimum maximum (child table key)

  -- `unique` holds the ids so far.
  unfoldable pub parse_items : List ℕ → List Node → Option (List ℕ)
  unfolding within contains_id
  parse_items unique [] = some []
  parse_items unique (item ∷ items) = elim (within 0 u32_max (value_integer item)) [
    | none ↦ none
    | some id ↦
        if contains_id id unique
        then none
        else Option.map (◌∷◌ id) (parse_items (id ∷ unique) items)
  ]

  unfoldable pub parse_ids : Node → Option (List ℕ)
  unfolding parse_items
  parse_ids node = Option.bind (as_array node) (parse_items [])

  -- A string that replaces a default; a key that is there with no such string is an error.
  unfoldable pub replaced : Bytes → Option Bytes → Option Node → Result ConfigError Bytes
  replaced output (some value) there = ok value
  replaced output none (some there) = err invalid_value
  replaced output none none = ok output

  unfoldable pub optional_string : Node → Bytes → Bytes → Result ConfigError Bytes
  unfolding replaced required_string
  optional_string table key output = replaced output (required_string table key) (child table key)

  unfoldable pub flag_of : Bool → Option Node → Result ConfigError Bool
  flag_of output none = ok output
  flag_of output (some node) = or_fail (value_bool node) invalid_value

  unfoldable pub required_table : Node → Bytes → Option Node
  required_table document key =
      Option.bind (child document key) (λ node. if is_table node then some node else none)

  unfoldable pub gids_of : Option Node → Result ConfigError (List ℕ)
  unfolding parse_ids
  gids_of none = ok []
  gids_of (some node) = or_fail (parse_ids node) invalid_value
