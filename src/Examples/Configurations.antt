-- ===== src/Examples/Configurations.antt =====
-- A document, and the configuration that it makes.
use yo_authorize.Service.Config.Document.{
  load_config, required_of, service_of, integers_of, machine_of, parse_keys, key_of,
}
use mathlib.Core.Option
use yo_authorize.Prelude.Int.{ℤ, pos}
use Prim.Native.Nat.{ℕ}
use yo_authorize.Prelude.{
  Bytes, List, bytes_eq, Option, Bool, ◌≡◌, codes, some, true, none, [], ◌∷◌, if◌then◌else◌, false,
  ok, refl,
}
use yo_authorize.Service.Config.{
  Toml, ServiceConfig, default_config, required_table, required_string, optional_string, replaced,
  parse_ids, parse_items, within, contains_id, gids_of, assign_integer, assigned, flag_of,
  contains_key,
}
use yo_authorize.Service.Config.Sound.{IsConfig, load_config-IsConfig}

-- The nodes of one document.
pub data Node : Type 0 where
  document_node service_node keys_node key_node uids_node : Node
  text : Bytes → Node
  number : ℕ → Node

pub data Key : Type 0 where
  service_key identity_key_id identity_private_key license product_id allowed_uids : Key
  license_keys id public_key io_timeout_ms unknown : Key

abbrev names : List (Bytes × Key)
names =
    (codes "service", service_key)
    ∷ (codes "license_keys", license_keys)
    ∷ (codes "identity_key_id", identity_key_id)
    ∷ (codes "identity_private_key", identity_private_key)
    ∷ (codes "license", license)
    ∷ (codes "product_id", product_id)
    ∷ (codes "allowed_uids", allowed_uids)
    ∷ (codes "id", id)
    ∷ (codes "public_key", public_key)
    ∷ (codes "io_timeout_ms", io_timeout_ms)
    ∷ []

unfoldable pub key_named : Bytes → List (Bytes × Key) → Key
unfolding bytes_eq
key_named name [] = unknown
key_named name ((known, found) ∷ rest) = if bytes_eq name known then found else key_named name rest

abbrev children : Node → Key → Option Node
children document_node service_key = some service_node
children document_node license_keys = some keys_node
children service_node identity_key_id = some (text (codes "main"))
children service_node identity_private_key = some (text (codes "/identity"))
children service_node license = some (text (codes "/license"))
children service_node product_id = some (text (codes "app"))
children service_node allowed_uids = some uids_node
children service_node io_timeout_ms = some (number 250)
children key_node id = some (text (codes "main"))
children key_node public_key = some (text (codes "/public"))
children node name = none

abbrev table_node : Node → Bool
table_node document_node = true
table_node service_node = true
table_node key_node = true
table_node node = false

abbrev array_node : Node → Option (List Node)
array_node keys_node = some (key_node ∷ [])
array_node uids_node = some (number 1000 ∷ number 1001 ∷ [])
array_node node = none

abbrev string_node : Node → Option Bytes
string_node (text value) = some value
string_node node = none

abbrev integer_node : Node → Option ℤ
integer_node (number n) = some (pos n)
integer_node node = none

abbrev pub toml : Toml
toml = record {
  Node = Node;
  child = λ node name. children node (key_named name names);
  is_table = table_node;
  as_array = array_node;
  value_string = string_node;
  value_integer = integer_node;
  value_bool = λ node. none;
}

abbrev pub config : ServiceConfig
config =
    record (default_config (codes "main") (codes "/identity") (codes "/license") (codes "app")) {
      allowed_uids = 1000 ∷ 1001 ∷ [];
      io_timeout_ms = 250;
      license_keys = record { id = codes "main"; public_key_path = codes "/public" } ∷ [];
    }

loaded : load_config toml true (ok document_node) ≡ ok config
unfolding load_config required_table required_of required_string key_named bytes_eq service_of
    optional_string replaced parse_ids parse_items within contains_id gids_of integers_of
    assign_integer assigned machine_of flag_of parse_keys key_of contains_key default_config
    Option.bind
loaded = refl

load_config-IsConfig_example : IsConfig config
load_config-IsConfig_example = load_config-IsConfig toml true (ok document_node) loaded
