-- ===== src/Service/Config/Keys.antt =====
-- The strings that `loadConfig` requires, and its list of keys (service/config.cpp).
use yo_authorize.Service.Config.Document.{required_of, key_of, parse_keys}
use mathlib.Core.Option
use mathlib.Core.List
use yo_authorize.Prelude.Ensures.{Ensures, bind-Ensures, or_fail-Ensures, then-Ensures, ok-Ensures}
use yo_authorize.Service.Config.{
  Toml, ServiceConfig, TrustKeyConfig, ConfigError, contains_key, invalid_value, Bytes,
  required_string, nonempty, missing_field, duplicate_key_id, default_config,
}
use yo_authorize.Prelude.{
  ◌≤◌, arith, Option, ◌≡◌, or_fail, some, none, List, Distinct, All, false, ◌∷◌, [], All-map_of,
  refl, empty, length, ltb, not, codes, ◌≢◌, All-to_map, bytes_eq_iff,
}
use mathlib.Core.Option.{map}
use yo_authorize.Service.Config.Bounds.{IsTimed}

abbrev pub NotEmpty : Bytes → Type 0
NotEmpty value = empty value ≡ false

-- What is known of the configuration before its lists are read.
pub record Started (config : ServiceConfig) : Type 0 where
  pub timed : IsTimed config
  pub key_id : (NotEmpty config.identity_key_id) × (length config.identity_key_id ≤ 65535)
  pub identity_path : NotEmpty config.identity_private_key_path
  pub license : NotEmpty config.license_path
  pub product : NotEmpty config.product_id

-- An entry that names a key and its file.
abbrev pub IsNamed : TrustKeyConfig → Type 0
IsNamed key = NotEmpty key.id × NotEmpty key.public_key_path

-- Entries for distinct keys, none of them seen before.
abbrev pub Keys : List Bytes → List TrustKeyConfig → Type 0
Keys seen keys =
    Distinct (List.map (λ (k : TrustKeyConfig). k.id) keys)
    × All (λ (k : TrustKeyConfig). contains_key k.id seen ≡ false) keys
    × All IsNamed keys

module _ (t : Toml) where
  required_string-NotEmpty :
      (table : t.Node) (key : Bytes) {value : Bytes}
      → required_string t table key ≡ some value
      → NotEmpty value
  unfolding required_string
  required_string-NotEmpty table key {value = value} e =
      found (Option.bind (t.child table key) t.value_string) e
    where
      found : (x : Option Bytes) → nonempty t x ≡ some value → NotEmpty value
      found none e = absurd (cc)
      found (some v) e = ground (arith, e)

  pub string :
      (table : t.Node) (key : Bytes) (e : ConfigError)
      → Ensures NotEmpty (or_fail (required_string t table key) e)
  string table key e =
      or_fail-Ensures NotEmpty (required_string t table key) e
        (λ v h. required_string-NotEmpty table key h)

  default_config-Started :
      (id identity_path license_path product : Bytes)
      → NotEmpty id
      → length id ≤ 65535
      → NotEmpty identity_path
      → NotEmpty license_path
      → NotEmpty product
      → Started (default_config id identity_path license_path product)
  unfolding default_config
  default_config-Started id identity_path license_path product i n j k p = record {
    timed = record {
      mode = omega arith;
      backlog = omega arith;
      connections = omega arith;
      handshake = omega arith;
      io = omega arith;
      idle = omega arith;
      interval = omega arith;
      timeout = omega arith;
      slower = omega arith;
    };
    key_id = (i, n);
    identity_path = j;
    license = k;
    product = p;
  }

  pub required_of-Started : (service : t.Node) → Ensures (λ p. Started p.0) (required_of t service)
  unfolding required_of
  required_of-Started service =
      let Q : ServiceConfig × t.Node → Type 0 = λ p. Started p.0 in
      bind-Ensures NotEmpty Q _ _ (string service _ _) λ id i.
        bind-Ensures NotEmpty Q _ _ (string service _ _) λ identity_path j.
          bind-Ensures NotEmpty Q _ _ (string service _ _) λ license_path k.
            bind-Ensures NotEmpty Q _ _ (string service _ _) λ product p.
              then-Ensures Q (ltb 65535 (length id)) missing_field _ λ fits.
                bind-Ensures (λ uids. Unit {0}) Q _ _
                  (or_fail-Ensures _ (t.child service (codes "allowed_uids")) missing_field
                    (λ a e. tt))
                  λ uids any.
                    ok-Ensures ConfigError Q
                      (default_config id identity_path license_path product, uids)
                      (default_config-Started id identity_path license_path product i
                        (ground (arith, fits)) j k p)

  key_of-fresh :
      (seen : List Bytes) (item : t.Node)
      → Ensures (λ key. (contains_key key.id seen ≡ false) × IsNamed key) (key_of t seen item)
  unfolding key_of
  key_of-fresh seen item =
      let Q : TrustKeyConfig → Type 0 = λ key. (contains_key key.id seen ≡ false) × IsNamed key in
      then-Ensures Q (not (t.is_table item)) invalid_value _ λ table.
        bind-Ensures NotEmpty Q _ _ (string item _ _) λ id i.
          bind-Ensures NotEmpty Q _ _ (string item _ _) λ path p.
            then-Ensures Q (contains_key id seen) duplicate_key_id _
              λ fresh. ok-Ensures ConfigError Q _ (fresh, (i, p))

  contains_key-cons :
      (key id : Bytes) (seen : List Bytes)
      → contains_key id (key ∷ seen) ≡ false
      → (key ≢ id) × (contains_key id seen ≡ false)
  unfolding contains_key
  contains_key-cons key id seen e = (λ q. ground (arith, bytes_eq_iff key id, e), ground (arith, e))

  pub parse_keys-Keys :
      (seen : List Bytes) (items : List t.Node)
      → Ensures (λ keys. Keys seen keys × (empty keys ≡ empty items)) (parse_keys t seen items)
  unfolding parse_keys
  parse_keys-Keys seen [] = ok-Ensures ConfigError _ [] ((tt, tt, tt), refl)
  parse_keys-Keys seen (item ∷ items) =
      let Q : List TrustKeyConfig → Type 0 = λ keys. Keys seen keys × (empty keys ≡ false) in
      bind-Ensures _ Q _ _ (key_of-fresh seen item) λ key (fresh, named).
        bind-Ensures _ Q _ _ (parse_keys-Keys (key.id ∷ seen) items) λ keys k.
          ok-Ensures ConfigError Q (key ∷ keys) (
            (
              (
                All-to_map (λ id. key.id ≢ id) (λ (k : TrustKeyConfig). k.id) keys
                    (All-map_of _ _ keys (λ x e. (contains_key-cons key.id x.id seen e).0) k.0.1),
                k.0.0,
              ),
              (fresh, All-map_of _ _ keys (λ x e. (contains_key-cons key.id x.id seen e).1) k.0.1),
              (named, k.0.2),
            ),
            refl,
          )
