-- ===== src/Service/Config/Sound.antt =====
-- `loadConfig` (service/config.cpp).
use yo_authorize.Service.Config.Document.{service_of, machine_of, load_config}
use mathlib.Core.Option
use mathlib.Core.List
use yo_authorize.Prelude.Ensures.{
  Ensures, bind-Ensures, or_fail-Ensures, any-Ensures, ensured, then-Ensures, ok-Ensures,
}
use yo_authorize.Service.Config.{
  Toml, ServiceConfig, TrustKeyConfig, ConfigError, parse_ids, invalid_value, missing_field,
  optional_string, required_table, io,
}
use yo_authorize.Prelude.{
  ◌≤◌, ◌≡◌, or_fail, subst, List, Distinct, All, false, [], empty, length, ok, not, codes, sym,
  Bool, ◌∙◌, Result,
}
use yo_authorize.Prelude.Words.{IsU32}
use mathlib.Core.Option.{map}
use yo_authorize.Service.Config.Bounds.{
  IsTimed, SameStrings, IsIds, integers_of-IsTimed, parse_ids-IsIds, gids_of-IsIds,
}
use yo_authorize.Service.Config.Keys.{Started, Keys, IsNamed, required_of-Started, parse_keys-Keys}

-- What a configuration that is accepted satisfies.
pub record IsConfig (config : ServiceConfig) : Type 0 where
  pub timed : IsTimed config
  pub key_id : (empty config.identity_key_id ≡ false) × (length config.identity_key_id ≤ 65535)
  pub identity_path : empty config.identity_private_key_path ≡ false
  pub license : empty config.license_path ≡ false
  pub product : empty config.product_id ≡ false
  pub some_uid : empty config.allowed_uids ≡ false
  pub uids : Distinct config.allowed_uids × All IsU32 config.allowed_uids
  pub gids : Distinct config.allowed_gids × All IsU32 config.allowed_gids
  pub some_key : empty config.license_keys ≡ false
  pub keys : Distinct (List.map (λ (k : TrustKeyConfig). k.id) config.license_keys)
  pub named : All IsNamed config.license_keys

module _ (t : Toml) where
  service_of-IsConfig :
      (service : t.Node) (items : List t.Node) (document uids : t.Node) (config : ServiceConfig)
      → empty items ≡ false
      → Started config
      → Ensures IsConfig (service_of t service items document (config, uids))
  unfolding service_of
  service_of-IsConfig service items document uids config some_item start =
      bind-Ensures (λ socket. Unit {0}) IsConfig _ _
        (any-Ensures (optional_string t service (codes "socket") config.socket_path))
        λ socket x.
          bind-Ensures (IsIds) IsConfig _ _
            (or_fail-Ensures (IsIds) (parse_ids t uids) invalid_value
              (λ ids e. parse_ids-IsIds t uids e))
            λ ids i. then-Ensures IsConfig (empty ids) invalid_value _ λ nonempty.
              bind-Ensures (IsIds) IsConfig _ _
                (gids_of-IsIds t (t.child service (codes "allowed_gids")))
                λ gids g.
                  bind-Ensures (λ c. IsTimed c × SameStrings config c) IsConfig _ _
                    (integers_of-IsTimed t service config start.timed)
                    λ integers n.
                      bind-Ensures (λ machine. Unit {0}) IsConfig _ _
                        (any-Ensures
                          (machine_of t (required_table t document (codes "machine_identity"))))
                        λ machine y.
                          bind-Ensures (λ keys. Keys [] keys × (empty keys ≡ empty items)) IsConfig
                            _ _ (parse_keys-Keys t [] items)
                            λ keys k. ok-Ensures ConfigError IsConfig _ (record {
                              timed = record {
                                mode = n.0.mode;
                                backlog = n.0.backlog;
                                connections = n.0.connections;
                                handshake = n.0.handshake;
                                io = n.0.io;
                                idle = n.0.idle;
                                interval = n.0.interval;
                                timeout = n.0.timeout;
                                slower = n.0.slower;
                              };
                              key_id =
                                  subst (λ id. (empty id ≡ false) × (length id ≤ 65535)) (sym n.1.0)
                                    start.key_id;
                              product = subst (λ id. empty id ≡ false) (sym n.1.3) start.product;
                              identity_path =
                                  subst (λ path. empty path ≡ false) (sym n.1.1)
                                    start.identity_path;
                              license =
                                  subst (λ path. empty path ≡ false) (sym n.1.2) start.license;
                              some_uid = nonempty;
                              uids = i;
                              gids = g;
                              some_key = k.1 ∙ some_item;
                              keys = k.0.0;
                              named = k.0.2;
                            })

  load_config-Ensures :
      (is_regular : Bool) (parsed : Result ConfigError t.Node)
      → Ensures IsConfig (load_config t is_regular parsed)
  unfolding load_config
  load_config-Ensures is_regular parsed = then-Ensures IsConfig (not is_regular) io _ λ regular.
      bind-Ensures (λ document. Unit {0}) IsConfig _ _ (any-Ensures parsed)
        λ document x.
          bind-Ensures (λ service. Unit {0}) IsConfig _ _
            (any-Ensures (or_fail (required_table t document (codes "service")) missing_field))
            λ service y.
              bind-Ensures (λ keys. Unit {0}) IsConfig _ _
                (any-Ensures (
                  or_fail (Option.bind (t.child document (codes "license_keys")) t.as_array)
                    missing_field))
                λ items z. then-Ensures IsConfig (empty items) missing_field _ λ some_item.
                  bind-Ensures (λ p. Started p.0) IsConfig _ _ (required_of-Started t service)
                    λ required r.
                      service_of-IsConfig service items document required.1 required.0 some_item r

  -- A configuration that `loadConfig` accepts has every integer within its limits and a heartbeat
  -- timeout above the interval, an id of the identity key, a path of it and of the licence and a
  -- product that are not empty, the id at most 65535 bytes long, user and group ids of 32 bits
  -- without repetition and at least one user, and at least one licence key, each with an id and a
  -- path that are not empty, no two of one id.
  pub load_config-IsConfig :
      (is_regular : Bool) (parsed : Result ConfigError t.Node) {config : ServiceConfig}
      → load_config t is_regular parsed ≡ ok config
      → IsConfig config
  load_config-IsConfig is_regular parsed e =
      ensured IsConfig (load_config t is_regular parsed) (load_config-Ensures is_regular parsed) e
