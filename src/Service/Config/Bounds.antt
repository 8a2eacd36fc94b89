-- ===== src/Service/Config/Bounds.antt =====
-- The limits of what `loadConfig` accepts (service/config.cpp).
use yo_authorize.Service.Config.Document.{integers_of}
use mathlib.Core.Option
use yo_authorize.Prelude.Ensures.{Ensures, bind-Ensures, or_fail-Ensures, then-Ensures, ok-Ensures}
use yo_authorize.Service.Config.{
  Toml, ServiceConfig, ConfigError, within, assigned, assign_integer, contains_id, parse_items,
  parse_ids, invalid_value, ℕ, Bytes, ℤ, negsuc, pos, gids_of,
}
use yo_authorize.Prelude.{
  ◌≤◌, arith, ◌<◌, Option, ◌≡◌, or_fail, some, subst, some_injective, none, List, Distinct, All,
  false, ◌∷◌, [], if◌then◌else◌, All-map_of, if-elim, refl, leb,
}
use yo_authorize.Prelude.Words.{IsU32}
use mathlib.Core.Option.{map}

-- The integers within their limits, and a heartbeat's timeout longer than its interval.
pub record IsTimed (config : ServiceConfig) : Type 0 where
  pub mode : config.socket_mode ≤ 511
  pub backlog : (1 ≤ config.backlog) × (config.backlog ≤ 4096)
  pub connections : (1 ≤ config.max_connections) × (config.max_connections ≤ 10000)
  pub handshake : (100 ≤ config.handshake_timeout_ms) × (config.handshake_timeout_ms ≤ 60000)
  pub io : (100 ≤ config.io_timeout_ms) × (config.io_timeout_ms ≤ 60000)
  pub idle : (1000 ≤ config.idle_timeout_ms) × (config.idle_timeout_ms ≤ 3600000)
  pub interval : (1000 ≤ config.heartbeat_interval_ms) × (config.heartbeat_interval_ms ≤ 60000)
  pub timeout : (2000 ≤ config.heartbeat_timeout_ms) × (config.heartbeat_timeout_ms ≤ 300000)
  pub slower : config.heartbeat_interval_ms < config.heartbeat_timeout_ms

abbrev pub Between : ℕ → ℕ → ℕ → Type 0
Between lo hi n = (lo ≤ n) × (n ≤ hi)

within_lem :
    (lo hi : ℕ) (x : Option ℤ) {n : ℕ}
    → hi < 0x1_0000_0000
    → within lo hi x ≡ some n
    → Between lo hi n
unfolding within
within_lem lo hi none b e = absurd (cc)
within_lem lo hi (some (negsuc k)) b e = absurd (cc)
within_lem lo hi (some (pos k)) b e = ground arith

-- What the reading of integers leaves alone.
abbrev pub SameStrings : ServiceConfig → ServiceConfig → Type 0
SameStrings config config' =
    (config'.identity_key_id ≡ config.identity_key_id)
    × (config'.identity_private_key_path ≡ config.identity_private_key_path)
    × (config'.license_path ≡ config.license_path)
    × (config'.product_id ≡ config.product_id)

abbrev pub Ids : List ℕ → Option (List ℕ) → Type 0
Ids unique none = Unit {0}
Ids unique (some ids) = Distinct ids × All (λ x. contains_id x unique ≡ false) ids × All IsU32 ids

abbrev pub IsIds : List ℕ → Type 0
IsIds ids = Distinct ids × All IsU32 ids

module _ (t : Toml) where
  assign_integer_lem :
      (table : t.Node) (key : Bytes) (output lo hi : ℕ) {n : ℕ}
      → hi < 0x1_0000_0000
      → Between lo hi output
      → assign_integer t table key output lo hi ≡ some n
      → Between lo hi n
  unfolding assign_integer
  assign_integer_lem table key output lo hi {n = n} b d e = assigned_case (t.child table key) e
    where
      assigned_case : (x : Option t.Node) → assigned t output lo hi x ≡ some n → Between lo hi n
      assigned_case none e = subst (Between lo hi) (some_injective e) d
      assigned_case (some node) e = within_lem lo hi (t.value_integer node) b e

  integer :
      (table : t.Node) (key : Bytes) (output lo hi : ℕ)
      → hi < 0x1_0000_0000
      → Between lo hi output
      → Ensures (Between lo hi) (or_fail (assign_integer t table key output lo hi) invalid_value)
  integer table key output lo hi b d =
      or_fail-Ensures (Between lo hi) (assign_integer t table key output lo hi) invalid_value
        (λ n e. assign_integer_lem table key output lo hi b d e)

  pub integers_of-IsTimed :
      (service : t.Node) (config : ServiceConfig)
      → IsTimed config
      → Ensures (λ c. IsTimed c × SameStrings config c) (integers_of t service config)
  unfolding integers_of
  integers_of-IsTimed service config d =
      let Q : ServiceConfig → Type 0 = λ c. IsTimed c × SameStrings config c in
      bind-Ensures (Between 0 511) Q _ _
        (integer service _ _ 0 511 (omega arith) (omega arith, d.mode))
        λ mode m.
          bind-Ensures (Between 1 4096) Q _ _ (integer service _ _ 1 4096 (omega arith) d.backlog)
            λ backlog b.
              bind-Ensures (Between 1 10000) Q _ _
                (integer service _ _ 1 10000 (omega arith) d.connections)
                λ connections c.
                  bind-Ensures (Between 100 60000) Q _ _
                    (integer service _ _ 100 60000 (omega arith) d.handshake)
                    λ handshake h.
                      bind-Ensures (Between 100 60000) Q _ _
                        (integer service _ _ 100 60000 (omega arith) d.io)
                        λ io i.
                          bind-Ensures (Between 1000 3600000) Q _ _
                            (integer service _ _ 1000 3600000 (omega arith) d.idle)
                            λ idle l.
                              bind-Ensures (Between 1000 60000) Q _ _
                                (integer service _ _ 1000 60000 (omega arith) d.interval)
                                λ interval v.
                                  bind-Ensures (Between 2000 300000) Q _ _
                                    (integer service _ _ 2000 300000 (omega arith) d.timeout)
                                    λ timeout w.
                                      then-Ensures Q (leb timeout interval) invalid_value _
                                        λ slower. ok-Ensures ConfigError Q _ (
                                          record {
                                            mode = m.1;
                                            backlog = b;
                                            connections = c;
                                            handshake = h;
                                            io = i;
                                            idle = l;
                                            interval = v;
                                            timeout = w;
                                            slower = ground (arith, slower);
                                          },
                                          (refl, refl, refl, refl),
                                        )

  -- Ids of 32 bits, no two the same, and none of those before.
  id_added :
      (unique : List ℕ) (id : ℕ) (x : Option (List ℕ))
      → contains_id id unique ≡ false
      → IsU32 id
      → Ids (id ∷ unique) x
      → Ids unique (Option.map (◌∷◌ id) x)
  unfolding contains_id
  id_added unique id none f b h = tt
  id_added unique id (some ids) f b h = (
    (All-map_of _ _ ids (λ x e. ground arith) h.1, h.0),
    (f, All-map_of _ _ ids (λ x e. ground arith) h.1),
    (b, h.2),
  )

  parse_items-Ids :
      (unique : List ℕ) (items : List t.Node) → Ids unique (parse_items t unique items)
  unfolding parse_items
  parse_items-Ids unique [] = (tt, tt, tt)
  parse_items-Ids unique (item ∷ items) =
      valued (within 0 0xffff_ffff (t.value_integer item)) refl
        (λ id. parse_items-Ids (id ∷ unique) items)
    where
      valued :
          (x : Option ℕ)
          → within 0 0xffff_ffff (t.value_integer item) ≡ x
          → ((id : ℕ) → Ids (id ∷ unique) (parse_items t (id ∷ unique) items))
          → Ids unique (elim x as (λ z. Option (List ℕ)) [
            | none ↦ none
            | some id ↦
                if contains_id id unique
                then none
                else Option.map (◌∷◌ id) (parse_items t (id ∷ unique) items)
          ])
      valued none e rest = tt
      valued (some id) e rest =
          if-elim (Ids unique) (contains_id id unique) (λ c. tt)
            (λ c.
              id_added unique id (parse_items t (id ∷ unique) items) c
                (omega (arith, (within_lem 0 0xffff_ffff (t.value_integer item) (omega arith) e).1))
                (rest id))

  pub parse_ids-IsIds : (node : t.Node) {ids : List ℕ} → parse_ids t node ≡ some ids → IsIds ids
  unfolding parse_ids Option.bind
  parse_ids-IsIds node {ids = ids} e = listed (t.as_array node) e
    where
      listed : (x : Option (List t.Node)) → Option.bind x (parse_items t []) ≡ some ids → IsIds ids
      listed none e = absurd (cc)
      listed (some items) e =
          let h : Ids [] (some ids) = subst (Ids []) e (parse_items-Ids [] items) in (h.0, h.2)

  pub gids_of-IsIds : (x : Option t.Node) → Ensures IsIds (gids_of t x)
  unfolding gids_of
  gids_of-IsIds none = ok-Ensures ConfigError IsIds [] (tt, tt)
  gids_of-IsIds (some node) =
      or_fail-Ensures IsIds (parse_ids t node) invalid_value (λ ids e. parse_ids-IsIds node e)
