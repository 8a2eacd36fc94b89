-- ===== src/Core/Session.antt =====
-- The table of sessions (core/session.h, session.cpp). Its mutex makes each call one step; the hash
-- of the table does not show. Random identifiers are drawn from a list, `none` where the generator
-- fails.
pub mod Invariant
pub mod Drawing
pub mod Calls
use yo_authorize.Prelude.{
  ℕ, [], ◌∷◌, none, some, ok, err, List, Option, Bytes, ◌+◌, Result, Bool, length, if◌then◌else◌,
  leb, ◌-◌, bytes_eq, empty, ◌&&◌, ◌||◌, ◌==◌,
}
use yo_authorize.Core.Status.{
  ErrorCode, invalid_license, session_limit_exceeded, internal_error, invalid_session,
}
use yo_authorize.Tables
use yo_authorize.Tables.{Table}
use yo_authorize.Crypto.{random_bytes}

pub record Session : Type 0 where
  pub id : Bytes
  pub product_id : Bytes
  pub peer_identity : Bytes
  pub features : List Bytes
  pub expire_time : ℕ
  pub last_heartbeat_ms : ℕ

pub record SessionManager : Type 0 where
  pub sessions : Table Session

abbrev session_id_size : ℕ
session_id_size = 16

unfoldable pub empty_manager : SessionManager
empty_manager = record { sessions = [] }

-- `count_if` over the sessions of one product.
unfoldable pub active : Bytes → Table Session → ℕ
active product_id [] = 0
active product_id ((id, s) ∷ rest) =
    active product_id rest + (if bytes_eq s.product_id product_id then 1 else 0)

-- `do … while (sessions_.contains(session.id))`; `none` where the draws end before the loop does.
unfoldable pub draw_id : Table Session → List (Option Bytes) → Option (Result ErrorCode Bytes)
draw_id sessions [] = none
draw_id sessions (draw ∷ draws) =
    let again = draw_id sessions draws in
    elim (random_bytes session_id_size draw) [
      | err e ↦ some (err internal_error)
      | ok id ↦ if Tables.contains id sessions then again else some (ok id)
    ]

unfoldable pub add_session :
    SessionManager
    → Session
    → Option (Result ErrorCode Bytes)
    → Option (Result ErrorCode Session × SessionManager)
add_session m session none = none
add_session m session (some (err e)) = some (err e, m)
add_session m session (some (ok id)) =
    let s = record session { id = id } in some (ok s, record { sessions = (id, s) ∷ m.sessions })

unfoldable pub create :
    SessionManager
    → Bytes
    → Bytes
    → List Bytes
    → ℕ
    → ℕ
    → ℕ
    → List (Option Bytes)
    → Option (Result ErrorCode Session × SessionManager)
create m product_id peer_identity features expire_time now_monotonic_ms max_sessions draws =
    if empty product_id || empty peer_identity || max_sessions == 0
    then some (err invalid_license, m)
    else if leb max_sessions (active product_id m.sessions)
    then some (err session_limit_exceeded, m)
    else add_session m
        (record {
          id = [];
          product_id = product_id;
          peer_identity = peer_identity;
          features = features;
          expire_time = expire_time;
          last_heartbeat_ms = now_monotonic_ms;
        })
        (draw_id m.sessions draws)

-- `ok tt` is `ErrorCode::None`.
unfoldable pub heartbeat : SessionManager → Bytes → ℕ → Result ErrorCode (Unit {0}) × SessionManager
heartbeat m id now_monotonic_ms = elim (Tables.find id m.sessions) [
  | none ↦ (err invalid_session, m)
  | some s ↦ (
    ok tt,
    record {
      sessions = Tables.update id (record s { last_heartbeat_ms = now_monotonic_ms }) m.sessions;
    },
  )
]

unfoldable pub close : SessionManager → Bytes → Bool × SessionManager
close m id = (Tables.contains id m.sessions, record { sessions = Tables.erase id m.sessions })

unfoldable pub inactive : ℕ → ℕ → Session → Bool
inactive now_monotonic_ms timeout_ms s =
    leb s.last_heartbeat_ms now_monotonic_ms
    && leb timeout_ms (now_monotonic_ms - s.last_heartbeat_ms)

unfoldable pub expire_inactive : SessionManager → ℕ → ℕ → ℕ × SessionManager
expire_inactive m now_monotonic_ms timeout_ms =
    let kept = Tables.erase_if (inactive now_monotonic_ms timeout_ms) m.sessions in
    (length m.sessions - length kept, record { sessions = kept })

unfoldable pub size : SessionManager → ℕ
size m = length m.sessions
