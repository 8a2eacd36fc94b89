-- ===== src/Core/Session/Invariant.antt =====
-- Histories of calls of a session manager (core/session.cpp).
use yo_authorize.Prelude.{
  ℕ, [], ◌∷◌, some, none, Bytes, ◌≤◌, List, Option, ◌≡◌, arith, ◌<◌, Result, Bool, ok, Bool-cases,
  Option-cases, All, bytes_eq_iff, inl, empty, inr, ◌||◌, refl, ◌==◌, leb,
}
use yo_authorize.Tables
use yo_authorize.Tables.{Table, IsTable}
use yo_authorize.Core.Session.{
  SessionManager, active, create, List, Option, heartbeat, draw_id, Session, add_session, Result,
  close, random_bytes, Bool, ErrorCode, expire_inactive, ok, inactive, err, empty_manager, empty,
  leb,
}
use yo_authorize.Crypto.{random_bytes}
use yo_authorize.Core.Status.{ErrorCode}

pub data Call : Type 0 where
  creates : Bytes → Bytes → List Bytes → ℕ → ℕ → ℕ → List (Option Bytes) → Call
  heartbeats : Bytes → ℕ → Call
  closes : Bytes → Call
  expires : ℕ → ℕ → Call

-- A `create` that is still drawing has not changed the table.
abbrev after_create :
    SessionManager → Option (Result ErrorCode Session × SessionManager) → SessionManager
after_create m none = m
after_create m (some (r, m')) = m'

pub step : SessionManager → Call → SessionManager
step m (creates product_id peer features expire_time now max_sessions draws) =
    after_create m (create m product_id peer features expire_time now max_sessions draws)
step m (heartbeats id now) = (heartbeat m id now).1
step m (closes id) = (close m id).1
step m (expires now timeout) = (expire_inactive m now timeout).1

pub run : SessionManager → List Call → SessionManager
run m [] = m
run m (c ∷ cs) = run (step m c) cs

pub draw_id-fresh :
    (t : Table Session) (draws : List (Option Bytes)) (id : Bytes)
    → draw_id t draws ≡ some (ok id)
    → Tables.find id t ≡ none
unfolding draw_id random_bytes
draw_id-fresh t [] id e = cc
draw_id-fresh t (none ∷ draws) id e = ground arith
draw_id-fresh t (some d ∷ draws) id e = ground (arith, draw_id-fresh t draws id)

active-update :
    (p k : Bytes) (now : ℕ) (s : Session) (t : Table Session)
    → Tables.find k t ≡ some s
    → active p (Tables.update k (record s { last_heartbeat_ms = now }) t) ≡ active p t
unfolding active Tables.find Tables.update
active-update p k now s [] e = cc
active-update p k now s ((i, w) ∷ t) e = ground (arith, active-update p k now s t)

active-erase : (p k : Bytes) (t : Table Session) → active p (Tables.erase k t) ≤ active p t
unfolding active Tables.erase
active-erase p k [] = omega arith
active-erase p k ((i, w) ∷ t) = ground (arith, active-erase p k t)

active-erase_if :
    (p : Bytes) (test : Session → Bool) (t : Table Session)
    → active p (Tables.erase_if test t) ≤ active p t
unfolding active Tables.erase_if
active-erase_if p test [] = omega arith
active-erase_if p test ((i, w) ∷ t) = ground (arith, active-erase_if p test t)

-- Each identifier stands once, and the sessions of each product are within its limit.
pub record IsManager (limit : Bytes → ℕ) (m : SessionManager) : Type 0 where
  pub distinct : IsTable m.sessions
  pub within : (p : Bytes) → active p m.sessions ≤ limit p

-- The licence of a product is asked with the limit of that product.
abbrev pub Allows : (Bytes → ℕ) → Call → Type 0
Allows limit (creates product_id peer features expire_time now max_sessions draws) =
    max_sessions ≤ limit product_id
Allows limit (heartbeats id now) = Unit {0}
Allows limit (closes id) = Unit {0}
Allows limit (expires now timeout) = Unit {0}

add_session-IsManager :
    (limit : Bytes → ℕ) (m : SessionManager) (s : Session)
    → IsManager limit m
    → active s.product_id m.sessions < limit s.product_id
    → (r : Option (Result ErrorCode Bytes))
    → ((id : Bytes) → r ≡ some (ok id) → Tables.find id m.sessions ≡ none)
    → IsManager limit (after_create m (add_session m s r))
unfolding add_session active
add_session-IsManager limit m s v room none fresh = v
add_session-IsManager limit m s v room (some (err e)) fresh = v
add_session-IsManager limit m s v room (some (ok id)) fresh = record {
  distinct = (fresh id refl, v.distinct);
  within = λ p. ground (arith, v.within p, bytes_eq_iff s.product_id p);
}

create-IsManager :
    (limit : Bytes → ℕ) (m : SessionManager) (p peer : Bytes) (features : List Bytes)
    (expire_time now max_sessions : ℕ) (draws : List (Option Bytes))
    → max_sessions ≤ limit p
    → IsManager limit m
    → IsManager limit (after_create m (create m p peer features expire_time now max_sessions draws))
unfolding create
create-IsManager limit m p peer features expire_time now max_sessions draws a v =
    elim (Bool-cases (empty p || empty peer || max_sessions == 0)) [
      | inl bad ↦ rw bad v
      | inr good ↦ elim (Bool-cases (leb max_sessions (active p m.sessions))) [
        | inl full ↦ rw (good, full) v
        | inr room ↦
            rw (good, room)
              (add_session-IsManager limit m _ v (ground arith) (draw_id m.sessions draws)
                (draw_id-fresh m.sessions draws))
      ]
    ]

heartbeat-IsManager :
    (limit : Bytes → ℕ) (m : SessionManager) (id : Bytes) (now : ℕ)
    → IsManager limit m
    → IsManager limit (heartbeat m id now).1
unfolding heartbeat
heartbeat-IsManager limit m id now v = elim (Option-cases (Tables.find id m.sessions)) [
  | inl gone ↦ rw (gone, heartbeat) v
  | inr (s, found) ↦
      rw (found, heartbeat)
        (record {
          distinct =
              Tables.update-IsTable id (record s { last_heartbeat_ms = now }) m.sessions v.distinct;
          within = λ p. rw (active-update p id now s m.sessions found) (v.within p);
        })
]

step-IsManager :
    (limit : Bytes → ℕ) (m : SessionManager) (c : Call)
    → Allows limit c
    → IsManager limit m
    → IsManager limit (step m c)
unfolding step close expire_inactive
step-IsManager limit m (creates p peer features expire_time now max_sessions draws) a v =
    create-IsManager limit m p peer features expire_time now max_sessions draws a v
step-IsManager limit m (heartbeats id now) a v = heartbeat-IsManager limit m id now v
step-IsManager limit m (closes id) a v = record {
  distinct = Tables.erase-IsTable id m.sessions v.distinct;
  within = λ p. omega (arith, active-erase p id m.sessions, v.within p);
}
step-IsManager limit m (expires now timeout) a v = record {
  distinct = Tables.erase_if-IsTable (inactive now timeout) m.sessions v.distinct;
  within = λ p. omega (arith, active-erase_if p (inactive now timeout) m.sessions, v.within p);
}

pub run-IsManager :
    (limit : Bytes → ℕ) (m : SessionManager) (cs : List Call)
    → All (Allows limit) cs
    → IsManager limit m
    → IsManager limit (run m cs)
unfolding run
run-IsManager limit m [] a v = v
run-IsManager limit m (c ∷ cs) a v =
    run-IsManager limit (step m c) cs a.1 (step-IsManager limit m c a.0 v)

-- After any calls on an empty manager in which each product is asked for with its own limit, the
-- identifiers are distinct and no product has more sessions than its limit.
pub run-empty-IsManager :
    (limit : Bytes → ℕ) (cs : List Call)
    → All (Allows limit) cs
    → IsManager limit (run empty_manager cs)
unfolding empty_manager active
run-empty-IsManager limit cs a =
    run-IsManager limit empty_manager cs a (record { distinct = tt; within = λ p. omega arith })
