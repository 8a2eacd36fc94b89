-- ===== src/Core/Session/Drawing.antt =====
-- `SessionManager::create` and its loop of draws (core/session.cpp).
use yo_authorize.Prelude.{
  ℕ, [], ◌∷◌, some, none, List, Bytes, Bool, if◌then◌else◌, ◌≡◌, ◌≢◌, All, Distinct, false, true,
  bytes_eq, length, arith, ◌≤◌, ap, ◌<◌, ◌||◌, ◌+◌, bytes_eq_iff, suc, map, ok, refl, Option-cases,
  Result, inl, inr, Option, ◌∙◌, err, empty, ◌==◌, leb, Bool-cases, ◌++◌,
}
use yo_authorize.Tables
use yo_authorize.Tables.{Table}
use yo_authorize.Core.Session.{
  Session, bytes_eq, length, draw_id, random_bytes, ok, Result, create, ErrorCode, add_session,
  SessionManager, active, Option, err, empty, invalid_license, leb, session_limit_exceeded,
  internal_error,
}
use yo_authorize.Crypto.{random_bytes}
use yo_authorize.Core.Status.{ErrorCode, invalid_license, session_limit_exceeded, internal_error}

abbrev keys {ℓ} : {V : Type ℓ} → Tables.Table V → List Bytes
keys [] = []
keys ((k, v) ∷ t) = k ∷ keys t

abbrev mem : Bytes → List Bytes → Bool
mem x [] = false
mem x (y ∷ ys) = bytes_eq y x || mem x ys

without : Bytes → List Bytes → List Bytes
without x [] = []
without x (y ∷ ys) = if bytes_eq y x then ys else y ∷ without x ys

length-without :
    (x : Bytes) (ys : List Bytes) → mem x ys ≡ true → length (without x ys) + 1 ≡ length ys
unfolding without
length-without x [] h = cc
length-without x (y ∷ ys) h = ground (arith, length-without x ys)

mem-without :
    (x z : Bytes) (ys : List Bytes) → x ≢ z → mem z ys ≡ true → mem z (without x ys) ≡ true
unfolding without
mem-without x z [] n h = h
mem-without x z (y ∷ ys) n h =
    ground (arith, mem-without x z ys n, bytes_eq_iff y x, bytes_eq_iff y z)

All-mem-without :
    (x : Bytes) (ys zs : List Bytes)
    → All (λ z. x ≢ z) zs
    → All (λ z. mem z ys ≡ true) zs
    → All (λ z. mem z (without x ys) ≡ true) zs
All-mem-without x ys [] n h = tt
All-mem-without x ys (z ∷ zs) n h = (mem-without x z ys n.0 h.0, All-mem-without x ys zs n.1 h.1)

-- Distinct values that all stand in a list are no more than the list is long.
pigeonhole :
    (zs ys : List Bytes) → Distinct zs → All (λ z. mem z ys ≡ true) zs → length zs ≤ length ys
pigeonhole [] ys d h = omega arith
pigeonhole (z ∷ zs) ys d h = omega (
  arith,
  length-without z ys h.0,
  pigeonhole zs (without z ys) d.1 (All-mem-without z ys zs d.0 h.1),
)

contains-mem : (t : Table Session) (k : Bytes) → Tables.contains k t ≡ true → mem k (keys t) ≡ true
unfolding Tables.find
contains-mem [] k h = h
contains-mem ((j, s) ∷ t) k h = ground (arith, contains-mem t k)

length-keys : (t : Table Session) → length (keys t) ≡ length t
length-keys [] = refl
length-keys ((j, s) ∷ t) = ap suc (length-keys t)

-- The loop did not end: the generator gave an identifier each time, and each was taken.
draws_taken :
    (t : Table Session) (ids : List Bytes)
    → draw_id t (map some ids) ≡ none
    → All (λ z. mem z (keys t) ≡ true) ids
unfolding draw_id random_bytes
draws_taken t [] h = tt
draws_taken t (id ∷ ids) h = (contains-mem t id (ground arith), draws_taken t ids (ground arith))

draw_id-ok :
    (t : Table Session) (ids : List Bytes) (r : Result ErrorCode Bytes)
    → draw_id t (map some ids) ≡ some r
    → (id : Bytes) × (r ≡ ok id) × (Tables.find id t ≡ none)
unfolding draw_id random_bytes
draw_id-ok t [] r e = cc
draw_id-ok t (id ∷ ids) r e = elim (Option-cases (Tables.find id t)) [
  | inl free ↦ (id, ground (arith, free), free)
  | inr (s, taken) ↦ draw_id-ok t ids r (ground (arith, taken))
]

-- With more distinct draws than there are sessions, the loop ends, with an identifier not in use.
draw_id_total :
    (t : Table Session) (ids : List Bytes)
    → Distinct ids
    → length t < length ids
    → (id : Bytes) × (draw_id t (map some ids) ≡ some (ok id)) × (Tables.find id t ≡ none)
draw_id_total t ids d h = elim (Option-cases (draw_id t (map some ids))) [
  | inl runs ↦
      let short = pigeonhole ids (keys t) d (draws_taken t ids runs) in
      absurd (omega (arith, length-keys t))
  | inr (r, stops) ↦
      let (id, same, free) = draw_id-ok t ids r stops in (id, stops ∙ ap some same, free)
]

-- A request for a named product and peer, with room for one more session, returns: where the
-- generator gives distinct identifiers, more than there are sessions, the session is created under
-- one not in use and stored, and the others stay as they were.
pub create_returns :
    (m : SessionManager) (product_id peer_identity : Bytes) (features : List Bytes)
    (expire_time now max_sessions : ℕ) (ids : List Bytes)
    → 0 < length product_id
    → 0 < length peer_identity
    → active product_id m.sessions < max_sessions
    → Distinct ids
    → length m.sessions < length ids
    → (id : Bytes) × (Tables.find id m.sessions ≡ none)
      × (let s : Session = record {
        id = id;
        product_id = product_id;
        peer_identity = peer_identity;
        features = features;
        expire_time = expire_time;
        last_heartbeat_ms = now;
      } in
          create m product_id peer_identity features expire_time now max_sessions (map some ids)
          ≡ some (ok s, record { sessions = (id, s) ∷ m.sessions }))
unfolding create add_session
create_returns m [] peer features expire_time now max_sessions ids p q room d h =
    absurd (omega arith)
create_returns m (x ∷ xs) [] features expire_time now max_sessions ids p q room d h =
    absurd (omega arith)
create_returns m (x ∷ xs) (y ∷ ys) features expire_time now max_sessions ids p q room d h =
    let (id, drawn, free) = draw_id_total m.sessions ids d h in (id, free, ground (arith, drawn))

-- The generator gave identifiers that were all in use, and then failed.
pub record IsFailing (t : Table Session) (draws : List (Option Bytes)) : Type 0 where
  pub taken : List Bytes
  pub rest : List (Option Bytes)
  pub drawn : draws ≡ map some taken ++ none ∷ rest
  pub in_use : All (λ id. Tables.contains id t ≡ true) taken

IsFailing-cons :
    (t : Table Session) (id : Bytes) (draws : List (Option Bytes))
    → Tables.contains id t ≡ true
    → IsFailing t draws
    → IsFailing t (some id ∷ draws)
IsFailing-cons t id draws h f = record {
  taken = id ∷ f.taken;
  rest = f.rest;
  drawn = ap (λ ds. some id ∷ ds) f.drawn;
  in_use = (h, f.in_use);
}

draw_id-err :
    (t : Table Session) (draws : List (Option Bytes)) (e : ErrorCode)
    → draw_id t draws ≡ some (err e)
    → (e ≡ internal_error) × IsFailing t draws
unfolding draw_id random_bytes
draw_id-err t [] e h = cc
draw_id-err t (none ∷ draws) e h =
    (ground arith, record { taken = []; rest = draws; drawn = refl; in_use = tt })
draw_id-err t (some id ∷ draws) e h = elim (Bool-cases (Tables.contains id t)) [
  | inl taken ↦
      let (same, fails) = draw_id-err t draws e (ground (arith, taken)) in
      (same, IsFailing-cons t id draws taken fails)
  | inr free ↦ absurd (ground (arith, free))
]

add_session-err :
    (m m' : SessionManager) (s : Session) (draws : List (Option Bytes)) (e : ErrorCode)
    (r : Option (Result ErrorCode Bytes))
    → draw_id m.sessions draws ≡ r
    → add_session m s r ≡ some (err e, m')
    → (m' ≡ m) × (e ≡ internal_error) × IsFailing m.sessions draws
unfolding add_session
add_session-err m m' s draws e none p h = cc
add_session-err m m' s draws e (some (err x)) p h =
    let (same, fails) = draw_id-err m.sessions draws x p in
    (ground arith, ground (arith, same), fails)
add_session-err m m' s draws e (some (ok id)) p h = absurd (ground arith)

-- Why a request is refused, and with which error.
pub data Refusal (m : SessionManager) (product_id peer_identity : Bytes) (max_sessions : ℕ)
    (draws : List (Option Bytes)) (e : ErrorCode) : Type 0 where
  nameless :
      (empty product_id || empty peer_identity || max_sessions == 0) ≡ true
      → e ≡ invalid_license
      → Refusal m product_id peer_identity max_sessions draws e
  limited :
      (empty product_id || empty peer_identity || max_sessions == 0) ≡ false
      → max_sessions ≤ active product_id m.sessions
      → e ≡ session_limit_exceeded
      → Refusal m product_id peer_identity max_sessions draws e
  undrawn :
      (empty product_id || empty peer_identity || max_sessions == 0) ≡ false
      → active product_id m.sessions < max_sessions
      → e ≡ internal_error
      → IsFailing m.sessions draws
      → Refusal m product_id peer_identity max_sessions draws e

-- A request that is refused leaves the table alone, and is refused for one of these reasons, each
-- with its error: an empty product or peer or a limit of zero; then a product at its limit; then a
-- generator that fails, after it gave nothing but identifiers in use.
pub create_refused :
    (m m' : SessionManager) (product_id peer_identity : Bytes) (features : List Bytes)
    (expire_time now max_sessions : ℕ) (draws : List (Option Bytes)) (e : ErrorCode)
    → create m product_id peer_identity features expire_time now max_sessions draws
      ≡ some (err e, m')
    → (m' ≡ m) × Refusal m product_id peer_identity max_sessions draws e
unfolding create
create_refused m m' p q features expire_time now max_sessions draws e h =
    elim (Bool-cases (empty p || empty q || max_sessions == 0)) [
      | inl bad ↦ (ground (arith, bad), nameless bad (ground (arith, bad)))
      | inr good ↦ elim (Bool-cases (leb max_sessions (active p m.sessions))) [
        | inl full ↦ (
          ground (arith, good, full),
          limited good (ground (arith, full)) (ground (arith, good, full)),
        )
        | inr room ↦
            let (same, error, fails) =
              add_session-err m m' _ draws e (draw_id m.sessions draws) refl
                (rw (good, room) at h) in
            (same, undrawn good (ground (arith, room)) error fails)
      ]
    ]
