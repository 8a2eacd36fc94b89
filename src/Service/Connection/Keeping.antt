-- ===== src/Service/Connection/Keeping.antt =====
-- What one connection does to the table of sessions that all share (service/connection.cpp).
use yo_authorize.Service.Connection.{
  Connection, some, Outcome, ConnectionError, close_session, SessionManager, dropped, Session,
  released, ErrorCode,
}
use yo_authorize.Prelude.{
  ◌≡◌, Option, Bytes, Result, refl, err, ok, none, ap, ◌==◌, ◌||◌, ℕ, ◌∙◌, if-lem, ◌∷◌,
  bytes_eq_refl, arith, List, empty, leb, [],
}
use yo_authorize.Core.Session.{add_session, create, draw_id}
use yo_authorize.Core.Session.Invariant.{draw_id-fresh}
use yo_authorize.Core.Session
use yo_authorize.Tables
use yo_authorize.Tables.{Table}

-- Beside the sessions of others, the table has the connection's own and nothing more.
abbrev pub Holding : Table Session → Option Session → Table Session → Type 0
Holding base none t = t ≡ base
Holding base (some s) t = (Tables.find s.id base ≡ none) × (v : Session) × (t ≡ (s.id, v) ∷ base)

unfoldable pub Keeps : Table Session → Outcome → Type 0
Keeps base out = Holding base out.connection.session out.sessions.sessions

unfoldable pub Keeps? : Table Session → Option Outcome → Type 0
unfolding Keeps
Keeps? base none = Unit {0}
Keeps? base (some out) = Keeps base out

pub find_own : (k : Bytes) (v : Session) (t : Table Session) → Tables.find k ((k, v) ∷ t) ≡ some v
unfolding Tables.find
find_own k v t = rw (bytes_eq_refl k)

pub erase_own : (k : Bytes) (v : Session) (t : Table Session) → Tables.erase k ((k, v) ∷ t) ≡ t
unfolding Tables.erase
erase_own k v t = rw (bytes_eq_refl k)

pub update_own :
    (k : Bytes) (v w : Session) (t : Table Session) → Tables.update k w ((k, v) ∷ t) ≡ (k, w) ∷ t
unfolding Tables.update
update_own k v w t = rw (bytes_eq_refl k)

-- A heartbeat of the connection's own session.
pub beaten_lem :
    (base : Table Session) (s v : Session) (now : ℕ)
    → Session.heartbeat (record { sessions = (s.id, v) ∷ base }) s.id now
      ≡ (ok tt, record { sessions = (s.id, record v { last_heartbeat_ms = now }) ∷ base })
unfolding Session.heartbeat
beaten_lem base s v now =
    ground
      (arith, find_own s.id v base, update_own s.id v (record v { last_heartbeat_ms = now }) base)

pub heartbeat-Holding :
    (base : Table Session) (s : Session) (m : SessionManager) (now : ℕ)
    → Holding base (some s) m.sessions
    → Holding base (some s) (Session.heartbeat m s.id now).1.sessions
heartbeat-Holding base s m now (free, v, e) = (
  free,
  record v { last_heartbeat_ms = now },
  ap (λ (t : Table Session). (Session.heartbeat (record { sessions = t }) s.id now).1.sessions) e
      ∙ ap (λ x. x.1.sessions) (beaten_lem base s v now),
)

pub released-sessions :
    (base : Table Session) (c : Connection) (m : SessionManager) (x : Option Session)
    → Holding base x m.sessions
    → c.session ≡ x
    → ((released c m x).1.sessions ≡ base) × ((released c m x).0.session ≡ none)
unfolding released Session.close
released-sessions base c m none h e = (h, e)
released-sessions base c m (some s) (free, v, h) e =
    (ap (Tables.erase s.id) h ∙ erase_own s.id v base, refl)

-- `closeSession` gives the table back as it was.
pub close_session-sessions :
    (base : Table Session) (c : Connection) (m : SessionManager)
    → Holding base c.session m.sessions
    → ((close_session c m).1.sessions ≡ base) × ((close_session c m).0.session ≡ none)
unfolding close_session
close_session-sessions base c m h = released-sessions base c m c.session h refl

pub none-Holding :
    (base : Table Session) (s : Option Session) (t : Table Session)
    → (t ≡ base) × (s ≡ none)
    → Holding base s t
none-Holding base none t (e, f) = e
none-Holding base (some s) t (e, f) = absurd (cc)

pub dropped-Keeps :
    (base : Table Session) (e : ConnectionError) (c : Connection) (m : SessionManager)
    → Holding base c.session m.sessions
    → Keeps base (dropped e c m)
unfolding Keeps
dropped-Keeps base e c m h =
    none-Holding base (close_session c m).0.session (close_session c m).1.sessions
      (close_session-sessions base c m h)

-- What `create` does to the table: nothing, or one session more, under an identifier of its own.
unfoldable pub Created :
    SessionManager → Option (Result ErrorCode Session × SessionManager) → Type 0
Created m none = Unit {0}
Created m (some (err e, m')) = m'.sessions ≡ m.sessions
Created m (some (ok s, m')) =
    (Tables.find s.id m.sessions ≡ none) × (m'.sessions ≡ (s.id, s) ∷ m.sessions)

pub create-Created :
    (m : SessionManager) (product peer : Bytes) (features : List Bytes) (expire now limit : ℕ)
    (draws : List (Option Bytes))
    → Created m (Session.create m product peer features expire now limit draws)
unfolding Session.create add_session Created
create-Created m product peer features expire now limit draws =
    if-lem (Created m) (empty product || empty peer || limit == 0) refl (
      if-lem (Created m) (leb limit (Session.active product m.sessions)) refl (
        added
          (record {
            id = [];
            product_id = product;
            peer_identity = peer;
            features = features;
            expire_time = expire;
            last_heartbeat_ms = now;
          })
          (draw_id m.sessions draws) refl))
  where
    added :
        (s : Session) (x : Option (Result ErrorCode Bytes))
        → draw_id m.sessions draws ≡ x
        → Created m (add_session m s x)
    added s none e = tt
    added s (some (err x)) e = refl
    added s (some (ok id)) e = (draw_id-fresh m.sessions draws id e, refl)
