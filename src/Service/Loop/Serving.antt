-- ===== src/Service/Loop/Serving.antt =====
-- What serving a client leaves behind (service/service.cpp).
use yo_authorize.Service.Connection.Kept.{handle-Keeps}
use yo_authorize.Service.Connection.Invariant.{IsConnection, IsOutcome, handle-IsOutcome}
use yo_authorize.Service.Connection.Keeping.{Holding, Keeps, Keeps?, close_session-sessions}
use yo_authorize.Service.Loop.{
  is_closed, Served, Moment, AuthorizationService, returned, response_written, frame_handled,
  frame_read, serve_loop, serve, read_frame, OpenSsl, Option, EnvelopeBuffers, some, Transport,
  ServiceConfig, List, ServiceError, Connection, new_connection, handle, deadline_after,
  established, Outcome, Status, is_success, transport,
}
use yo_authorize.Tables.{Table}
use yo_authorize.Core.Session.{Session, SessionManager}
use yo_authorize.Prelude.{
  ◌≡◌, Bytes, none, subst, if-lem, refl, ◌∷◌, Result, err, ok, if◌then◌else◌, [], not,
}

module _ {S : Type 0} (base : Table Session) where
  -- The table of sessions is the one from before.
  Restores : Option (Served S) → Type 0
  Restores none = Unit {0}
  Restores (some served) = served.sessions.sessions ≡ base

module _ (o : OpenSsl) (fb : EnvelopeBuffers) {S : Type 0} (t : Transport S)
    (config : ServiceConfig) (base : Table Session) where
  returned-Restores :
      (error : Option ServiceError) (c : Connection) (m : SessionManager) (s : S)
      → Holding base c.session m.sessions
      → Restores base (some (returned o fb t config error c m s))
  unfolding returned Restores
  returned-Restores error c m s h = (close_session-sessions base c m h).0

  -- A round of the loop, from what the connection makes of a frame.
  handled-Restores :
      (continue : Connection → SessionManager → S → Option (Served S)) (now : Moment) (s : S)
      (x : Option Outcome)
      → ((c : Connection) (m : SessionManager) (s : S)
          → IsConnection c
          → Holding base c.session m.sessions
          → Restores base (continue c m s))
      → ((out : Outcome) → x ≡ some out → IsOutcome out)
      → Keeps? base x
      → Restores base (frame_handled o fb t config continue now s x)
  unfolding frame_handled response_written Restores Keeps? Keeps
  handled-Restores continue now s none next i k = tt
  handled-Restores continue now s (some out) next i k = answered (out.result.response)
    where
      going :
          (s : S)
          → Restores base (
              if out.result.closed
              then some (returned o fb t config none out.connection out.sessions (t.close s))
              else continue out.connection out.sessions s)
      going s =
          if-lem (Restores base) (out.result.closed)
            (returned-Restores none out.connection out.sessions (t.close s) k)
            (next out.connection out.sessions s (i out refl).connection k)

      written :
          (x : Option (Status × S)) → Restores base (response_written o fb t config continue out x)
      written none = tt
      written (some (status, s)) =
          if-lem (Restores base) (not (is_success status))
            (returned-Restores (some transport) out.connection out.sessions s k) (going s)

      answered :
          (x : Option Bytes)
          → Restores base (elim x as (λ z. Option (Served S)) [
            | none ↦
                if out.result.closed
                then some (returned o fb t config none out.connection out.sessions (t.close s))
                else continue out.connection out.sessions s
            | some bytes ↦
                response_written o fb t config continue out
                  (t.write_all (deadline_after now.write_now config.io_timeout_ms) bytes s)
          ])
      answered none = going s
      answered (some bytes) = written _

  serve_loop-Restores :
      (moments : List Moment) (c : Connection) (m : SessionManager) (s : S)
      → IsConnection c
      → Holding base c.session m.sessions
      → Restores base (serve_loop o fb t config moments c m s)
  unfolding serve_loop frame_read Restores
  serve_loop-Restores [] c m s i h =
      if-lem (Restores base) (is_closed c) (returned-Restores none c m (t.close s) h) tt
  serve_loop-Restores (now ∷ moments) c m s i h =
      if-lem (Restores base) (is_closed c) (returned-Restores none c m (t.close s) h) (
        read_case
          (read_frame t
            (deadline_after now.read_now
              (if established c then config.idle_timeout_ms else config.handshake_timeout_ms))
            s)
          (serve_loop-Restores moments))
    where
      read_case :
          (x : Option (Result ServiceError Bytes × S))
          → ((c : Connection) (m : SessionManager) (s : S)
              → IsConnection c
              → Holding base c.session m.sessions
              → Restores base (serve_loop o fb t config moments c m s))
          → Restores base (frame_read o fb t config (serve_loop o fb t config moments) now c m x)
      read_case none next = tt
      read_case (some (err e, s)) next = returned-Restores (some e) c m s h
      read_case (some (ok frame, s)) next =
          handled-Restores (serve_loop o fb t config moments) now s
            (handle o fb c m frame now.monotonic_ms now.unix_seconds now.draws) next
            (λ out e.
              handle-IsOutcome o fb c m frame now.monotonic_ms now.unix_seconds now.draws i e)
            (handle-Keeps o fb base c m frame now.monotonic_ms now.unix_seconds now.draws i h)

module _ (o : OpenSsl) (fb : EnvelopeBuffers) {S : Type 0} (t : Transport S) where
  -- However serving a client ends, by a closed connection, a frame that cannot be read or a
  -- response that cannot be written, the session table is the one from before the client came.
  pub serve-sessions :
      (moments : List Moment) (service : AuthorizationService) (peer_identity : Bytes) (s : S)
      {served : Served S}
      → serve o fb t moments service peer_identity s ≡ some served
      → served.sessions.sessions ≡ service.sessions.sessions
  unfolding serve Restores
  serve-sessions moments service peer_identity s e = subst (Restores service.sessions.sessions) e (
      serve_loop-Restores o fb t service.config service.sessions.sessions moments
        (new_connection service.keys.identity_key_id service.keys.identity_private_key
          service.license peer_identity service.config.heartbeat_interval_ms
          service.config.heartbeat_timeout_ms)
        service.sessions s (record { holds = refl }) refl)
