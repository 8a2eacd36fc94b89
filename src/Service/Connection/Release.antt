-- ===== src/Service/Connection/Release.antt =====
-- What closing a connection leaves in the session manager (service/connection.cpp).
use yo_authorize.Core.Session
use yo_authorize.Core.Session.{SessionManager, Session}
use yo_authorize.Tables
use yo_authorize.Tables.{IsTable, update-IsTable}
use yo_authorize.Service.Connection.{
  Connection, Outcome, active, closed, close_session, released, Bytes, Option, OpenSsl,
  EnvelopeBuffers, response_sealed, RecordError, ServerHandshake, Draws, encrypted_response,
  open_server, dropped, MessageError, HeartbeatMessage, ErrorCode, expired_at, CloseSessionMessage,
  decode_close_session, decode_heartbeat, seal_server, invalid_message,
}
use yo_authorize.Prelude.{
  ◌≡◌, ℕ, none, some, Option-cases, subst, inl, sym, Result, err, refl, ◌∙◌, ok, arith, false, true,
  inr, bytes_eq_refl, ap, Bool, if-lem, not, ◌==◌, ◌||◌, bytes_eq,
}
use yo_authorize.Service.Connection.Active.{
  handle_active, heartbeat_decoded, heartbeat_of, beaten, acknowledge, ack_encoded, close_decoded,
}
use yo_authorize.Service.Connection.Handling.{handle, handle_in, record_opened}
use yo_authorize.Core.Session.Calls.{close_lem}

heartbeat-IsTable :
    (m : SessionManager) (id : Bytes) (now : ℕ)
    → IsTable m.sessions
    → IsTable (Session.heartbeat m id now).1.sessions
unfolding Session.heartbeat
heartbeat-IsTable m id now t = elim (Option-cases (Tables.find id m.sessions)) [
  | inl e ↦ ground (arith, e)
  | inr (s, e) ↦
      ground (arith, e, update-IsTable id (record s { last_heartbeat_ms = now }) m.sessions t)
]

-- The session is gone where the connection is closed.
Gone : Session → Outcome → Type 0
Gone s out = out.connection.state ≡ closed → Tables.find s.id out.sessions.sessions ≡ none

Gone? : Session → Option Outcome → Type 0
Gone? s none = Unit {0}
Gone? s (some out) = Gone s out

close_session-find :
    (s : Session) (c : Connection) (m : SessionManager)
    → IsTable m.sessions
    → c.session ≡ some s
    → Tables.find s.id (close_session c m).1.sessions ≡ none
unfolding close_session released
close_session-find s c m t e =
    subst (λ x. Tables.find s.id (released c m x).1.sessions ≡ none) (sym e)
      ((close_lem m s.id s.id t).0 ∙ ground (arith, bytes_eq_refl s.id))

close_session-absent :
    (s : Session) (c : Connection) (m : SessionManager)
    → c.session ≡ none
    → Tables.find s.id m.sessions ≡ none
    → Tables.find s.id (close_session c m).1.sessions ≡ none
unfolding close_session released
close_session-absent s c m e f =
    subst (λ x. Tables.find s.id (released c m x).1.sessions ≡ none) (sym e) f

close_session-session :
    (s : Session) (c : Connection) (m : SessionManager)
    → c.session ≡ some s
    → (close_session c m).0.session ≡ none
unfolding close_session released
close_session-session s c m e = subst (λ x. (released c m x).0.session ≡ none) (sym e) refl

module _ (o : OpenSsl) (fb : EnvelopeBuffers) (s : Session) where
  open_response-Gone :
      (c : Connection) (m : SessionManager) (x : Result RecordError Bytes × ServerHandshake)
      → IsTable m.sessions
      → c.session ≡ some s
      → c.state ≡ active
      → Gone s (response_sealed o fb c m false x)
  unfolding Gone response_sealed
  open_response-Gone c m (err e, h) t held a =
      λ q. close_session-find s (record c { handshake = h }) m t held
  open_response-Gone c m (ok b, h) t held a = λ q. cc (sym a ∙ q)

  last_response-Gone :
      (c : Connection) (m : SessionManager) (x : Result RecordError Bytes × ServerHandshake)
      → c.session ≡ none
      → Tables.find s.id m.sessions ≡ none
      → Gone s (response_sealed o fb c m true x)
  unfolding Gone response_sealed
  last_response-Gone c m (err e, h) n f =
      λ q. close_session-absent s (record c { handshake = h }) m n f
  last_response-Gone c m (ok b, h) n f = λ q. f

  handle_active-Gone :
      (c : Connection) (m : SessionManager) (bytes : Bytes) (now now_unix : ℕ)
      → IsTable m.sessions
      → c.session ≡ some s
      → c.state ≡ active
      → Gone? s (handle_active o fb c m bytes now now_unix)
  unfolding handle_active heartbeat_decoded heartbeat_of beaten acknowledge ack_encoded
      encrypted_response close_decoded Gone Gone?
  handle_active-Gone c m bytes now now_unix t held a = decoded_case (decode_heartbeat fb bytes)
    where
      drop_case : (m : SessionManager) → IsTable m.sessions → Gone s (dropped invalid_message c m)
      drop_case m t = λ q. close_session-find s c m t held

      ack_case :
          (m : SessionManager) (expired : Bool) (x : Result MessageError Bytes)
          → IsTable m.sessions
          → Gone s (ack_encoded o fb c m expired x)
      ack_case m expired (err e) t = drop_case m t
      ack_case m true (ok b) t =
          last_response-Gone (close_session c m).0 (close_session c m).1
            (seal_server o fb (close_session c m).0.handshake b) (close_session-session s c m held)
            (close_session-find s c m t held)
      ack_case m false (ok b) t = open_response-Gone c m (seal_server o fb c.handshake b) t held a

      beaten_case :
          (s' : Session) (request : HeartbeatMessage)
          (x : Result ErrorCode (Unit {0}) × SessionManager)
          → IsTable (x.1).sessions
          → Gone s (beaten o fb c s' request now_unix x)
      beaten_case s' request (err e, m') t' = drop_case m' t'
      beaten_case s' request (ok u, m') t' = ack_case m' (expired_at c.license now_unix) _ t'

      session_case :
          (x : Option Session) (request : HeartbeatMessage)
          → Gone s (heartbeat_of o fb c m x request now now_unix)
      session_case none request = drop_case m t
      session_case (some s') request =
          if-lem (Gone s)
            (not (request.protocol_version == c.handshake.selected_version)
              || not (bytes_eq request.session_id s'.id))
            (drop_case m t) (beaten_case s' request _ (heartbeat-IsTable m s'.id now t))

      close_case :
          (x : Option (Result MessageError CloseSessionMessage))
          → Gone? s (close_decoded o fb c m x)
      close_case none = tt
      close_case (some (err e)) = drop_case m t
      close_case (some (ok request)) =
          if-lem (Gone? s) (request.protocol_version == c.handshake.selected_version)
            (drop_case m t) (drop_case m t)

      decoded_case :
          (x : Option (Result MessageError HeartbeatMessage))
          → Gone? s (heartbeat_decoded o fb c m bytes now now_unix x)
      decoded_case none = tt
      decoded_case (some (ok request)) = session_case c.session request
      decoded_case (some (err e)) = close_case (decode_close_session fb bytes)

  -- Where a call closes an active connection that holds a session, over a table of distinct
  -- identifiers, the session is no longer in the session manager.
  pub handle-released :
      (c : Connection) (m : SessionManager) (frame : Bytes) (now now_unix : ℕ) (draws : Draws)
      {out : Outcome}
      → IsTable m.sessions
      → c.state ≡ active
      → c.session ≡ some s
      → handle o fb c m frame now now_unix draws ≡ some out
      → out.connection.state ≡ closed
      → Tables.find s.id out.sessions.sessions ≡ none
  unfolding handle handle_in record_opened Gone Gone?
  handle-released c m frame now now_unix draws {out = out} t a held e =
      subst (Gone? s) (sym (ap (λ x. handle_in o fb x c m frame now now_unix draws) a) ∙ e)
        (opened_case (open_server o fb c.handshake frame))
    where
      opened_case :
          (x : Result RecordError Bytes × ServerHandshake)
          → Gone? s
              (record_opened o fb (λ c m bytes. handle_active o fb c m bytes now now_unix) c m x)
      opened_case (err e, h) = λ q. close_session-find s (record c { handshake = h }) m t held
      opened_case (ok b, h) =
          handle_active-Gone (record c { handshake = h }) m b now now_unix t held a
