-- ===== src/Service/Connection/Kept.antt =====
-- A connection changes no session but its own (service/connection.cpp).
use mathlib.Core.Option
use yo_authorize.Service.Connection.{
  Connection, State, some, close_session, OpenSsl, SessionManager, EnvelopeBuffers,
  encrypted_response, closed, active, Session, ServerHandshake, response_sealed, Draws,
  HandshakeError, FrameError, FrameDecoded, decode_frame, default_max_payload_size, MessageError,
  encode_auth_result, awaiting_authorize, AuthorizeMessage, HeartbeatMessage, ErrorCode,
  awaiting_hello, expired_at, awaiting_finished, CloseSessionMessage, decode_close_session,
  decode_heartbeat, decode_authorize, handle_client_hello, seal_server, invalid_message,
  open_server, invalid_session, no_error,
}
use yo_authorize.Service.Connection.Handling.{
  handle_hello, hello_decoded, hello_answered, handle, handle_in, finished_handled, record_opened,
}
use yo_authorize.Service.Connection.Authorize.{
  Decision, answered, handle_authorize, is_no_error, result_encoded, authorize_decoded, decide,
  session_created,
}
use yo_authorize.Service.Connection.Active.{
  handle_active, heartbeat_decoded, heartbeat_of, beaten, acknowledge, ack_encoded, close_decoded,
}
use yo_authorize.Prelude.{
  is_some, Bool, ◌≡◌, true, false, Option, Bytes, Result, refl, err, ok, none, ap, not, ◌==◌, ◌||◌,
  ℕ, ◌∙◌, sym, subst, bytes_eq, if-lem, ◌∷◌,
}
use yo_authorize.OpenSsl.{OpenSsl}
use yo_authorize.Protocol.Record.{RecordError}
use yo_authorize.Service.Connection.Invariant.{is_active, IsConnection}
use yo_authorize.Core.Session.{add_session, create, draw_id}
use yo_authorize.Core.Session
use yo_authorize.Tables
use yo_authorize.Tables.{Table}
use yo_authorize.Service.Connection.Keeping.{
  Holding, Keeps, Keeps?, heartbeat-Holding, close_session-sessions, none-Holding, dropped-Keeps,
  Created, create-Created,
}

module _ (o : OpenSsl) (fb : EnvelopeBuffers) (base : Table Session) where
  response_sealed-Keeps :
      (c : Connection) (m : SessionManager) (after : Bool)
      (x : Result RecordError Bytes × ServerHandshake)
      → Holding base c.session m.sessions
      → Keeps base (response_sealed o fb c m after x)
  unfolding response_sealed Keeps
  response_sealed-Keeps c m after (err e, h) i =
      dropped-Keeps base invalid_message (record c { handshake = h }) m i
  response_sealed-Keeps c m true (ok b, h) i = i
  response_sealed-Keeps c m false (ok b, h) i = i

  handle_hello-Keeps :
      (c : Connection) (m : SessionManager) (frame : Bytes) (draws : Draws)
      → Holding base c.session m.sessions
      → Keeps? base (handle_hello o fb c m frame draws)
  unfolding handle_hello hello_decoded hello_answered Keeps?
  handle_hello-Keeps c m frame draws i = decoded_case (decode_frame frame default_max_payload_size)
    where
      answered_case :
          (x : Option (Result HandshakeError Bytes × ServerHandshake))
          → Keeps? base (hello_answered o fb c m x)
      answered_case none = tt
      answered_case (some (err e, h)) = i
      answered_case (some (ok r, h)) = i

      decoded_case :
          (x : Result FrameError FrameDecoded) → Keeps? base (hello_decoded o fb c m draws x)
      decoded_case (err e) = i
      decoded_case (ok d) =
          if-lem (Keeps? base) (not (d.header.flags == 0) || not (d.header.sequence == 0)) i
            (answered_case (handle_client_hello o fb c.handshake d.payload draws.nonce draws.key))

  answered-Keeps :
      (d : Decision)
      → Holding base d.connection.session d.sessions.sessions
      → Keeps base (answered o fb d)
  unfolding answered result_encoded encrypted_response Keeps
  answered-Keeps d i = encoded_case (encode_auth_result fb d.response)
    where
      encoded_case : (x : Result MessageError Bytes) → Keeps base (result_encoded o fb d x)
      encoded_case (err e) = dropped-Keeps base invalid_message d.connection d.sessions i
      encoded_case (ok bytes) =
          response_sealed-Keeps d.connection d.sessions (not (is_no_error d.error))
            (seal_server o fb d.connection.handshake bytes) i

  handle_authorize-Keeps :
      (c : Connection) (m : SessionManager) (bytes : Bytes) (now now_unix : ℕ) (draws : Draws)
      → c.session ≡ none
      → m.sessions ≡ base
      → Keeps? base (handle_authorize o fb c m bytes now now_unix draws)
  unfolding handle_authorize authorize_decoded decide session_created Keeps? Created
  handle_authorize-Keeps c m bytes now now_unix draws n i = decoded_case (decode_authorize fb bytes)
    where
      idle : (m' : SessionManager) → m'.sessions ≡ base → Holding base c.session m'.sessions
      idle m' e = none-Holding base c.session m'.sessions (e, n)

      created_case :
          (request : AuthorizeMessage) (x : Option (Result ErrorCode Session × SessionManager))
          → Created m x
          → Keeps? base (Option.map (answered o fb) (session_created o fb c request x))
      created_case request none h = tt
      created_case request (some (err e, m')) h = answered-Keeps _ (idle m' (h ∙ i))
      created_case request (some (ok s, m')) h =
          answered-Keeps _ (ap (Tables.find s.id) (sym i) ∙ h.0, s, h.1 ∙ ap (◌∷◌ (s.id, s)) i)

      decoded_case :
          (x : Option (Result MessageError AuthorizeMessage))
          → Keeps? base (authorize_decoded o fb c m now now_unix draws x)
      decoded_case none = tt
      decoded_case (some (err e)) = idle m i
      decoded_case (some (ok request)) =
          if-lem (Keeps? base) (not (request.protocol_version == c.handshake.selected_version))
            (idle m i)
            (if-lem (λ d. Keeps? base (Option.map (answered o fb) d))
              (not (bytes_eq request.product_id c.license.product_id)) (answered-Keeps _ (idle m i))
              (if-lem (λ d. Keeps? base (Option.map (answered o fb) d))
                (expired_at c.license now_unix) (answered-Keeps _ (idle m i))
                (created_case request _ (create-Created m _ _ _ _ _ _ _))))

  handle_active-Keeps :
      (c : Connection) (m : SessionManager) (bytes : Bytes) (now now_unix : ℕ)
      → Holding base c.session m.sessions
      → Keeps? base (handle_active o fb c m bytes now now_unix)
  unfolding handle_active heartbeat_decoded heartbeat_of beaten acknowledge ack_encoded
      encrypted_response close_decoded Keeps?
  handle_active-Keeps c m bytes now now_unix i = decoded_case (decode_heartbeat fb bytes)
    where
      ack_case :
          (m : SessionManager) (expired : Bool) (x : Result MessageError Bytes)
          → Holding base c.session m.sessions
          → Keeps base (ack_encoded o fb c m expired x)
      ack_case m expired (err e) h = dropped-Keeps base invalid_message c m h
      ack_case m true (ok b) h =
          response_sealed-Keeps (close_session c m).0 (close_session c m).1 true
            (seal_server o fb (close_session c m).0.handshake b)
            (none-Holding base (close_session c m).0.session (close_session c m).1.sessions
              (close_session-sessions base c m h))
      ack_case m false (ok b) h = response_sealed-Keeps c m false (seal_server o fb c.handshake b) h

      beaten_case :
          (s : Session) (request : HeartbeatMessage)
          (x : Result ErrorCode (Unit {0}) × SessionManager)
          → Holding base c.session (x.1).sessions
          → Keeps base (beaten o fb c s request now_unix x)
      beaten_case s request (err e, m') h = dropped-Keeps base invalid_session c m' h
      beaten_case s request (ok u, m') h = ack_case m' (expired_at c.license now_unix) _ h

      session_case :
          (x : Option Session) (request : HeartbeatMessage)
          → c.session ≡ x
          → Keeps base (heartbeat_of o fb c m x request now now_unix)
      session_case none request e = dropped-Keeps base invalid_session c m i
      session_case (some s) request e =
          if-lem (Keeps base)
            (not (request.protocol_version == c.handshake.selected_version)
              || not (bytes_eq request.session_id s.id))
            (dropped-Keeps base invalid_session c m i)
            (beaten_case s request (Session.heartbeat m s.id now) (
              subst (λ x. Holding base x (Session.heartbeat m s.id now).1.sessions) (sym e)
                (heartbeat-Holding base s m now (subst (λ x. Holding base x m.sessions) e i))))

      close_case :
          (x : Option (Result MessageError CloseSessionMessage))
          → Keeps? base (close_decoded o fb c m x)
      close_case none = tt
      close_case (some (err e)) = dropped-Keeps base invalid_message c m i
      close_case (some (ok request)) =
          if-lem (Keeps? base) (request.protocol_version == c.handshake.selected_version)
            (dropped-Keeps base no_error c m i) (dropped-Keeps base invalid_message c m i)

      decoded_case :
          (x : Option (Result MessageError HeartbeatMessage))
          → Keeps? base (heartbeat_decoded o fb c m bytes now now_unix x)
      decoded_case none = tt
      decoded_case (some (ok request)) = session_case c.session request refl
      decoded_case (some (err e)) = close_case (decode_close_session fb bytes)

  idle-session : (c : Connection) → is_some c.session ≡ false → c.session ≡ none
  idle-session c e = none_of c.session e
    where
      none_of : (x : Option Session) → is_some x ≡ false → x ≡ none
      none_of none e = refl
      none_of (some s) e = cc

  pub handle-Keeps :
      (c : Connection) (m : SessionManager) (frame : Bytes) (now now_unix : ℕ) (draws : Draws)
      → IsConnection c
      → Holding base c.session m.sessions
      → Keeps? base (handle o fb c m frame now now_unix draws)
  unfolding handle handle_in finished_handled record_opened Keeps?
  handle-Keeps c m frame now now_unix draws k i = state_case c.state refl
    where
      finished_case :
          (x : Option (Result HandshakeError (Unit {0}) × ServerHandshake))
          → Keeps? base (finished_handled o fb c m x)
      finished_case none = tt
      finished_case (some (err e, h)) = i
      finished_case (some (ok u, h)) = i

      authorize_case :
          (x : Result RecordError Bytes × ServerHandshake)
          → c.session ≡ none
          → Keeps? base (
              record_opened o fb
                (λ c m bytes. handle_authorize o fb c m bytes now now_unix draws)
                c
                m
                x)
      authorize_case (err e, h) s =
          dropped-Keeps base invalid_message (record c { handshake = h }) m i
      authorize_case (ok b, h) s =
          handle_authorize-Keeps (record c { handshake = h }) m b now now_unix draws s
            (subst (λ x. Holding base x m.sessions) s i)

      active_case :
          (x : Result RecordError Bytes × ServerHandshake)
          → Keeps? base
              (record_opened o fb (λ c m bytes. handle_active o fb c m bytes now now_unix) c m x)
      active_case (err e, h) = dropped-Keeps base invalid_message (record c { handshake = h }) m i
      active_case (ok b, h) = handle_active-Keeps (record c { handshake = h }) m b now now_unix i

      state_case :
          (s : State) → c.state ≡ s → Keeps? base (handle_in o fb s c m frame now now_unix draws)
      state_case closed s = i
      state_case awaiting_hello s = handle_hello-Keeps c m frame draws i
      state_case awaiting_finished s = finished_case _
      state_case awaiting_authorize s =
          authorize_case (open_server o fb c.handshake frame)
            (idle-session c (k.holds ∙ ap is_active s))
      state_case active s = active_case _
