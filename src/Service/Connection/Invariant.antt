-- ===== src/Service/Connection/Invariant.antt =====
-- Every call of a connection (service/connection.cpp).
use mathlib.Core.Option
use yo_authorize.Service.Connection.{
  Connection, State, some, Outcome, ConnectionError, close_session, OpenSsl, SessionManager,
  EnvelopeBuffers, dropped, encrypted_response, closed, rejected, active, Session, ServerHandshake,
  released, response_sealed, Draws, HandshakeError, FrameError, FrameDecoded, decode_frame,
  default_max_payload_size, MessageError, encode_auth_result, AuthResultMessage, awaiting_authorize,
  AuthorizeMessage, HeartbeatMessage, ErrorCode, awaiting_hello, expired_at, awaiting_finished,
  CloseSessionMessage, decode_close_session, decode_heartbeat, decode_authorize,
}
use yo_authorize.Service.Connection.Handling.{
  handle_hello, hello_decoded, hello_answered, handle, handle_in, finished_handled, record_opened,
}
use yo_authorize.Service.Connection.Authorize.{
  Decision, answered, handle_authorize, is_no_error, result_encoded, authorize_decoded, decide,
  session_created,
}
use yo_authorize.Service.Connection.Active.{
  handle_active, heartbeat_decoded, heartbeat_of, beaten, acknowledge, ack_encoded, close_decoded,
}
use yo_authorize.Prelude.{
  is_some, Bool, ◌≡◌, true, false, Option, Bytes, Result, refl, err, ok, none, ap, not, ◌==◌, ◌||◌,
  ℕ, ◌∙◌, sym, subst, bytes_eq, if-lem,
}
use yo_authorize.OpenSsl.{OpenSsl}
use yo_authorize.Protocol.Record.{RecordError}

abbrev pub is_active : State → Bool
is_active active = true
is_active _ = false

abbrev pub is_closed : State → Bool
is_closed closed = true
is_closed _ = false

pub record IsConnection (c : Connection) : Type 0 where
  pub holds : is_some c.session ≡ is_active c.state

-- A call that reports the connection closed has closed it.
pub record IsOutcome (out : Outcome) : Type 0 where
  pub connection : IsConnection out.connection
  pub closes : out.result.closed ≡ true → out.connection.state ≡ closed

with_error-IsOutcome :
    (out : Outcome) (e : ConnectionError)
    → IsOutcome out
    → IsOutcome (record out { result = record (out.result) { error = e } })
with_error-IsOutcome out e i = record { connection = i.connection; closes = i.closes }

rejected-IsOutcome :
    (e : ConnectionError) (c : Connection) (m : SessionManager)
    → is_some c.session ≡ false
    → IsOutcome (rejected e c m)
rejected-IsOutcome e c m n = record { connection = record { holds = n }; closes = λ q. refl }

released_lem :
    (c : Connection) (m : SessionManager) (s : Option Session)
    → c.session ≡ s
    → is_some (released c m s).0.session ≡ false
unfolding released
released_lem c m none e = ap (λ x. is_some x) e
released_lem c m (some s) e = refl

close_session_lem :
    (c : Connection) (m : SessionManager) → is_some (close_session c m).0.session ≡ false
unfolding close_session
close_session_lem c m = released_lem c m c.session refl

dropped-IsOutcome :
    (e : ConnectionError) (c : Connection) (m : SessionManager) → IsOutcome (dropped e c m)
dropped-IsOutcome e c m =
    rejected-IsOutcome e (close_session c m).0 (close_session c m).1 (close_session_lem c m)

-- The same of a call that may have no result.
IsOutcome? : Option Outcome → Type 0
IsOutcome? none = Unit {0}
IsOutcome? (some out) = IsOutcome out

module _ (o : OpenSsl) (fb : EnvelopeBuffers) where
  response_sealed-IsOutcome :
      (c : Connection) (m : SessionManager) (x : Result RecordError Bytes × ServerHandshake)
      → IsConnection c
      → IsOutcome (response_sealed o fb c m false x)
  unfolding response_sealed
  response_sealed-IsOutcome c m (err e, h) i = dropped-IsOutcome _ (record c { handshake = h }) m
  response_sealed-IsOutcome c m (ok b, h) i = record {
    connection = record { holds = i.holds };
    closes = λ q. cc;
  }

  last_response-IsOutcome :
      (c : Connection) (m : SessionManager) (x : Result RecordError Bytes × ServerHandshake)
      → is_some c.session ≡ false
      → IsOutcome (response_sealed o fb c m true x)
  unfolding response_sealed
  last_response-IsOutcome c m (err e, h) n = dropped-IsOutcome _ (record c { handshake = h }) m
  last_response-IsOutcome c m (ok b, h) n = record {
    connection = record { holds = n };
    closes = λ q. refl;
  }

  handle_hello-IsOutcome :
      (c : Connection) (m : SessionManager) (frame : Bytes) (draws : Draws)
      → is_some c.session ≡ false
      → IsOutcome? (handle_hello o fb c m frame draws)
  unfolding handle_hello hello_decoded hello_answered IsOutcome?
  handle_hello-IsOutcome c m frame draws n =
      decoded_case (decode_frame frame default_max_payload_size)
    where
      answered_case :
          (x : Option (Result HandshakeError Bytes × ServerHandshake))
          → IsOutcome? (hello_answered o fb c m x)
      answered_case none = tt
      answered_case (some (err e, h)) = rejected-IsOutcome _ (record c { handshake = h }) m n
      answered_case (some (ok r, h)) = record {
        connection = record { holds = n };
        closes = λ q. cc;
      }

      decoded_case :
          (x : Result FrameError FrameDecoded) → IsOutcome? (hello_decoded o fb c m draws x)
      decoded_case (err e) = rejected-IsOutcome _ c m n
      decoded_case (ok d) =
          if-lem IsOutcome? (not (d.header.flags == 0) || not (d.header.sequence == 0))
            (rejected-IsOutcome _ c m n) (answered_case _)

  record IsDecision (d : Decision) : Type 0 where
    decided : IsConnection d.connection
    refused : is_no_error d.error ≡ false → is_some d.connection.session ≡ false

  answered-IsOutcome : (d : Decision) → IsDecision d → IsOutcome (answered o fb d)
  unfolding answered result_encoded encrypted_response
  answered-IsOutcome d i = encoded_case (encode_auth_result fb d.response)
    where
      sent_case :
          (bytes : Bytes) (e : Bool)
          → is_no_error d.error ≡ e
          → IsOutcome (encrypted_response o fb d.connection d.sessions bytes (not e))
      sent_case bytes true e = response_sealed-IsOutcome d.connection d.sessions _ i.decided
      sent_case bytes false e = last_response-IsOutcome d.connection d.sessions _ (i.refused e)

      encoded_case : (x : Result MessageError Bytes) → IsOutcome (result_encoded o fb d x)
      encoded_case (err e) = dropped-IsOutcome _ d.connection d.sessions
      encoded_case (ok bytes) =
          with_error-IsOutcome
            (encrypted_response o fb d.connection d.sessions bytes (not (is_no_error d.error)))
            d.error (sent_case bytes (is_no_error d.error) refl)

  handle_authorize-IsOutcome :
      (c : Connection) (m : SessionManager) (bytes : Bytes) (now now_unix : ℕ) (draws : Draws)
      → is_some c.session ≡ false
      → is_active c.state ≡ false
      → IsOutcome? (handle_authorize o fb c m bytes now now_unix draws)
  unfolding handle_authorize authorize_decoded decide session_created IsOutcome?
  handle_authorize-IsOutcome c m bytes now now_unix draws n a =
      decoded_case (decode_authorize fb bytes)
    where
      kept :
          (e : ConnectionError) (r : AuthResultMessage) (m : SessionManager)
          → IsDecision (record { response = r; error = e; connection = c; sessions = m })
      kept e r m = record { decided = record { holds = n ∙ sym a }; refused = λ q. n }

      created_case :
          (request : AuthorizeMessage) (x : Option (Result ErrorCode Session × SessionManager))
          → IsOutcome? (Option.map (answered o fb) (session_created o fb c request x))
      created_case request none = tt
      created_case request (some (err e, m')) = answered-IsOutcome _ (kept _ _ m')
      created_case request (some (ok s, m')) =
          answered-IsOutcome _ (record { decided = record { holds = refl }; refused = λ q. cc })

      decoded_case :
          (x : Option (Result MessageError AuthorizeMessage))
          → IsOutcome? (authorize_decoded o fb c m now now_unix draws x)
      decoded_case none = tt
      decoded_case (some (err e)) = rejected-IsOutcome _ c m n
      decoded_case (some (ok request)) =
          if-lem IsOutcome? (not (request.protocol_version == c.handshake.selected_version))
            (rejected-IsOutcome _ c m n)
            (if-lem (λ d. IsOutcome? (Option.map (answered o fb) d))
              (not (bytes_eq request.product_id c.license.product_id))
              (answered-IsOutcome _ (kept _ _ m))
              (if-lem (λ d. IsOutcome? (Option.map (answered o fb) d))
                (expired_at c.license now_unix) (answered-IsOutcome _ (kept _ _ m))
                (created_case request _)))

  handle_active-IsOutcome :
      (c : Connection) (m : SessionManager) (bytes : Bytes) (now now_unix : ℕ)
      → IsConnection c
      → IsOutcome? (handle_active o fb c m bytes now now_unix)
  unfolding handle_active heartbeat_decoded heartbeat_of beaten acknowledge ack_encoded
      encrypted_response close_decoded IsOutcome?
  handle_active-IsOutcome c m bytes now now_unix i = decoded_case (decode_heartbeat fb bytes)
    where
      ack_case :
          (m : SessionManager) (expired : Bool) (x : Result MessageError Bytes)
          → IsOutcome (ack_encoded o fb c m expired x)
      ack_case m expired (err e) = dropped-IsOutcome _ c m
      ack_case m true (ok b) = with_error-IsOutcome _ _ (
          last_response-IsOutcome (close_session c m).0 (close_session c m).1 _
            (close_session_lem c m))
      ack_case m false (ok b) = response_sealed-IsOutcome c m _ i

      beaten_case :
          (s : Session) (request : HeartbeatMessage)
          (x : Result ErrorCode (Unit {0}) × SessionManager)
          → IsOutcome (beaten o fb c s request now_unix x)
      beaten_case s request (err e, m') = dropped-IsOutcome _ c m'
      beaten_case s request (ok u, m') = ack_case m' (expired_at c.license now_unix) _

      session_case :
          (s : Option Session) (request : HeartbeatMessage)
          → IsOutcome (heartbeat_of o fb c m s request now now_unix)
      session_case none request = dropped-IsOutcome _ c m
      session_case (some s) request =
          if-lem IsOutcome
            (not (request.protocol_version == c.handshake.selected_version)
              || not (bytes_eq request.session_id s.id))
            (dropped-IsOutcome _ c m) (beaten_case s request _)

      close_case :
          (x : Option (Result MessageError CloseSessionMessage))
          → IsOutcome? (close_decoded o fb c m x)
      close_case none = tt
      close_case (some (err e)) = dropped-IsOutcome _ c m
      close_case (some (ok request)) =
          if-lem IsOutcome? (request.protocol_version == c.handshake.selected_version)
            (dropped-IsOutcome _ c m) (dropped-IsOutcome _ c m)

      decoded_case :
          (x : Option (Result MessageError HeartbeatMessage))
          → IsOutcome? (heartbeat_decoded o fb c m bytes now now_unix x)
      decoded_case none = tt
      decoded_case (some (ok request)) = session_case c.session request
      decoded_case (some (err e)) = close_case (decode_close_session fb bytes)

  -- Of a connection that holds a session exactly while it is active, every call leaves one of
  -- which that holds again, and a call that reports the connection closed has closed it.
  pub handle-IsOutcome :
      (c : Connection) (m : SessionManager) (frame : Bytes) (now now_unix : ℕ) (draws : Draws)
      {out : Outcome}
      → IsConnection c
      → handle o fb c m frame now now_unix draws ≡ some out
      → IsOutcome out
  unfolding handle handle_in finished_handled record_opened IsOutcome?
  handle-IsOutcome c m frame now now_unix draws {out = out} i e =
      subst IsOutcome? e (state_case c.state refl)
    where
      idle : (s : State) → c.state ≡ s → is_active s ≡ false → is_some c.session ≡ false
      idle s e f = i.holds ∙ ap is_active e ∙ f

      finished_case :
          (x : Option (Result HandshakeError (Unit {0}) × ServerHandshake))
          → is_some c.session ≡ false
          → IsOutcome? (finished_handled o fb c m x)
      finished_case none n = tt
      finished_case (some (err e, h)) n = rejected-IsOutcome _ (record c { handshake = h }) m n
      finished_case (some (ok u, h)) n = record {
        connection = record { holds = n };
        closes = λ q. cc;
      }

      authorize_case :
          (x : Result RecordError Bytes × ServerHandshake)
          → c.state ≡ awaiting_authorize
          → IsOutcome? (
              record_opened o fb
                (λ c m bytes. handle_authorize o fb c m bytes now now_unix draws)
                c
                m
                x)
      authorize_case (err e, h) s = dropped-IsOutcome _ (record c { handshake = h }) m
      authorize_case (ok b, h) s =
          handle_authorize-IsOutcome (record c { handshake = h }) m b now now_unix draws
            (idle _ s refl) (ap is_active s)

      active_case :
          (x : Result RecordError Bytes × ServerHandshake)
          → IsOutcome?
              (record_opened o fb (λ c m bytes. handle_active o fb c m bytes now now_unix) c m x)
      active_case (err e, h) = dropped-IsOutcome _ (record c { handshake = h }) m
      active_case (ok b, h) =
          handle_active-IsOutcome (record c { handshake = h }) m b now now_unix
            (record { holds = i.holds })

      state_case :
          (s : State) → c.state ≡ s → IsOutcome? (handle_in o fb s c m frame now now_unix draws)
      state_case closed s = record { connection = i; closes = λ q. cc }
      state_case awaiting_hello s = handle_hello-IsOutcome c m frame draws (idle _ s refl)
      state_case awaiting_finished s = finished_case _ (idle _ s refl)
      state_case awaiting_authorize s = authorize_case _ s
      state_case active s = active_case _
