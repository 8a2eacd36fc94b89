-- ===== src/Service/Connection/Active.antt =====
-- `Connection::handleActive` (service/connection.cpp).
use yo_authorize.Core.Session
use yo_authorize.Core.Session.{SessionManager, Session}
use yo_authorize.Protocol.AuthorizationState
use Prim.Native.Nat.{ℕ}
use yo_authorize.Prelude.{
  Option, Bytes, none, Bool, ℕ, true, some, not, false, ◌==◌, Result, err, if◌then◌else◌, ok,
  bytes_eq, ◌||◌,
}
use yo_authorize.OpenSsl.{OpenSsl}
use yo_authorize.Protocol.Envelope.{EnvelopeBuffers}
use yo_authorize.Protocol.Messages.{HeartbeatMessage, MessageError, CloseSessionMessage}
use yo_authorize.Protocol.Messages.Application.{
  decode_heartbeat, encode_heartbeat_ack, decode_close_session,
}
use yo_authorize.Core.Status.{ErrorCode}
use yo_authorize.Service.Connection.{
  close_session, Connection, SessionManager, no_error, invalid_message, invalid_session,
  license_expired, Outcome, dropped, expired_at, encrypted_response,
}

module _ (o : OpenSsl) (fb : EnvelopeBuffers) where
  unfoldable pub ack_encoded :
      Connection → SessionManager → Bool → Result MessageError Bytes → Outcome
  ack_encoded c m expired (err e) = dropped invalid_message c m
  ack_encoded c m true (ok bytes) =
      let (c', m') = close_session c m in
      let sent = encrypted_response o fb c' m' bytes true in
      record sent { result = record (sent.result) { error = license_expired } }
  ack_encoded c m false (ok bytes) = encrypted_response o fb c m bytes false

  unfoldable pub acknowledge :
      Connection → SessionManager → Session → HeartbeatMessage → ℕ → Outcome
  acknowledge c m s request now_unix_seconds =
      let expired = expired_at c.license now_unix_seconds in
      ack_encoded c m expired (
        encode_heartbeat_ack fb (record {
          request_id = request.request_id;
          protocol_version = c.handshake.selected_version;
          state = if expired then AuthorizationState.expired else AuthorizationState.valid;
          features = s.features;
          expire_time = s.expire_time;
        }))

  unfoldable pub beaten :
      Connection
      → Session
      → HeartbeatMessage
      → ℕ
      → Result ErrorCode (Unit {0}) × SessionManager
      → Outcome
  beaten c s request now_unix_seconds (err e, m) = dropped invalid_session c m
  beaten c s request now_unix_seconds (ok u, m) = acknowledge c m s request now_unix_seconds

  -- The session's own heartbeat, where the message is of this session.
  unfoldable pub heartbeat_of :
      Connection → SessionManager → Option Session → HeartbeatMessage → ℕ → ℕ → Outcome
  heartbeat_of c m none request now_monotonic_ms now_unix_seconds = dropped invalid_session c m
  heartbeat_of c m (some s) request now_monotonic_ms now_unix_seconds =
      if not (request.protocol_version == c.handshake.selected_version)
        || not (bytes_eq request.session_id s.id)
      then dropped invalid_session c m
      else beaten c s request now_unix_seconds (Session.heartbeat m s.id now_monotonic_ms)

  unfoldable pub close_decoded :
      Connection
      → SessionManager
      → Option (Result MessageError CloseSessionMessage)
      → Option Outcome
  close_decoded c m none = none
  close_decoded c m (some (err e)) = some (dropped invalid_message c m)
  close_decoded c m (some (ok request)) =
      if request.protocol_version == c.handshake.selected_version
      then some (dropped no_error c m)
      else some (dropped invalid_message c m)

  unfoldable pub heartbeat_decoded :
      Connection
      → SessionManager
      → Bytes
      → ℕ
      → ℕ
      → Option (Result MessageError HeartbeatMessage)
      → Option Outcome
  heartbeat_decoded c m bytes now_monotonic_ms now_unix_seconds none = none
  heartbeat_decoded c m bytes now_monotonic_ms now_unix_seconds (some (ok request)) =
      some (heartbeat_of c m c.session request now_monotonic_ms now_unix_seconds)
  heartbeat_decoded c m bytes now_monotonic_ms now_unix_seconds (some (err e)) =
      close_decoded c m (decode_close_session fb bytes)

  unfoldable pub handle_active : Connection → SessionManager → Bytes → ℕ → ℕ → Option Outcome
  handle_active c m bytes now_monotonic_ms now_unix_seconds =
      heartbeat_decoded c m bytes now_monotonic_ms now_unix_seconds (decode_heartbeat fb bytes)
