-- ===== src/Service/Connection/Authorize.antt =====
-- `Connection::handleAuthorize` (service/connection.cpp).
use mathlib.Core.Option
use yo_authorize.Core.Session
use yo_authorize.Core.Session.{SessionManager, Session}
use yo_authorize.Protocol.AuthorizationError
use Prim.Native.Nat.{ℕ}
use yo_authorize.Prelude.{
  Option, Bytes, none, Bool, ℕ, true, some, not, false, ◌==◌, Result, err, [], if◌then◌else◌, ok,
  bytes_eq,
}
use yo_authorize.OpenSsl.{OpenSsl}
use yo_authorize.Protocol.Envelope.{EnvelopeBuffers}
use yo_authorize.Protocol.Messages.{AuthorizeMessage, AuthResultMessage, MessageError}
use yo_authorize.Protocol.Messages.Application.{encode_auth_result, decode_authorize}
use yo_authorize.Core.Status.{ErrorCode}
use yo_authorize.Service.Connection.{
  Connection, SessionManager, no_error, invalid_message, product_mismatch, session_limit_exceeded,
  license_expired, active, Outcome, Draws, ConnectionError, expired_at, dropped, rejected,
  encrypted_response,
}

-- `response` before the licence is looked at.
abbrev pub blank_response : Connection → AuthorizeMessage → AuthResultMessage
blank_response c request = record {
  request_id = request.request_id;
  protocol_version = c.handshake.selected_version;
  error = AuthorizationError.no_error;
  session_id = none;
  features = [];
  expire_time = 0;
  heartbeat_interval_ms = c.heartbeat_interval_ms;
  heartbeat_timeout_ms = c.heartbeat_timeout_ms;
}

-- What the request is granted: the response, the error of the result, and what is left.
pub record Decision : Type 0 where
  pub response : AuthResultMessage
  pub error : ConnectionError
  pub connection : Connection
  pub sessions : SessionManager

abbrev pub is_no_error : ConnectionError → Bool
is_no_error no_error = true
is_no_error _ = false

module _ (o : OpenSsl) (fb : EnvelopeBuffers) where
  unfoldable pub session_created :
      Connection
      → AuthorizeMessage
      → Option (Result ErrorCode Session × SessionManager)
      → Option Decision
  session_created c request none = none
  session_created c request (some (err e, m)) = some (record {
    response = record (blank_response c request) {
      error = AuthorizationError.session_limit_exceeded;
    };
    error = session_limit_exceeded;
    connection = c;
    sessions = m;
  })
  session_created c request (some (ok s, m)) = some (record {
    response = record (blank_response c request) {
      session_id = some s.id;
      features = s.features;
      expire_time = s.expire_time;
    };
    error = no_error;
    connection = record c { session = some s; state = active };
    sessions = m;
  })

  unfoldable pub decide :
      Connection → SessionManager → AuthorizeMessage → ℕ → ℕ → Draws → Option Decision
  decide c m request now_monotonic_ms now_unix_seconds draws =
      if not (bytes_eq request.product_id c.license.product_id)
      then some (record {
        response = record (blank_response c request) {
          error = AuthorizationError.product_mismatch;
        };
        error = product_mismatch;
        connection = c;
        sessions = m;
      })
      else if expired_at c.license now_unix_seconds
      then some (record {
        response = record (blank_response c request) { error = AuthorizationError.expired };
        error = license_expired;
        connection = c;
        sessions = m;
      })
      else session_created c request (
          Session.create m c.license.product_id c.peer_identity c.license.features
            c.license.expire_time now_monotonic_ms c.license.max_sessions draws.ids)

  -- The result's error is the decision's, also where the response could not be sealed.
  unfoldable pub result_encoded : Decision → Result MessageError Bytes → Outcome
  result_encoded d (err e) = dropped invalid_message d.connection d.sessions
  result_encoded d (ok bytes) =
      let sent =
        encrypted_response o fb d.connection d.sessions bytes (not (is_no_error d.error)) in
      record sent { result = record (sent.result) { error = d.error } }

  unfoldable pub answered : Decision → Outcome
  answered d = result_encoded d (encode_auth_result fb d.response)

  unfoldable pub authorize_decoded :
      Connection
      → SessionManager
      → ℕ
      → ℕ
      → Draws
      → Option (Result MessageError AuthorizeMessage)
      → Option Outcome
  authorize_decoded c m now_monotonic_ms now_unix_seconds draws none = none
  authorize_decoded c m now_monotonic_ms now_unix_seconds draws (some (err e)) =
      some (rejected invalid_message c m)
  authorize_decoded c m now_monotonic_ms now_unix_seconds draws (some (ok request)) =
      if not (request.protocol_version == c.handshake.selected_version)
      then some (rejected invalid_message c m)
      else Option.map answered (decide c m request now_monotonic_ms now_unix_seconds draws)

  unfoldable pub handle_authorize :
      Connection → SessionManager → Bytes → ℕ → ℕ → Draws → Option Outcome
  handle_authorize c m bytes now_monotonic_ms now_unix_seconds draws =
      authorize_decoded c m now_monotonic_ms now_unix_seconds draws (decode_authorize fb bytes)
