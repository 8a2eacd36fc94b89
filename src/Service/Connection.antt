-- ===== src/Service/Connection.antt =====
-- One connection to the service (service/connection.h, connection.cpp): its state, how it closes, and
-- its encrypted responses. The session manager that the connections share is passed through.
pub mod Authorize
pub mod Active
pub mod Handling
pub mod Invariant
pub mod Admission
pub mod Release
pub mod Keeping
pub mod Kept
pub mod Fault
use mathlib.Core.Option
use yo_authorize.Core.Session
use yo_authorize.Core.Session.{SessionManager, Session}
use yo_authorize.Core.License.{LicenseSnapshot}
use yo_authorize.Protocol.AuthorizationError
use yo_authorize.Protocol.AuthorizationState
use yo_authorize.Protocol.Handshake.Server.{
  ServerHandshake, new_server, seal_server, open_server, handle_client_finished,
  handle_client_hello,
}
use Prim.Native.Nat.{ℕ}
use yo_authorize.Prelude.{
  Option, Bytes, none, Bool, ℕ, List, true, some, not, false, ◌==◌, Result, ◌&&◌, err, [],
  if◌then◌else◌, length, leb, ok, bytes_eq, ◌||◌, ◌++◌,
}
use yo_authorize.OpenSsl.{OpenSsl}
use yo_authorize.Protocol.Frame.{
  encode_header, frame_version, decode_frame, FrameError, default_max_payload_size, FrameDecoded,
}
use yo_authorize.Protocol.Envelope.{EnvelopeBuffers}
use yo_authorize.Protocol.Messages.{
  AuthorizeMessage, AuthResultMessage, HeartbeatMessage, MessageError, CloseSessionMessage,
}
use yo_authorize.Protocol.Messages.Application.{
  encode_auth_result, decode_authorize, decode_heartbeat, encode_heartbeat_ack,
  decode_close_session,
}
use yo_authorize.Prelude.Words.{u32}
use yo_authorize.Protocol.Handshake.{HandshakeError}
use yo_authorize.Core.Status.{ErrorCode}
use yo_authorize.Protocol.Record.{RecordError}

pub data ConnectionError : Type 0 where
  no_error invalid_frame handshake_failed invalid_message product_mismatch : ConnectionError
  session_limit_exceeded invalid_session license_expired already_closed : ConnectionError

pub record ConnectionResult : Type 0 where
  pub error : ConnectionError
  pub response : Option Bytes
  pub closed : Bool

pub data State : Type 0 where
  awaiting_hello awaiting_finished awaiting_authorize active closed : State

pub record Connection : Type 0 where
  pub handshake : ServerHandshake
  pub license : LicenseSnapshot
  pub peer_identity : Bytes
  pub heartbeat_interval_ms : ℕ
  pub heartbeat_timeout_ms : ℕ
  pub session : Option Session
  pub state : State

abbrev pub new_connection : Bytes → Bytes → LicenseSnapshot → Bytes → ℕ → ℕ → Connection
new_connection service_key_id identity_private_key license peer_identity interval timeout = record {
  handshake = new_server service_key_id identity_private_key 1 1;
  license = license;
  peer_identity = peer_identity;
  heartbeat_interval_ms = interval;
  heartbeat_timeout_ms = timeout;
  session = none;
  state = awaiting_hello;
}

-- What a call returns, and what it leaves.
pub record Outcome : Type 0 where
  pub result : ConnectionResult
  pub connection : Connection
  pub sessions : SessionManager

-- What the random generator draws in one call: a nonce, a key, and session identifiers.
pub record Draws : Type 0 where
  pub nonce : Option Bytes
  pub key : Option Bytes
  pub ids : List (Option Bytes)

unfoldable pub wrap_plaintext : Bytes → Bytes
wrap_plaintext payload =
    encode_header (record {
      version = frame_version;
      flags = 0;
      sequence = 0;
      payload_size = u32 (length payload);
    })
    ++ payload

abbrev pub with_state : State → Connection → Connection
with_state s c = record c { state = s }

-- `return {.error = error, .closed = true}` of a connection with the state `Closed`
abbrev pub rejected : ConnectionError → Connection → SessionManager → Outcome
rejected error c m = record {
  result = record { error = error; response = none; closed = true };
  connection = with_state closed c;
  sessions = m;
}

unfoldable pub released : Connection → SessionManager → Option Session → Connection × SessionManager
released c m none = (c, m)
released c m (some s) = (record c { session = none }, (Session.close m s.id).1)

unfoldable pub close_session : Connection → SessionManager → Connection × SessionManager
unfolding released
close_session c m = released c m c.session

-- `state_ = State::Closed; closeSession();` and the return
abbrev pub dropped : ConnectionError → Connection → SessionManager → Outcome
dropped error c m = let (c', m') = close_session c m in rejected error c' m'

unfoldable pub established : Connection → Bool
established c = elim c.state [ awaiting_authorize ↦ true | active ↦ true | _ ↦ false ]

abbrev pub expired_at : LicenseSnapshot → ℕ → Bool
expired_at license now = not (license.expire_time == 0) && leb license.expire_time now

module _ (o : OpenSsl) (fb : EnvelopeBuffers) where
  unfoldable pub response_sealed :
      Connection → SessionManager → Bool → Result RecordError Bytes × ServerHandshake → Outcome
  response_sealed c m close_after (err e, handshake) =
      dropped invalid_frame (record c { handshake = handshake }) m
  response_sealed c m close_after (ok bytes, handshake) =
      let c' = record c { handshake = handshake } in
      record {
        result = record { error = no_error; response = some bytes; closed = close_after };
        connection = if close_after then with_state closed c' else c';
        sessions = m;
      }

  unfoldable pub encrypted_response : Connection → SessionManager → Bytes → Bool → Outcome
  encrypted_response c m plaintext close_after =
      response_sealed c m close_after (seal_server o fb c.handshake plaintext)
