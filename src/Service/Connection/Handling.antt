-- ===== src/Service/Connection/Handling.antt =====
-- `Connection::handle` and `handleHello` (service/connection.cpp).
use yo_authorize.Core.Session.{SessionManager}
use yo_authorize.Protocol.Handshake.Server.{
  ServerHandshake, open_server, handle_client_finished, handle_client_hello,
}
use Prim.Native.Nat.{ℕ}
use yo_authorize.Prelude.{
  Option, Bytes, none, ℕ, some, not, false, ◌==◌, Result, err, if◌then◌else◌, ok, ◌||◌,
}
use yo_authorize.OpenSsl.{OpenSsl}
use yo_authorize.Protocol.Frame.{decode_frame, FrameError, default_max_payload_size, FrameDecoded}
use yo_authorize.Protocol.Envelope.{EnvelopeBuffers}
use yo_authorize.Protocol.Handshake.{HandshakeError}
use yo_authorize.Protocol.Record.{RecordError}
use yo_authorize.Service.Connection.{
  Connection, SessionManager, no_error, invalid_frame, handshake_failed, already_closed,
  awaiting_hello, awaiting_finished, awaiting_authorize, active, closed, Outcome, Draws, State,
  rejected, dropped, wrap_plaintext,
}
use yo_authorize.Service.Connection.Authorize.{handle_authorize}
use yo_authorize.Service.Connection.Active.{handle_active}

module _ (o : OpenSsl) (fb : EnvelopeBuffers) where
  unfoldable pub hello_answered :
      Connection
      → SessionManager
      → Option (Result HandshakeError Bytes × ServerHandshake)
      → Option Outcome
  hello_answered c m none = none
  hello_answered c m (some (err e, handshake)) =
      some (rejected handshake_failed (record c { handshake = handshake }) m)
  hello_answered c m (some (ok response, handshake)) = some (record {
    result = record { error = no_error; response = some (wrap_plaintext response); closed = false };
    connection = record c { handshake = handshake; state = awaiting_finished };
    sessions = m;
  })

  unfoldable pub hello_decoded :
      Connection → SessionManager → Draws → Result FrameError FrameDecoded → Option Outcome
  hello_decoded c m draws (err e) = some (rejected invalid_frame c m)
  hello_decoded c m draws (ok decoded) =
      if not (decoded.header.flags == 0) || not (decoded.header.sequence == 0)
      then some (rejected invalid_frame c m)
      else hello_answered c m
          (handle_client_hello o fb c.handshake decoded.payload draws.nonce draws.key)

  unfoldable pub handle_hello : Connection → SessionManager → Bytes → Draws → Option Outcome
  handle_hello c m frame draws =
      hello_decoded c m draws (decode_frame frame default_max_payload_size)

  unfoldable pub finished_handled :
      Connection
      → SessionManager
      → Option (Result HandshakeError (Unit {0}) × ServerHandshake)
      → Option Outcome
  finished_handled c m none = none
  finished_handled c m (some (err e, handshake)) =
      some (rejected handshake_failed (record c { handshake = handshake }) m)
  finished_handled c m (some (ok u, handshake)) = some (record {
    result = record { error = no_error; response = none; closed = false };
    connection = record c { handshake = handshake; state = awaiting_authorize };
    sessions = m;
  })

  -- A record of the established connection, handed to the handler of its state.
  unfoldable pub record_opened :
      (Connection → SessionManager → Bytes → Option Outcome)
      → Connection
      → SessionManager
      → Result RecordError Bytes × ServerHandshake
      → Option Outcome
  record_opened next c m (err e, handshake) =
      some (dropped invalid_frame (record c { handshake = handshake }) m)
  record_opened next c m (ok bytes, handshake) = next (record c { handshake = handshake }) m bytes

  unfoldable pub handle_in :
      State → Connection → SessionManager → Bytes → ℕ → ℕ → Draws → Option Outcome
  handle_in closed c m frame now_monotonic_ms now_unix_seconds draws = some (record {
    result = record { error = already_closed; response = none; closed = false };
    connection = c;
    sessions = m;
  })
  handle_in awaiting_hello c m frame now_monotonic_ms now_unix_seconds draws =
      handle_hello c m frame draws
  handle_in awaiting_finished c m frame now_monotonic_ms now_unix_seconds draws =
      finished_handled c m (handle_client_finished o fb c.handshake frame)
  handle_in awaiting_authorize c m frame now_monotonic_ms now_unix_seconds draws =
      record_opened
        (λ c m bytes. handle_authorize o fb c m bytes now_monotonic_ms now_unix_seconds draws) c m
        (open_server o fb c.handshake frame)
  handle_in active c m frame now_monotonic_ms now_unix_seconds draws =
      record_opened (λ c m bytes. handle_active o fb c m bytes now_monotonic_ms now_unix_seconds) c
        m (open_server o fb c.handshake frame)

  -- `none` where a decoder has no result, or the draws end before an identifier is free.
  unfoldable pub handle : Connection → SessionManager → Bytes → ℕ → ℕ → Draws → Option Outcome
  handle c m frame now_monotonic_ms now_unix_seconds draws =
      handle_in c.state c m frame now_monotonic_ms now_unix_seconds draws
