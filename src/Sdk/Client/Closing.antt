-- ===== src/Sdk/Client/Closing.antt =====
-- `LicenseClient::shutdown` (client.cpp), which the destructor calls too.
use yo_authorize.Prelude.{
  Result, Option, ok, err, some, none, true, false, ℕ, Bytes, ◌+◌, if◌then◌else◌,
}
use yo_authorize.OpenSsl.{OpenSsl}
use yo_authorize.Protocol.Envelope.{EnvelopeBuffers}
use yo_authorize.Protocol.Handshake.{is_established}
use yo_authorize.Protocol.Handshake.Client.{ClientHandshake, seal_client}
use yo_authorize.Protocol.Messages.{MessageError}
use yo_authorize.Protocol.Messages.Application.{encode_close_session}
use yo_authorize.Transport.{Transport}
use yo_authorize.Sdk.Status.{ClientState, Failure}
use yo_authorize.Sdk.Client.{LicenseClient, deadline_after, write_frame, without_features}
use yo_authorize.Prelude.Words.{u64}
use yo_authorize.Protocol.Record.{RecordError}

-- The thread has returned, and all that the client held is gone.
unfoldable pub closed_client : {S : Type 0} → LicenseClient S → LicenseClient S
closed_client c = record c {
  stop_requested = true;
  beating = false;
  transport = none;
  handshake = none;
  snapshot = without_features ClientState.closed c.snapshot;
}

-- Whether or not the frame went out, the transport goes on to be closed.
unfoldable pub close_written : {S : Type 0} → Option (Result Failure (Unit {0}) × S) → Option S
close_written none = none
close_written (some (result, s)) = some s

module _ (o : OpenSsl) (fb : EnvelopeBuffers) {S : Type 0} (t : Transport S) where
  unfoldable pub close_sealed :
      ℕ → LicenseClient S → S → Result RecordError Bytes × ClientHandshake → Option S
  unfolding close_written
  close_sealed now c s (err e, handshake) = some s
  close_sealed now c s (ok bytes, handshake) =
      close_written (write_frame t bytes (deadline_after now c.io_timeout_ms) s)

  unfoldable pub close_encoded :
      ℕ → LicenseClient S → S → ClientHandshake → Result MessageError Bytes → Option S
  unfolding close_sealed
  close_encoded now c s handshake (err e) = some s
  close_encoded now c s handshake (ok bytes) =
      close_sealed now c s (seal_client o fb handshake bytes)

  -- The session is closed at the service where there is one: the transport as that leaves it.
  unfoldable pub session_closed : ℕ → LicenseClient S → S → ClientHandshake → Option S
  unfolding close_encoded
  session_closed now c s handshake =
      if is_established handshake.state
      then close_encoded now c s handshake (
          encode_close_session fb (record {
            request_id = c.next_request_id;
            protocol_version = handshake.selected_version;
          }))
      else some s

  unfoldable pub transport_closed : LicenseClient S → Option S → Option (LicenseClient S × Option S)
  unfolding closed_client
  transport_closed c none = none
  transport_closed c (some s) = some (closed_client c, some (t.close s))

  unfoldable pub shutdown_over :
      ℕ → LicenseClient S → Option S → Option ClientHandshake → Option (LicenseClient S × Option S)
  unfolding session_closed transport_closed
  shutdown_over now c none handshake = some (closed_client c, none)
  shutdown_over now c (some s) none = transport_closed c (some s)
  shutdown_over now c (some s) (some handshake) =
      transport_closed
        (if is_established handshake.state
          then record c { next_request_id = u64 (c.next_request_id + 1) }
          else c)
        (session_closed now c s handshake)

  -- The client, and the transport that it has closed.
  unfoldable pub shutdown : ℕ → LicenseClient S → Option (LicenseClient S × Option S)
  unfolding shutdown_over
  shutdown now c = shutdown_over now c c.transport c.handshake
