-- ===== src/Sdk/Client/Beating.antt =====
-- The rounds of the thread that sends the heartbeats (client.cpp).
use yo_authorize.Prelude.{
  Result, Option, ok, err, some, none, false, ℕ, Bytes, ◌+◌, [], if◌then◌else◌, ◌==◌, not, ◌||◌,
}
use yo_authorize.OpenSsl.{OpenSsl}
use yo_authorize.Protocol.AuthorizationState
use yo_authorize.Protocol.Envelope.{EnvelopeBuffers}
use yo_authorize.Protocol.Handshake.Client.{ClientHandshake, seal_client, open_client}
use yo_authorize.Protocol.Messages.{MessageError, HeartbeatAckMessage}
use yo_authorize.Protocol.Messages.Application.{encode_heartbeat, decode_heartbeat_ack}
use yo_authorize.Transport.{Transport}
use yo_authorize.Sdk.Status.{ClientState, Failure}
use yo_authorize.Sdk.Client.{
  LicenseClient, deadline_after, write_frame, read_frame, without_features, is_valid,
}
use yo_authorize.Prelude.Words.{u64}
use yo_authorize.Protocol.Record.{RecordError}

-- The clock as one round reads it.
pub record Beat : Type 0 where
  pub write_now : ℕ
  pub header_now : ℕ
  pub payload_now : ℕ

-- The thread returns: it has lost the service. The transport and the handshake stay.
unfoldable pub heartbeat_failed :
    {S : Type 0} → LicenseClient S → S → ClientHandshake → LicenseClient S
heartbeat_failed c s handshake = record c {
  transport = some s;
  handshake = some handshake;
  beating = false;
  snapshot = without_features ClientState.error c.snapshot;
}

-- The switch over the state of an acknowledgement; any other value leaves the state as it was.
unfoldable pub state_after : ℕ → ClientState → ClientState
state_after state old =
    if state == AuthorizationState.valid
    then ClientState.valid
    else if state == AuthorizationState.grace
    then ClientState.grace
    else if state == AuthorizationState.expired
    then ClientState.expired
    else if state == AuthorizationState.revoked
    then ClientState.revoked
    else if state == AuthorizationState.unknown
    then ClientState.error
    else old

unfoldable pub acknowledged :
    {S : Type 0} → LicenseClient S → S → ClientHandshake → HeartbeatAckMessage → LicenseClient S
unfolding state_after
acknowledged c s handshake ack =
    let state = state_after ack.state c.snapshot.state in
    record c {
      transport = some s;
      handshake = some handshake;
      beating = is_valid state;
      snapshot = record {
        state = state;
        features = if is_valid state then ack.features else [];
        expire_time = ack.expire_time;
      };
    }

unfoldable pub ack_decoded :
    {S : Type 0}
    → LicenseClient S
    → ℕ
    → S
    → ClientHandshake
    → Option (Result MessageError HeartbeatAckMessage)
    → Option (LicenseClient S)
unfolding acknowledged heartbeat_failed
ack_decoded c request_id s handshake none = none
ack_decoded c request_id s handshake (some (err e)) = some (heartbeat_failed c s handshake)
ack_decoded c request_id s handshake (some (ok ack)) =
    if not (ack.request_id == request_id)
      || not (ack.protocol_version == handshake.selected_version)
    then some (heartbeat_failed c s handshake)
    else some (acknowledged c s handshake ack)

module _ (o : OpenSsl) (fb : EnvelopeBuffers) {S : Type 0} (t : Transport S) where
  unfoldable pub ack_opened :
      LicenseClient S
      → ℕ
      → S
      → Result RecordError Bytes × ClientHandshake
      → Option (LicenseClient S)
  unfolding ack_decoded heartbeat_failed
  ack_opened c request_id s (err e, handshake) = some (heartbeat_failed c s handshake)
  ack_opened c request_id s (ok plaintext, handshake) =
      ack_decoded c request_id s handshake (decode_heartbeat_ack fb plaintext)

  unfoldable pub ack_read :
      LicenseClient S
      → ℕ
      → ClientHandshake
      → Option (Result Failure Bytes × S)
      → Option (LicenseClient S)
  unfolding ack_opened heartbeat_failed
  ack_read c request_id handshake none = none
  ack_read c request_id handshake (some (err e, s)) = some (heartbeat_failed c s handshake)
  ack_read c request_id handshake (some (ok frame, s)) =
      ack_opened c request_id s (open_client o fb handshake frame)

  unfoldable pub heartbeat_written :
      Beat
      → LicenseClient S
      → ℕ
      → ClientHandshake
      → Option (Result Failure (Unit {0}) × S)
      → Option (LicenseClient S)
  unfolding ack_read heartbeat_failed
  heartbeat_written beat c request_id handshake none = none
  heartbeat_written beat c request_id handshake (some (err e, s)) =
      some (heartbeat_failed c s handshake)
  heartbeat_written beat c request_id handshake (some (ok u, s)) = ack_read c request_id handshake (
      read_frame t (deadline_after beat.header_now c.io_timeout_ms)
        (deadline_after beat.payload_now c.io_timeout_ms) s)

  unfoldable pub heartbeat_sealed :
      Beat
      → LicenseClient S
      → ℕ
      → S
      → Result RecordError Bytes × ClientHandshake
      → Option (LicenseClient S)
  unfolding heartbeat_written heartbeat_failed
  heartbeat_sealed beat c request_id s (err e, handshake) = some (heartbeat_failed c s handshake)
  heartbeat_sealed beat c request_id s (ok bytes, handshake) =
      heartbeat_written beat c request_id handshake
        (write_frame t bytes (deadline_after beat.write_now c.io_timeout_ms) s)

  unfoldable pub heartbeat_encoded :
      Beat
      → LicenseClient S
      → ℕ
      → S
      → ClientHandshake
      → Result MessageError Bytes
      → Option (LicenseClient S)
  unfolding heartbeat_sealed heartbeat_failed
  heartbeat_encoded beat c request_id s handshake (err e) = some (heartbeat_failed c s handshake)
  heartbeat_encoded beat c request_id s handshake (ok bytes) =
      heartbeat_sealed beat c request_id s (seal_client o fb handshake bytes)

  -- No result where a pointer is null.
  unfoldable pub heartbeat_over :
      Beat → LicenseClient S → Option S → Option ClientHandshake → Option (LicenseClient S)
  unfolding heartbeat_encoded
  heartbeat_over beat c (some s) (some handshake) =
      heartbeat_encoded beat (record c { next_request_id = u64 (c.next_request_id + 1) })
        c.next_request_id s handshake
        (encode_heartbeat fb (record {
          request_id = c.next_request_id;
          protocol_version = handshake.selected_version;
          session_id = c.session_id;
        }))
  heartbeat_over beat c (some s) none = none
  heartbeat_over beat c none handshake = none

  -- One round of the thread, where it runs.
  unfoldable pub heartbeat : Beat → LicenseClient S → Option (LicenseClient S)
  unfolding heartbeat_over
  heartbeat beat c = if c.beating then heartbeat_over beat c c.transport c.handshake else some c
