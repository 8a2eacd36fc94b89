-- ===== src/Protocol/Envelope.antt =====
-- Envelopes (schema/protocol.fbs; protocol/envelope.h, envelope.cpp). The code that the FlatBuffers
-- compiler generates, and the verifier and builder that it calls, are parameters.
use yo_authorize.Prelude.{
  ℕ, Bytes, Bool, true, ◌≡◌, ◌≤◌, List, Option, length, ltb, ◌||◌, not, if◌then◌else◌, empty,
  Result, ok, err, ◌+◌,
}

-- A table field that may be absent is an `Option`; an enum is its number.
pub record ClientHelloTable : Type 0 where
  pub min_protocol_version : ℕ
  pub max_protocol_version : ℕ
  pub client_nonce : Option Bytes
  pub ephemeral_public_key : Option Bytes
  pub sdk_version : Option Bytes

pub record ServerHelloTable : Type 0 where
  pub selected_protocol_version : ℕ
  pub server_nonce : Option Bytes
  pub ephemeral_public_key : Option Bytes
  pub service_key_id : Option Bytes
  pub signature : Option Bytes

pub record AuthorizeTable : Type 0 where
  pub product_id : Option Bytes
  pub process_id : ℕ
  pub process_start_time : ℕ

pub record AuthResultTable : Type 0 where
  pub error : ℕ
  pub session_id : Option Bytes
  pub features : Option (List (Option Bytes))
  pub expire_time : ℕ
  pub heartbeat_interval_ms : ℕ
  pub heartbeat_timeout_ms : ℕ

pub record HeartbeatAckTable : Type 0 where
  pub state : ℕ
  pub features : Option (List (Option Bytes))
  pub expire_time : ℕ

pub record ErrorTable : Type 0 where
  pub code : ℕ
  pub message : Option Bytes

-- The union `Message` with its tag. The field `body` is not required by the schema, so a tag may
-- come with no table. A table of one field is that field. The members that the program neither
-- writes nor reads are one constructor, with their tag.
pub data Body : Type 0 where
  client_hello : Option ClientHelloTable → Body
  server_hello : Option ServerHelloTable → Body
  client_finished : Option (Option Bytes) → Body
  authorize : Option AuthorizeTable → Body
  auth_result : Option AuthResultTable → Body
  heartbeat : Option (Option Bytes) → Body
  heartbeat_ack : Option HeartbeatAckTable → Body
  close_session : Option (Unit {0}) → Body
  error : Option ErrorTable → Body
  other : ℕ → Body

pub record Envelope : Type 0 where
  pub protocol_version : ℕ
  pub request_id : ℕ
  pub body : Body

pub record EnvelopeBuffers : Type 0 where
  -- EnvelopeBufferHasIdentifier
  pub has_identifier : Bytes → Bool
  -- VerifyEnvelopeBuffer under `max_depth` and `max_tables`
  pub verify : ℕ → ℕ → Bytes → Bool
  -- GetEnvelope, of a buffer that was verified
  pub get : Bytes → Envelope
  -- the bytes that CreateEnvelope and FinishEnvelopeBuffer leave in the builder
  pub build : Envelope → Bytes

-- What FlatBuffers documents: a finished buffer starts with an offset and the identifier, is
-- accepted by the verifier, and reads back as it was written. Asked of buffers of up to 1 MiB.
pub record IsEnvelopeBuffers (fb : EnvelopeBuffers) : Type 0 where
  pub size : (e : Envelope) → 8 ≤ length (fb.build e)
  pub identifier : (e : Envelope) → fb.has_identifier (fb.build e) ≡ true
  pub verifies :
      (e : Envelope) → length (fb.build e) ≤ 1048576 → fb.verify 16 256 (fb.build e) ≡ true
  pub reads : (e : Envelope) → length (fb.build e) ≤ 1048576 → fb.get (fb.build e) ≡ e

pub data EnvelopeError : Type 0 where
  empty_buffer too_large invalid_identifier invalid_buffer : EnvelopeError

-- `ok tt` is `EnvelopeError::None`.
unfoldable pub verify_envelope :
    EnvelopeBuffers → Bytes → ℕ → ℕ → ℕ → Result EnvelopeError (Unit {0})
verify_envelope fb bytes max_size max_depth max_tables =
    if empty bytes
    then err empty_buffer
    else if ltb max_size (length bytes)
    then err too_large
    else if ltb (length bytes) (4 + 4) || not (fb.has_identifier bytes)
    then err invalid_identifier
    else if fb.verify max_depth max_tables bytes
    then ok tt
    else err invalid_buffer
