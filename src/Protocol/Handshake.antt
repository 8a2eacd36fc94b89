-- ===== src/Protocol/Handshake.antt =====
-- What the two ends of the handshake share (protocol/handshake.h, handshake.cpp).
pub mod Client
pub mod Server
pub mod Exchange
pub mod Agreement
use yo_authorize.Crypto.Transcript.{
  HandshakeTranscript, DirectionalKey, SessionKeys, derive_session_keys,
}
use yo_authorize.Prelude.{Bool, true, Bytes, false, Result, map_err, ◌>>=◌}
use yo_authorize.Protocol.Record.{RecordKey}
use yo_authorize.Protocol.Messages.{ClientHelloMessage, ServerHelloMessage}
use yo_authorize.OpenSsl.{OpenSsl}
use yo_authorize.Crypto.{derive_x25519}

pub data HandshakeError : Type 0 where
  invalid_state invalid_message unsupported_version unknown_service_key : HandshakeError
  invalid_service_signature key_exchange_failed invalid_finished internal_error : HandshakeError

pub data HandshakeState : Type 0 where
  initial hello_sent awaiting_finished established failed : HandshakeState

-- `state_ == …`
abbrev pub is_initial : HandshakeState → Bool
is_initial initial = true
is_initial _ = false

abbrev pub is_hello_sent : HandshakeState → Bool
is_hello_sent hello_sent = true
is_hello_sent _ = false

abbrev pub is_awaiting_finished : HandshakeState → Bool
is_awaiting_finished awaiting_finished = true
is_awaiting_finished _ = false

abbrev pub is_established : HandshakeState → Bool
is_established established = true
is_established _ = false

abbrev pub record_key : DirectionalKey → RecordKey
record_key key = record { key = key.key; nonce_salt = key.nonce_salt }

abbrev pub transcript_for : ClientHelloMessage → ServerHelloMessage → HandshakeTranscript
transcript_for client server = record {
  min_version = client.min_version;
  max_version = client.max_version;
  selected_version = server.selected_version;
  client_nonce = client.nonce;
  server_nonce = server.nonce;
  client_public_key = client.public_key;
  server_public_key = server.public_key;
  service_key_id = server.service_key_id;
}

-- The shared secret, then the keys of both directions.
unfoldable pub exchange_keys : OpenSsl → Bytes → Bytes → Bytes → Result HandshakeError SessionKeys
exchange_keys o private_key peer_public_key transcript_hash = map_err key_exchange_failed (do
  shared ← derive_x25519 o private_key peer_public_key
  derive_session_keys o shared transcript_hash)
