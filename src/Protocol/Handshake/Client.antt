-- ===== src/Protocol/Handshake/Client.antt =====
-- ClientHandshake (handshake.cpp). Every call returns the object as it leaves it, beside its result.
pub mod Accepting
pub mod Starting
pub mod Order
pub mod Reach
use yo_authorize.Protocol.Handshake.{
  HandshakeState, HandshakeError, ClientHelloMessage, OpenSsl, failed, HandshakeTranscript,
  ServerHelloMessage, invalid_service_signature, is_established, invalid_message,
  key_exchange_failed, internal_error, is_initial, is_hello_sent, hello_sent, established,
  record_key, invalid_state, unsupported_version, unknown_service_key, transcript_for,
  exchange_keys, initial,
}
use yo_authorize.Tables.{Table, find}
use yo_authorize.Crypto.{
  KeyPair, cleanse, CryptoError, generate_x25519_key_pair, random_bytes, verify_ed25519, key_size,
}
use yo_authorize.Prelude.{
  none, Bytes, ℕ, Result, Option, if◌then◌else◌, map_err, err, not, some, ◌>>◌, fail_if, ok, ◌>>=◌,
  ◌||◌, ◌==◌, ltb, or_fail, zeros,
}
use yo_authorize.Protocol.Messages.{ClientHelloMessage, ServerHelloMessage, MessageError}
use yo_authorize.OpenSsl.{OpenSsl}
use yo_authorize.Protocol.Envelope.{EnvelopeBuffers}
use yo_authorize.Crypto.Transcript.{
  HandshakeTranscript, SessionKeys, encode_transcript, hash_transcript,
}
use yo_authorize.Protocol.Record.{
  RecordWriter, RecordReader, RecordError, new_writer, invalid_frame, seal, open_record, new_reader,
}
use yo_authorize.Protocol.Messages.Hello.{
  encode_client_hello, encode_client_finished, decode_server_hello,
}
use yo_authorize.Protocol.Frame.{unsupported_version}

pub record ClientHandshake : Type 0 where
  pub trusted_keys : Table Bytes
  pub sdk_version : Bytes
  pub request_id : ℕ
  pub min_version : ℕ
  pub max_version : ℕ
  pub selected_version : ℕ
  pub nonce : Bytes
  pub ephemeral : KeyPair
  pub writer : Option RecordWriter
  pub reader : Option RecordReader
  pub state : HandshakeState

abbrev pub new_client : Table Bytes → Bytes → ℕ → ℕ → ℕ → ClientHandshake
new_client trusted_keys sdk_version request_id min_version max_version = record {
  trusted_keys = trusted_keys;
  sdk_version = sdk_version;
  request_id = request_id;
  min_version = min_version;
  max_version = max_version;
  selected_version = 0;
  nonce = zeros key_size;
  ephemeral = record { private_key = zeros key_size; public_key = zeros key_size };
  writer = none;
  reader = none;
  state = initial;
}

abbrev wipe : KeyPair → KeyPair
wipe pair = record pair { private_key = cleanse pair.private_key }

abbrev pub fail : ClientHandshake → ClientHandshake
fail h = record h { ephemeral = wipe h.ephemeral; writer = none; reader = none; state = failed }

abbrev pub client_hello_of : ClientHandshake → ClientHelloMessage
client_hello_of h = record {
  request_id = h.request_id;
  min_version = h.min_version;
  max_version = h.max_version;
  nonce = h.nonce;
  public_key = h.ephemeral.public_key;
  sdk_version = h.sdk_version;
}

-- The handshake with its keys and the version, before the finished message goes out.
abbrev keyed : ClientHandshake → ℕ → SessionKeys → ClientHandshake
keyed h selected_version keys = record h {
  writer = some (new_writer (record_key keys.client_to_service));
  reader = some (new_reader (record_key keys.service_to_client));
  ephemeral = wipe h.ephemeral;
  selected_version = selected_version;
}

module _ (o : OpenSsl) (fb : EnvelopeBuffers) where
  unfoldable pub hello_encoded :
      ClientHandshake → Result MessageError Bytes → Result HandshakeError Bytes × ClientHandshake
  hello_encoded h (err e) = (err invalid_message, fail h)
  hello_encoded h (ok encoded) = (ok encoded, record h { state = hello_sent })

  unfoldable pub key_generated :
      ClientHandshake → Result CryptoError KeyPair → Result HandshakeError Bytes × ClientHandshake
  unfolding hello_encoded
  key_generated h (err e) = (err key_exchange_failed, fail h)
  key_generated h (ok key_pair) =
      let h' = record h { ephemeral = key_pair } in
      hello_encoded h' (encode_client_hello fb (client_hello_of h'))

  unfoldable pub nonce_drawn :
      ClientHandshake
      → Option Bytes
      → Result CryptoError Bytes
      → Result HandshakeError Bytes × ClientHandshake
  unfolding key_generated
  nonce_drawn h key_draw (err e) = (err internal_error, fail h)
  nonce_drawn h key_draw (ok nonce) =
      key_generated (record h { nonce = nonce }) (generate_x25519_key_pair o key_draw)

  -- The draws are the generator's, for the nonce and for the private key.
  unfoldable pub start :
      ClientHandshake → Option Bytes → Option Bytes → Result HandshakeError Bytes × ClientHandshake
  unfolding nonce_drawn
  start h nonce_draw key_draw =
      if not (is_initial h.state)
        || h.request_id == 0
        || h.min_version == 0
        || ltb h.max_version h.min_version
      then (err invalid_state, fail h)
      else nonce_drawn h key_draw (random_bytes key_size nonce_draw)

  -- The transcript's hash, where the signature over the transcript is the trusted key's.
  unfoldable pub verified_hash : Bytes → HandshakeTranscript → Bytes → Result HandshakeError Bytes
  verified_hash trusted_key transcript signature = map_err invalid_service_signature (do
    encoded_transcript ← encode_transcript transcript
    transcript_hash ← hash_transcript o transcript
    verify_ed25519 o trusted_key encoded_transcript signature
    ok transcript_hash)

  -- The tests of a server hello, up to the keys.
  unfoldable pub check_server_hello :
      ClientHandshake → ServerHelloMessage → Result HandshakeError (Bytes × SessionKeys)
  check_server_hello h server = do
    fail_if (not (server.request_id == h.request_id)) invalid_message
    fail_if (ltb server.selected_version h.min_version || ltb h.max_version server.selected_version)
        unsupported_version
    trusted_key ← or_fail (find server.service_key_id h.trusted_keys) unknown_service_key
    transcript_hash ←
        verified_hash trusted_key (transcript_for (client_hello_of h) server) server.signature
    keys ← exchange_keys o h.ephemeral.private_key server.public_key transcript_hash
    ok (transcript_hash, keys)

  unfoldable pub finished_sealed :
      ClientHandshake
      → Result RecordError Bytes × RecordWriter
      → Result HandshakeError Bytes × ClientHandshake
  finished_sealed h (err e, writer) = (err internal_error, fail h)
  finished_sealed h (ok bytes, writer) =
      (ok bytes, record h { writer = some writer; state = established })

  unfoldable pub finished_encoded :
      ClientHandshake
      → RecordWriter
      → Result MessageError Bytes
      → Result HandshakeError Bytes × ClientHandshake
  unfolding finished_sealed
  finished_encoded h writer (err e) = (err invalid_message, fail h)
  finished_encoded h writer (ok finished) = finished_sealed h (seal o writer finished)

  unfoldable pub server_hello_checked :
      ClientHandshake
      → ℕ
      → Result HandshakeError (Bytes × SessionKeys)
      → Result HandshakeError Bytes × ClientHandshake
  unfolding finished_encoded
  server_hello_checked h selected_version (err e) = (err e, fail h)
  server_hello_checked h selected_version (ok (transcript_hash, keys)) =
      finished_encoded (keyed h selected_version keys)
        (new_writer (record_key keys.client_to_service))
        (encode_client_finished fb (record {
          request_id = h.request_id;
          protocol_version = selected_version;
          transcript_hash = transcript_hash;
        }))

  unfoldable pub server_hello_decoded :
      ClientHandshake
      → Option (Result MessageError ServerHelloMessage)
      → Option (Result HandshakeError Bytes × ClientHandshake)
  unfolding server_hello_checked
  server_hello_decoded h none = none
  server_hello_decoded h (some (err e)) = some (err invalid_message, fail h)
  server_hello_decoded h (some (ok server)) =
      some (server_hello_checked h server.selected_version (check_server_hello h server))

  -- `none` where the decoder has no result.
  unfoldable pub handle_server_hello :
      ClientHandshake → Bytes → Option (Result HandshakeError Bytes × ClientHandshake)
  unfolding server_hello_decoded
  handle_server_hello h message =
      if not (is_hello_sent h.state)
      then some (err invalid_state, fail h)
      else server_hello_decoded h (decode_server_hello fb message)

  unfoldable pub sealed_by :
      ClientHandshake → Option RecordWriter → Bytes → Result RecordError Bytes × ClientHandshake
  sealed_by h none plaintext = (err invalid_frame, h)
  sealed_by h (some writer) plaintext =
      let (result, writer') = seal o writer plaintext in
      (result, record h { writer = some writer' })

  unfoldable pub seal_client : ClientHandshake → Bytes → Result RecordError Bytes × ClientHandshake
  unfolding sealed_by
  seal_client h plaintext =
      if is_established h.state then sealed_by h h.writer plaintext else (err invalid_frame, h)

  unfoldable pub opened_by :
      ClientHandshake → Option RecordReader → Bytes → Result RecordError Bytes × ClientHandshake
  opened_by h none frame = (err invalid_frame, h)
  opened_by h (some reader) frame =
      let (result, reader') = open_record o reader frame in
      (result, record h { reader = some reader' })

  unfoldable pub open_client : ClientHandshake → Bytes → Result RecordError Bytes × ClientHandshake
  unfolding opened_by
  open_client h frame =
      if is_established h.state then opened_by h h.reader frame else (err invalid_frame, h)
