-- ===== src/Protocol/Handshake/Server.antt =====
-- ServerHandshake (handshake.cpp). Every call returns the object as it leaves it, beside its result.
pub mod Answering
pub mod Finishing
use yo_authorize.Protocol.Handshake.{
  HandshakeState, HandshakeError, Bytes, OpenSsl, failed, SessionKeys, ClientHelloMessage,
  HandshakeTranscript, ServerHelloMessage, transcript_for, is_established, invalid_message,
  key_exchange_failed, is_initial, invalid_finished, invalid_state, is_awaiting_finished,
  record_key, exchange_keys, internal_error, awaiting_finished, established, unsupported_version,
  initial,
}
use yo_authorize.Prelude.{
  Bytes, none, ℕ, Option, Result, err, if◌then◌else◌, ◌>>=◌, map_err, ok, some, not, ◌>>◌, fail_if,
  ◌==◌, ltb, ◌||◌, min, bytes_eq, max, zeros,
}
use yo_authorize.Crypto.{
  cleanse, KeyPair, sign_ed25519, generate_x25519_key_pair, random_bytes, key_size, sha256_size,
  signature_size,
}
use yo_authorize.OpenSsl.{OpenSsl}
use yo_authorize.Protocol.Envelope.{EnvelopeBuffers}
use yo_authorize.Crypto.Transcript.{
  SessionKeys, HandshakeTranscript, encode_transcript, hash_transcript,
}
use yo_authorize.Protocol.Messages.{
  ClientHelloMessage, MessageError, ClientFinishedMessage, ServerHelloMessage,
}
use yo_authorize.Protocol.Record.{
  RecordWriter, RecordError, RecordReader, invalid_frame, new_reader, seal, open_record, new_writer,
}
use yo_authorize.Protocol.Messages.Hello.{
  encode_server_hello, decode_client_hello, decode_client_finished,
}
use yo_authorize.Protocol.Frame.{unsupported_version}

pub record ServerHandshake : Type 0 where
  pub service_key_id : Bytes
  pub identity_private_key : Bytes
  pub min_version : ℕ
  pub max_version : ℕ
  pub selected_version : ℕ
  pub request_id : ℕ
  pub transcript_hash : Bytes
  pub writer : Option RecordWriter
  pub reader : Option RecordReader
  pub state : HandshakeState

abbrev pub new_server : Bytes → Bytes → ℕ → ℕ → ServerHandshake
new_server service_key_id identity_private_key min_version max_version = record {
  service_key_id = service_key_id;
  identity_private_key = identity_private_key;
  min_version = min_version;
  max_version = max_version;
  selected_version = 0;
  request_id = 0;
  transcript_hash = zeros sha256_size;
  writer = none;
  reader = none;
  state = initial;
}

abbrev wipe : ServerHandshake → ServerHandshake
wipe h = record h { identity_private_key = cleanse h.identity_private_key }

abbrev pub fail : ServerHandshake → ServerHandshake
fail h = record (wipe h) { writer = none; reader = none; state = failed }

-- What the answer to a client hello settles.
pub record Answer : Type 0 where
  pub encoded : Bytes
  pub selected_version : ℕ
  pub transcript_hash : Bytes
  pub keys : SessionKeys

module _ (o : OpenSsl) (fb : EnvelopeBuffers) where
  -- The server hello and its key pair; the signature is still to be made.
  unfoldable pub draw_server_hello :
      ServerHandshake
      → ClientHelloMessage
      → Option Bytes
      → Option Bytes
      → Result HandshakeError (KeyPair × ServerHelloMessage)
  draw_server_hello h client nonce_draw key_draw = do
    fail_if (ltb (min h.max_version client.max_version) (max h.min_version client.min_version))
        unsupported_version
    ephemeral ← map_err internal_error (generate_x25519_key_pair o key_draw)
    nonce ← map_err internal_error (random_bytes key_size nonce_draw)
    ok (
      ephemeral,
      record {
        request_id = client.request_id;
        selected_version = min h.max_version client.max_version;
        nonce = nonce;
        public_key = ephemeral.public_key;
        service_key_id = h.service_key_id;
        signature = zeros signature_size;
      },
    )

  -- The transcript's hash and the signature over the transcript.
  unfoldable pub sign_transcript :
      ServerHandshake → HandshakeTranscript → Result HandshakeError (Bytes × Bytes)
  sign_transcript h transcript = do
    encoded_transcript ← map_err invalid_message (encode_transcript transcript)
    transcript_hash ← map_err invalid_message (hash_transcript o transcript)
    signature ← map_err internal_error (sign_ed25519 o h.identity_private_key encoded_transcript)
    ok (transcript_hash, signature)

  -- The unsigned hello is signed and encoded, and the keys are derived.
  unfoldable pub complete_server_hello :
      ServerHandshake
      → ClientHelloMessage
      → KeyPair
      → ServerHelloMessage
      → Result HandshakeError Answer
  complete_server_hello h client ephemeral unsigned = do
    (transcript_hash, signature) ← sign_transcript h (transcript_for client unsigned)
    encoded ←
        map_err key_exchange_failed
          (encode_server_hello fb (record unsigned { signature = signature }))
    keys ← exchange_keys o ephemeral.private_key client.public_key transcript_hash
    ok (record {
      encoded = encoded;
      selected_version = unsigned.selected_version;
      transcript_hash = transcript_hash;
      keys = keys;
    })

  unfoldable pub answer_client_hello :
      ServerHandshake
      → ClientHelloMessage
      → Option Bytes
      → Option Bytes
      → Result HandshakeError Answer
  answer_client_hello h client nonce_draw key_draw = do
    (ephemeral, unsigned) ← draw_server_hello h client nonce_draw key_draw
    complete_server_hello h client ephemeral unsigned

  unfoldable pub client_hello_answered :
      ServerHandshake
      → ℕ
      → Result HandshakeError Answer
      → Result HandshakeError Bytes × ServerHandshake
  client_hello_answered h request_id (err e) = (err e, fail h)
  client_hello_answered h request_id (ok answer) = (
    ok answer.encoded,
    record (wipe h) {
      request_id = request_id;
      selected_version = answer.selected_version;
      transcript_hash = answer.transcript_hash;
      reader = some (new_reader (record_key answer.keys.client_to_service));
      writer = some (new_writer (record_key answer.keys.service_to_client));
      state = awaiting_finished;
    },
  )

  unfoldable pub client_hello_decoded :
      ServerHandshake
      → Option Bytes
      → Option Bytes
      → Option (Result MessageError ClientHelloMessage)
      → Option (Result HandshakeError Bytes × ServerHandshake)
  unfolding client_hello_answered
  client_hello_decoded h nonce_draw key_draw none = none
  client_hello_decoded h nonce_draw key_draw (some (err e)) = some (err invalid_message, fail h)
  client_hello_decoded h nonce_draw key_draw (some (ok client)) =
      some (
        client_hello_answered h client.request_id
          (answer_client_hello h client nonce_draw key_draw))

  -- `none` where the decoder has no result.
  unfoldable pub handle_client_hello :
      ServerHandshake
      → Bytes
      → Option Bytes
      → Option Bytes
      → Option (Result HandshakeError Bytes × ServerHandshake)
  unfolding client_hello_decoded
  handle_client_hello h message nonce_draw key_draw =
      if not (is_initial h.state)
      then some (err invalid_state, fail h)
      else client_hello_decoded h nonce_draw key_draw (decode_client_hello fb message)

  unfoldable pub finished_decoded :
      ServerHandshake
      → Option (Result MessageError ClientFinishedMessage)
      → Option (Result HandshakeError (Unit {0}) × ServerHandshake)
  finished_decoded h none = none
  finished_decoded h (some (err e)) = some (err invalid_finished, fail h)
  finished_decoded h (some (ok finished)) =
      if not (finished.request_id == h.request_id)
        || not (finished.protocol_version == h.selected_version)
        || not (bytes_eq finished.transcript_hash h.transcript_hash)
      then some (err invalid_finished, fail h)
      else some (ok tt, record h { state = established })

  unfoldable pub finished_opened :
      ServerHandshake
      → Result RecordError Bytes × RecordReader
      → Option (Result HandshakeError (Unit {0}) × ServerHandshake)
  unfolding finished_decoded
  finished_opened h (err e, reader) = some (err invalid_finished, fail h)
  finished_opened h (ok plaintext, reader) =
      finished_decoded (record h { reader = some reader }) (decode_client_finished fb plaintext)

  unfoldable pub finished_read :
      ServerHandshake
      → Option RecordReader
      → Bytes
      → Option (Result HandshakeError (Unit {0}) × ServerHandshake)
  unfolding finished_opened
  finished_read h none encrypted_frame = some (err invalid_state, fail h)
  finished_read h (some reader) encrypted_frame =
      finished_opened h (open_record o reader encrypted_frame)

  -- `ok tt` is `HandshakeError::None`; `none` where the decoder has no result.
  unfoldable pub handle_client_finished :
      ServerHandshake → Bytes → Option (Result HandshakeError (Unit {0}) × ServerHandshake)
  unfolding finished_read
  handle_client_finished h encrypted_frame =
      if not (is_awaiting_finished h.state)
      then some (err invalid_state, fail h)
      else finished_read h h.reader encrypted_frame

  unfoldable pub sealed_by :
      ServerHandshake → Option RecordWriter → Bytes → Result RecordError Bytes × ServerHandshake
  sealed_by h none plaintext = (err invalid_frame, h)
  sealed_by h (some writer) plaintext =
      let (result, writer') = seal o writer plaintext in
      (result, record h { writer = some writer' })

  unfoldable pub seal_server : ServerHandshake → Bytes → Result RecordError Bytes × ServerHandshake
  unfolding sealed_by
  seal_server h plaintext =
      if is_established h.state then sealed_by h h.writer plaintext else (err invalid_frame, h)

  unfoldable pub opened_by :
      ServerHandshake → Option RecordReader → Bytes → Result RecordError Bytes × ServerHandshake
  opened_by h none frame = (err invalid_frame, h)
  opened_by h (some reader) frame =
      let (result, reader') = open_record o reader frame in
      (result, record h { reader = some reader' })

  unfoldable pub open_server : ServerHandshake → Bytes → Result RecordError Bytes × ServerHandshake
  unfolding opened_by
  open_server h frame =
      if is_established h.state then opened_by h h.reader frame else (err invalid_frame, h)
