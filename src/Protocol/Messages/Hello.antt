-- ===== src/Protocol/Messages/Hello.antt =====
-- The three messages of the handshake, encoded and decoded (messages.cpp).
pub mod RoundTrip
use yo_authorize.Prelude.{
  some, none, ok, err, Option, Bytes, Result, ◌>>◌, ◌>>=◌, if◌then◌else◌, fail_if, ◌==◌, ◌||◌, ltb,
  empty, length,
}
use yo_authorize.FlatBuffers.{str}
use yo_authorize.Protocol.Envelope.{
  EnvelopeBuffers, Body, Envelope, ClientHelloTable, ServerHelloTable, client_finished,
  client_hello, server_hello,
}
use yo_authorize.Protocol.Messages.{
  ClientHelloMessage, ServerHelloMessage, ClientFinishedMessage, MessageError, decode_body,
  copy_fixed, handshake_version, application_version, invalid_field, max_sdk_version_size,
  max_key_id_size, finish,
}
use yo_authorize.Crypto.{sha256_size, key_size, signature_size}

unfoldable pub as_client_hello : Body → Option (Option ClientHelloTable)
as_client_hello (client_hello body) = some body
as_client_hello _ = none

unfoldable pub as_server_hello : Body → Option (Option ServerHelloTable)
as_server_hello (server_hello body) = some body
as_server_hello _ = none

unfoldable pub as_client_finished : Body → Option (Option (Option Bytes))
as_client_finished (client_finished body) = some body
as_client_finished _ = none

unfoldable pub read_client_hello :
    Envelope → ClientHelloTable → Result MessageError ClientHelloMessage
read_client_hello e body = do
  fail_if
      (body.min_protocol_version == 0
        || ltb body.max_protocol_version body.min_protocol_version
        || empty (str body.sdk_version)
        || ltb max_sdk_version_size (length (str body.sdk_version)))
      invalid_field
  nonce ← copy_fixed key_size body.client_nonce
  public_key ← copy_fixed key_size body.ephemeral_public_key
  ok (record {
    request_id = e.request_id;
    min_version = body.min_protocol_version;
    max_version = body.max_protocol_version;
    nonce = nonce;
    public_key = public_key;
    sdk_version = str body.sdk_version;
  })

unfoldable pub read_server_hello :
    Envelope → ServerHelloTable → Result MessageError ServerHelloMessage
read_server_hello e body = do
  fail_if
      (body.selected_protocol_version == 0
        || empty (str body.service_key_id)
        || ltb max_key_id_size (length (str body.service_key_id)))
      invalid_field
  nonce ← copy_fixed key_size body.server_nonce
  public_key ← copy_fixed key_size body.ephemeral_public_key
  signature ← copy_fixed signature_size body.signature
  ok (record {
    request_id = e.request_id;
    selected_version = body.selected_protocol_version;
    nonce = nonce;
    public_key = public_key;
    service_key_id = str body.service_key_id;
    signature = signature;
  })

unfoldable pub read_client_finished :
    Envelope → Option Bytes → Result MessageError ClientFinishedMessage
read_client_finished e body = do
  transcript_hash ← copy_fixed sha256_size body
  ok (record {
    request_id = e.request_id;
    protocol_version = e.protocol_version;
    transcript_hash = transcript_hash;
  })

abbrev pub client_hello_envelope : ClientHelloMessage → Envelope
client_hello_envelope m = record {
  protocol_version = 0;
  request_id = m.request_id;
  body = client_hello (
      some (record {
        min_protocol_version = m.min_version;
        max_protocol_version = m.max_version;
        client_nonce = some m.nonce;
        ephemeral_public_key = some m.public_key;
        sdk_version = some m.sdk_version;
      }));
}

abbrev pub server_hello_envelope : ServerHelloMessage → Envelope
server_hello_envelope m = record {
  protocol_version = 0;
  request_id = m.request_id;
  body = server_hello (
      some (record {
        selected_protocol_version = m.selected_version;
        server_nonce = some m.nonce;
        ephemeral_public_key = some m.public_key;
        service_key_id = some m.service_key_id;
        signature = some m.signature;
      }));
}

abbrev pub client_finished_envelope : ClientFinishedMessage → Envelope
client_finished_envelope m = record {
  protocol_version = m.protocol_version;
  request_id = m.request_id;
  body = client_finished (some (some m.transcript_hash));
}

module _ (fb : EnvelopeBuffers) where
  unfoldable pub encode_client_hello : ClientHelloMessage → Result MessageError Bytes
  encode_client_hello m =
      if m.request_id == 0
        || m.min_version == 0
        || ltb m.max_version m.min_version
        || empty m.sdk_version
        || ltb max_sdk_version_size (length m.sdk_version)
      then err invalid_field
      else ok (finish fb (client_hello_envelope m))

  unfoldable pub decode_client_hello : Bytes → Option (Result MessageError ClientHelloMessage)
  decode_client_hello = decode_body handshake_version as_client_hello read_client_hello fb

  unfoldable pub encode_server_hello : ServerHelloMessage → Result MessageError Bytes
  encode_server_hello m =
      if m.request_id == 0
        || m.selected_version == 0
        || empty m.service_key_id
        || ltb max_key_id_size (length m.service_key_id)
      then err invalid_field
      else ok (finish fb (server_hello_envelope m))

  unfoldable pub decode_server_hello : Bytes → Option (Result MessageError ServerHelloMessage)
  decode_server_hello = decode_body handshake_version as_server_hello read_server_hello fb

  unfoldable pub encode_client_finished : ClientFinishedMessage → Result MessageError Bytes
  encode_client_finished m =
      if m.request_id == 0 || m.protocol_version == 0
      then err invalid_field
      else ok (finish fb (client_finished_envelope m))

  unfoldable pub decode_client_finished : Bytes → Option (Result MessageError ClientFinishedMessage)
  decode_client_finished =
      decode_body application_version as_client_finished read_client_finished fb
