-- ===== src/Protocol/Messages/Hello/RoundTrip.antt =====
-- The codecs of the handshake's messages (protocol/messages.cpp).
use yo_authorize.Protocol.Messages.Decoding.{decode_body-encoded}
use yo_authorize.Protocol.Envelope.{EnvelopeBuffers, IsEnvelopeBuffers}
use yo_authorize.Prelude.{Bytes, length, ◌≤◌, ◌≡◌, ok, some, arith, refl}
use yo_authorize.Protocol.Messages.Hello.{
  encode_client_hello, encode_server_hello, encode_client_finished, decode_client_hello,
  decode_server_hello, decode_client_finished, as_client_hello, as_server_hello, as_client_finished,
  read_client_hello, read_server_hello, read_client_finished, ClientHelloMessage,
  ServerHelloMessage, ClientFinishedMessage, client_hello_envelope, server_hello_envelope,
  client_finished_envelope,
}
use yo_authorize.Protocol.Messages.{
  ClientHelloMessage, ServerHelloMessage, ClientFinishedMessage, handshake_version,
  application_version,
}

module _ (fb : EnvelopeBuffers) (ok_fb : IsEnvelopeBuffers fb) {bytes : Bytes}
    (small : length bytes ≤ 1048576) where
  -- A client hello with a 32-byte nonce and key that is encoded, in at most 1 MiB, decodes to
  -- itself, where FlatBuffers' buffers read back.
  pub decode-encode_client_hello :
      (m : ClientHelloMessage)
      → length m.nonce ≡ 32
      → length m.public_key ≡ 32
      → encode_client_hello fb m ≡ ok bytes
      → decode_client_hello fb bytes ≡ some (ok m)
  unfolding encode_client_hello decode_client_hello as_client_hello read_client_hello
  decode-encode_client_hello m n k e =
      decode_body-encoded fb ok_fb handshake_version as_client_hello read_client_hello
        (client_hello_envelope m) _ _ e small refl (λ good. ground (arith, good, n, k))

  -- A server hello with a 32-byte nonce and key and a 64-byte signature that is encoded, in at
  -- most 1 MiB, decodes to itself, where FlatBuffers' buffers read back.
  pub decode-encode_server_hello :
      (m : ServerHelloMessage)
      → length m.nonce ≡ 32
      → length m.public_key ≡ 32
      → length m.signature ≡ 64
      → encode_server_hello fb m ≡ ok bytes
      → decode_server_hello fb bytes ≡ some (ok m)
  unfolding encode_server_hello decode_server_hello as_server_hello read_server_hello
  decode-encode_server_hello m n k s e =
      decode_body-encoded fb ok_fb handshake_version as_server_hello read_server_hello
        (server_hello_envelope m) _ _ e small refl (λ good. ground (arith, good, n, k, s))

  -- A finished message with a 32-byte hash that is encoded, in at most 1 MiB, decodes to itself,
  -- where FlatBuffers' buffers read back.
  pub decode-encode_client_finished :
      (m : ClientFinishedMessage)
      → length m.transcript_hash ≡ 32
      → encode_client_finished fb m ≡ ok bytes
      → decode_client_finished fb bytes ≡ some (ok m)
  unfolding encode_client_finished decode_client_finished as_client_finished read_client_finished
  decode-encode_client_finished m n e =
      decode_body-encoded fb ok_fb application_version as_client_finished read_client_finished
        (client_finished_envelope m) _ _ e small refl (λ good. ground (arith, good, n))
