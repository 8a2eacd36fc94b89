-- ===== src/Service/Connection/Fault.antt =====
-- A first frame whose hello has no table (service/connection.cpp, protocol/messages.cpp).
use yo_authorize.Protocol.Handshake.Server.{handle_client_hello}
use yo_authorize.Service.Connection.{
  Connection, OpenSsl, EnvelopeBuffers, ℕ, wrap_plaintext, Bytes, decode_frame,
  default_max_payload_size, u32, SessionManager, Draws, awaiting_hello,
}
use yo_authorize.Service.Connection.Handling.{
  handle, handle_in, handle_hello, hello_decoded, hello_answered,
}
use yo_authorize.Protocol.Envelope.{IsEnvelopeBuffers, client_hello}
use yo_authorize.Protocol.Messages.Hello.{decode_client_hello, as_client_hello, read_client_hello}
use yo_authorize.Prelude.{◌≢◌, ◌<◌, none, length, ◌≤◌, ◌≡◌, ok, refl, arith, ap, ◌++◌, ◌∙◌}
use yo_authorize.Protocol.Handshake.Server.{client_hello_decoded}
use yo_authorize.Protocol.Messages.Decoding.{decode_body-build}
use yo_authorize.Protocol.Messages.{handshake_version}
use yo_authorize.Protocol.Frame.{FrameHeader, encode_header}
use yo_authorize.Protocol.Frame.Codec.{IsHeader, decode_frame-encode}
use yo_authorize.Protocol.Handshake.{initial}

-- A client hello by its tag, without its table.
abbrev pub absent_hello : EnvelopeBuffers → ℕ → Bytes
absent_hello fb request_id =
    fb.build (record { protocol_version = 0; request_id = request_id; body = client_hello none })

module _ (o : OpenSsl) (fb : EnvelopeBuffers) (ok_fb : IsEnvelopeBuffers fb) where
  decode_client_hello-absent :
      (request_id : ℕ)
      → request_id ≢ 0
      → length (absent_hello fb request_id) ≤ 1048576
      → decode_client_hello fb (absent_hello fb request_id) ≡ none
  unfolding decode_client_hello as_client_hello
  decode_client_hello-absent request_id q small =
      decode_body-build fb ok_fb handshake_version as_client_hello read_client_hello _ none small
        refl q refl

  decode_frame-wrap_plaintext :
      (payload : Bytes)
      → 0 < length payload
      → length payload ≤ 1048576
      → decode_frame (wrap_plaintext payload) default_max_payload_size
        ≡ ok (record {
          header = record { version = 1; flags = 0; sequence = 0; payload_size = length payload };
          payload = payload;
        })
  unfolding wrap_plaintext
  decode_frame-wrap_plaintext payload n b =
      let header : FrameHeader = record {
        version = 1;
        flags = 0;
        sequence = 0;
        payload_size = length payload;
      } in
      let size : u32 (length payload) ≡ length payload = omega arith in
      let valid : IsHeader default_max_payload_size header = record {
        version = refl;
        flags = omega arith;
        sequence = omega arith;
        nonempty = n;
        bounded = b;
      } in
      ap
        (λ x.
          decode_frame (encode_header (record header { payload_size = x }) ++ payload)
            default_max_payload_size)
        size
      ∙ decode_frame-encode default_max_payload_size header payload valid (omega arith) refl

  -- A connection that awaits its hello, given a plaintext frame with a client hello by its tag but
  -- without its table, of at most 1 MiB and with a request number, has no result: the decoder
  -- reads a field through a null pointer. Asked of FlatBuffers is that buffers that it built
  -- verify and read back.
  pub handle-absent_hello :
      (c : Connection) (m : SessionManager) (request_id now now_unix : ℕ) (draws : Draws)
      → c.state ≡ awaiting_hello
      → c.handshake.state ≡ initial
      → request_id ≢ 0
      → length (absent_hello fb request_id) ≤ 1048576
      → handle o fb c m (wrap_plaintext (absent_hello fb request_id)) now now_unix draws ≡ none
  unfolding handle handle_in handle_hello hello_decoded hello_answered handle_client_hello
      client_hello_decoded
  handle-absent_hello c m request_id now now_unix draws s i q small =
      let long =
        ok_fb.size
          (record { protocol_version = 0; request_id = request_id; body = client_hello none }) in
      ground (
        arith,
        s,
        i,
        decode_client_hello-absent request_id q small,
        decode_frame-wrap_plaintext (absent_hello fb request_id) (omega (arith, long)) small,
      )
