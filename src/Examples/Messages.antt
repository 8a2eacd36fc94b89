-- ===== src/Examples/Messages.antt =====
-- One message of each kind, over the simple buffers.
use yo_authorize.Protocol.Messages.{
  ClientHelloMessage, ServerHelloMessage, ClientFinishedMessage, AuthorizeMessage,
  AuthResultMessage, HeartbeatAckMessage, finish,
}
use yo_authorize.Protocol.Messages.Hello.{
  encode_client_hello, encode_server_hello, decode_client_hello, decode_server_hello,
  client_hello_envelope, server_hello_envelope,
}
use yo_authorize.Protocol.Messages.Application.{
  encode_auth_result, decode_auth_result, auth_result_envelope,
}
use yo_authorize.Prelude.{
  zeros, codes, some, ◌∷◌, [], ◌≡◌, ok, arith, ap, refl, length, sym, some_injective,
}
use yo_authorize.Examples.Buffers.{buffers, buffers-IsEnvelopeBuffers}
use yo_authorize.Protocol.Messages.Hello.RoundTrip.{
  decode-encode_client_hello, decode-encode_server_hello,
}
use yo_authorize.Protocol.Messages.Application.RoundTrip.{decode-encode_auth_result}

abbrev client_hello_message : ClientHelloMessage
client_hello_message = record {
  request_id = 5;
  min_version = 1;
  max_version = 2;
  nonce = zeros 32;
  public_key = zeros 32;
  sdk_version = codes "1.0";
}

decode-encode_client_hello_example :
    decode_client_hello buffers (buffers.build (client_hello_envelope client_hello_message))
    ≡ some (ok client_hello_message)
unfolding encode_client_hello finish
decode-encode_client_hello_example =
    decode-encode_client_hello buffers buffers-IsEnvelopeBuffers (omega arith) client_hello_message
      refl refl refl

abbrev server_hello_message : ServerHelloMessage
server_hello_message = record {
  request_id = 5;
  selected_version = 2;
  nonce = zeros 32;
  public_key = zeros 32;
  service_key_id = codes "main";
  signature = zeros 64;
}

decode-encode_server_hello_example :
    decode_server_hello buffers (buffers.build (server_hello_envelope server_hello_message))
    ≡ some (ok server_hello_message)
unfolding encode_server_hello finish
decode-encode_server_hello_example =
    decode-encode_server_hello buffers buffers-IsEnvelopeBuffers (omega arith) server_hello_message
      refl refl refl refl

abbrev client_finished_message : ClientFinishedMessage
client_finished_message = record {
  request_id = 5;
  protocol_version = 2;
  transcript_hash = zeros 32;
}

abbrev authorize_message : AuthorizeMessage
authorize_message = record {
  request_id = 6;
  protocol_version = 2;
  product_id = codes "app";
  process_id = 77;
  process_start_time = 0;
}

abbrev auth_result_message : AuthResultMessage
auth_result_message = record {
  request_id = 6;
  protocol_version = 2;
  error = 0;
  session_id = some (zeros 16);
  features = codes "basic" ∷ codes "pro" ∷ [];
  expire_time = 0;
  heartbeat_interval_ms = 1000;
  heartbeat_timeout_ms = 3000;
}

decode-encode_auth_result_example :
    decode_auth_result buffers (buffers.build (auth_result_envelope auth_result_message))
    ≡ some (ok auth_result_message)
unfolding encode_auth_result finish
decode-encode_auth_result_example =
    decode-encode_auth_result buffers buffers-IsEnvelopeBuffers (omega arith) auth_result_message
      (λ id e. ap length (sym (some_injective e))) refl

abbrev heartbeat_ack_message : HeartbeatAckMessage
heartbeat_ack_message = record {
  request_id = 7;
  protocol_version = 2;
  state = 1;
  features = codes "basic" ∷ [];
  expire_time = 0;
}
