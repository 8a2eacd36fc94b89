-- ===== src/Examples/Initialized.antt =====
-- A client that a service of this configuration accepts, over a socket.
use yo_authorize.Protocol.Handshake.Client
use yo_authorize.Protocol.Handshake.Server
use yo_authorize.Protocol.Handshake.Client.{
  ClientHandshake, new_client, start, nonce_drawn, key_generated, hello_encoded,
  handle_server_hello, server_hello_decoded, server_hello_checked, check_server_hello,
  verified_hash, finished_encoded, finished_sealed, seal_client, open_client, opened_by,
}
use yo_authorize.Protocol.Handshake.Server.{
  ServerHandshake, new_server, handle_client_hello, client_hello_decoded, client_hello_answered,
  answer_client_hello, complete_server_hello, draw_server_hello, sign_transcript, seal_server,
}
use yo_authorize.Protocol.Handshake.{established, HandshakeError, exchange_keys}
use yo_authorize.Sdk.Client.{
  ClientConfig, LicenseClient, new_license_client, wrap_plaintext, unwrap_plaintext, plaintext_of,
  write_frame, frame_written, read_frame, header_read, header_decoded, payload_read,
}
use yo_authorize.Sdk.Client.Initializing.{
  Surroundings, initialize, initialized, authorize_over, connected, shake_hands, request_session,
  response_decoded, server_hello_handled,
}
use yo_authorize.Sdk.Client.Trust.{IsInitialized, initialize-IsInitialized}
use yo_authorize.Tables.{find}
use yo_authorize.Sdk.Status.{Failure}
use yo_authorize.Transport.UnixSocket.{
  UnixSocketTransport, unix_transport, read_exact, read_operated, read_ended, read_loop,
  read_waited, received, write_all, write_operated, write_ended, write_loop, write_waited, sent,
  operation_fd, duplicated,
}
use yo_authorize.Transport.Polling.{retried, wait_for, wait_answered, timeout_milliseconds}
use yo_authorize.Protocol.Messages.{
  AuthResultMessage, finish, decode_body, decode_envelope, typed_body, checked_envelope,
  copy_features, copy_feature_list,
}
use yo_authorize.Protocol.Record.{
  seal, sealed, seal_header, new_reader, new_writer, open_record, open_decoded, opened,
}
use yo_authorize.Examples.Handshakes.{draw, identity, server0}
use yo_authorize.Examples.Transports.{moving}
use yo_authorize.Prelude.{
  codes, Result, Option, some, ◌∷◌, Bytes, zeros, none, [], ok, err, bytes_eq, ◌++◌, true, false,
  ◌≡◌, refl,
}
use yo_authorize.Crypto.{
  generate_x25519_key_pair, generate_key_pair, random_bytes, sign_ed25519, sha256, derive_x25519,
  hkdf_sha256, seal_chacha20_poly1305, sealed_bytes, verify_ed25519, verify_result, cleanse,
  open_chacha20_poly1305,
}
use yo_authorize.Examples.Ciphers.{toy, fit, sum, tag_of}
use yo_authorize.Transport.{succeeded}
use yo_authorize.Examples.Buffers.{buffers}
use yo_authorize.Protocol.Messages.Hello.{
  encode_client_hello, encode_server_hello, decode_client_hello, as_client_hello, read_client_hello,
  decode_server_hello, as_server_hello, read_server_hello, encode_client_finished,
}
use yo_authorize.Protocol.Envelope.{verify_envelope}
use yo_authorize.Crypto.Transcript.{
  encode_transcript, hash_transcript, derive_session_keys, make_record_nonce,
}
use yo_authorize.Protocol.Frame.{
  encode_header, decode_frame, decode_header, check_header, read_header,
}
use yo_authorize.Protocol.Messages.Application.{
  encode_auth_result, encode_authorize, decode_auth_result, as_auth_result, read_auth_result,
  read_session_id, auth_result_envelope,
}
use yo_authorize.Prelude.Words.{read_word}

abbrev sdk_client : ClientHandshake
sdk_client = new_client ((codes "main", identity) ∷ []) (codes "yoauthorize-cpp/0.1") 1 1 1

abbrev bytes_or_empty : {E A : Type 0} → Result E Bytes × A → Bytes
bytes_or_empty (ok bytes, a) = bytes
bytes_or_empty (err e, a) = []

abbrev server_of : Option (Result HandshakeError Bytes × ServerHandshake) → Bytes × ServerHandshake
server_of none = ([], server0)
server_of (some (ok bytes, h)) = (bytes, h)
server_of (some (err e, h)) = ([], h)

hello : Bytes
unfolding start nonce_drawn key_generated hello_encoded generate_x25519_key_pair generate_key_pair
    random_bytes encode_client_hello finish toy fit
hello = bytes_or_empty (start toy buffers sdk_client (draw 1) (draw 2))

answered : Bytes × ServerHandshake
unfolding hello start nonce_drawn key_generated hello_encoded generate_x25519_key_pair
    generate_key_pair random_bytes encode_client_hello finish toy fit handle_client_hello
    client_hello_decoded client_hello_answered answer_client_hello complete_server_hello
    draw_server_hello sign_transcript sign_ed25519 exchange_keys encode_server_hello
    decode_client_hello decode_body decode_envelope typed_body checked_envelope verify_envelope
    as_client_hello read_client_hello new_reader new_writer sha256 derive_x25519 hkdf_sha256
    encode_transcript hash_transcript derive_session_keys sum tag_of bytes_eq find
answered = server_of (handle_client_hello toy buffers server0 hello (draw 3) (draw 4))

abbrev grant : AuthResultMessage
grant = record {
  request_id = 2;
  protocol_version = 1;
  error = 0;
  session_id = some (zeros 16);
  features = codes "pro" ∷ [];
  expire_time = 0;
  heartbeat_interval_ms = 1000;
  heartbeat_timeout_ms = 3000;
}

-- What the service sends: its hello, and the record of the grant.
incoming : Bytes
unfolding hello start nonce_drawn key_generated hello_encoded generate_x25519_key_pair
    generate_key_pair random_bytes encode_client_hello finish toy fit answered handle_client_hello
    client_hello_decoded client_hello_answered answer_client_hello complete_server_hello
    draw_server_hello sign_transcript sign_ed25519 exchange_keys encode_server_hello
    decode_client_hello decode_body decode_envelope typed_body checked_envelope verify_envelope
    as_client_hello read_client_hello new_reader new_writer sha256 derive_x25519 hkdf_sha256
    encode_transcript hash_transcript derive_session_keys sum tag_of bytes_eq find wrap_plaintext
    encode_header encode_auth_result seal_server Server.sealed_by seal sealed seal_header
    seal_chacha20_poly1305 sealed_bytes make_record_nonce
incoming =
    wrap_plaintext answered.0
    ++ bytes_or_empty (
        seal_server toy buffers (record (answered.1) { state = established })
          (buffers.build (auth_result_envelope grant)))

socket : UnixSocketTransport
unfolding hello start nonce_drawn key_generated hello_encoded generate_x25519_key_pair
    generate_key_pair random_bytes encode_client_hello finish toy fit answered handle_client_hello
    client_hello_decoded client_hello_answered answer_client_hello complete_server_hello
    draw_server_hello sign_transcript sign_ed25519 exchange_keys encode_server_hello
    decode_client_hello decode_body decode_envelope typed_body checked_envelope verify_envelope
    as_client_hello read_client_hello new_reader new_writer sha256 derive_x25519 hkdf_sha256
    encode_transcript hash_transcript derive_session_keys sum tag_of bytes_eq find incoming
    wrap_plaintext encode_header encode_auth_result seal_server Server.sealed_by seal sealed
    seal_header seal_chacha20_poly1305 sealed_bytes make_record_nonce
socket = some (record {
  path = codes "/run/license.sock";
  fd = true;
  cancel_fd = true;
  canceled = false;
  incoming = incoming;
  outgoing = [];
  duplicates = ok tt ∷ ok tt ∷ ok tt ∷ ok tt ∷ ok tt ∷ ok tt ∷ ok tt ∷ [];
  rounds =
      moving 4096
      ∷ moving 4096
      ∷ moving 4096
      ∷ moving 4096
      ∷ moving 4096
      ∷ moving 4096
      ∷ moving 4096
      ∷ [];
})

abbrev config : ClientConfig
config = record {
  product_id = codes "app";
  endpoint = codes "/run/license.sock";
  trusted_service_keys = (codes "main", identity) ∷ [];
  connect_timeout_ms = 5000;
  io_timeout_ms = 5000;
}

abbrev surroundings : Surroundings UnixSocketTransport
surroundings = record {
  clock = λ n. n;
  nonce = draw 1;
  key = draw 2;
  process_id = 7;
  dial = λ endpoint deadline. some (succeeded, socket);
}

abbrev client_or_new :
    Option (Option Failure × LicenseClient UnixSocketTransport) → LicenseClient UnixSocketTransport
client_or_new none = new_license_client
client_or_new (some (status, c)) = c

valid_client : LicenseClient UnixSocketTransport
unfolding socket hello start nonce_drawn key_generated hello_encoded generate_x25519_key_pair
    generate_key_pair random_bytes encode_client_hello finish toy fit answered handle_client_hello
    client_hello_decoded client_hello_answered answer_client_hello complete_server_hello
    draw_server_hello sign_transcript sign_ed25519 exchange_keys encode_server_hello
    decode_client_hello decode_body decode_envelope typed_body checked_envelope verify_envelope
    as_client_hello read_client_hello new_reader new_writer sha256 derive_x25519 hkdf_sha256
    encode_transcript hash_transcript derive_session_keys sum tag_of bytes_eq find incoming
    wrap_plaintext encode_header encode_auth_result seal_server Server.sealed_by seal sealed
    seal_header seal_chacha20_poly1305 sealed_bytes make_record_nonce initialize initialized
    authorize_over connected shake_hands request_session response_decoded server_hello_handled
    write_frame frame_written read_frame header_read header_decoded payload_read unwrap_plaintext
    plaintext_of handle_server_hello server_hello_decoded server_hello_checked check_server_hello
    verified_hash verify_ed25519 verify_result decode_server_hello as_server_hello read_server_hello
    finished_encoded finished_sealed encode_client_finished cleanse encode_authorize seal_client
    Client.sealed_by open_client opened_by open_record open_decoded opened open_chacha20_poly1305
    decode_auth_result as_auth_result read_auth_result read_session_id copy_features
    copy_feature_list decode_frame decode_header check_header read_header read_word unix_transport
    read_exact read_operated read_ended read_loop read_waited received write_all write_operated
    write_ended write_loop write_waited sent operation_fd duplicated retried wait_for wait_answered
    timeout_milliseconds
valid_client =
    client_or_new (initialize toy buffers unix_transport config surroundings new_license_client)

initialize_lem :
    initialize toy buffers unix_transport config surroundings new_license_client
    ≡ some (none, valid_client)
unfolding socket hello start nonce_drawn key_generated hello_encoded generate_x25519_key_pair
    generate_key_pair random_bytes encode_client_hello finish toy fit answered handle_client_hello
    client_hello_decoded client_hello_answered answer_client_hello complete_server_hello
    draw_server_hello sign_transcript sign_ed25519 exchange_keys encode_server_hello
    decode_client_hello decode_body decode_envelope typed_body checked_envelope verify_envelope
    as_client_hello read_client_hello new_reader new_writer sha256 derive_x25519 hkdf_sha256
    encode_transcript hash_transcript derive_session_keys sum tag_of bytes_eq find incoming
    wrap_plaintext encode_header encode_auth_result seal_server Server.sealed_by seal sealed
    seal_header seal_chacha20_poly1305 sealed_bytes make_record_nonce valid_client initialize
    initialized authorize_over connected shake_hands request_session response_decoded
    server_hello_handled write_frame frame_written read_frame header_read header_decoded
    payload_read unwrap_plaintext plaintext_of handle_server_hello server_hello_decoded
    server_hello_checked check_server_hello verified_hash verify_ed25519 verify_result
    decode_server_hello as_server_hello read_server_hello finished_encoded finished_sealed
    encode_client_finished cleanse encode_authorize seal_client Client.sealed_by open_client
    opened_by open_record open_decoded opened open_chacha20_poly1305 decode_auth_result
    as_auth_result read_auth_result read_session_id copy_features copy_feature_list decode_frame
    decode_header check_header read_header read_word unix_transport read_exact read_operated
    read_ended read_loop read_waited received write_all write_operated write_ended write_loop
    write_waited sent operation_fd duplicated retried wait_for wait_answered timeout_milliseconds
initialize_lem = refl

initialize-IsInitialized_example : IsInitialized toy buffers unix_transport config valid_client
initialize-IsInitialized_example =
    initialize-IsInitialized toy buffers unix_transport config surroundings new_license_client
      initialize_lem
