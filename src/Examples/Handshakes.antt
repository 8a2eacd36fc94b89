-- ===== src/Examples/Handshakes.antt =====
-- A whole handshake over the simple ciphers and buffers.
use Prim.Native.Nat.{ℕ}
use yo_authorize.Tables.{find}
use yo_authorize.Prelude.{
  Bytes, Result, Option, List, some, ◌≡◌, ◌∷◌, refl, zeros, length, codes, ok, err, ap, [], sym,
  none, some_injective, bytes_eq, ◌≤◌, arith,
}
use yo_authorize.Protocol.Handshake.Client.{
  ClientHandshake, start, new_client, nonce_drawn, key_generated, hello_encoded,
  handle_server_hello, server_hello_decoded, server_hello_checked, check_server_hello,
  verified_hash, finished_encoded, finished_sealed,
}
use yo_authorize.Protocol.Handshake.Server.{
  ServerHandshake, handle_client_hello, new_server, client_hello_decoded, handle_client_finished,
  client_hello_answered, answer_client_hello, complete_server_hello, draw_server_hello,
  sign_transcript,
}
use yo_authorize.Protocol.Handshake.Client.Order.{
  run, IsClient, ClientCall, step, start_with, second, server_hello_with,
}
use yo_authorize.Protocol.Handshake.Client.Reach.{Acceptance, run-IsClient, run-Acceptance}
use yo_authorize.Protocol.Handshake.{HandshakeError, internal_error, exchange_keys, established}
use yo_authorize.Examples.Ciphers.{toy, toy-IsAead, toy-IsAgreement, fit, sum, tag_of}
use yo_authorize.Examples.Buffers.{buffers, buffers-IsEnvelopeBuffers}
use yo_authorize.Protocol.Handshake.Agreement.{Agreed, handshake-Agreed}
use yo_authorize.Crypto.{
  generate_x25519_key_pair, generate_key_pair, random_bytes, sign_ed25519, sha256, derive_x25519,
  hkdf_sha256, verify_ed25519, verify_result, seal_chacha20_poly1305, sealed_bytes, cleanse,
}
use yo_authorize.Protocol.Messages.Hello.{
  encode_client_hello, encode_server_hello, decode_client_hello, as_client_hello, read_client_hello,
  decode_server_hello, as_server_hello, read_server_hello, encode_client_finished,
}
use yo_authorize.Protocol.Messages.{
  finish, decode_body, decode_envelope, typed_body, checked_envelope,
}
use yo_authorize.Protocol.Envelope.{verify_envelope}
use yo_authorize.Protocol.Record.{new_reader, new_writer, seal, sealed, seal_header}
use yo_authorize.Crypto.Transcript.{
  encode_transcript, hash_transcript, derive_session_keys, make_record_nonce,
}
use yo_authorize.Protocol.Frame.{encode_header}

abbrev pub draw : ℕ → Option Bytes
draw n = some (n ∷ zeros 31)

draw-length : (n : ℕ) (d : Bytes) → draw n ≡ some d → length d ≡ 32
draw-length n d e = ap length (sym (some_injective e))

abbrev pub identity : Bytes
identity = 9 ∷ zeros 31

abbrev client0 : ClientHandshake
client0 = new_client ((codes "main", identity) ∷ []) (codes "1.0") 5 1 1

abbrev pub server0 : ServerHandshake
server0 = new_server (codes "main") identity 1 1

abbrev bytes_of : {A : Type 0} → Result HandshakeError Bytes × A → Bytes
bytes_of (ok bytes, a) = bytes
bytes_of (err e, a) = []

abbrev reached :
    {A : Type 0} → A → Option (Result HandshakeError Bytes × A) → Result HandshakeError Bytes × A
reached a none = (err internal_error, a)
reached a (some x) = x

hello : Bytes
unfolding start nonce_drawn key_generated hello_encoded generate_x25519_key_pair generate_key_pair
    random_bytes encode_client_hello finish toy fit
hello = bytes_of (start toy buffers client0 (draw 1) (draw 2))

client1 : ClientHandshake
unfolding start nonce_drawn key_generated hello_encoded generate_x25519_key_pair generate_key_pair
    random_bytes encode_client_hello finish toy fit
client1 = (start toy buffers client0 (draw 1) (draw 2)).1

start-hello : start toy buffers client0 (draw 1) (draw 2) ≡ (ok hello, client1)
unfolding hello client1 start nonce_drawn key_generated hello_encoded generate_x25519_key_pair
    generate_key_pair random_bytes encode_client_hello finish toy fit
start-hello = refl

answered : Result HandshakeError Bytes × ServerHandshake
unfolding hello handle_client_hello client_hello_decoded client_hello_answered answer_client_hello
    complete_server_hello draw_server_hello sign_transcript sign_ed25519 exchange_keys
    encode_server_hello decode_client_hello decode_body decode_envelope typed_body checked_envelope
    verify_envelope as_client_hello read_client_hello new_reader new_writer start nonce_drawn
    key_generated hello_encoded encode_client_hello finish sha256 generate_key_pair
    generate_x25519_key_pair derive_x25519 hkdf_sha256 encode_transcript hash_transcript
    derive_session_keys random_bytes toy fit sum tag_of bytes_eq find
answered = reached server0 (handle_client_hello toy buffers server0 hello (draw 3) (draw 4))

reply : Bytes
unfolding answered
reply = bytes_of answered

server1 : ServerHandshake
unfolding answered
server1 = answered.1

handle_client_hello-reply :
    handle_client_hello toy buffers server0 hello (draw 3) (draw 4) ≡ some (ok reply, server1)
unfolding reply server1 answered hello handle_client_hello client_hello_decoded
    client_hello_answered answer_client_hello complete_server_hello draw_server_hello
    sign_transcript sign_ed25519 exchange_keys encode_server_hello decode_client_hello decode_body
    decode_envelope typed_body checked_envelope verify_envelope as_client_hello read_client_hello
    new_reader new_writer start nonce_drawn key_generated hello_encoded encode_client_hello finish
    sha256 generate_key_pair generate_x25519_key_pair derive_x25519 hkdf_sha256 encode_transcript
    hash_transcript derive_session_keys random_bytes toy fit sum tag_of bytes_eq find
handle_client_hello-reply = refl

accepted : Result HandshakeError Bytes × ClientHandshake
unfolding client1 reply answered hello handle_client_hello client_hello_decoded
    client_hello_answered answer_client_hello complete_server_hello draw_server_hello
    sign_transcript sign_ed25519 exchange_keys encode_server_hello decode_client_hello decode_body
    decode_envelope typed_body checked_envelope verify_envelope as_client_hello read_client_hello
    new_reader new_writer start nonce_drawn key_generated hello_encoded encode_client_hello finish
    sha256 generate_key_pair generate_x25519_key_pair derive_x25519 hkdf_sha256 encode_transcript
    hash_transcript derive_session_keys random_bytes toy fit sum tag_of bytes_eq find
    handle_server_hello server_hello_decoded server_hello_checked check_server_hello verified_hash
    verify_ed25519 verify_result decode_server_hello as_server_hello read_server_hello
    finished_encoded finished_sealed encode_client_finished seal sealed seal_header encode_header
    seal_chacha20_poly1305 sealed_bytes make_record_nonce cleanse
accepted = reached client1 (handle_server_hello toy buffers client1 reply)

frame : Bytes
unfolding accepted
frame = bytes_of accepted

client2 : ClientHandshake
unfolding accepted
client2 = accepted.1

handle_server_hello-frame : handle_server_hello toy buffers client1 reply ≡ some (ok frame, client2)
unfolding frame client2 accepted client1 reply answered hello handle_client_hello
    client_hello_decoded client_hello_answered answer_client_hello complete_server_hello
    draw_server_hello sign_transcript sign_ed25519 exchange_keys encode_server_hello
    decode_client_hello decode_body decode_envelope typed_body checked_envelope verify_envelope
    as_client_hello read_client_hello new_reader new_writer start nonce_drawn key_generated
    hello_encoded encode_client_hello finish sha256 generate_key_pair generate_x25519_key_pair
    derive_x25519 hkdf_sha256 encode_transcript hash_transcript derive_session_keys random_bytes toy
    fit sum tag_of bytes_eq find handle_server_hello server_hello_decoded server_hello_checked
    check_server_hello verified_hash verify_ed25519 verify_result decode_server_hello
    as_server_hello read_server_hello finished_encoded finished_sealed encode_client_finished seal
    sealed seal_header encode_header seal_chacha20_poly1305 sealed_bytes make_record_nonce cleanse
handle_server_hello-frame = refl

short : (length hello ≤ 1048576) × (length reply ≤ 1048576)
unfolding reply answered hello handle_client_hello client_hello_decoded client_hello_answered
    answer_client_hello complete_server_hello draw_server_hello sign_transcript sign_ed25519
    exchange_keys encode_server_hello decode_client_hello decode_body decode_envelope typed_body
    checked_envelope verify_envelope as_client_hello read_client_hello new_reader new_writer start
    nonce_drawn key_generated hello_encoded encode_client_hello finish sha256 generate_key_pair
    generate_x25519_key_pair derive_x25519 hkdf_sha256 encode_transcript hash_transcript
    derive_session_keys random_bytes toy fit sum tag_of bytes_eq find
short = (omega arith, omega arith)

handshake-Agreed_example :
    (s2 : ServerHandshake) × (handle_client_finished toy buffers server1 frame ≡ some (ok tt, s2))
    × Agreed client2 s2
handshake-Agreed_example =
    handshake-Agreed toy buffers buffers-IsEnvelopeBuffers toy-IsAead toy-IsAgreement client0
      client1 client2 server0 server1 hello reply frame (draw 1) (draw 2) (draw 3) (draw 4)
      (draw-length 1) (draw-length 3) (short.0) (short.1) start-hello handle_client_hello-reply
      handle_server_hello-frame

abbrev run_calls : List ClientCall
run_calls = start_with (draw 1) (draw 2) ∷ server_hello_with reply ∷ []

ran : run toy buffers run_calls client0 ≡ some client2
unfolding run step second client2 accepted client1 reply answered hello handle_client_hello
    client_hello_decoded client_hello_answered answer_client_hello complete_server_hello
    draw_server_hello sign_transcript sign_ed25519 exchange_keys encode_server_hello
    decode_client_hello decode_body decode_envelope typed_body checked_envelope verify_envelope
    as_client_hello read_client_hello new_reader new_writer start nonce_drawn key_generated
    hello_encoded encode_client_hello finish sha256 generate_key_pair generate_x25519_key_pair
    derive_x25519 hkdf_sha256 encode_transcript hash_transcript derive_session_keys random_bytes toy
    fit sum tag_of bytes_eq find handle_server_hello server_hello_decoded server_hello_checked
    check_server_hello verified_hash verify_ed25519 verify_result decode_server_hello
    as_server_hello read_server_hello finished_encoded finished_sealed encode_client_finished seal
    sealed seal_header encode_header seal_chacha20_poly1305 sealed_bytes make_record_nonce cleanse
ran = refl

client0-IsClient : IsClient client0
client0-IsClient = record { writes = refl; reads = refl }

is_established_now : client2.state ≡ established
unfolding client2 accepted client1 reply answered hello handle_client_hello client_hello_decoded
    client_hello_answered answer_client_hello complete_server_hello draw_server_hello
    sign_transcript sign_ed25519 exchange_keys encode_server_hello decode_client_hello decode_body
    decode_envelope typed_body checked_envelope verify_envelope as_client_hello read_client_hello
    new_reader new_writer start nonce_drawn key_generated hello_encoded encode_client_hello finish
    sha256 generate_key_pair generate_x25519_key_pair derive_x25519 hkdf_sha256 encode_transcript
    hash_transcript derive_session_keys random_bytes toy fit sum tag_of bytes_eq find
    handle_server_hello server_hello_decoded server_hello_checked check_server_hello verified_hash
    verify_ed25519 verify_result decode_server_hello as_server_hello read_server_hello
    finished_encoded finished_sealed encode_client_finished seal sealed seal_header encode_header
    seal_chacha20_poly1305 sealed_bytes make_record_nonce cleanse
is_established_now = refl

run-Acceptance_example : Acceptance toy buffers run_calls client0
run-Acceptance_example =
    run-Acceptance toy buffers run_calls client0 client0-IsClient (λ e. cc) ran is_established_now

run-IsClient_example : IsClient client2
run-IsClient_example = run-IsClient toy buffers run_calls client0 client0-IsClient ran
