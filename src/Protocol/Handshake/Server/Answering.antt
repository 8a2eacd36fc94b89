-- ===== src/Protocol/Handshake/Server/Answering.antt =====
-- `ServerHandshake::handleClientHello`, taken apart (protocol/handshake.cpp).
use yo_authorize.Protocol.Handshake.Server.{
  ServerHandshake, Answer, ClientHelloMessage, OpenSsl, Bytes, EnvelopeBuffers, ServerHelloMessage,
  answer_client_hello, KeyPair, draw_server_hello, sign_transcript, encode_transcript,
  unsupported_version, transcript_for, encode_server_hello, complete_server_hello,
  handle_client_hello, wipe, decode_client_hello, client_hello_decoded, client_hello_answered,
  new_reader, new_writer, MessageError,
}
use yo_authorize.Protocol.Messages.{ClientHelloMessage, ServerHelloMessage, MessageError}
use yo_authorize.OpenSsl.{OpenSsl}
use yo_authorize.Prelude.{
  Bytes, Option, min, max, ◌≤◌, ◌≡◌, ok, >>=-eq-ok, fail_if-eq-ok, map_err, ok-injective, zeros, ℕ,
  map_err-eq-ok, ap, ◌∙◌, some, arith, sym, Result, err, none, refl, ltb,
}
use yo_authorize.Protocol.Envelope.{EnvelopeBuffers}
use yo_authorize.Crypto.{
  KeyPair, generate_x25519_key_pair, random_bytes, key_size, sign_ed25519, signature_size,
}
use yo_authorize.Crypto.Transcript.{encode_transcript, hash_transcript, HandshakeTranscript}
use yo_authorize.Protocol.Frame.{unsupported_version}
use yo_authorize.Protocol.Handshake.{
  transcript_for, internal_error, invalid_message, exchange_keys, key_exchange_failed, initial,
  record_key, HandshakeError, awaiting_finished,
}
use yo_authorize.Protocol.Messages.Hello.{encode_server_hello, decode_client_hello}
use yo_authorize.Protocol.Record.{new_reader, new_writer}

-- The hello that answers a client's, but for its signature.
abbrev pub answer_hello :
    ServerHandshake → ClientHelloMessage → Bytes → Bytes → Bytes → ServerHelloMessage
answer_hello h client nonce public_key signature = record {
  request_id = client.request_id;
  selected_version = min h.max_version client.max_version;
  nonce = nonce;
  public_key = public_key;
  service_key_id = h.service_key_id;
  signature = signature;
}

abbrev pub answered : ServerHandshake → ℕ → Answer → ServerHandshake
answered h request_id answer = record (wipe h) {
  request_id = request_id;
  selected_version = answer.selected_version;
  transcript_hash = answer.transcript_hash;
  reader = some (new_reader (record_key answer.keys.client_to_service));
  writer = some (new_writer (record_key answer.keys.service_to_client));
  state = awaiting_finished;
}

module _ (o : OpenSsl) (fb : EnvelopeBuffers) (h : ServerHandshake) where
  -- An answer, and where its parts come from.
  pub record Drawn (client : ClientHelloMessage) (nonce_draw key_draw : Option Bytes)
      (answer : Answer) : Type 0 where
    pub ephemeral : KeyPair
    pub nonce : Bytes
    pub encoded_transcript : Bytes
    pub signature : Bytes
    pub common : max h.min_version client.min_version ≤ min h.max_version client.max_version
    pub generated : generate_x25519_key_pair o key_draw ≡ ok ephemeral
    pub drawn : random_bytes key_size nonce_draw ≡ ok nonce
    pub transcript :
        encode_transcript
          (transcript_for client (answer_hello h client nonce ephemeral.public_key signature))
        ≡ ok encoded_transcript
    pub hashed :
        hash_transcript o
          (transcript_for client (answer_hello h client nonce ephemeral.public_key signature))
        ≡ ok answer.transcript_hash
    pub signed : sign_ed25519 o h.identity_private_key encoded_transcript ≡ ok signature
    pub encoded :
        encode_server_hello fb (answer_hello h client nonce ephemeral.public_key signature)
        ≡ ok answer.encoded
    pub selected : answer.selected_version ≡ min h.max_version client.max_version
    pub exchanged :
        exchange_keys o ephemeral.private_key client.public_key answer.transcript_hash
        ≡ ok answer.keys

  draw_server_hello_lem :
      (client : ClientHelloMessage) (nonce_draw key_draw : Option Bytes) (ephemeral : KeyPair)
      (unsigned : ServerHelloMessage)
      → draw_server_hello o fb h client nonce_draw key_draw ≡ ok (ephemeral, unsigned)
      → (nonce : Bytes) × (max h.min_version client.min_version
          ≤ min h.max_version client.max_version)
        × (generate_x25519_key_pair o key_draw ≡ ok ephemeral)
        × (random_bytes key_size nonce_draw ≡ ok nonce)
        × (unsigned ≡ answer_hello h client nonce ephemeral.public_key (zeros signature_size))
  unfolding draw_server_hello
  draw_server_hello_lem client nonce_draw key_draw ephemeral unsigned e =
      let (common, e1) =
        fail_if-eq-ok
          (ltb (min h.max_version client.max_version) (max h.min_version client.min_version))
          unsupported_version _ e in
      let (pair, generated, e2) =
        >>=-eq-ok (map_err internal_error (generate_x25519_key_pair o key_draw)) _ e1 in
      let (nonce, random, e3) =
        >>=-eq-ok (map_err internal_error (random_bytes key_size nonce_draw)) _ e2 in
      let made = ok-injective e3 in
      let same : pair ≡ ephemeral = ap (λ x. x.0) made in
      (
        nonce,
        ground (arith, common),
        map_err-eq-ok _ _ generated ∙ ap (λ x. ok x) same,
        map_err-eq-ok _ _ random,
        ap (λ x. x.1) (sym made)
            ∙ ap (λ x. answer_hello h client nonce x.public_key (zeros signature_size)) same,
      )

  sign_transcript_lem :
      (t : HandshakeTranscript) (transcript_hash signature : Bytes)
      → sign_transcript o fb h t ≡ ok (transcript_hash, signature)
      → (encoded_transcript : Bytes) × (encode_transcript t ≡ ok encoded_transcript)
        × (hash_transcript o t ≡ ok transcript_hash)
        × (sign_ed25519 o h.identity_private_key encoded_transcript ≡ ok signature)
  unfolding sign_transcript
  sign_transcript_lem t transcript_hash signature e =
      let (encoded_transcript, transcript, e1) =
        >>=-eq-ok (map_err invalid_message (encode_transcript t)) _ e in
      let (hash, hashed, e2) = >>=-eq-ok (map_err invalid_message (hash_transcript o t)) _ e1 in
      let (sig, signed, e3) =
        >>=-eq-ok
          (map_err internal_error (sign_ed25519 o h.identity_private_key encoded_transcript)) _
          e2 in
      let same = ok-injective e3 in
      (
        encoded_transcript,
        map_err-eq-ok _ _ transcript,
        map_err-eq-ok _ _ hashed ∙ ap (λ x. ok (x.0)) same,
        map_err-eq-ok _ _ signed ∙ ap (λ x. ok (x.1)) same,
      )

  answer_client_hello-Drawn :
      (client : ClientHelloMessage) (nonce_draw key_draw : Option Bytes) (answer : Answer)
      → answer_client_hello o fb h client nonce_draw key_draw ≡ ok answer
      → Drawn client nonce_draw key_draw answer
  unfolding answer_client_hello complete_server_hello
  answer_client_hello-Drawn client nonce_draw key_draw answer e =
      let ((ephemeral, unsigned), drawn, e1) =
        >>=-eq-ok (draw_server_hello o fb h client nonce_draw key_draw) _ e in
      let (nonce, common, generated, random, same) =
        draw_server_hello_lem client nonce_draw key_draw ephemeral unsigned drawn in
      let hello = answer_hello h client nonce ephemeral.public_key (zeros signature_size) in
      let e2 : complete_server_hello o fb h client ephemeral hello ≡ ok answer =
        ap (complete_server_hello o fb h client ephemeral) (sym same) ∙ e1 in
      let ((transcript_hash, signature), signing, e3) =
        >>=-eq-ok (sign_transcript o fb h (transcript_for client hello)) _ e2 in
      let (encoded_transcript, transcript, hashed, signed) =
        sign_transcript_lem (transcript_for client hello) transcript_hash signature signing in
      let (encoded, written, e4) =
        >>=-eq-ok
          (map_err key_exchange_failed
            (encode_server_hello fb (record hello { signature = signature })))
          _ e3 in
      let (keys, exchanged, e5) =
        >>=-eq-ok (exchange_keys o ephemeral.private_key client.public_key transcript_hash) _ e4 in
      let final = ok-injective e5 in
      record {
        ephemeral = ephemeral;
        nonce = nonce;
        encoded_transcript = encoded_transcript;
        signature = signature;
        common = common;
        generated = generated;
        drawn = random;
        transcript = transcript;
        hashed = hashed ∙ ap (λ a. ok a.transcript_hash) final;
        signed = signed;
        encoded = map_err-eq-ok _ _ written ∙ ap (λ a. ok a.encoded) final;
        selected = ap (λ a. a.selected_version) (sym final);
        exchanged =
            ap (exchange_keys o _ _) (ap (λ a. a.transcript_hash) (sym final))
            ∙ exchanged
            ∙ ap (λ a. ok a.keys) final;
      }

  -- All that stands behind an answered client hello, and the handshake that it leaves.
  pub record Answered (message : Bytes) (nonce_draw key_draw : Option Bytes) (reply : Bytes)
      (h' : ServerHandshake) : Type 0 where
    pub client : ClientHelloMessage
    pub answer : Answer
    pub was_initial : h.state ≡ initial
    pub decoded : decode_client_hello fb message ≡ some (ok client)
    pub drawn : Drawn client nonce_draw key_draw answer
    pub replied : reply ≡ answer.encoded
    pub after : h' ≡ answered h client.request_id answer

  pub handle_client_hello-Answered :
      (message : Bytes) (nonce_draw key_draw : Option Bytes) (reply : Bytes) (h' : ServerHandshake)
      → handle_client_hello o fb h message nonce_draw key_draw ≡ some (ok reply, h')
      → Answered message nonce_draw key_draw reply h'
  unfolding handle_client_hello client_hello_decoded client_hello_answered
  handle_client_hello-Answered message nonce_draw key_draw reply h' e =
      decoded_case (decode_client_hello fb message) refl (ground (arith, e))
    where
      answered_case :
          (client : ClientHelloMessage) (r : Result HandshakeError Answer)
          → decode_client_hello fb message ≡ some (ok client)
          → answer_client_hello o fb h client nonce_draw key_draw ≡ r
          → client_hello_answered o fb h client.request_id r ≡ (ok reply, h')
          → Answered message nonce_draw key_draw reply h'
      answered_case client (err x) d a q = cc
      answered_case client (ok answer) d a q = record {
        client = client;
        answer = answer;
        was_initial = ground (arith, e);
        decoded = d;
        drawn = answer_client_hello-Drawn client nonce_draw key_draw answer a;
        replied = ok-injective (ap (λ x. x.0) (sym q));
        after = ap (λ x. x.1) (sym q);
      }

      decoded_case :
          (r : Option (Result MessageError ClientHelloMessage))
          → decode_client_hello fb message ≡ r
          → client_hello_decoded o fb h nonce_draw key_draw r ≡ some (ok reply, h')
          → Answered message nonce_draw key_draw reply h'
      decoded_case none d q = cc
      decoded_case (some (err x)) d q = cc
      decoded_case (some (ok client)) d q =
          answered_case client (answer_client_hello o fb h client nonce_draw key_draw) d refl
            (ground (arith, q))
