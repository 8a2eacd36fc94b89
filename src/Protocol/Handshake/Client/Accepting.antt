-- ===== src/Protocol/Handshake/Client/Accepting.antt =====
-- `ClientHandshake::handleServerHello`, taken apart (protocol/handshake.cpp).
use yo_authorize.Protocol.Handshake.Client.{
  ClientHandshake, OpenSsl, EnvelopeBuffers, ServerHelloMessage, check_server_hello, Bytes,
  handle_server_hello, SessionKeys, verified_hash, server_hello_decoded, RecordWriter,
  server_hello_checked, hello_sent, finished_encoded, find, decode_server_hello, finished_sealed,
  client_hello_of, encode_client_finished, seal, verify_ed25519, new_writer, keyed, RecordError,
  MessageError,
}
use yo_authorize.OpenSsl.{OpenSsl}
use yo_authorize.Protocol.Envelope.{EnvelopeBuffers}
use yo_authorize.Protocol.Messages.{ServerHelloMessage, MessageError}
use yo_authorize.Prelude.{
  Bytes, ◌≡◌, ◌≤◌, ok, some, fail_if-eq-ok, >>=-eq-ok, or_fail, ok-injective, map_err-eq-ok, arith,
  or_fail-eq-ok, Result, ◌∙◌, ap, err, sym, Result-cases, inl, inr, Option, refl, none,
}
use yo_authorize.Crypto.Transcript.{SessionKeys, encode_transcript, hash_transcript}
use yo_authorize.Protocol.Record.{RecordWriter, seal, new_writer, RecordError}
use yo_authorize.Protocol.Handshake.{
  hello_sent, transcript_for, invalid_message, unsupported_version, exchange_keys, record_key,
  unknown_service_key, established, HandshakeError,
}
use yo_authorize.Tables.{find}
use yo_authorize.Protocol.Messages.Hello.{decode_server_hello, encode_client_finished}
use yo_authorize.Crypto.{verify_ed25519}
use yo_authorize.Protocol.Frame.{unsupported_version}

module _ (o : OpenSsl) (fb : EnvelopeBuffers) (h : ClientHandshake) where
  pub record Checked (server : ServerHelloMessage) (transcript_hash : Bytes) (keys : SessionKeys)
      : Type 0 where
    pub trusted_key : Bytes
    pub encoded_transcript : Bytes
    pub answered : server.request_id ≡ h.request_id
    pub version :
        (h.min_version ≤ server.selected_version) × (server.selected_version ≤ h.max_version)
    pub trusted : find server.service_key_id h.trusted_keys ≡ some trusted_key
    pub transcript :
        encode_transcript (transcript_for (client_hello_of h) server) ≡ ok encoded_transcript
    pub hashed : hash_transcript o (transcript_for (client_hello_of h) server) ≡ ok transcript_hash
    pub signed : verify_ed25519 o trusted_key encoded_transcript server.signature ≡ ok tt
    pub exchanged :
        exchange_keys o h.ephemeral.private_key server.public_key transcript_hash ≡ ok keys

  check_server_hello-Checked :
      (server : ServerHelloMessage) (transcript_hash : Bytes) (keys : SessionKeys)
      → check_server_hello o fb h server ≡ ok (transcript_hash, keys)
      → Checked server transcript_hash keys
  unfolding check_server_hello verified_hash
  check_server_hello-Checked server transcript_hash keys e =
      let t = transcript_for (client_hello_of h) server in
      let (answered, e1) = fail_if-eq-ok _ invalid_message _ e in
      let (version, e2) = fail_if-eq-ok _ unsupported_version _ e1 in
      let (trusted_key, found, e3) =
        >>=-eq-ok (or_fail (find server.service_key_id h.trusted_keys) unknown_service_key) _ e2 in
      let (hash, checked, e4) =
        >>=-eq-ok (verified_hash o fb trusted_key t server.signature) _ e3 in
      let (exchanged_keys, exchanged, e5) =
        >>=-eq-ok (exchange_keys o h.ephemeral.private_key server.public_key hash) _ e4 in
      let same = ok-injective e5 in
      let (encoded, transcript, f1) =
        >>=-eq-ok (encode_transcript t) _ (map_err-eq-ok _ _ checked) in
      let (hash', hashed, f2) = >>=-eq-ok (hash_transcript o t) _ f1 in
      let (u, signed, f3) =
        >>=-eq-ok (verify_ed25519 o trusted_key encoded server.signature) _ f2 in
      record {
        trusted_key = trusted_key;
        encoded_transcript = encoded;
        answered = ground arith;
        version = ground arith;
        trusted = or_fail-eq-ok _ unknown_service_key found;
        transcript = transcript;
        hashed = hashed ∙ f3 ∙ ap (λ x. ok (x.0)) same;
        signed = signed;
        exchanged =
            ap (exchange_keys o _ _) (ap (λ x. x.0) (sym same))
            ∙ exchanged
            ∙ ap (λ x. ok (x.1)) same;
      }

  -- All that stands behind an accepted server hello, and the handshake that it leaves.
  pub record Accepted (message frame : Bytes) (h' : ClientHandshake) : Type 0 where
    pub server : ServerHelloMessage
    pub transcript_hash : Bytes
    pub keys : SessionKeys
    pub finished : Bytes
    pub writer : RecordWriter
    pub was_sent : h.state ≡ hello_sent
    pub decoded : decode_server_hello fb message ≡ some (ok server)
    pub checked : Checked server transcript_hash keys
    pub encoded :
        encode_client_finished fb (record {
          request_id = h.request_id;
          protocol_version = server.selected_version;
          transcript_hash = transcript_hash;
        })
        ≡ ok finished
    pub sent : seal o (new_writer (record_key keys.client_to_service)) finished ≡ (ok frame, writer)
    pub after : h' ≡ record (keyed h server.selected_version keys) {
      writer = some writer;
      state = established;
    }

  pub handle_server_hello-Accepted :
      (message frame : Bytes) (h' : ClientHandshake)
      → handle_server_hello o fb h message ≡ some (ok frame, h')
      → Accepted message frame h'
  unfolding handle_server_hello server_hello_decoded server_hello_checked finished_encoded
      finished_sealed
  handle_server_hello-Accepted message frame h' e =
      decoded_case (decode_server_hello fb message) refl (ground (arith, e))
    where
      was_sent : h.state ≡ hello_sent
      was_sent = ground (arith, e)

      sealed_case :
          (server : ServerHelloMessage) (hash : Bytes) (keys : SessionKeys) (finished : Bytes)
          (r : Result RecordError Bytes × RecordWriter)
          → decode_server_hello fb message ≡ some (ok server)
          → Checked server hash keys
          → encode_client_finished fb (record {
            request_id = h.request_id;
            protocol_version = server.selected_version;
            transcript_hash = hash;
          })
            ≡ ok finished
          → seal o (new_writer (record_key keys.client_to_service)) finished ≡ r
          → finished_sealed o fb (keyed h server.selected_version keys) r ≡ (ok frame, h')
          → Accepted message frame h'
      sealed_case server hash keys finished (err x, w) d c f s q = cc
      sealed_case server hash keys finished (ok bytes, w) d c f s q = record {
        server = server;
        transcript_hash = hash;
        keys = keys;
        finished = finished;
        writer = w;
        was_sent = was_sent;
        decoded = d;
        checked = c;
        encoded = f;
        sent = s ∙ ap (λ b. (ok b, w)) (ok-injective (ap (λ x. x.0) q));
        after = ap (λ x. x.1) (sym q);
      }

      checked_case :
          (server : ServerHelloMessage) (r : Result HandshakeError (Bytes × SessionKeys))
          → decode_server_hello fb message ≡ some (ok server)
          → check_server_hello o fb h server ≡ r
          → server_hello_checked o fb h server.selected_version r ≡ (ok frame, h')
          → Accepted message frame h'
      checked_case server (err x) d c q = cc
      checked_case server (ok (hash, keys)) d c q =
          elim (Result-cases (
            encode_client_finished fb (record {
              request_id = h.request_id;
              protocol_version = server.selected_version;
              transcript_hash = hash;
            }))) [
              | inl (finished, f) ↦
                  sealed_case server hash keys finished
                    (seal o (new_writer (record_key keys.client_to_service)) finished) d
                    (check_server_hello-Checked server hash keys c) f refl (ground (arith, q, f))
              | inr (x, f) ↦ ground (arith, q, f)
            ]

      decoded_case :
          (r : Option (Result MessageError ServerHelloMessage))
          → decode_server_hello fb message ≡ r
          → server_hello_decoded o fb h r ≡ some (ok frame, h')
          → Accepted message frame h'
      decoded_case none d q = cc
      decoded_case (some (err x)) d q = cc
      decoded_case (some (ok server)) d q = checked_case server _ d refl (ground (arith, q))
