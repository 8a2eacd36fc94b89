-- ===== src/Protocol/Handshake/Agreement.antt =====
-- The two ends of a handshake, together (protocol/handshake.cpp).
use yo_authorize.Protocol.Handshake.Client.{
  ClientHandshake, start, client_hello_of, handle_server_hello,
}
use yo_authorize.Protocol.Handshake.Server.{
  ServerHandshake, handle_client_finished, handle_client_hello,
}
use yo_authorize.OpenSsl.{OpenSsl, IsAead, IsAgreement, x25519}
use yo_authorize.Protocol.Record.{RecordWriter, RecordReader, new_writer, new_reader}
use yo_authorize.Prelude.{
  ◌≡◌, some, Bytes, Option, length, ◌≤◌, ok, Result, ok-injective, sym, subst, ◌∙◌, ap, arith, min,
  refl,
}
use yo_authorize.Protocol.Envelope.{EnvelopeBuffers, IsEnvelopeBuffers}
use yo_authorize.Protocol.Handshake.{
  established, ServerHelloMessage, exchange_keys, transcript_for, record_key,
}
use yo_authorize.Protocol.Record.Channel.{InStep, seal-Sealed, new-InStep, open-seal}
use yo_authorize.Protocol.Handshake.Client.Starting.{Started, started, start-Started}
use yo_authorize.Protocol.Handshake.Server.Answering.{
  Answered, answer_hello, handle_client_hello-Answered, answered,
}
use yo_authorize.Protocol.Messages.{ServerHelloMessage, MessageError, ClientFinishedMessage}
use yo_authorize.Protocol.Messages.Hello.{decode_client_finished}
use yo_authorize.Protocol.Handshake.Client.Accepting.{Accepted, handle_server_hello-Accepted}
use yo_authorize.Protocol.Messages.Hello.RoundTrip.{
  decode-encode_server_hello, decode-encode_client_hello, decode-encode_client_finished,
}
use yo_authorize.Crypto.Sizes.{
  length-random_bytes, generate_x25519_key_pair_lem, length-sign_ed25519,
}
use yo_authorize.Protocol.Handshake.Exchange.{exchange_keys-agrees}
use yo_authorize.Crypto.Transcript.{hash_transcript}
use yo_authorize.Crypto.Transcript.Hash.{length-hash_transcript}
use yo_authorize.Protocol.Handshake.Server.Finishing.{handle_client_finished_lem}

-- The service reads what the client writes next, and the other way round.
pub record Linked (c : ClientHandshake) (s : ServerHandshake) : Type 0 where
  pub client_writer : RecordWriter
  pub client_reader : RecordReader
  pub server_writer : RecordWriter
  pub server_reader : RecordReader
  pub client_writes : c.writer ≡ some client_writer
  pub client_reads : c.reader ≡ some client_reader
  pub server_writes : s.writer ≡ some server_writer
  pub server_reads : s.reader ≡ some server_reader
  pub up : InStep client_writer server_reader
  pub down : InStep server_writer client_reader

-- What both ends have agreed on.
pub record Agreed (c : ClientHandshake) (s : ServerHandshake) : Type 0 where
  pub client_state : c.state ≡ established
  pub server_state : s.state ≡ established
  pub version : c.selected_version ≡ s.selected_version
  pub request : c.request_id ≡ s.request_id
  pub linked : Linked c s

decoded-injective :
    {M : Type 0} {a b : M}
    → ◌≡◌ {A = Option (Result MessageError M)} (some (ok a)) (some (ok b))
    → a ≡ b
decoded-injective e = cc

module _ (o : OpenSsl) (fb : EnvelopeBuffers) (ok_fb : IsEnvelopeBuffers fb) (aead : IsAead o)
    (agreement : IsAgreement o) where
  module _ (c0 c1 c2 : ClientHandshake) (s0 s1 : ServerHandshake) (hello reply frame : Bytes)
      (n k n' k' : Option Bytes) (n32 : (d : Bytes) → n ≡ some d → length d ≡ 32)
      (n32' : (d : Bytes) → n' ≡ some d → length d ≡ 32) (small_hello : length hello ≤ 1048576)
      (small_reply : length reply ≤ 1048576) (cs : Started o fb c0 n k hello c1)
      (sa : Answered o fb s0 hello n' k' reply s1) (ca : Accepted o fb c1 reply frame c2) where
    same_client : sa.client ≡ client_hello_of c1
    same_client =
        let m = client_hello_of (started c0 cs.nonce cs.key_pair) in
        let read =
          decode-encode_client_hello fb ok_fb small_hello m (length-random_bytes _ n n32 cs.drawn)
            (generate_x25519_key_pair_lem o k cs.generated).1 cs.encoded in
        decoded-injective (sym sa.decoded ∙ read) ∙ ap client_hello_of (sym cs.after)

    answer : ServerHelloMessage
    answer =
        answer_hello s0 (client_hello_of c1) sa.drawn.nonce sa.drawn.ephemeral.public_key
          sa.drawn.signature

    same_server : ca.server ≡ answer
    unfolding answer
    same_server =
        let read =
          decode-encode_server_hello fb ok_fb small_reply
            (answer_hello s0 sa.client sa.drawn.nonce sa.drawn.ephemeral.public_key
              sa.drawn.signature)
            (length-random_bytes _ n' n32' sa.drawn.drawn)
            (generate_x25519_key_pair_lem o k' sa.drawn.generated).1
            (length-sign_ed25519 o _ _ sa.drawn.signed)
            (sa.drawn.encoded ∙ ap (λ x. ok x) (sym sa.replied)) in
        decoded-injective (sym ca.decoded ∙ read)
        ∙ ap
            (λ x. answer_hello s0 x sa.drawn.nonce sa.drawn.ephemeral.public_key sa.drawn.signature)
            same_client

    same_hash : ca.transcript_hash ≡ sa.answer.transcript_hash
    unfolding answer
    same_hash = ok-injective (
        sym ca.checked.hashed
        ∙ ap (λ x. hash_transcript o (transcript_for (client_hello_of c1) x)) same_server
        ∙ ap
            (λ x. hash_transcript o (
              transcript_for x (
                answer_hello s0 x sa.drawn.nonce sa.drawn.ephemeral.public_key sa.drawn.signature)))
            (sym same_client)
        ∙ sa.drawn.hashed)

    same_keys : ca.keys ≡ sa.answer.keys
    unfolding answer
    same_keys =
        let client_pair : o.public_of x25519 c1.ephemeral.private_key
            ≡ some c1.ephemeral.public_key =
          subst (λ x. o.public_of x25519 x.ephemeral.private_key ≡ some x.ephemeral.public_key)
            (sym cs.after) (generate_x25519_key_pair_lem o k cs.generated).0 in
        exchange_keys-agrees o agreement c1.ephemeral.private_key c1.ephemeral.public_key
          sa.drawn.ephemeral.private_key sa.drawn.ephemeral.public_key ca.transcript_hash
          client_pair (generate_x25519_key_pair_lem o k' sa.drawn.generated).0
          (ap (λ x. exchange_keys o c1.ephemeral.private_key x ca.transcript_hash)
              (ap (λ x. x.public_key) (sym same_server))
            ∙ ca.checked.exchanged)
          (ap (exchange_keys o _ _) same_hash
            ∙ ap (λ x. exchange_keys o sa.drawn.ephemeral.private_key x sa.answer.transcript_hash)
                (ap (λ x. x.public_key) (sym same_client))
            ∙ sa.drawn.exchanged)

    finished_frame : ClientFinishedMessage
    finished_frame = record {
      request_id = c1.request_id;
      protocol_version = ca.server.selected_version;
      transcript_hash = ca.transcript_hash;
    }

    decoded_finished : decode_client_finished fb ca.finished ≡ some (ok finished_frame)
    unfolding finished_frame
    decoded_finished =
        let sealed = seal-Sealed o _ _ _ _ ca.sent in
        let b = sealed.bounded in
        decode-encode_client_finished fb ok_fb (omega arith) finished_frame
          (length-hash_transcript o _ ca.checked.hashed) ca.encoded

    server_finishes :
        (s : ServerHandshake) × (handle_client_finished o fb s1 frame ≡ some (ok tt, s))
        × Agreed c2 s
    unfolding finished_frame answer
    server_finishes =
        let keys = sa.answer.keys in
        let step : InStep (new_writer (record_key ca.keys.client_to_service))
            (new_reader (record_key keys.client_to_service)) =
          new-InStep (ap (λ x. record_key x.client_to_service) same_keys) in
        let back : InStep (new_writer (record_key keys.service_to_client))
            (new_reader (record_key ca.keys.service_to_client)) =
          new-InStep (ap (λ x. record_key x.service_to_client) (sym same_keys)) in
        let (r', opened, up) = open-seal o aead _ _ _ _ _ step ca.sent in
        let version : ca.server.selected_version ≡ sa.answer.selected_version =
          ap (λ x. x.selected_version) same_server
          ∙ ap (λ x. min s0.max_version x.max_version) (sym same_client)
          ∙ sym sa.drawn.selected in
        let request : c1.request_id ≡ sa.client.request_id =
          ap (λ x. x.request_id) (sym same_client) in
        let h = answered s0 sa.client.request_id sa.answer in
        let done =
          handle_client_finished_lem o fb h frame ca.finished finished_frame
            (new_reader (record_key keys.client_to_service)) r' refl refl opened decoded_finished
            request version same_hash in
        (
          record h { reader = some r'; state = established },
          ap (λ x. handle_client_finished o fb x frame) sa.after ∙ done,
          record {
            client_state = ap (λ x. x.state) ca.after;
            server_state = refl;
            version = ap (λ x. x.selected_version) ca.after ∙ version;
            request = ap (λ x. x.request_id) ca.after ∙ request;
            linked = record {
              client_writer = ca.writer;
              client_reader = new_reader (record_key ca.keys.service_to_client);
              server_writer = new_writer (record_key keys.service_to_client);
              server_reader = r';
              client_writes = ap (λ x. x.writer) ca.after;
              client_reads = ap (λ x. x.reader) ca.after;
              server_writes = refl;
              server_reads = refl;
              up = up;
              down = back;
            };
          },
        )

  -- Where a client has started, a service has answered its hello, and the client has accepted that
  -- answer, the service accepts the client's finished frame, and then both are established, with
  -- the same version and request, and each reads the records that the other writes next. Asked of
  -- the nonces drawn are 32 bytes, of both hellos at most 1 MiB, of FlatBuffers that buffers read
  -- back, of OpenSSL that X25519 agrees and that the AEAD opens what it sealed.
  pub handshake-Agreed :
      (c0 c1 c2 : ClientHandshake) (s0 s1 : ServerHandshake) (hello reply frame : Bytes)
      (n k n' k' : Option Bytes)
      → ((d : Bytes) → n ≡ some d → length d ≡ 32)
      → ((d : Bytes) → n' ≡ some d → length d ≡ 32)
      → length hello ≤ 1048576
      → length reply ≤ 1048576
      → start o fb c0 n k ≡ (ok hello, c1)
      → handle_client_hello o fb s0 hello n' k' ≡ some (ok reply, s1)
      → handle_server_hello o fb c1 reply ≡ some (ok frame, c2)
      → (s2 : ServerHandshake) × (handle_client_finished o fb s1 frame ≡ some (ok tt, s2))
        × Agreed c2 s2
  handshake-Agreed c0 c1 c2 s0 s1 hello reply frame n k n' k' n32 n32' sh sr e f g =
      server_finishes c0 c1 c2 s0 s1 hello reply frame n k n' k' n32 n32' sh sr
        (start-Started o fb c0 n k hello c1 e)
        (handle_client_hello-Answered o fb s0 hello n' k' reply s1 f)
        (handle_server_hello-Accepted o fb c1 reply frame c2 g)
