-- ===== src/Protocol/Handshake/Client/Order.antt =====
-- The calls of a client handshake, one by one (protocol/handshake.cpp).
use yo_authorize.Protocol.Handshake.Client.{
  ClientHandshake, start, Option, some, OpenSsl, EnvelopeBuffers, is_established,
  handle_server_hello, nonce_drawn, seal_client, open_client, key_generated, sealed_by,
  hello_encoded, fail, server_hello_decoded, RecordWriter, opened_by, MessageError,
  server_hello_checked, RecordReader, finished_encoded, CryptoError, finished_sealed, RecordError,
  seal, keyed, decode_server_hello,
}
use yo_authorize.Prelude.{
  Option, is_some, Bytes, ◌≡◌, none, List, ◌∷◌, [], false, ◌∙◌, Result, sym, err, refl, ok, ap,
  Bool-cases, subst, inl, not, inr, true, ◌||◌, ◌==◌, ltb, arith, ℕ, if◌then◌else◌, some_injective,
}
use yo_authorize.OpenSsl.{OpenSsl}
use yo_authorize.Protocol.Envelope.{EnvelopeBuffers}
use yo_authorize.Protocol.Handshake.{
  is_established, established, HandshakeError, failed, is_initial, internal_error, invalid_message,
  SessionKeys, ServerHelloMessage, is_hello_sent, invalid_state,
}
use yo_authorize.Protocol.Record.{RecordWriter, RecordReader, RecordError, seal}
use yo_authorize.Protocol.Messages.{MessageError, ServerHelloMessage}
use yo_authorize.Crypto.{CryptoError, KeyPair, random_bytes, key_size}
use yo_authorize.Crypto.Transcript.{SessionKeys}
use yo_authorize.Protocol.Messages.Hello.{decode_server_hello}

pub data ClientCall : Type 0 where
  start_with : Option Bytes → Option Bytes → ClientCall
  server_hello_with : Bytes → ClientCall
  seal_with : Bytes → ClientCall
  open_with : Bytes → ClientCall

-- The keys are there exactly while the handshake is established.
pub record IsClient (h : ClientHandshake) : Type 0 where
  pub writes : is_some h.writer ≡ is_established h.state
  pub reads : is_some h.reader ≡ is_established h.state

unfoldable pub second : {A : Type 0} → Option (A × ClientHandshake) → Option ClientHandshake
second none = none
second (some (a, h)) = some h

module _ (o : OpenSsl) (fb : EnvelopeBuffers) where
  unfoldable pub step : ClientCall → ClientHandshake → Option ClientHandshake
  unfolding second
  step (start_with n k) h = some (start o fb h n k).1
  step (server_hello_with m) h = second (handle_server_hello o fb h m)
  step (seal_with p) h = some (seal_client o fb h p).1
  step (open_with f) h = some (open_client o fb h f).1

  unfoldable pub run : List ClientCall → ClientHandshake → Option ClientHandshake
  run [] h = some h
  run (c ∷ cs) h = elim (step c h) [ none ↦ none | some h' ↦ run cs h' ]

  -- Before the keys are there: none of them, and not established.
  pub record Keyless (h : ClientHandshake) : Type 0 where
    pub no_writer : is_some h.writer ≡ false
    pub no_reader : is_some h.reader ≡ false
    pub early : is_established h.state ≡ false

  pub Keyless-IsClient : (h : ClientHandshake) → Keyless h → IsClient h
  Keyless-IsClient h k = record {
    writes = k.no_writer ∙ sym k.early;
    reads = k.no_reader ∙ sym k.early;
  }

  fail-Keyless : (h : ClientHandshake) → Keyless (fail h)
  fail-Keyless h = record { no_writer = refl; no_reader = refl; early = refl }

  pub start-Keyless :
      (n k : Option Bytes) (h : ClientHandshake) → IsClient h → Keyless (start o fb h n k).1
  unfolding start nonce_drawn key_generated hello_encoded
  start-Keyless n k h i =
      elim (Bool-cases (
        not (is_initial h.state)
        || h.request_id == 0
        || h.min_version == 0
        || ltb h.max_version h.min_version)) [
          | inl bad ↦ rw bad (fail-Keyless h)
          | inr good ↦ rw good (nonce_case h (random_bytes key_size n) (fresh good))
        ]
    where
      hello_case :
          (h : ClientHandshake) (r : Result MessageError Bytes)
          → Keyless h
          → Keyless (hello_encoded o fb h r).1
      hello_case h (err e) f = fail-Keyless h
      hello_case h (ok encoded) f = record {
        no_writer = f.no_writer;
        no_reader = f.no_reader;
        early = refl;
      }

      key_case :
          (h : ClientHandshake) (r : Result CryptoError KeyPair)
          → Keyless h
          → Keyless (key_generated o fb h r).1
      key_case h (err e) f = fail-Keyless h
      key_case h (ok pair) f =
          hello_case (record h { ephemeral = pair }) _
            (record { no_writer = f.no_writer; no_reader = f.no_reader; early = f.early })

      nonce_case :
          (h : ClientHandshake) (r : Result CryptoError Bytes)
          → Keyless h
          → Keyless (nonce_drawn o fb h k r).1
      nonce_case h (err e) f = fail-Keyless h
      nonce_case h (ok nonce) f =
          key_case (record h { nonce = nonce }) _
            (record { no_writer = f.no_writer; no_reader = f.no_reader; early = f.early })

      fresh :
          (not (is_initial h.state)
              || h.request_id == 0
              || h.min_version == 0
              || ltb h.max_version h.min_version)
            ≡ false
          → Keyless h
      fresh good = record {
        no_writer = ground (arith, good, i.writes);
        no_reader = ground (arith, good, i.reads);
        early = ground (arith, good);
      }

  -- A server hello that is not accepted leaves the client failed, without keys; one that is, not.
  unfoldable pub Settled : Result HandshakeError Bytes → ClientHandshake → Type 0
  Settled (err e) h = Keyless h × (h.state ≡ failed)
  Settled (ok frame) h = IsClient h × (h.state ≡ established)

  failed-Settled : (e : HandshakeError) (h : ClientHandshake) → Settled (err e) (fail h)
  unfolding Settled
  failed-Settled e h = (fail-Keyless h, refl)

  pub handle_server_hello-Settled :
      (m : Bytes) (h : ClientHandshake) {r : Result HandshakeError Bytes} {h' : ClientHandshake}
      → handle_server_hello o fb h m ≡ some (r, h')
      → Settled r h'
  unfolding handle_server_hello server_hello_decoded server_hello_checked finished_encoded
      finished_sealed Settled
  handle_server_hello-Settled m h {r = r} {h' = h'} q =
      elim (Bool-cases (not (is_hello_sent h.state))) [
        | inl bad ↦
            at
              (subst
                (λ x.
                  (if x
                    then some (err invalid_state, fail h)
                    else server_hello_decoded o fb h (decode_server_hello fb m))
                  ≡ some (r, h'))
                bad q)
              (failed-Settled invalid_state h)
        | inr good ↦ decoded_case (decode_server_hello fb m) (
            subst
              (λ x.
                (if x
                  then some (err invalid_state, fail h)
                  else server_hello_decoded o fb h (decode_server_hello fb m))
                ≡ some (r, h'))
              good q)
      ]
    where
      at :
          {s : Result HandshakeError Bytes} {g : ClientHandshake}
          → ◌≡◌ {A = Option (Result HandshakeError Bytes × ClientHandshake)}
              (some (s, g))
              (some (r, h'))
          → Settled s g
          → Settled r h'
      at e k = subst (λ x. Settled (x.0) (x.1)) (some_injective e) k

      sealed_case :
          (h : ClientHandshake) (x : Result RecordError Bytes × RecordWriter)
          → is_some h.reader ≡ true
          → Settled (finished_sealed o fb h x).0 (finished_sealed o fb h x).1
      sealed_case h (err e, w) k = failed-Settled internal_error h
      sealed_case h (ok bytes, w) k = (record { writes = refl; reads = k }, refl)

      encoded_case :
          (h : ClientHandshake) (w : RecordWriter) (x : Result MessageError Bytes)
          → is_some h.reader ≡ true
          → Settled (finished_encoded o fb h w x).0 (finished_encoded o fb h w x).1
      encoded_case h w (err e) k = failed-Settled invalid_message h
      encoded_case h w (ok finished) k = sealed_case h (seal o w finished) k

      checked_case :
          (h : ClientHandshake) (v : ℕ) (x : Result HandshakeError (Bytes × SessionKeys))
          → Settled (server_hello_checked o fb h v x).0 (server_hello_checked o fb h v x).1
      checked_case h v (err e) = failed-Settled e h
      checked_case h v (ok (hash, keys)) = encoded_case (keyed h v keys) _ _ refl

      decoded_case :
          (x : Option (Result MessageError ServerHelloMessage))
          → server_hello_decoded o fb h x ≡ some (r, h')
          → Settled r h'
      decoded_case none e = cc
      decoded_case (some (err x)) e = at e (failed-Settled invalid_message h)
      decoded_case (some (ok server)) e = at e (checked_case h server.selected_version _)

  pub seal_client-IsClient :
      (p : Bytes) (h : ClientHandshake) → IsClient h → IsClient (seal_client o fb h p).1
  unfolding seal_client sealed_by
  seal_client-IsClient p h i = elim (Bool-cases (is_established h.state)) [
    | inl t ↦ rw t (sealed_case h.writer refl)
    | inr f ↦ rw f i
  ]
    where
      sealed_case : (w : Option RecordWriter) → h.writer ≡ w → IsClient (sealed_by o fb h w p).1
      sealed_case none e = i
      sealed_case (some w) e = record {
        writes = sym (ap (λ x. is_some x) e) ∙ i.writes;
        reads = i.reads;
      }

  pub open_client-IsClient :
      (f : Bytes) (h : ClientHandshake) → IsClient h → IsClient (open_client o fb h f).1
  unfolding open_client opened_by
  open_client-IsClient f h i = elim (Bool-cases (is_established h.state)) [
    | inl t ↦ rw t (opened_case h.reader refl)
    | inr e ↦ rw e i
  ]
    where
      opened_case : (r : Option RecordReader) → h.reader ≡ r → IsClient (opened_by o fb h r f).1
      opened_case none e = i
      opened_case (some r) e = record {
        writes = i.writes;
        reads = sym (ap (λ x. is_some x) e) ∙ i.reads;
      }
