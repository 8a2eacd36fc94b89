-- ===== src/Protocol/Handshake/Client/Starting.antt =====
-- `ClientHandshake::start`, taken apart (protocol/handshake.cpp).
use yo_authorize.Protocol.Handshake.Client.{
  ClientHandshake, OpenSsl, EnvelopeBuffers, Bytes, Option, start, KeyPair, nonce_drawn, hello_sent,
  key_generated, hello_encoded, encode_client_hello, client_hello_of,
}
use yo_authorize.OpenSsl.{OpenSsl}
use yo_authorize.Protocol.Envelope.{EnvelopeBuffers}
use yo_authorize.Prelude.{Bytes, Option, ◌≡◌, ok, Result-cases, inr, arith, inl}
use yo_authorize.Crypto.{KeyPair, random_bytes, key_size, generate_x25519_key_pair}
use yo_authorize.Protocol.Handshake.{hello_sent}
use yo_authorize.Protocol.Messages.Hello.{encode_client_hello}

abbrev pub started : ClientHandshake → Bytes → KeyPair → ClientHandshake
started h nonce key_pair = record h { nonce = nonce; ephemeral = key_pair; state = hello_sent }

module _ (o : OpenSsl) (fb : EnvelopeBuffers) (h : ClientHandshake) where
  pub record Started (nonce_draw key_draw : Option Bytes) (hello : Bytes) (h' : ClientHandshake)
      : Type 0 where
    pub nonce : Bytes
    pub key_pair : KeyPair
    pub drawn : random_bytes key_size nonce_draw ≡ ok nonce
    pub generated : generate_x25519_key_pair o key_draw ≡ ok key_pair
    pub encoded : encode_client_hello fb (client_hello_of (started h nonce key_pair)) ≡ ok hello
    pub after : h' ≡ started h nonce key_pair

  pub start-Started :
      (nonce_draw key_draw : Option Bytes) (hello : Bytes) (h' : ClientHandshake)
      → start o fb h nonce_draw key_draw ≡ (ok hello, h')
      → Started nonce_draw key_draw hello h'
  unfolding start nonce_drawn key_generated hello_encoded
  start-Started nonce_draw key_draw hello h' e =
      elim (Result-cases (random_bytes key_size nonce_draw)) [
        | inr (x, d) ↦ ground (arith, e, d)
        | inl (nonce, d) ↦ elim (Result-cases (generate_x25519_key_pair o key_draw)) [
          | inr (x, g) ↦ ground (arith, e, d, g)
          | inl (pair, g) ↦
              elim (Result-cases
                (encode_client_hello fb (client_hello_of (started h nonce pair)))) [
                  | inr (x, f) ↦ ground (arith, e, d, g, f)
                  | inl (bytes, f) ↦ record {
                    nonce = nonce;
                    key_pair = pair;
                    drawn = d;
                    generated = g;
                    encoded = ground (arith, e, d, g, f);
                    after = ground (arith, e, d, g, f);
                  }
                ]
        ]
      ]
