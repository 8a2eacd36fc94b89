-- ===== src/Crypto/Transcript/Hash.antt =====
-- `hashTranscript` (ya_license_crypto/src/handshake.cpp).
use yo_authorize.Crypto.Transcript.{
  hash_transcript, OpenSsl, HandshakeTranscript, Bytes, ok, length, encode_transcript,
}
use yo_authorize.OpenSsl.{OpenSsl}
use yo_authorize.Prelude.{Bytes, ◌≡◌, ok, length, >>=-eq-ok}
use yo_authorize.Crypto.{sha256_size}
use yo_authorize.Crypto.Sizes.{length-sha256}

module _ (o : OpenSsl) where
  pub length-hash_transcript :
      (t : HandshakeTranscript) {hash : Bytes}
      → hash_transcript o t ≡ ok hash
      → length hash ≡ sha256_size
  unfolding hash_transcript
  length-hash_transcript t e =
      let (encoded, _, e1) = >>=-eq-ok (encode_transcript t) _ e in length-sha256 o encoded e1
