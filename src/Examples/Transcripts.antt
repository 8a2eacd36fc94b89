-- ===== src/Examples/Transcripts.antt =====
-- Transcripts and nonces.
use yo_authorize.Crypto.Transcript.{HandshakeTranscript, encode_transcript}
use yo_authorize.Crypto.Transcript.Binding.{IsTranscript, encode_transcript_inj}
use yo_authorize.Prelude.{◌≡◌, zeros, arith, codes, refl, Result, Bytes, ok, ℕ, err, []}
use yo_authorize.Core.License.Signature.{signature_input_inj}
use yo_authorize.Crypto.{CryptoError}

abbrev transcript : HandshakeTranscript
transcript = record {
  min_version = 1;
  max_version = 2;
  selected_version = 2;
  client_nonce = zeros 32;
  server_nonce = zeros 32;
  client_public_key = zeros 32;
  server_public_key = zeros 32;
  service_key_id = codes "main";
}

transcript-IsTranscript : IsTranscript transcript
transcript-IsTranscript = record {
  min_version = omega arith;
  max_version = omega arith;
  selected_version = omega arith;
  client_nonce = refl;
  server_nonce = refl;
  client_public_key = refl;
  server_public_key = refl;
}

abbrev or_nothing : Result CryptoError Bytes → Bytes
or_nothing (ok bytes) = bytes
or_nothing (err e) = []

encoded : Bytes
unfolding encode_transcript
encoded = or_nothing (encode_transcript transcript)

encode_transcript-encoded : encode_transcript transcript ≡ ok encoded
unfolding encode_transcript encoded
encode_transcript-encoded = refl

encode_transcript_inj_example : transcript ≡ transcript
encode_transcript_inj_example =
    encode_transcript_inj transcript transcript encoded transcript-IsTranscript
      transcript-IsTranscript encode_transcript-encoded encode_transcript-encoded

abbrev sequence : ℕ
sequence = 5

abbrev version : ℕ
version = 1

signature_input_inj_example :
    (version ≡ version) × (codes "k" ≡ codes "k") × (codes "payload" ≡ codes "payload")
signature_input_inj_example =
    signature_input_inj version version (codes "k") (codes "k") (codes "payload") (codes "payload")
      (omega arith) (omega arith) (omega arith) (omega arith) refl
