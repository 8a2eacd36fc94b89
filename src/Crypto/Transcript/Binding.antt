-- ===== src/Crypto/Transcript/Binding.antt =====
-- `encodeTranscript` and `makeRecordNonce` (ya_license_crypto/src/handshake.cpp).
use yo_authorize.Prelude.{
  ℕ, Bytes, ◌≡◌, length, ok, ◌<◌, if-eq-ok, append_cancel, ok-injective, ◌∙◌, sym, append_inj, refl,
}
use yo_authorize.Crypto.Transcript.{
  HandshakeTranscript, encode_transcript, make_record_nonce, key_size, transcript_bytes, domain,
  append_u16, u16,
}
use yo_authorize.Crypto.{key_size, invalid_input}
use yo_authorize.Prelude.Words.{write_u64_inj, u16, write_u16_inj}

-- The fixed sizes of the C++ types, and the limit that `encodeTranscript` puts on the key id.
pub record IsTranscript (t : HandshakeTranscript) : Type 0 where
  pub min_version : t.min_version < 0x10000
  pub max_version : t.max_version < 0x10000
  pub selected_version : t.selected_version < 0x10000
  pub client_nonce : length t.client_nonce ≡ key_size
  pub server_nonce : length t.server_nonce ≡ key_size
  pub client_public_key : length t.client_public_key ≡ key_size
  pub server_public_key : length t.server_public_key ≡ key_size

-- The signature over a transcript covers every field: two transcripts of 16-bit versions and
-- 32-byte nonces and keys that have one encoding are equal.
pub encode_transcript_inj :
    (s t : HandshakeTranscript) (bytes : Bytes)
    → IsTranscript s
    → IsTranscript t
    → encode_transcript s ≡ ok bytes
    → encode_transcript t ≡ ok bytes
    → s ≡ t
unfolding encode_transcript
encode_transcript_inj s t bytes vs vt es et =
    let (_, s0) = if-eq-ok _ invalid_input _ es in
    let (_, t0) = if-eq-ok _ invalid_input _ et in
    let all : transcript_bytes s ≡ transcript_bytes t =
      append_cancel domain (ok-injective s0 ∙ sym (ok-injective t0)) in
    let (e1, r1) = append_inj (append_u16 s.min_version) (append_u16 t.min_version) refl all in
    let (e2, r2) = append_inj (append_u16 s.max_version) (append_u16 t.max_version) refl r1 in
    let (e3, r3) =
      append_inj (append_u16 s.selected_version) (append_u16 t.selected_version) refl r2 in
    let (e4, r4) =
      append_inj s.client_nonce t.client_nonce (vs.client_nonce ∙ sym vt.client_nonce) r3 in
    let (e5, r5) =
      append_inj s.server_nonce t.server_nonce (vs.server_nonce ∙ sym vt.server_nonce) r4 in
    let (e6, r6) =
      append_inj s.client_public_key t.client_public_key
        (vs.client_public_key ∙ sym vt.client_public_key) r5 in
    let (e7, r7) =
      append_inj s.server_public_key t.server_public_key
        (vs.server_public_key ∙ sym vt.server_public_key) r6 in
    let (_, e8) =
      append_inj (append_u16 (u16 (length s.service_key_id)))
        (append_u16 (u16 (length t.service_key_id))) refl r7 in
    λ i. record {
      min_version = write_u16_inj vs.min_version vt.min_version e1 i;
      max_version = write_u16_inj vs.max_version vt.max_version e2 i;
      selected_version = write_u16_inj vs.selected_version vt.selected_version e3 i;
      client_nonce = e4 i;
      server_nonce = e5 i;
      client_public_key = e6 i;
      server_public_key = e7 i;
      service_key_id = e8 i;
    }

-- Under one salt, two sequence numbers of 64 bits never share a nonce.
pub make_record_nonce_inj :
    (salt : Bytes) (m n : ℕ)
    → m < 0x1_0000_0000_0000_0000
    → n < 0x1_0000_0000_0000_0000
    → make_record_nonce salt m ≡ make_record_nonce salt n
    → m ≡ n
unfolding make_record_nonce
make_record_nonce_inj salt m n hm hn e = write_u64_inj hm hn (append_cancel salt e)
