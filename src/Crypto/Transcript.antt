-- ===== src/Crypto/Transcript.antt =====
-- The handshake transcript, the session keys and the record nonces (crypto/handshake.h, .cpp).
pub mod Binding
pub mod Hash
use yo_authorize.Prelude.{
  map_err, ℕ, Bytes, ◌++◌, ◌||◌, length, ltb, if◌then◌else◌, empty, codes, Result, ok, err, ◌>>=◌,
}
use yo_authorize.Prelude.Words.{u16, write_word}
use yo_authorize.OpenSsl.{OpenSsl}
use yo_authorize.Crypto.{
  CryptoError, invalid_input, derivation_failed, key_size, sha256, hkdf_sha256,
}

abbrev domain : Bytes
domain = codes "YOAUTHORIZE-SERVICE-HANDSHAKE-V1"

pub record HandshakeTranscript : Type 0 where
  pub min_version : ℕ
  pub max_version : ℕ
  pub selected_version : ℕ
  pub client_nonce : Bytes
  pub server_nonce : Bytes
  pub client_public_key : Bytes
  pub server_public_key : Bytes
  pub service_key_id : Bytes

pub record DirectionalKey : Type 0 where
  pub key : Bytes
  pub nonce_salt : Bytes

pub record SessionKeys : Type 0 where
  pub client_to_service : DirectionalKey
  pub service_to_client : DirectionalKey

-- The appenders return what they append.
abbrev append_u16 : ℕ → Bytes
append_u16 value = write_word 2 value

abbrev append_sized_string : Bytes → Bytes
append_sized_string value = append_u16 (u16 (length value)) ++ value

-- The fields behind the domain, in order.
abbrev transcript_bytes : HandshakeTranscript → Bytes
transcript_bytes t =
    append_u16 t.min_version
    ++ (append_u16 t.max_version
        ++ (append_u16 t.selected_version
            ++ (t.client_nonce
                ++ (t.server_nonce
                    ++ (t.client_public_key
                        ++ (t.server_public_key ++ append_sized_string t.service_key_id))))))

unfoldable pub encode_transcript : HandshakeTranscript → Result CryptoError Bytes
encode_transcript t =
    if empty t.service_key_id || ltb 0xffff (length t.service_key_id)
    then err invalid_input
    else ok (domain ++ transcript_bytes t)

module _ (o : OpenSsl) where
  unfoldable pub hash_transcript : HandshakeTranscript → Result CryptoError Bytes
  hash_transcript t = do encoded ← encode_transcript t; sha256 o encoded

  abbrev derive : Bytes → Bytes → Bytes → ℕ → Result CryptoError Bytes
  derive shared_secret transcript_hash label size =
      hkdf_sha256 o shared_secret transcript_hash label size

  -- All four derivations are made before their errors are looked at; they have no effects.
  unfoldable pub derive_session_keys : Bytes → Bytes → Result CryptoError SessionKeys
  derive_session_keys shared_secret transcript_hash = map_err derivation_failed (do
    c2s_key ← derive shared_secret transcript_hash (codes "YA-V1-C2S-KEY") key_size
    s2c_key ← derive shared_secret transcript_hash (codes "YA-V1-S2C-KEY") key_size
    c2s_nonce ← derive shared_secret transcript_hash (codes "YA-V1-C2S-NONCE") 4
    s2c_nonce ← derive shared_secret transcript_hash (codes "YA-V1-S2C-NONCE") 4
    ok (record {
      client_to_service = record { key = c2s_key; nonce_salt = c2s_nonce };
      service_to_client = record { key = s2c_key; nonce_salt = s2c_nonce };
    }))

-- The salt, then the sequence number in eight bytes.
unfoldable pub make_record_nonce : Bytes → ℕ → Bytes
make_record_nonce salt sequence = salt ++ write_word 8 sequence
