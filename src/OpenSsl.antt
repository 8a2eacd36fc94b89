-- ===== src/OpenSsl.antt =====
-- OpenSSL, as far as the program calls it, and what the program relies on in its documentation.
use yo_authorize.Prelude.{ℕ, ◌≡◌, Bytes, Bool, Option, some, length, true}

pub data KeyType : Type 0 where
  ed25519 x25519 : KeyType

pub record OpenSsl : Type 0 where
  pub digest : Bytes → Option Bytes
  -- EVP_PKEY_get_raw_public_key of the key with this private half
  pub public_of : KeyType → Bytes → Option Bytes
  -- EVP_PKEY_new_raw_private_key and EVP_PKEY_new_raw_public_key return a key
  pub accepts_private : KeyType → Bytes → Bool
  pub accepts_public : KeyType → Bytes → Bool
  pub digest_sign : Bytes → Bytes → Option Bytes
  -- `none` where the context is not set up, else whether EVP_DigestVerify returns 1
  pub digest_verify : Bytes → Bytes → Bytes → Option Bool
  pub derive : Bytes → Bytes → Option Bytes
  pub hkdf : Bytes → Bytes → Bytes → ℕ → Option Bytes
  -- key, nonce, associated data, plaintext; the ciphertext and the tag
  pub encrypt : Bytes → Bytes → Bytes → Bytes → Option (Bytes × Bytes)
  -- key, nonce, associated data, ciphertext, tag
  pub decrypt : Bytes → Bytes → Bytes → Bytes → Bytes → Option Bytes

-- Authenticated encryption: a stream cipher keeps the length, the tag is 16 bytes, and what was
-- sealed opens again under the same key, nonce and associated data.
pub record IsAead (o : OpenSsl) : Type 0 where
  pub sizes :
      (key nonce aad plaintext ciphertext tag : Bytes)
      → o.encrypt key nonce aad plaintext ≡ some (ciphertext, tag)
      → (length ciphertext ≡ length plaintext) × (length tag ≡ 16)
  pub opens :
      (key nonce aad plaintext ciphertext tag : Bytes)
      → o.encrypt key nonce aad plaintext ≡ some (ciphertext, tag)
      → o.decrypt key nonce aad ciphertext tag ≡ some plaintext

-- X25519: each end computes the same secret from its private key and the other's public key.
pub record IsAgreement (o : OpenSsl) : Type 0 where
  pub agrees :
      (a pa b pb : Bytes)
      → o.public_of x25519 a ≡ some pa
      → o.public_of x25519 b ≡ some pb
      → o.derive a pb ≡ o.derive b pa

-- Ed25519: what is signed with a private key verifies under its public half.
pub record IsSignature (o : OpenSsl) : Type 0 where
  pub verifies :
      (key public_key message signature : Bytes)
      → o.public_of ed25519 key ≡ some public_key
      → o.digest_sign key message ≡ some signature
      → (o.accepts_public ed25519 public_key ≡ true)
        × (o.digest_verify public_key message signature ≡ some true)
