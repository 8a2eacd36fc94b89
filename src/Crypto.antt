-- ===== src/Crypto.antt =====
-- The cryptographic primitives (ya_license_crypto): crypto.h and crypto.cpp over OpenSSL, which is
-- the parameter `OpenSsl`. Each field is the chain of EVP calls that one function makes; `none`
-- where a call of the chain reports failure. Randomness is an argument: what the generator drew.
pub mod Transcript
pub mod Aead
pub mod Sizes
use yo_authorize.Prelude.{
  [], ◌∷◌, ℕ, ◌+◌, ◌-◌, ◌≡◌, ◌<◌, Bytes, Bool, true, false, not, ◌||◌, Option, none, some, ◌++◌,
  length, take, drop, leb, ltb, ◌==◌, if◌then◌else◌, empty, Result, ok, err, ◌>>=◌, ◌>>◌, fail_if,
  or_fail,
}
use yo_authorize.OpenSsl.{OpenSsl, KeyType, ed25519, x25519}

abbrev pub key_size : ℕ
key_size = 32

abbrev pub nonce_size : ℕ
nonce_size = 12

abbrev pub tag_size : ℕ
tag_size = 16

abbrev pub signature_size : ℕ
signature_size = 64

abbrev pub sha256_size : ℕ
sha256_size = 32

abbrev int_max : ℕ
int_max = 2147483647

pub data CryptoError : Type 0 where
  invalid_input random_failed key_generation_failed derivation_failed : CryptoError
  signature_failed invalid_signature encryption_failed authentication_failed : CryptoError

pub record KeyPair : Type 0 where
  pub private_key : Bytes
  pub public_key : Bytes

abbrev valid_size : ℕ → Bool
valid_size size = leb size int_max

-- `OPENSSL_cleanse` zeroes the span.
unfoldable pub cleanse : Bytes → Bytes
cleanse [] = []
cleanse (b ∷ bs) = 0 ∷ cleanse bs

-- The draw is what `RAND_priv_bytes` filled the span with, `none` where it failed.
unfoldable pub random_bytes : ℕ → Option Bytes → Result CryptoError Bytes
random_bytes size draw =
    if size == 0 || not (valid_size size) then err invalid_input else or_fail draw random_failed

module _ (o : OpenSsl) where
  open o use {
    digest, public_of, accepts_private, accepts_public, digest_sign, digest_verify, derive, hkdf,
    encrypt, decrypt,
  }

  unfoldable pub sha256 : Bytes → Result CryptoError Bytes
  sha256 input = do
    digest ← or_fail (digest input) derivation_failed
    fail_if (not (length digest == sha256_size)) derivation_failed
    ok digest

  -- The draw is the raw private key of the generated pair.
  unfoldable pub generate_key_pair : KeyType → Option Bytes → Result CryptoError KeyPair
  generate_key_pair type draw = do
    private_key ← or_fail draw key_generation_failed
    public_key ← or_fail (public_of type private_key) key_generation_failed
    fail_if (not (length private_key == key_size) || not (length public_key == key_size))
        key_generation_failed
    ok (record { private_key = private_key; public_key = public_key })

  unfoldable pub generate_ed25519_key_pair : Option Bytes → Result CryptoError KeyPair
  unfolding generate_key_pair
  generate_ed25519_key_pair draw = generate_key_pair ed25519 draw

  unfoldable pub generate_x25519_key_pair : Option Bytes → Result CryptoError KeyPair
  unfolding generate_key_pair
  generate_x25519_key_pair draw = generate_key_pair x25519 draw

  unfoldable pub sign_ed25519 : Bytes → Bytes → Result CryptoError Bytes
  sign_ed25519 private_key message = do
    fail_if (not (accepts_private ed25519 private_key)) signature_failed
    signature ← or_fail (digest_sign private_key message) signature_failed
    fail_if (not (length signature == signature_size)) signature_failed
    ok signature

  unfoldable pub verify_result : Option Bool → Result CryptoError (Unit {0})
  verify_result none = err signature_failed
  verify_result (some result) = if result then ok tt else err invalid_signature

  -- `ok tt` is `CryptoError::None`.
  unfoldable pub verify_ed25519 : Bytes → Bytes → Bytes → Result CryptoError (Unit {0})
  unfolding verify_result
  verify_ed25519 public_key message signature = do
    fail_if (not (accepts_public ed25519 public_key)) signature_failed
    verify_result (digest_verify public_key message signature)

  unfoldable pub derive_x25519 : Bytes → Bytes → Result CryptoError Bytes
  derive_x25519 private_key peer_public_key = do
    fail_if
        (not (accepts_private x25519 private_key) || not (accepts_public x25519 peer_public_key))
        invalid_input
    shared_secret ← or_fail (derive private_key peer_public_key) derivation_failed
    fail_if (not (length shared_secret == key_size)) derivation_failed
    ok shared_secret

  unfoldable pub hkdf_sha256 : Bytes → Bytes → Bytes → ℕ → Result CryptoError Bytes
  hkdf_sha256 key salt info output_size = do
    fail_if (empty key || output_size == 0) invalid_input
    or_fail (hkdf key salt info output_size) derivation_failed

  unfoldable pub sealed_bytes : Option (Bytes × Bytes) → Result CryptoError Bytes
  sealed_bytes none = err encryption_failed
  sealed_bytes (some (ciphertext, tag)) = ok (ciphertext ++ tag)

  unfoldable pub seal_chacha20_poly1305 : Bytes → Bytes → Bytes → Bytes → Result CryptoError Bytes
  unfolding sealed_bytes
  seal_chacha20_poly1305 key nonce plaintext aad = do
    fail_if (not (valid_size (length plaintext)) || not (valid_size (length aad))) invalid_input
    sealed_bytes (encrypt key nonce aad plaintext)

  unfoldable pub open_chacha20_poly1305 : Bytes → Bytes → Bytes → Bytes → Result CryptoError Bytes
  open_chacha20_poly1305 key nonce ciphertext_and_tag aad =
      let size = length ciphertext_and_tag in
      if ltb size tag_size || not (valid_size (size - tag_size)) || not (valid_size (length aad))
      then err invalid_input
      else or_fail
          (decrypt key nonce aad (take (size - tag_size) ciphertext_and_tag)
            (drop (size - tag_size) ciphertext_and_tag))
          authentication_failed
