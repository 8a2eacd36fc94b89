-- ===== src/Crypto/Sizes.antt =====
-- The sizes of what the primitives return (crypto.cpp).
use yo_authorize.Crypto.{
  random_bytes, ℕ, OpenSsl, Option, sha256, sign_ed25519, generate_x25519_key_pair, derive_x25519,
  Bytes, generate_key_pair, KeyPair, some, ok, length, x25519, sha256_size, signature_size,
  key_size, not, ed25519, or_fail, signature_failed, invalid_input, derivation_failed,
  key_generation_failed,
}
use yo_authorize.Prelude.{
  ℕ, Option, Bytes, ◌≡◌, some, ok, fail_if-eq-ok, length, arith, not, >>=-eq-ok, none, ◌||◌, refl,
  or_fail, ◌==◌, ok-injective, or_fail-eq-ok, ap, ◌∙◌, sym,
}
use yo_authorize.OpenSsl.{OpenSsl, x25519, ed25519}

pub length-random_bytes :
    (size : ℕ) (draw : Option Bytes) {bytes : Bytes}
    → ((d : Bytes) → draw ≡ some d → length d ≡ size)
    → random_bytes size draw ≡ ok bytes
    → length bytes ≡ size
unfolding random_bytes
length-random_bytes size none h e = ground arith
length-random_bytes size (some d) h e = ground (arith, h d refl)

module _ (o : OpenSsl) where
  pub length-sha256 :
      (input : Bytes) {hash : Bytes} → sha256 o input ≡ ok hash → length hash ≡ sha256_size
  unfolding sha256
  length-sha256 input e =
      let (d, digest, e1) = >>=-eq-ok (or_fail (o.digest input) derivation_failed) _ e in
      let (sized, e2) = fail_if-eq-ok (not (length d == sha256_size)) derivation_failed _ e1 in
      ground (arith, sized, ok-injective e2)

  pub length-sign_ed25519 :
      (private_key message : Bytes) {signature : Bytes}
      → sign_ed25519 o private_key message ≡ ok signature
      → length signature ≡ signature_size
  unfolding sign_ed25519
  length-sign_ed25519 private_key message e =
      let (accepted, e1) =
        fail_if-eq-ok (not (o.accepts_private ed25519 private_key)) signature_failed _ e in
      let (s, signed, e2) =
        >>=-eq-ok (or_fail (o.digest_sign private_key message) signature_failed) _ e1 in
      let (sized, e3) = fail_if-eq-ok (not (length s == signature_size)) signature_failed _ e2 in
      ground (arith, sized, ok-injective e3)

  -- A generated pair is a pair of OpenSSL's, of 32 bytes each.
  pub generate_x25519_key_pair_lem :
      (draw : Option Bytes) {pair : KeyPair}
      → generate_x25519_key_pair o draw ≡ ok pair
      → (o.public_of x25519 pair.private_key ≡ some pair.public_key)
        × (length pair.public_key ≡ key_size)
  unfolding generate_x25519_key_pair generate_key_pair
  generate_x25519_key_pair_lem draw {pair = pair} e =
      let (a, drawn, e1) = >>=-eq-ok (or_fail draw key_generation_failed) _ e in
      let (pa, public, e2) =
        >>=-eq-ok (or_fail (o.public_of x25519 a) key_generation_failed) _ e1 in
      let (sized, e3) =
        fail_if-eq-ok (not (length a == key_size) || not (length pa == key_size))
          key_generation_failed _ e2 in
      let same = ok-injective e3 in
      let privates : a ≡ pair.private_key = ap (λ x. x.private_key) same in
      let publics : pa ≡ pair.public_key = ap (λ x. x.public_key) same in
      (
        ap (o.public_of x25519) (sym privates)
            ∙ or_fail-eq-ok _ key_generation_failed public
            ∙ ap (λ x. some x) publics,
        ground (arith, sized, publics),
      )

  pub derive_x25519_lem :
      (a pb : Bytes) {shared : Bytes}
      → derive_x25519 o a pb ≡ ok shared
      → o.derive a pb ≡ some shared
  unfolding derive_x25519
  derive_x25519_lem a pb e =
      let (accepted, e1) =
        fail_if-eq-ok (not (o.accepts_private x25519 a) || not (o.accepts_public x25519 pb))
          invalid_input _ e in
      let (s, derived, e2) = >>=-eq-ok (or_fail (o.derive a pb) derivation_failed) _ e1 in
      let (sized, e3) = fail_if-eq-ok (not (length s == key_size)) derivation_failed _ e2 in
      or_fail-eq-ok _ derivation_failed derived ∙ ap (λ x. some x) (ok-injective e3)
