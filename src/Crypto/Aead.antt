-- ===== src/Crypto/Aead.antt =====
-- `sealChaCha20Poly1305` and `openChaCha20Poly1305` (crypto.cpp).
use yo_authorize.Prelude.{
  Bytes, ◌≡◌, ok, some, length, ◌++◌, ◌+◌, ◌≤◌, arith, ap, Option, length-append, sym, take,
  ok-injective, ◌-◌, fail_if-eq-ok, ◌∙◌, take-append, drop, drop-append, none, refl,
}
use yo_authorize.OpenSsl.{OpenSsl, IsAead}
use yo_authorize.Crypto.{
  seal_chacha20_poly1305, some, length, open_chacha20_poly1305, Option, sealed_bytes, take,
  invalid_input, drop,
}

module _ (o : OpenSsl) (aead : IsAead o) (key nonce plaintext aad : Bytes) {whole : Bytes}
    (e : seal_chacha20_poly1305 o key nonce plaintext aad ≡ ok whole) where
  parts :
      (c : Bytes) × (tag : Bytes) × (o.encrypt key nonce aad plaintext ≡ some (c, tag))
      × (whole ≡ c ++ tag)
      × (length plaintext ≤ 2147483647)
      × (length aad ≤ 2147483647)
  unfolding seal_chacha20_poly1305
  parts =
      let (fits, e1) = fail_if-eq-ok _ invalid_input _ e in
      sealed_parts (o.encrypt key nonce aad plaintext) refl e1
    where
      sealed_parts :
          (r : Option (Bytes × Bytes))
          → o.encrypt key nonce aad plaintext ≡ r
          → sealed_bytes o r ≡ ok whole
          → (c : Bytes) × (tag : Bytes) × (o.encrypt key nonce aad plaintext ≡ some (c, tag))
            × (whole ≡ c ++ tag)
            × (length plaintext ≤ 2147483647)
            × (length aad ≤ 2147483647)
      sealed_parts none p q = cc
      sealed_parts (some (c, tag)) p q =
          (c, tag, p, sym (ok-injective q), ground arith, ground arith)

  pub length-seal_chacha20_poly1305 : length whole ≡ length plaintext + 16
  length-seal_chacha20_poly1305 =
      let (c, tag, enc, same, _, _) = parts in
      let (cl, tl) = aead.sizes key nonce aad plaintext c tag enc in
      omega (arith, ap length same, length-append c tag)

  -- What `sealChaCha20Poly1305` sealed, `openChaCha20Poly1305` opens to the plaintext under the
  -- same key, nonce and associated data. Asked of OpenSSL is that the AEAD keeps lengths and opens
  -- what it sealed.
  pub open-seal_chacha20_poly1305 : open_chacha20_poly1305 o key nonce whole aad ≡ ok plaintext
  unfolding open_chacha20_poly1305
  open-seal_chacha20_poly1305 =
      let (c, tag, enc, same, pl, al) = parts in
      let (cl, tl) = aead.sizes key nonce aad plaintext c tag enc in
      let size : length whole ≡ length c + 16 =
        omega (arith, ap length same, length-append c tag) in
      let front : take (length whole - 16) whole ≡ c =
        ap (λ x. take (length whole - 16) x) same
        ∙ take-append (length whole - 16) c tag (omega arith) in
      let back : drop (length whole - 16) whole ≡ tag =
        ap (λ x. drop (length whole - 16) x) same
        ∙ drop-append (length whole - 16) c tag (omega arith) in
      ground (arith, front, back, aead.opens key nonce aad plaintext c tag enc)
