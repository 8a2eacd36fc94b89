-- ===== src/Protocol/Handshake/Exchange.antt =====
-- The keys that both ends derive (protocol/handshake.cpp).
use yo_authorize.Protocol.Handshake.{exchange_keys, OpenSsl, Bytes, SessionKeys, derive_x25519}
use yo_authorize.OpenSsl.{OpenSsl, IsAgreement, x25519}
use yo_authorize.Prelude.{
  Bytes, ◌≡◌, some, ok, Option, >>=-eq-ok, map_err-eq-ok, sym, ◌∙◌, ok-injective, ap,
  some_injective,
}
use yo_authorize.Crypto.Transcript.{SessionKeys, derive_session_keys}
use yo_authorize.Crypto.{derive_x25519}
use yo_authorize.Crypto.Sizes.{derive_x25519_lem}

module _ (o : OpenSsl) where
  -- Two ends that both get keys from each other's public keys get the same keys.
  pub exchange_keys-agrees :
      IsAgreement o
      → (a pa b pb hash : Bytes) {ka kb : SessionKeys} → o.public_of x25519 a ≡ some pa
      → o.public_of x25519 b ≡ some pb
      → exchange_keys o a pb hash ≡ ok ka
      → exchange_keys o b pa hash ≡ ok kb
      → ka ≡ kb
  unfolding exchange_keys
  exchange_keys-agrees law a pa b pb hash p q e f =
      let (s, es, e1) = >>=-eq-ok (derive_x25519 o a pb) _ (map_err-eq-ok _ _ e) in
      let (t, et, f1) = >>=-eq-ok (derive_x25519 o b pa) _ (map_err-eq-ok _ _ f) in
      let same : ◌≡◌ {A = Option Bytes} (some s) (some t) =
        sym (derive_x25519_lem o a pb es)
        ∙ law.agrees a pa b pb p q
        ∙ derive_x25519_lem o b pa et in
      ok-injective (sym e1 ∙ ap (λ x. derive_session_keys o x hash) (some_injective same) ∙ f1)
