-- ===== src/Examples/Ciphertexts.antt =====
-- A text that is sealed and opened.
use yo_authorize.Prelude.{Bytes, codes, ◌++◌, zeros, [], ◌≡◌, ok, refl}
use yo_authorize.Crypto.{seal_chacha20_poly1305, open_chacha20_poly1305, sealed_bytes}
use yo_authorize.Examples.Ciphers.{toy, tag_of, fit, toy-IsAead}
use yo_authorize.Crypto.Aead.{open-seal_chacha20_poly1305}

abbrev sealed_text : Bytes
sealed_text = codes "text" ++ (codes "nonce" ++ zeros 11)

seal_text : seal_chacha20_poly1305 toy (zeros 32) (codes "nonce") (codes "text") [] ≡ ok sealed_text
unfolding seal_chacha20_poly1305 sealed_bytes toy tag_of fit
seal_text = refl

open-seal_chacha20_poly1305_example :
    open_chacha20_poly1305 toy (zeros 32) (codes "nonce") sealed_text [] ≡ ok (codes "text")
open-seal_chacha20_poly1305_example =
    open-seal_chacha20_poly1305 toy toy-IsAead (zeros 32) (codes "nonce") (codes "text") []
      seal_text
