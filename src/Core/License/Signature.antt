-- ===== src/Core/License/Signature.antt =====
-- `signatureInput` (core/license.cpp).
use yo_authorize.Prelude.{ℕ, Bytes, ◌<◌, length, ◌≤◌, ◌≡◌, append_cancel, append_inj, arith, refl}
use yo_authorize.Core.License.{
  signature_input, length, signature_domain, append_u16, u16, append_u32, u32,
}
use yo_authorize.Prelude.Words.{u16, write_u16_inj, u32}

-- One signature input for two packages, of 16-bit versions and key ids of at most 65535 bytes,
-- means one version, one key id and one payload: no bytes can be moved from one field to another
-- under an unchanged signature.
pub signature_input_inj :
    (v w : ℕ) (k l p q : Bytes)
    → v < 0x10000
    → w < 0x10000
    → length k ≤ 0xffff
    → length l ≤ 0xffff
    → signature_input v k p ≡ signature_input w l q
    → (v ≡ w) × (k ≡ l) × (p ≡ q)
unfolding signature_input
signature_input_inj v w k l p q hv hw hk hl e =
    let all = append_cancel signature_domain e in
    let (e1, r1) = append_inj (append_u16 v) (append_u16 w) refl all in
    let (e2, r2) = append_inj (append_u16 (u16 (length k))) (append_u16 (u16 (length l))) refl r1 in
    let sizes : u16 (length k) ≡ u16 (length l) = write_u16_inj (omega arith) (omega arith) e2 in
    let (e3, r3) = append_inj k l (omega arith) r2 in
    let (_, e4) = append_inj (append_u32 (u32 (length p))) (append_u32 (u32 (length q))) refl r3 in
    (write_u16_inj hv hw e1, e3, e4)
