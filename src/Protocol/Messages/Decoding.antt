-- ===== src/Protocol/Messages/Decoding.antt =====
-- The steps that the decoders share, on an envelope that the builder wrote
-- (protocol/messages.cpp).
use yo_authorize.Protocol.Messages.{
  checked_envelope, decode_body, EnvelopeBuffers, ℕ, MessageError, decode_envelope, typed_body,
  finish, invalid_field,
}
use yo_authorize.Protocol.Envelope.{
  EnvelopeBuffers, IsEnvelopeBuffers, verify_envelope, Envelope, Body,
}
use yo_authorize.Prelude.{
  ℕ, Bool, length, ◌≤◌, Option, ◌≡◌, Result, some, Bytes, empty, false, true, arith, ◌≢◌, ◌∷◌, [],
  refl, if◌then◌else◌, err, ok, ◌==◌, if-eq-ok, ok-injective, ap, sym, ◌∙◌, subst,
}
use mathlib.Core.Option

module _ (fb : EnvelopeBuffers) (ok_fb : IsEnvelopeBuffers fb) where
  pub checked_envelope-build :
      (e : Envelope) → length (fb.build e) ≤ 1048576 → checked_envelope fb (fb.build e) ≡ some e
  unfolding checked_envelope verify_envelope
  checked_envelope-build e small = ground (
    arith,
    ok_fb.size e,
    ok_fb.identifier e,
    ok_fb.verifies e small,
    ok_fb.reads e small,
    empty-long (fb.build e),
  )
    where
      empty-long : (bytes : Bytes) → 8 ≤ length bytes → empty bytes ≡ false
      empty-long [] h = ground arith
      empty-long (b ∷ bs) h = refl

  module _ {T M : Type 0} (version_ok : ℕ → Bool) (as_body : Body → Option (Option T))
      (read : Envelope → T → Result MessageError M) where
    pub decode_body-build :
        (e : Envelope) (t : Option T)
        → length (fb.build e) ≤ 1048576
        → version_ok e.protocol_version ≡ true
        → e.request_id ≢ 0
        → as_body e.body ≡ some t
        → decode_body version_ok as_body read fb (fb.build e) ≡ Option.map (read e) t
    unfolding decode_body decode_envelope typed_body
    decode_body-build e t small v q b = ground (arith, checked_envelope-build e small, v, q, b)

    -- An encoder tests its message and writes an envelope; the decoder finds the table and reads it.
    pub decode_body-encoded :
        (e : Envelope) (t : T) (bad : Bool) {bytes : Bytes} {m : M}
        → (if bad then err invalid_field else ok (finish fb e)) ≡ ok bytes
        → length bytes ≤ 1048576
        → as_body e.body ≡ some (some t)
        → (bad ≡ false
            → (version_ok e.protocol_version ≡ true)
              × ((e.request_id == 0) ≡ false)
              × (read e t ≡ ok m))
        → decode_body version_ok as_body read fb bytes ≡ some (ok m)
    unfolding finish
    decode_body-encoded e t bad {bytes = bytes} h small b f =
        let (good, written) = if-eq-ok bad invalid_field _ h in
        let same = ok-injective written in
        let (v, q, r) = f good in
        ap (decode_body version_ok as_body read fb) (sym same)
        ∙ decode_body-build e (some t) (subst (λ x. length x ≤ 1048576) (sym same) small) v
            (ground (arith, q)) b
        ∙ ap (λ x. some x) r
