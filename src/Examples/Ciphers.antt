-- ===== src/Examples/Ciphers.antt =====
-- An OpenSSL whose primitives are simple functions that keep the documented laws.
use yo_authorize.OpenSsl.{OpenSsl, IsAead, IsAgreement}
use Prim.Native.Nat.{ℕ, suc}
use yo_authorize.Prelude.{
  Bytes, some, [], length, ◌∷◌, ◌≡◌, ◌++◌, true, ap, some_injective, arith, bytes_eq, sym, ◌+◌,
  drop, ◌∙◌, refl, zero, if◌then◌else◌, subst, none, bytes_eq_refl,
}

-- `n` bytes: the list, cut or filled up with zeros.
unfoldable pub fit : ℕ → Bytes → Bytes
fit zero bs = []
fit (suc n) [] = 0 ∷ fit n []
fit (suc n) (b ∷ bs) = b ∷ fit n bs

pub length-fit : (n : ℕ) (bs : Bytes) → length (fit n bs) ≡ n
unfolding fit
length-fit zero bs = refl
length-fit (suc n) [] = ground (arith, length-fit n [])
length-fit (suc n) (b ∷ bs) = ground (arith, length-fit n bs)

unfoldable pub sum : Bytes → Bytes → Bytes
sum [] bs = []
sum (a ∷ as') [] = []
sum (a ∷ as') (b ∷ bs) = (a + b) ∷ sum as' bs

sum_comm : (a b : Bytes) → sum a b ≡ sum b a
unfolding sum
sum_comm [] [] = refl
sum_comm [] (b ∷ bs) = refl
sum_comm (a ∷ as') [] = refl
sum_comm (a ∷ as') (b ∷ bs) = ground (arith, sum_comm as' bs)

unfoldable pub tag_of : Bytes → Bytes → Bytes
unfolding fit
tag_of key nonce = fit 16 (nonce ++ key)

unfoldable pub toy : OpenSsl
unfolding fit sum tag_of
toy = record {
  digest = λ input. some (fit 32 input);
  public_of = λ type private_key. some private_key;
  accepts_private = λ type key. true;
  accepts_public = λ type key. true;
  digest_sign = λ key message. some (fit 64 key);
  digest_verify = λ key message signature. some (bytes_eq signature (fit 64 key));
  derive = λ a b. some (sum a b);
  hkdf = λ key salt info size. some (fit size (drop 6 info ++ key));
  encrypt = λ key nonce aad plaintext. some (plaintext, tag_of key nonce);
  decrypt = λ key nonce aad ciphertext tag.
      if bytes_eq tag (tag_of key nonce) then some ciphertext else none;
}

pub toy-IsAead : IsAead toy
unfolding toy tag_of
toy-IsAead = record {
  sizes = λ key nonce aad plaintext c t e. (
    ap length (sym (ap (λ x. x.0) (some_injective e))),
    ap length (sym (ap (λ x. x.1) (some_injective e))) ∙ length-fit 16 (nonce ++ key),
  );
  opens = λ key nonce aad plaintext c t e.
      let ct = ap (λ x. x.0) (some_injective e) in
      let tt' = ap (λ x. x.1) (some_injective e) in
      subst (λ x. (if bytes_eq x (tag_of key nonce) then some c else none) ≡ some plaintext) tt'
        (ground (arith, bytes_eq_refl (tag_of key nonce), ct));
}

pub toy-IsAgreement : IsAgreement toy
unfolding toy
toy-IsAgreement = record {
  agrees = λ a pa b pb p q.
      let pa' = some_injective p in
      let pb' = some_injective q in
      ap (λ x. some (sum a x)) (sym pb')
      ∙ ap (λ x. some x) (sum_comm a b)
      ∙ ap (λ x. some (sum b x)) pa';
}
