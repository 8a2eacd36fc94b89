-- ===== src/Core/MachineIdentity/Binding.antt =====
-- What a machine's identity is bound to (core/machine_identity.cpp).
use yo_authorize.Core.MachineIdentity.{
  NormalizedComponent, component_input, append_components, identity_transcript, exact_id_of,
  sort_components, hex_digest, hex_digit, append_field, hash_domain, component_hash_domain,
  append_u32, OpenSsl, ℕ, Bytes, length, List, some, ok, u32, [], ◌∷◌, map_err,
}
use yo_authorize.Core.Status.{internal_error}
use yo_authorize.Crypto.{sha256, derivation_failed}
use yo_authorize.Prelude.{
  ◌≢◌, ◌≡◌, ◌<◌, arith, append_cancel, All, ◌++◌, append_inj, >>=-eq-ok, ◌⊎◌, ap, or_fail,
  Bool-cases, bytes_eq, inl, fail_if-eq-ok, bytes_eq_iff, refl, ◌/◌, ok-injective, inr, ◌%◌,
  or_fail-eq-ok, ◌∙◌, subst, ==_iff, not-eq-false, sym, map_err-eq-ok, ◌≤◌,
}
use yo_authorize.Prelude.Words.{write_u32_inj}

-- Two byte strings with one SHA-256 digest.
pub record Collision (o : OpenSsl) : Type 0 where
  pub left : Bytes
  pub right : Bytes
  pub digest : Bytes
  pub differ : left ≢ right
  pub left_digest : o.digest left ≡ some digest
  pub right_digest : o.digest right ≡ some digest

hex_digit_inj : (m n : ℕ) → hex_digit m ≡ hex_digit n → m ≡ n
hex_digit_inj m n e = ground arith

hex_digest_inj : (xs ys : Bytes) → hex_digest xs ≡ hex_digest ys → xs ≡ ys
unfolding hex_digest
hex_digest_inj [] [] e = refl
hex_digest_inj [] (y ∷ ys) e = cc
hex_digest_inj (x ∷ xs) [] e = cc
hex_digest_inj (x ∷ xs) (y ∷ ys) e =
    let (high, e1) = append_inj (hex_digit (x / 16) ∷ []) (hex_digit (y / 16) ∷ []) refl e in
    let (low, e2) = append_inj (hex_digit (x % 16) ∷ []) (hex_digit (y % 16) ∷ []) refl e1 in
    let h : x / 16 ≡ y / 16 = hex_digit_inj (x / 16) (y / 16) (cc) in
    let l : x % 16 ≡ y % 16 = hex_digit_inj (x % 16) (y % 16) (cc) in
    let same : x ≡ y = omega arith in cc (same, hex_digest_inj xs ys e2)

append_field_inj :
    (a b : Bytes) {x y : Bytes}
    → length a < 0x1_0000_0000
    → length b < 0x1_0000_0000
    → append_field a ++ x ≡ append_field b ++ y
    → (a ≡ b) × (x ≡ y)
append_field_inj a b h k e =
    let (word, rest) = append_inj (append_u32 (length a)) (append_u32 (length b)) refl e in
    let fits : u32 (length a) ≡ u32 (length b) = write_u32_inj (omega arith) (omega arith) word in
    append_inj a b (omega arith) rest

-- Fields whose lengths are written as they are.
pub record IsNormal (c : NormalizedComponent) : Type 0 where
  pub type : length c.type < 0x1_0000_0000
  pub value : length c.value < 0x1_0000_0000

module _ (o : OpenSsl) where
  sha256-digest : (a d : Bytes) → sha256 o a ≡ ok d → (o.digest a ≡ some d) × (length d ≡ 32)
  unfolding sha256
  sha256-digest a d e =
      let (digest, found, e1) = >>=-eq-ok (or_fail (o.digest a) derivation_failed) _ e in
      let (size, e2) = fail_if-eq-ok _ derivation_failed _ e1 in
      let same : digest ≡ d = ok-injective e2 in
      (
        or_fail-eq-ok (o.digest a) derivation_failed found ∙ ap some same,
        subst (λ x. length x ≡ 32) same ((==_iff (length digest) 32).0 (not-eq-false _ size)),
      )

  sha256_inj : (a b d : Bytes) → sha256 o a ≡ ok d → sha256 o b ≡ ok d → (a ≡ b) ⊎ Collision o
  sha256_inj a b d e f = elim (Bool-cases (bytes_eq a b)) [
    | inl q ↦ inl ((bytes_eq_iff a b).0 q)
    | inr q ↦ inr (record {
      left = a;
      right = b;
      digest = d;
      differ = λ p. cc ((bytes_eq_iff a b).1 p, q);
      left_digest = (sha256-digest a d e).0;
      right_digest = (sha256-digest b d f).0;
    })
  ]

  component_input_inj :
      (c d : NormalizedComponent)
      → IsNormal c
      → IsNormal d
      → component_input o c ≡ component_input o d
      → c ≡ d
  component_input_inj c d n m e =
      let (types, rest) =
        append_field_inj c.type d.type n.type m.type
          (append_cancel (append_field component_hash_domain) e) in
      let values = append_field_inj c.value d.value n.value m.value (ap (λ x. x ++ []) rest) in
      λ i. record { type = types i; value = values.0 i }

  -- One component of two transcripts.
  component_step :
      (c d : NormalizedComponent) (p q : Bytes) {r s : Bytes}
      → IsNormal c
      → IsNormal d
      → sha256 o (component_input o c) ≡ ok p
      → sha256 o (component_input o d) ≡ ok q
      → append_field c.type ++ (append_u32 (length p) ++ (p ++ r))
        ≡ append_field d.type ++ (append_u32 (length q) ++ (q ++ s))
      → ((c ≡ d) ⊎ Collision o) × (r ≡ s)
  component_step c d p q n m e f same =
      let (types, r1) = append_field_inj c.type d.type n.type m.type same in
      let (size, r2) = append_inj (append_u32 (length p)) (append_u32 (length q)) refl r1 in
      let sized : length p ≡ length q =
        (sha256-digest (component_input o c) p e).1
        ∙ sym (sha256-digest (component_input o d) q f).1 in
      let (digests, rest) = append_inj p q sized r2 in
      (
        elim (sha256_inj (component_input o c) (component_input o d) p e
            (f ∙ ap ok (sym digests))) [
              | inl inputs ↦ inl (component_input_inj c d n m inputs)
              | inr collision ↦ inr collision
            ],
        rest,
      )

  append_components_inj :
      (cs ds : List NormalizedComponent) (x : Bytes)
      → All IsNormal cs
      → All IsNormal ds
      → length cs ≡ length ds
      → append_components o cs ≡ ok x
      → append_components o ds ≡ ok x
      → (cs ≡ ds) ⊎ Collision o
  unfolding append_components
  append_components_inj [] [] x n m l e f = inl refl
  append_components_inj [] (d ∷ ds) x n m l e f = absurd (omega arith)
  append_components_inj (c ∷ cs) [] x n m l e f = absurd (omega arith)
  append_components_inj (c ∷ cs) (d ∷ ds) x n m l e f =
      let (p, p1, e1) = >>=-eq-ok (map_err internal_error (sha256 o (component_input o c))) _ e in
      let (q, q1, f1) = >>=-eq-ok (map_err internal_error (sha256 o (component_input o d))) _ f in
      let (r, r1, e2) = >>=-eq-ok (append_components o cs) _ e1 in
      let (s, s1, f2) = >>=-eq-ok (append_components o ds) _ f1 in
      let (heads, tails) =
        component_step c d p q n.0 m.0 (map_err-eq-ok internal_error _ p1)
          (map_err-eq-ok internal_error _ q1) (ok-injective e2 ∙ sym (ok-injective f2)) in
      both heads (append_components_inj cs ds r n.1 m.1 (omega arith) r1 (s1 ∙ ap ok (sym tails)))
    where
      both :
          {c d : NormalizedComponent} {cs ds : List NormalizedComponent}
          → (c ≡ d) ⊎ Collision o
          → (cs ≡ ds) ⊎ Collision o
          → (c ∷ cs ≡ d ∷ ds) ⊎ Collision o
      both (inr k) y = inr k
      both (inl h) (inr k) = inr k
      both (inl h) (inl k) = inl (cc)

  -- The transcript over at most two components says how many there are.
  identity_transcript_inj :
      (cs ds : List NormalizedComponent) (x : Bytes)
      → All IsNormal cs
      → All IsNormal ds
      → length cs ≤ 2
      → length ds ≤ 2
      → identity_transcript o cs ≡ ok x
      → identity_transcript o ds ≡ ok x
      → (cs ≡ ds) ⊎ Collision o
  unfolding identity_transcript
  identity_transcript_inj cs ds x n m h k e f =
      let (p, p1, e1) = >>=-eq-ok (append_components o cs) _ e in
      let (q, q1, f1) = >>=-eq-ok (append_components o ds) _ f in
      let same =
        append_cancel (append_field hash_domain) (ok-injective e1 ∙ sym (ok-injective f1)) in
      let (count, rest) = append_inj (append_u32 (length cs)) (append_u32 (length ds)) refl same in
      let counts : u32 (length cs) ≡ u32 (length ds) =
        write_u32_inj (omega arith) (omega arith) count in
      append_components_inj cs ds p n m (omega arith) p1 (q1 ∙ ap ok (sym rest))

  pub exact_id_of_inj :
      (cs ds : List NormalizedComponent) (id : Bytes)
      → All IsNormal (sort_components cs)
      → All IsNormal (sort_components ds)
      → length (sort_components cs) ≤ 2
      → length (sort_components ds) ≤ 2
      → exact_id_of o cs ≡ ok id
      → exact_id_of o ds ≡ ok id
      → (sort_components cs ≡ sort_components ds) ⊎ Collision o
  unfolding exact_id_of
  exact_id_of_inj cs ds id n m h k e f =
      let (x, x1, e1) = >>=-eq-ok (identity_transcript o (sort_components cs)) _ e in
      let (y, y1, f1) = >>=-eq-ok (identity_transcript o (sort_components ds)) _ f in
      let (p, p1, e2) = >>=-eq-ok (map_err internal_error (sha256 o x)) _ e1 in
      let (q, q1, f2) = >>=-eq-ok (map_err internal_error (sha256 o y)) _ f1 in
      let digests : p ≡ q = hex_digest_inj p q (ok-injective e2 ∙ sym (ok-injective f2)) in
      elim (sha256_inj x y p (map_err-eq-ok internal_error _ p1)
        (map_err-eq-ok internal_error _ q1 ∙ ap ok (sym digests))) [
          | inl same ↦
              identity_transcript_inj (sort_components cs) (sort_components ds) x n m h k x1
                (y1 ∙ ap ok (sym same))
          | inr collision ↦ inr collision
        ]
