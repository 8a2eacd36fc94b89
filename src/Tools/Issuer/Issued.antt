-- ===== src/Tools/Issuer/Issued.antt =====
-- What the issuer signs, before the validator (tools/license_generator/issuer.cpp, core/license.cpp).
use yo_authorize.Core.License.{
  LicenseSnapshot, TrustedKeys, validate, check_signature, check_payload, check_times, check_policy,
  convert_features, features_of, snapshot_of, signature_input, find_key, permanent, subscription,
  exact, unbound, max_license_size,
}
use yo_authorize.Core.License.Buffers.{LicenseBuffers, LicensePackage}
use yo_authorize.Tools.Issuer.{
  LicenseBuilder, LicenseDefinition, invalid_input, signing_failed, valid, valid_feature,
  payload_of, package_of, signed_bytes, issue_license, if◌then◌else◌, List, empty, Bytes,
}
use yo_authorize.OpenSsl.{OpenSsl, IsSignature, ed25519}
use yo_authorize.Crypto.{sign_ed25519, verify_ed25519, verify_result, signature_failed}
use yo_authorize.Prelude.{
  ◌≡◌, true, all_of, false, ℕ, ◌==◌, ◌≤◌, map, length, ok, some, ◌∷◌, not, ◌⊎◌, arith, ◌<◌, [],
  ◌&&◌, leb, refl, bytes_eq_iff, bytes_eq, bytes_eq_refl, fail_if-eq-ok, not-eq-false, >>=-eq-ok,
  or_fail, map_err, ok-injective, or_fail-eq-ok, ◌∙◌, ap, subst, ==_iff, le→ltb, sym, map_err-eq-ok,
}

-- The generated code reads back what the builder writes: this payload, and packages around it.
pub record IsBuilt (b : LicenseBuilder) (fb : LicenseBuffers) (d : LicenseDefinition) : Type 0 where
  pub payload_verified : fb.verify_payload (b.build_payload (payload_of d)) ≡ true
  pub payload_nonempty : empty (b.build_payload (payload_of d)) ≡ false
  pub payload_read : fb.get_payload (b.build_payload (payload_of d)) ≡ payload_of d
  pub package_identifier : (p : LicensePackage) → fb.has_identifier (b.build_package p) ≡ true
  pub package_size : (p : LicensePackage) → 8 ≤ length (b.build_package p)
  pub package_verified : (p : LicensePackage) → fb.verify_package (b.build_package p) ≡ true
  pub package_read :
      (signature : Bytes)
      → fb.get_package (b.build_package (package_of d (b.build_payload (payload_of d)) signature))
        ≡ package_of d (b.build_payload (payload_of d)) signature

-- The licence of the definition, as the validator hands it over.
abbrev pub issued : LicenseDefinition → LicenseSnapshot
issued d = record {
  license_id = d.license_id;
  product_id = d.product_id;
  customer_id = d.customer_id;
  issue_time = d.issue_time;
  not_before = d.not_before;
  expire_time = d.expire_time;
  type = if d.expire_time == 0 then permanent else subscription;
  features = d.features;
  max_sessions = d.max_sessions;
  machine_mode = if empty d.machine_id then unbound else exact;
  machine_id = d.machine_id;
}

convert_features-issued :
    (features : List Bytes)
    → all_of valid_feature features ≡ true
    → convert_features (map some features) ≡ some features
unfolding convert_features valid_feature
convert_features-issued [] e = refl
convert_features-issued (f ∷ fs) e = ground (arith, e, convert_features-issued fs)

-- What the issuer has checked.
record IsValid (d : LicenseDefinition) : Type 0 where
  key_id : (empty d.key_id ≡ false) × (length d.key_id ≤ 0xffff)
  license_id : empty d.license_id ≡ false
  product_id : empty d.product_id ≡ false
  sessions : (d.max_sessions == 0) ≡ false
  window : (not (d.expire_time == 0) && leb d.expire_time d.not_before) ≡ false
  features : all_of valid_feature d.features ≡ true

valid-IsValid : (d : LicenseDefinition) → valid d ≡ true → IsValid d
unfolding valid
valid-IsValid d e = record {
  key_id = (ground arith, ground arith);
  license_id = ground arith;
  product_id = ground arith;
  sessions = ground arith;
  window = ground arith;
  features = ground arith;
}

signed_lem :
    (key_id payload : Bytes) → signature_input 1 key_id payload ≡ signed_bytes key_id payload
unfolding signature_input signed_bytes
signed_lem key_id payload = refl

-- Where the licence applies.
pub record Applies (d : LicenseDefinition) (machine_id : Bytes) (now : ℕ) : Type 0 where
  pub begun : d.not_before ≤ now
  pub not_over : (d.expire_time ≡ 0) ⊎ (now < d.expire_time)
  pub machine : (empty d.machine_id ≡ true) ⊎ (d.machine_id ≡ machine_id)

check_times-issued :
    (d : LicenseDefinition) (machine_id : Bytes) (now : ℕ)
    → IsValid d
    → Applies d machine_id now
    → check_times (payload_of d) now ≡ ok tt
unfolding check_times payload_of
check_times-issued d machine_id now v a = ground (arith, v.window, a.begun, a.not_over)

check_policy-issued :
    (d : LicenseDefinition) (machine_id : Bytes) (now : ℕ)
    → IsValid d
    → Applies d machine_id now
    → check_policy
        (payload_of d)
        (record { mode = if empty d.machine_id then 0 else 1; machine_id = some d.machine_id })
        machine_id
      ≡ ok (issued d)
unfolding check_policy payload_of features_of snapshot_of
check_policy-issued d machine_id now v a = ground (
  arith,
  convert_features-issued d.features v.features,
  a.machine,
  bytes_eq_iff d.machine_id machine_id,
)

check_payload-issued :
    (d : LicenseDefinition) (machine_id : Bytes) (now : ℕ)
    → IsValid d
    → Applies d machine_id now
    → check_payload (payload_of d) d.product_id machine_id now ≡ ok (issued d)
unfolding check_payload payload_of
check_payload-issued d machine_id now v a =
    let product : bytes_eq d.product_id d.product_id ≡ true = bytes_eq_refl d.product_id in
    ground
      (arith, check_times-issued d machine_id now v a, check_policy-issued d machine_id now v a)

not-empty : (bytes : Bytes) → 8 ≤ length bytes → empty bytes ≡ false
not-empty [] h = absurd (omega arith)
not-empty (b ∷ bs) h = refl

module _ (o : OpenSsl) (l : IsSignature o) where
  -- What `signEd25519` returned, the validator's own call accepts.
  sign-verify :
      (key public_key message signature : Bytes)
      → o.public_of ed25519 key ≡ some public_key
      → sign_ed25519 o key message ≡ ok signature
      → (length signature ≡ 64) × (verify_ed25519 o public_key message signature ≡ ok tt)
  unfolding sign_ed25519 verify_ed25519 verify_result
  sign-verify key public_key message signature p e =
      let (accepted, e1) = fail_if-eq-ok _ signature_failed _ e in
      let (found, f, e2) = >>=-eq-ok (or_fail (o.digest_sign key message) signature_failed) _ e1 in
      let (size, e3) = fail_if-eq-ok _ signature_failed _ e2 in
      let same : found ≡ signature = ok-injective e3 in
      let (known, verified) =
        l.verifies key public_key message signature p
          (or_fail-eq-ok (o.digest_sign key message) signature_failed f ∙ ap some same) in
      (
        subst (λ x. length x ≡ 64) same ((==_iff (length found) 64).0 (not-eq-false _ size)),
        rw (known, verified),
      )

  check_signature-issued :
      (d : LicenseDefinition) (trusted_keys : TrustedKeys)
      (key public_key payload signature : Bytes)
      → IsValid d
      → o.public_of ed25519 key ≡ some public_key
      → find_key d.key_id trusted_keys ≡ some public_key
      → empty payload ≡ false
      → sign_ed25519 o key (signed_bytes d.key_id payload) ≡ ok signature
      → check_signature o trusted_keys (package_of d payload signature) ≡ ok payload
  unfolding check_signature package_of
  check_signature-issued d trusted_keys key public_key payload signature v p t n s =
      let (size, verified) =
        sign-verify key public_key (signed_bytes d.key_id payload) signature p s in
      ground (arith, v.key_id, size, t, n, signed_lem d.key_id payload, verified)

  validate-passes :
      (fb : LicenseBuffers) (trusted_keys : TrustedKeys) (bytes payload product machine_id : Bytes)
      (now : ℕ) (snapshot : LicenseSnapshot)
      → 8 ≤ length bytes
      → length bytes ≤ max_license_size
      → fb.has_identifier bytes ≡ true
      → fb.verify_package bytes ≡ true
      → check_signature o trusted_keys (fb.get_package bytes) ≡ ok payload
      → fb.verify_payload payload ≡ true
      → check_payload (fb.get_payload payload) product machine_id now ≡ ok snapshot
      → validate o fb trusted_keys bytes product machine_id now ≡ ok snapshot
  unfolding validate
  validate-passes fb trusted_keys bytes payload product machine_id now snapshot h k i v c w d = rw (
    not-empty bytes h,
    le→ltb max_license_size (length bytes) k,
    le→ltb (length bytes) 8 h,
    i,
    v,
    c,
    w,
    d,
  )

  -- A package that the issuer makes, of at most 1 MiB, is accepted by the validator with exactly
  -- the issued definition, where the validator trusts the public key of the signing key under the
  -- definition's key id, and the product, machine and time are among those it applies to. Asked of
  -- OpenSSL is that a signature verifies, and of FlatBuffers that the generated code reads back
  -- what the builder wrote.
  pub validate-issue_license :
      (b : LicenseBuilder) (fb : LicenseBuffers) (d : LicenseDefinition)
      (trusted_keys : TrustedKeys) (key public_key machine_id : Bytes) (now : ℕ) {bytes : Bytes}
      → IsBuilt b fb d
      → o.public_of ed25519 key ≡ some public_key
      → find_key d.key_id trusted_keys ≡ some public_key
      → issue_license o b d key ≡ ok bytes
      → length bytes ≤ max_license_size
      → Applies d machine_id now
      → validate o fb trusted_keys bytes d.product_id machine_id now ≡ ok (issued d)
  unfolding issue_license
  validate-issue_license b fb d trusted_keys key public_key machine_id now {bytes = bytes} w p t e m
        a =
      let (good, e1) = fail_if-eq-ok _ invalid_input _ e in
      let v = valid-IsValid d (not-eq-false _ good) in
      let payload : Bytes = b.build_payload (payload_of d) in
      let (signature, s, e2) =
        >>=-eq-ok (map_err signing_failed (sign_ed25519 o key (signed_bytes d.key_id payload))) _
          e1 in
      let same : b.build_package (package_of d payload signature) ≡ bytes = ok-injective e2 in
      let read = ap fb.get_package (sym same) ∙ w.package_read signature in
      let signed =
        ap (check_signature o trusted_keys) read
        ∙ check_signature-issued d trusted_keys key public_key payload signature v p t
            w.payload_nonempty (map_err-eq-ok signing_failed _ s) in
      validate-passes fb trusted_keys bytes payload d.product_id machine_id now (issued d)
        (subst (λ x. 8 ≤ length x) same (w.package_size (package_of d payload signature))) m
        (ap fb.has_identifier (sym same) ∙ w.package_identifier (package_of d payload signature))
        (ap fb.verify_package (sym same) ∙ w.package_verified (package_of d payload signature))
        signed w.payload_verified
        (ap (λ x. check_payload x d.product_id machine_id now) w.payload_read
          ∙ check_payload-issued d machine_id now v a)
