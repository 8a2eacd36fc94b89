-- ===== src/Core/License/Soundness.antt =====
-- `LicenseValidator::validate` (core/license.cpp) as a whole.
use yo_authorize.Prelude.{
  ℕ, Bytes, ◌≡◌, false, ok, length, err, ◌≤◌, fail_if-eq-ok, >>=-eq-ok, ◌||◌, ◌==◌, not, subst,
  if◌then◌else◌, ltb, ap, ◌∙◌, empty,
}
use yo_authorize.OpenSsl.{OpenSsl}
use yo_authorize.Core.License.Buffers.{LicenseBuffers}
use yo_authorize.FlatBuffers.{str}
use yo_authorize.Core.License.{
  TrustedKeys, check_signature, LicenseSnapshot, check_payload, ok, length, str, invalid_license,
  not, LicenseBuffers, validate, invalid_format, ltb, expired, empty, max_license_size,
}
use yo_authorize.Core.Status.{invalid_license, invalid_format, expired}
use yo_authorize.Core.License.Checks.{
  IsSigned, check_signature-IsSigned, IsLicensed, check_payload-Passed, check_payload-IsLicensed,
  check_payload_later,
}
use yo_authorize.Core.License.Carried.{IsCarried, check_payload-IsCarried}

module _ (o : OpenSsl) (fb : LicenseBuffers) (trusted_keys : TrustedKeys)
    (bytes expected_product machine_id : Bytes) where
  abbrev payload_of : Bytes
  payload_of = str (fb.get_package bytes).payload

  record Accepted (s : LicenseSnapshot) (now : ℕ) : Type 0 where
    format :
        (empty bytes
          || ltb max_license_size (length bytes)
          || ltb (length bytes) 8
          || not (fb.has_identifier bytes))
        ≡ false
    package_verified : not (fb.verify_package bytes) ≡ false
    signature : check_signature o trusted_keys (fb.get_package bytes) ≡ ok payload_of
    payload_verified : not (fb.verify_payload payload_of) ≡ false
    checked : check_payload (fb.get_payload payload_of) expected_product machine_id now ≡ ok s

  validate-Accepted :
      (now : ℕ) (s : LicenseSnapshot)
      → validate o fb trusted_keys bytes expected_product machine_id now ≡ ok s
      → Accepted s now
  unfolding validate
  validate-Accepted now s e =
      let (format, e1) = fail_if-eq-ok _ invalid_format _ e in
      let (verified, e2) = fail_if-eq-ok _ invalid_format _ e1 in
      let (payload, signature, e3) =
        >>=-eq-ok (check_signature o trusted_keys (fb.get_package bytes)) _ e2 in
      let (buffer, e4) = fail_if-eq-ok _ invalid_license _ e3 in
      let (signed, same) =
        check_signature-IsSigned o trusted_keys (fb.get_package bytes) payload signature in
      record {
        format = format;
        package_verified = verified;
        signature = signature ∙ ap ok same;
        payload_verified = subst (λ x. not (fb.verify_payload x) ≡ false) same buffer;
        checked =
            subst (λ x. check_payload (fb.get_payload x) expected_product machine_id now ≡ ok s)
              same e4;
      }

  -- An accepted package is signed by a trusted key over its version, key id and payload, and its
  -- licence names this product, covers this time, admits at least one session, has no empty
  -- feature, and names this machine where it is bound to one.
  pub validate_sound :
      (now : ℕ) (s : LicenseSnapshot)
      → validate o fb trusted_keys bytes expected_product machine_id now ≡ ok s
      → IsSigned o trusted_keys (fb.get_package bytes)
        × IsLicensed expected_product machine_id now s
  validate_sound now s e =
      let a = validate-Accepted now s e in
      let (passed, window) = check_payload-Passed _ expected_product machine_id now s a.checked in
      (
        (check_signature-IsSigned o trusted_keys (fb.get_package bytes) payload_of a.signature).0,
        check_payload-IsLicensed _ expected_product machine_id now s passed window,
      )

  -- The snapshot of an accepted package says what its payload says.
  pub validate-IsCarried :
      (now : ℕ) (s : LicenseSnapshot)
      → validate o fb trusted_keys bytes expected_product machine_id now ≡ ok s
      → IsCarried (fb.get_payload (str (fb.get_package bytes).payload)) s
  validate-IsCarried now s e =
      let a = validate-Accepted now s e in
      let (passed, window) = check_payload-Passed _ expected_product machine_id now s a.checked in
      check_payload-IsCarried _ expected_product machine_id s passed

  -- Time alone changes the answer only when the licence runs out: from a moment at which the
  -- package is accepted on, the same snapshot is accepted until its end, and refused as expired
  -- from then on.
  pub validate_later :
      (now later : ℕ) (s : LicenseSnapshot)
      → validate o fb trusted_keys bytes expected_product machine_id now ≡ ok s
      → now ≤ later
      → validate o fb trusted_keys bytes expected_product machine_id later
        ≡ (if s.expire_time == 0 || ltb later s.expire_time then ok s else err expired)
  unfolding validate
  validate_later now later s e h =
      let a = validate-Accepted now s e in
      let (passed, window) = check_payload-Passed _ expected_product machine_id now s a.checked in
      rw (a.format, a.package_verified, a.signature, a.payload_verified)
        (check_payload_later _ expected_product machine_id now later s passed window h)
