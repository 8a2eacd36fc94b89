-- ===== src/Examples/Licenses.antt =====
-- A subscription that the simple ciphers accept.
use yo_authorize.Core.Status.{expired}
use yo_authorize.Prelude.{
  Bytes, codes, some, true, none, zeros, [], ◌∷◌, ◌≡◌, if◌then◌else◌, ◌==◌, ◌||◌, ltb, ok, err,
  bytes_eq, arith, refl,
}
use yo_authorize.Core.License.Buffers.{LicensePayload, LicensePackage, LicenseBuffers}
use yo_authorize.Core.License.{
  TrustedKeys, LicenseSnapshot, validate, check_signature, check_payload, subscription, check_times,
  exact, check_policy, snapshot_of, features_of, convert_features, find_key, signature_input,
}
use yo_authorize.Core.License.Checks.{IsSigned, IsLicensed}
use yo_authorize.Core.License.Soundness.{validate_sound, validate_later}
use yo_authorize.Examples.Ciphers.{toy, fit}
use yo_authorize.Crypto.{verify_ed25519, verify_result}

abbrev payload_bytes : Bytes
payload_bytes = codes "payload"

abbrev pub license_payload : LicensePayload
license_payload = record {
  license_id = some (codes "L-1");
  product_id = some (codes "app");
  customer_id = none;
  issue_time = 10;
  not_before = 100;
  expire_time = 200;
  license_type = 1;
  features = some (some (codes "pro") ∷ []);
  max_sessions = 1;
  machine_policy = some (record { mode = 1; machine_id = some (codes "machine") });
}

abbrev license_package : LicensePackage
license_package = record {
  format_version = 1;
  key_id = some (codes "main");
  payload = some payload_bytes;
  signature = some (zeros 64);
}

abbrev pub license_buffers : LicenseBuffers
license_buffers = record {
  has_identifier = λ bytes. true;
  verify_package = λ bytes. true;
  get_package = λ bytes. license_package;
  verify_payload = λ bytes. true;
  get_payload = λ bytes. license_payload;
}

abbrev pub trusted : TrustedKeys
trusted = (codes "main", zeros 32) ∷ []

abbrev pub snapshot : LicenseSnapshot
snapshot = record {
  license_id = codes "L-1";
  product_id = codes "app";
  customer_id = [];
  issue_time = 10;
  not_before = 100;
  expire_time = 200;
  type = subscription;
  features = codes "pro" ∷ [];
  max_sessions = 1;
  machine_mode = exact;
  machine_id = codes "machine";
}

accepted :
    validate toy license_buffers trusted (zeros 8) (codes "app") (codes "machine") 150 ≡ ok snapshot
unfolding validate check_signature check_payload check_times check_policy snapshot_of features_of
    convert_features find_key verify_ed25519 verify_result toy fit bytes_eq signature_input
accepted = refl

validate_sound_example :
    IsSigned toy trusted license_package × IsLicensed (codes "app") (codes "machine") 150 snapshot
validate_sound_example =
    validate_sound toy license_buffers trusted (zeros 8) (codes "app") (codes "machine") 150
      snapshot accepted

validate_later_example :
    validate toy license_buffers trusted (zeros 8) (codes "app") (codes "machine") 250 ≡ (
      if snapshot.expire_time == 0 || ltb 250 snapshot.expire_time
      then ok snapshot
      else err expired)
validate_later_example =
    validate_later toy license_buffers trusted (zeros 8) (codes "app") (codes "machine") 150 250
      snapshot accepted (omega arith)
