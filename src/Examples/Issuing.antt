-- ===== src/Examples/Issuing.antt =====
-- A licence that is issued, and read back.
use yo_authorize.Examples.Ciphers.{toy, fit}
use yo_authorize.OpenSsl.{IsSignature, ed25519}
use yo_authorize.Tools.Issuer.{
  LicenseDefinition, LicenseBuilder, package_of, issue_license, valid, valid_feature, payload_of,
}
use yo_authorize.Prelude.{
  Bytes, ap, codes, zeros, true, bytes_eq, length, some, ◌∷◌, ◌++◌, drop, arith, ◌≡◌, ◌≤◌, subst,
  [], ok, refl, some_injective, bytes_eq_refl, inr,
}
use yo_authorize.Core.License.Buffers.{LicenseBuffers}
use yo_authorize.Core.License.{find_key, validate, max_license_size}
use yo_authorize.Tools.Issuer.Issued.{IsBuilt, issued, validate-issue_license}
use yo_authorize.Core.License.{TrustedKeys}
use yo_authorize.FlatBuffers.{str}
use yo_authorize.Crypto.{sign_ed25519}

toy-IsSignature : IsSignature toy
unfolding toy
toy-IsSignature = record {
  verifies = λ key public_key message signature p s. (
    refl,
    ap some (
        subst (λ k. bytes_eq signature (fit 64 k) ≡ true) (some_injective p)
          (subst (λ x. bytes_eq x (fit 64 key) ≡ true) (some_injective s)
            (bytes_eq_refl (fit 64 key)))),
  );
}

abbrev definition : LicenseDefinition
definition = record {
  key_id = codes "main";
  license_id = codes "L-2";
  product_id = codes "app";
  customer_id = codes "customer";
  issue_time = 10;
  not_before = 100;
  expire_time = 200;
  features = codes "pro" ∷ codes "beta" ∷ [];
  max_sessions = 2;
  machine_id = codes "machine";
}

abbrev trust : TrustedKeys
trust = (codes "main", zeros 32) ∷ []

abbrev payload_bytes : Bytes
payload_bytes = codes "payload"

-- A buffer of a package is eight bytes and its signature.
abbrev builder : LicenseBuilder
builder = record {
  build_payload = λ p. payload_bytes;
  build_package = λ p. zeros 8 ++ str p.signature;
}

abbrev read_back : LicenseBuffers
read_back = record {
  has_identifier = λ bytes. true;
  verify_package = λ bytes. true;
  get_package = λ bytes. package_of definition payload_bytes (drop 8 bytes);
  verify_payload = λ bytes. true;
  get_payload = λ bytes. payload_of definition;
}

builder-IsBuilt : IsBuilt builder read_back definition
unfolding package_of
builder-IsBuilt = record {
  payload_verified = refl;
  payload_nonempty = refl;
  payload_read = refl;
  package_identifier = λ p. refl;
  package_size = λ p. omega arith;
  package_verified = λ p. refl;
  package_read = λ signature. refl;
}

abbrev issued_bytes : Bytes
issued_bytes = zeros 8 ++ fit 64 (zeros 32)

issued_lem : issue_license toy builder definition (zeros 32) ≡ ok issued_bytes
unfolding issue_license valid valid_feature sign_ed25519 toy fit package_of
issued_lem = refl

key_public : toy.public_of ed25519 (zeros 32) ≡ some (zeros 32)
unfolding toy
key_public = refl

key_trusted : find_key definition.key_id trust ≡ some (zeros 32)
unfolding find_key bytes_eq
key_trusted = refl

short : length issued_bytes ≤ max_license_size
unfolding fit
short = omega arith

validate-issue_license_example :
    validate toy read_back trust issued_bytes (codes "app") (codes "machine") 150
    ≡ ok (issued definition)
validate-issue_license_example =
    validate-issue_license toy toy-IsSignature builder read_back definition trust (zeros 32)
      (zeros 32) (codes "machine") 150 builder-IsBuilt key_public key_trusted issued_lem short
      (record { begun = omega arith; not_over = inr (omega arith); machine = inr refl })
