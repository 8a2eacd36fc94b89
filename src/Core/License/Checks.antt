-- ===== src/Core/License/Checks.antt =====
-- The steps of `LicenseValidator::validate` (core/license.cpp), as predicates.
use yo_authorize.Prelude.{
  ℕ, Option, Bytes, map_err, List, ◌≡◌, ◌<◌, false, ok, length, some, err, ◌≤◌, All, fail_if-eq-ok,
  arith, >>=-eq-ok, ◌⊎◌, [], ◌≢◌, none, or_fail, or_fail-eq-ok, sym, ok-injective, Option-cases,
  inl, ◌||◌, inr, bytes_eq_iff, ◌==◌, ◌&&◌, ◌↔◌, not, bytes_eq, subst, if◌then◌else◌, ltb,
  not-eq-false, ap, ◌∙◌, ◌>>◌, map_err-eq-ok,
}
use yo_authorize.OpenSsl.{OpenSsl}
use yo_authorize.Core.License.Buffers.{
  LicensePackage, LicensePayload, schema_permanent, MachinePolicy, schema_exact, schema_trial,
  schema_subscription,
}
use yo_authorize.FlatBuffers.{missing, str}
use yo_authorize.Core.License.{
  TrustedKeys, convert_features, missing, map_err, LicensePackage, check_signature, LicenseSnapshot,
  List, check_payload, LicensePayload, ok, length, some, str, ◌∷◌, find_key, unsupported_version,
  permanent, invalid_license, verify_ed25519, signature_input, or_fail, unknown_key, exact,
  product_mismatch, invalid_signature, check_times, features_of, schema_permanent, MachinePolicy,
  check_policy, snapshot_of, machine_mismatch, schema_exact, convert_type, not, bytes_eq, ltb,
  expired, schema_trial, schema_subscription,
}
use yo_authorize.Core.Status.{
  invalid_license, unknown_key, product_mismatch, machine_mismatch, expired,
}
use yo_authorize.Crypto.{verify_ed25519}

missing-length : (s : Option Bytes) → missing s ≡ false → 0 < length (str s)
missing-length none h = cc
missing-length (some []) h = cc
missing-length (some (x ∷ xs)) h = omega arith

-- The signature of the package verifies under a trusted key, over its version, key id and payload.
pub record IsSigned (o : OpenSsl) (trusted_keys : TrustedKeys) (outer : LicensePackage)
    : Type 0 where
  pub key : Bytes
  pub version : outer.format_version ≡ 1
  pub key_id : (0 < length (str outer.key_id)) × (length (str outer.key_id) ≤ 0xffff)
  pub trusted : find_key (str outer.key_id) trusted_keys ≡ some key
  pub verified :
      verify_ed25519 o key
        (signature_input outer.format_version (str outer.key_id) (str outer.payload))
        (str outer.signature)
      ≡ ok tt

pub check_signature-IsSigned :
    (o : OpenSsl) (trusted_keys : TrustedKeys) (outer : LicensePackage) (payload : Bytes)
    → check_signature o trusted_keys outer ≡ ok payload
    → IsSigned o trusted_keys outer × (payload ≡ str outer.payload)
unfolding check_signature
check_signature-IsSigned o trusted_keys outer payload e =
    let (version, e1) = fail_if-eq-ok _ unsupported_version _ e in
    let (shape, e2) = fail_if-eq-ok _ invalid_license _ e1 in
    let (key, found, e3) =
      >>=-eq-ok (or_fail (find_key (str outer.key_id) trusted_keys) unknown_key) _ e2 in
    let (u, verified, e4) =
      >>=-eq-ok
        (map_err invalid_signature (
          verify_ed25519 o key
            (signature_input outer.format_version (str outer.key_id) (str outer.payload))
            (str outer.signature)))
        _ e3 in
    (
      record {
        key = key;
        version = ground arith;
        key_id = (missing-length outer.key_id (ground arith), ground arith);
        trusted = or_fail-eq-ok _ unknown_key found;
        verified = map_err-eq-ok invalid_signature _ verified;
      },
      sym (ok-injective e4),
    )

-- What the licence itself has to say for it to be accepted at `now`.
pub record IsLicensed (expected_product machine_id : Bytes) (now : ℕ) (s : LicenseSnapshot)
    : Type 0 where
  pub license_id : 0 < length s.license_id
  pub product_id : (0 < length s.product_id) × (s.product_id ≡ expected_product)
  pub sessions : 0 < s.max_sessions
  pub begun : s.not_before ≤ now
  pub not_over :
      ((s.type ≡ permanent) × (s.expire_time ≡ 0))
      ⊎ ((s.type ≢ permanent) × (s.not_before < s.expire_time) × (now < s.expire_time))
  pub machine : s.machine_mode ≡ exact → (s.machine_id ≡ machine_id) × (0 < length s.machine_id)
  pub features : All (λ f. 0 < length f) s.features

convert_features-nonempty :
    (fs : List (Option Bytes)) (features : List Bytes)
    → convert_features fs ≡ some features
    → All (λ f. 0 < length f) features
unfolding convert_features
convert_features-nonempty [] features e = let same : features ≡ [] = ground arith in rw same tt
convert_features-nonempty (none ∷ fs) features e = cc
convert_features-nonempty (some [] ∷ fs) features e = ground arith
convert_features-nonempty (some (x ∷ f) ∷ fs) features e =
    elim (Option-cases (convert_features fs)) [
      | inl stop ↦ ground (arith, stop)
      | inr (rest, more) ↦
          let same : features ≡ (x ∷ f) ∷ rest = ground (arith, more) in
          rw same (omega arith, convert_features-nonempty fs rest more)
    ]

features_of-nonempty :
    (fs : Option (List (Option Bytes))) (features : List Bytes)
    → features_of fs ≡ some features
    → All (λ f. 0 < length f) features
unfolding features_of
features_of-nonempty none features e = let same : features ≡ [] = ground arith in rw same tt
features_of-nonempty (some fs) features e = convert_features-nonempty fs features e

-- What `check_times` lets through.
pub record InWindow (p : LicensePayload) (now : ℕ) : Type 0 where
  pub begun : p.not_before ≤ now
  pub not_over :
      ((p.license_type ≡ schema_permanent) × (p.expire_time ≡ 0))
      ⊎ ((p.license_type ≢ schema_permanent)
          × (p.not_before < p.expire_time)
          × (now < p.expire_time))

check_times-InWindow :
    (p : LicensePayload) (now : ℕ) {u : Unit {0}} → check_times p now ≡ ok u → InWindow p now
unfolding check_times
check_times-InWindow p now e = record { begun = ground arith; not_over = ground arith }

InWindow-check_times : (p : LicensePayload) (now : ℕ) → InWindow p now → check_times p now ≡ ok tt
unfolding check_times
InWindow-check_times p now v = ground (arith, v.not_over)

-- What `check_policy` lets through, and the snapshot that it makes.
pub record Granted (p : LicensePayload) (policy : MachinePolicy) (machine_id : Bytes)
    (s : LicenseSnapshot) : Type 0 where
  pub features : List Bytes
  pub converted : features_of p.features ≡ some features
  pub snapshot : s ≡ snapshot_of p policy features
  pub machine :
      policy.mode ≡ schema_exact
      → (str policy.machine_id ≡ machine_id) × (missing policy.machine_id ≡ false)

machine_test :
    (policy : MachinePolicy) (machine_id : Bytes)
    → (policy.mode == schema_exact
        && (missing policy.machine_id || not (bytes_eq (str policy.machine_id) machine_id)))
      ≡ false
    → policy.mode ≡ schema_exact
    → (str policy.machine_id ≡ machine_id) × (missing policy.machine_id ≡ false)
machine_test policy machine_id t h =
    (ground (arith, bytes_eq_iff (str policy.machine_id) machine_id), ground arith)

pub check_policy-Granted :
    (p : LicensePayload) (policy : MachinePolicy) (machine_id : Bytes) (s : LicenseSnapshot)
    → check_policy p policy machine_id ≡ ok s
    → Granted p policy machine_id s
unfolding check_policy
check_policy-Granted p policy machine_id s e =
    let (mode, e1) = fail_if-eq-ok _ invalid_license _ e in
    let (machine, e2) = fail_if-eq-ok _ machine_mismatch _ e1 in
    let (features, converted, e3) =
      >>=-eq-ok (or_fail (features_of p.features) invalid_license) _ e2 in
    record {
      features = features;
      converted = or_fail-eq-ok _ invalid_license converted;
      snapshot = sym (ok-injective e3);
      machine = machine_test policy machine_id machine;
    }

-- The tests that `check_payload` passed on its way to `s`.
pub record Passed (p : LicensePayload) (expected_product machine_id : Bytes) (s : LicenseSnapshot)
    : Type 0 where
  pub policy : MachinePolicy
  pub shape : (missing p.license_id || missing p.product_id || p.max_sessions == 0) ≡ false
  pub policy_given : p.machine_policy ≡ some policy
  pub type :
      (not (p.license_type == schema_trial)
        && not (p.license_type == schema_subscription)
        && not (p.license_type == schema_permanent))
      ≡ false
  pub product : not (bytes_eq (str p.product_id) expected_product) ≡ false
  pub checked : check_policy p policy machine_id ≡ ok s

pub check_payload-Passed :
    (p : LicensePayload) (expected_product machine_id : Bytes) (now : ℕ) (s : LicenseSnapshot)
    → check_payload p expected_product machine_id now ≡ ok s
    → Passed p expected_product machine_id s × InWindow p now
unfolding check_payload
check_payload-Passed p expected_product machine_id now s e =
    let (shape, e1) = fail_if-eq-ok _ invalid_license _ e in
    let (policy, found, e2) = >>=-eq-ok (or_fail p.machine_policy invalid_license) _ e1 in
    let (type, e3) = fail_if-eq-ok _ invalid_license _ e2 in
    let (product, e4) = fail_if-eq-ok _ product_mismatch _ e3 in
    let (u, times, e5) = >>=-eq-ok (check_times p now) _ e4 in
    (
      record {
        policy = policy;
        shape = shape;
        policy_given = or_fail-eq-ok _ invalid_license found;
        type = type;
        product = product;
        checked = e5;
      },
      check_times-InWindow p now times,
    )

-- With those tests passed, only the time is left to decide.
Passed-check_payload :
    (p : LicensePayload) (expected_product machine_id : Bytes) (now : ℕ) (s : LicenseSnapshot)
    → Passed p expected_product machine_id s
    → check_payload p expected_product machine_id now ≡ (check_times p now >> ok s)
unfolding check_payload
Passed-check_payload p expected_product machine_id now s v =
    simp (v.shape, v.policy_given, v.type, v.product, v.checked)

pub convert_type-permanent :
    (type : ℕ) → type ≤ 2 → (convert_type type ≡ permanent) ↔ (type ≡ schema_permanent)
convert_type-permanent type h = ground arith

-- A licence that `check_payload` accepts is for this product, this machine and this time.
pub check_payload-IsLicensed :
    (p : LicensePayload) (expected_product machine_id : Bytes) (now : ℕ) (s : LicenseSnapshot)
    → Passed p expected_product machine_id s
    → InWindow p now
    → IsLicensed expected_product machine_id now s
unfolding snapshot_of
check_payload-IsLicensed p expected_product machine_id now s v window =
    let g = check_policy-Granted p v.policy machine_id s v.checked in
    let shape = v.shape in
    let type : p.license_type ≤ 2 = ground (arith, v.type) in
    let kind = convert_type-permanent p.license_type type in
    let made : IsLicensed expected_product machine_id now (snapshot_of p v.policy g.features) =
      record {
        license_id = missing-length p.license_id (ground arith);
        product_id = (
          missing-length p.product_id (ground arith),
          (bytes_eq_iff (str p.product_id) expected_product).0 (not-eq-false _ v.product),
        );
        sessions = ground arith;
        begun = window.begun;
        not_over = ground (arith, window.not_over, kind);
        machine = λ h.
            let (same, some_id) = g.machine (ground arith) in
            (same, missing-length v.policy.machine_id some_id);
        features = features_of-nonempty p.features g.features g.converted;
      } in
    subst (IsLicensed expected_product machine_id now) (sym g.snapshot) made

pub check_payload_later :
    (p : LicensePayload) (expected_product machine_id : Bytes) (now later : ℕ) (s : LicenseSnapshot)
    → Passed p expected_product machine_id s
    → InWindow p now
    → now ≤ later
    → check_payload p expected_product machine_id later
      ≡ (if s.expire_time == 0 || ltb later s.expire_time then ok s else err expired)
unfolding snapshot_of check_times
check_payload_later p expected_product machine_id now later s v window h =
    let g = check_policy-Granted p v.policy machine_id s v.checked in
    let same : s.expire_time ≡ p.expire_time = ap (λ x. x.expire_time) g.snapshot in
    Passed-check_payload p expected_product machine_id later s v
    ∙ ground (arith, same, window.not_over)
