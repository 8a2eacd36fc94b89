-- ===== src/Core/License/Carried.antt =====
-- What of a payload the validator's snapshot says (core/license.cpp).
use yo_authorize.Core.License.Checks.{Passed, check_policy-Granted, convert_type-permanent}
use yo_authorize.Prelude.{
  Option, Bytes, ◌≡◌, false, some, ◌≤◌, arith, [], none, sym, ◌↔◌, subst, refl,
}
use yo_authorize.Core.License.Buffers.{
  LicensePayload, schema_permanent, MachinePolicy, schema_exact,
}
use yo_authorize.FlatBuffers.{missing, str}
use yo_authorize.Core.License.{
  missing, LicenseSnapshot, LicensePayload, some, str, ◌∷◌, permanent, exact, features_of,
  schema_permanent, MachinePolicy, snapshot_of, schema_exact,
}

-- The snapshot says what the payload says.
pub record IsCarried (p : LicensePayload) (s : LicenseSnapshot) : Type 0 where
  pub policy : MachinePolicy
  pub policy_given : p.machine_policy ≡ some policy
  pub license_id : p.license_id ≡ some s.license_id
  pub product_id : p.product_id ≡ some s.product_id
  pub customer_id : s.customer_id ≡ str p.customer_id
  pub times :
      (s.issue_time ≡ p.issue_time)
      × (s.not_before ≡ p.not_before)
      × (s.expire_time ≡ p.expire_time)
  pub type : (s.type ≡ permanent) ↔ (p.license_type ≡ schema_permanent)
  pub features : features_of p.features ≡ some s.features
  pub sessions : s.max_sessions ≡ p.max_sessions
  pub machine :
      ((s.machine_mode ≡ exact) ↔ (policy.mode ≡ schema_exact))
      × (s.machine_id ≡ str policy.machine_id)

given : (s : Option Bytes) → missing s ≡ false → s ≡ some (str s)
given none h = cc
given (some []) h = cc
given (some (x ∷ xs)) h = refl

-- The snapshot of a payload that `check_payload` accepts.
pub check_payload-IsCarried :
    (p : LicensePayload) (expected_product machine_id : Bytes) (s : LicenseSnapshot)
    → Passed p expected_product machine_id s
    → IsCarried p s
unfolding snapshot_of
check_payload-IsCarried p expected_product machine_id s v =
    let g = check_policy-Granted p v.policy machine_id s v.checked in
    let shape = v.shape in
    let type : p.license_type ≤ 2 = ground (arith, v.type) in
    let made : IsCarried p (snapshot_of p v.policy g.features) = record {
      policy = v.policy;
      policy_given = v.policy_given;
      license_id = given p.license_id (ground arith);
      product_id = given p.product_id (ground arith);
      customer_id = refl;
      times = (refl, refl, refl);
      type = convert_type-permanent p.license_type type;
      features = g.converted;
      sessions = refl;
      machine = (ground arith, refl);
    } in
    subst (IsCarried p) (sym g.snapshot) made
