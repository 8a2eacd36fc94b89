-- ===== src/Tools/Issuer.antt =====
-- The licence issuer (tools/license_generator/include/yoauthorize/tools/issuer.h, issuer.cpp). The
-- FlatBuffers builder is a parameter.
pub mod Issued
use yo_authorize.Prelude.Words.{write_word, u16, u32}
use yo_authorize.OpenSsl.{OpenSsl}
use yo_authorize.Crypto.{sign_ed25519}
use yo_authorize.Core.License.Buffers.{
  LicensePayload, LicensePackage, MachinePolicy, schema_exact, schema_unbound, schema_permanent,
  schema_subscription,
}
use Prim.Native.Nat.{ℕ}
use yo_authorize.Prelude.{
  Bytes, Bool, some, List, codes, not, if◌then◌else◌, ◌++◌, Result, empty, ◌==◌, length, ◌>>◌, ◌||◌,
  map, fail_if, ltb, ◌>>=◌, false, map_err, ◌&&◌, ok, leb, all_of,
}

pub record LicenseBuilder : Type 0 where
  -- the bytes of a finished buffer around a payload, and around a package with its identifier
  pub build_payload : LicensePayload → Bytes
  pub build_package : LicensePackage → Bytes

pub data IssueError : Type 0 where
  invalid_input signing_failed : IssueError

pub record LicenseDefinition : Type 0 where
  pub key_id : Bytes
  pub license_id : Bytes
  pub product_id : Bytes
  pub customer_id : Bytes
  pub issue_time : ℕ
  pub not_before : ℕ
  pub expire_time : ℕ
  pub features : List Bytes
  pub max_sessions : ℕ
  pub machine_id : Bytes

abbrev signature_domain : Bytes
signature_domain = codes "YOAUTHORIZE-LICENSE-V1"

abbrev max_identifier_size : ℕ
max_identifier_size = 255

abbrev max_features : ℕ
max_features = 256

abbrev max_feature_size : ℕ
max_feature_size = 128

abbrev append_u16 : ℕ → Bytes
append_u16 value = write_word 2 value

abbrev append_u32 : ℕ → Bytes
append_u32 value = write_word 4 value

unfoldable pub valid_feature : Bytes → Bool
valid_feature feature = not (empty feature || ltb max_feature_size (length feature))

unfoldable pub valid : LicenseDefinition → Bool
unfolding valid_feature
valid d =
    if empty d.key_id
      || ltb 0xffff (length d.key_id)
      || empty d.license_id
      || ltb max_identifier_size (length d.license_id)
      || empty d.product_id
      || ltb max_identifier_size (length d.product_id)
      || empty d.customer_id
      || ltb max_identifier_size (length d.customer_id)
      || d.issue_time == 0
      || d.not_before == 0
      || ltb d.not_before d.issue_time
      || d.max_sessions == 0
      || ltb max_features (length d.features)
    then false
    else if not (d.expire_time == 0) && leb d.expire_time d.not_before
    then false
    else all_of valid_feature d.features

unfoldable pub payload_of : LicenseDefinition → LicensePayload
payload_of d = record {
  license_id = some d.license_id;
  product_id = some d.product_id;
  customer_id = some d.customer_id;
  issue_time = d.issue_time;
  not_before = d.not_before;
  expire_time = d.expire_time;
  license_type = if d.expire_time == 0 then schema_permanent else schema_subscription;
  features = some (map some d.features);
  max_sessions = d.max_sessions;
  machine_policy = some (record {
    mode = if empty d.machine_id then schema_unbound else schema_exact;
    machine_id = some d.machine_id;
  });
}

unfoldable pub signed_bytes : Bytes → Bytes → Bytes
signed_bytes key_id payload =
    signature_domain
    ++ (append_u16 1
        ++ (append_u16 (u16 (length key_id))
            ++ (key_id ++ (append_u32 (u32 (length payload)) ++ payload))))

unfoldable pub package_of : LicenseDefinition → Bytes → Bytes → LicensePackage
package_of d payload signature = record {
  format_version = 1;
  key_id = some d.key_id;
  payload = some payload;
  signature = some signature;
}

module _ (o : OpenSsl) (b : LicenseBuilder) where
  unfoldable pub issue_license : LicenseDefinition → Bytes → Result IssueError Bytes
  unfolding valid payload_of signed_bytes package_of
  issue_license definition signing_private_key = do
    fail_if (not (valid definition)) invalid_input
    let payload = b.build_payload (payload_of definition)
    signature ←
        map_err signing_failed
          (sign_ed25519 o signing_private_key (signed_bytes definition.key_id payload))
    ok (b.build_package (package_of definition payload signature))
