-- ===== src/Sdk/Status.antt =====
-- The states, errors and snapshots of the SDK (sdk/client.h).
use yo_authorize.Prelude.{ℕ, Bytes, List}

pub data ClientState : Type 0 where
  uninitialized connecting valid grace expired revoked error closed : ClientState

pub data ClientError : Type 0 where
  invalid_config transport protocol service_identity_invalid authorization_denied : ClientError
  license_file invalid_license machine_identity already_initialized : ClientError

-- A `Status` with an error; one without is a success.
pub record Failure : Type 0 where
  pub error : ClientError
  pub message : Bytes

pub record LicenseSnapshot : Type 0 where
  pub state : ClientState
  pub features : List Bytes
  pub expire_time : ℕ
