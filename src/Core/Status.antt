-- ===== src/Core/Status.antt =====
-- core/status.h. `Result` of the program is `Result ErrorCode`.
pub data ErrorCode : Type 0 where
  invalid_format unsupported_version unknown_key invalid_signature invalid_license : ErrorCode
  not_yet_valid expired product_mismatch machine_mismatch machine_identity_unavailable : ErrorCode
  session_limit_exceeded invalid_session internal_error : ErrorCode
