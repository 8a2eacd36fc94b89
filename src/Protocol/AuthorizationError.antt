-- ===== src/Protocol/AuthorizationError.antt =====
-- The values of `AuthorizationError` (protocol/messages.h) that the program writes.
use yo_authorize.Prelude.{ℕ}

abbrev pub no_error : ℕ
no_error = 0

abbrev pub expired : ℕ
expired = 2005

abbrev pub product_mismatch : ℕ
product_mismatch = 2007

abbrev pub session_limit_exceeded : ℕ
session_limit_exceeded = 3003
