-- ===== src/Protocol/AuthorizationState.antt =====
-- The values of `AuthorizationState` (protocol/messages.h).
use yo_authorize.Prelude.{ℕ}

abbrev pub unknown : ℕ
unknown = 0

abbrev pub valid : ℕ
valid = 1

abbrev pub grace : ℕ
grace = 2

abbrev pub expired : ℕ
expired = 3

abbrev pub revoked : ℕ
revoked = 4
