-- ===== src/Transport.antt =====
-- The transport that the service and the SDK speak over (transport/transport.h), and below it the
-- Unix domain socket that implements it (unix_socket.h, unix_socket.cpp).
pub mod Polling
pub mod UnixSocket
pub mod Connecting
pub mod StaleSocket
pub mod Listener
pub mod Streams
pub mod Implementation
pub mod Stale
pub mod Returning
use yo_authorize.Prelude.{ℕ, Bytes, Bool, Option, List, ◌≡◌, none, some, true, false, length, ◌++◌}

-- A point of the steady clock in nanoseconds; `none` is `noDeadline()`.
abbrev pub Deadline : Type 0
Deadline = Option ℕ

pub data StatusCode : Type 0 where
  success timeout end_of_file canceled invalid_argument system_error : StatusCode

pub record Status : Type 0 where
  pub code : StatusCode
  pub error_number : ℕ

abbrev pub is_success : Status → Bool
is_success status = elim (status.code) [ success ↦ true | _ ↦ false ]

abbrev pub succeeded : Status
succeeded = record { code = success; error_number = 0 }

abbrev pub failed_with : StatusCode → Status
failed_with code = record { code = code; error_number = 0 }

-- `ITransport` over the states of an implementation. A call that never returns is `none`.
pub record Transport (S : Type 0) : Type 0 where
  pub read_exact : Deadline → ℕ → S → Option (Status × Bytes × S)
  pub write_all : Deadline → Bytes → S → Option (Status × S)
  pub close : S → S

-- What its clients rely on: the bytes yet to come are handed over in order and without gaps, and
-- what is written goes out whole where the call succeeds, else a first part of it.
pub record IsTransport {S : Type 0} (t : Transport S) (incoming outgoing : S → Bytes) : Type 0 where
  pub reads :
      (d : Deadline) (n : ℕ) (s s' : S) (status : Status) (bytes : Bytes)
      → t.read_exact d n s ≡ some (status, bytes, s')
      → (incoming s ≡ bytes ++ incoming s')
        × (outgoing s' ≡ outgoing s)
        × (is_success status ≡ true → length bytes ≡ n)
  pub writes :
      (d : Deadline) (bytes : Bytes) (s s' : S) (status : Status)
      → t.write_all d bytes s ≡ some (status, s')
      → (sent : Bytes) × (rest : Bytes) × (bytes ≡ sent ++ rest)
        × (outgoing s' ≡ outgoing s ++ sent)
        × (incoming s' ≡ incoming s)
        × (is_success status ≡ true → sent ≡ bytes)
