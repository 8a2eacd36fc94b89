-- ===== src/Transport/Polling.antt =====
-- Waiting for a socket (unix_socket.cpp): the calls of the operating system that a thread makes, as a
-- script of their answers in the order of the calls.
use yo_authorize.Prelude.{
  ℕ, ◌+◌, ◌-◌, ◌/◌, Bool, List, Option, none, some, [], ◌∷◌, Result, ok, err, ltb, leb, ◌==◌,
  if◌then◌else◌, ◌≡◌, ◌≤◌, ◌*◌, arith, ◌⊎◌,
}
use yo_authorize.Transport.{
  Deadline, Status, timeout, canceled, system_error, succeeded, failed_with,
}

-- errno
abbrev pub eintr : ℕ
eintr = 4

-- EAGAIN and EWOULDBLOCK are one number.
abbrev pub eagain : ℕ
eagain = 11

abbrev int_max : ℕ
int_max = 2147483647

abbrev pub failed_system : ℕ → Status
failed_system error = record { code = system_error; error_number = error }

-- A call that is made again where a signal interrupts it: its answer, and the answers to come.
unfoldable pub retried {ℓ} :
    {A : Type ℓ} → List (Result ℕ A) → Option (Result ℕ A × List (Result ℕ A))
retried [] = none
retried (ok a ∷ rest) = some (ok a, rest)
retried (err e ∷ rest) =
    let again = retried rest in if e == eintr then again else some (err e, rest)

-- The argument of `poll`, in milliseconds; `none` is -1, which waits for ever.
unfoldable pub timeout_milliseconds : Deadline → ℕ → Option ℕ
timeout_milliseconds none now = none
timeout_milliseconds (some deadline) now =
    if leb deadline now
    then some 0
    else let milliseconds = (deadline - now + 999999) / 1000000 in
      some (if ltb int_max milliseconds then int_max else milliseconds)

pub data Poll : Type 0 where
  -- `poll` returns -1 and sets errno
  failed : ℕ → Poll
  expired : Poll
  -- the socket shows one of the events or an error, and the cancellation is signalled
  polled : Bool → Bool → Poll

-- One round of the loop: the time at which it starts, and what `poll` answers to its timeout.
pub record PollCall : Type 0 where
  pub now : ℕ
  pub answer : Option ℕ → Poll

unfoldable pub wait_answered : Option Status → Poll → Option Status
wait_answered again (failed error) = if error == eintr then again else some (failed_system error)
wait_answered again expired = some (failed_with timeout)
wait_answered again (polled ready cancel) =
    if cancel then some (failed_with canceled) else if ready then some succeeded else again

-- `none` where the script ends and the thread still waits.
unfoldable pub wait_for : Deadline → List PollCall → Option Status
wait_for deadline [] = none
wait_for deadline (call ∷ calls) =
    let again = wait_for deadline calls in
    wait_answered again (call.answer (timeout_milliseconds deadline call.now))

-- `poll` is never asked to return before the deadline, unless that is further away than an `int`
-- can say, and never for longer than that.
pub timeout_milliseconds_bounds :
    (deadline now t : ℕ)
    → timeout_milliseconds (some deadline) now ≡ some t
    → (t ≤ int_max) × ((deadline ≤ now + t * 1000000) ⊎ (t ≡ int_max))
unfolding timeout_milliseconds
timeout_milliseconds_bounds deadline now t e = ground arith
