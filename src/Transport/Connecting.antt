-- ===== src/Transport/Connecting.antt =====
-- `UnixSocketTransport::connect` (unix_socket.cpp).
use yo_authorize.Transport.{
  Deadline, Status, canceled, invalid_argument, succeeded, failed_with, is_success, StatusCode, ℕ,
  Bytes, false, Bool, Option,
}
use yo_authorize.Transport.Polling.{failed_system, retried, PollCall, wait_for}
use yo_authorize.Transport.UnixSocket.{UnixSocketTransport, State, operation_fd}
use yo_authorize.Prelude.{
  Result, if◌then◌else◌, empty, List, some, err, true, ◌||◌, ok, not, none, leb, ◌==◌, length, ◌++◌,
  ◌∷◌, [],
}

abbrev pub emfile : ℕ
emfile = 24

abbrev pub eisconn : ℕ
eisconn = 106

abbrev pub einprogress : ℕ
einprogress = 115

-- sizeof(sockaddr_un::sun_path)
abbrev pub sun_path_size : ℕ
sun_path_size = 108

-- The path of the address, with the zero that ends it.
unfoldable pub make_address : Bytes → Result Status Bytes
make_address path =
    if empty path || leb sun_path_size (length path)
    then err (failed_with invalid_argument)
    else ok (path ++ (0 ∷ []))

-- What the operating system answers in one call of `connect`.
pub record ConnectCalls : Type 0 where
  pub socket : Result ℕ (Unit {0})
  -- errno as the duplication of the descriptor leaves it
  pub duplicate_errno : ℕ
  pub connects : List (Result ℕ (Unit {0}))
  pub polls : List PollCall
  -- `getsockopt` with SO_ERROR
  pub socket_error : Result ℕ ℕ
  -- another thread closes the transport once the operation has its descriptor
  pub closed_meanwhile : Bool

unfoldable pub reset_socket : State → State
reset_socket s = record s { fd = false }

unfoldable pub connect_ended : State → Status × UnixSocketTransport
connect_ended s = (if s.canceled then failed_with canceled else succeeded, some s)

unfoldable pub error_read : State → Result ℕ ℕ → Status × UnixSocketTransport
unfolding connect_ended reset_socket
error_read s (err error) = (failed_system error, some (reset_socket s))
error_read s (ok socket_error) =
    if not (socket_error == 0)
    then (failed_system socket_error, some (reset_socket s))
    else connect_ended s

abbrev is_canceled : StatusCode → Bool
is_canceled canceled = true
is_canceled _ = false

unfoldable pub connect_waited :
    State → Result ℕ ℕ → Option Status → Option (Status × UnixSocketTransport)
unfolding error_read reset_socket
connect_waited s socket_error none = none
connect_waited s socket_error (some status) =
    if is_success status
    then some (error_read s socket_error)
    else some (status, some (if is_canceled status.code then s else reset_socket s))

unfoldable pub connect_tried :
    Deadline
    → ConnectCalls
    → State
    → Option (Result ℕ (Unit {0}) × List (Result ℕ (Unit {0})))
    → Option (Status × UnixSocketTransport)
unfolding connect_waited connect_ended reset_socket
connect_tried deadline calls s none = none
connect_tried deadline calls s (some (ok u, rest)) = some (connect_ended s)
connect_tried deadline calls s (some (err error, rest)) =
    if not (error == einprogress)
    then some (failed_system error, some (reset_socket s))
    else connect_waited s calls.socket_error (wait_for deadline calls.polls)

abbrev after_others : ConnectCalls → State → State
after_others calls s =
    if calls.closed_meanwhile then record s { fd = false; canceled = true } else s

unfoldable pub connect_operated :
    Deadline → ConnectCalls → Option (Bool × State) → Option (Status × UnixSocketTransport)
unfolding connect_tried
connect_operated deadline calls none = none
connect_operated deadline calls (some (false, s)) =
    some (failed_system calls.duplicate_errno, some s)
connect_operated deadline calls (some (true, s)) =
    connect_tried deadline calls (after_others calls s) (retried calls.connects)

unfoldable pub socket_made :
    Deadline → ConnectCalls → State → Result ℕ (Unit {0}) → Option (Status × UnixSocketTransport)
unfolding connect_operated operation_fd
socket_made deadline calls s (err error) = some (failed_system error, some s)
socket_made deadline calls s (ok u) =
    if s.canceled
    then some (failed_with canceled, some s)
    else if s.fd
    then some (failed_system eisconn, some s)
    else connect_operated deadline calls (operation_fd (record s { fd = true }))

unfoldable pub addressed :
    Deadline → ConnectCalls → State → Result Status Bytes → Option (Status × UnixSocketTransport)
unfolding socket_made
addressed deadline calls s (err status) = some (status, some s)
addressed deadline calls s (ok address) = socket_made deadline calls s calls.socket

unfoldable pub connect :
    Deadline → ConnectCalls → UnixSocketTransport → Option (Status × UnixSocketTransport)
unfolding addressed make_address
connect deadline calls none = some (failed_system emfile, none)
connect deadline calls (some s) =
    if not s.cancel_fd
    then some (failed_system emfile, some s)
    else addressed deadline calls s (make_address s.path)
