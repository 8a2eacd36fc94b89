-- ===== src/Transport/Listener.antt =====
-- `UnixSocketListener` (unix_socket.cpp). The file system answers from a script; a result says whether
-- the call has removed the path.
use yo_authorize.Transport.{
  Deadline, Status, canceled, invalid_argument, succeeded, failed_with, is_success, ℕ, Bool, false,
  Option, Bytes, true, List,
}
use yo_authorize.Transport.Polling.{eintr, eagain, failed_system, PollCall, wait_for}
use yo_authorize.Transport.Connecting.{make_address, emfile}
use yo_authorize.Transport.UnixSocket
use yo_authorize.Prelude.{
  Result, if◌then◌else◌, ◌==◌, ◌&&◌, ok, err, some, ◌||◌, bit_and, none, not, ◌-◌, ◌∷◌, [],
}
use yo_authorize.Transport.StaleSocket.{
  FileInfo, Removal, StaleCalls, eaddrinuse, remove_stale_socket,
}

-- `UnixSocketListener::State`
pub record Listener : Type 0 where
  pub path : Bytes
  pub mode : ℕ
  pub backlog : ℕ
  pub fd : Bool
  pub cancel_fd : Bool
  pub device : ℕ
  pub inode : ℕ
  pub owns_path : Bool
  pub canceled : Bool

pub record ListenCalls : Type 0 where
  pub stale : StaleCalls
  pub socket : Result ℕ (Unit {0})
  pub bind : Result ℕ (Unit {0})
  -- `chmod`, and `listen` where that succeeds
  pub prepared : Result ℕ (Unit {0})
  pub metadata : Result ℕ FileInfo
  -- what other threads have done before the descriptor is stored
  pub canceled_meanwhile : Bool
  pub opened_meanwhile : Bool

-- A path that the call has bound is removed again where the call fails.
pub record Listening : Type 0 where
  pub status : Status
  pub listener : Listener
  pub unlinks : Bool

abbrev refused_listen : Listener → Status → Listening
refused_listen l status = record { status = status; listener = l; unlinks = false }

abbrev undone_listen : Listener → Status → Listening
undone_listen l status = record { status = status; listener = l; unlinks = true }

unfoldable pub listener_stored : ListenCalls → Listener → FileInfo → Listening
listener_stored calls l metadata =
    if l.canceled || calls.canceled_meanwhile
    then undone_listen (record l { canceled = true }) (failed_with canceled)
    else if calls.opened_meanwhile
    then undone_listen (record l { fd = true }) (failed_system eaddrinuse)
    else record {
      status = succeeded;
      listener = record l {
        fd = true;
        device = metadata.device;
        inode = metadata.inode;
        owns_path = true;
      };
      unlinks = false;
    }

unfoldable pub listener_prepared :
    ListenCalls → Listener → Result ℕ (Unit {0}) → Result ℕ FileInfo → Listening
unfolding listener_stored
listener_prepared calls l (err error) metadata = undone_listen l (failed_system error)
listener_prepared calls l (ok u) (err error) = undone_listen l (failed_system error)
listener_prepared calls l (ok u) (ok metadata) = listener_stored calls l metadata

unfoldable pub listener_bound : ListenCalls → Listener → Result ℕ (Unit {0}) → Listening
unfolding listener_prepared
listener_bound calls l (err error) = refused_listen l (failed_system error)
listener_bound calls l (ok u) = listener_prepared calls l calls.prepared calls.metadata

unfoldable pub listener_socket : ListenCalls → Listener → Result ℕ (Unit {0}) → Listening
unfolding listener_bound
listener_socket calls l (err error) = refused_listen l (failed_system error)
listener_socket calls l (ok u) = listener_bound calls l calls.bind

unfoldable pub stale_removed : ListenCalls → Listener → Option Removal → Option Listening
unfolding listener_socket
stale_removed calls l none = none
stale_removed calls l (some removal) =
    if is_success removal.status
    then some (listener_socket calls l calls.socket)
    else some (refused_listen l removal.status)

-- `mode & ~0777`, on 32 bits
abbrev bits_above : ℕ → ℕ
bits_above mode = bit_and mode (0xffff_ffff - 511)

unfoldable pub listen : ListenCalls → Listener → Option Listening
unfolding stale_removed remove_stale_socket make_address
listen calls l =
    if l.backlog == 0 || not (bits_above l.mode == 0)
    then some (refused_listen l (failed_with invalid_argument))
    else if not l.cancel_fd
    then some (refused_listen l (failed_system emfile))
    else if l.canceled
    then some (refused_listen l (failed_with canceled))
    else if l.fd
    then some (refused_listen l (failed_system eaddrinuse))
    else elim (make_address l.path) [
      | err status ↦ some (refused_listen l status)
      | ok address ↦ stale_removed calls l (remove_stale_socket l.path calls.stale)
    ]

-- One round of `accept`: the polls of its wait, the answer of `accept4`, and whether the new
-- transport has a descriptor for its cancellation.
pub record AcceptRound : Type 0 where
  pub polls : List PollCall
  pub accepted : Result ℕ UnixSocket.State

unfoldable pub accept_answered :
    Option (Result Status UnixSocket.State)
    → Result ℕ UnixSocket.State
    → Option (Result Status UnixSocket.State)
accept_answered continue (ok s) =
    if not s.cancel_fd then some (err (failed_system emfile)) else some (ok s)
accept_answered continue (err error) =
    if error == eintr || error == eagain then continue else some (err (failed_system error))

unfoldable pub accept_waited :
    Option (Result Status UnixSocket.State)
    → Result ℕ UnixSocket.State
    → Option Status
    → Option (Result Status UnixSocket.State)
unfolding accept_answered
accept_waited continue accepted none = none
accept_waited continue accepted (some status) =
    if is_success status then accept_answered continue accepted else some (err status)

unfoldable pub accept_loop : Deadline → List AcceptRound → Option (Result Status UnixSocket.State)
unfolding accept_waited
accept_loop deadline [] = none
accept_loop deadline (round ∷ rounds) =
    accept_waited (accept_loop deadline rounds) round.accepted (wait_for deadline round.polls)

-- The duplicate of the descriptor is there or not.
unfoldable pub accept :
    Deadline → Bool → List AcceptRound → Listener → Option (Result Status UnixSocket.State)
unfolding accept_loop
accept deadline duplicate rounds l =
    if l.fd && duplicate then accept_loop deadline rounds else some (err (failed_with canceled))

abbrev is_own : Listener → Result ℕ FileInfo → Bool
is_own l (err error) = false
is_own l (ok metadata) =
    metadata.is_socket && metadata.device == l.device && metadata.inode == l.inode

-- What `lstat` answers, and whether the path is removed.
unfoldable pub close : Listener → Result ℕ FileInfo → Listener × Bool
close l answer =
    (record l { canceled = true; fd = false; owns_path = false }, l.owns_path && is_own l answer)

unfoldable pub is_open : Listener → Bool
is_open l = l.fd
