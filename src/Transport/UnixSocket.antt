-- ===== src/Transport/UnixSocket.antt =====
-- `UnixSocketTransport` (unix_socket.cpp): reading, writing, closing and the peer's credentials.
-- The peer and the kernel are part of the state: the bytes that the peer sends, those that went out
-- to it, and the script of the answers to come.
use yo_authorize.Prelude.{
  ℕ, ◌-◌, Bytes, Bool, true, false, List, Option, none, some, [], ◌∷◌, ◌++◌, Result, ok, err,
  length, take, drop, ◌==◌, ◌||◌, if◌then◌else◌, min, empty,
}
use yo_authorize.Transport.{
  Deadline, Status, canceled, end_of_file, succeeded, failed_with, is_success, Transport,
}
use yo_authorize.Transport.Polling.{eintr, eagain, failed_system, retried, PollCall, wait_for}

-- What `recv` or `send` answers: as many bytes as there are at most, or errno.
pub data Transfer : Type 0 where
  moved : ℕ → Transfer
  refused : ℕ → Transfer

-- One round of a loop: the polls of its wait, and the transfer behind it.
pub record Round : Type 0 where
  pub polls : List PollCall
  pub transfer : Transfer

-- `UnixSocketTransport::State`. Whether `fd` and `cancel_fd` are descriptors, not -1.
pub record State : Type 0 where
  pub path : Bytes
  pub fd : Bool
  pub cancel_fd : Bool
  pub canceled : Bool
  pub incoming : Bytes
  pub outgoing : Bytes
  pub duplicates : List (Result ℕ (Unit {0}))
  pub rounds : List Round

-- The object: `none` where it has been moved from.
abbrev pub UnixSocketTransport : Type 0
UnixSocketTransport = Option State

abbrev pub retryable : ℕ → Bool
retryable error = error == eintr || error == eagain

unfoldable pub duplicated :
    State → Option (Result ℕ (Unit {0}) × List (Result ℕ (Unit {0}))) → Option (Bool × State)
duplicated s none = none
duplicated s (some (ok u, rest)) = some (true, record s { duplicates = rest })
duplicated s (some (err e, rest)) = some (false, record s { duplicates = rest })

-- Whether the operation has a descriptor of its own: a duplicate, so that closing the transport
-- does not take it away.
unfoldable pub operation_fd : State → Option (Bool × State)
unfolding duplicated
operation_fd s = if s.fd then duplicated s (retried s.duplicates) else some (false, s)

-- The loop of `readExact`: what is still to read, what was read, and what the peer sends.
pub record Reading : Type 0 where
  pub need : ℕ
  pub output : Bytes
  pub incoming : Bytes

unfoldable pub received :
    (Reading → Option (Status × Reading × List Round))
    → List Round
    → Reading
    → Transfer
    → Option (Status × Reading × List Round)
received continue rounds r (moved available) =
    let count = min available r.need in
    let bytes = take count r.incoming in
    if empty bytes
    then some (failed_with end_of_file, r, rounds)
    else continue (record {
      need = r.need - length bytes;
      output = r.output ++ bytes;
      incoming = drop count r.incoming;
    })
received continue rounds r (refused error) =
    if retryable error then continue r else some (failed_system error, r, rounds)

unfoldable pub read_waited :
    (Reading → Option (Status × Reading × List Round))
    → List Round
    → Reading
    → Transfer
    → Option Status
    → Option (Status × Reading × List Round)
read_waited continue rounds r transfer none = none
read_waited continue rounds r transfer (some status) =
    if is_success status then received continue rounds r transfer else some (status, r, rounds)

unfoldable pub read_loop : Deadline → List Round → Reading → Option (Status × Reading × List Round)
read_loop deadline [] r = if r.need == 0 then some (succeeded, r, []) else none
read_loop deadline (round ∷ rounds) r =
    if r.need == 0
    then some (succeeded, r, round ∷ rounds)
    else read_waited (read_loop deadline rounds) rounds r round.transfer
        (wait_for deadline round.polls)

unfoldable pub read_ended :
    State → Option (Status × Reading × List Round) → Option (Status × Bytes × UnixSocketTransport)
read_ended s none = none
read_ended s (some (status, r, rounds)) =
    some (status, r.output, some (record s { incoming = r.incoming; rounds = rounds }))

unfoldable pub read_operated :
    Deadline → ℕ → Option (Bool × State) → Option (Status × Bytes × UnixSocketTransport)
unfolding read_ended
read_operated deadline size none = none
read_operated deadline size (some (false, s)) = some (failed_with canceled, [], some s)
read_operated deadline size (some (true, s)) =
    read_ended s
      (read_loop deadline s.rounds (record { need = size; output = []; incoming = s.incoming }))

-- The bytes that the call has put into its span are returned beside the status.
unfoldable pub read_exact :
    Deadline → ℕ → UnixSocketTransport → Option (Status × Bytes × UnixSocketTransport)
unfolding read_operated operation_fd
read_exact deadline size none = some (failed_with canceled, [], none)
read_exact deadline size (some s) = read_operated deadline size (operation_fd s)

-- The loop of `writeAll`: what is still to send, and what went out.
pub record Writing : Type 0 where
  pub unsent : Bytes
  pub outgoing : Bytes

unfoldable pub sent :
    (Writing → Option (Status × Writing × List Round))
    → List Round
    → Writing
    → Transfer
    → Option (Status × Writing × List Round)
sent continue rounds w (moved room) =
    let bytes = take room w.unsent in
    if empty bytes
    then some (failed_with end_of_file, w, rounds)
    else continue (record { unsent = drop room w.unsent; outgoing = w.outgoing ++ bytes })
sent continue rounds w (refused error) =
    if retryable error then continue w else some (failed_system error, w, rounds)

unfoldable pub write_waited :
    (Writing → Option (Status × Writing × List Round))
    → List Round
    → Writing
    → Transfer
    → Option Status
    → Option (Status × Writing × List Round)
write_waited continue rounds w transfer none = none
write_waited continue rounds w transfer (some status) =
    if is_success status then sent continue rounds w transfer else some (status, w, rounds)

unfoldable pub write_loop : Deadline → List Round → Writing → Option (Status × Writing × List Round)
write_loop deadline [] w = if empty w.unsent then some (succeeded, w, []) else none
write_loop deadline (round ∷ rounds) w =
    if empty w.unsent
    then some (succeeded, w, round ∷ rounds)
    else write_waited (write_loop deadline rounds) rounds w round.transfer
        (wait_for deadline round.polls)

unfoldable pub write_ended :
    State → Option (Status × Writing × List Round) → Option (Status × UnixSocketTransport)
write_ended s none = none
write_ended s (some (status, w, rounds)) =
    some (status, some (record s { outgoing = w.outgoing; rounds = rounds }))

unfoldable pub write_operated :
    Deadline → Bytes → Option (Bool × State) → Option (Status × UnixSocketTransport)
unfolding write_ended
write_operated deadline bytes none = none
write_operated deadline bytes (some (false, s)) = some (failed_with canceled, some s)
write_operated deadline bytes (some (true, s)) =
    write_ended s (write_loop deadline s.rounds (record { unsent = bytes; outgoing = s.outgoing }))

unfoldable pub write_all :
    Deadline → Bytes → UnixSocketTransport → Option (Status × UnixSocketTransport)
unfolding write_operated operation_fd
write_all deadline bytes none = some (failed_with canceled, none)
write_all deadline bytes (some s) = write_operated deadline bytes (operation_fd s)

-- A close by any thread: later operations find no descriptor, those under way see the signal in
-- their polls.
unfoldable pub close : UnixSocketTransport → UnixSocketTransport
close none = none
close (some s) = some (record s { fd = false; canceled = true })

unfoldable pub is_open : UnixSocketTransport → Bool
is_open none = false
is_open (some s) = s.fd

pub record PeerCredentials : Type 0 where
  pub pid : ℕ
  pub uid : ℕ
  pub gid : ℕ

unfoldable pub credentials_of :
    Result ℕ PeerCredentials
    → Option (Bool × State)
    → Option (Result Status PeerCredentials × UnixSocketTransport)
credentials_of answer none = none
credentials_of answer (some (false, s)) = some (err (failed_with canceled), some s)
credentials_of (ok credentials) (some (true, s)) = some (ok credentials, some s)
credentials_of (err error) (some (true, s)) = some (err (failed_system error), some s)

-- The answer is that of `getsockopt` with SO_PEERCRED.
unfoldable pub peer_credentials :
    Result ℕ PeerCredentials
    → UnixSocketTransport
    → Option (Result Status PeerCredentials × UnixSocketTransport)
unfolding credentials_of operation_fd
peer_credentials answer none = some (err (failed_with canceled), none)
peer_credentials answer (some s) = credentials_of answer (operation_fd s)

unfoldable pub unix_transport : Transport UnixSocketTransport
unix_transport = record { read_exact = read_exact; write_all = write_all; close = close }
