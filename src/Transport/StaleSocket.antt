-- ===== src/Transport/StaleSocket.antt =====
-- `removeStaleSocket` (unix_socket.cpp), before a listener binds its path. The file system answers
-- from a script; a result says whether the call has removed the path.
use yo_authorize.Transport.{Status, succeeded, ℕ, Bool, false, Option, Bytes, true, List}
use yo_authorize.Transport.Polling.{eagain, failed_system, retried}
use yo_authorize.Transport.Connecting.{make_address, einprogress}
use yo_authorize.Prelude.{Result, if◌then◌else◌, ◌==◌, ◌&&◌, ok, err, some, ◌||◌, none, not}

abbrev pub enoent : ℕ
enoent = 2

abbrev pub eexist : ℕ
eexist = 17

abbrev pub eaddrinuse : ℕ
eaddrinuse = 98

abbrev pub econnrefused : ℕ
econnrefused = 111

abbrev pub ealready : ℕ
ealready = 114

-- What `lstat` says of a path.
pub record FileInfo : Type 0 where
  pub is_socket : Bool
  pub device : ℕ
  pub inode : ℕ

pub record StaleCalls : Type 0 where
  pub found : Result ℕ FileInfo
  pub probe : Result ℕ (Unit {0})
  pub connects : List (Result ℕ (Unit {0}))
  pub again : Result ℕ FileInfo
  pub unlinked : Result ℕ (Unit {0})

-- The status, and whether `unlink` was called.
pub record Removal : Type 0 where
  pub status : Status
  pub unlinks : Bool

abbrev kept : Status → Removal
kept status = record { status = status; unlinks = false }

-- `lstat` failed: no file is no failure.
abbrev absent : ℕ → Removal
absent error = kept (if error == enoent then succeeded else failed_system error)

abbrev pub same_file : FileInfo → FileInfo → Bool
same_file current metadata =
    current.is_socket && current.device == metadata.device && current.inode == metadata.inode

abbrev unlink_status : Result ℕ (Unit {0}) → Status
unlink_status (ok u) = succeeded
unlink_status (err error) = failed_system error

unfoldable pub seen_again : StaleCalls → FileInfo → Result ℕ FileInfo → Removal
seen_again calls metadata (err error) = absent error
seen_again calls metadata (ok current) =
    if not (same_file current metadata)
    then kept (failed_system eagain)
    else record { status = unlink_status calls.unlinked; unlinks = true }

unfoldable pub probed : StaleCalls → FileInfo → Result ℕ (Unit {0}) → Removal
unfolding seen_again
probed calls metadata (ok u) = kept (failed_system eaddrinuse)
probed calls metadata (err error) =
    if error == einprogress || error == eagain || error == ealready
    then kept (failed_system eaddrinuse)
    else if error == enoent
    then kept succeeded
    else if not (error == econnrefused)
    then kept (failed_system error)
    else seen_again calls metadata calls.again

unfoldable pub probe_tried :
    StaleCalls
    → FileInfo
    → Option (Result ℕ (Unit {0}) × List (Result ℕ (Unit {0})))
    → Option Removal
unfolding probed
probe_tried calls metadata none = none
probe_tried calls metadata (some (answer, rest)) = some (probed calls metadata answer)

unfoldable pub probe_made : StaleCalls → FileInfo → Result ℕ (Unit {0}) → Option Removal
unfolding probe_tried
probe_made calls metadata (err error) = some (kept (failed_system error))
probe_made calls metadata (ok u) = probe_tried calls metadata (retried calls.connects)

unfoldable pub stale_found : Bytes → StaleCalls → Result ℕ FileInfo → Option Removal
unfolding probe_made make_address
stale_found path calls (err error) = some (absent error)
stale_found path calls (ok metadata) =
    if not metadata.is_socket
    then some (kept (failed_system eexist))
    else elim (make_address path) [
      | err status ↦ some (kept status)
      | ok address ↦ probe_made calls metadata calls.probe
    ]

unfoldable pub remove_stale_socket : Bytes → StaleCalls → Option Removal
unfolding stale_found
remove_stale_socket path calls = stale_found path calls calls.found
