-- ===== src/Service/Running.antt =====
-- `AuthorizationService::run` (service/service.cpp): one client after the other.
pub mod Visits
pub mod Admitted
use yo_authorize.Service.Config.Document.{load_config}
use yo_authorize.Prelude.{
  ◌++◌, Option, ℕ, Bytes, Bool, Result, some, true, if◌then◌else◌, err, ◌+◌, ◌||◌, false, none,
  List, map_err, ◌>>=◌, not, ok, ◌*◌, ◌∷◌, ◌==◌, [], ltb, or_fail, suc, codes, ◌/◌, ◌%◌, zero,
}
use yo_authorize.Files.{FileCalls, FileStat, read_all}
use yo_authorize.Core.License.{TrustedKeys, LicenseSnapshot, validate, max_license_size}
use yo_authorize.Core.License.Buffers.{LicenseBuffers}
use yo_authorize.Core.MachineIdentity.{MachineIdentity, ReadResult, collect_linux_machine_identity}
use yo_authorize.Core.Session.{SessionManager, empty_manager}
use yo_authorize.Protocol.Frame.{
  decode_header, frame_header_size, default_max_payload_size, FrameDecoded, FrameError,
}
use yo_authorize.Service.ServiceError
use yo_authorize.Service.ServiceError.{ServiceError, transport, license_file, invalid_license}
use yo_authorize.Transport
use yo_authorize.Transport.{Transport, Status, Deadline, is_success}
use yo_authorize.Transport.UnixSocket.{PeerCredentials}
use yo_authorize.Service.Config.{Toml, ServiceConfig, ConfigError, contains_id}
use yo_authorize.Service.KeyStore.{LoadedKeys, KeyStoreError, load_keys}
use yo_authorize.Service.Connection.{
  Connection, ConnectionResult, Outcome, Draws, new_connection, established, close_session, State,
}
use yo_authorize.Service.Connection.Handling.{handle}
use yo_authorize.OpenSsl.{OpenSsl}
use yo_authorize.Prelude.Words.{u32}
use yo_authorize.Protocol.Envelope.{EnvelopeBuffers}
use yo_authorize.Core.Status.{ErrorCode}
use yo_authorize.Transport.{StatusCode, timeout}
use yo_authorize.Service.Loop.{serve, Served, Moment, AuthorizationService}

-- The decimal digits of a number; the fuel is more than there are digits.
unfoldable pub digits_of : ℕ → ℕ → Bytes → Bytes
digits_of zero n rest = rest
digits_of (suc fuel) n rest =
    let more = digits_of fuel (n / 10) ((48 + n % 10) ∷ rest) in
    if ltb n 10 then (48 + n) ∷ rest else more

-- `std::to_string`
abbrev pub to_string : ℕ → Bytes
to_string n = digits_of (n + 1) n []

unfoldable pub peer_identity_of : PeerCredentials → Bytes
unfolding digits_of
peer_identity_of peer =
    codes "uid="
    ++ (to_string peer.uid
        ++ (codes ";gid=" ++ (to_string peer.gid ++ (codes ";pid=" ++ to_string peer.pid))))

unfoldable pub peer_allowed : ServiceConfig → PeerCredentials → Bool
peer_allowed config peer =
    contains_id (u32 peer.uid) config.allowed_uids || contains_id (u32 peer.gid) config.allowed_gids

-- One round of `run`: whether a stop is requested at its start, what `accept` returns, whether a
-- stop is requested after it failed, the peer's credentials, and the rounds of `serve`.
pub record Arrival (S : Type 0) : Type 0 where
  pub stop : Bool
  pub accepted : Result Status S
  pub stop_after : Bool
  pub peer : Result Status PeerCredentials
  pub moments : List Moment

-- `run` has returned, or waits for the next client.
pub data Running : Type 0 where
  ended : Option ServiceError → AuthorizationService → Running
  running : AuthorizationService → Running

abbrev is_timeout : Status → Bool
is_timeout status = elim (status.code) [ timeout ↦ true | _ ↦ false ]

module _ (o : OpenSsl) (fb : EnvelopeBuffers) {S : Type 0} (t : Transport S) where
  unfoldable pub client_served :
      (AuthorizationService → Option Running)
      → AuthorizationService
      → Option (Served S)
      → Option Running
  client_served continue service none = none
  client_served continue service (some served) =
      continue (record service { sessions = served.sessions })

  -- A peer that may not use the service is closed at once.
  unfoldable pub peer_checked :
      (AuthorizationService → Option Running)
      → AuthorizationService
      → Arrival S
      → S
      → Result Status PeerCredentials
      → Option Running
  unfolding client_served serve peer_allowed peer_identity_of
  peer_checked continue service arrival s (err status) = continue service
  peer_checked continue service arrival s (ok peer) =
      if not (peer_allowed service.config peer)
      then continue service
      else client_served continue service
          (serve o fb t arrival.moments service (peer_identity_of peer) s)

  unfoldable pub client_accepted :
      (AuthorizationService → Option Running)
      → AuthorizationService
      → Arrival S
      → Result Status S
      → Option Running
  unfolding peer_checked
  client_accepted continue service arrival (err status) =
      if is_timeout status
      then continue service
      else if arrival.stop_after
      then some (ended none service)
      else some (ended (some transport) service)
  client_accepted continue service arrival (ok s) =
      peer_checked continue service arrival s arrival.peer

  unfoldable pub run_loop : List (Arrival S) → AuthorizationService → Option Running
  unfolding client_accepted
  run_loop [] service = some (running service)
  run_loop (arrival ∷ arrivals) service =
      if arrival.stop
      then some (ended none service)
      else client_accepted (run_loop arrivals) service arrival arrival.accepted

  -- Whether the listener listens, and the clients that arrive.
  unfoldable pub run : Bool → List (Arrival S) → AuthorizationService → Option Running
  unfolding run_loop
  run listening arrivals service =
      if listening
      then run_loop arrivals service
      else some (ended (some ServiceError.listen) service)
