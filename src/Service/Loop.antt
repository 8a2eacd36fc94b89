-- ===== src/Service/Loop.antt =====
-- `AuthorizationService` (service/service.h, service.cpp): the frames of a connection, and serving one
-- client to its end.
pub mod Reading
pub mod Serving
use yo_authorize.Service.Config.Document.{load_config}
use yo_authorize.Prelude.{
  ◌++◌, Option, ℕ, Bytes, Bool, Result, some, true, if◌then◌else◌, err, ◌+◌, ◌||◌, false, none,
  List, map_err, ◌>>=◌, not, ok, ◌*◌, ◌∷◌, ◌==◌, [], ltb, or_fail, suc, codes, ◌/◌, ◌%◌, zero,
}
use yo_authorize.Files.{FileCalls, FileStat, read_all}
use yo_authorize.Core.License.{TrustedKeys, LicenseSnapshot, validate, max_license_size}
use yo_authorize.Core.License.Buffers.{LicenseBuffers}
use yo_authorize.Core.MachineIdentity.{MachineIdentity, ReadResult, collect_linux_machine_identity}
use yo_authorize.Core.Session.{SessionManager, empty_manager}
use yo_authorize.Protocol.Frame.{
  decode_header, frame_header_size, default_max_payload_size, FrameDecoded, FrameError,
}
use yo_authorize.Service.ServiceError
use yo_authorize.Service.ServiceError.{ServiceError, transport, license_file, invalid_license}
use yo_authorize.Transport
use yo_authorize.Transport.{Transport, Status, Deadline, is_success}
use yo_authorize.Transport.UnixSocket.{PeerCredentials}
use yo_authorize.Service.Config.{Toml, ServiceConfig, ConfigError, contains_id}
use yo_authorize.Service.KeyStore.{LoadedKeys, KeyStoreError, load_keys}
use yo_authorize.Service.Connection.{
  Connection, ConnectionResult, Outcome, Draws, new_connection, established, close_session, State,
}
use yo_authorize.Service.Connection.Handling.{handle}
use yo_authorize.OpenSsl.{OpenSsl}
use yo_authorize.Prelude.Words.{u32}
use yo_authorize.Protocol.Envelope.{EnvelopeBuffers}
use yo_authorize.Core.Status.{ErrorCode}

-- A point of the steady clock, so many milliseconds later.
abbrev pub deadline_after : ℕ → ℕ → Deadline
deadline_after now milliseconds = some (now + milliseconds * 1000000)

module _ {S : Type 0} (t : Transport S) where
  unfoldable pub payload_read :
      Bytes → Option (Status × Bytes × S) → Option (Result ServiceError Bytes × S)
  payload_read header none = none
  payload_read header (some (status, payload, s)) =
      if is_success status then some (ok (header ++ payload), s) else some (err transport, s)

  unfoldable pub header_decoded :
      Deadline → Bytes → Result FrameError FrameDecoded → S → Option (Result ServiceError Bytes × S)
  unfolding payload_read
  header_decoded deadline header (err e) s = some (err transport, s)
  header_decoded deadline header (ok decoded) s =
      payload_read header (t.read_exact deadline decoded.header.payload_size s)

  unfoldable pub header_read :
      Deadline → Option (Status × Bytes × S) → Option (Result ServiceError Bytes × S)
  unfolding header_decoded
  header_read deadline none = none
  header_read deadline (some (status, header, s)) =
      if is_success status
      then header_decoded deadline header (decode_header header default_max_payload_size) s
      else some (err transport, s)

  unfoldable pub read_frame : Deadline → S → Option (Result ServiceError Bytes × S)
  unfolding header_read
  read_frame deadline s = header_read deadline (t.read_exact deadline frame_header_size s)

-- The clocks and the random generator as one round of `serve` reads them.
pub record Moment : Type 0 where
  pub read_now : ℕ
  pub monotonic_ms : ℕ
  pub unix_seconds : ℕ
  pub write_now : ℕ
  pub draws : Draws

-- What `serve` returns, with its connection destroyed.
pub record Served (S : Type 0) : Type 0 where
  pub error : Option ServiceError
  pub sessions : SessionManager
  pub client : S

-- `AuthorizationService` but for its listener.
pub record AuthorizationService : Type 0 where
  pub config : ServiceConfig
  pub keys : LoadedKeys
  pub license : LicenseSnapshot
  pub sessions : SessionManager

abbrev pub is_closed : Connection → Bool
is_closed c = elim (c.state) [ State.closed ↦ true | _ ↦ false ]

module _ (o : OpenSsl) (fb : EnvelopeBuffers) {S : Type 0} (t : Transport S)
    (config : ServiceConfig) where
  -- The return, by which the connection is destroyed and gives its session back.
  unfoldable pub returned : Option ServiceError → Connection → SessionManager → S → Served S
  returned error c m s = record { error = error; sessions = (close_session c m).1; client = s }

  -- The end of the loop, where the client is closed.
  abbrev finished : Connection → SessionManager → S → Served S
  finished c m s = returned none c m (t.close s)

  unfoldable pub response_written :
      (Connection → SessionManager → S → Option (Served S))
      → Outcome
      → Option (Status × S)
      → Option (Served S)
  response_written continue out none = none
  response_written continue out (some (status, s)) =
      if not (is_success status)
      then some (returned (some transport) out.connection out.sessions s)
      else if out.result.closed
      then some (finished out.connection out.sessions s)
      else continue out.connection out.sessions s

  unfoldable pub frame_handled :
      (Connection → SessionManager → S → Option (Served S))
      → Moment
      → S
      → Option Outcome
      → Option (Served S)
  unfolding response_written
  frame_handled continue now s none = none
  frame_handled continue now s (some out) = elim (out.result.response) [
    | none ↦
        if out.result.closed
        then some (finished out.connection out.sessions s)
        else continue out.connection out.sessions s
    | some bytes ↦
        response_written continue out
          (t.write_all (deadline_after now.write_now config.io_timeout_ms) bytes s)
  ]

  unfoldable pub frame_read :
      (Connection → SessionManager → S → Option (Served S))
      → Moment
      → Connection
      → SessionManager
      → Option (Result ServiceError Bytes × S)
      → Option (Served S)
  unfolding frame_handled
  frame_read continue now c m none = none
  frame_read continue now c m (some (err e, s)) = some (returned (some e) c m s)
  frame_read continue now c m (some (ok frame, s)) =
      frame_handled continue now s
        (handle o fb c m frame now.monotonic_ms now.unix_seconds now.draws)

  abbrev idle_time : Connection → ℕ
  idle_time c = if established c then config.idle_timeout_ms else config.handshake_timeout_ms

  -- `none` where the moments end before the loop does, or a call has no result.
  unfoldable pub serve_loop : List Moment → Connection → SessionManager → S → Option (Served S)
  unfolding frame_read
  serve_loop [] c m s = if is_closed c then some (finished c m s) else none
  serve_loop (now ∷ moments) c m s =
      if is_closed c
      then some (finished c m s)
      else frame_read (serve_loop moments) now c m
          (read_frame t (deadline_after now.read_now (idle_time c)) s)

module _ (o : OpenSsl) (fb : EnvelopeBuffers) {S : Type 0} (t : Transport S) where
  unfoldable pub serve : List Moment → AuthorizationService → Bytes → S → Option (Served S)
  unfolding serve_loop
  serve moments service peer_identity s =
      serve_loop o fb t service.config moments
        (new_connection service.keys.identity_key_id service.keys.identity_private_key
          service.license peer_identity service.config.heartbeat_interval_ms
          service.config.heartbeat_timeout_ms)
        service.sessions s
