-- ===== src/Sdk/Client.antt =====
-- `LicenseClient` (sdk/client.h, client.cpp): its state, its snapshot, and the frames that it exchanges.
-- The mutexes make each call and each access to the snapshot one step.
pub mod Initializing
pub mod Beating
pub mod Closing
pub mod Runs
pub mod Invariant
pub mod Trust
pub mod Ended
use yo_authorize.Service.Config.{contains_key}
use yo_authorize.Prelude.{
  Result, Option, ok, err, some, none, true, false, Bool, ℕ, Bytes, ◌++◌, ◌+◌, length, [],
  if◌then◌else◌, codes, ◌==◌, ◌*◌, not, ◌&&◌, zeros, ◌||◌, or_fail, empty, ltb,
}
use yo_authorize.Prelude.Words.{u32}
use yo_authorize.OpenSsl.{OpenSsl}
use yo_authorize.Tables.{Table}
use yo_authorize.Protocol.AuthorizationError
use yo_authorize.Protocol.Frame.{
  encode_header, frame_version, frame_header_size, decode_header, decode_frame,
  default_max_payload_size, FrameDecoded, FrameError,
}
use yo_authorize.Protocol.Envelope.{EnvelopeBuffers}
use yo_authorize.Protocol.Handshake.{HandshakeError}
use yo_authorize.Protocol.Handshake.Client.{
  ClientHandshake, new_client, start, handle_server_hello, seal_client, open_client,
}
use yo_authorize.Protocol.Messages.{AuthResultMessage, MessageError}
use yo_authorize.Protocol.Messages.Application.{encode_authorize, decode_auth_result}
use yo_authorize.Transport.{Transport, Deadline, is_success}
use yo_authorize.Transport
use yo_authorize.Sdk.Status.{ClientState, ClientError, Failure, LicenseSnapshot}
use yo_authorize.Sdk.Steps.{Step, ◌>>=◌, ◌>>◌, require, lift, failing_as}

-- A timeout that is not positive is 0.
pub record ClientConfig : Type 0 where
  pub product_id : Bytes
  pub endpoint : Bytes
  pub trusted_service_keys : Table Bytes
  pub connect_timeout_ms : ℕ
  pub io_timeout_ms : ℕ

abbrev pub failure : ClientError → Bytes → Failure
failure error message = record { error = error; message = message }

abbrev pub deadline_after : ℕ → ℕ → Deadline
deadline_after now timeout_ms = some (now + timeout_ms * 1000000)

unfoldable pub wrap_plaintext : Bytes → Bytes
wrap_plaintext payload =
    encode_header (record {
      version = frame_version;
      flags = 0;
      sequence = 0;
      payload_size = u32 (length payload);
    })
    ++ payload

unfoldable pub plaintext_of : Result FrameError FrameDecoded → Bytes
plaintext_of (err e) = []
plaintext_of (ok decoded) =
    if not (decoded.header.flags == 0) || not (decoded.header.sequence == 0)
    then []
    else decoded.payload

unfoldable pub unwrap_plaintext : Bytes → Bytes
unfolding plaintext_of
unwrap_plaintext frame = plaintext_of (decode_frame frame default_max_payload_size)

-- The transport is in the result as the call leaves it, whether or not the call fails.
module _ {S : Type 0} (t : Transport S) where
  unfoldable pub frame_written :
      Option (Transport.Status × S) → Option (Result Failure (Unit {0}) × S)
  frame_written none = none
  frame_written (some (status, s)) =
      if is_success status
      then some (ok tt, s)
      else some (err (failure ClientError.transport (codes "failed to write service frame")), s)

  unfoldable pub write_frame : Bytes → Deadline → S → Option (Result Failure (Unit {0}) × S)
  unfolding frame_written
  write_frame frame deadline s = frame_written (t.write_all deadline frame s)

  unfoldable pub payload_read :
      Bytes → Option (Transport.Status × Bytes × S) → Option (Result Failure Bytes × S)
  payload_read header none = none
  payload_read header (some (status, payload, s)) =
      if is_success status
      then some (ok (header ++ payload), s)
      else some (err (failure ClientError.transport (codes "failed to read service payload")), s)

  unfoldable pub header_decoded :
      Deadline → Bytes → Result FrameError FrameDecoded → S → Option (Result Failure Bytes × S)
  unfolding payload_read
  header_decoded deadline header (err e) s =
      some (err (failure ClientError.protocol (codes "service sent an invalid frame")), s)
  header_decoded deadline header (ok decoded) s =
      payload_read header (t.read_exact deadline decoded.header.payload_size s)

  unfoldable pub header_read :
      Deadline → Option (Transport.Status × Bytes × S) → Option (Result Failure Bytes × S)
  unfolding header_decoded
  header_read deadline none = none
  header_read deadline (some (status, header, s)) =
      if is_success status
      then header_decoded deadline header (decode_header header default_max_payload_size) s
      else some (err (failure ClientError.transport (codes "failed to read service frame")), s)

  -- The two deadlines are read from the clock one after the other.
  unfoldable pub read_frame : Deadline → Deadline → S → Option (Result Failure Bytes × S)
  unfolding header_read
  read_frame header_deadline payload_deadline s =
      header_read payload_deadline (t.read_exact header_deadline frame_header_size s)

-- `LicenseClient::Impl`; of `config_` only the timeout is read. `beating` says whether the thread of
-- the heartbeats runs.
pub record LicenseClient (S : Type 0) : Type 0 where
  pub snapshot : LicenseSnapshot
  pub io_timeout_ms : ℕ
  pub session_id : Bytes
  pub heartbeat_interval_ms : ℕ
  pub next_request_id : ℕ
  pub stop_requested : Bool
  pub transport : Option S
  pub handshake : Option ClientHandshake
  pub beating : Bool

abbrev pub new_license_client : {S : Type 0} → LicenseClient S
new_license_client = record {
  snapshot = record { state = ClientState.uninitialized; features = []; expire_time = 0 };
  io_timeout_ms = 5000;
  session_id = zeros 16;
  heartbeat_interval_ms = 0;
  next_request_id = 3;
  stop_requested = false;
  transport = none;
  handshake = none;
  beating = false;
}

-- The snapshot in another state, with no features.
abbrev pub without_features : ClientState → LicenseSnapshot → LicenseSnapshot
without_features state snapshot = record snapshot { state = state; features = [] }

abbrev pub is_valid : ClientState → Bool
is_valid state = elim state [ ClientState.valid ↦ true | _ ↦ false ]

unfoldable pub has_feature : {S : Type 0} → Bytes → LicenseClient S → Bool
has_feature feature c = is_valid c.snapshot.state && contains_key feature c.snapshot.features
