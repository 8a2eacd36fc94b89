-- ===== src/Examples/Clients.antt =====
-- A client that loses its service and is shut down, and an authorization without a service.
use yo_authorize.Sdk.Client.Invariant.{IsClient, run_calls-IsClient}
use yo_authorize.Sdk.Client.Initializing.{Surroundings, initialize}
use yo_authorize.Sdk.Client.{
  ClientConfig, LicenseClient, new_license_client, write_frame, frame_written,
}
use yo_authorize.Protocol.Handshake.Client.{ClientHandshake, new_client, seal_client, sealed_by}
use yo_authorize.Transport.UnixSocket.{UnixSocketTransport, unix_transport, write_all}
use yo_authorize.Sdk.Status.{ClientState}
use yo_authorize.Sdk.Status
use yo_authorize.Core.MachineIdentity.{success, ReadResult}
use yo_authorize.Sdk.LocalAuthorizer.{LocalAuthorizationConfig}
use yo_authorize.Protocol.Record.{RecordKey, seal, sealed, seal_header}
use yo_authorize.Prelude.{
  [], ◌∷◌, codes, none, List, ◌≡◌, Bytes, zeros, some, true, ok, Option, refl, ◌∷◌, false, err,
}
use yo_authorize.Sdk.Client.Runs.{run_calls, called, Call, initializes, beats, shuts_down}
use yo_authorize.Sdk.Client.Beating.{
  Beat, heartbeat, heartbeat_over, heartbeat_encoded, heartbeat_sealed, heartbeat_written,
  heartbeat_failed,
}
use yo_authorize.Files.{FileCalls}
use yo_authorize.Sdk.Client.Ended.{run_calls-closed}
use yo_authorize.Examples.Ciphers.{toy, fit, tag_of}
use yo_authorize.Protocol.Handshake.{established}
use yo_authorize.Examples.Buffers.{buffers}
use yo_authorize.Sdk.Client.Closing.{
  shutdown, shutdown_over, session_closed, close_encoded, close_sealed, close_written,
  transport_closed, closed_client,
}
use yo_authorize.Protocol.Messages.Application.{encode_heartbeat, encode_close_session}
use yo_authorize.Protocol.Messages.{finish}
use yo_authorize.Protocol.Frame.{encode_header}
use yo_authorize.Crypto.{seal_chacha20_poly1305, sealed_bytes}
use yo_authorize.Crypto.Transcript.{make_record_nonce}

abbrev key : RecordKey
key = record { key = zeros 32; nonce_salt = codes "salt" }

abbrev keyed_handshake : ClientHandshake
keyed_handshake = record (new_client [] (codes "sdk") 1 1 1) {
  selected_version = 1;
  writer = some (record { key = key; next_sequence = 2 });
  reader = some (record { key = key; next_sequence = 2 });
  state = established;
}

-- The descriptor of the transport has been taken away.
abbrev authorized_client : LicenseClient UnixSocketTransport
authorized_client = record new_license_client {
  snapshot = record { state = ClientState.valid; features = codes "pro" ∷ []; expire_time = 0 };
  heartbeat_interval_ms = 1000;
  transport = some none;
  handshake = some keyed_handshake;
  beating = true;
}

authorized-IsClient : IsClient authorized_client
authorized-IsClient = record {
  beating = refl;
  held = λ e. (none, keyed_handshake, refl, refl);
  bare = λ e. cc;
}

abbrev beat : Beat
beat = record { write_now = 0; header_now = 1; payload_now = 2 }

abbrev lost_client : LicenseClient UnixSocketTransport
lost_client = record authorized_client {
  snapshot = record { state = ClientState.error; features = []; expire_time = 0 };
  next_request_id = 4;
  handshake =
      some (record keyed_handshake { writer = some (record { key = key; next_sequence = 3 }) });
  beating = false;
}

beat_lem :
    run_calls toy buffers unix_transport (beats beat ∷ beats beat ∷ []) authorized_client
    ≡ some lost_client
unfolding run_calls called heartbeat heartbeat_over heartbeat_encoded heartbeat_sealed
    heartbeat_written heartbeat_failed encode_heartbeat finish seal_client sealed_by seal sealed
    seal_header encode_header seal_chacha20_poly1305 sealed_bytes make_record_nonce toy fit tag_of
    write_frame frame_written unix_transport write_all
beat_lem = refl

run_calls-IsClient_example : IsClient lost_client
run_calls-IsClient_example =
    run_calls-IsClient toy buffers unix_transport (beats beat ∷ beats beat ∷ []) authorized_client
      authorized-IsClient beat_lem

abbrev client_config : ClientConfig
client_config = record {
  product_id = codes "app";
  endpoint = codes "/run/license.sock";
  trusted_service_keys = (codes "main", zeros 32) ∷ [];
  connect_timeout_ms = 5000;
  io_timeout_ms = 5000;
}

abbrev unreachable : Surroundings UnixSocketTransport
unreachable = record {
  clock = λ n. n;
  nonce = none;
  key = none;
  process_id = 7;
  dial = λ endpoint deadline. none;
}

abbrev calls_afterwards : List (Call UnixSocketTransport)
calls_afterwards = initializes client_config unreachable ∷ beats beat ∷ []

abbrev ended_client : LicenseClient UnixSocketTransport
ended_client = record authorized_client {
  snapshot = record { state = ClientState.closed; features = []; expire_time = 0 };
  next_request_id = 4;
  stop_requested = true;
  transport = none;
  handshake = none;
  beating = false;
}

ended_lem :
    run_calls toy buffers unix_transport (shuts_down 9 ∷ calls_afterwards) authorized_client
    ≡ some ended_client
unfolding run_calls called heartbeat shutdown shutdown_over session_closed close_encoded
    close_sealed close_written transport_closed closed_client initialize encode_close_session finish
    seal_client sealed_by seal sealed seal_header encode_header seal_chacha20_poly1305 sealed_bytes
    make_record_nonce toy fit tag_of write_frame frame_written unix_transport write_all
ended_lem = refl

run_calls-closed_example :
    (ended_client.snapshot.state ≡ ClientState.closed) × (ended_client.snapshot.features ≡ [])
run_calls-closed_example =
    run_calls-closed toy buffers unix_transport calls_afterwards 9 authorized_client ended_lem

abbrev local_config : LocalAuthorizationConfig
local_config = record {
  product_id = codes "app";
  trusted_license_keys = (codes "main", zeros 32) ∷ [];
  machine_id_path = codes "/etc/machine-id";
  product_uuid_path = codes "/uuid";
  require_machine_id = true;
  require_product_uuid = false;
}

abbrev interrupted_file : FileCalls
interrupted_file = record {
  opened = ok tt;
  stat = some (record { is_regular = true; mode = 256; size = 8 });
  reads = err 4 ∷ ok (zeros 8) ∷ [];
}

abbrev machine : Bytes → Option ReadResult
machine path = some (success (codes "0123456789abcdef0123456789abcdef"))

abbrev local_snapshot : Status.LicenseSnapshot
local_snapshot = record {
  state = ClientState.valid;
  features = codes "pro" ∷ [];
  expire_time = 200;
}
