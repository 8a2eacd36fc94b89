-- ===== src/Examples/Services.antt =====
-- A service that is made from a configuration, and the clients of it.
use yo_authorize.Service.Creation.{Surroundings}
use yo_authorize.Examples.Transports.{finished, sending, short_frame}
use yo_authorize.Transport.UnixSocket.{
  UnixSocketTransport, close, unix_transport, read_exact, read_operated, read_ended, read_loop,
  read_waited, received, operation_fd, duplicated,
}
use yo_authorize.Service.Loop.{
  AuthorizationService, Moment, Served, serve, serve_loop, frame_read, frame_handled, returned,
  read_frame, header_read, header_decoded, payload_read,
}
use yo_authorize.Service.Connection.{wrap_plaintext, close_session}
use yo_authorize.Core.MachineIdentity.{success}
use yo_authorize.Examples.Configurations.{Node, document_node, config}
use Prim.Native.Nat.{ℕ}
use mathlib.Core.Option
use yo_authorize.Prelude.{
  Bytes, true, codes, none, ◌≡◌, List, ok, zeros, [], some, false, ◌∷◌, bytes_eq, refl,
}
use yo_authorize.Core.License.Buffers.{LicenseBuffers}
use yo_authorize.Examples.Connections.{one_session}
use yo_authorize.Service.Connection.Handling.{
  hello_answered, handle, handle_in, handle_hello, hello_decoded,
}
use yo_authorize.Service.Running.{Arrival}
use yo_authorize.Transport.UnixSocket.{PeerCredentials}
use yo_authorize.Files.{FileCalls}
use yo_authorize.Examples.Licenses.{license_buffers, license_payload, trusted, snapshot}
use yo_authorize.Examples.Ciphers.{toy}
use yo_authorize.Service.Loop.Serving.{serve-sessions}
use yo_authorize.Examples.Buffers.{buffers}
use yo_authorize.Service.Running.Visits.{client}
use yo_authorize.Core.License.{unbound}
use yo_authorize.Protocol.Messages.Hello.{decode_client_hello}
use yo_authorize.Core.Session.{empty_manager}
use yo_authorize.Protocol.Messages.{decode_body, decode_envelope, typed_body, checked_envelope}
use yo_authorize.Protocol.Envelope.{verify_envelope}
use yo_authorize.Service.Config.{default_config}
use yo_authorize.Protocol.Frame.{
  encode_header, decode_frame, decode_header, check_header, read_header,
}
use yo_authorize.Transport.Polling.{retried, wait_for, wait_answered, timeout_milliseconds}
use yo_authorize.Prelude.Words.{read_word}
use yo_authorize.Protocol.Handshake.Server.{handle_client_hello}

-- Every path holds a key file.
abbrev key_file : Bytes → FileCalls
key_file path = record {
  opened = ok tt;
  stat = some (record { is_regular = true; mode = 256; size = 32 });
  reads = ok (zeros 20) ∷ ok (zeros 12) ∷ [];
}

abbrev surroundings : Surroundings Node
surroundings = record {
  is_regular = true;
  parsed = ok document_node;
  key_files = key_file;
  machine_files = λ path. some (success (codes "0123456789abcdef0123456789abcdef"));
  license_file = record {
    opened = ok tt;
    stat = some (record { is_regular = true; mode = 256; size = 8 });
    reads = ok (zeros 8) ∷ [];
  };
  now = 150;
}

abbrev pub buffers_of_any : LicenseBuffers
buffers_of_any = record license_buffers {
  get_payload = λ bytes. record license_payload {
    machine_policy = some (record { mode = 0; machine_id = none });
  };
}

abbrev authorization_service : AuthorizationService
authorization_service = record {
  config = config;
  keys = record {
    identity_key_id = codes "main";
    identity_private_key = zeros 32;
    license_public_keys = trusted;
  };
  license = record snapshot { machine_mode = unbound; machine_id = [] };
  sessions = empty_manager;
}

-- A client whose first frame is no hello, while another holds a session.
abbrev busy : AuthorizationService
busy = record authorization_service { sessions = one_session }

abbrev moment : Moment
moment = record {
  read_now = 0;
  monotonic_ms = 0;
  unix_seconds = 150;
  write_now = 0;
  draws = record { nonce = none; key = none; ids = [] };
}

abbrev served : Served UnixSocketTransport
served = record { error = none; sessions = one_session; client = close finished }

serve_lem :
    serve toy buffers unix_transport (moment ∷ []) busy (codes "peer") (sending short_frame)
    ≡ some served
unfolding hello_answered handle_client_hello serve serve_loop frame_read frame_handled returned
    handle handle_in handle_hello hello_decoded decode_client_hello decode_body decode_envelope
    typed_body checked_envelope verify_envelope close_session default_config empty_manager
    short_frame wrap_plaintext encode_header read_frame header_read header_decoded payload_read
    unix_transport read_exact read_operated read_ended read_loop read_waited received operation_fd
    duplicated retried wait_for wait_answered timeout_milliseconds decode_frame decode_header
    check_header read_header read_word bytes_eq close
serve_lem = refl

serve-sessions_example : served.sessions.sessions ≡ busy.sessions.sessions
serve-sessions_example =
    serve-sessions toy buffers unix_transport (moment ∷ []) busy (codes "peer")
      (sending short_frame) serve_lem

abbrev arriving : ℕ → Arrival UnixSocketTransport
arriving uid = record {
  stop = false;
  accepted = ok (sending short_frame);
  stop_after = false;
  peer = ok (record { pid = 7; uid = uid; gid = 5 });
  moments = moment ∷ [];
}

abbrev arrivals : List (Arrival UnixSocketTransport)
arrivals = arriving 4 ∷ arriving 1000 ∷ arriving 5 ∷ []

abbrev visitor : PeerCredentials
visitor = record { pid = 7; uid = 1000; gid = 5 }
