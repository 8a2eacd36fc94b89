-- ===== src/Examples/Connections.antt =====
-- A connection that is refused, and one that is granted a session.
use yo_authorize.Tables
use yo_authorize.Tables.{find, IsTable}
use yo_authorize.Core.License.{permanent, unbound, LicenseSnapshot}
use yo_authorize.Protocol.Handshake.{established}
use yo_authorize.Core.Session
use yo_authorize.Service.Connection.{
  active, closed, invalid_frame, Draws, Connection, Outcome, new_connection, awaiting_authorize,
  with_state, close_session, encrypted_response, response_sealed, wrap_plaintext, released,
}
use yo_authorize.Service.Connection.Authorize.{
  answered, handle_authorize, authorize_decoded, decide, session_created, result_encoded,
}
use yo_authorize.Service.Connection.Handling.{
  handle, handle_in, handle_hello, record_opened, hello_decoded,
}
use yo_authorize.Service.Connection.Invariant.{IsOutcome, handle-IsOutcome}
use yo_authorize.Protocol.Record.{
  RecordKey, seal, RecordError, sealed, seal_header, open_record, open_decoded, opened,
}
use yo_authorize.Protocol.Messages.{
  AuthorizeMessage, decode_body, decode_envelope, typed_body, checked_envelope, finish,
}
use yo_authorize.Prelude.{
  Result, Option, codes, none, zeros, some, [], true, Bytes, ◌∷◌, ok, err, refl, ◌≡◌, bytes_eq,
  arith,
}
use yo_authorize.Service.Connection.Admission.{Admission, handle-Admission}
use yo_authorize.Protocol.Handshake.Server.{
  new_server, open_server, opened_by, seal_server, sealed_by,
}
use yo_authorize.Examples.Ciphers.{toy, fit, tag_of}
use yo_authorize.Examples.Buffers.{buffers, buffers-IsEnvelopeBuffers}
use yo_authorize.Core.Session.{empty_manager, create, draw_id, add_session, Session, SessionManager}
use yo_authorize.Protocol.Frame.{
  encode_header, decode_frame, decode_header, check_header, read_header,
}
use yo_authorize.Crypto.{seal_chacha20_poly1305, sealed_bytes, open_chacha20_poly1305, random_bytes}
use yo_authorize.Crypto.Transcript.{make_record_nonce}
use yo_authorize.Protocol.Messages.Application.{
  authorize_envelope, decode_authorize, as_authorize, read_authorize, encode_auth_result,
}
use yo_authorize.Prelude.Words.{read_word}
use yo_authorize.Protocol.Envelope.{verify_envelope}
use yo_authorize.Service.Connection.Fault.{absent_hello, handle-absent_hello}
use yo_authorize.Service.Connection.Release.{handle-released}

abbrev blank_license : LicenseSnapshot
blank_license = record {
  license_id = codes "L-1";
  product_id = codes "app";
  customer_id = [];
  issue_time = 10;
  not_before = 100;
  expire_time = 0;
  type = permanent;
  features = codes "pro" ∷ [];
  max_sessions = 1;
  machine_mode = unbound;
  machine_id = [];
}

abbrev nothing_drawn : Draws
nothing_drawn = record { nonce = none; key = none; ids = [] }

abbrev fresh : Connection
fresh = new_connection (codes "main") (zeros 32) blank_license (codes "peer") 1000 3000

abbrev refused : Outcome
refused = record {
  result = record { error = invalid_frame; response = none; closed = true };
  connection = with_state closed fresh;
  sessions = empty_manager;
}

handle_refuses : handle toy buffers fresh empty_manager [] 0 0 nothing_drawn ≡ some refused
unfolding handle handle_in handle_hello hello_decoded decode_frame decode_header
handle_refuses = refl

handle-IsOutcome_example : IsOutcome refused
handle-IsOutcome_example =
    handle-IsOutcome toy buffers fresh empty_manager [] 0 0 nothing_drawn (record { holds = refl })
      handle_refuses

-- The keys of an established connection, and the record of an authorize message.
abbrev key : RecordKey
key = record { key = zeros 32; nonce_salt = codes "salt" }

abbrev request : AuthorizeMessage
request = record {
  request_id = 6;
  protocol_version = 1;
  product_id = codes "app";
  process_id = 77;
  process_start_time = 0;
}

abbrev waiting : Connection
waiting = record fresh {
  handshake = record (new_server (codes "main") (zeros 32) 1 1) {
    selected_version = 1;
    writer = some (record { key = key; next_sequence = 1 });
    reader = some (record { key = key; next_sequence = 1 });
    state = established;
  };
  state = awaiting_authorize;
}

abbrev bytes_of : {W : Type 0} → Result RecordError Bytes × W → Bytes
bytes_of (ok bytes, w) = bytes
bytes_of (err e, w) = []

frame : Bytes
unfolding seal sealed seal_header encode_header seal_chacha20_poly1305 sealed_bytes
    make_record_nonce toy fit tag_of
frame = bytes_of (
    seal toy (record { key = key; next_sequence = 1 }) (buffers.build (authorize_envelope request)))

abbrev id_drawn : Draws
id_drawn = record { nonce = none; key = none; ids = some (zeros 16) ∷ [] }

abbrev reached : Option Outcome → Outcome
reached none = refused
reached (some out) = out

granted : Outcome
unfolding frame handle handle_in record_opened open_server opened_by open_record open_decoded opened
    decode_frame decode_header check_header read_header read_word bytes_eq open_chacha20_poly1305
    handle_authorize authorize_decoded decode_authorize decode_body decode_envelope typed_body
    checked_envelope verify_envelope as_authorize read_authorize decide session_created create
    draw_id add_session Session.active random_bytes empty_manager answered result_encoded
    encode_auth_result finish encrypted_response response_sealed seal_server sealed_by seal sealed
    seal_header encode_header seal_chacha20_poly1305 sealed_bytes make_record_nonce toy fit tag_of
    find
granted = reached (handle toy buffers waiting empty_manager frame 500 500 id_drawn)

handle_grants : handle toy buffers waiting empty_manager frame 500 500 id_drawn ≡ some granted
unfolding granted frame handle handle_in record_opened open_server opened_by open_record
    open_decoded opened decode_frame decode_header check_header read_header read_word bytes_eq
    open_chacha20_poly1305 handle_authorize authorize_decoded decode_authorize decode_body
    decode_envelope typed_body checked_envelope verify_envelope as_authorize read_authorize decide
    session_created create draw_id add_session Session.active random_bytes empty_manager answered
    result_encoded encode_auth_result finish encrypted_response response_sealed seal_server
    sealed_by seal sealed seal_header encode_header seal_chacha20_poly1305 sealed_bytes
    make_record_nonce toy fit tag_of find
handle_grants = refl

granted_active : granted.connection.state ≡ active
unfolding granted frame handle handle_in record_opened open_server opened_by open_record
    open_decoded opened decode_frame decode_header check_header read_header read_word bytes_eq
    open_chacha20_poly1305 handle_authorize authorize_decoded decode_authorize decode_body
    decode_envelope typed_body checked_envelope verify_envelope as_authorize read_authorize decide
    session_created create draw_id add_session Session.active random_bytes empty_manager answered
    result_encoded encode_auth_result finish encrypted_response response_sealed seal_server
    sealed_by seal sealed seal_header encode_header seal_chacha20_poly1305 sealed_bytes
    make_record_nonce toy fit tag_of find
granted_active = refl

handle-Admission_example :
    Admission toy buffers waiting empty_manager frame 500 500 id_drawn granted
handle-Admission_example =
    handle-Admission toy buffers waiting empty_manager frame 500 500 id_drawn (λ e. cc)
      handle_grants granted_active

handle-absent_hello_example :
    handle toy buffers fresh empty_manager
      (wrap_plaintext (absent_hello buffers 5))
      0
      0
      nothing_drawn
    ≡ none
handle-absent_hello_example =
    handle-absent_hello toy buffers buffers-IsEnvelopeBuffers fresh empty_manager 5 0 0
      nothing_drawn refl refl (omega arith) (omega arith)

abbrev held_session : Session
held_session = record {
  id = zeros 16;
  product_id = codes "app";
  peer_identity = codes "peer";
  features = [];
  expire_time = 0;
  last_heartbeat_ms = 0;
}

abbrev holding : Connection
holding = record fresh { session = some held_session; state = active }

abbrev pub one_session : SessionManager
one_session = record { sessions = (zeros 16, held_session) ∷ [] }

one_session-IsTable : IsTable one_session.sessions
unfolding find
one_session-IsTable = (refl, tt)

abbrev closing : Outcome
closing = record {
  result = record { error = invalid_frame; response = none; closed = true };
  connection = record holding { session = none; state = closed };
  sessions = empty_manager;
}

handle_closes : handle toy buffers holding one_session [] 0 0 nothing_drawn ≡ some closing
unfolding handle handle_in record_opened open_server close_session released Session.close
    Tables.erase bytes_eq empty_manager
handle_closes = refl

handle-released_example : Tables.find (zeros 16) empty_manager.sessions ≡ none
handle-released_example =
    handle-released toy buffers held_session holding one_session [] 0 0 nothing_drawn
      one_session-IsTable refl refl handle_closes refl
