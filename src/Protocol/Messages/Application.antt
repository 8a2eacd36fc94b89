-- ===== src/Protocol/Messages/Application.antt =====
-- The messages of an established connection, encoded and decoded (messages.cpp).
pub mod RoundTrip
use yo_authorize.Prelude.{
  ℕ, [], ◌∷◌, some, none, ok, err, Option, Bytes, Result, Bool, ◌==◌, ◌>>◌, ◌>>=◌, ◌&&◌,
  if◌then◌else◌, fail_if, not, ◌||◌, empty, is_some, ltb, length,
}
use yo_authorize.FlatBuffers.{str}
use yo_authorize.Protocol.AuthorizationError
use yo_authorize.Protocol.Envelope.{
  EnvelopeBuffers, Body, Envelope, AuthorizeTable, AuthResultTable, heartbeat, HeartbeatAckTable,
  close_session, ErrorTable, authorize, auth_result, heartbeat_ack, error,
}
use yo_authorize.Protocol.Messages.{
  AuthorizeMessage, AuthResultMessage, HeartbeatMessage, HeartbeatAckMessage, CloseSessionMessage,
  ErrorMessage, finish, MessageError, copy_features, decode_body, copy_fixed, application_version,
  features_lost, valid_authorization_state, valid_authorization_error, invalid_field,
  valid_features, max_product_id_size, max_error_message_size, create_features,
}

abbrev session_id_size : ℕ
session_id_size = 16

unfoldable pub as_authorize : Body → Option (Option AuthorizeTable)
as_authorize (authorize body) = some body
as_authorize _ = none

unfoldable pub as_auth_result : Body → Option (Option AuthResultTable)
as_auth_result (auth_result body) = some body
as_auth_result _ = none

unfoldable pub as_heartbeat : Body → Option (Option (Option Bytes))
as_heartbeat (heartbeat body) = some body
as_heartbeat _ = none

unfoldable pub as_heartbeat_ack : Body → Option (Option HeartbeatAckTable)
as_heartbeat_ack (heartbeat_ack body) = some body
as_heartbeat_ack _ = none

-- The table is never looked at.
unfoldable pub as_close_session : Body → Option (Option (Unit {0}))
as_close_session (close_session body) = some (some tt)
as_close_session _ = none

unfoldable pub as_error : Body → Option (Option ErrorTable)
as_error (error body) = some body
as_error _ = none

unfoldable pub read_authorize : Envelope → AuthorizeTable → Result MessageError AuthorizeMessage
read_authorize e body = do
  fail_if
      (empty (str body.product_id)
        || ltb max_product_id_size (length (str body.product_id))
        || body.process_id == 0)
      invalid_field
  ok (record {
    request_id = e.request_id;
    protocol_version = e.protocol_version;
    product_id = str body.product_id;
    process_id = body.process_id;
    process_start_time = body.process_start_time;
  })

-- An empty vector counts as absent.
unfoldable pub read_session_id : Option Bytes → Result MessageError (Option Bytes)
read_session_id none = ok none
read_session_id (some []) = ok none
read_session_id (some (b ∷ bs)) = do id ← copy_fixed session_id_size (some (b ∷ bs)); ok (some id)

-- A result has a session exactly where it has no error.
abbrev session_mismatch : ℕ → Option Bytes → Bool
session_mismatch e session_id =
    (e == AuthorizationError.no_error && not (is_some session_id))
    || (not (e == AuthorizationError.no_error) && is_some session_id)

unfoldable pub read_auth_result : Envelope → AuthResultTable → Result MessageError AuthResultMessage
unfolding read_session_id
read_auth_result e body = do
  let features = copy_features body.features
  fail_if (features_lost body.features features) invalid_field
  session_id ← read_session_id body.session_id
  fail_if (not (valid_authorization_error body.error) || session_mismatch body.error session_id)
      invalid_field
  ok (record {
    request_id = e.request_id;
    protocol_version = e.protocol_version;
    error = body.error;
    session_id = session_id;
    features = features;
    expire_time = body.expire_time;
    heartbeat_interval_ms = body.heartbeat_interval_ms;
    heartbeat_timeout_ms = body.heartbeat_timeout_ms;
  })

unfoldable pub read_heartbeat : Envelope → Option Bytes → Result MessageError HeartbeatMessage
read_heartbeat e body = do
  session_id ← copy_fixed session_id_size body
  ok (record {
    request_id = e.request_id;
    protocol_version = e.protocol_version;
    session_id = session_id;
  })

unfoldable pub read_heartbeat_ack :
    Envelope → HeartbeatAckTable → Result MessageError HeartbeatAckMessage
read_heartbeat_ack e body = do
  let features = copy_features body.features
  fail_if (not (valid_authorization_state body.state) || features_lost body.features features)
      invalid_field
  ok (record {
    request_id = e.request_id;
    protocol_version = e.protocol_version;
    state = body.state;
    features = features;
    expire_time = body.expire_time;
  })

unfoldable pub read_close_session : Envelope → Unit {0} → Result MessageError CloseSessionMessage
read_close_session e body =
    ok (record { request_id = e.request_id; protocol_version = e.protocol_version })

unfoldable pub read_error : Envelope → ErrorTable → Result MessageError ErrorMessage
read_error e body = do
  fail_if
      (not (valid_authorization_error body.code)
        || body.code == AuthorizationError.no_error
        || empty (str body.message)
        || ltb max_error_message_size (length (str body.message)))
      invalid_field
  ok (record {
    request_id = e.request_id;
    protocol_version = e.protocol_version;
    code = body.code;
    message = str body.message;
  })

abbrev pub authorize_envelope : AuthorizeMessage → Envelope
authorize_envelope m = record {
  protocol_version = m.protocol_version;
  request_id = m.request_id;
  body = authorize (
      some (record {
        product_id = some m.product_id;
        process_id = m.process_id;
        process_start_time = m.process_start_time;
      }));
}

abbrev pub auth_result_envelope : AuthResultMessage → Envelope
auth_result_envelope m = record {
  protocol_version = m.protocol_version;
  request_id = m.request_id;
  body = auth_result (
      some (record {
        error = m.error;
        session_id = m.session_id;
        features = create_features m.features;
        expire_time = m.expire_time;
        heartbeat_interval_ms = m.heartbeat_interval_ms;
        heartbeat_timeout_ms = m.heartbeat_timeout_ms;
      }));
}

abbrev pub heartbeat_envelope : HeartbeatMessage → Envelope
heartbeat_envelope m = record {
  protocol_version = m.protocol_version;
  request_id = m.request_id;
  body = heartbeat (some (some m.session_id));
}

abbrev pub heartbeat_ack_envelope : HeartbeatAckMessage → Envelope
heartbeat_ack_envelope m = record {
  protocol_version = m.protocol_version;
  request_id = m.request_id;
  body = heartbeat_ack (
      some (record {
        state = m.state;
        features = create_features m.features;
        expire_time = m.expire_time;
      }));
}

abbrev pub close_session_envelope : CloseSessionMessage → Envelope
close_session_envelope m = record {
  protocol_version = m.protocol_version;
  request_id = m.request_id;
  body = close_session (some tt);
}

abbrev pub error_envelope : ErrorMessage → Envelope
error_envelope m = record {
  protocol_version = m.protocol_version;
  request_id = m.request_id;
  body = error (some (record { code = m.code; message = some m.message }));
}

module _ (fb : EnvelopeBuffers) where
  unfoldable pub encode_authorize : AuthorizeMessage → Result MessageError Bytes
  encode_authorize m =
      if m.request_id == 0
        || m.protocol_version == 0
        || empty m.product_id
        || ltb max_product_id_size (length m.product_id)
        || m.process_id == 0
      then err invalid_field
      else ok (finish fb (authorize_envelope m))

  unfoldable pub decode_authorize : Bytes → Option (Result MessageError AuthorizeMessage)
  decode_authorize = decode_body application_version as_authorize read_authorize fb

  unfoldable pub encode_auth_result : AuthResultMessage → Result MessageError Bytes
  encode_auth_result m =
      if m.request_id == 0
        || m.protocol_version == 0
        || not (valid_authorization_error m.error)
        || not (valid_features m.features)
        || session_mismatch m.error m.session_id
      then err invalid_field
      else ok (finish fb (auth_result_envelope m))

  unfoldable pub decode_auth_result : Bytes → Option (Result MessageError AuthResultMessage)
  decode_auth_result = decode_body application_version as_auth_result read_auth_result fb

  unfoldable pub encode_heartbeat : HeartbeatMessage → Result MessageError Bytes
  encode_heartbeat m =
      if m.request_id == 0 || m.protocol_version == 0
      then err invalid_field
      else ok (finish fb (heartbeat_envelope m))

  unfoldable pub decode_heartbeat : Bytes → Option (Result MessageError HeartbeatMessage)
  decode_heartbeat = decode_body application_version as_heartbeat read_heartbeat fb

  unfoldable pub encode_heartbeat_ack : HeartbeatAckMessage → Result MessageError Bytes
  encode_heartbeat_ack m =
      if m.request_id == 0
        || m.protocol_version == 0
        || not (valid_authorization_state m.state)
        || not (valid_features m.features)
      then err invalid_field
      else ok (finish fb (heartbeat_ack_envelope m))

  unfoldable pub decode_heartbeat_ack : Bytes → Option (Result MessageError HeartbeatAckMessage)
  decode_heartbeat_ack = decode_body application_version as_heartbeat_ack read_heartbeat_ack fb

  unfoldable pub encode_close_session : CloseSessionMessage → Result MessageError Bytes
  encode_close_session m =
      if m.request_id == 0 || m.protocol_version == 0
      then err invalid_field
      else ok (finish fb (close_session_envelope m))

  unfoldable pub decode_close_session : Bytes → Option (Result MessageError CloseSessionMessage)
  decode_close_session = decode_body application_version as_close_session read_close_session fb

  unfoldable pub encode_error : ErrorMessage → Result MessageError Bytes
  encode_error m =
      if m.request_id == 0
        || m.protocol_version == 0
        || not (valid_authorization_error m.code)
        || m.code == AuthorizationError.no_error
        || empty m.message
        || ltb max_error_message_size (length m.message)
      then err invalid_field
      else ok (finish fb (error_envelope m))

  unfoldable pub decode_error : Bytes → Option (Result MessageError ErrorMessage)
  decode_error = decode_body application_version as_error read_error fb
