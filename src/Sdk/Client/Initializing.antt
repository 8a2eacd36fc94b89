-- ===== src/Sdk/Client/Initializing.antt =====
-- `LicenseClient::initialize` (client.cpp), which starts the thread of the heartbeats.
use yo_authorize.Prelude.{
  Result, Option, ok, err, some, none, true, false, Bool, ℕ, Bytes, if◌then◌else◌, codes, ◌==◌, not,
  ◌&&◌, ◌||◌, or_fail, empty, ltb,
}
use yo_authorize.OpenSsl.{OpenSsl}
use yo_authorize.Protocol.AuthorizationError
use yo_authorize.Protocol.Envelope.{EnvelopeBuffers}
use yo_authorize.Protocol.Handshake.{HandshakeError}
use yo_authorize.Protocol.Handshake.Client.{
  ClientHandshake, new_client, start, handle_server_hello, seal_client, open_client,
}
use yo_authorize.Protocol.Messages.{AuthResultMessage, MessageError}
use yo_authorize.Protocol.Messages.Application.{encode_authorize, decode_auth_result}
use yo_authorize.Transport.{Transport, Deadline, is_success}
use yo_authorize.Transport
use yo_authorize.Sdk.Status.{ClientState, ClientError, Failure}
use yo_authorize.Sdk.Steps.{Step, ◌>>=◌, ◌>>◌, require, lift, failing_as}
use yo_authorize.Sdk.Client.{
  ClientConfig, LicenseClient, failure, deadline_after, wrap_plaintext, unwrap_plaintext,
  write_frame, read_frame, without_features,
}

-- A step on the transport, in a chain that gives the transport up where it fails.
abbrev pub kept : {A S : Type 0} → Option (Result Failure A × S) → Step (A × S)
kept none = none
kept (some (err e, s)) = some (err e)
kept (some (ok a, s)) = some (ok (a, s))

-- What `initialize` takes from outside: the clock at its n-th reading, what the generator draws, the
-- process's number, and the transport's connection to an endpoint.
pub record Surroundings (S : Type 0) : Type 0 where
  pub clock : ℕ → ℕ
  pub nonce : Option Bytes
  pub key : Option Bytes
  pub process_id : ℕ
  pub dial : Bytes → Deadline → Option (Transport.Status × S)

-- What an authorised client holds.
pub record Authorized (S : Type 0) : Type 0 where
  pub transport : S
  pub handshake : ClientHandshake
  pub session_id : Bytes
  pub response : AuthResultMessage

unfoldable pub connected : {S : Type 0} → Option (Transport.Status × S) → Step S
connected none = none
connected (some (status, s)) =
    if is_success status
    then some (ok s)
    else some (err (failure ClientError.transport (codes "failed to connect to service")))

unfoldable pub server_hello_handled :
    Option (Result HandshakeError Bytes × ClientHandshake) → Step (Bytes × ClientHandshake)
server_hello_handled none = none
server_hello_handled (some (err e, handshake)) = some (
    err (
      failure ClientError.service_identity_invalid
        (codes "service identity authentication failed")))
server_hello_handled (some (ok finished, handshake)) = some (ok (finished, handshake))

abbrev pub denied : Failure
denied = failure ClientError.authorization_denied (codes "service denied authorization")

unfoldable pub response_decoded :
    ℕ → Option (Result MessageError AuthResultMessage) → Step (Bytes × AuthResultMessage)
response_decoded selected_version none = none
response_decoded selected_version (some (err e)) = some (err denied)
response_decoded selected_version (some (ok response)) = do
  require
      (response.error == AuthorizationError.no_error
        && response.request_id == 2
        && response.protocol_version == selected_version)
      denied
  session_id ← lift (or_fail response.session_id tt) denied
  require
      (not (response.heartbeat_interval_ms == 0)
        && not (response.heartbeat_timeout_ms == 0)
        && ltb response.heartbeat_interval_ms response.heartbeat_timeout_ms)
      denied
  some (ok (session_id, response))

module _ (o : OpenSsl) (fb : EnvelopeBuffers) {S : Type 0} (t : Transport S) where
  -- The handshake: a transport and an established client.
  unfoldable pub shake_hands : ClientConfig → Surroundings S → S → Step (S × ClientHandshake)
  unfolding wrap_plaintext write_frame read_frame unwrap_plaintext server_hello_handled
  shake_hands config env s0 = do
    let initial = new_client config.trusted_service_keys (codes "yoauthorize-cpp/0.1") 1 1 1
    let started = start o fb initial env.nonce env.key
    hello ←
        lift started.0 (failure ClientError.protocol (codes "failed to start service handshake"))
    s1 ← failing_as (failure ClientError.protocol (codes "failed to start service handshake")) (
        kept (
          write_frame t (wrap_plaintext hello) (deadline_after (env.clock 1) config.io_timeout_ms)
            s0))
    server_frame ← kept (
        read_frame t (deadline_after (env.clock 2) config.io_timeout_ms)
          (deadline_after (env.clock 3) config.io_timeout_ms) s1.1)
    require (not (empty (unwrap_plaintext server_frame.0)))
        (failure ClientError.protocol (codes "service hello frame is invalid"))
    finished ←
        server_hello_handled (handle_server_hello o fb started.1 (unwrap_plaintext server_frame.0))
    s2 ← failing_as (failure ClientError.transport (codes "failed to finish service handshake")) (
        kept (
          write_frame t finished.0 (deadline_after (env.clock 4) config.io_timeout_ms)
            server_frame.1))
    some (ok (s2.1, finished.1))

  -- The request for a session, and the answer.
  unfoldable pub request_session :
      ClientConfig → Surroundings S → S × ClientHandshake → Step (Authorized S)
  unfolding write_frame read_frame response_decoded
  request_session config env (s2, handshake) = do
    authorize ←
        lift
          (encode_authorize fb (record {
            request_id = 2;
            protocol_version = handshake.selected_version;
            product_id = config.product_id;
            process_id = env.process_id;
            process_start_time = 0;
          }))
          (failure ClientError.protocol (codes "failed to encode authorization"))
    let sealed = seal_client o fb handshake authorize
    request ← lift sealed.0 (failure ClientError.transport (codes "failed to send authorization"))
    s3 ←
        failing_as (failure ClientError.transport (codes "failed to send authorization"))
          (kept (write_frame t request (deadline_after (env.clock 5) config.io_timeout_ms) s2))
    response_frame ← kept (
        read_frame t (deadline_after (env.clock 6) config.io_timeout_ms)
          (deadline_after (env.clock 7) config.io_timeout_ms) s3.1)
    let opened = open_client o fb sealed.1 response_frame.0
    plaintext ←
        lift opened.0 (failure ClientError.protocol (codes "authorization response is invalid"))
    granted ← response_decoded opened.1.selected_version (decode_auth_result fb plaintext)
    some (
        ok (record {
          transport = response_frame.1;
          handshake = opened.1;
          session_id = granted.0;
          response = granted.1;
        }))

  unfoldable pub authorize_over : ClientConfig → Surroundings S → Step (Authorized S)
  unfolding connected shake_hands request_session
  authorize_over config env = do
    s0 ←
        connected
          (env.dial config.endpoint (deadline_after (env.clock 0) config.connect_timeout_ms))
    shaken ← shake_hands config env s0
    request_session config env shaken

-- The transport is closed and the handshake's keys are gone.
unfoldable pub fail : {S : Type 0} → LicenseClient S → LicenseClient S
fail c = record c {
  transport = none;
  handshake = none;
  snapshot = without_features ClientState.error c.snapshot;
}

unfoldable pub initialized :
    {S : Type 0}
    → ClientConfig
    → LicenseClient S
    → Step (Authorized S)
    → Option (Option Failure × LicenseClient S)
unfolding fail
initialized config c none = none
initialized config c (some (err e)) = some (some e, fail c)
initialized config c (some (ok a)) = some (
  none,
  record c {
    snapshot = record {
      state = ClientState.valid;
      features = a.response.features;
      expire_time = a.response.expire_time;
    };
    io_timeout_ms = config.io_timeout_ms;
    session_id = a.session_id;
    heartbeat_interval_ms = a.response.heartbeat_interval_ms;
    transport = some a.transport;
    handshake = some a.handshake;
    beating = true;
  },
)

abbrev pub is_uninitialized : ClientState → Bool
is_uninitialized state = elim state [ ClientState.uninitialized ↦ true | _ ↦ false ]

-- The status is `none` where it has no error.
unfoldable pub initialize :
    OpenSsl
    → EnvelopeBuffers
    → {S : Type 0} → Transport S
    → ClientConfig
    → Surroundings S
    → LicenseClient S
    → Option (Option Failure × LicenseClient S)
unfolding initialized authorize_over
initialize o fb t config env c =
    if not (is_uninitialized c.snapshot.state)
    then some
        (some (failure ClientError.already_initialized (codes "client is already initialized")), c)
    else if empty config.product_id
        || empty config.endpoint
        || empty config.trusted_service_keys
        || config.connect_timeout_ms == 0
        || config.io_timeout_ms == 0
    then some (
      some (failure ClientError.invalid_config (codes "client configuration is incomplete")),
      record c { snapshot = record (c.snapshot) { state = ClientState.error } },
    )
    else initialized config
        (record c { snapshot = record (c.snapshot) { state = ClientState.connecting } })
        (authorize_over o fb t config env)
