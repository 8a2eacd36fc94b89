-- ===== src/Sdk/Client/Trust.antt =====
-- What a client that has been initialised rests on (client.cpp, protocol/handshake.cpp).
use yo_authorize.Sdk.Client.{
  ClientConfig, LicenseClient, unwrap_plaintext, Result, Option, ℕ, OpenSsl, Failure,
  HandshakeError, Bytes, EnvelopeBuffers, ◌==◌, Transport, failure, ClientState, ClientError,
  deadline_after, failing_as, write_frame, wrap_plaintext, read_frame,
}
use yo_authorize.Sdk.Client.Initializing.{
  Surroundings, Authorized, initialize, initialized, authorize_over, shake_hands, request_session,
  response_decoded, server_hello_handled, denied, is_uninitialized, connected, kept,
}
use yo_authorize.Sdk.Steps.{Step, lift, >>=-eq-ok, require-eq-ok}
use yo_authorize.Protocol.Handshake.Client.{
  ClientHandshake, new_client, start, seal_client, open_client, handle_server_hello,
}
use yo_authorize.Protocol.Handshake.Client.Accepting.{Accepted, handle_server_hello-Accepted}
use yo_authorize.Protocol.Messages.{AuthResultMessage, MessageError}
use yo_authorize.Protocol.Messages.Application.{encode_authorize, decode_auth_result}
use yo_authorize.Prelude.{
  ◌≡◌, some, true, codes, ok, some_injective, err, false, subst, ap, ltb, or_fail, ok-injective,
  arith, none, or_fail-eq-ok, refl, not, empty, if-lem, ◌||◌, ◌&&◌,
}
use yo_authorize.Crypto.{KeyPair}
use yo_authorize.Protocol.Handshake.Client.Starting.{started, start-Started}
use yo_authorize.Protocol.AuthorizationError

lift-eq-ok :
    {E A : Type 0} {a : A} (r : Result E A) (failure : Failure)
    → lift r failure ≡ some (ok a)
    → r ≡ ok a
lift-eq-ok (ok a) failure e = ap ok (ok-injective (some_injective e))
lift-eq-ok (err x) failure e = cc

hello_handled_lem :
    (x : Option (Result HandshakeError Bytes × ClientHandshake)) {frame : Bytes}
    {h : ClientHandshake}
    → server_hello_handled x ≡ some (ok (frame, h))
    → x ≡ some (ok frame, h)
unfolding server_hello_handled
hello_handled_lem none e = cc
hello_handled_lem (some (err x, h)) e = cc
hello_handled_lem (some (ok frame, h)) e =
    ap (λ p. some (ok p.0, p.1)) (ok-injective (some_injective e))

-- An authorization that the client takes.
pub record Grants (selected_version : ℕ) (response : AuthResultMessage) (session_id : Bytes)
    : Type 0 where
  pub granted : (response.error == 0) ≡ true
  pub answered : (response.request_id == 2) ≡ true
  pub version : (response.protocol_version == selected_version) ≡ true
  pub session : response.session_id ≡ some session_id
  pub beats : (response.heartbeat_interval_ms == 0) ≡ false
  pub slower : ltb response.heartbeat_interval_ms response.heartbeat_timeout_ms ≡ true

response_decoded-Grants :
    (selected_version : ℕ) (x : Option (Result MessageError AuthResultMessage)) {session_id : Bytes}
    {response : AuthResultMessage}
    → response_decoded selected_version x ≡ some (ok (session_id, response))
    → (x ≡ some (ok response)) × Grants selected_version response session_id
unfolding response_decoded
response_decoded-Grants selected_version none e = cc
response_decoded-Grants selected_version (some (err x)) e = cc
response_decoded-Grants selected_version (some (ok r)) {session_id = session_id}
      {response = response} e =
    let (first, e1) =
      require-eq-ok
        (r.error == AuthorizationError.no_error
          && r.request_id == 2
          && r.protocol_version == selected_version)
        denied _ e in
    let (id, found, e2) = >>=-eq-ok (lift (or_fail r.session_id tt) denied) _ e1 in
    let (second, e3) =
      require-eq-ok
        (not (r.heartbeat_interval_ms == 0)
          && not (r.heartbeat_timeout_ms == 0)
          && ltb r.heartbeat_interval_ms r.heartbeat_timeout_ms)
        denied _ e2 in
    let same : (id, r) ≡ (session_id, response) = ok-injective (some_injective e3) in
    (
      ap (λ p. some (ok p.1)) same,
      subst (λ p. Grants selected_version p.1 p.0) same
          (record {
            granted = ground (arith, first);
            answered = ground (arith, first);
            version = ground (arith, first);
            session =
                or_fail-eq-ok r.session_id tt (lift-eq-ok (or_fail r.session_id tt) denied found);
            beats = ground (arith, second);
            slower = ground (arith, second);
          }),
    )

module _ (o : OpenSsl) (fb : EnvelopeBuffers) {S : Type 0} (t : Transport S) where
  abbrev initial : ClientConfig → ClientHandshake
  initial config = new_client config.trusted_service_keys (codes "yoauthorize-cpp/0.1") 1 1 1

  -- The handshake was accepted: by the nonce and the key that it drew, under the configured keys.
  pub record Shaken (config : ClientConfig) (h : ClientHandshake) : Type 0 where
    pub nonce : Bytes
    pub key_pair : KeyPair
    pub message : Bytes
    pub frame : Bytes
    pub accepted : Accepted o fb (started (initial config) nonce key_pair) message frame h

  shake_hands-Shaken :
      (config : ClientConfig) (env : Surroundings S) (s0 s : S) (h : ClientHandshake)
      → shake_hands o fb t config env s0 ≡ some (ok (s, h))
      → Shaken config h
  unfolding shake_hands
  shake_hands-Shaken config env s0 s h e =
      let first = start o fb (initial config) env.nonce env.key in
      let broken = failure ClientError.protocol (codes "failed to start service handshake") in
      let (hello, q0, e1) = >>=-eq-ok (lift first.0 broken) _ e in
      let (s1, q1, e2) =
        >>=-eq-ok
          (failing_as broken (
            kept (
              write_frame t (wrap_plaintext hello)
                (deadline_after (env.clock 1) config.io_timeout_ms) s0)))
          _ e1 in
      let (server_frame, q2, e3) =
        >>=-eq-ok
          (kept (
            read_frame t (deadline_after (env.clock 2) config.io_timeout_ms)
              (deadline_after (env.clock 3) config.io_timeout_ms) s1.1))
          _ e2 in
      let message = unwrap_plaintext server_frame.0 in
      let (nonempty, e4) = require-eq-ok (not (empty message)) _ _ e3 in
      let (finished, q5, e5) =
        >>=-eq-ok (server_hello_handled (handle_server_hello o fb first.1 message)) _ e4 in
      let (s2, q6, e6) =
        >>=-eq-ok
          (failing_as (failure ClientError.transport (codes "failed to finish service handshake")) (
            kept (
              write_frame t finished.0 (deadline_after (env.clock 4) config.io_timeout_ms)
                server_frame.1)))
          _ e5 in
      let same : finished.1 ≡ h = ap (λ p. p.1) (ok-injective (some_injective e6)) in
      let begun =
        start-Started o fb (initial config) env.nonce env.key hello first.1
          (ap (λ x. (x, first.1)) (lift-eq-ok first.0 broken q0)) in
      record {
        nonce = begun.nonce;
        key_pair = begun.key_pair;
        message = message;
        frame = finished.0;
        accepted =
            subst (λ h0. Accepted o fb h0 message finished.0 h) begun.after
              (subst (λ h'. Accepted o fb first.1 message finished.0 h') same
                (handle_server_hello-Accepted o fb first.1 message finished.0 finished.1
                  (hello_handled_lem (handle_server_hello o fb first.1 message) q5)));
      }

  -- The answer came in a record of this handshake, and grants the session.
  pub record Answered (h : ClientHandshake) (a : Authorized S) : Type 0 where
    pub request : Bytes
    pub frame : Bytes
    pub plaintext : Bytes
    pub opened : open_client o fb (seal_client o fb h request).1 frame ≡ (ok plaintext, a.handshake)
    pub decoded : decode_auth_result fb plaintext ≡ some (ok a.response)
    pub grants : Grants a.handshake.selected_version a.response a.session_id

  request_session-Answered :
      (config : ClientConfig) (env : Surroundings S) (s : S) (h : ClientHandshake)
      (a : Authorized S)
      → request_session o fb t config env (s, h) ≡ some (ok a)
      → Answered h a
  unfolding request_session
  request_session-Answered config env s h a e =
      let unsent = failure ClientError.transport (codes "failed to send authorization") in
      let unopened = failure ClientError.protocol (codes "authorization response is invalid") in
      let (request, q0, e1) =
        >>=-eq-ok
          (lift
            (encode_authorize fb (record {
              request_id = 2;
              protocol_version = h.selected_version;
              product_id = config.product_id;
              process_id = env.process_id;
              process_start_time = 0;
            }))
            (failure ClientError.protocol (codes "failed to encode authorization")))
          _ e in
      let sealed = seal_client o fb h request in
      let (bytes, q1, e2) = >>=-eq-ok (lift sealed.0 unsent) _ e1 in
      let (s3, q2, e3) =
        >>=-eq-ok
          (failing_as unsent
            (kept (write_frame t bytes (deadline_after (env.clock 5) config.io_timeout_ms) s)))
          _ e2 in
      let (answer, q3, e4) =
        >>=-eq-ok
          (kept (
            read_frame t (deadline_after (env.clock 6) config.io_timeout_ms)
              (deadline_after (env.clock 7) config.io_timeout_ms) s3.1))
          _ e3 in
      let opening = open_client o fb sealed.1 answer.0 in
      let (plaintext, q4, e5) = >>=-eq-ok (lift opening.0 unopened) _ e4 in
      let (granted, q5, e6) =
        >>=-eq-ok (response_decoded opening.1.selected_version (decode_auth_result fb plaintext)) _
          e5 in
      let (decoded, grants) =
        response_decoded-Grants opening.1.selected_version (decode_auth_result fb plaintext) q5 in
      subst (Answered h) (ok-injective (some_injective e6)) (record {
        request = request;
        frame = answer.0;
        plaintext = plaintext;
        opened = ap (λ x. (x, opening.1)) (lift-eq-ok opening.0 unopened q4);
        decoded = decoded;
        grants = grants;
      })

  -- What stands behind a client that is valid.
  pub record IsInitialized (config : ClientConfig) (c : LicenseClient S) : Type 0 where
    pub shaken_handshake : ClientHandshake
    pub shaken : Shaken config shaken_handshake
    pub authorized : Authorized S
    pub answered : Answered shaken_handshake authorized
    pub shown : c.snapshot ≡ record {
      state = ClientState.valid;
      features = authorized.response.features;
      expire_time = authorized.response.expire_time;
    }
    pub held :
        (c.transport ≡ some authorized.transport)
        × (c.handshake ≡ some authorized.handshake)
        × (c.session_id ≡ authorized.session_id)
        × (c.beating ≡ true)

  initialized-IsInitialized :
      (config : ClientConfig) (env : Surroundings S) (c : LicenseClient S) (x : Step (Authorized S))
      {c' : LicenseClient S}
      → authorize_over o fb t config env ≡ x
      → initialized config c x ≡ some (none, c')
      → IsInitialized config c'
  unfolding initialized authorize_over
  initialized-IsInitialized config env c none q e = cc
  initialized-IsInitialized config env c (some (err f)) q e = cc
  initialized-IsInitialized config env c (some (ok a)) q e =
      let (s0, q0, e1) =
        >>=-eq-ok
          (connected
            (env.dial config.endpoint (deadline_after (env.clock 0) config.connect_timeout_ms)))
          _ q in
      let (shaken, q1, e2) = >>=-eq-ok (shake_hands o fb t config env s0) _ e1 in
      subst (IsInitialized config) (ap (λ p. p.1) (some_injective e)) (record {
        shaken_handshake = shaken.1;
        shaken = shake_hands-Shaken config env s0 shaken.0 shaken.1 q1;
        authorized = a;
        answered = request_session-Answered config env shaken.0 shaken.1 a e2;
        shown = refl;
        held = (refl, refl, refl, refl);
      })

  -- Where `initialize` succeeds, the client is valid with the features and the end of an
  -- authorization result that came in a record opened by its handshake: granted, for its request
  -- and its version, with a session and with a heartbeat interval below the timeout. That
  -- handshake accepted a server hello under the configured keys: it answers the request with the
  -- version, and its signature over the transcript of both hellos verifies under the key that is
  -- trusted under its key id.
  pub initialize-IsInitialized :
      (config : ClientConfig) (env : Surroundings S) (c : LicenseClient S) {c' : LicenseClient S}
      → initialize o fb t config env c ≡ some (none, c')
      → IsInitialized config c'
  unfolding initialize
  initialize-IsInitialized config env c e =
      if-lem answers (not (is_uninitialized c.snapshot.state)) (λ c1 q. cc)
        (if-lem answers
          (empty config.product_id
            || empty config.endpoint
            || empty config.trusted_service_keys
            || config.connect_timeout_ms == 0
            || config.io_timeout_ms == 0)
          (λ c1 q. cc)
          (λ c1 q.
            initialized-IsInitialized config env
              (record c { snapshot = record (c.snapshot) { state = ClientState.connecting } })
              (authorize_over o fb t config env) refl q))
        _ e
    where
      answers : Option (Option Failure × LicenseClient S) → Type 0
      answers x = (c1 : LicenseClient S) → x ≡ some (none, c1) → IsInitialized config c1
