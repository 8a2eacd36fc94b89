-- ===== src/Sdk/Client/Invariant.antt =====
-- What every call leaves of a client (client.cpp).
use yo_authorize.Prelude.{
  Option, some, none, Result, ok, err, true, false, not, ◌≡◌, refl, subst, if-lem, if-elim,
  not-eq-false, ◌∙◌, List, [], ℕ, Bytes, if◌then◌else◌, ◌||◌, ◌==◌, empty, ◌+◌,
}
use yo_authorize.OpenSsl.{OpenSsl}
use yo_authorize.Protocol.Envelope.{EnvelopeBuffers}
use yo_authorize.Protocol.Handshake.Client.{ClientHandshake, seal_client, open_client}
use yo_authorize.Protocol.Messages.{HeartbeatAckMessage, MessageError}
use yo_authorize.Protocol.Messages.Application.{decode_heartbeat_ack}
use yo_authorize.Protocol.Record.{RecordError}
use yo_authorize.Transport.{Transport}
use yo_authorize.Sdk.Status.{ClientState, Failure}
use yo_authorize.Sdk.Steps.{Step}
use yo_authorize.Sdk.Client.{ClientConfig, LicenseClient, is_valid}
use yo_authorize.Sdk.Client.Initializing.{
  Surroundings, Authorized, fail, initialized, initialize, is_uninitialized, authorize_over,
}
use yo_authorize.Sdk.Client.Beating.{
  Beat, heartbeat_failed, acknowledged, ack_decoded, ack_opened, ack_read, heartbeat_written,
  heartbeat_sealed, heartbeat_encoded, heartbeat_over, heartbeat,
}
use yo_authorize.Sdk.Client.Closing.{
  closed_client, shutdown_over, shutdown, session_closed, transport_closed,
}
use yo_authorize.Prelude.Words.{u64}
use yo_authorize.Protocol.Handshake.{is_established}
use yo_authorize.Sdk.Client.Runs.{
  Call, initializes, beats, shuts_down, called, run_calls, run_calls-keep, Kept, client_of,
  first_of,
}

module _ {S : Type 0} where
  -- The thread runs exactly while the licence is valid; then the client has its transport and its
  -- keys, and otherwise it reports no feature.
  pub record IsClient (c : LicenseClient S) : Type 0 where
    pub beating : c.beating ≡ is_valid c.snapshot.state
    pub held :
        is_valid c.snapshot.state ≡ true
        → (s : S) × (h : ClientHandshake) × (c.transport ≡ some s) × (c.handshake ≡ some h)
    pub bare : is_valid c.snapshot.state ≡ false → c.snapshot.features ≡ []

  abbrev IsClient? : Option (LicenseClient S) → Type 0
  IsClient? x = Kept IsClient x

  failed-IsClient :
      (c : LicenseClient S) (s : S) (h : ClientHandshake) → IsClient (heartbeat_failed c s h)
  unfolding heartbeat_failed
  failed-IsClient c s h = record { beating = refl; held = λ e. cc; bare = λ e. refl }

  acknowledged-IsClient :
      (c : LicenseClient S) (s : S) (h : ClientHandshake) (ack : HeartbeatAckMessage)
      → IsClient (acknowledged c s h ack)
  unfolding acknowledged
  acknowledged-IsClient c s h ack = record {
    beating = refl;
    held = λ e. (s, h, refl, refl);
    bare = λ e. rw e refl;
  }

  initialized-IsClient :
      (config : ClientConfig) (c : LicenseClient S) (x : Step (Authorized S))
      → c.beating ≡ false
      → IsClient? (client_of (initialized config c x))
  unfolding initialized fail
  initialized-IsClient config c none b = tt
  initialized-IsClient config c (some (err f)) b = record {
    beating = b;
    held = λ e. cc;
    bare = λ e. refl;
  }
  initialized-IsClient config c (some (ok a)) b = record {
    beating = refl;
    held = λ e. (a.transport, a.handshake, refl, refl);
    bare = λ e. cc;
  }

module _ (o : OpenSsl) (fb : EnvelopeBuffers) {S : Type 0} (t : Transport S) where
  uninitialized-valid :
      (state : ClientState) → is_uninitialized state ≡ true → is_valid state ≡ false
  uninitialized-valid ClientState.uninitialized e = refl
  uninitialized-valid ClientState.connecting e = refl
  uninitialized-valid ClientState.valid e = cc
  uninitialized-valid ClientState.grace e = refl
  uninitialized-valid ClientState.expired e = refl
  uninitialized-valid ClientState.revoked e = refl
  uninitialized-valid ClientState.error e = refl
  uninitialized-valid ClientState.closed e = refl

  ack_decoded-IsClient :
      (c : LicenseClient S) (request_id : ℕ) (s : S) (h : ClientHandshake)
      (x : Option (Result MessageError HeartbeatAckMessage))
      → IsClient? (ack_decoded c request_id s h x)
  unfolding ack_decoded
  ack_decoded-IsClient c request_id s h none = tt
  ack_decoded-IsClient c request_id s h (some (err e)) = failed-IsClient c s h
  ack_decoded-IsClient c request_id s h (some (ok ack)) =
      if-lem IsClient?
        (not (ack.request_id == request_id) || not (ack.protocol_version == h.selected_version))
        (failed-IsClient c s h) (acknowledged-IsClient c s h ack)

  ack_read-IsClient :
      (c : LicenseClient S) (request_id : ℕ) (h : ClientHandshake)
      (x : Option (Result Failure Bytes × S))
      → IsClient? (ack_read o fb t c request_id h x)
  unfolding ack_read ack_opened
  ack_read-IsClient c request_id h none = tt
  ack_read-IsClient c request_id h (some (err e, s)) = failed-IsClient c s h
  ack_read-IsClient c request_id h (some (ok frame, s)) = opened (open_client o fb h frame)
    where
      opened :
          (x : Result RecordError Bytes × ClientHandshake)
          → IsClient? (ack_opened o fb t c request_id s x)
      opened (err e, h') = failed-IsClient c s h'
      opened (ok plaintext, h') =
          ack_decoded-IsClient c request_id s h' (decode_heartbeat_ack fb plaintext)

  heartbeat_encoded-IsClient :
      (beat : Beat) (c : LicenseClient S) (request_id : ℕ) (s : S) (h : ClientHandshake)
      (x : Result MessageError Bytes)
      → IsClient? (heartbeat_encoded o fb t beat c request_id s h x)
  unfolding heartbeat_encoded heartbeat_sealed heartbeat_written
  heartbeat_encoded-IsClient beat c request_id s h (err e) = failed-IsClient c s h
  heartbeat_encoded-IsClient beat c request_id s h (ok bytes) = sealed (seal_client o fb h bytes)
    where
      written :
          (h : ClientHandshake) (x : Option (Result Failure (Unit {0}) × S))
          → IsClient? (heartbeat_written o fb t beat c request_id h x)
      written h none = tt
      written h (some (err e, s)) = failed-IsClient c s h
      written h (some (ok u, s)) = ack_read-IsClient c request_id h _

      sealed :
          (x : Result RecordError Bytes × ClientHandshake)
          → IsClient? (heartbeat_sealed o fb t beat c request_id s x)
      sealed (err e, h') = failed-IsClient c s h'
      sealed (ok sealed_bytes, h') = written h' _

  heartbeat-IsClient :
      (beat : Beat) (c : LicenseClient S) → IsClient c → IsClient? (heartbeat o fb t beat c)
  unfolding heartbeat heartbeat_over
  heartbeat-IsClient beat c i = if-lem IsClient? c.beating (over c.transport c.handshake) i
    where
      over :
          (x : Option S) (y : Option ClientHandshake) → IsClient? (heartbeat_over o fb t beat c x y)
      over none y = tt
      over (some s) none = tt
      over (some s) (some h) =
          heartbeat_encoded-IsClient beat
            (record c { next_request_id = u64 (c.next_request_id + 1) }) c.next_request_id s h _

  closed-IsClient : (c : LicenseClient S) → IsClient (closed_client c)
  unfolding closed_client
  closed-IsClient c = record { beating = refl; held = λ e. cc; bare = λ e. refl }

  transport_closed-IsClient :
      (c : LicenseClient S) (x : Option S) → IsClient? (first_of (transport_closed o fb t c x))
  unfolding transport_closed
  transport_closed-IsClient c none = tt
  transport_closed-IsClient c (some s) = closed-IsClient c

  shutdown-IsClient : (now : ℕ) (c : LicenseClient S) → IsClient? (first_of (shutdown o fb t now c))
  unfolding shutdown shutdown_over
  shutdown-IsClient now c = over c.transport c.handshake
    where
      over :
          (x : Option S) (y : Option ClientHandshake)
          → IsClient? (first_of (shutdown_over o fb t now c x y))
      over none y = closed-IsClient c
      over (some s) none = transport_closed-IsClient c (some s)
      over (some s) (some h) =
          transport_closed-IsClient
            (if is_established h.state
              then record c { next_request_id = u64 (c.next_request_id + 1) }
              else c)
            (session_closed o fb t now c s h)

  initialize-IsClient :
      (config : ClientConfig) (env : Surroundings S) (c : LicenseClient S)
      → IsClient c
      → IsClient? (client_of (initialize o fb t config env c))
  unfolding initialize
  initialize-IsClient config env c i =
      if-elim answered (not (is_uninitialized c.snapshot.state)) (λ q. i)
        λ q.
          let invalid = uninitialized-valid c.snapshot.state (not-eq-false _ q) in
          let idle : c.beating ≡ false = i.beating ∙ invalid in
          if-lem answered
            (empty config.product_id
              || empty config.endpoint
              || empty config.trusted_service_keys
              || config.connect_timeout_ms == 0
              || config.io_timeout_ms == 0)
            (record { beating = idle; held = λ e. cc; bare = λ e. i.bare invalid })
            (initialized-IsClient config
              (record c { snapshot = record (c.snapshot) { state = ClientState.connecting } })
              (authorize_over o fb t config env) idle)
    where
      answered : Option (Option Failure × LicenseClient S) → Type 0
      answered x = IsClient? (client_of x)

  called-IsClient :
      (call : Call S) (c : LicenseClient S) → IsClient c → IsClient? (called o fb t call c)
  unfolding called
  called-IsClient (initializes config env) c i = initialize-IsClient config env c i
  called-IsClient (beats beat) c i = heartbeat-IsClient beat c i
  called-IsClient (shuts_down now) c i = shutdown-IsClient now c

  -- Of a client whose heartbeat thread runs exactly while its licence is valid, which then holds
  -- its transport and its keys and otherwise reports no feature, any calls of either thread leave
  -- a client of which that holds again.
  pub run_calls-IsClient :
      (calls : List (Call S)) (c : LicenseClient S) {c' : LicenseClient S}
      → IsClient c
      → run_calls o fb t calls c ≡ some c'
      → IsClient c'
  run_calls-IsClient calls c i e =
      subst IsClient? e (run_calls-keep o fb t IsClient called-IsClient calls c i)
