-- ===== src/Service/Connection/Admission.antt =====
-- The call that makes a connection active (service/connection.cpp).
use mathlib.Core.Option
use yo_authorize.Core.Session
use yo_authorize.Service.Connection.{
  active, Connection, OpenSsl, EnvelopeBuffers, Outcome, Bool, response_sealed, Bytes, false,
  Result, ℕ, RecordError, encrypted_response, Draws, ServerHandshake, AuthorizeMessage,
  HandshakeError, awaiting_authorize, open_server, MessageError, decode_authorize,
  encode_auth_result, FrameError, FrameDecoded, ErrorCode, expired_at, ConnectionError, rejected,
  decode_frame, default_max_payload_size, State, closed, awaiting_hello, awaiting_finished,
}
use yo_authorize.Service.Connection.Authorize.{
  answered, result_encoded, Decision, session_created, authorize_decoded, decide, handle_authorize,
}
use yo_authorize.Service.Connection.Handling.{
  handle_hello, hello_decoded, hello_answered, handle, handle_in, finished_handled, record_opened,
}
use mathlib.Core.Option.{Option, some}
use yo_authorize.Core.Session.{SessionManager, Session}
use yo_authorize.Service.Connection.Invariant.{is_active}
use yo_authorize.Prelude.{
  none, ◌≡◌, true, err, ok, refl, ◌⊎◌, ◌<◌, ap, ◌∙◌, arith, not, sym, ◌==◌, if-lem, some_injective,
  if-elim, bytes_eq, ◌||◌, bytes_eq_iff, ◌≢◌,
}

-- What stands behind a connection that a call has made active.
pub record Admission (o : OpenSsl) (fb : EnvelopeBuffers) (c : Connection) (m : SessionManager)
    (frame : Bytes) (now now_unix : ℕ) (draws : Draws) (out : Outcome) : Type 0 where
  pub plaintext : Bytes
  pub request : AuthorizeMessage
  pub session : Session
  pub waited : c.state ≡ awaiting_authorize
  pub opened : (open_server o fb c.handshake frame).0 ≡ ok plaintext
  pub decoded : decode_authorize fb plaintext ≡ some (ok request)
  pub product : request.product_id ≡ c.license.product_id
  pub unexpired : (c.license.expire_time ≡ 0) ⊎ (now_unix < c.license.expire_time)
  pub created :
      Session.create m c.license.product_id c.peer_identity c.license.features c.license.expire_time
        now c.license.max_sessions draws.ids
      ≡ some (ok session, out.sessions)
  pub held : out.connection.session ≡ some session

-- Whether an outcome, where there is one, is active.
ends_active : Option Outcome → Bool
ends_active none = false
ends_active (some out) = is_active out.connection.state

module _ (o : OpenSsl) (fb : EnvelopeBuffers) where
  -- An active outcome of a response is the connection's own, as it was.
  response_sealed-active :
      (c : Connection) (m : SessionManager) (last : Bool)
      (x : Result RecordError Bytes × ServerHandshake)
      → is_active (response_sealed o fb c m last x).connection.state ≡ true
      → (is_active c.state ≡ true)
        × ((response_sealed o fb c m last x).connection.session ≡ c.session)
        × ((response_sealed o fb c m last x).sessions ≡ m)
  unfolding response_sealed
  response_sealed-active c m last (err e, h) q = cc
  response_sealed-active c m true (ok b, h) q = cc
  response_sealed-active c m false (ok b, h) q = (q, refl, refl)

  answered-active :
      (d : Decision)
      → is_active (answered o fb d).connection.state ≡ true
      → (is_active d.connection.state ≡ true)
        × ((answered o fb d).connection.session ≡ d.connection.session)
        × ((answered o fb d).sessions ≡ d.sessions)
  unfolding answered result_encoded encrypted_response
  answered-active d q = encoded_case (encode_auth_result fb d.response) q
    where
      encoded_case :
          (x : Result MessageError Bytes)
          → is_active (result_encoded o fb d x).connection.state ≡ true
          → (is_active d.connection.state ≡ true)
            × ((result_encoded o fb d x).connection.session ≡ d.connection.session)
            × ((result_encoded o fb d x).sessions ≡ d.sessions)
      encoded_case (err e) q = cc
      encoded_case (ok bytes) q = response_sealed-active d.connection d.sessions _ _ q

  handle_hello-inactive :
      (c : Connection) (m : SessionManager) (frame : Bytes) (draws : Draws)
      → ends_active (handle_hello o fb c m frame draws) ≡ false
  unfolding handle_hello hello_decoded hello_answered ends_active
  handle_hello-inactive c m frame draws = decoded_case (decode_frame frame default_max_payload_size)
    where
      answered_case :
          (x : Option (Result HandshakeError Bytes × ServerHandshake))
          → ends_active (hello_answered o fb c m x) ≡ false
      answered_case none = refl
      answered_case (some (err e, h)) = refl
      answered_case (some (ok r, h)) = refl

      decoded_case :
          (x : Result FrameError FrameDecoded)
          → ends_active (hello_decoded o fb c m draws x) ≡ false
      decoded_case (err e) = refl
      decoded_case (ok d) =
          if-lem (λ x. ends_active x ≡ false)
            (not (d.header.flags == 0) || not (d.header.sequence == 0)) refl (answered_case _)

  module _ (c : Connection) (m : SessionManager) (frame : Bytes) (now now_unix : ℕ) (draws : Draws)
      {out : Outcome} (waits : c.state ≡ awaiting_authorize) (h : ServerHandshake) (b : Bytes)
      (opened : (open_server o fb c.handshake frame).0 ≡ ok b)
      (now_active : is_active out.connection.state ≡ true) where
    refused :
        (d : Decision)
        → is_active d.connection.state ≡ false
        → ◌≡◌ {A = Option Outcome} (some (answered o fb d)) (some out)
        → Admission o fb c m frame now now_unix draws out
    refused d f q =
        let active_now = ap (λ x. is_active x.connection.state) (some_injective q) ∙ now_active in
        cc (f, (answered-active d active_now).0)

    rejected_inactive :
        (e : ConnectionError) (c' : Connection)
        → ◌≡◌ {A = Option Outcome} (some (rejected e c' m)) (some out)
        → Admission o fb c m frame now now_unix draws out
    rejected_inactive e c' q =
        cc (ap (λ x. is_active x.connection.state) (some_injective q) ∙ now_active)

    created_admission :
        (request : AuthorizeMessage) (x : Option (Result ErrorCode Session × SessionManager))
        → decode_authorize fb b ≡ some (ok request)
        → request.product_id ≡ c.license.product_id
        → expired_at c.license now_unix ≡ false
        → Session.create m c.license.product_id c.peer_identity c.license.features
            c.license.expire_time now c.license.max_sessions draws.ids
          ≡ x
        → Option.map (answered o fb) (session_created o fb (record c { handshake = h }) request x)
          ≡ some out
        → Admission o fb c m frame now now_unix draws out
    unfolding session_created
    created_admission request none d p u s q = cc
    created_admission request (some (err e, m')) d p u s q = refused _ (ap is_active waits) q
    created_admission request (some (ok s, m')) d p u e q =
        let active_now = ap (λ x. is_active x.connection.state) (some_injective q) ∙ now_active in
        let (_, same_session, same_sessions) = answered-active _ active_now in
        record {
          plaintext = b;
          request = request;
          session = s;
          waited = waits;
          opened = opened;
          decoded = d;
          product = p;
          unexpired = ground (arith, u);
          created =
              e
              ∙ ap (λ x. some (ok s, x))
                  (sym same_sessions ∙ ap (λ x. x.sessions) (some_injective q));
          held = ap (λ x. x.connection.session) (sym (some_injective q)) ∙ same_session;
        }

    decided_admission :
        (x : Option (Result MessageError AuthorizeMessage))
        → decode_authorize fb b ≡ x
        → authorize_decoded o fb (record c { handshake = h }) m now now_unix draws x ≡ some out
        → Admission o fb c m frame now now_unix draws out
    unfolding authorize_decoded decide
    decided_admission none d q = cc
    decided_admission (some (err e)) d q = rejected_inactive _ (record c { handshake = h }) q
    decided_admission (some (ok request)) d q =
        if-elim (λ x. x ≡ some out → Admission o fb c m frame now now_unix draws out)
          (not (request.protocol_version == h.selected_version))
          (λ t. rejected_inactive _ (record c { handshake = h }))
          (λ t.
            if-elim granted (not (bytes_eq request.product_id c.license.product_id))
              (λ t. refused _ (ap is_active waits))
              (λ same.
                if-elim granted (expired_at c.license now_unix)
                  (λ t. refused _ (ap is_active waits))
                  (λ unexpired.
                    created_admission request _ d
                      (ground (arith, same, bytes_eq_iff request.product_id c.license.product_id))
                      unexpired refl)))
          q
      where
        granted : Option Decision → Type 0
        granted x =
            Option.map (answered o fb) x ≡ some out
            → Admission o fb c m frame now now_unix draws out

  -- A connection that was not active is active after a call only where it waited for an authorize
  -- message, the frame opened to one that asks for the licensed product, the licence had not run
  -- out, and the session manager created the session that the connection now holds.
  pub handle-Admission :
      (c : Connection) (m : SessionManager) (frame : Bytes) (now now_unix : ℕ) (draws : Draws)
      {out : Outcome}
      → c.state ≢ active
      → handle o fb c m frame now now_unix draws ≡ some out
      → out.connection.state ≡ active
      → Admission o fb c m frame now now_unix draws out
  unfolding handle handle_in finished_handled record_opened handle_authorize ends_active
  handle-Admission c m frame now now_unix draws {out = out} n e a = state_case c.state refl e
    where
      now_active : is_active out.connection.state ≡ true
      now_active = ap is_active a

      finished_case :
          (x : Option (Result HandshakeError (Unit {0}) × ServerHandshake))
          → finished_handled o fb c m x ≡ some out
          → Admission o fb c m frame now now_unix draws out
      finished_case none q = cc
      finished_case (some (err e, h)) q =
          cc (ap (λ x. is_active x.connection.state) (some_injective q) ∙ now_active)
      finished_case (some (ok u, h)) q =
          cc (ap (λ x. is_active x.connection.state) (some_injective q) ∙ now_active)

      authorize_case :
          (x : Result RecordError Bytes × ServerHandshake)
          → c.state ≡ awaiting_authorize
          → open_server o fb c.handshake frame ≡ x
          → record_opened o fb
              (λ c m bytes. handle_authorize o fb c m bytes now now_unix draws)
              c
              m
              x
            ≡ some out
          → Admission o fb c m frame now now_unix draws out
      authorize_case (err e, h) s p q =
          cc (ap (λ x. is_active x.connection.state) (some_injective q) ∙ now_active)
      authorize_case (ok b, h) s p q =
          decided_admission c m frame now now_unix draws s h b (ap (λ x. x.0) p) now_active _ refl q

      state_case :
          (s : State)
          → c.state ≡ s
          → handle_in o fb s c m frame now now_unix draws ≡ some out
          → Admission o fb c m frame now now_unix draws out
      state_case closed s q = cc (sym s ∙ ap (λ x. x.connection.state) (some_injective q) ∙ a)
      state_case awaiting_hello s q =
          cc (sym (handle_hello-inactive c m frame draws) ∙ ap ends_active q ∙ now_active)
      state_case awaiting_finished s q = finished_case _ q
      state_case awaiting_authorize s q = authorize_case _ s refl q
      state_case active s q = elim (n s) [ ]
