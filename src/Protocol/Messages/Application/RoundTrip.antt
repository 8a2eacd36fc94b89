-- ===== src/Protocol/Messages/Application/RoundTrip.antt =====
-- The codecs of an established connection's messages (protocol/messages.cpp).
use yo_authorize.Protocol.Messages.Decoding.{decode_body-encoded}
use yo_authorize.Protocol.Envelope.{EnvelopeBuffers, IsEnvelopeBuffers}
use yo_authorize.Prelude.{Bytes, length, ◌≤◌, ◌≡◌, ok, some, arith, refl, Option, ◌∷◌, none, []}
use yo_authorize.Protocol.Messages.Application.{
  encode_authorize, encode_heartbeat, encode_close_session, encode_error, decode_authorize,
  decode_heartbeat, decode_close_session, decode_error, as_authorize, as_heartbeat,
  as_close_session, as_error, read_authorize, read_heartbeat, read_close_session, read_error,
  AuthorizeMessage, HeartbeatMessage, CloseSessionMessage, ErrorMessage, authorize_envelope,
  heartbeat_envelope, close_session_envelope, error_envelope, read_session_id, encode_heartbeat_ack,
  encode_auth_result, decode_heartbeat_ack, decode_auth_result, as_heartbeat_ack, as_auth_result,
  read_heartbeat_ack, read_auth_result, heartbeat_ack_envelope, auth_result_envelope,
}
use yo_authorize.Protocol.Messages.{
  AuthorizeMessage, HeartbeatMessage, CloseSessionMessage, ErrorMessage, application_version,
  HeartbeatAckMessage, AuthResultMessage,
}
use yo_authorize.Protocol.Messages.Features.{copy_features-create_features}

read_session_id_lem :
    (session_id : Option Bytes)
    → ((id : Bytes) → session_id ≡ some id → length id ≡ 16)
    → read_session_id session_id ≡ ok session_id
unfolding read_session_id
read_session_id_lem none h = refl
read_session_id_lem (some []) h = ground (arith, h [] refl)
read_session_id_lem (some (b ∷ bs)) h = ground (arith, h (b ∷ bs) refl)

module _ (fb : EnvelopeBuffers) (ok_fb : IsEnvelopeBuffers fb) {bytes : Bytes}
    (small : length bytes ≤ 1048576) where
  -- An authorize message that is encoded, in at most 1 MiB, decodes to itself, where FlatBuffers'
  -- buffers read back.
  pub decode-encode_authorize :
      (m : AuthorizeMessage)
      → encode_authorize fb m ≡ ok bytes
      → decode_authorize fb bytes ≡ some (ok m)
  unfolding encode_authorize decode_authorize as_authorize read_authorize
  decode-encode_authorize m e =
      decode_body-encoded fb ok_fb application_version as_authorize read_authorize
        (authorize_envelope m) _ _ e small refl (λ good. ground (arith, good))

  pub decode-encode_heartbeat :
      (m : HeartbeatMessage)
      → length m.session_id ≡ 16
      → encode_heartbeat fb m ≡ ok bytes
      → decode_heartbeat fb bytes ≡ some (ok m)
  unfolding encode_heartbeat decode_heartbeat as_heartbeat read_heartbeat
  decode-encode_heartbeat m n e =
      decode_body-encoded fb ok_fb application_version as_heartbeat read_heartbeat
        (heartbeat_envelope m) _ _ e small refl (λ good. ground (arith, good, n))

  pub decode-encode_close_session :
      (m : CloseSessionMessage)
      → encode_close_session fb m ≡ ok bytes
      → decode_close_session fb bytes ≡ some (ok m)
  unfolding encode_close_session decode_close_session as_close_session read_close_session
  decode-encode_close_session m e =
      decode_body-encoded fb ok_fb application_version as_close_session read_close_session
        (close_session_envelope m) _ _ e small refl (λ good. ground (arith, good))

  pub decode-encode_error :
      (m : ErrorMessage) → encode_error fb m ≡ ok bytes → decode_error fb bytes ≡ some (ok m)
  unfolding encode_error decode_error as_error read_error
  decode-encode_error m e =
      decode_body-encoded fb ok_fb application_version as_error read_error (error_envelope m) _ _ e
        small refl (λ good. ground (arith, good))

  -- A heartbeat acknowledgement that is encoded, in at most 1 MiB, decodes to itself with all its
  -- features, where FlatBuffers' buffers read back.
  pub decode-encode_heartbeat_ack :
      (m : HeartbeatAckMessage)
      → encode_heartbeat_ack fb m ≡ ok bytes
      → decode_heartbeat_ack fb bytes ≡ some (ok m)
  unfolding encode_heartbeat_ack decode_heartbeat_ack as_heartbeat_ack read_heartbeat_ack
  decode-encode_heartbeat_ack m e =
      decode_body-encoded fb ok_fb application_version as_heartbeat_ack read_heartbeat_ack
        (heartbeat_ack_envelope m) _ _ e small refl
        (λ good. ground (arith, good, copy_features-create_features m.features))

  -- An authorization result whose session identifier, where it has one, is of 16 bytes, and that
  -- is encoded, in at most 1 MiB, decodes to itself with all its features, where FlatBuffers'
  -- buffers read back.
  pub decode-encode_auth_result :
      (m : AuthResultMessage)
      → ((id : Bytes) → m.session_id ≡ some id → length id ≡ 16)
      → encode_auth_result fb m ≡ ok bytes
      → decode_auth_result fb bytes ≡ some (ok m)
  unfolding encode_auth_result decode_auth_result as_auth_result read_auth_result
  decode-encode_auth_result m n e =
      decode_body-encoded fb ok_fb application_version as_auth_result read_auth_result
        (auth_result_envelope m) _ _ e small refl
        (λ good. ground (
          arith,
          good,
          copy_features-create_features m.features,
          read_session_id_lem m.session_id n,
        ))
