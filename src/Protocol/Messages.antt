-- ===== src/Protocol/Messages.antt =====
-- The messages, what an encoder asks of them, and the steps that the codecs share (protocol/
-- messages.h, messages.cpp). A decoder that reads a field through the null pointer of an absent body
-- has no result: `none`.
pub mod Decoding
pub mod Features
pub mod Hello
pub mod Application
use yo_authorize.Prelude.{
  ℕ, [], ◌∷◌, some, none, ok, err, Bytes, List, Bool, Option, ◌==◌, leb, not, if◌then◌else◌, false,
  ◌*◌, map, ◌||◌, ◌&&◌, empty, length, Result, ltb, all_of,
}
use mathlib.Core.Option
use yo_authorize.Protocol.Envelope.{EnvelopeBuffers, Envelope, verify_envelope, Body}
use mathlib.Core.Option.{Option}

pub data MessageError : Type 0 where
  invalid_envelope unexpected_type invalid_field : MessageError

pub record ClientHelloMessage : Type 0 where
  pub request_id : ℕ
  pub min_version : ℕ
  pub max_version : ℕ
  pub nonce : Bytes
  pub public_key : Bytes
  pub sdk_version : Bytes

pub record ServerHelloMessage : Type 0 where
  pub request_id : ℕ
  pub selected_version : ℕ
  pub nonce : Bytes
  pub public_key : Bytes
  pub service_key_id : Bytes
  pub signature : Bytes

pub record ClientFinishedMessage : Type 0 where
  pub request_id : ℕ
  pub protocol_version : ℕ
  pub transcript_hash : Bytes

pub record AuthorizeMessage : Type 0 where
  pub request_id : ℕ
  pub protocol_version : ℕ
  pub product_id : Bytes
  pub process_id : ℕ
  pub process_start_time : ℕ

pub record AuthResultMessage : Type 0 where
  pub request_id : ℕ
  pub protocol_version : ℕ
  pub error : ℕ
  pub session_id : Option Bytes
  pub features : List Bytes
  pub expire_time : ℕ
  pub heartbeat_interval_ms : ℕ
  pub heartbeat_timeout_ms : ℕ

pub record HeartbeatMessage : Type 0 where
  pub request_id : ℕ
  pub protocol_version : ℕ
  pub session_id : Bytes

pub record HeartbeatAckMessage : Type 0 where
  pub request_id : ℕ
  pub protocol_version : ℕ
  pub state : ℕ
  pub features : List Bytes
  pub expire_time : ℕ

pub record CloseSessionMessage : Type 0 where
  pub request_id : ℕ
  pub protocol_version : ℕ

pub record ErrorMessage : Type 0 where
  pub request_id : ℕ
  pub protocol_version : ℕ
  pub code : ℕ
  pub message : Bytes

-- `AuthorizationError` and `AuthorizationState` are cast from numbers of the wire, so they are
-- numbers here.
abbrev pub max_sdk_version_size : ℕ
max_sdk_version_size = 64

abbrev pub max_key_id_size : ℕ
max_key_id_size = 255

abbrev pub max_product_id_size : ℕ
max_product_id_size = 255

abbrev pub max_feature_size : ℕ
max_feature_size = 128

abbrev pub max_features : ℕ
max_features = 256

abbrev pub max_error_message_size : ℕ
max_error_message_size = 256

-- The `case` labels of `validAuthorizationError`.
abbrev pub valid_authorization_error : ℕ → Bool
valid_authorization_error e =
    e == 0
    || (leb 1001 e && leb e 1003)
    || (leb 2001 e && leb e 2008)
    || (leb 3001 e && leb e 3004)
    || (leb 4001 e && leb e 4002)
    || (leb 5001 e && leb e 5002)

abbrev pub valid_authorization_state : ℕ → Bool
valid_authorization_state s = leb 1 s && leb s 4

abbrev pub valid_feature : Bytes → Bool
valid_feature feature = not (empty feature) && leb (length feature) max_feature_size

abbrev pub valid_features : List Bytes → Bool
valid_features features = leb (length features) max_features && all_of valid_feature features

-- `copyFixed` into an array of `size` bytes; where it returns false, every caller answers so.
abbrev pub copy_fixed : ℕ → Option Bytes → Result MessageError Bytes
copy_fixed size none = err invalid_field
copy_fixed size (some source) = if length source == size then ok source else err invalid_field

-- The loop of `copyFeatures`; a bad entry empties the result.
unfoldable pub copy_feature_list : List (Option Bytes) → Option (List Bytes)
copy_feature_list [] = some []
copy_feature_list (none ∷ rest) = none
copy_feature_list (some feature ∷ rest) =
    let copied = copy_feature_list rest in
    if valid_feature feature then Option.map (◌∷◌ feature) copied else none

unfoldable pub or_empty : Option (List Bytes) → List Bytes
or_empty none = []
or_empty (some features) = features

unfoldable pub copy_features : Option (List (Option Bytes)) → List Bytes
unfolding or_empty
copy_features none = []
copy_features (some source) =
    if ltb max_features (length source) then [] else or_empty (copy_feature_list source)

-- `source && source->size() != features.size()`
abbrev pub features_lost : Option (List (Option Bytes)) → List Bytes → Bool
features_lost none features = false
features_lost (some source) features = not (length source == length features)

-- What `createFeatures` and `CreateVector` write.
abbrev pub create_features : List Bytes → Option (List (Option Bytes))
create_features features = some (map some features)

module _ (fb : EnvelopeBuffers) where
  unfoldable pub finish : Envelope → Bytes
  finish e = fb.build e

  -- The root, where the buffer is a valid envelope.
  unfoldable pub checked_envelope : Bytes → Option Envelope
  checked_envelope bytes = elim (verify_envelope fb bytes (1024 * 1024) 16 256) [
    | ok u ↦ some (fb.get bytes)
    | err e ↦ none
  ]

-- What every decoder does: the envelope is verified, its version, request and tag are tested, and the
-- table of that tag is read.
module _ {T M : Type 0} (version_ok : ℕ → Bool) (as_body : Body → Option (Option T))
    (read : Envelope → T → Result MessageError M) where
  unfoldable pub typed_body : Envelope → Option (Option T) → Option (Result MessageError M)
  typed_body e none = some (err unexpected_type)
  typed_body e (some body) =
      if not (version_ok e.protocol_version) || e.request_id == 0
      then some (err unexpected_type)
      else Option.map (read e) body

  unfoldable pub decode_envelope : Option Envelope → Option (Result MessageError M)
  unfolding typed_body
  decode_envelope none = some (err invalid_envelope)
  decode_envelope (some e) = typed_body e (as_body e.body)

  unfoldable pub decode_body : EnvelopeBuffers → Bytes → Option (Result MessageError M)
  unfolding decode_envelope
  decode_body fb bytes = decode_envelope (checked_envelope fb bytes)

-- Handshake messages before the keys are there carry the version 0, all others another.
abbrev pub handshake_version : ℕ → Bool
handshake_version v = v == 0

abbrev pub application_version : ℕ → Bool
application_version v = not (v == 0)
