-- ===== src/Protocol/Record.antt =====
-- Encrypted records with strictly increasing sequence numbers (protocol/record.h, record.cpp). The
-- AEAD is crypto.cpp's, over OpenSSL. Wiping a key when it is no longer used is not modelled.
pub mod Channel
pub mod Streams
use yo_authorize.Prelude.{
  ℕ, ◌+◌, ◌-◌, Bytes, ◌++◌, ◌||◌, not, length, take, ltb, ◌==◌, if◌then◌else◌, empty, Result, ok,
  err,
}
use yo_authorize.Prelude.Words.{u32, u64_max}
use yo_authorize.OpenSsl.{OpenSsl}
use yo_authorize.Crypto.{CryptoError, tag_size, seal_chacha20_poly1305, open_chacha20_poly1305}
use yo_authorize.Crypto.Transcript.{make_record_nonce}
use yo_authorize.Protocol.Frame.{
  FrameHeader, FrameError, FrameDecoded, frame_header_size, frame_version, encrypted_flag,
  default_max_payload_size, encode_header, decode_frame,
}

pub record RecordKey : Type 0 where
  pub key : Bytes
  pub nonce_salt : Bytes

pub data RecordError : Type 0 where
  invalid_frame unencrypted_frame invalid_sequence sequence_exhausted : RecordError
  authentication_failed : RecordError

pub record RecordWriter : Type 0 where
  pub key : RecordKey
  pub next_sequence : ℕ

pub record RecordReader : Type 0 where
  pub key : RecordKey
  pub next_sequence : ℕ

unfoldable pub new_writer : RecordKey → RecordWriter
new_writer key = record { key = key; next_sequence = 1 }

unfoldable pub new_reader : RecordKey → RecordReader
new_reader key = record { key = key; next_sequence = 1 }

unfoldable pub seal_header : RecordWriter → Bytes → FrameHeader
seal_header w plaintext = record {
  version = frame_version;
  flags = encrypted_flag;
  sequence = w.next_sequence;
  payload_size = u32 (length plaintext + tag_size);
}

-- Each call returns the object as it leaves it, beside its result.
module _ (o : OpenSsl) where
  unfoldable pub sealed :
      RecordWriter → Bytes → Result CryptoError Bytes → Result RecordError Bytes × RecordWriter
  sealed w encoded_header (err e) = (err authentication_failed, w)
  sealed w encoded_header (ok encrypted) =
      (ok (encoded_header ++ encrypted), record w { next_sequence = w.next_sequence + 1 })

  unfoldable pub seal : RecordWriter → Bytes → Result RecordError Bytes × RecordWriter
  unfolding sealed
  seal w plaintext =
      if w.next_sequence == u64_max
      then (err sequence_exhausted, w)
      else if empty plaintext || ltb (default_max_payload_size - tag_size) (length plaintext)
      then (err invalid_frame, w)
      else sealed w (encode_header (seal_header w plaintext)) (
          seal_chacha20_poly1305 o w.key.key (make_record_nonce w.key.nonce_salt w.next_sequence)
            plaintext (encode_header (seal_header w plaintext)))

  unfoldable pub opened :
      RecordReader → Result CryptoError Bytes → Result RecordError Bytes × RecordReader
  opened r (err e) = (err authentication_failed, r)
  opened r (ok plaintext) = (ok plaintext, record r { next_sequence = r.next_sequence + 1 })

  unfoldable pub open_decoded :
      RecordReader
      → Bytes
      → Result FrameError FrameDecoded
      → Result RecordError Bytes × RecordReader
  unfolding opened
  open_decoded r frame (err e) = (err invalid_frame, r)
  open_decoded r frame (ok decoded) =
      if not (decoded.header.flags == encrypted_flag)
      then (err unencrypted_frame, r)
      else if not (decoded.header.sequence == r.next_sequence)
      then (err invalid_sequence, r)
      else opened r (
          open_chacha20_poly1305 o r.key.key (make_record_nonce r.key.nonce_salt r.next_sequence)
            decoded.payload (take frame_header_size frame))

  unfoldable pub open_record : RecordReader → Bytes → Result RecordError Bytes × RecordReader
  unfolding open_decoded
  open_record r frame =
      if r.next_sequence == u64_max
      then (err sequence_exhausted, r)
      else open_decoded r frame (decode_frame frame default_max_payload_size)
