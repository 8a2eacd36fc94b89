-- ===== src/Protocol/Frame.antt =====
-- The 20-byte frame header and its checks (protocol/frame.h, frame.cpp).
pub mod Codec
use yo_authorize.Prelude.{
  ℕ, ◌+◌, ◌*◌, Bytes, Bool, true, false, not, List, [], ◌∷◌, ◌++◌, length, take, drop, ltb, ◌==◌,
  if◌then◌else◌, bytes_eq, bit_and, Result, ok, err, ◌>>=◌, ◌>>◌, fail_if, codes, ◌-◌,
}
use yo_authorize.Prelude.Words.{u8, write_word, read_word}

abbrev pub frame_header_size : ℕ
frame_header_size = 20

abbrev pub frame_version : ℕ
frame_version = 1

abbrev pub encrypted_flag : ℕ
encrypted_flag = 1

abbrev pub default_max_payload_size : ℕ
default_max_payload_size = 1024 * 1024

abbrev pub magic : Bytes
magic = codes "YAL1"

pub record FrameHeader : Type 0 where
  pub version : ℕ
  pub flags : ℕ
  pub sequence : ℕ
  pub payload_size : ℕ

pub data FrameError : Type 0 where
  insufficient_data invalid_magic unsupported_version unknown_flags : FrameError
  empty_payload payload_too_large length_mismatch : FrameError

-- `FrameDecodeResult` without its error.
pub record FrameDecoded : Type 0 where
  pub header : FrameHeader
  pub payload : Bytes

abbrev write_u16 : ℕ → Bytes
write_u16 value = write_word 2 value

abbrev write_u32 : ℕ → Bytes
write_u32 value = write_word 4 value

abbrev write_u64 : ℕ → Bytes
write_u64 value = write_word 8 value

abbrev read_u16 : Bytes → ℕ
read_u16 bytes = read_word 0x10000 0 bytes

abbrev read_u32 : Bytes → ℕ
read_u32 bytes = read_word 0x1_0000_0000 0 (take 4 bytes)

abbrev read_u64 : Bytes → ℕ
read_u64 bytes = read_word 0x1_0000_0000_0000_0000 0 (take 8 bytes)

-- `bytes.subspan<offset, count>()`
abbrev subspan : ℕ → ℕ → Bytes → Bytes
subspan offset count bytes = take count (drop offset bytes)

unfoldable pub encode_header : FrameHeader → Bytes
encode_header h =
    magic
    ++ (write_u16 h.version
        ++ (write_u16 h.flags ++ (write_u64 h.sequence ++ write_u32 h.payload_size)))

unfoldable pub read_header : Bytes → FrameHeader
read_header bytes = record {
  version = read_u16 (subspan 4 2 bytes);
  flags = read_u16 (subspan 6 2 bytes);
  sequence = read_u64 (subspan 8 8 bytes);
  payload_size = read_u32 (subspan 16 4 bytes);
}

-- `flags & ~kEncryptedFlag`, on 16 bits.
abbrev unknown_bits : ℕ → ℕ
unknown_bits flags = bit_and flags (0xffff - encrypted_flag)

unfoldable pub check_header : FrameHeader → ℕ → Result FrameError FrameDecoded
check_header h max_payload_size = do
  fail_if (not (h.version == frame_version)) unsupported_version
  fail_if (not (unknown_bits h.flags == 0)) unknown_flags
  fail_if (h.payload_size == 0) empty_payload
  fail_if (ltb max_payload_size h.payload_size) payload_too_large
  ok (record { header = h; payload = [] })

unfoldable pub decode_header : Bytes → ℕ → Result FrameError FrameDecoded
decode_header bytes max_payload_size =
    if ltb (length bytes) frame_header_size
    then err insufficient_data
    else if not (bytes_eq magic (take 4 bytes))
    then err invalid_magic
    else check_header (read_header bytes) max_payload_size

unfoldable pub decode_frame : Bytes → ℕ → Result FrameError FrameDecoded
decode_frame bytes max_payload_size = do
  result ← decode_header bytes max_payload_size
  fail_if (not (length bytes == frame_header_size + result.header.payload_size)) length_mismatch
  ok (record { header = result.header; payload = drop frame_header_size bytes })
