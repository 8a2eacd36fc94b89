-- ===== src/Protocol/Frame/Codec.antt =====
-- `encodeHeader` against `decodeHeader` and `decodeFrame` (protocol/frame.cpp).
use yo_authorize.Prelude.{
  ℕ, refl, ◌≤◌, ◌<◌, Bytes, ◌++◌, ◌≡◌, length, ok, arith, [], bytes_eq, ap, ◌∙◌, le→ltb, All,
  IsByte, take, drop, ==_iff, All-take, ◌+◌, length-take, All-drop, take-take, length-drop,
  subspan-drop, sym, ltb, if-eq-ok, >>=-eq-ok, fail_if-eq-ok, not, ◌==◌, bytes_eq_iff, ok-injective,
}
use yo_authorize.Protocol.Frame.{
  FrameHeader, FrameDecoded, frame_version, encode_header, decode_header, check_header, read_header,
  decode_frame, magic, write_u16, write_u64, write_u32, read_u16, read_u64, read_u32,
  insufficient_data, invalid_magic, length_mismatch,
}
use yo_authorize.Prelude.Bits.{bit_and_clear_lowest}
use yo_authorize.Prelude.Words.{
  read-write_u16, read-write_u64, read-write_u32, write-read_u16, write-read_u64, write-read_u32,
}

-- The headers that a decoder under `max` accepts.
pub record IsHeader (max : ℕ) (h : FrameHeader) : Type 0 where
  pub version : h.version ≡ frame_version
  pub flags : h.flags < 2
  pub sequence : h.sequence < 0x1_0000_0000_0000_0000
  pub nonempty : 0 < h.payload_size
  pub bounded : h.payload_size ≤ max

pub length-encode_header : (h : FrameHeader) → length (encode_header h) ≡ 20
unfolding encode_header
length-encode_header h = refl

-- The decoder's tests, as a predicate: a header passes exactly where it is an `IsHeader`.
check_header-IsHeader :
    (max : ℕ) (h : FrameHeader)
    → h.flags < 0x10000
    → IsHeader max h
    → check_header h max ≡ ok (record { header = h; payload = [] })
unfolding check_header
check_header-IsHeader max h f v = ground (arith, bit_and_clear_lowest h.flags)

IsHeader-check_header :
    (max : ℕ) (h : FrameHeader) {d : FrameDecoded}
    → h.flags < 0x10000
    → h.sequence < 0x1_0000_0000_0000_0000
    → check_header h max ≡ ok d
    → IsHeader max h × (d ≡ record { header = h; payload = [] })
unfolding check_header
IsHeader-check_header max h f q e = ground (arith, bit_and_clear_lowest h.flags)

read_header-encode :
    (h : FrameHeader) (rest : Bytes)
    → h.version < 0x10000
    → h.flags < 0x10000
    → h.sequence < 0x1_0000_0000_0000_0000
    → h.payload_size < 0x1_0000_0000
    → read_header (encode_header h ++ rest) ≡ h
unfolding read_header encode_header
read_header-encode h rest v f q p = λ i. record {
  version = read-write_u16 h.version v i;
  flags = read-write_u16 h.flags f i;
  sequence = read-write_u64 h.sequence q i;
  payload_size = read-write_u32 h.payload_size p i;
}

pub decode_header-encode :
    (max : ℕ) (h : FrameHeader) (rest : Bytes)
    → IsHeader max h
    → max < 0x1_0000_0000
    → decode_header (encode_header h ++ rest) max ≡ ok (record { header = h; payload = [] })
unfolding decode_header encode_header bytes_eq
decode_header-encode max h rest v m =
    rw (le→ltb (length (encode_header h ++ rest)) 20 (omega arith)) (
      ap (λ x. check_header x max)
        (read_header-encode h rest (omega arith) (omega arith) v.sequence (omega arith))
      ∙ check_header-IsHeader max h (omega arith) v)

-- An encoded header before a payload of the size that it states decodes to that header and
-- payload, where the header is one that the decoder's limit admits and the limit fits 32 bits.
pub decode_frame-encode :
    (max : ℕ) (h : FrameHeader) (payload : Bytes)
    → IsHeader max h
    → max < 0x1_0000_0000
    → length payload ≡ h.payload_size
    → decode_frame (encode_header h ++ payload) max ≡ ok (record { header = h; payload = payload })
unfolding decode_frame encode_header
decode_frame-encode max h payload v m l =
    rw (decode_header-encode max h payload v m)
      (rw ((==_iff (length (encode_header h ++ payload)) (20 + h.payload_size)).1 (omega arith)))

module _ (bytes : Bytes) (long : 20 ≤ length bytes) (b : All IsByte bytes) where
  piece-length : (n m : ℕ) → m + n ≤ 20 → length (take n (drop m bytes)) ≡ n
  piece-length n m h = length-take n (drop m bytes) (omega (arith, length-drop m bytes))

  piece-IsByte : (n m : ℕ) → All IsByte (take n (drop m bytes))
  piece-IsByte n m = All-take IsByte n (drop m bytes) (All-drop IsByte m bytes b)

  -- The word read from a span, written back before what follows the span.
  piece-drop :
      (n m : ℕ) (word rest : Bytes)
      → word ≡ take n (drop m bytes)
      → rest ≡ drop (m + n) bytes
      → word ++ rest ≡ drop m bytes
  piece-drop n m word rest e r = rw (e, r) (subspan-drop n m bytes)

  read_u16_back :
      (m : ℕ) → m ≤ 18 → write_u16 (read_u16 (take 2 (drop m bytes))) ≡ take 2 (drop m bytes)
  read_u16_back m h = (write-read_u16 _ (piece-length 2 m (omega arith)) (piece-IsByte 2 m)).0

  read_u64_back : write_u64 (read_u64 (take 8 (drop 8 bytes))) ≡ take 8 (drop 8 bytes)
  read_u64_back =
      rw (take-take 8 (drop 8 bytes))
        (write-read_u64 _ (piece-length 8 8 (omega arith)) (piece-IsByte 8 8)).0

  read_u32_back : write_u32 (read_u32 (take 4 (drop 16 bytes))) ≡ take 4 (drop 16 bytes)
  read_u32_back =
      rw (take-take 4 (drop 16 bytes))
        (write-read_u32 _ (piece-length 4 16 (omega arith)) (piece-IsByte 4 16)).0

  -- Twenty bytes or more that start with the magic are the encoding of what `read_header` reads.
  encode-read_header :
      take 4 bytes ≡ magic → encode_header (read_header bytes) ++ drop 20 bytes ≡ bytes
  unfolding read_header encode_header
  encode-read_header m = piece-drop 4 0 magic _ (sym m) (
      piece-drop 2 4 _ _ (read_u16_back 4 (omega arith)) (
        piece-drop 2 6 _ _ (read_u16_back 6 (omega arith)) (
          piece-drop 8 8 _ _ read_u64_back (piece-drop 4 16 _ (drop 20 bytes) read_u32_back refl))))

  read_header_bounds :
      ((read_header bytes).flags < 0x10000)
      × ((read_header bytes).sequence < 0x1_0000_0000_0000_0000)
  unfolding read_header
  read_header_bounds = (
    (write-read_u16 (take 2 (drop 6 bytes)) (piece-length 2 6 (omega arith)) (piece-IsByte 2 6)).1,
    rw (take-take 8 (drop 8 bytes))
        (write-read_u64 (take 8 (drop 8 bytes)) (piece-length 8 8 (omega arith))
          (piece-IsByte 8 8)).1,
  )

-- What `decode_header` accepts passed all its tests.
IsHeader-decode_header :
    (bytes : Bytes) (max : ℕ) (d : FrameDecoded)
    → All IsByte bytes
    → decode_header bytes max ≡ ok d
    → (20 ≤ length bytes)
      × (take 4 bytes ≡ magic)
      × IsHeader max (read_header bytes)
      × (d ≡ record { header = read_header bytes; payload = [] })
unfolding decode_header
IsHeader-decode_header bytes max d b e =
    let (long, e1) = if-eq-ok (ltb (length bytes) 20) insufficient_data _ e in
    let (starts, e2) = if-eq-ok (not (bytes_eq magic (take 4 bytes))) invalid_magic _ e1 in
    let enough : 20 ≤ length bytes = ground arith in
    let (flags, sequence) = read_header_bounds bytes enough b in
    let (header, same) = IsHeader-check_header max (read_header bytes) flags sequence e2 in
    (enough, ground (arith, bytes_eq_iff magic (take 4 bytes)), header, same)

-- A frame of bytes that decodes is the encoding of what it decodes to, with no byte left over; the
-- header is one that the limit admits, and states the payload's size.
pub encode-decode_frame :
    (bytes : Bytes) (max : ℕ) (d : FrameDecoded)
    → All IsByte bytes
    → decode_frame bytes max ≡ ok d
    → (encode_header d.header ++ d.payload ≡ bytes)
      × IsHeader max d.header
      × (length d.payload ≡ d.header.payload_size)
unfolding decode_frame
encode-decode_frame bytes max d b e =
    let (r, decoded, e1) = >>=-eq-ok (decode_header bytes max) _ e in
    let (size, e2) =
      fail_if-eq-ok (not (length bytes == 20 + r.header.payload_size)) length_mismatch _ e1 in
    let (long, starts, header, same) = IsHeader-decode_header bytes max r b decoded in
    let whole : d ≡ record { header = read_header bytes; payload = drop 20 bytes } =
      sym (ok-injective e2)
      ∙ ap (λ (x : FrameDecoded). record { header = x.header; payload = drop 20 bytes }) same in
    let declared : length bytes ≡ 20 + (read_header bytes).payload_size =
      ground (arith, ap (λ (x : FrameDecoded). x.header.payload_size) same) in
    rw whole (encode-read_header bytes long b starts, header, omega (arith, length-drop 20 bytes))
