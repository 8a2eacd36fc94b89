-- ===== src/Examples/Frames.antt =====
-- Frames.
use yo_authorize.Prelude.{Bytes, ◌∷◌, arith, ◌++◌, All, [], ◌≡◌, IsByte, refl, ok, length}
use yo_authorize.Protocol.Frame.{FrameHeader, decode_frame, encode_header}
use yo_authorize.Protocol.Frame.Codec.{IsHeader, encode-decode_frame, decode_frame-encode}

abbrev payload : Bytes
payload = 7 ∷ 8 ∷ 9 ∷ []

abbrev header : FrameHeader
header = record { version = 1; flags = 1; sequence = 300; payload_size = 3 }

header-IsHeader : IsHeader 1048576 header
header-IsHeader = record {
  version = refl;
  flags = omega arith;
  sequence = omega arith;
  nonempty = omega arith;
  bounded = omega arith;
}

decode_frame-encode_example :
    decode_frame (encode_header header ++ payload) 1048576
    ≡ ok (record { header = header; payload = payload })
decode_frame-encode_example =
    decode_frame-encode 1048576 header payload header-IsHeader (omega arith) refl

frame_bytes : All IsByte (encode_header header ++ payload)
unfolding encode_header
frame_bytes = omega arith

encode-decode_frame_example :
    (encode_header header ++ payload ≡ encode_header header ++ payload)
    × IsHeader 1048576 header
    × (length payload ≡ header.payload_size)
encode-decode_frame_example =
    encode-decode_frame (encode_header header ++ payload) 1048576
      (record { header = header; payload = payload }) frame_bytes decode_frame-encode_example
