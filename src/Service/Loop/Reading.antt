-- ===== src/Service/Loop/Reading.antt =====
-- The frames that `readFrame` takes out of the peer's stream (service/service.cpp).
use yo_authorize.Protocol.Frame.{
  decode_header, decode_frame, read_header, frame_header_size, default_max_payload_size,
  FrameDecoded, FrameError,
}
use yo_authorize.Transport.{Transport, IsTransport, Status, Deadline, is_success}
use yo_authorize.Service.Loop.{read_frame, header_read, header_decoded, payload_read, Bytes, ℕ}
use yo_authorize.Service.ServiceError.{ServiceError}
use yo_authorize.Prelude.{
  length, ◌≡◌, ◌++◌, subspan-append, arith, le→ltb, ok, Option, some, length-append, Result, ◌∙◌,
  subst, ◌==◌, take-append_le, err, ap, ◌+◌, true, sym, none, ==_iff, append_assoc, drop-append,
  if-elim, refl,
}

read_header-append :
    (header rest : Bytes) → length header ≡ 20 → read_header (header ++ rest) ≡ read_header header
unfolding read_header
read_header-append header rest n = rw (
  subspan-append 2 4 header rest (omega arith),
  subspan-append 2 6 header rest (omega arith),
  subspan-append 8 8 header rest (omega arith),
  subspan-append 4 16 header rest (omega arith),
)

-- A header is decoded alike with the payload behind it.
decode_header-append :
    (header rest : Bytes) (limit : ℕ)
    → length header ≡ 20
    → decode_header (header ++ rest) limit ≡ decode_header header limit
unfolding decode_header
decode_header-append header rest limit n = rw (
  le→ltb (length (header ++ rest)) 20 (omega (arith, length-append header rest)),
  le→ltb (length header) 20 (omega arith),
  take-append_le 4 header rest (omega arith),
  read_header-append header rest n,
)

decode_frame-read :
    (header payload : Bytes) (limit : ℕ) (d : FrameDecoded)
    → length header ≡ 20
    → decode_header header limit ≡ ok d
    → length payload ≡ d.header.payload_size
    → decode_frame (header ++ payload) limit ≡ ok (record { header = d.header; payload = payload })
unfolding decode_frame
decode_frame-read header payload limit d n e m =
    let fits : (length (header ++ payload) == 20 + d.header.payload_size) ≡ true =
      (==_iff (length (header ++ payload)) (20 + d.header.payload_size)).1
        (omega (arith, length-append header payload)) in
    rw (decode_header-append header payload limit n, e, fits, drop-append 20 header payload n)

module _ {S : Type 0} (t : Transport S) (incoming outgoing : S → Bytes)
    (l : IsTransport t incoming outgoing) where
  -- The frame is what the peer sends next, and one that the decoder accepts.
  Framed : S → Option (Result ServiceError Bytes × S) → Type 0
  Framed s none = Unit {0}
  Framed s (some (err e, s')) = (skipped : Bytes) × (incoming s ≡ skipped ++ incoming s')
  Framed s (some (ok frame, s')) =
      (decoded : FrameDecoded) × (incoming s ≡ frame ++ incoming s')
      × (decode_frame frame default_max_payload_size ≡ ok decoded)

  read_frame-Framed : (d : Deadline) (s : S) → Framed s (read_frame t d s)
  unfolding read_frame header_read header_decoded payload_read Framed
  read_frame-Framed d s = header_case (t.read_exact d frame_header_size s) refl
    where
      payload_case :
          (header : Bytes) (s1 : S) (decoded : FrameDecoded) (x : Option (Status × Bytes × S))
          → incoming s ≡ header ++ incoming s1
          → length header ≡ 20
          → decode_header header default_max_payload_size ≡ ok decoded
          → t.read_exact d decoded.header.payload_size s1 ≡ x
          → Framed s (payload_read t header x)
      payload_case header s1 decoded none i n e q = tt
      payload_case header s1 decoded (some (status, payload, s2)) i n e q =
          let (stream, same, whole) =
            l.reads d decoded.header.payload_size s1 s2 status payload q in
          let all : incoming s ≡ (header ++ payload) ++ incoming s2 =
            i ∙ ap (◌++◌ header) stream ∙ sym (append_assoc header payload (incoming s2)) in
          if-elim (Framed s) (is_success status)
            (λ k. (
              record { header = decoded.header; payload = payload },
              all,
              decode_frame-read header payload default_max_payload_size decoded n e (whole k),
            ))
            (λ k. (header ++ payload, all))

      decoded_case :
          (header : Bytes) (s1 : S) (x : Result FrameError FrameDecoded)
          → incoming s ≡ header ++ incoming s1
          → length header ≡ 20
          → decode_header header default_max_payload_size ≡ x
          → Framed s (header_decoded t d header x s1)
      decoded_case header s1 (err e) i n q = (header, i)
      decoded_case header s1 (ok decoded) i n q =
          payload_case header s1 decoded (t.read_exact d decoded.header.payload_size s1) i n q refl

      header_case :
          (x : Option (Status × Bytes × S))
          → t.read_exact d frame_header_size s ≡ x
          → Framed s (header_read t d x)
      header_case none q = tt
      header_case (some (status, header, s1)) q =
          let (stream, same, whole) = l.reads d frame_header_size s s1 status header q in
          if-elim (Framed s) (is_success status)
            (λ k.
              decoded_case header s1 (decode_header header default_max_payload_size) stream
                (whole k) refl)
            (λ k. (header, stream))

  -- Over a transport that keeps its contract, a frame that `readFrame` returns is what the peer's
  -- stream holds next, byte for byte, and one that the frame decoder accepts.
  pub read_frame_lem :
      (d : Deadline) (s s' : S) {frame : Bytes}
      → read_frame t d s ≡ some (ok frame, s')
      → (decoded : FrameDecoded) × (incoming s ≡ frame ++ incoming s')
        × (decode_frame frame default_max_payload_size ≡ ok decoded)
  unfolding Framed
  read_frame_lem d s s' e = subst (Framed s) e (read_frame-Framed d s)
