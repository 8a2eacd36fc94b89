-- ===== src/Protocol/Record/Streams.antt =====
-- Runs of records (protocol/record.cpp).
use yo_authorize.Prelude.{
  ℕ, Bytes, ◌≡◌, ok, List, ◌≤◌, [], err, ◌∷◌, arith, ◌+◌, Result-cases, inl, inr, All, Distinct,
  All-map_of, ◌≢◌, ok-injective, sym, ◌∙◌, ap, ◌<◌, if◌then◌else◌, ◌==◌, length, subst, refl, ◌++◌,
}
use yo_authorize.OpenSsl.{IsAead, OpenSsl}
use yo_authorize.Protocol.Record.{
  RecordWriter, RecordReader, open_record, FrameDecoded, RecordError, seal, invalid_sequence,
  sequence_exhausted, make_record_nonce, u64_max,
}
use yo_authorize.Protocol.Frame.{FrameDecoded, decode_frame, default_max_payload_size}
use yo_authorize.Protocol.Record.Channel.{InStep, open-seal, seal-Sealed}
use yo_authorize.Crypto.Transcript.{make_record_nonce}
use yo_authorize.Crypto.{seal_chacha20_poly1305}
use yo_authorize.Protocol.Frame.{encode_header, frame_header_size}
use yo_authorize.Protocol.Frame.Codec.{length-encode_header}
use yo_authorize.Protocol.Record.{seal_header}
use yo_authorize.Prelude.Words.{u64_max}
use yo_authorize.Crypto.Transcript.Binding.{make_record_nonce_inj}

module _ (o : OpenSsl) where
  -- The records of a run of calls of `seal` that all succeed.
  pub data Seals : RecordWriter → List Bytes → List Bytes → RecordWriter → Type 0 where
    idle : (w : RecordWriter) → Seals w [] [] w
    next :
        {w : RecordWriter} (w' : RecordWriter) {w'' : RecordWriter} (plaintext frame : Bytes)
        {plaintexts frames : List Bytes}
        → seal o w plaintext ≡ (ok frame, w')
        → Seals w' plaintexts frames w''
        → Seals w (plaintext ∷ plaintexts) (frame ∷ frames) w''

  pub data Opens : RecordReader → List Bytes → List Bytes → RecordReader → Type 0 where
    idle : (r : RecordReader) → Opens r [] [] r
    next :
        {r : RecordReader} (r' : RecordReader) {r'' : RecordReader} (frame plaintext : Bytes)
        {frames plaintexts : List Bytes}
        → open_record o r frame ≡ (ok plaintext, r')
        → Opens r' frames plaintexts r''
        → Opens r (frame ∷ frames) (plaintext ∷ plaintexts) r''

  -- However many records a writer seals, a reader in step with it, under the same key, opens them
  -- all to the plaintexts, in order, and ends in step. Asked of OpenSSL is that the AEAD keeps
  -- lengths and opens what it sealed.
  pub Seals-Opens :
      {w w' : RecordWriter} {plaintexts frames : List Bytes} (aead : IsAead o) (r : RecordReader)
      → InStep w r
      → Seals w plaintexts frames w'
      → (r' : RecordReader) × Opens r frames plaintexts r' × InStep w' r'
  Seals-Opens aead r i (Seals.idle w) = (r, Opens.idle r, i)
  Seals-Opens aead r i (Seals.next {w} w' plaintext frame e rest) =
      let (r1, opened, i1) = open-seal o aead w r plaintext frame w' i e in
      let (r2, run, i2) = Seals-Opens aead r1 i1 rest in
      (r2, Opens.next r1 frame plaintext opened run, i2)

  -- What a reader accepts carries the sequence number that it expects, and moves it on by one.
  open_record-sequence :
      (r r' : RecordReader) (frame plaintext : Bytes)
      → open_record o r frame ≡ (ok plaintext, r')
      → (d : FrameDecoded) × (decode_frame frame default_max_payload_size ≡ ok d)
        × (d.header.sequence ≡ r.next_sequence)
        × (r'.next_sequence ≡ r.next_sequence + 1)
        × (r'.key ≡ r.key)
  unfolding open_record
  open_record-sequence r r' frame plaintext e =
      elim (Result-cases (decode_frame frame default_max_payload_size)) [
        | inl (d, decoded) ↦
            (d, decoded, ground (arith, decoded), ground (arith, decoded), ground (arith, decoded))
        | inr (x, decoded) ↦ ground (arith, decoded)
      ]

  -- A failed call leaves the reader as it was, so a bad frame does not cost the good one its
  -- place.
  pub open_record-unchanged :
      (r r' : RecordReader) (frame : Bytes) (x : RecordError)
      → open_record o r frame ≡ (err x, r')
      → r' ≡ r
  unfolding open_record
  open_record-unchanged r r' frame x e = ground arith

  -- A record that was accepted once is refused by every later state of the reader, for its
  -- sequence number or, at the last one, because the numbers are used up, and the reader stays as
  -- it was.
  pub replay_refused :
      (r r' late : RecordReader) (frame plaintext : Bytes)
      → open_record o r frame ≡ (ok plaintext, r')
      → r'.next_sequence ≤ late.next_sequence
      → open_record o late frame ≡ (
        if late.next_sequence == u64_max then err sequence_exhausted else err invalid_sequence,
        late,
      )
  unfolding open_record
  replay_refused r r' late frame plaintext e h =
      elim (Result-cases (decode_frame frame default_max_payload_size)) [
        | inl (d, decoded) ↦ ground (arith, decoded)
        | inr (x, decoded) ↦ ground (arith, decoded)
      ]

  -- The frame decodes, to a header with a sequence number of at least n.
  abbrev IsFrom : ℕ → Bytes → Type 0
  IsFrom n frame =
      (d : FrameDecoded) × (decode_frame frame default_max_payload_size ≡ ok d)
      × (n ≤ d.header.sequence)

  IsFrom-mono : (m n : ℕ) (frame : Bytes) → m ≤ n → IsFrom n frame → IsFrom m frame
  IsFrom-mono m n frame h (d, e, k) = (d, e, omega arith)

  Opens-IsFrom :
      {r r' : RecordReader} {frames plaintexts : List Bytes}
      → Opens r frames plaintexts r'
      → All (IsFrom r.next_sequence) frames
  Opens-IsFrom (Opens.idle r) = tt
  Opens-IsFrom (Opens.next {r} r1 frame plaintext {frames} e rest) =
      let (d, decoded, now, later, _) = open_record-sequence r r1 frame plaintext e in
      (
        (d, decoded, omega arith),
        All-map_of (IsFrom r1.next_sequence) (IsFrom r.next_sequence) frames
            (λ f. IsFrom-mono r.next_sequence r1.next_sequence f (omega arith)) (Opens-IsFrom rest),
      )

  -- A reader never accepts the same frame twice in a run.
  pub Opens-Distinct :
      {r r' : RecordReader} {frames plaintexts : List Bytes}
      → Opens r frames plaintexts r'
      → Distinct frames
  Opens-Distinct (Opens.idle r) = tt
  Opens-Distinct (Opens.next {r} r1 frame plaintext {frames} e rest) =
      let (d, decoded, now, later, _) = open_record-sequence r r1 frame plaintext e in
      (
        All-map_of (IsFrom r1.next_sequence) (λ f. frame ≢ f) frames
            (λ f (d', decoded', h) same.
              let equal : d' ≡ d = ok-injective (
                sym decoded'
                ∙ ap (λ x. decode_frame x default_max_payload_size) (sym same)
                ∙ decoded) in
              omega (arith, ap (λ (x : FrameDecoded). x.header.sequence) equal))
            (Opens-IsFrom rest),
        Opens-Distinct rest,
      )

  -- The nonces under which a run of `seal` encrypts.
  abbrev pub nonces :
      {w w' : RecordWriter} {plaintexts frames : List Bytes}
      → Seals w plaintexts frames w'
      → List Bytes
  nonces (Seals.idle w) = []
  nonces (Seals.next {w} w1 plaintext frame e rest) =
      make_record_nonce w.key.nonce_salt w.next_sequence ∷ nonces rest

  -- A nonce of the writer's salt with a sequence number of at least n.
  abbrev IsNonceFrom : Bytes → ℕ → Bytes → Type 0
  IsNonceFrom salt n nonce =
      (m : ℕ) × (nonce ≡ make_record_nonce salt m) × (n ≤ m) × (m < 0x1_0000_0000_0000_0000)

  Sealed-next :
      (w w1 : RecordWriter) (plaintext frame : Bytes)
      → seal o w plaintext ≡ (ok frame, w1)
      → (w.next_sequence ≢ u64_max) × (w1.next_sequence ≡ w.next_sequence + 1) × (w1.key ≡ w.key)
  Sealed-next w w1 plaintext frame e =
      let s = seal-Sealed o w plaintext frame w1 e in
      (s.room, ap (λ x. x.next_sequence) s.after, ap (λ x. x.key) s.after)

  nonces-IsNonceFrom :
      {w w' : RecordWriter} {plaintexts frames : List Bytes} (salt : Bytes) (n : ℕ)
      → w.key.nonce_salt ≡ salt
      → n ≤ w.next_sequence
      → w.next_sequence < 0x1_0000_0000_0000_0000
      → (s : Seals w plaintexts frames w') → All (IsNonceFrom salt n) (nonces s)
  nonces-IsNonceFrom salt n k h q (Seals.idle w) = tt
  nonces-IsNonceFrom salt n k h q (Seals.next {w} w1 plaintext frame e rest) =
      let (room, up, same) = Sealed-next w w1 plaintext frame e in
      (
        (w.next_sequence, ap (λ x. make_record_nonce x w.next_sequence) k, h, q),
        nonces-IsNonceFrom salt n (ap (λ x. x.nonce_salt) same ∙ k) (omega arith) (omega arith)
            rest,
      )

  -- The AEAD, called with this key and nonce on the plaintext, made the frame's payload, with the
  -- frame's header as associated data.
  pub record Encrypted (key nonce plaintext frame : Bytes) : Type 0 where
    pub header : Bytes
    pub payload : Bytes
    pub sized : length header ≡ frame_header_size
    pub whole : frame ≡ header ++ payload
    pub called : seal_chacha20_poly1305 o key nonce plaintext header ≡ ok payload

  -- Each frame was encrypted under the nonce at its place.
  abbrev pub AllEncrypted : Bytes → List Bytes → List Bytes → List Bytes → Type 0
  AllEncrypted key (nonce ∷ ns) (plaintext ∷ ps) (frame ∷ fs) =
      Encrypted key nonce plaintext frame × AllEncrypted key ns ps fs
  AllEncrypted key [] [] [] = Unit {0}
  AllEncrypted key ns ps fs = ⊥

  seal-Encrypted :
      (w w1 : RecordWriter) (plaintext frame : Bytes)
      → seal o w plaintext ≡ (ok frame, w1)
      → Encrypted w.key.key (make_record_nonce w.key.nonce_salt w.next_sequence) plaintext frame
  seal-Encrypted w w1 plaintext frame e =
      let s = seal-Sealed o w plaintext frame w1 e in
      record {
        header = encode_header (seal_header w plaintext);
        payload = s.body;
        sized = length-encode_header (seal_header w plaintext);
        whole = s.whole;
        called = s.encrypted;
      }

  nonces-AllEncrypted :
      {w w' : RecordWriter} {plaintexts frames : List Bytes} (key : Bytes)
      → w.key.key ≡ key
      → (s : Seals w plaintexts frames w') → AllEncrypted key (nonces s) plaintexts frames
  nonces-AllEncrypted key k (Seals.idle w) = tt
  nonces-AllEncrypted key k (Seals.next {w} w1 plaintext frame e rest) =
      let (room, up, same) = Sealed-next w w1 plaintext frame e in
      let nonce = make_record_nonce w.key.nonce_salt w.next_sequence in
      (
        subst (λ x. Encrypted x nonce plaintext frame) k (seal-Encrypted w w1 plaintext frame e),
        nonces-AllEncrypted key (ap (λ x. x.key) same ∙ k) rest,
      )

  Distinct-nonces :
      {w w' : RecordWriter} {plaintexts frames : List Bytes}
      → w.next_sequence < 0x1_0000_0000_0000_0000
      → (s : Seals w plaintexts frames w') → Distinct (nonces s)
  Distinct-nonces q (Seals.idle w) = tt
  Distinct-nonces q (Seals.next {w} w1 plaintext frame e rest) =
      let (room, up, same) = Sealed-next w w1 plaintext frame e in
      let salt = w.key.nonce_salt in
      let now = w.next_sequence in
      let later =
        nonces-IsNonceFrom salt (now + 1) (ap (λ x. x.nonce_salt) same) (omega arith) (omega arith)
          rest in
      (
        All-map_of (IsNonceFrom salt (now + 1)) (λ x. make_record_nonce salt now ≢ x) (nonces rest)
            (λ x (m, e, h, k) clash.
              omega (arith, make_record_nonce_inj salt now m q k (clash ∙ e)))
            later,
        Distinct-nonces (omega arith) rest,
      )

  -- In a run of a writer whose next sequence number fits 64 bits, the payload of each frame is
  -- what the AEAD made of its plaintext, with the header of 20 bytes as associated data, under the
  -- key of the writer and the nonce listed for the frame, and no two of these nonces are the same.
  pub nonces-Distinct :
      {w w' : RecordWriter} {plaintexts frames : List Bytes}
      → w.next_sequence < 0x1_0000_0000_0000_0000
      → (s : Seals w plaintexts frames w')
      → Distinct (nonces s) × AllEncrypted w.key.key (nonces s) plaintexts frames
  nonces-Distinct {w} q s = (Distinct-nonces q s, nonces-AllEncrypted w.key.key refl s)
