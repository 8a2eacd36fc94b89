-- ===== src/Protocol/Record/Channel.antt =====
-- One record, from a writer to a reader (protocol/record.cpp).
use yo_authorize.Prelude.{
  Bytes, ◌≡◌, ok, ◌≢◌, ◌<◌, length, Result-cases, ◌≤◌, inl, ◌++◌, arith, ◌+◌, inr, take, ap, ◌∙◌,
  take-append, sym, refl,
}
use yo_authorize.OpenSsl.{OpenSsl, IsAead}
use yo_authorize.Protocol.Record.{
  seal, RecordWriter, make_record_nonce, u64_max, encode_header, seal_header,
  seal_chacha20_poly1305, RecordReader, open_record, new_writer, new_reader, RecordKey,
}
use yo_authorize.Crypto.Transcript.{make_record_nonce}
use yo_authorize.Prelude.Words.{u64_max, u32}
use yo_authorize.Protocol.Frame.{
  encode_header, decode_frame, default_max_payload_size, frame_header_size,
}
use yo_authorize.Crypto.{seal_chacha20_poly1305}
use yo_authorize.Protocol.Frame.Codec.{IsHeader, decode_frame-encode, length-encode_header}
use yo_authorize.Crypto.Aead.{length-seal_chacha20_poly1305, open-seal_chacha20_poly1305}

module _ (o : OpenSsl) where
  -- What a record that was sealed is, and what it does to the writer.
  pub record Sealed (w : RecordWriter) (plaintext frame : Bytes) (w' : RecordWriter) : Type 0 where
    pub body : Bytes
    pub room : w.next_sequence ≢ u64_max
    pub nonempty : 0 < length plaintext
    pub bounded : length plaintext ≤ 1048560
    pub encrypted :
        seal_chacha20_poly1305 o w.key.key
          (make_record_nonce w.key.nonce_salt w.next_sequence)
          plaintext
          (encode_header (seal_header w plaintext))
        ≡ ok body
    pub whole : frame ≡ encode_header (seal_header w plaintext) ++ body
    pub after : w' ≡ record w { next_sequence = w.next_sequence + 1 }

  pub seal-Sealed :
      (w : RecordWriter) (plaintext frame : Bytes) (w' : RecordWriter)
      → seal o w plaintext ≡ (ok frame, w')
      → Sealed w plaintext frame w'
  unfolding seal
  seal-Sealed w plaintext frame w' e =
      let key = w.key.key in
      let nonce = make_record_nonce w.key.nonce_salt w.next_sequence in
      let header = encode_header (seal_header w plaintext) in
      elim (Result-cases (seal_chacha20_poly1305 o w.key.key nonce plaintext header)) [
        | inl (body, enc) ↦ record {
          body = body;
          room = ground (arith, enc);
          nonempty = ground (arith, enc);
          bounded = ground (arith, enc);
          encrypted = enc;
          whole = ground (arith, enc);
          after = ground (arith, enc);
        }
        | inr (x, enc) ↦ ground (arith, enc)
      ]

-- The reader expects the writer's next record, under the writer's key.
pub record InStep (w : RecordWriter) (r : RecordReader) : Type 0 where
  pub key : w.key ≡ r.key
  pub sequence : w.next_sequence ≡ r.next_sequence
  pub in_range : w.next_sequence < 0x1_0000_0000_0000_0000

pub new-InStep : {k j : RecordKey} → k ≡ j → InStep (new_writer k) (new_reader j)
unfolding new_writer new_reader
new-InStep e = record { key = e; sequence = refl; in_range = omega arith }

module _ (o : OpenSsl) (aead : IsAead o) where
  decode-Sealed :
      (w : RecordWriter) (plaintext frame : Bytes) (w' : RecordWriter)
      → w.next_sequence < 0x1_0000_0000_0000_0000
      → (s : Sealed o w plaintext frame w')
      → decode_frame frame default_max_payload_size
        ≡ ok (record { header = seal_header w plaintext; payload = s.body })
  unfolding seal_header
  decode-Sealed w plaintext frame w' q s =
      let size : u32 (length plaintext + 16) ≡ length plaintext + 16 =
        let b = s.bounded in omega arith in
      let valid : IsHeader default_max_payload_size (seal_header w plaintext) =
        let b = s.bounded in
        record {
          version = refl;
          flags = omega arith;
          sequence = q;
          nonempty = omega arith;
          bounded = omega arith;
        } in
      ap (λ x. decode_frame x default_max_payload_size) s.whole
      ∙ decode_frame-encode default_max_payload_size (seal_header w plaintext) s.body valid
          (omega arith) (length-seal_chacha20_poly1305 o aead _ _ _ _ s.encrypted ∙ sym size)

  -- What a writer seals, a reader in step opens to the same plaintext, and they stay in step.
  pub open-seal :
      (w : RecordWriter) (r : RecordReader) (plaintext frame : Bytes) (w' : RecordWriter)
      → InStep w r
      → seal o w plaintext ≡ (ok frame, w')
      → (r' : RecordReader) × (open_record o r frame ≡ (ok plaintext, r')) × InStep w' r'
  unfolding open_record seal_header
  open-seal w r plaintext frame w' i e =
      let s = seal-Sealed o w plaintext frame w' e in
      let d = decode-Sealed w plaintext frame w' i.in_range s in
      let head : take frame_header_size frame ≡ encode_header (seal_header w plaintext) =
        ap (λ x. take frame_header_size x) s.whole
        ∙ take-append 20 _ s.body (length-encode_header _) in
      let plain = open-seal_chacha20_poly1305 o aead _ _ _ _ s.encrypted in
      (
        record r { next_sequence = r.next_sequence + 1 },
        ground (arith, s.room, d, head, plain),
        record {
          key = ap (λ x. x.key) s.after ∙ i.key;
          sequence = ground (arith, ap (λ x. x.next_sequence) s.after);
          in_range = ground (arith, s.room, ap (λ x. x.next_sequence) s.after);
        },
      )
