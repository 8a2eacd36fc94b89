-- ===== src/Examples/Records.antt =====
-- A channel over the simple ciphers.
use Prim.Native.Nat.{ℕ}
use yo_authorize.Protocol.Record.{
  RecordKey, RecordReader, open_record, RecordWriter, RecordError, invalid_sequence,
  sequence_exhausted, seal_header, sealed, seal, opened, open_decoded,
}
use yo_authorize.Prelude.{
  Result, ◌≡◌, Distinct, zeros, arith, ◌∷◌, codes, Bytes, [], ok, if◌then◌else◌, refl, err, ◌==◌,
  bytes_eq,
}
use yo_authorize.Protocol.Frame.{
  encode_header, read_header, check_header, decode_header, decode_frame,
}
use yo_authorize.Protocol.Record.Channel.{InStep, open-seal}
use yo_authorize.Protocol.Record.Streams.{
  Seals, Opens, open_record-unchanged, nonces, nonces-Distinct, AllEncrypted, Seals-Opens,
  replay_refused,
}
use yo_authorize.Examples.Ciphers.{toy, toy-IsAead, fit, tag_of}
use yo_authorize.Prelude.Words.{u64_max, read_word}
use yo_authorize.Crypto.{sealed_bytes, seal_chacha20_poly1305, open_chacha20_poly1305}
use yo_authorize.Crypto.Transcript.{make_record_nonce}

abbrev key : RecordKey
key = record { key = zeros 32; nonce_salt = codes "salt" }

abbrev writer : ℕ → RecordWriter
writer n = record { key = key; next_sequence = n }

abbrev reader : ℕ → RecordReader
reader n = record { key = key; next_sequence = n }

abbrev result_of : Result RecordError Bytes × RecordWriter → Bytes
result_of (ok bytes, w) = bytes
result_of (err e, w) = []

first : Bytes
unfolding seal sealed seal_header encode_header seal_chacha20_poly1305 sealed_bytes
    make_record_nonce toy fit tag_of
first = result_of (seal toy (writer 1) (codes "one"))

second : Bytes
unfolding seal sealed seal_header encode_header seal_chacha20_poly1305 sealed_bytes
    make_record_nonce toy fit tag_of
second = result_of (seal toy (writer 2) (codes "two"))

seal-first : seal toy (writer 1) (codes "one") ≡ (ok first, writer 2)
unfolding first seal sealed seal_header encode_header seal_chacha20_poly1305 sealed_bytes
    make_record_nonce toy fit tag_of
seal-first = refl

seal-second : seal toy (writer 2) (codes "two") ≡ (ok second, writer 3)
unfolding second seal sealed seal_header encode_header seal_chacha20_poly1305 sealed_bytes
    make_record_nonce toy fit tag_of
seal-second = refl

open_record-first : open_record toy (reader 1) first ≡ (ok (codes "one"), reader 2)
unfolding first seal sealed seal_header encode_header seal_chacha20_poly1305 sealed_bytes
    make_record_nonce toy fit tag_of open_record open_decoded opened decode_frame decode_header
    check_header read_header open_chacha20_poly1305 read_word bytes_eq
open_record-first = refl

open_record-second : open_record toy (reader 2) second ≡ (ok (codes "two"), reader 3)
unfolding second seal sealed seal_header encode_header seal_chacha20_poly1305 sealed_bytes
    make_record_nonce toy fit tag_of open_record open_decoded opened decode_frame decode_header
    check_header read_header open_chacha20_poly1305 read_word bytes_eq
open_record-second = refl

open_record-early : open_record toy (reader 1) second ≡ (err invalid_sequence, reader 1)
unfolding second seal sealed seal_header encode_header seal_chacha20_poly1305 sealed_bytes
    make_record_nonce toy fit tag_of open_record open_decoded opened decode_frame decode_header
    check_header read_header open_chacha20_poly1305 read_word bytes_eq
open_record-early = refl

in_step : InStep (writer 1) (reader 1)
in_step = record { key = refl; sequence = refl; in_range = omega arith }

sealed_run : Seals toy (writer 1) (codes "one" ∷ codes "two" ∷ []) (first ∷ second ∷ []) (writer 3)
sealed_run = Seals.next _ _ _ seal-first (Seals.next _ _ _ seal-second (Seals.idle _))

opened_run : Opens toy (reader 1) (first ∷ second ∷ []) (codes "one" ∷ codes "two" ∷ []) (reader 3)
opened_run = Opens.next _ _ _ open_record-first (Opens.next _ _ _ open_record-second (Opens.idle _))

open-seal_example :
    (r : RecordReader) × (open_record toy (reader 1) first ≡ (ok (codes "one"), r))
    × InStep (writer 2) r
open-seal_example =
    open-seal toy toy-IsAead (writer 1) (reader 1) (codes "one") first (writer 2) in_step seal-first

Seals-Opens_example :
    (r : RecordReader) × Opens toy
      (reader 1)
      (first ∷ second ∷ [])
      (codes "one" ∷ codes "two" ∷ [])
      r
    × InStep (writer 3) r
Seals-Opens_example = Seals-Opens toy toy-IsAead (reader 1) in_step sealed_run

open_record-unchanged_example : reader 1 ≡ reader 1
open_record-unchanged_example =
    open_record-unchanged toy (reader 1) (reader 1) second invalid_sequence open_record-early

replay_refused_example :
    open_record toy (reader 3) first
    ≡ (if 3 == u64_max then err sequence_exhausted else err invalid_sequence, reader 3)
replay_refused_example =
    replay_refused toy (reader 1) (reader 2) (reader 3) first (codes "one") open_record-first
      (omega arith)

nonces-Distinct_example :
    Distinct (nonces toy sealed_run)
    × AllEncrypted toy
        (writer 1).key.key
        (nonces toy sealed_run)
        (codes "one" ∷ codes "two" ∷ [])
        (first ∷ second ∷ [])
nonces-Distinct_example = nonces-Distinct toy (omega arith) sealed_run
