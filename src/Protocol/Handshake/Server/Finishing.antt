-- ===== src/Protocol/Handshake/Server/Finishing.antt =====
-- `ServerHandshake::handleClientFinished` (protocol/handshake.cpp).
use yo_authorize.Protocol.Handshake.Server.{
  ServerHandshake, handle_client_finished, OpenSsl, EnvelopeBuffers, finished_read, finished_opened,
  finished_decoded, Bytes, ClientFinishedMessage, RecordReader, awaiting_finished, open_record,
  decode_client_finished,
}
use yo_authorize.OpenSsl.{OpenSsl}
use yo_authorize.Protocol.Envelope.{EnvelopeBuffers}
use yo_authorize.Prelude.{Bytes, ◌≡◌, some, ok, arith, bytes_eq_iff}
use yo_authorize.Protocol.Messages.{ClientFinishedMessage}
use yo_authorize.Protocol.Record.{RecordReader, open_record}
use yo_authorize.Protocol.Handshake.{awaiting_finished, established}
use yo_authorize.Protocol.Messages.Hello.{decode_client_finished}

module _ (o : OpenSsl) (fb : EnvelopeBuffers) (h : ServerHandshake) where
  pub handle_client_finished_lem :
      (frame plaintext : Bytes) (finished : ClientFinishedMessage) (r r' : RecordReader)
      → h.state ≡ awaiting_finished
      → h.reader ≡ some r
      → open_record o r frame ≡ (ok plaintext, r')
      → decode_client_finished fb plaintext ≡ some (ok finished)
      → finished.request_id ≡ h.request_id
      → finished.protocol_version ≡ h.selected_version
      → finished.transcript_hash ≡ h.transcript_hash
      → handle_client_finished o fb h frame
        ≡ some (ok tt, record h { reader = some r'; state = established })
  unfolding handle_client_finished finished_read finished_opened finished_decoded
  handle_client_finished_lem frame plaintext finished r r' s e op d q v t =
      ground (arith, s, e, op, d, q, v, bytes_eq_iff finished.transcript_hash h.transcript_hash)
