-- ===== src/Examples/Transports.antt =====
-- A socket whose peer sends one frame, and a path with a stale socket.
use yo_authorize.Transport.Returning.{Prompt, transfers_return, Steady}
use yo_authorize.Transport.UnixSocket.{State, write_all}
use yo_authorize.Transport.StaleSocket.{
  FileInfo, StaleCalls, Removal, remove_stale_socket, stale_found, probe_made, probe_tried, probed,
  seen_again,
}
use Prim.Native.Nat.{ℕ}
use yo_authorize.Transport.Polling.{
  PollCall, polled, retried, wait_for, wait_answered, timeout_milliseconds,
}
use yo_authorize.Prelude.{
  Bytes, some, true, ok, false, ◌∷◌, codes, ◌≡◌, err, [], ◌++◌, refl, bytes_eq, zeros, is_some,
  arith,
}
use yo_authorize.Transport.UnixSocket.{
  UnixSocketTransport, Round, moved, unix_transport, read_exact, read_operated, read_ended,
  read_loop, read_waited, received, operation_fd, duplicated,
}
use yo_authorize.Protocol.Frame.{
  FrameDecoded, encode_header, decode_frame, default_max_payload_size, decode_header, check_header,
  read_header,
}
use yo_authorize.Transport.Stale.{Stale, remove_stale_socket_safe}
use yo_authorize.Transport.Implementation.{pending, delivered, unix_transport-IsTransport}
use yo_authorize.Transport.{succeeded}
use yo_authorize.Service.Connection.{wrap_plaintext}
use yo_authorize.Service.Loop.{read_frame, header_read, header_decoded, payload_read}
use yo_authorize.Service.Loop.Reading.{read_frame_lem}
use yo_authorize.Transport.Connecting.{make_address}
use yo_authorize.Prelude.Words.{read_word}

abbrev ready : PollCall
ready = record { now = 0; answer = λ milliseconds. polled true false }

abbrev pub moving : ℕ → Round
moving count = record { polls = ready ∷ []; transfer = moved count }

-- The frame comes in three pieces.
abbrev pub sending : Bytes → UnixSocketTransport
sending bytes = some (record {
  path = codes "/run/license.sock";
  fd = true;
  cancel_fd = true;
  canceled = false;
  incoming = bytes;
  outgoing = [];
  duplicates = ok tt ∷ ok tt ∷ [];
  rounds = moving 6 ∷ moving 20 ∷ moving 20 ∷ [];
})

abbrev pub finished : UnixSocketTransport
finished = some (record {
  path = codes "/run/license.sock";
  fd = true;
  cancel_fd = true;
  canceled = false;
  incoming = [];
  outgoing = [];
  duplicates = [];
  rounds = [];
})

unfoldable pub short_frame : Bytes
unfolding wrap_plaintext encode_header
short_frame = wrap_plaintext (7 ∷ [])

frame_read_lem :
    read_frame unix_transport (some 5000) (sending short_frame) ≡ some (ok short_frame, finished)
unfolding short_frame wrap_plaintext encode_header read_frame header_read header_decoded
    payload_read unix_transport read_exact read_operated read_ended read_loop read_waited received
    operation_fd duplicated retried wait_for wait_answered timeout_milliseconds decode_header
    check_header read_header read_word bytes_eq
frame_read_lem = refl

read_frame_lem_example :
    (decoded : FrameDecoded) × (pending (sending short_frame) ≡ short_frame ++ pending finished)
    × (decode_frame short_frame default_max_payload_size ≡ ok decoded)
read_frame_lem_example =
    read_frame_lem unix_transport pending delivered unix_transport-IsTransport (some 5000)
      (sending short_frame) finished frame_read_lem

abbrev old_socket : FileInfo
old_socket = record { is_socket = true; device = 8; inode = 1234 }

-- The first connect is interrupted by a signal.
abbrev stale_path : StaleCalls
stale_path = record {
  found = ok old_socket;
  probe = ok tt;
  connects = err 4 ∷ err 111 ∷ [];
  again = ok old_socket;
  unlinked = ok tt;
}

abbrev removed : Removal
removed = record { status = succeeded; unlinks = true }

stale_removal : remove_stale_socket (codes "/run/license.sock") stale_path ≡ some removed
unfolding remove_stale_socket stale_found probe_made probe_tried probed seen_again make_address
    retried
stale_removal = refl

remove_stale_socket_safe_example : Stale stale_path
remove_stale_socket_safe_example =
    remove_stale_socket_safe (codes "/run/license.sock") stale_path stale_removal refl

-- Two bytes at a time, after a signal.
abbrev slow : State
slow = record {
  path = codes "/run/license.sock";
  fd = true;
  cancel_fd = true;
  canceled = false;
  incoming = zeros 9;
  outgoing = [];
  duplicates = err 4 ∷ ok tt ∷ [];
  rounds = moving 2 ∷ moving 2 ∷ moving 2 ∷ [];
}

moving-Prompt : Prompt (some 5000) (moving 2)
unfolding wait_for wait_answered timeout_milliseconds Steady
moving-Prompt = record { status = succeeded; waited = refl; steady = tt }

slow_duplicates : retried slow.duplicates ≡ some (ok tt, [])
unfolding retried
slow_duplicates = refl

transfers_return_example :
    (is_some (read_exact (some 5000) 3 (some slow)) ≡ true)
    × (is_some (write_all (some 5000) (zeros 3) (some slow)) ≡ true)
transfers_return_example =
    transfers_return (some 5000) 3 (zeros 3) slow slow_duplicates
      (moving-Prompt, (moving-Prompt, (moving-Prompt, tt))) (omega arith) (omega arith)
