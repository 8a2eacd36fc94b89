-- ===== src/Transport/Implementation.antt =====
-- `UnixSocketTransport` as an implementation of `ITransport` (transport.h, unix_socket.cpp).
use yo_authorize.Transport.{Deadline, Status, is_success, IsTransport, Bytes, ℕ, Option}
use yo_authorize.Transport.UnixSocket.{
  UnixSocketTransport, State, Reading, Writing, Round, read_loop, read_ended, read_operated,
  read_exact, write_loop, write_ended, write_operated, write_all, operation_fd, duplicated,
  unix_transport,
}
use yo_authorize.Transport.Streams.{ReadEnd?, WriteEnd?, read_loop-ReadEnd, write_loop-WriteEnd}
use yo_authorize.Prelude.{
  subst, [], some, Bool, Result, List, sym, ◌∙◌, none, ◌≡◌, ok, arith, append-nil, ◌++◌, true, err,
  ap, length, if-lem, refl, false,
}
use yo_authorize.Transport.Polling.{retried}

-- The bytes that the peer has sent and the program has not read.
abbrev pub pending : UnixSocketTransport → Bytes
pending none = []
pending (some s) = s.incoming

-- The bytes that went out to the peer.
abbrev pub delivered : UnixSocketTransport → Bytes
delivered none = []
delivered (some s) = s.outgoing

abbrev Reads : UnixSocketTransport → ℕ → Option (Status × Bytes × UnixSocketTransport) → Type 0
Reads s n none = Unit {0}
Reads s n (some (status, bytes, s')) =
    (pending s ≡ bytes ++ pending s')
    × (delivered s' ≡ delivered s)
    × (is_success status ≡ true → length bytes ≡ n)

abbrev Writes : UnixSocketTransport → Bytes → Option (Status × UnixSocketTransport) → Type 0
Writes s bytes none = Unit {0}
Writes s bytes (some (status, s')) =
    (sent : Bytes) × (rest : Bytes) × (bytes ≡ sent ++ rest)
    × (delivered s' ≡ delivered s ++ sent)
    × (pending s' ≡ pending s)
    × (is_success status ≡ true → sent ≡ bytes)

-- An operation's descriptor takes nothing from the streams.
Operates : State → Option (Bool × State) → Type 0
Operates s none = Unit {0}
Operates s (some (b, s')) = (s'.incoming ≡ s.incoming) × (s'.outgoing ≡ s.outgoing)

operation_fd-Operates : (s : State) → Operates s (operation_fd s)
unfolding operation_fd duplicated Operates
operation_fd-Operates s = if-lem (Operates s) s.fd (duplicates (retried s.duplicates)) (refl, refl)
  where
    duplicates :
        (x : Option (Result ℕ (Unit {0}) × List (Result ℕ (Unit {0}))))
        → Operates s (duplicated s x)
    duplicates none = tt
    duplicates (some (ok u, rest)) = (refl, refl)
    duplicates (some (err e, rest)) = (refl, refl)

read_operated-Reads :
    (d : Deadline) (n : ℕ) (s : State) (x : Option (Bool × State))
    → Operates s x
    → Reads (some s) n (read_operated d n x)
unfolding read_operated read_ended Operates ReadEnd?
read_operated-Reads d n s none h = tt
read_operated-Reads d n s (some (false, s')) h = (sym h.0, h.1, λ q. cc)
read_operated-Reads d n s (some (true, s')) h =
    ended (read_loop d s'.rounds start) (read_loop-ReadEnd d s'.rounds start)
  where
    start : Reading
    start = record { need = n; output = []; incoming = s'.incoming }

    ended :
        (x : Option (Status × Reading × List Round))
        → ReadEnd? start x
        → Reads (some s) n (read_ended s' x)
    ended none e = tt
    ended (some (status, r, rounds)) e =
        (sym h.0 ∙ e.stream, h.1, λ q. omega (arith, e.count, e.whole q))

write_operated-Writes :
    (d : Deadline) (bytes : Bytes) (s : State) (x : Option (Bool × State))
    → Operates s x
    → Writes (some s) bytes (write_operated d bytes x)
unfolding write_operated write_ended Operates WriteEnd?
write_operated-Writes d bytes s none h = tt
write_operated-Writes d bytes s (some (false, s')) h =
    ([], bytes, refl, h.1 ∙ sym (append-nil s.outgoing), h.0, λ q. cc)
write_operated-Writes d bytes s (some (true, s')) h =
    ended (write_loop d s'.rounds start) (write_loop-WriteEnd d s'.rounds start)
  where
    start : Writing
    start = record { unsent = bytes; outgoing = s'.outgoing }

    ended :
        (x : Option (Status × Writing × List Round))
        → WriteEnd? start x
        → Writes (some s) bytes (write_ended s' x)
    ended none e = tt
    ended (some (status, w, rounds)) e = (
      e.bytes,
      w.unsent,
      e.gone,
      e.out ∙ ap (λ x. x ++ e.bytes) h.1,
      h.0,
      λ q. sym (append-nil e.bytes) ∙ ap (◌++◌ e.bytes) (sym (e.whole q)) ∙ sym e.gone,
    )

read_exact-Reads : (d : Deadline) (n : ℕ) (s : UnixSocketTransport) → Reads s n (read_exact d n s)
unfolding read_exact
read_exact-Reads d n none = (refl, refl, λ q. cc)
read_exact-Reads d n (some s) = read_operated-Reads d n s (operation_fd s) (operation_fd-Operates s)

write_all-Writes :
    (d : Deadline) (bytes : Bytes) (s : UnixSocketTransport) → Writes s bytes (write_all d bytes s)
unfolding write_all
write_all-Writes d bytes none = ([], bytes, refl, refl, refl, λ q. cc)
write_all-Writes d bytes (some s) =
    write_operated-Writes d bytes s (operation_fd s) (operation_fd-Operates s)

-- The Unix socket keeps the transport's contract, whatever the system calls answer: bytes are
-- handed over in order and without gaps, a read that succeeds has all that it asked for, what is
-- written goes out as a first part, and whole where the write succeeds; neither disturbs the other
-- direction.
pub unix_transport-IsTransport : IsTransport unix_transport pending delivered
unfolding unix_transport
unix_transport-IsTransport = record {
  reads = λ d n s s' status bytes e. subst (Reads s n) e (read_exact-Reads d n s);
  writes = λ d bytes s s' status e. subst (Writes s bytes) e (write_all-Writes d bytes s);
}
