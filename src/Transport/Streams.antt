-- ===== src/Transport/Streams.antt =====
-- The loops of `readExact` and `writeAll` (unix_socket.cpp) against the streams that they move.
use yo_authorize.Transport.Polling.{failed_system, wait_for}
use yo_authorize.Transport.{
  Deadline, Status, succeeded, failed_with, is_success, end_of_file, ◌++◌, Option, List, ◌≡◌, some,
}
use yo_authorize.Transport.UnixSocket.{
  Transfer, moved, refused, Reading, Writing, Round, received, read_waited, read_loop, sent,
  write_waited, write_loop, retryable,
}
use yo_authorize.Prelude.{
  if-lem, length, false, none, ◌+◌, true, refl, ◌∙◌, Bytes, ◌∷◌, take, [], min, ◌-◌, drop, arith,
  length-append, length-take-le, empty, ap, if-elim, ◌==◌, sym, take-append-drop, ==_iff,
  append-nil, append_assoc,
}

-- What the loop has moved from the stream into its output, and what it leaves.
pub record ReadEnd (r : Reading) (status : Status) (r' : Reading) : Type 0 where
  pub stream : r.output ++ r.incoming ≡ r'.output ++ r'.incoming
  pub count : length r.output + r.need ≡ length r'.output + r'.need
  pub whole : is_success status ≡ true → r'.need ≡ 0

unfoldable pub ReadEnd? : Reading → Option (Status × Reading × List Round) → Type 0
ReadEnd? r none = Unit {0}
ReadEnd? r (some (status, r', rounds)) = ReadEnd r status r'

stopped :
    (r : Reading) (status : Status) (rounds : List Round)
    → is_success status ≡ false
    → ReadEnd? r (some (status, r, rounds))
unfolding ReadEnd?
stopped r status rounds e = record { stream = refl; count = refl; whole = λ q. cc }

-- A round that moves bytes, and what the loop does from there.
moved-ReadEnd :
    (r r' : Reading) (x : Option (Status × Reading × List Round))
    → r.output ++ r.incoming ≡ r'.output ++ r'.incoming
    → length r.output + r.need ≡ length r'.output + r'.need
    → ReadEnd? r' x
    → ReadEnd? r x
unfolding ReadEnd?
moved-ReadEnd r r' none e f h = tt
moved-ReadEnd r r' (some (status, r'', rounds)) e f h = record {
  stream = e ∙ h.stream;
  count = f ∙ h.count;
  whole = h.whole;
}

received-ReadEnd :
    (continue : Reading → Option (Status × Reading × List Round)) (rounds : List Round)
    (r : Reading) (transfer : Transfer)
    → ((r' : Reading) → ReadEnd? r' (continue r'))
    → ReadEnd? r (received continue rounds r transfer)
unfolding received
received-ReadEnd continue rounds r (moved available) next =
    if-lem (ReadEnd? r) (empty bytes) (stopped r (failed_with end_of_file) rounds refl)
      (moved-ReadEnd r r' (continue r') stream count (next r'))
  where
    bytes : Bytes
    bytes = take (min available r.need) r.incoming

    r' : Reading
    r' = record {
      need = r.need - length bytes;
      output = r.output ++ bytes;
      incoming = drop (min available r.need) r.incoming;
    }

    stream : r.output ++ r.incoming ≡ (r.output ++ bytes) ++ r'.incoming
    stream =
        ap (◌++◌ r.output) (sym (take-append-drop (min available r.need) r.incoming))
        ∙ sym (append_assoc r.output bytes r'.incoming)

    count : length r.output + r.need ≡ length (r.output ++ bytes) + (r.need - length bytes)
    count =
        omega
          (arith, length-append r.output bytes, length-take-le (min available r.need) r.incoming)
received-ReadEnd continue rounds r (refused error) next =
    if-lem (ReadEnd? r) (retryable error) (next r) (stopped r (failed_system error) rounds refl)

waited-ReadEnd :
    (continue : Reading → Option (Status × Reading × List Round)) (rounds : List Round)
    (r : Reading) (transfer : Transfer) (x : Option Status)
    → ((r' : Reading) → ReadEnd? r' (continue r'))
    → ReadEnd? r (read_waited continue rounds r transfer x)
unfolding read_waited ReadEnd?
waited-ReadEnd continue rounds r transfer none next = tt
waited-ReadEnd continue rounds r transfer (some status) next =
    if-elim (ReadEnd? r) (is_success status) (λ e. received-ReadEnd continue rounds r transfer next)
      (stopped r status rounds)

finished :
    (r : Reading) (rounds : List Round)
    → (r.need == 0) ≡ true
    → ReadEnd? r (some (succeeded, r, rounds))
unfolding ReadEnd?
finished r rounds e = record { stream = refl; count = refl; whole = λ q. (==_iff r.need 0).0 e }

pub read_loop-ReadEnd :
    (deadline : Deadline) (rounds : List Round) (r : Reading)
    → ReadEnd? r (read_loop deadline rounds r)
unfolding read_loop ReadEnd?
read_loop-ReadEnd deadline [] r = if-elim (ReadEnd? r) (r.need == 0) (finished r []) (λ e. tt)
read_loop-ReadEnd deadline (round ∷ rounds) r =
    if-elim (ReadEnd? r) (r.need == 0) (finished r (round ∷ rounds)) (λ e.
      waited-ReadEnd (read_loop deadline rounds) rounds r round.transfer
        (wait_for deadline round.polls) (read_loop-ReadEnd deadline rounds))

-- What the loop of a write has sent, and what it leaves.
pub record WriteEnd (w : Writing) (status : Status) (w' : Writing) : Type 0 where
  pub bytes : Bytes
  pub gone : w.unsent ≡ bytes ++ w'.unsent
  pub out : w'.outgoing ≡ w.outgoing ++ bytes
  pub whole : is_success status ≡ true → w'.unsent ≡ []

unfoldable pub WriteEnd? : Writing → Option (Status × Writing × List Round) → Type 0
WriteEnd? w none = Unit {0}
WriteEnd? w (some (status, w', rounds)) = WriteEnd w status w'

unsent :
    (w : Writing) (status : Status) (rounds : List Round)
    → (is_success status ≡ true → w.unsent ≡ [])
    → WriteEnd? w (some (status, w, rounds))
unfolding WriteEnd?
unsent w status rounds e = record {
  bytes = [];
  gone = refl;
  out = sym (append-nil w.outgoing);
  whole = e;
}

moved-WriteEnd :
    (w w' : Writing) (bytes : Bytes) (x : Option (Status × Writing × List Round))
    → w.unsent ≡ bytes ++ w'.unsent
    → w'.outgoing ≡ w.outgoing ++ bytes
    → WriteEnd? w' x
    → WriteEnd? w x
unfolding WriteEnd?
moved-WriteEnd w w' bytes none e f h = tt
moved-WriteEnd w w' bytes (some (status, w'', rounds)) e f h = record {
  bytes = bytes ++ h.bytes;
  gone = e ∙ ap (◌++◌ bytes) h.gone ∙ sym (append_assoc bytes h.bytes w''.unsent);
  out = h.out ∙ ap (λ x. x ++ h.bytes) f ∙ append_assoc w.outgoing bytes h.bytes;
  whole = h.whole;
}

sent-WriteEnd :
    (continue : Writing → Option (Status × Writing × List Round)) (rounds : List Round)
    (w : Writing) (transfer : Transfer)
    → ((w' : Writing) → WriteEnd? w' (continue w'))
    → WriteEnd? w (sent continue rounds w transfer)
unfolding sent
sent-WriteEnd continue rounds w (moved room) next =
    if-lem (WriteEnd? w) (empty (take room w.unsent))
      (unsent w (failed_with end_of_file) rounds (λ q. cc))
      (moved-WriteEnd w w' (take room w.unsent) (continue w') (sym (take-append-drop room w.unsent))
        refl (next w'))
  where
    w' : Writing
    w' = record { unsent = drop room w.unsent; outgoing = w.outgoing ++ take room w.unsent }
sent-WriteEnd continue rounds w (refused error) next =
    if-lem (WriteEnd? w) (retryable error) (next w)
      (unsent w (failed_system error) rounds (λ q. cc))

write_waited-WriteEnd :
    (continue : Writing → Option (Status × Writing × List Round)) (rounds : List Round)
    (w : Writing) (transfer : Transfer) (x : Option Status)
    → ((w' : Writing) → WriteEnd? w' (continue w'))
    → WriteEnd? w (write_waited continue rounds w transfer x)
unfolding write_waited WriteEnd?
write_waited-WriteEnd continue rounds w transfer none next = tt
write_waited-WriteEnd continue rounds w transfer (some status) next =
    if-elim (WriteEnd? w) (is_success status) (λ e. sent-WriteEnd continue rounds w transfer next)
      (λ e. unsent w status rounds (λ q. cc))

empty-eq-nil : (bytes : Bytes) → empty bytes ≡ true → bytes ≡ []
empty-eq-nil [] e = refl
empty-eq-nil (b ∷ bs) e = cc

pub write_loop-WriteEnd :
    (deadline : Deadline) (rounds : List Round) (w : Writing)
    → WriteEnd? w (write_loop deadline rounds w)
unfolding write_loop WriteEnd?
write_loop-WriteEnd deadline [] w =
    if-elim (WriteEnd? w) (empty w.unsent)
      (λ e. unsent w succeeded [] (λ q. empty-eq-nil w.unsent e)) (λ e. tt)
write_loop-WriteEnd deadline (round ∷ rounds) w =
    if-elim (WriteEnd? w) (empty w.unsent)
      (λ e. unsent w succeeded (round ∷ rounds) (λ q. empty-eq-nil w.unsent e))
      (λ e.
        write_waited-WriteEnd (write_loop deadline rounds) rounds w round.transfer
          (wait_for deadline round.polls) (write_loop-WriteEnd deadline rounds))
