-- ===== src/Transport/Returning.antt =====
-- Reading and writing end (unix_socket.cpp).
use yo_authorize.Transport.UnixSocket.{
  State, Round, Transfer, moved, refused, retryable, Reading, Writing, received, read_waited,
  read_loop, read_ended, read_operated, read_exact, sent, write_waited, write_loop, write_ended,
  write_operated, write_all, duplicated, operation_fd,
}
use yo_authorize.Transport.Polling.{wait_for, retried}
use yo_authorize.Transport.{Deadline, Status, is_success}
use yo_authorize.Prelude.{
  is_some, if-elim, if-lem, Bytes, Option, List, ℕ, ◌≡◌, false, some, empty, true, ◌<◌, All, length,
  Result, ◌∷◌, take, ◌≤◌, none, arith, min, ◌==◌, drop, err, refl, ◌-◌, subst, ok, [], ◌++◌, sym,
  ap, take-append-drop, length-append,
}

unfoldable pub Steady : Transfer → Type 0
Steady (moved n) = Unit {0}
Steady (refused error) = retryable error ≡ false

-- A round whose wait is answered, and whose transfer moves bytes or fails for good.
pub record Prompt (deadline : Deadline) (round : Round) : Type 0 where
  pub status : Status
  pub waited : wait_for deadline round.polls ≡ some status
  pub steady : Steady round.transfer

empty-length : (bytes : Bytes) → empty bytes ≡ false → 0 < length bytes
empty-length [] e = cc
empty-length (b ∷ bs) e = omega arith

abbrev Returns : {A : Type 0} → Option A → Type 0
Returns x = is_some x ≡ true

received-Returns :
    (continue : Reading → Option (Status × Reading × List Round)) (rounds : List Round)
    (r : Reading) (transfer : Transfer)
    → Steady transfer
    → ((r' : Reading) → r'.need < r.need → Returns (continue r'))
    → 0 < r.need
    → Returns (received continue rounds r transfer)
unfolding received Steady
received-Returns continue rounds r (moved available) s next p =
    if-elim Returns (empty (take (min available r.need) r.incoming)) (λ e. refl)
      λ e.
        next
          (record {
            need = r.need - length (take (min available r.need) r.incoming);
            output = r.output ++ take (min available r.need) r.incoming;
            incoming = drop (min available r.need) r.incoming;
          })
          (omega (arith, empty-length (take (min available r.need) r.incoming) e, p))
received-Returns continue rounds r (refused error) s next p = rw s refl

read_loop-Returns :
    (deadline : Deadline) (rounds : List Round) (r : Reading)
    → All (Prompt deadline) rounds
    → r.need ≤ length rounds
    → Returns (read_loop deadline rounds r)
unfolding read_loop read_waited
read_loop-Returns deadline [] r p h =
    if-elim Returns (r.need == 0) (λ e. refl) (λ e. ground (arith, e, h))
read_loop-Returns deadline (round ∷ rounds) r (p, ps) h =
    if-elim Returns (r.need == 0) (λ e. refl)
      λ e.
        subst (λ x. Returns (read_waited (read_loop deadline rounds) rounds r round.transfer x))
          (sym p.waited)
          (if-lem Returns (is_success p.status)
            (received-Returns (read_loop deadline rounds) rounds r round.transfer p.steady
              (λ r' less. read_loop-Returns deadline rounds r' ps (omega (arith, less, h)))
              (ground (arith, e)))
            refl)

sent-Returns :
    (continue : Writing → Option (Status × Writing × List Round)) (rounds : List Round)
    (w : Writing) (transfer : Transfer)
    → Steady transfer
    → ((w' : Writing) → length w'.unsent < length w.unsent → Returns (continue w'))
    → Returns (sent continue rounds w transfer)
unfolding sent Steady
sent-Returns continue rounds w (moved room) s next =
    if-elim Returns (empty (take room w.unsent)) (λ e. refl)
      λ e.
        next (record { unsent = drop room w.unsent; outgoing = w.outgoing ++ take room w.unsent })
          (omega (
            arith,
            empty-length (take room w.unsent) e,
            ap (λ (x : Bytes). length x) (take-append-drop room w.unsent),
            length-append (take room w.unsent) (drop room w.unsent),
          ))
sent-Returns continue rounds w (refused error) s next = rw s refl

write_loop-Returns :
    (deadline : Deadline) (rounds : List Round) (w : Writing)
    → All (Prompt deadline) rounds
    → length w.unsent ≤ length rounds
    → Returns (write_loop deadline rounds w)
unfolding write_loop write_waited
write_loop-Returns deadline [] w p h =
    if-elim Returns (empty w.unsent) (λ e. refl)
      (λ e. absurd (omega (arith, empty-length w.unsent e, h)))
write_loop-Returns deadline (round ∷ rounds) w (p, ps) h = if-lem Returns (empty w.unsent) refl (
    subst (λ x. Returns (write_waited (write_loop deadline rounds) rounds w round.transfer x))
      (sym p.waited)
      (if-lem Returns (is_success p.status)
        (sent-Returns (write_loop deadline rounds) rounds w round.transfer p.steady
          (λ w' less. write_loop-Returns deadline rounds w' ps (omega (arith, less, h))))
        refl))

read_ended-Returns :
    (s : State) (x : Option (Status × Reading × List Round)) → Returns x → Returns (read_ended s x)
unfolding read_ended
read_ended-Returns s none e = cc
read_ended-Returns s (some (status, r, rounds)) e = refl

write_ended-Returns :
    (s : State) (x : Option (Status × Writing × List Round)) → Returns x → Returns (write_ended s x)
unfolding write_ended
write_ended-Returns s none e = cc
write_ended-Returns s (some (status, w, rounds)) e = refl

-- A read of `n` bytes and a write of `bytes` return, with a status, where the operation gets its
-- descriptor or is refused it, each wait is answered, each transfer moves bytes or fails for good,
-- and there are as many rounds as bytes.
pub transfers_return :
    (deadline : Deadline) (n : ℕ) (bytes : Bytes) (s : State) {answer : Result ℕ (Unit {0})}
    {rest : List (Result ℕ (Unit {0}))}
    → retried s.duplicates ≡ some (answer, rest)
    → All (Prompt deadline) s.rounds
    → n ≤ length s.rounds
    → length bytes ≤ length s.rounds
    → (is_some (read_exact deadline n (some s)) ≡ true)
      × (is_some (write_all deadline bytes (some s)) ≡ true)
unfolding read_exact read_operated write_all write_operated operation_fd duplicated
transfers_return deadline n bytes s {answer = answer} {rest = rest} e p m k =
    if-lem (λ x. Returns (read_operated deadline n x) × Returns (write_operated deadline bytes x))
      s.fd
      (subst
        (λ x.
          Returns (read_operated deadline n (duplicated s x))
          × Returns (write_operated deadline bytes (duplicated s x)))
        (sym e) (duplicate answer))
      closed
  where
    closed :
        Returns (read_operated deadline n (some (false, s)))
        × Returns (write_operated deadline bytes (some (false, s)))
    closed = (refl, refl)

    duplicate :
        (answer : Result ℕ (Unit {0}))
        → Returns (read_operated deadline n (duplicated s (some (answer, rest))))
          × Returns (write_operated deadline bytes (duplicated s (some (answer, rest))))
    duplicate (err error) = (refl, refl)
    duplicate (ok u) = (
      read_ended-Returns (record s { duplicates = rest }) _
          (read_loop-Returns deadline s.rounds
            (record { need = n; output = []; incoming = s.incoming }) p m),
      write_ended-Returns (record s { duplicates = rest }) _
          (write_loop-Returns deadline s.rounds (record { unsent = bytes; outgoing = s.outgoing }) p
            k),
    )
