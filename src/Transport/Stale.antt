-- ===== src/Transport/Stale.antt =====
-- What `removeStaleSocket` removes (unix_socket.cpp).

use yo_authorize.Transport.StaleSocket.{
  StaleCalls, Removal, FileInfo, remove_stale_socket, stale_found, probe_made, probe_tried, probed,
  seen_again, econnrefused, same_file, enoent, ealready,
}
use yo_authorize.Transport.Polling.{retried, eagain}
use yo_authorize.Transport.Connecting.{make_address, einprogress}
use yo_authorize.Prelude.{
  List, ◌≡◌, Option, Bytes, Result, true, some, ok, ℕ, arith, subst, none, err, if-elim, if-lem,
  refl, not, ◌==◌, false, not-eq-false, ◌||◌, ◌∙◌, ap, ==_iff,
}
use yo_authorize.Transport.{Status}

-- The path held a socket that refused the connection, and holds it still.
pub record Stale (calls : StaleCalls) : Type 0 where
  pub metadata : FileInfo
  pub current : FileInfo
  pub rest : List (Result ℕ (Unit {0}))
  pub found : calls.found ≡ ok metadata
  pub again : calls.again ≡ ok current
  pub socket : metadata.is_socket ≡ true
  pub same :
      (current.is_socket ≡ true)
      × (current.device ≡ metadata.device)
      × (current.inode ≡ metadata.inode)
  pub dead : retried calls.connects ≡ some (err econnrefused, rest)

Safe : StaleCalls → Removal → Type 0
Safe calls r = r.unlinks ≡ true → Stale calls

Safe? : StaleCalls → Option Removal → Type 0
Safe? calls none = Unit {0}
Safe? calls (some r) = Safe calls r

same_file_lem :
    (a b : FileInfo)
    → same_file a b ≡ true
    → (a.is_socket ≡ true) × (a.device ≡ b.device) × (a.inode ≡ b.inode)
same_file_lem a b e = (ground arith, ground arith, ground arith)

module _ (calls : StaleCalls) (metadata : FileInfo) (found : calls.found ≡ ok metadata)
    (socket : metadata.is_socket ≡ true) where
  seen_again-Safe :
      (rest : List (Result ℕ (Unit {0}))) (x : Result ℕ FileInfo)
      → retried calls.connects ≡ some (err econnrefused, rest)
      → calls.again ≡ x
      → Safe calls (seen_again calls metadata x)
  unfolding Safe seen_again
  seen_again-Safe rest (err error) dead e = λ q. cc
  seen_again-Safe rest (ok current) dead e =
      if-elim (Safe calls) (not (same_file current metadata)) (λ t. λ q. cc)
        (λ t. λ q. record {
          metadata = metadata;
          current = current;
          rest = rest;
          found = found;
          again = e;
          socket = socket;
          same = same_file_lem current metadata (not-eq-false _ t);
          dead = dead;
        })

  probed-Safe :
      (rest : List (Result ℕ (Unit {0}))) (x : Result ℕ (Unit {0}))
      → retried calls.connects ≡ some (x, rest)
      → Safe calls (probed calls metadata x)
  unfolding probed Safe
  probed-Safe rest (ok u) e = λ q. cc
  probed-Safe rest (err error) e =
      if-lem (Safe calls) (error == einprogress || error == eagain || error == ealready) (λ q. cc)
        (if-lem (Safe calls) (error == enoent) (λ q. cc)
          (if-elim (Safe calls) (not (error == econnrefused)) (λ t. λ q. cc)
            (λ t.
              seen_again-Safe rest calls.again
                (e
                  ∙ ap (λ n. some (err n, rest)) ((==_iff error econnrefused).0 (not-eq-false _ t)))
                refl)))

  probe_made-Safe : (x : Result ℕ (Unit {0})) → Safe? calls (probe_made calls metadata x)
  unfolding probe_made probe_tried Safe Safe?
  probe_made-Safe (err error) = λ q. cc
  probe_made-Safe (ok u) = tried (retried calls.connects) refl
    where
      tried :
          (x : Option (Result ℕ (Unit {0}) × List (Result ℕ (Unit {0}))))
          → retried calls.connects ≡ x
          → Safe? calls (probe_tried calls metadata x)
      tried none e = tt
      tried (some (answer, rest)) e = probed-Safe rest answer e

stale_found-Safe :
    (path : Bytes) (calls : StaleCalls) (x : Result ℕ FileInfo)
    → calls.found ≡ x
    → Safe? calls (stale_found path calls x)
unfolding stale_found Safe Safe?
stale_found-Safe path calls (err error) e = λ q. cc
stale_found-Safe path calls (ok metadata) e =
    if-elim (Safe? calls) (not metadata.is_socket) (λ t. λ q. cc)
      (λ t. addressed (make_address path) (not-eq-false _ t))
  where
    addressed :
        (x : Result Status Bytes)
        → metadata.is_socket ≡ true
        → Safe? calls (elim x as (λ z. Option Removal) [
          | err status ↦ some (record { status = status; unlinks = false })
          | ok a ↦ probe_made calls metadata calls.probe
        ])
    addressed (err status) s = λ q. cc
    addressed (ok address) s = probe_made-Safe calls metadata e s calls.probe

-- Where `removeStaleSocket` unlinks the path, it held a socket that refused a connection, and a
-- second look found the same socket, by device and inode, still there.
pub remove_stale_socket_safe :
    (path : Bytes) (calls : StaleCalls) {r : Removal}
    → remove_stale_socket path calls ≡ some r
    → r.unlinks ≡ true
    → Stale calls
unfolding remove_stale_socket Safe Safe?
remove_stale_socket_safe path calls e q =
    subst (Safe? calls) e (stale_found-Safe path calls calls.found refl) q
