-- ===== src/Examples/Sessions.antt =====
-- A session manager with one session, and one with none.
use yo_authorize.Core.Status.{session_limit_exceeded}
use yo_authorize.Tables
use Prim.Native.Nat.{ℕ}
use yo_authorize.Core.Session.{
  Session, SessionManager, active, create, heartbeat, expire_inactive, empty_manager, size,
}
use yo_authorize.Tables.{find, IsTable}
use yo_authorize.Prelude.{
  Bytes, List, ◌∷◌, codes, bytes_eq, ◌≡◌, zeros, [], none, if◌then◌else◌, some, ◌<◌, arith, map,
  err, leb, refl, ◌+◌, ok,
}
use yo_authorize.Core.Session.Invariant.{
  IsManager, Call, run, creates, heartbeats, run-empty-IsManager,
}
use yo_authorize.Core.Session.Drawing.{Refusal, create_refused, create_returns}
use yo_authorize.Core.Session.Calls.{left, heartbeat_keeps, expire_inactive_lem}

abbrev id_of : ℕ → Bytes
id_of n = n ∷ zeros 15

abbrev session : Session
session = record {
  id = id_of 1;
  product_id = codes "app";
  peer_identity = codes "peer";
  features = [];
  expire_time = 0;
  last_heartbeat_ms = 100;
}

abbrev manager : SessionManager
manager = record { sessions = (id_of 1, session) ∷ [] }

manager-IsTable : IsTable manager.sessions
unfolding find
manager-IsTable = (refl, tt)

abbrev limit : Bytes → ℕ
limit product_id = 1

abbrev calls : List Call
calls =
    creates (codes "app") (codes "peer") [] 0 100 1 (some (id_of 1) ∷ [])
    ∷ creates (codes "app") (codes "peer") [] 0 100 1 (some (id_of 2) ∷ [])
    ∷ heartbeats (id_of 1) 200
    ∷ []

run-empty-IsManager_example : IsManager limit (run empty_manager calls)
run-empty-IsManager_example = run-empty-IsManager limit calls (omega arith, (omega arith, (tt, tt)))

full : active (codes "app") manager.sessions < 2
unfolding active bytes_eq
full = omega arith

create_returns_example :
    (id : Bytes) × (Tables.find id manager.sessions ≡ none)
    × (let s : Session = record {
      id = id;
      product_id = codes "app";
      peer_identity = codes "peer";
      features = [];
      expire_time = 0;
      last_heartbeat_ms = 150;
    } in
        create manager (codes "app") (codes "peer") [] 0 150 2 (map some (id_of 1 ∷ id_of 2 ∷ []))
        ≡ some (ok s, record { sessions = (id, s) ∷ manager.sessions }))
create_returns_example =
    create_returns manager (codes "app") (codes "peer") [] 0 150 2 (id_of 1 ∷ id_of 2 ∷ [])
      (omega arith) (omega arith) full (((λ e. cc), tt), (tt, tt)) (omega arith)

refused :
    create manager (codes "app") (codes "peer") [] 0 150 1 (some (id_of 2) ∷ [])
    ≡ some (err session_limit_exceeded, manager)
unfolding create active bytes_eq
refused = refl

create_refused_example :
    (manager ≡ manager)
    × Refusal manager (codes "app") (codes "peer") 1 (some (id_of 2) ∷ []) session_limit_exceeded
create_refused_example =
    create_refused manager manager (codes "app") (codes "peer") [] 0 150 1 (some (id_of 2) ∷ [])
      session_limit_exceeded refused

expire_inactive_lem_example :
    (Tables.find (id_of 1) (expire_inactive manager 500 100).1.sessions
      ≡ left 500 100 (Tables.find (id_of 1) manager.sessions))
    × ((expire_inactive manager 500 100).0 + size (expire_inactive manager 500 100).1
        ≡ size manager)
expire_inactive_lem_example = expire_inactive_lem manager 500 100 (id_of 1) manager-IsTable

found : Tables.find (id_of 1) manager.sessions ≡ some session
unfolding find bytes_eq
found = refl

heartbeat_keeps_example :
    Tables.find (id_of 1) (expire_inactive (heartbeat manager (id_of 1) 300).1 350 100).1.sessions
    ≡ (if leb (300 + 100) 350 then none else some (record session { last_heartbeat_ms = 300 }))
heartbeat_keeps_example =
    heartbeat_keeps manager (id_of 1) session 300 350 100 manager-IsTable found
