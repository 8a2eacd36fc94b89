-- ===== src/Core/Session/Calls.antt =====
-- The session manager's calls, one by one (core/session.cpp).
use yo_authorize.Prelude.{
  ℕ, some, none, Bytes, ◌≡◌, if◌then◌else◌, bytes_eq, leb, ◌+◌, refl, Option-cases, ◌∙◌, Option,
  inl, arith, ap, bytes_eq_iff, inr, bytes_eq_refl,
}
use yo_authorize.Tables
use yo_authorize.Tables.{IsTable}
use yo_authorize.Core.Session.{
  close, heartbeat, expire_inactive, SessionManager, Bytes, size, Session, bytes_eq, leb, Option,
  inactive,
}

-- In a table of distinct identifiers, `close` removes the session of this identifier and no other,
-- and says whether there was one.
pub close_lem :
    (m : SessionManager) (id j : Bytes)
    → IsTable m.sessions
    → (Tables.find j (close m id).1.sessions
        ≡ (if bytes_eq id j then none else Tables.find j m.sessions))
      × ((close m id).0 ≡ Tables.contains id m.sessions)
unfolding close
close_lem m id j h = (Tables.find-erase id j m.sessions h, refl)

abbrev pub touched : ℕ → Option Session → Option Session
touched now none = none
touched now (some s) = some (record s { last_heartbeat_ms = now })

-- `heartbeat` moves the time of this session, whose other fields stay, and of no other; on an
-- unknown identifier it changes nothing.
pub heartbeat_lem :
    (m : SessionManager) (id j : Bytes) (now : ℕ)
    → Tables.find j (heartbeat m id now).1.sessions ≡ (
        if bytes_eq id j then touched now (Tables.find id m.sessions) else Tables.find j m.sessions)
unfolding heartbeat
heartbeat_lem m id j now = elim (Option-cases (Tables.find id m.sessions)) [
  | inl gone ↦ rw (gone, heartbeat) (ground (arith, gone, bytes_eq_iff id j))
  | inr (s, found) ↦
      rw (found, heartbeat)
        (ground
          (arith, found, Tables.find-update id j (record s { last_heartbeat_ms = now }) m.sessions))
]

kept_until :
    (s : Session) (now timeout : ℕ)
    → Tables.kept (inactive now timeout) (some s)
      ≡ (if leb (s.last_heartbeat_ms + timeout) now then none else some s)
unfolding inactive
kept_until s now timeout = ground arith

-- What a sweep at a time leaves of an entry: the session, unless its last heartbeat and the timeout
-- together lie at or before that time.
abbrev pub left : ℕ → ℕ → Option Session → Option Session
left now timeout none = none
left now timeout (some s) = if leb (s.last_heartbeat_ms + timeout) now then none else some s

kept-left :
    (now timeout : ℕ) (o : Option Session)
    → Tables.kept (inactive now timeout) o ≡ left now timeout o
kept-left now timeout none = refl
kept-left now timeout (some s) = kept_until s now timeout

-- In a table of distinct identifiers, `expireInactive` removes a session exactly where its last
-- heartbeat and the timeout together lie at or before the time of the sweep, leaves every other
-- entry as it was, and returns how many it removed.
pub expire_inactive_lem :
    (m : SessionManager) (now timeout : ℕ) (j : Bytes)
    → IsTable m.sessions
    → (Tables.find j (expire_inactive m now timeout).1.sessions
        ≡ left now timeout (Tables.find j m.sessions))
      × ((expire_inactive m now timeout).0 + size (expire_inactive m now timeout).1 ≡ size m)
unfolding expire_inactive size
expire_inactive_lem m now timeout j h = (
  Tables.find-erase_if (inactive now timeout) j m.sessions h
      ∙ kept-left now timeout (Tables.find j m.sessions),
  omega (arith, Tables.length-erase_if (inactive now timeout) m.sessions),
)

heartbeat-IsTable :
    (m : SessionManager) (id : Bytes) (now : ℕ)
    → IsTable m.sessions
    → IsTable (heartbeat m id now).1.sessions
unfolding heartbeat
heartbeat-IsTable m id now h = elim (Option-cases (Tables.find id m.sessions)) [
  | inl gone ↦ rw (gone, heartbeat) h
  | inr (s, found) ↦
      rw (found, heartbeat)
        (Tables.update-IsTable id (record s { last_heartbeat_ms = now }) m.sessions h)
]

-- A stored session that has just sent a heartbeat outlives every sweep until its timeout, also one
-- by a clock that reads an earlier time, and is swept from then on.
pub heartbeat_keeps :
    (m : SessionManager) (id : Bytes) (s : Session) (beat now timeout : ℕ)
    → IsTable m.sessions
    → Tables.find id m.sessions ≡ some s
    → Tables.find id (expire_inactive (heartbeat m id beat).1 now timeout).1.sessions
      ≡ (if leb (beat + timeout) now then none else some (record s { last_heartbeat_ms = beat }))
heartbeat_keeps m id s beat now timeout h e =
    let table : IsTable (heartbeat m id beat).1.sessions = heartbeat-IsTable m id beat h in
    (expire_inactive_lem (heartbeat m id beat).1 now timeout id table).0
    ∙ ap (left now timeout) (heartbeat_lem m id id beat)
    ∙ rw (bytes_eq_refl id, e) refl
