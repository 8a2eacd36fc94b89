-- ===== src/Service/Running/Visits.antt =====
-- What a client that is served leaves to the next one (service/service.cpp).
use yo_authorize.Service.Loop.{Served, serve, AuthorizationService, Moment}
use yo_authorize.Service.Loop.Serving.{serve-sessions}
use yo_authorize.Service.Running.{
  Arrival, Running, client_served, peer_checked, client_accepted, run_loop, peer_allowed,
  ServiceConfig, OpenSsl, Bool, EnvelopeBuffers, Transport, PeerCredentials, if◌then◌else◌, Option,
  Bytes, peer_identity_of,
}
use mathlib.Core.List.{List, ◌∷◌}
use yo_authorize.Service.Config.{contains_id}
use yo_authorize.Prelude.Words.{u32}
use yo_authorize.Prelude.{ℕ, ◌==◌, ◌||◌}
use yo_authorize.Prelude.{◌≡◌, some, arith, Bool-cases, [], ok, ap, inl, none, false, inr, refl}

abbrev pub listed : ℕ → List ℕ → Bool
listed id [] = false
listed id (allowed ∷ rest) = id == allowed || listed id rest

contains_id-listed : (id : ℕ) (ids : List ℕ) → contains_id id ids ≡ listed id ids
unfolding contains_id
contains_id-listed id [] = refl
contains_id-listed id (allowed ∷ rest) = ground (arith, contains_id-listed id rest)

-- The peer's user stands on the list of users, or its group on the list of groups.
abbrev pub on_a_list : ServiceConfig → PeerCredentials → Bool
on_a_list config peer =
    listed (u32 peer.uid) config.allowed_uids || listed (u32 peer.gid) config.allowed_gids

pub peer_allowed-on_a_list :
    (config : ServiceConfig) (peer : PeerCredentials)
    → peer_allowed config peer ≡ on_a_list config peer
unfolding peer_allowed
peer_allowed-on_a_list config peer = rw (
  contains_id-listed (u32 peer.uid) config.allowed_uids,
  contains_id-listed (u32 peer.gid) config.allowed_gids,
)

-- A client that came, accepted by the listener while no stop was requested.
abbrev pub client : {S : Type 0} → S → Bool → PeerCredentials → List Moment → Arrival S
client s stop_after peer moments = record {
  stop = false;
  accepted = ok s;
  stop_after = stop_after;
  peer = ok peer;
  moments = moments;
}

-- The rest of a run, once serving a client has come to its end.
abbrev pub after : {S : Type 0} → Option (Served S) → Option Running → Option Running
after none rest = none
after (some served) rest = rest

module _ (o : OpenSsl) (fb : EnvelopeBuffers) {S : Type 0} (t : Transport S) where
  served-same :
      (service : AuthorizationService) (served : Served S)
      → served.sessions.sessions ≡ service.sessions.sessions
      → record service { sessions = served.sessions } ≡ service
  served-same service served e = ground (arith, e)

  client_served-after :
      (arrivals : List (Arrival S)) (service : AuthorizationService) (moments : List Moment)
      (identity : Bytes) (s : S) (x : Option (Served S))
      → serve o fb t moments service identity s ≡ x
      → client_served o fb t (run_loop o fb t arrivals) service x
        ≡ after x (run_loop o fb t arrivals service)
  unfolding client_served
  client_served-after arrivals service moments identity s none e = refl
  client_served-after arrivals service moments identity s (some served) e =
      ap (run_loop o fb t arrivals)
        (served-same service served (serve-sessions o fb t moments service identity s e))

  pub run_loop-client :
      (arrivals : List (Arrival S)) (service : AuthorizationService) (s : S) (stop_after : Bool)
      (peer : PeerCredentials) (moments : List Moment)
      → run_loop o fb t (client s stop_after peer moments ∷ arrivals) service ≡ (
          if on_a_list service.config peer
          then after
              (serve o fb t moments service (peer_identity_of peer) s)
              (run_loop o fb t arrivals service)
          else run_loop o fb t arrivals service)
  unfolding run_loop client_accepted peer_checked
  run_loop-client arrivals service s stop_after peer moments =
      let same = peer_allowed-on_a_list service.config peer in
      elim (Bool-cases (on_a_list service.config peer)) [
        | inl q ↦
            rw (same, q)
              (client_served-after arrivals service moments (peer_identity_of peer) s
                (serve o fb t moments service (peer_identity_of peer) s) refl)
        | inr q ↦ rw (same, q)
      ]
