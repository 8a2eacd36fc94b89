-- ===== src/Service/Running/Admitted.antt =====
-- Which peers reach the service (service/service.cpp).
use yo_authorize.Service.Loop.{AuthorizationService}
use yo_authorize.Service.Running.{
  Arrival, Running, ServiceConfig, OpenSsl, Result, Bool, EnvelopeBuffers, Status, not, Transport,
  PeerCredentials, if◌then◌else◌, Option,
}
use yo_authorize.Service.Running.Visits.{on_a_list}
use mathlib.Core.List.{List, ◌∷◌}
use yo_authorize.Prelude.{◌&&◌, ◌≡◌, err, is_ok, [], true, ok}

abbrev pub peer_refused : ServiceConfig → Result Status PeerCredentials → Bool
peer_refused config (err status) = true
peer_refused config (ok peer) = not (on_a_list config peer)

-- The arrivals whose peer could not be told or is not on the lists.
abbrev pub refused : {S : Type 0} → ServiceConfig → Arrival S → Bool
refused config arrival =
    not arrival.stop && is_ok arrival.accepted && peer_refused config arrival.peer

abbrev Continue : Type 0
Continue = AuthorizationService → Option Running

unfoldable pub admitted : {S : Type 0} → ServiceConfig → List (Arrival S) → List (Arrival S)
admitted config [] = []
admitted config (arrival ∷ arrivals) =
    let rest = admitted config arrivals in if refused config arrival then rest else arrival ∷ rest

module _ (o : OpenSsl) (fb : EnvelopeBuffers) {S : Type 0} (t : Transport S) where
  module _ (config : ServiceConfig) where
    -- Two continuations that agree under the configuration.
    Agree : Continue → Continue → Type 0
    Agree f g = (service : AuthorizationService) → service.config ≡ config → f service ≡ g service
