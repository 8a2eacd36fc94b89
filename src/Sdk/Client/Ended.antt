-- ===== src/Sdk/Client/Ended.antt =====
-- A client that is shut down (client.cpp).
use yo_authorize.Prelude.{
  Option, some, none, false, ◌≡◌, refl, subst, List, [], ◌∷◌, ℕ, if◌then◌else◌, ◌+◌,
}
use yo_authorize.OpenSsl.{OpenSsl}
use yo_authorize.Protocol.Envelope.{EnvelopeBuffers}
use yo_authorize.Protocol.Handshake.Client.{ClientHandshake}
use yo_authorize.Transport.{Transport}
use yo_authorize.Sdk.Status.{ClientState}
use yo_authorize.Sdk.Client.{LicenseClient}
use yo_authorize.Sdk.Client.Initializing.{initialize}
use yo_authorize.Sdk.Client.Beating.{heartbeat}
use yo_authorize.Sdk.Client.Closing.{
  closed_client, shutdown_over, shutdown, session_closed, transport_closed,
}
use yo_authorize.Prelude.Words.{u64}
use yo_authorize.Protocol.Handshake.{is_established}
use yo_authorize.Sdk.Client.Runs.{
  Call, shuts_down, initializes, beats, called, run_calls, run_calls-keep, Kept, first_of,
}

module _ (o : OpenSsl) (fb : EnvelopeBuffers) {S : Type 0} (t : Transport S) where
  -- No call changes what a closed client shows.
  Closed : LicenseClient S → Type 0
  Closed c =
      (c.snapshot.state ≡ ClientState.closed) × (c.beating ≡ false) × (c.snapshot.features ≡ [])

  transport_closed-Closed :
      (c : LicenseClient S) (x : Option S) → Kept Closed (first_of (transport_closed o fb t c x))
  unfolding transport_closed closed_client Closed
  transport_closed-Closed c none = tt
  transport_closed-Closed c (some s) = (refl, refl, refl)

  shutdown-Closed : (now : ℕ) (c : LicenseClient S) → Kept Closed (first_of (shutdown o fb t now c))
  unfolding shutdown shutdown_over closed_client Closed
  shutdown-Closed now c = over c.transport c.handshake
    where
      over :
          (x : Option S) (y : Option ClientHandshake)
          → Kept Closed (first_of (shutdown_over o fb t now c x y))
      over none y = (refl, refl, refl)
      over (some s) none = transport_closed-Closed c (some s)
      over (some s) (some h) =
          transport_closed-Closed
            (if is_established h.state
              then record c { next_request_id = u64 (c.next_request_id + 1) }
              else c)
            (session_closed o fb t now c s h)

  called-Closed :
      (call : Call S) (c : LicenseClient S) → Closed c → Kept Closed (called o fb t call c)
  unfolding called initialize heartbeat Closed
  called-Closed (initializes config env) c i = rw i.0 (refl, i.1, i.2)
  called-Closed (beats beat) c i = rw i.1 (i.0, refl, i.2)
  called-Closed (shuts_down now) c i = shutdown-Closed now c

  -- After a shutdown, any further calls leave the client closed and without features: neither
  -- `initialize` nor a late heartbeat brings it back.
  pub run_calls-closed :
      (calls : List (Call S)) (now : ℕ) (c : LicenseClient S) {c' : LicenseClient S}
      → run_calls o fb t (shuts_down now ∷ calls) c ≡ some c'
      → (c'.snapshot.state ≡ ClientState.closed) × (c'.snapshot.features ≡ [])
  unfolding run_calls called Closed
  run_calls-closed calls now c e =
      after (first_of (shutdown o fb t now c)) (shutdown-Closed now c) e
    where
      after :
          {c' : LicenseClient S} (x : Option (LicenseClient S))
          → Kept Closed x
          → elim x as (λ z. Option (LicenseClient S)) [
            | none ↦ none
            | some c'' ↦ run_calls o fb t calls c''
          ]
            ≡ some c'
          → (c'.snapshot.state ≡ ClientState.closed) × (c'.snapshot.features ≡ [])
      after none i e = cc
      after (some c'') i e =
          let (state, idle, bare) =
            subst (Kept Closed) e (run_calls-keep o fb t Closed called-Closed calls c'' i) in
          (state, bare)
