-- ===== src/Sdk/Client/Runs.antt =====
-- Runs of a client (client.cpp).
use yo_authorize.Prelude.{Option, some, none, List, [], ◌∷◌, ℕ}
use yo_authorize.OpenSsl.{OpenSsl}
use yo_authorize.Protocol.Envelope.{EnvelopeBuffers}
use yo_authorize.Transport.{Transport}
use yo_authorize.Sdk.Client.{ClientConfig, LicenseClient}
use yo_authorize.Sdk.Client.Initializing.{Surroundings, initialize}
use yo_authorize.Sdk.Client.Beating.{Beat, heartbeat}
use yo_authorize.Sdk.Client.Closing.{shutdown}

abbrev pub client_of : {A B : Type 0} → Option (A × B) → Option B
client_of none = none
client_of (some (a, b)) = some b

abbrev pub first_of : {A B : Type 0} → Option (A × B) → Option A
first_of none = none
first_of (some (a, b)) = some a

module _ {S : Type 0} where
  abbrev pub Kept : (LicenseClient S → Type 0) → Option (LicenseClient S) → Type 0
  Kept P none = Unit {0}
  Kept P (some c) = P c

-- A call of one of the two threads.
pub data Call (S : Type 0) : Type 0 where
  initializes : ClientConfig → Surroundings S → Call S
  beats : Beat → Call S
  shuts_down : ℕ → Call S

module _ (o : OpenSsl) (fb : EnvelopeBuffers) {S : Type 0} (t : Transport S) where
  unfoldable pub called : Call S → LicenseClient S → Option (LicenseClient S)
  called (initializes config env) c = client_of (initialize o fb t config env c)
  called (beats beat) c = heartbeat o fb t beat c
  called (shuts_down now) c = first_of (shutdown o fb t now c)

  unfoldable pub run_calls : List (Call S) → LicenseClient S → Option (LicenseClient S)
  unfolding called
  run_calls [] c = some c
  run_calls (call ∷ calls) c = elim (called call c) [ none ↦ none | some c' ↦ run_calls calls c' ]

  -- What every call keeps, every run keeps.
  pub run_calls-keep :
      (P : LicenseClient S → Type 0)
      → ((call : Call S) (c : LicenseClient S) → P c → Kept P (called call c))
      → (calls : List (Call S)) (c : LicenseClient S) → P c
      → Kept P (run_calls calls c)
  unfolding run_calls
  run_calls-keep P keeps [] c i = i
  run_calls-keep P keeps (call ∷ calls) c i =
      next (called call c) (keeps call c i) (run_calls-keep P keeps calls)
    where
      next :
          (x : Option (LicenseClient S))
          → Kept P x
          → ((c : LicenseClient S) → P c → Kept P (run_calls calls c))
          → Kept P (elim x as (λ z. Option (LicenseClient S)) [
            | none ↦ none
            | some c'' ↦ run_calls calls c''
          ])
      next none i later = tt
      next (some c'') i later = later c'' i
