-- ===== src/Tables.antt =====
-- An `unordered_map` with byte strings for keys, as a list of entries with distinct keys.
use yo_authorize.Prelude.{
  Bytes, List, Option, Bool, ◌≡◌, none, is_some, if◌then◌else◌, some, bytes_eq, arith, [], ◌∷◌,
  bytes_eq_iff, refl, length, ◌≤◌,
}

abbrev pub Table {ℓ} : Type ℓ → Type ℓ
Table V = List (Bytes × V)

module _ {ℓ} {V : Type ℓ} where
  unfoldable pub find : Bytes → Table V → Option V
  find k [] = none
  find k ((j, v) ∷ t) = if bytes_eq j k then some v else find k t

  abbrev pub contains : Bytes → Table V → Bool
  contains k t = is_some (find k t)

  -- The entry under the key, given a new value.
  unfoldable pub update : Bytes → V → Table V → Table V
  update k v [] = []
  update k v ((j, w) ∷ t) = if bytes_eq j k then (j, v) ∷ t else (j, w) ∷ update k v t

  unfoldable pub erase : Bytes → Table V → Table V
  erase k [] = []
  erase k ((j, v) ∷ t) = if bytes_eq j k then t else (j, v) ∷ erase k t

  unfoldable pub erase_if : (V → Bool) → Table V → Table V
  erase_if p [] = []
  erase_if p ((j, v) ∷ t) = let rest = erase_if p t in if p v then rest else (j, v) ∷ rest

  -- Every key stands once.
  abbrev pub IsTable : Table V → Type ℓ
  IsTable [] = Unit {ℓ}
  IsTable ((j, v) ∷ t) = (find j t ≡ none) × IsTable t

  pub find-update :
      (k j : Bytes) (v : V) (t : Table V)
      → find j (update k v t)
        ≡ (if bytes_eq k j then (if is_some (find k t) then some v else none) else find j t)
  unfolding find update
  find-update k j v [] = ground arith
  find-update k j v ((i, w) ∷ t) =
      ground (arith, find-update k j v t, bytes_eq_iff k j, bytes_eq_iff i k, bytes_eq_iff i j)

  pub find-erase :
      (k j : Bytes) (t : Table V)
      → IsTable t
      → find j (erase k t) ≡ (if bytes_eq k j then none else find j t)
  unfolding find erase
  find-erase k j [] h = ground arith
  find-erase k j ((i, w) ∷ t) h =
      ground
        (arith, find-erase k j t h.1, h.0, bytes_eq_iff k j, bytes_eq_iff i k, bytes_eq_iff i j)

  abbrev pub kept : (V → Bool) → Option V → Option V
  kept p none = none
  kept p (some v) = if p v then none else some v

  find-erase_if-none :
      (p : V → Bool) (j : Bytes) (t : Table V) → find j t ≡ none → find j (erase_if p t) ≡ none
  unfolding find erase_if
  find-erase_if-none p j [] h = refl
  find-erase_if-none p j ((i, w) ∷ t) h = ground (arith, find-erase_if-none p j t)

  pub find-erase_if :
      (p : V → Bool) (j : Bytes) (t : Table V)
      → IsTable t
      → find j (erase_if p t) ≡ kept p (find j t)
  unfolding find erase_if
  find-erase_if p j [] h = refl
  find-erase_if p j ((i, w) ∷ t) h =
      ground (arith, find-erase_if p j t h.1, h.0, bytes_eq_iff i j, find-erase_if-none p j t)

  pub update-IsTable : (k : Bytes) (v : V) (t : Table V) → IsTable t → IsTable (update k v t)
  unfolding update
  update-IsTable k v [] h = tt
  update-IsTable k v ((i, w) ∷ t) h = ground (
    arith,
    update-IsTable k v t h.1,
    h.0,
    find-update k i v t,
    bytes_eq_iff k i,
    bytes_eq_iff i k,
  )

  pub erase-IsTable : (k : Bytes) (t : Table V) → IsTable t → IsTable (erase k t)
  unfolding erase
  erase-IsTable k [] h = tt
  erase-IsTable k ((i, w) ∷ t) h =
      ground (arith, erase-IsTable k t h.1, h.0, find-erase k i t h.1, h.1)

  pub erase_if-IsTable : (p : V → Bool) (t : Table V) → IsTable t → IsTable (erase_if p t)
  unfolding erase_if
  erase_if-IsTable p [] h = tt
  erase_if-IsTable p ((i, w) ∷ t) h =
      ground (arith, erase_if-IsTable p t h.1, h.0, find-erase_if-none p i t h.0)

  pub length-erase_if : (p : V → Bool) (t : Table V) → length (erase_if p t) ≤ length t
  unfolding erase_if
  length-erase_if p [] = omega arith
  length-erase_if p ((i, w) ∷ t) = ground (arith, length-erase_if p t)
