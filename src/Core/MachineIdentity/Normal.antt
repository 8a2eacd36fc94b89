-- ===== src/Core/MachineIdentity/Normal.antt =====
-- The components that a machine's identity is made of (core/machine_identity.cpp).
use mathlib.Core.Option
use yo_authorize.Core.MachineIdentity.{
  NormalizedComponent, ComponentType, machine_id, product_uuid, ReadResult, success, absent,
  failure, LinuxMachineIdentityConfig, exact_id_of, sort_components, insert_component, bytes_less,
  components_of, read_component, component_of, normalize, normalize_machine_id,
  normalize_product_uuid, uuid_digits, type_name, collect_linux_machine_identity, trim_ascii,
  ascii_lower, is_ascii_hex, List, Bytes, ℕ, OpenSsl, length, ◌++◌, [], ok, ◌∷◌, not,
}
use yo_authorize.Core.MachineIdentity.Binding.{Collision, IsNormal, exact_id_of_inj}
use mathlib.Core.Option.{Option, some}
use yo_authorize.Prelude.{
  map, ◌≡◌, inl, arith, ◌≤◌, inr, All, if-elim, ◌⊎◌, if-eq-ok, none, subst, refl, if◌then◌else◌,
  sym, ◌==◌, ==_iff, ap, ◌||◌, not-eq-false, ◌∙◌, ◌+◌,
}

length-map {ℓ κ} :
    {A : Type ℓ} {B : Type κ} (f : A → B) (xs : List A) → length (map f xs) ≡ length xs
length-map f [] = refl
length-map f (x ∷ xs) = omega (arith, length-map f xs)

length-normalize_machine_id :
    (input : Bytes) {value : Bytes} → normalize_machine_id input ≡ some value → length value ≡ 32
unfolding normalize_machine_id
length-normalize_machine_id input e = ground (arith, e, length-map ascii_lower (trim_ascii input))

abbrev NoLonger : ℕ → Option Bytes → Type 0
NoLonger n none = Unit {0}
NoLonger n (some value) = length value ≤ n

uuid_digits-NoLonger : (index : ℕ) (xs : Bytes) → NoLonger (length xs) (uuid_digits index xs)
unfolding uuid_digits
uuid_digits-NoLonger index [] = omega arith
uuid_digits-NoLonger index (c ∷ cs) =
    longer (uuid_digits (index + 1) cs) (uuid_digits-NoLonger (index + 1) cs)
  where
    longer :
        (x : Option Bytes)
        → NoLonger (length cs) x
        → NoLonger (length (c ∷ cs)) (
            if index == 8 || index == 13 || index == 18 || index == 23
            then (if not (c == b'-') then none else x)
            else (if not (is_ascii_hex c) then none else Option.map (◌∷◌ (ascii_lower c)) x))
    longer none h = ground arith
    longer (some v) h = ground arith

normalize-NoLonger :
    (type : ComponentType) (contents : Bytes) → NoLonger 36 (normalize type contents)
unfolding normalize normalize_product_uuid
normalize-NoLonger machine_id contents = found (normalize_machine_id contents) refl
  where
    found : (x : Option Bytes) → normalize_machine_id contents ≡ x → NoLonger 36 x
    found none e = tt
    found (some v) e = omega (arith, length-normalize_machine_id contents e)
normalize-NoLonger product_uuid contents =
    if-elim (NoLonger 36) (not (length (trim_ascii contents) == 36)) (λ q. tt)
      (λ q.
        let size : length (trim_ascii contents) ≡ 36 = (==_iff _ 36).0 (not-eq-false _ q) in
        subst (λ n. NoLonger n (uuid_digits 0 (trim_ascii contents))) size
          (uuid_digits-NoLonger 0 (trim_ascii contents)))

-- What one read adds: nothing, or a component of this type.
Adds : ComponentType → List NormalizedComponent → Type 0
Adds type cs =
    (cs ≡ [])
    ⊎ ((v : Bytes) × (length v ≤ 36) × (cs ≡ record { type = type_name type; value = v } ∷ []))

read_component-Adds :
    (type : ComponentType) (x : Option ReadResult) → Adds type (read_component type x).1
unfolding read_component component_of Adds
read_component-Adds type none = inl refl
read_component-Adds type (some absent) = inl refl
read_component-Adds type (some failure) = inl refl
read_component-Adds type (some (success contents)) =
    normal (normalize type contents) (normalize-NoLonger type contents)
  where
    normal : (x : Option Bytes) → NoLonger 36 x → Adds type (component_of type x).1
    normal none h = inl refl
    normal (some v) h = inr (v, h, refl)

-- Normal components, at most two, in the order that the sort keeps.
record Ordered (cs : List NormalizedComponent) : Type 0 where
  sorted : sort_components cs ≡ cs
  normal : All IsNormal cs
  few : length cs ≤ 2

ordered :
    (xs ys : List NormalizedComponent)
    → Adds machine_id xs
    → Adds product_uuid ys
    → Ordered (xs ++ ys)
unfolding Adds sort_components insert_component bytes_less
ordered xs ys (inl e) (inl f) = rw (e, f) (record { sorted = refl; normal = tt; few = omega arith })
ordered xs ys (inl e) (inr (v, h, f)) =
    rw (e, f)
      (record {
        sorted = refl;
        normal = (record { type = omega arith; value = omega arith }, tt);
        few = omega arith;
      })
ordered xs ys (inr (v, h, e)) (inl f) =
    rw (e, f)
      (record {
        sorted = refl;
        normal = (record { type = omega arith; value = omega arith }, tt);
        few = omega arith;
      })
ordered xs ys (inr (v, h, e)) (inr (w, k, f)) =
    rw (e, f)
      (record {
        sorted = refl;
        normal = (
          record { type = omega arith; value = omega arith },
          (record { type = omega arith; value = omega arith }, tt),
        );
        few = omega arith;
      })

components_of-Ordered :
    (config : LinuxMachineIdentityConfig) (reader : Bytes → Option ReadResult)
    → Ordered (components_of config reader)
unfolding components_of
components_of-Ordered config reader =
    ordered _ _ (read_component-Adds machine_id (reader config.machine_id_path))
      (read_component-Adds product_uuid (reader config.product_uuid_path))

module _ (o : OpenSsl) where
  collected :
      (config : LinuxMachineIdentityConfig) (reader : Bytes → Option ReadResult) {id : Bytes}
      → (collect_linux_machine_identity o config reader).exact_id ≡ ok id
      → exact_id_of o (components_of config reader) ≡ ok id
  unfolding collect_linux_machine_identity
  collected config reader e = (if-eq-ok _ _ _ e).1

  -- Two collections of a machine's identity with one exact id read the same normalised components,
  -- in the same order, or exhibit two byte strings with one SHA-256 digest.
  pub collect_linux_machine_identity_inj :
      (c d : LinuxMachineIdentityConfig) (f g : Bytes → Option ReadResult) {id : Bytes}
      → (collect_linux_machine_identity o c f).exact_id ≡ ok id
      → (collect_linux_machine_identity o d g).exact_id ≡ ok id
      → (components_of c f ≡ components_of d g) ⊎ Collision o
  collect_linux_machine_identity_inj c d f g {id = id} e h =
      let a = components_of-Ordered c f in
      let b = components_of-Ordered d g in
      elim (exact_id_of_inj o (components_of c f) (components_of d g) id
        (subst (All IsNormal) (sym a.sorted) a.normal)
        (subst (All IsNormal) (sym b.sorted) b.normal)
        (omega (arith, ap (λ (x : List NormalizedComponent). length x) a.sorted, a.few))
        (omega (arith, ap (λ (x : List NormalizedComponent). length x) b.sorted, b.few))
        (collected c f e) (collected d g h)) [
          | inl same ↦ inl (sym a.sorted ∙ same ∙ b.sorted)
          | inr collision ↦ inr collision
        ]
