-- ===== src/Service/KeyStore/Loaded.antt =====
-- What the keys that are loaded are (service/key_store.cpp).
use mathlib.Core.List.{Mem, mem-cons}
use mathlib.Core.Logic.Or
use yo_authorize.Files.{FileCalls, FileStat, read_all, length-read_all}
use yo_authorize.Core.License.{find_key}
use yo_authorize.Service.Config.{ServiceConfig, TrustKeyConfig}
use yo_authorize.Service.KeyStore.{
  KeyStoreError, LoadedKeys, others_mode, key_read, key_checked, key_opened, load_raw_key,
  key_added, add_next, add_keys, identity_loaded, load_keys, Bool, Bytes, Option, true, List,
}
use yo_authorize.Prelude.{
  ◌≡◌, some, Result, All, ◌∷◌, length, err, false, ok, [], if-lem, none, if-elim, is_some, subst,
  not, refl, ◌&&◌, ◌==◌, not-eq-false, arith, ℕ,
}

-- A key of 32 bytes, from a regular file that nobody else may touch where it is private.
pub record IsKey (file : FileCalls) (private_key : Bool) (key : Bytes) : Type 0 where
  pub info : FileStat
  pub found : file.stat ≡ some info
  pub regular : info.is_regular ≡ true
  pub private : private_key ≡ true → others_mode info.mode ≡ 0
  pub read : read_all false file.reads 32 [] ≡ some (some key)
  pub size : length key ≡ 32

Key? : FileCalls → Bool → Option (Result KeyStoreError Bytes) → Type 0
Key? file private_key none = Unit {0}
Key? file private_key (some (err e)) = Unit {0}
Key? file private_key (some (ok key)) = IsKey file private_key key

load_raw_key-Key :
    (file : FileCalls) (private_key : Bool) → Key? file private_key (load_raw_key file private_key)
unfolding load_raw_key key_opened key_checked key_read Key?
load_raw_key-Key file private_key = opened_case file.opened
  where
    read_case :
        (info : FileStat) (x : Option (Option Bytes))
        → file.stat ≡ some info
        → info.is_regular ≡ true
        → (private_key ≡ true → others_mode info.mode ≡ 0)
        → read_all false file.reads 32 [] ≡ x
        → Key? file private_key (key_read x)
    read_case info none f r p e = tt
    read_case info (some none) f r p e = tt
    read_case info (some (some key)) f r p e = record {
      info = info;
      found = f;
      regular = r;
      private = p;
      read = e;
      size = length-read_all false file.reads 32 e;
    }

    stat_case :
        (x : Option FileStat)
        → file.stat ≡ x
        → Key? file private_key (key_checked file private_key x)
    stat_case none f = tt
    stat_case (some info) f =
        if-elim (Key? file private_key) (not info.is_regular) (λ q. tt)
          λ regular.
            if-elim (Key? file private_key) (private_key && not (others_mode info.mode == 0))
              (λ q. tt)
              λ mode.
                if-elim (Key? file private_key) (not (info.size == 32)) (λ q. tt)
                  λ size.
                    read_case info (read_all false file.reads 32 []) f (not-eq-false _ regular)
                      (λ q. ground (arith, mode, q)) refl

    opened_case : (x : Result ℕ (Unit {0})) → Key? file private_key (key_opened file private_key x)
    opened_case (err error) = tt
    opened_case (ok u) = stat_case file.stat refl

-- A key with its id that was read from the file of an entry of the configuration.
pub record IsConfigured (files : Bytes → FileCalls) (config : ServiceConfig) (p : Bytes × Bytes)
    : Type 0 where
  pub entry : TrustKeyConfig
  pub listed : Mem entry config.license_keys
  pub id : p.0 ≡ entry.id
  pub key : IsKey (files entry.public_key_path) false p.1

pub record IsLoaded (files : Bytes → FileCalls) (config : ServiceConfig) (keys : LoadedKeys)
    : Type 0 where
  pub identity : IsKey (files config.identity_private_key_path) true keys.identity_private_key
  pub key_id : keys.identity_key_id ≡ config.identity_key_id
  pub trusted : All (IsConfigured files config) keys.license_public_keys

Loaded? :
    (files : Bytes → FileCalls) → ServiceConfig → Option (Result KeyStoreError LoadedKeys) → Type 0
Loaded? files config none = Unit {0}
Loaded? files config (some (err e)) = Unit {0}
Loaded? files config (some (ok keys)) = IsLoaded files config keys

module _ (files : Bytes → FileCalls) (config : ServiceConfig) where
  add_keys-Loaded :
      (keys : List TrustKeyConfig) (loaded : LoadedKeys)
      → ((k : TrustKeyConfig) → Mem k keys → Mem k config.license_keys)
      → IsLoaded files config loaded
      → Loaded? files config (add_keys files keys loaded)
  unfolding add_keys add_next key_added Loaded? Key?
  add_keys-Loaded [] loaded sub h = h
  add_keys-Loaded (key ∷ keys) loaded sub h =
      added_case (load_raw_key (files key.public_key_path) false)
        (load_raw_key-Key (files key.public_key_path) false)
        (λ l. add_keys-Loaded keys l (λ k m. sub k (mem-cons.1 (Or.inr m))))
    where
      added_case :
          (x : Option (Result KeyStoreError Bytes))
          → Key? (files key.public_key_path) false x
          → ((l : LoadedKeys)
              → IsLoaded files config l
              → Loaded? files config (add_keys files keys l))
          → Loaded? files config (add_next (add_keys files keys) (key_added loaded key.id x))
      added_case none k next = tt
      added_case (some (err e)) k next = tt
      added_case (some (ok bytes)) k next =
          if-lem (λ x. Loaded? files config (add_next (add_keys files keys) x))
            (is_some (find_key key.id loaded.license_public_keys)) tt
            (next
              (record loaded { license_public_keys = (key.id, bytes) ∷ loaded.license_public_keys })
              (record {
                identity = h.identity;
                key_id = h.key_id;
                trusted = (configured k, h.trusted);
              }))
        where
          configured :
              Key? (files key.public_key_path) false (some (ok bytes))
              → IsConfigured files config (key.id, bytes)
          configured k = record {
            entry = key;
            listed = sub key (mem-cons.1 (Or.inl refl));
            id = refl;
            key = k;
          }

  pub load_keys-IsLoaded :
      {keys : LoadedKeys} → load_keys files config ≡ some (ok keys) → IsLoaded files config keys
  unfolding load_keys identity_loaded Loaded? Key?
  load_keys-IsLoaded {keys = keys} e = subst (Loaded? files config) e (
      identity_case (load_raw_key (files config.identity_private_key_path) true)
        (load_raw_key-Key (files config.identity_private_key_path) true))
    where
      identity_case :
          (x : Option (Result KeyStoreError Bytes))
          → Key? (files config.identity_private_key_path) true x
          → Loaded? files config (identity_loaded files config x)
      identity_case none k = tt
      identity_case (some (err e)) k = tt
      identity_case (some (ok key)) k =
          add_keys-Loaded config.license_keys
            (record {
              identity_key_id = config.identity_key_id;
              identity_private_key = key;
              license_public_keys = [];
            })
            (λ k m. m) (record { identity = k; key_id = refl; trusted = tt })
