-- ===== src/Service/KeyStore.antt =====
-- The service's keys (service/key_store.h, key_store.cpp). A result is `none` where the script of a
-- file's calls ends before its reading does.
pub mod Loaded
use yo_authorize.Prelude.{
  bit_and, Bytes, ℕ, Option, Bool, Result, List, some, err, true, ok, if◌then◌else◌, not, ◌==◌,
  is_some, ◌∷◌, [], none, ◌&&◌, false,
}
use yo_authorize.Files.{FileCalls, FileStat, read_all}
use yo_authorize.Crypto.{key_size}
use yo_authorize.Core.License.{TrustedKeys, find_key}
use yo_authorize.Service.Config.{ServiceConfig, TrustKeyConfig}

pub data KeyStoreError : Type 0 where
  open_failed invalid_file invalid_permissions invalid_size duplicate_key_id : KeyStoreError

pub record LoadedKeys : Type 0 where
  pub identity_key_id : Bytes
  pub identity_private_key : Bytes
  pub license_public_keys : TrustedKeys

abbrev eloop : ℕ
eloop = 40

-- `mode & (S_IRWXG | S_IRWXO)`
abbrev pub others_mode : ℕ → ℕ
others_mode mode = bit_and mode 63

unfoldable pub key_read : Option (Option Bytes) → Option (Result KeyStoreError Bytes)
key_read none = none
key_read (some none) = some (err invalid_file)
key_read (some (some key)) = some (ok key)

unfoldable pub key_checked :
    FileCalls → Bool → Option FileStat → Option (Result KeyStoreError Bytes)
unfolding key_read
key_checked file private_key none = some (err invalid_file)
key_checked file private_key (some info) =
    if not info.is_regular
    then some (err invalid_file)
    else if private_key && not (others_mode info.mode == 0)
    then some (err invalid_permissions)
    else if not (info.size == key_size)
    then some (err invalid_size)
    else key_read (read_all false file.reads key_size [])

unfoldable pub key_opened :
    FileCalls → Bool → Result ℕ (Unit {0}) → Option (Result KeyStoreError Bytes)
unfolding key_checked
key_opened file private_key (err error) =
    some (err (if error == eloop then invalid_file else open_failed))
key_opened file private_key (ok u) = key_checked file private_key file.stat

unfoldable pub load_raw_key : FileCalls → Bool → Option (Result KeyStoreError Bytes)
unfolding key_opened
load_raw_key file private_key = key_opened file private_key file.opened

unfoldable pub key_added :
    LoadedKeys
    → Bytes
    → Option (Result KeyStoreError Bytes)
    → Option (Result KeyStoreError LoadedKeys)
key_added loaded id none = none
key_added loaded id (some (err e)) = some (err e)
key_added loaded id (some (ok key)) =
    if is_some (find_key id loaded.license_public_keys)
    then some (err duplicate_key_id)
    else some (ok (record loaded { license_public_keys = (id, key) ∷ loaded.license_public_keys }))

unfoldable pub add_next :
    (LoadedKeys → Option (Result KeyStoreError LoadedKeys))
    → Option (Result KeyStoreError LoadedKeys)
    → Option (Result KeyStoreError LoadedKeys)
add_next next none = none
add_next next (some (err e)) = some (err e)
add_next next (some (ok loaded)) = next loaded

-- The loop over the configured keys; the files are those under their paths.
unfoldable pub add_keys :
    (Bytes → FileCalls)
    → List TrustKeyConfig
    → LoadedKeys
    → Option (Result KeyStoreError LoadedKeys)
unfolding add_next key_added load_raw_key
add_keys files [] loaded = some (ok loaded)
add_keys files (key ∷ keys) loaded =
    add_next (add_keys files keys)
      (key_added loaded key.id (load_raw_key (files key.public_key_path) false))

unfoldable pub identity_loaded :
    (Bytes → FileCalls)
    → ServiceConfig
    → Option (Result KeyStoreError Bytes)
    → Option (Result KeyStoreError LoadedKeys)
unfolding add_keys
identity_loaded files config none = none
identity_loaded files config (some (err e)) = some (err e)
identity_loaded files config (some (ok key)) = add_keys files config.license_keys (record {
  identity_key_id = config.identity_key_id;
  identity_private_key = key;
  license_public_keys = [];
})

unfoldable pub load_keys :
    (Bytes → FileCalls) → ServiceConfig → Option (Result KeyStoreError LoadedKeys)
unfolding identity_loaded load_raw_key
load_keys files config =
    identity_loaded files config (load_raw_key (files config.identity_private_key_path) true)
