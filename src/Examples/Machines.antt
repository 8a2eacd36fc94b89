-- ===== src/Examples/Machines.antt =====
-- Two machines whose files spell one number differently.
use yo_authorize.Examples.Ciphers.{toy, fit}
use yo_authorize.Prelude.{
  Bytes, Result, Option, codes, ◌≡◌, true, err, ◌⊎◌, if◌then◌else◌, false, [], bytes_eq, ok, some,
  refl,
}
use yo_authorize.Core.MachineIdentity.{
  LinuxMachineIdentityConfig, collect_linux_machine_identity, components_of, read_component,
  ReadResult, component_of, normalize, normalize_machine_id, trim_front, success, trim_back, absent,
  exact_id_of, identity_transcript, append_components, sort_components, insert_component,
  bytes_less, hex_digest,
}
use yo_authorize.Core.Status.{ErrorCode}
use yo_authorize.Core.MachineIdentity.Binding.{Collision}
use yo_authorize.Core.MachineIdentity.Normal.{collect_linux_machine_identity_inj}
use yo_authorize.Crypto.{sha256}

abbrev machine_files : Bytes → Bytes → Option ReadResult
machine_files contents path =
    if bytes_eq path (codes "/etc/machine-id") then some (success contents) else some absent

abbrev paths : LinuxMachineIdentityConfig
paths = record {
  machine_id_path = codes "/etc/machine-id";
  product_uuid_path = codes "/uuid";
  require_machine_id = true;
  require_product_uuid = false;
}

abbrev lower : Bytes → Option ReadResult
lower = machine_files (codes "0123456789abcdef0123456789abcdef")

abbrev upper : Bytes → Option ReadResult
upper = machine_files (codes "  0123456789ABCDEF0123456789ABCDEF ")

abbrev id_or_empty : Result ErrorCode Bytes → Bytes
id_or_empty (err e) = []
id_or_empty (ok id) = id

identity : Bytes
unfolding collect_linux_machine_identity components_of read_component component_of normalize
    normalize_machine_id trim_front trim_back exact_id_of identity_transcript append_components
    sort_components insert_component bytes_less hex_digest sha256 toy fit bytes_eq
identity = id_or_empty (collect_linux_machine_identity toy paths lower).exact_id

lower_identity : (collect_linux_machine_identity toy paths lower).exact_id ≡ ok identity
unfolding identity collect_linux_machine_identity components_of read_component component_of
    normalize normalize_machine_id trim_front trim_back exact_id_of identity_transcript
    append_components sort_components insert_component bytes_less hex_digest sha256 toy fit bytes_eq
lower_identity = refl

upper_identity : (collect_linux_machine_identity toy paths upper).exact_id ≡ ok identity
unfolding identity collect_linux_machine_identity components_of read_component component_of
    normalize normalize_machine_id trim_front trim_back exact_id_of identity_transcript
    append_components sort_components insert_component bytes_less hex_digest sha256 toy fit bytes_eq
upper_identity = refl

collect_linux_machine_identity_inj_example :
    (components_of paths lower ≡ components_of paths upper) ⊎ Collision toy
collect_linux_machine_identity_inj_example =
    collect_linux_machine_identity_inj toy paths paths lower upper lower_identity upper_identity
