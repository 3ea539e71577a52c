-- ===== src/Tests/IoHubTests.antt =====
-- A hub of 32 devices, of which DSid 5 has device 1.
use pard_gem.Prelude.{
  ℕ, ◌+◌, ◌*◌, ◌^◌, ◌≡◌, ◌⊎◌, refl, true, List, [], ◌∷◌, Option, none, arith, ok, replicate,
}
use pard_gem.Bytes.{word_at, put_at}
use pard_gem.Prm.Rows.{first_row}
use pard_gem.IoHubCp.{IoHubCp, get_device_mask, row_serves, mask_at}
use pard_gem.IoHubCp.Assign.{bit}
use pard_gem.IoHub.{calc_pci_config_addr, invalid_address, remap_addr}
use pard_gem.IoHub.Visible.{AllNamed, IsOwned, remap_addr-IsOwned, remap_addr_alias}

abbrev no_offset : ℕ → ℕ → Option ℕ
no_offset ds addr = none

-- gem5's prefix.
abbrev prefix : ℕ
prefix = 12 * 2 ^ 60

hub : IoHubCp
unfolding put_at
hub = record {
  param_table_entries = 1;
  stat_table_entries = 0;
  tables = record {
    params = put_at 8 (replicate 8 0) 0 (1 + 5 * 2 ^ 16 + 1 * 2 ^ 32);
    stats = [];
    info = [];
    config = [];
  };
  registered = true;
  device_tags = 5 ∷ 6 ∷ [];
}

mask : get_device_mask hub 5 ≡ 1
unfolding hub get_device_mask mask_at row_serves first_row word_at
mask = refl

abbrev devices : List ℕ
devices = 16 ∷ replicate 31 0x20

named : AllNamed devices (get_device_mask hub 5)
named i lt on = lt

owned : bit (get_device_mask hub 5) 0 ≡ 1
unfolding bit
owned = rw mask refl

remap_addr-IsOwned_example :
    ((remap_addr prefix no_offset hub devices (prefix + 2 ^ 11) 5 ≡ ok (prefix + 2 ^ 11))
      × IsOwned devices (get_device_mask hub 5) (prefix + 2 ^ 11))
    ⊎ ((remap_addr prefix no_offset hub devices (prefix + 2 ^ 11) 5
          ≡ ok (invalid_address prefix no_offset))
        × ¬ IsOwned devices (get_device_mask hub 5) (prefix + 2 ^ 11))
remap_addr-IsOwned_example =
    remap_addr-IsOwned prefix no_offset hub devices (prefix + 2 ^ 11) 5 (omega arith) named

remap_addr_alias_example :
    remap_addr prefix no_offset hub devices (calc_pci_config_addr prefix no_offset 17 0) 5
    ≡ ok (calc_pci_config_addr prefix no_offset 17 0)
remap_addr_alias_example =
    remap_addr_alias 12 no_offset hub devices 5 0 1 0 named (omega arith) owned refl (omega arith)
      (omega arith)
