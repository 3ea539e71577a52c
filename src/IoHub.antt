-- ===== src/IoHub.antt =====
-- dev/pard/iohub.cc: where the I/O hub sends an access of a domain; with calcPciID of
-- dev/cellx/cellx.cc.
pub mod Visible
pub mod Bars
pub mod Placement
pub mod Windows
pub mod Shadow
use pard_gem.Prelude.{
  ℕ, zero, suc, ◌+◌, ◌*◌, ◌/◌, ◌%◌, ◌^◌, List, [], ◌∷◌, Option, none, some, ◌==◌, if◌then◌else◌,
  Result, ok, fault, out_of_bounds, ◌>>=◌, get_elem?,
}
use pard_gem.IoHubCp.{IoHubCp, get_device_mask}
use pard_gem.IoHubCp.Assign.{bit}

-- CellX::calcPciID: four bits of the device's number, and its function.
unfoldable pub calc_pci_id : ℕ → ℕ
calc_pci_id addr = addr / 2 ^ 11 % 16 * 16 + addr / 2 ^ 8 % 8

-- `devices[i]`
unfoldable pub device_at : List ℕ → ℕ → Result ℕ
device_at devices i = elim (get_elem? devices i) [ none ↦ fault out_of_bounds | some d ↦ ok d ]

-- The loop over the device mask from bit `i` on: the address if a device of the mask has its
-- identifier, else `invalid`. `devices` are the devices' pciids.
unfoldable pub search_devices : List ℕ → ℕ → ℕ → ℕ → ℕ → ℕ → Result ℕ
search_devices devices mask addr invalid zero i = ok invalid
search_devices devices mask addr invalid (suc n) i =
    let later = search_devices devices mask addr invalid n (suc i) in
    if bit mask i == 1
    then (device_at devices i >>= λ d. if d == calc_pci_id addr then ok addr else later)
    else later

-- `prefix` is gem5's PhysAddrPrefixPciConfig, a multiple of 2 ^ 60, and `io_offset` the search of
-- `pciIoShadow[DSid]`, a map of gem5's.
module _ (prefix : ℕ) (io_offset : ℕ → ℕ → Option ℕ) where
  -- `calcPciConfigAddr(0, dev, func)`
  abbrev pub calc_pci_config_addr : ℕ → ℕ → ℕ
  calc_pci_config_addr dev func = prefix + func * 2 ^ 8 + dev * 2 ^ 11

  abbrev pub invalid_address : ℕ
  invalid_address = calc_pci_config_addr 31 7

  unfoldable pub config_access : List ℕ → ℕ → ℕ → Result ℕ
  config_access devices mask addr =
      if mask == 0
      then ok invalid_address
      else search_devices devices mask addr invalid_address 32 0

  unfoldable pub io_access : ℕ → ℕ → ℕ
  io_access ds addr = elim (io_offset ds addr) [
    | none ↦ addr
    | some offset ↦ (addr + offset) % 2 ^ 64
  ]

  unfoldable pub remap_addr : IoHubCp → List ℕ → ℕ → ℕ → Result ℕ
  remap_addr cp devices addr ds =
      if addr / 2 ^ 60 * 2 ^ 60 == prefix
      then config_access devices (get_device_mask cp ds) addr
      else ok (io_access ds addr)
