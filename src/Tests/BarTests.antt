-- ===== src/Tests/BarTests.antt =====
-- Runs of the I/O hub's BAR handling, over the range map of ListMap.
use pard_gem.Prelude.{
  ℕ, zero, suc, ◌+◌, ◌-◌, ◌*◌, ◌/◌, ◌%◌, ◌^◌, ◌≤◌, ◌≡◌, refl, true, false, List, [], ◌∷◌, some,
  arith, ◌==◌, if◌then◌else◌, ok, inl, inr, get_elem?,
}
use pard_gem.Tests.ListMap.{list_map, list_map-IsRangeMap}
use pard_gem.IoHub.{calc_pci_id}
use pard_gem.IoHub.Bars.{
  Bar, HubDevice, Hub, HubPort, Bases, first_bases, pci_config_ident, is_pci_config_port,
  write_request, read_response, hook_pci_access, startup, bar_at, find_owner,
}
use pard_gem.IoHub.Shadow.{
  NamesBar, goes, window, hook_pci_access_roundtrip, hook_pci_access-remaps,
  hook_pci_access-remaps_high,
}
use pard_gem.IoHub.Placement.{Placed}
use pard_gem.IoHub.Windows.{startup_apart}

-- A network card with an I/O window of 64 ports in BAR 0 and 4 KB of memory in BAR 1.
abbrev config_port : HubPort
config_port = record { name = 110 ∷ pci_config_ident; owner = 9; ranges = 0xC000000000001000 ∷ [] }

abbrev other_port : HubPort
other_port = record { name = 109 ∷ 101 ∷ 109 ∷ []; owner = 3; ranges = [] }

abbrev sized : ℕ → ℕ
sized addr = if addr % 256 == 0x10 then 0xFFFFFFC1 else if addr % 256 == 0x14 then 0xFFFFF000 else 0

abbrev new_card : HubDevice
new_card = record { owner = 9; pciid = 0; interrupt_line = 0; ports = 4 ∷ []; bars = [] }

abbrev new_hub : Hub list_map
new_hub = record { devices = new_card ∷ []; config_shadow = []; io_shadow = λ ds. [] }

sized_small : (addr : ℕ) → (2 ^ 32 - sized addr / 2 * 2) % 2 ^ 32 ≤ 4096
sized_small addr = ground arith

other_named : is_pci_config_port other_port.name ≡ false
unfolding is_pci_config_port
other_named = refl

config_named : is_pci_config_port config_port.name ≡ true
unfolding is_pci_config_port
config_named = refl

card_found : find_owner new_hub.devices 9 0 ≡ some 0
unfolding find_owner
card_found = refl

some_device : {d e : HubDevice} → some d ≡ some e → d ≡ e
some_device e = cc

card_fresh : (i : ℕ) (d : HubDevice) → get_elem? new_hub.devices i ≡ some d → d.bars ≡ []
card_fresh zero d at = let same : new_card ≡ d = some_device at in rw (← same) refl
card_fresh (suc i) d at = cc

startup_apart_example :
    (hub : Hub list_map) × (end : Bases) × (startup list_map sized
        (λ a. 11)
        new_hub
        (other_port ∷ config_port ∷ [])
      ≡ ok hub)
    × Placed first_bases end hub.devices
startup_apart_example =
    startup_apart list_map sized (λ a. 11) new_hub (other_port ∷ config_port ∷ []) 4096 sized_small
      (
        inl other_named,
        (inr (0xC000000000001000, 0, new_card, config_named, refl, card_found, refl), tt),
      )
      card_fresh (omega arith)

started :
    startup list_map sized (λ a. 11) new_hub (other_port ∷ config_port ∷ [])
    ≡ ok (record {
      devices =
          record {
            owner = 9;
            pciid = 32;
            interrupt_line = 11;
            ports = 4 ∷ [];
            bars =
                record { uniq = 0xC001; size = 64; user = 1 }
                ∷ record { uniq = 0xC1000000; size = 4096; user = 0 }
                ∷ record { uniq = 0xC1001000; size = 0; user = 0 }
                ∷ record { uniq = 0xC1001000; size = 0; user = 0 }
                ∷ record { uniq = 0xC1001000; size = 0; user = 0 }
                ∷ [];
          }
          ∷ [];
      config_shadow = (record { start = 0xC000000000001010; size = 20 }, 0) ∷ [];
      io_shadow = λ ds. [];
    })
unfolding startup calc_pci_id
started = refl

-- The card after startup, and the guest's view of its registers.
abbrev card_hub : Hub list_map
card_hub = record {
  devices =
      record {
        owner = 9;
        pciid = 32;
        interrupt_line = 11;
        ports = 4 ∷ [];
        bars =
            record { uniq = 0xC001; size = 64; user = 1 }
            ∷ record { uniq = 0xC1000000; size = 4096; user = 0 }
            ∷ [];
      }
      ∷ [];
  config_shadow = (record { start = 0xC000000000001010; size = 20 }, 0) ∷ [];
  io_shadow = λ ds. [];
}

abbrev port_name : ℕ → List ℕ
port_name addr = config_port.name

abbrev io_address : ℕ → ℕ
io_address p = 2 ^ 63 + p

abbrev bar0 : Bar
bar0 = record { uniq = 0xC001; size = 64; user = 1 }

abbrev bar1 : Bar
bar1 = record { uniq = 0xC1000000; size = 4096; user = 0 }

names_bar0 : bar_at card_hub.devices 0 0 ≡ ok bar0
unfolding bar_at
names_bar0 = refl

names_bar1 : bar_at card_hub.devices 0 1 ≡ ok bar1
unfolding bar_at
names_bar1 = refl

bar0_register : NamesBar list_map io_address port_name card_hub 0xC000000000001010 0 bar0
bar0_register = (config_named, omega arith, omega arith, refl, names_bar0)

bar1_register : NamesBar list_map io_address port_name card_hub 0xC000000000001014 0 bar1
bar1_register = (config_named, omega arith, omega arith, refl, names_bar1)

hook_pci_access_roundtrip_example :
    (hub : Hub list_map) × (hook_pci_access list_map io_address port_name card_hub
        (record { kind = write_request; addr = 0xC000000000001010; ds_id = 1; value = 0x1001 })
      ≡ ok (
        hub,
        record { kind = write_request; addr = 0xC000000000001010; ds_id = 1; value = 0xC001 },
      ))
    × (hook_pci_access list_map io_address port_name hub
          (record { kind = read_response; addr = 0xC000000000001010; ds_id = 2; value = 0xC001 })
        ≡ ok (
          hub,
          record { kind = read_response; addr = 0xC000000000001010; ds_id = 2; value = 0x1001 },
        ))
hook_pci_access_roundtrip_example =
    hook_pci_access_roundtrip list_map io_address port_name card_hub 0xC000000000001010 1 2 0x1001 0
      bar0 bar0_register ((λ e. omega arith), (λ e. omega arith))

hook_pci_access-remaps_example :
    (hub : Hub list_map) × (hook_pci_access list_map io_address port_name card_hub
        (record { kind = write_request; addr = 0xC000000000001010; ds_id = 1; value = 0x1001 })
      ≡ ok (
        hub,
        record { kind = write_request; addr = 0xC000000000001010; ds_id = 1; value = 0xC001 },
      ))
    × (goes list_map io_address port_name hub 1 (window list_map io_address port_name 0x1001 + 5)
        ≡ window list_map io_address port_name 0xC001 + 5)
    × (goes list_map io_address port_name hub 2 7 ≡ goes list_map io_address port_name card_hub 2 7)
hook_pci_access-remaps_example =
    hook_pci_access-remaps list_map io_address port_name card_hub 0xC000000000001010 1 2 0x1001 0 5
      7 bar0 list_map-IsRangeMap (λ p h. refl) bar0_register
      ((λ e. omega arith), (λ e. omega arith)) (λ a h. refl) (omega arith) refl (omega arith)
      (omega arith) (λ e. omega arith)

-- A guest that puts the card's memory at 0xE0000000.
hook_pci_access-remaps_high_example :
    (hub : Hub list_map) × (hook_pci_access list_map io_address port_name card_hub
        (record { kind = write_request; addr = 0xC000000000001014; ds_id = 1; value = 0xE0000000 })
      ≡ ok (
        hub,
        record { kind = write_request; addr = 0xC000000000001014; ds_id = 1; value = 0xC1000000 },
      ))
    × (goes list_map io_address port_name hub 1
          (window list_map io_address port_name 0xE0000000 + 8)
        ≡ window list_map io_address port_name 0xC1000000 + 8 + 2 ^ 32)
hook_pci_access-remaps_high_example =
    hook_pci_access-remaps_high list_map io_address port_name card_hub 0xC000000000001014 1
      0xE0000000 0 8 bar1 list_map-IsRangeMap (λ p h. refl) bar1_register
      ((λ e. omega arith), (λ e. omega arith)) (λ a h. refl) (omega arith) (omega arith) refl
      (omega arith) (omega arith)
