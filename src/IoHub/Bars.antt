-- ===== src/IoHub/Bars.antt =====
-- The base address registers (BARs) in dev/pard/iohub.cc: `startup` gives each BAR of each device a
-- window of its own, and `hookPciAccess` hides these windows behind the addresses a domain writes.
use pard_gem.Prelude.{
  ℕ, zero, suc, ◌+◌, ◌-◌, ◌*◌, ◌/◌, ◌%◌, ◌^◌, max, Bool, true, false, ◌&&◌, ◌||◌, List, [], ◌∷◌,
  ◌++◌, Option, none, some, ltb, leb, ◌==◌, if◌then◌else◌, Result, ok, fault, assertion,
  out_of_bounds, ◌>>=◌, length, get_elem?, set,
}
use pard_gem.RangeMap.{Range, RangeMap}
use pard_gem.IoHub.{calc_pci_id}

-- One index of the three arrays of PCI_CONFIG_SHADOW.
pub record Bar : Type 0 where
  pub uniq : ℕ
  pub size : ℕ
  pub user : ℕ

-- PCI_DEVICE; its owner is known by a number.
pub record HubDevice : Type 0 where
  pub owner : ℕ
  pub pciid : ℕ
  pub interrupt_line : ℕ
  pub ports : List ℕ
  pub bars : List Bar

-- `_DSid` to each device's windows. A shadow is known by the place of its device in `devices`.
pub record Hub (R : RangeMap ℕ) : Type 0 where
  pub devices : List HubDevice
  pub config_shadow : R.Map
  pub io_shadow : ℕ → R.Map

-- getPciDevice(owner): the place of the device.
unfoldable pub find_owner : List HubDevice → ℕ → ℕ → Option ℕ
find_owner [] owner i = none
find_owner (d ∷ rest) owner i =
    let later = find_owner rest owner (suc i) in if d.owner == owner then some i else later

abbrev pub add_port : List HubDevice → ℕ → ℕ → List HubDevice
add_port [] i port = []
add_port (d ∷ rest) zero port = record d { ports = d.ports ++ port ∷ [] } ∷ rest
add_port (d ∷ rest) (suc i) port = d ∷ add_port rest i port

-- The memory of a new PCI_DEVICE is not cleared: `raw` is what it holds.
unfoldable pub reg_device_port : List HubDevice → HubDevice → ℕ → ℕ → List HubDevice
unfolding find_owner
reg_device_port devices raw owner port = elim (find_owner devices owner 0) [
  | some i ↦ add_port devices i port
  | none ↦ devices ++ record raw { owner = owner; ports = port ∷ [] } ∷ []
]

-- `__isPciConfigPort`: a name, as character codes, longer than "-pciconf" that ends with it.
abbrev pub pci_config_ident : List ℕ
pci_config_ident = 45 ∷ 112 ∷ 99 ∷ 105 ∷ 99 ∷ 111 ∷ 110 ∷ 102 ∷ []

abbrev pub same_name : List ℕ → List ℕ → Bool
same_name [] [] = true
same_name (a ∷ name) (b ∷ other) = a == b && same_name name other
same_name _ _ = false

abbrev pub drop : ℕ → List ℕ → List ℕ
drop zero name = name
drop (suc n) [] = []
drop (suc n) (c ∷ name) = drop n name

unfoldable pub is_pci_config_port : List ℕ → Bool
is_pci_config_port name =
    ltb 8 (length name) && same_name (drop (length name - 8) name) pci_config_ident

-- Where the next window starts, in the I/O ports and in memory.
pub record Bases : Type 0 where
  pub io : ℕ
  pub mem : ℕ

abbrev pub first_bases : Bases
first_bases = record { io = 0xC000; mem = 0xC1000000 }

-- Steps 2 and 4 for a BAR that reads `value` after all ones were written to it.
abbrev pub base_of : ℕ → Bases → ℕ
base_of value bases = if value % 2 == 1 then bases.io else bases.mem

-- `base | type` for a type of one bit.
abbrev pub with_type : ℕ → ℕ → ℕ
with_type base type = base / 2 * 2 + max (base % 2) type

unfoldable pub new_bar : ℕ → Bases → Bar
new_bar value bases = record {
  uniq = with_type (base_of value bases) (value % 2);
  size = (2 ^ 32 - value / 2 * 2) % 2 ^ 32;
  user = value % 2;
}

unfoldable pub next_bases : ℕ → Bases → Bases
next_bases value bases =
    let size = (2 ^ 32 - value / 2 * 2) % 2 ^ 32 in
    if value % 2 == 1
    then record bases { io = (bases.io + size) % 2 ^ 32 }
    else record bases { mem = (bases.mem + size) % 2 ^ 32 }

-- The loop over the five BARs from register `i` on. `sized addr` is what the device answers at a
-- BAR after all ones; `startup` then clears the register, and the device is asked nothing else.
unfoldable pub probe_bars : (ℕ → ℕ) → ℕ → ℕ → ℕ → Bases → List Bar × Bases
unfolding new_bar next_bases
probe_bars sized config zero i bases = ([], bases)
probe_bars sized config (suc n) i bases =
    let value = sized (config + 0x10 + i * 4) in
    let (bars, end) = probe_bars sized config n (suc i) (next_bases value bases) in
    (new_bar value bases ∷ bars, end)

-- A port of the hub: the name and the owner of the slave port it is connected to, and the first
-- addresses of that port's ranges.
pub record HubPort : Type 0 where
  pub name : List ℕ
  pub owner : ℕ
  pub ranges : List ℕ

abbrev pub only : List ℕ → Result ℕ
only (r ∷ []) = ok r
only _ = fault assertion

abbrev pub device_here : List HubDevice → Option ℕ → Result (ℕ × HubDevice)
device_here devices none = fault assertion
device_here devices (some i) = elim (get_elem? devices i) [
  | none ↦ fault assertion
  | some d ↦ ok (i, d)
]

module _ (R : RangeMap ℕ) (sized line : ℕ → ℕ) where
  abbrev pub inserted : R.Map → Range → ℕ → R.Map
  inserted m r v = elim (R.insert m r v) [ none ↦ m | some m' ↦ m' ]

  -- One port of the loop of `startup`; `line` is what the device reads at its interrupt line.
  unfoldable pub start_port : Hub R → Bases → HubPort → Result (Hub R × Bases)
  unfolding probe_bars is_pci_config_port find_owner
  start_port hub bases port =
      if is_pci_config_port port.name
      then (only port.ranges >>= λ config.
          device_here hub.devices (find_owner hub.devices port.owner 0) >>= λ (i, d).
          let (bars, end) = probe_bars sized config 5 0 bases in
          ok (
            record hub {
              devices = set hub.devices i (record d {
                pciid = calc_pci_id config;
                interrupt_line = line (config + 0x3C) % 2 ^ 8;
                bars = bars;
              });
              config_shadow =
                  inserted hub.config_shadow (record { start = config + 0x10; size = 20 }) i;
            },
            end,
          ))
      else ok (hub, bases)

  unfoldable pub start_ports : Hub R → Bases → List HubPort → Result (Hub R × Bases)
  unfolding start_port
  start_ports hub bases [] = ok (hub, bases)
  start_ports hub bases (p ∷ rest) =
      start_port hub bases p >>= λ (hub', bases'). start_ports hub' bases' rest

  -- The crossbar's own startup and the control plane's recvDeviceChange come before and after.
  unfoldable pub startup : Hub R → List HubPort → Result (Hub R)
  unfolding start_ports
  startup hub ports =
      start_ports (record hub { config_shadow = R.empty; io_shadow = λ ds. R.empty }) first_bases
        ports
      >>= λ r. ok r.0

-- A packet as the hook sees it.
pub data AccessKind : Type 0 where
  write_request read_response other_kind : AccessKind

pub record ConfigPacket : Type 0 where
  pub kind : AccessKind
  pub addr : ℕ
  pub ds_id : ℕ
  pub value : ℕ

abbrev pub set_bar : List HubDevice → ℕ → ℕ → Bar → List HubDevice
set_bar [] i n bar = []
set_bar (d ∷ rest) zero n bar = record d { bars = set d.bars n bar } ∷ rest
set_bar (d ∷ rest) (suc i) n bar = d ∷ set_bar rest i n bar

-- `shadow->...BAR[n]` of the device at `i`.
unfoldable pub bar_at : List HubDevice → ℕ → ℕ → Result Bar
bar_at devices i n = elim (get_elem? devices i) [
  | none ↦ fault out_of_bounds
  | some d ↦ elim (get_elem? d.bars n) [ none ↦ fault out_of_bounds | some bar ↦ ok bar ]
]

-- `shadow->uniqBAR[n] - shadow->userBAR[n]`, of 32 bits.
abbrev pub bar_offset : ℕ → ℕ → ℕ
bar_offset uniq user = (uniq + 2 ^ 32 - user) % 2 ^ 32

-- gem5's x86IOAddress, and the name of the slave port behind the port that findPort finds.
module _ (R : RangeMap ℕ) (x86_io_address : ℕ → ℕ) (port_name : ℕ → List ℕ) where
  abbrev pub user_range : ℕ → ℕ → Range
  user_range user size = record {
    start = (if user % 2 == 1 then x86_io_address user else user) / 2 * 2;
    size = size;
  }

  -- operator[] of the std::map, and insert of the range map found there.
  abbrev pub remember : (ℕ → R.Map) → ℕ → Range → ℕ → ℕ → R.Map
  remember shadow ds r v ds' =
      if ds == ds'
      then (elim (R.insert (shadow ds) r v) [ none ↦ shadow ds | some m ↦ m ])
      else shadow ds'

  unfoldable pub write_bar : Hub R → ConfigPacket → ℕ → ℕ → Bar → Hub R × ConfigPacket
  write_bar hub pkt i n bar =
      if pkt.value / 2 * 2 == 0xFFFFFFFE || pkt.value / 2 * 2 == 0 then (hub, pkt) else (
        record hub {
          devices = set_bar hub.devices i n (record bar { user = pkt.value });
          io_shadow =
              remember hub.io_shadow pkt.ds_id (user_range pkt.value bar.size)
                (bar_offset bar.uniq pkt.value);
        },
        record pkt { value = bar.uniq },
      )

  unfoldable pub access_register :
      Hub R → ConfigPacket → AccessKind → ℕ → ℕ → Bar → Hub R × ConfigPacket
  unfolding write_bar
  access_register hub pkt write_request i n bar = write_bar hub pkt i n bar
  access_register hub pkt read_response i n bar =
      (hub, if pkt.value == bar.uniq then record pkt { value = bar.user } else pkt)
  access_register hub pkt other_kind i n bar = (hub, pkt)

  unfoldable pub hook_pci_access : Hub R → ConfigPacket → Result (Hub R × ConfigPacket)
  unfolding bar_at access_register is_pci_config_port
  hook_pci_access hub pkt =
      if is_pci_config_port (port_name pkt.addr)
        && (leb 0x10 (pkt.addr % 256) && leb (pkt.addr % 256) 0x20)
      then elim (R.find hub.config_shadow pkt.addr) [
        | none ↦ fault out_of_bounds
        | some i ↦
            (bar_at hub.devices i ((pkt.addr % 256 - 0x10) / 4) >>= λ bar.
            ok (access_register hub pkt pkt.kind i ((pkt.addr % 256 - 0x10) / 4) bar))
      ]
      else ok (hub, pkt)
