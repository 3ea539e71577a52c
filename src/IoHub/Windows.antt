-- ===== src/IoHub/Windows.antt =====
-- The windows that `startup` gives to the BARs of all devices.
use pard_gem.Prelude.{
  ℕ, zero, suc, ◌+◌, ◌%◌, ◌^◌, ◌≤◌, ◌<◌, ◌≡◌, ◌⊎◌, inl, inr, refl, ◌∙◌, true, false, List, [], ◌∷◌,
  Option, some, arith, ok, get_elem?, set, get_elem?-set_self, get_elem?-set_ne, length, ℕ_discrete,
}
use pard_gem.RangeMap.{RangeMap}
use pard_gem.IoHub.{calc_pci_id}
use pard_gem.IoHub.Bars.{
  Bar, HubDevice, Hub, HubPort, Bases, first_bases, probe_bars, start_port, start_ports, startup,
  inserted, device_here, find_owner, is_pci_config_port,
}
use pard_gem.IoHub.Placement.{
  HasRoom, LeBases, size_of, times, probe_bars-AreNew, Placed, lt_of_some, place,
}

-- Writing a device back with the same owner leaves the search by owner as it was.
find_owner-set :
    (devices : List HubDevice) (i j owner : ℕ) (d e : HubDevice)
    → get_elem? devices i ≡ some d
    → e.owner ≡ d.owner
    → find_owner (set devices i e) owner j ≡ find_owner devices owner j
unfolding find_owner
find_owner-set [] i j owner d e at same = refl
find_owner-set (x ∷ rest) zero j owner d e at same = let eq : x.owner ≡ e.owner = cc in rw eq refl
find_owner-set (x ∷ rest) (suc i) j owner d e at same =
    rw (find_owner-set rest i (suc j) owner d e at same) refl

device_here-some :
    (devices : List HubDevice) (o : Option ℕ) (i : ℕ) (d : HubDevice)
    → o ≡ some i
    → get_elem? devices i ≡ some d
    → device_here devices o ≡ ok (i, d)
device_here-some devices o i d e at = rw e (ground arith)

module _ (R : RangeMap ℕ) (sized line : ℕ → ℕ) where
  -- A port to a configuration space has one range and a device of the hub for an owner.
  abbrev pub IsKnownPort : List HubDevice → HubPort → Type 0
  IsKnownPort devices port =
      (is_pci_config_port port.name ≡ false)
      ⊎ ((config i : ℕ) × (d : HubDevice) × (is_pci_config_port port.name ≡ true)
          × (port.ranges ≡ config ∷ [])
          × (find_owner devices port.owner 0 ≡ some i)
          × (get_elem? devices i ≡ some d))

  abbrev pub AreKnown : List HubDevice → List HubPort → Type 0
  AreKnown devices [] = Unit {0}
  AreKnown devices (p ∷ rest) = IsKnownPort devices p × AreKnown devices rest

  AreKnown-set :
      (devices : List HubDevice) (i : ℕ) (d e : HubDevice) (ports : List HubPort)
      → get_elem? devices i ≡ some d
      → e.owner ≡ d.owner
      → AreKnown devices ports
      → AreKnown (set devices i e) ports
  AreKnown-set devices i d e [] at same known = tt
  AreKnown-set devices i d e (p ∷ rest) at same (inl other, known) =
      (inl other, AreKnown-set devices i d e rest at same known)
  AreKnown-set devices i d e (p ∷ rest) at same
        (inr (config, j, x, named, one, found, here), known) =
      let moved = find_owner-set devices i 0 p.owner d e at same ∙ found in
      (
        elim (ℕ_discrete i j) [
          | yes q ↦ inr (
            config,
            j,
            e,
            named,
            one,
            moved,
            rw (← q) (get_elem?-set_self devices i e (lt_of_some devices i at)),
          )
          | no q ↦ inr (config, j, x, named, one, moved, get_elem?-set_ne devices i j e q ∙ here)
        ],
        AreKnown-set devices i d e rest at same known,
      )

  module _ (bound : ℕ) (small : (addr : ℕ) → size_of (sized addr) ≤ bound) where
    start_ports-Placed :
        (hub : Hub R) (bases : Bases) (ports : List HubPort)
        → AreKnown hub.devices ports
        → Placed first_bases bases hub.devices
        → LeBases first_bases bases
        → HasRoom bases (times (length ports) (times 5 bound))
        → (hub' : Hub R) × (end : Bases) × (start_ports R sized line hub bases ports
            ≡ ok (hub', end))
          × Placed first_bases end hub'.devices
    unfolding start_ports start_port
    start_ports-Placed hub bases [] known v le room = (hub, bases, refl, v)
    start_ports-Placed hub bases (p ∷ rest) (inl other, known) v le room =
        let (hub', end, e, v') = start_ports-Placed hub bases rest known v le (omega arith) in
        (hub', end, rw other e, v')
    start_ports-Placed hub bases (p ∷ rest) (inr (config, i, d, named, one, found, at), known) v le
          room =
        let (bars, next) = probe_bars sized config 5 0 bases in
        let new =
          probe_bars-AreNew sized bound small config 5 0 bases (times (length rest) (times 5 bound))
            (omega arith) in
        let d' : HubDevice = record d {
          pciid = calc_pci_id config;
          interrupt_line = line (config + 0x3C) % 2 ^ 8;
          bars = bars;
        } in
        let after : Hub R = record hub {
          devices = set hub.devices i d';
          config_shadow =
              inserted R sized line hub.config_shadow (record { start = config + 0x10; size = 20 })
                i;
        } in
        let (hub', end, e, v') =
          start_ports-Placed after next rest (AreKnown-set hub.devices i d d' rest at refl known)
            (place first_bases bases next (times (length rest) (times 5 bound)) i hub.devices d' v
              le new)
            (omega (arith, new.0)) new.1 in
        (
          hub',
          end,
          rw
              (
                named,
                one,
                device_here-some hub.devices (find_owner hub.devices p.owner 0) i d found at,
              )
              e,
          v',
        )

-- Startup of a hub whose ports to configuration spaces each have one range and a known device, whose
-- devices have no windows yet, and whose devices ask for at most `bound` bytes for each BAR, so
-- that five BARs for each port stay below 4 GB: startup returns, and of any two BARs of the devices
-- the windows that it chose are apart if both are in memory or both in the I/O ports.
pub startup_apart :
    (R : RangeMap ℕ) (sized line : ℕ → ℕ) (hub : Hub R) (ports : List HubPort) (bound : ℕ)
    → ((addr : ℕ) → size_of (sized addr) ≤ bound)
    → AreKnown R sized line hub.devices ports
    → ((i : ℕ) (d : HubDevice) → get_elem? hub.devices i ≡ some d → d.bars ≡ [])
    → 0xC1000000 + times (length ports) (times 5 bound) < 2 ^ 32
    → (hub' : Hub R) × (end : Bases) × (startup R sized line hub ports ≡ ok hub')
      × Placed first_bases end hub'.devices
unfolding startup
startup_apart R sized line hub ports bound small known fresh room =
    let begin : Hub R = record hub { config_shadow = R.empty; io_shadow = λ ds. R.empty } in
    let (hub', end, e, v) =
      start_ports-Placed R sized line bound small begin first_bases ports known
        (record {
          placed_between = λ i k b (d, at, e). absurd (no_bar d.bars k b (fresh i d at) e);
          placed_apart =
              λ i k j l b c (d, at, e) there ne. absurd (no_bar d.bars k b (fresh i d at) e);
        })
        (omega arith, omega arith) (omega arith, omega arith, omega arith, omega arith) in
    (hub', end, rw e refl, v)
  where
    no_bar : (bars : List Bar) (k : ℕ) (b : Bar) → bars ≡ [] → ¬ (get_elem? bars k ≡ some b)
    no_bar [] k b e f = cc
    no_bar (x ∷ bars) k b e f = cc
