-- ===== src/IoHub/Shadow.antt =====
-- What a domain sees of a BAR through hookPciAccess, and where its accesses then go.
use pard_gem.Prelude.{
  ℕ, zero, suc, ◌+◌, ◌-◌, ◌*◌, ◌/◌, ◌%◌, ◌^◌, ◌≤◌, ◌<◌, ◌≡◌, ◌≢◌, refl, ap, ◌∙◌, true, List, [],
  ◌∷◌, none, some, arith, ◌==◌, le→leb, ==_ne, ==_refl, ok, get_elem?, get_elem?-set_self, length,
  Option-cases, Bool-cases, inl, inr,
}
use pard_gem.RangeMap.{Within, RangeMap, IsRangeMap}
use pard_gem.IoHub.{io_access}
use pard_gem.IoHub.Bars.{
  Bar, HubDevice, Hub, is_pci_config_port, ConfigPacket, write_request, read_response, set_bar,
  bar_at, bar_offset, user_range, remember, write_bar, access_register, hook_pci_access,
}

lt_of_some : {A : Type 0} (xs : List A) (i : ℕ) {a : A} → get_elem? xs i ≡ some a → i < length xs
lt_of_some [] i e = cc
lt_of_some (x ∷ xs) zero e = omega arith
lt_of_some (x ∷ xs) (suc i) e = omega (arith, lt_of_some xs i e)

-- A write to a BAR that exists is what the next read finds.
bar_at-set_bar :
    (devices : List HubDevice) (i n : ℕ) (bar new : Bar)
    → bar_at devices i n ≡ ok bar
    → bar_at (set_bar devices i n new) i n ≡ ok new
unfolding bar_at
bar_at-set_bar [] i n bar new e = cc
bar_at-set_bar (d ∷ rest) zero n bar new e = elim (Option-cases (get_elem? d.bars n)) [
  | inl missing ↦ absurd (ground arith)
  | inr (b, found) ↦ ground (arith, get_elem?-set_self d.bars n new (lt_of_some d.bars n found))
]
bar_at-set_bar (d ∷ rest) (suc i) n bar new e = bar_at-set_bar rest i n bar new e

module _ (R : RangeMap ℕ) (x86_io_address : ℕ → ℕ) (port_name : ℕ → List ℕ) where
  -- `addr` is a register of the configuration space that names the BAR `bar` of device `i`.
  abbrev pub NamesBar : Hub R → ℕ → ℕ → Bar → Type 0
  NamesBar hub addr i bar =
      (is_pci_config_port (port_name addr) ≡ true)
      × (0x10 ≤ addr % 256)
      × (addr % 256 ≤ 0x20)
      × (R.find hub.config_shadow addr ≡ some i)
      × (bar_at hub.devices i ((addr % 256 - 0x10) / 4) ≡ ok bar)

  -- The address of a window, and not the question for its size or 0.
  abbrev pub IsBase : ℕ → Type 0
  IsBase v = ((v / 2 * 2) ≢ 0xFFFFFFFE) × ((v / 2 * 2) ≢ 0)

  hook_pci_access-access_register :
      (hub : Hub R) (pkt : ConfigPacket) (i : ℕ) (bar : Bar)
      → NamesBar hub pkt.addr i bar
      → hook_pci_access R x86_io_address port_name hub pkt
        ≡ ok (
            access_register R x86_io_address port_name hub pkt pkt.kind i
              ((pkt.addr % 256 - 0x10) / 4)
              bar)
  unfolding hook_pci_access
  hook_pci_access-access_register hub pkt i bar (named, lo, hi, found, at) =
      rw (named, le→leb 0x10 (pkt.addr % 256) lo, le→leb (pkt.addr % 256) 0x20 hi, found, at) refl

  -- The hub after the write.
  abbrev pub programmed : Hub R → ℕ → ℕ → ℕ → Bar → ℕ → Hub R
  programmed hub ds i n bar v = record hub {
    devices = set_bar hub.devices i n (record bar { user = v });
    io_shadow =
        remember R x86_io_address port_name hub.io_shadow ds
          (user_range R x86_io_address port_name v bar.size) (bar_offset bar.uniq v);
  }

  access_register-write :
      (hub : Hub R) (addr ds v i n : ℕ) (bar : Bar)
      → (v / 2 * 2) ≢ 0xFFFFFFFE
      → (v / 2 * 2) ≢ 0
      → ok (
          access_register R x86_io_address port_name hub
            (record { kind = write_request; addr = addr; ds_id = ds; value = v })
            write_request
            i
            n
            bar)
        ≡ ok (
          programmed hub ds i n bar v,
          record { kind = write_request; addr = addr; ds_id = ds; value = bar.uniq },
        )
  unfolding access_register write_bar
  access_register-write hub addr ds v i n bar not_size not_zero =
      rw (==_ne (v / 2 * 2) 0xFFFFFFFE not_size, ==_ne (v / 2 * 2) 0 not_zero) refl

  access_register-read :
      (hub : Hub R) (addr ds v i n : ℕ) (bar : Bar)
      → ok (
          access_register R x86_io_address port_name hub
            (record { kind = read_response; addr = addr; ds_id = ds; value = bar.uniq })
            read_response
            i
            n
            (record bar { user = v }))
        ≡ ok (hub, record { kind = read_response; addr = addr; ds_id = ds; value = v })
  unfolding access_register
  access_register-read hub addr ds v i n bar = rw (==_refl bar.uniq) refl

  write_bar-programmed :
      (hub : Hub R) (addr ds v i : ℕ) (bar : Bar)
      → NamesBar hub addr i bar
      → IsBase v
      → hook_pci_access R x86_io_address port_name hub
          (record { kind = write_request; addr = addr; ds_id = ds; value = v })
        ≡ ok (
          programmed hub ds i ((addr % 256 - 0x10) / 4) bar v,
          record { kind = write_request; addr = addr; ds_id = ds; value = bar.uniq },
        )
  write_bar-programmed hub addr ds v i bar names (not_size, not_zero) =
      hook_pci_access-access_register hub
        (record { kind = write_request; addr = addr; ds_id = ds; value = v }) i bar names
      ∙ access_register-write hub addr ds v i ((addr % 256 - 0x10) / 4) bar not_size not_zero

  -- A domain writes an address `v` to a BAR: the device is given the window that `startup` chose,
  -- whatever `v` is, and a later response of the device with that window, to a read of the register
  -- by any domain, is turned back into `v`. This holds of each BAR whose register the hub knows and
  -- each `v` other than 0 and the question for the size.
  pub hook_pci_access_roundtrip :
      (hub : Hub R) (addr ds ds' v i : ℕ) (bar : Bar)
      → NamesBar hub addr i bar
      → IsBase v
      → (hub' : Hub R) × (hook_pci_access R x86_io_address port_name hub
            (record { kind = write_request; addr = addr; ds_id = ds; value = v })
          ≡ ok (hub', record { kind = write_request; addr = addr; ds_id = ds; value = bar.uniq }))
        × (hook_pci_access R x86_io_address port_name hub'
              (record { kind = read_response; addr = addr; ds_id = ds'; value = bar.uniq })
            ≡ ok (hub', record { kind = read_response; addr = addr; ds_id = ds'; value = v }))
  hook_pci_access_roundtrip hub addr ds ds' v i bar names base =
      let n = (addr % 256 - 0x10) / 4 in
      let new : Bar = record bar { user = v } in
      let hub' = programmed hub ds i n bar v in
      let (named, lo, hi, found, at) = names in
      (
        hub',
        write_bar-programmed hub addr ds v i bar names base,
        hook_pci_access-access_register hub'
              (record { kind = read_response; addr = addr; ds_id = ds'; value = bar.uniq }) i new
              (named, lo, hi, found, bar_at-set_bar hub.devices i n bar new at)
            ∙ access_register-read hub' addr ds' v i n bar,
      )

  -- Where the hub sends an access of domain `ds`.
  abbrev pub goes : Hub R → ℕ → ℕ → ℕ
  goes hub ds addr = io_access 0 (λ d a. R.find (hub.io_shadow d) a) ds addr

  -- gem5's x86IOAddress.
  abbrev pub IsIoPrefix : Type 0
  IsIoPrefix = (p : ℕ) → p < 2 ^ 32 → x86_io_address p ≡ 2 ^ 63 + p

  -- The first address of the window that `v` names.
  abbrev pub window : ℕ → ℕ
  window v = (user_range R x86_io_address port_name v 0).start

  abbrev pub IsFree : Hub R → ℕ → ℕ → ℕ → Type 0
  IsFree hub ds v size =
      (a : ℕ)
      → Within (user_range R x86_io_address port_name v size) a
      → R.find (hub.io_shadow ds) a ≡ none

  module _ (law : IsRangeMap R) (hub : Hub R) (ds i n v : ℕ) (bar : Bar) where
    goes-programmed :
        (a : ℕ)
        → 0 < bar.size
        → IsFree hub ds v bar.size
        → Within (user_range R x86_io_address port_name v bar.size) a
        → goes (programmed hub ds i n bar v) ds a ≡ (a + bar_offset bar.uniq v) % 2 ^ 64
    unfolding io_access
    goes-programmed a pos free inside =
        let r = user_range R x86_io_address port_name v bar.size in
        let (m, e) = law.inserts (hub.io_shadow ds) r (bar_offset bar.uniq v) pos free in
        let hit = law.finds (hub.io_shadow ds) m r (bar_offset bar.uniq v) a e inside in
        rw (==_refl ds, e, hit) refl

    goes-other : (ds' a : ℕ) → ds ≢ ds' → goes (programmed hub ds i n bar v) ds' a ≡ goes hub ds' a
    unfolding io_access
    goes-other ds' a other = rw (==_ne ds ds' other) refl

  window_io : IsIoPrefix → (v : ℕ) → v < 2 ^ 32 → (window v ≡ v / 2 * 2 + v % 2 * 2 ^ 63)
  window_io prefix v h = elim (Bool-cases (v % 2 == 1)) [
    | inl odd ↦ ground (arith, prefix v h)
    | inr even ↦ ground arith
  ]

  -- An access at distance `k` into the window that `v` names, once the BAR was written.
  goes-programmed-window :
      (hub : Hub R) (ds i n v k : ℕ) (bar : Bar)
      → IsRangeMap R
      → IsIoPrefix
      → IsFree hub ds v bar.size
      → v < 2 ^ 32
      → bar.uniq + bar.size ≤ 2 ^ 32
      → k < bar.size
      → goes (programmed hub ds i n bar v) ds (window v + k)
        ≡ (v / 2 * 2 + v % 2 * 2 ^ 63 + k + bar_offset bar.uniq v) % 2 ^ 64
  goes-programmed-window hub ds i n v k bar law prefix free small fits inside =
      goes-programmed law hub ds i n v bar (window v + k) (omega arith) free
        (omega arith, omega arith)
      ∙ ap (λ x. (x + k + bar_offset bar.uniq v) % 2 ^ 64) (window_io prefix v small)

  -- A domain programs a BAR with an address `v` that is not above the window that `startup` chose, of
  -- the same kind (I/O ports or memory), and with none of the addresses taken in the domain: the
  -- hub then sends its accesses in the window that `v` names to the same place in the device's window,
  -- and the accesses of every other domain `ds'` go where they went.
  pub hook_pci_access-remaps :
      (hub : Hub R) (addr ds ds' v i k a : ℕ) (bar : Bar)
      → IsRangeMap R
      → IsIoPrefix
      → NamesBar hub addr i bar
      → IsBase v
      → IsFree hub ds v bar.size
      → v ≤ bar.uniq
      → v % 2 ≡ bar.uniq % 2
      → bar.uniq + bar.size ≤ 2 ^ 32
      → k < bar.size
      → ds ≢ ds'
      → (hub' : Hub R) × (hook_pci_access R x86_io_address port_name hub
            (record { kind = write_request; addr = addr; ds_id = ds; value = v })
          ≡ ok (hub', record { kind = write_request; addr = addr; ds_id = ds; value = bar.uniq }))
        × (goes hub' ds (window v + k) ≡ window bar.uniq + k)
        × (goes hub' ds' a ≡ goes hub ds' a)
  hook_pci_access-remaps hub addr ds ds' v i k a bar law prefix names base free le same fits inside
        other =
      let n = (addr % 256 - 0x10) / 4 in
      (
        programmed hub ds i n bar v,
        write_bar-programmed hub addr ds v i bar names base,
        goes-programmed-window hub ds i n v k bar law prefix free (omega arith) fits inside
            ∙ omega (arith, window_io prefix bar.uniq (omega arith)),
        goes-other law hub ds i n v bar ds' a other,
      )

  -- The same with an address above the device's window: the difference is taken in 32 bits and added
  -- in 64, so every access of the domain in its window goes 2 ^ 32 above the device's.
  pub hook_pci_access-remaps_high :
      (hub : Hub R) (addr ds v i k : ℕ) (bar : Bar)
      → IsRangeMap R
      → IsIoPrefix
      → NamesBar hub addr i bar
      → IsBase v
      → IsFree hub ds v bar.size
      → bar.uniq < v
      → v < 2 ^ 32
      → v % 2 ≡ bar.uniq % 2
      → bar.uniq + bar.size ≤ 2 ^ 32
      → k < bar.size
      → (hub' : Hub R) × (hook_pci_access R x86_io_address port_name hub
            (record { kind = write_request; addr = addr; ds_id = ds; value = v })
          ≡ ok (hub', record { kind = write_request; addr = addr; ds_id = ds; value = bar.uniq }))
        × (goes hub' ds (window v + k) ≡ window bar.uniq + k + 2 ^ 32)
  hook_pci_access-remaps_high hub addr ds v i k bar law prefix names base free gt small same fits
        inside =
      let n = (addr % 256 - 0x10) / 4 in
      (
        programmed hub ds i n bar v,
        write_bar-programmed hub addr ds v i bar names base,
        goes-programmed-window hub ds i n v k bar law prefix free small fits inside
            ∙ omega (arith, window_io prefix bar.uniq (omega arith)),
      )
