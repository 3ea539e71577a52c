-- ===== src/IoHub/Visible.antt =====
-- Which PCI devices a domain sees through the hub of dev/pard/iohub.cc.
use pard_gem.Prelude.{
  ℕ, zero, suc, ◌+◌, ◌*◌, ◌/◌, ◌^◌, ◌≤◌, ◌<◌, ◌≡◌, ◌⊎◌, inl, inr, refl, sym, ap, ◌∙◌, List, Option,
  some, arith, ◌==◌, ==_ne, ==_refl, if◌then◌else◌, Result, ok, ◌>>=◌, length, get_elem?,
  get_elem?-lt, ℕ_discrete,
}
use pard_gem.IoHubCp.{IoHubCp, get_device_mask}
use pard_gem.IoHubCp.Assign.{bit}
use pard_gem.IoHub.{
  calc_pci_id, device_at, search_devices, calc_pci_config_addr, invalid_address, config_access,
  remap_addr,
}

-- A device of the mask has the identifier of the address.
abbrev pub IsOwned : List ℕ → ℕ → ℕ → Type 0
IsOwned devices mask addr =
    (i : ℕ) × (i < 32) × (bit mask i ≡ 1) × (get_elem? devices i ≡ some (calc_pci_id addr))

-- Each bit of the mask names a device.
abbrev pub AllNamed : List ℕ → ℕ → Type 0
AllNamed devices mask = (i : ℕ) → i < 32 → bit mask i ≡ 1 → i < length devices

some_inj : {a b : ℕ} → some a ≡ some b → a ≡ b
some_inj e = cc

device_at_lem :
    (devices : List ℕ) (i d : ℕ) → get_elem? devices i ≡ some d → device_at devices i ≡ ok d
unfolding device_at
device_at_lem devices i d e = ground arith

-- The outcome of a search from bit `i` on.
abbrev IsOutcome : List ℕ → ℕ → ℕ → ℕ → ℕ → Result ℕ → Type 0
IsOutcome devices mask addr invalid i r =
    ((r ≡ ok addr) × IsOwned devices mask addr)
    ⊎ ((r ≡ ok invalid)
        × ((k : ℕ)
            → i ≤ k
            → k < 32
            → bit mask k ≡ 1
            → get_elem? devices k ≡ some (calc_pci_id addr)
            → ⊥))

-- Bit `i` does not answer, so the search from the next bit decides.
widen :
    (devices : List ℕ) (mask addr invalid i : ℕ) (r : Result ℕ)
    → (bit mask i ≡ 1 → get_elem? devices i ≡ some (calc_pci_id addr) → ⊥)
    → IsOutcome devices mask addr invalid (suc i) r
    → IsOutcome devices mask addr invalid i r
widen devices mask addr invalid i r not_here (inl found) = inl found
widen devices mask addr invalid i r not_here (inr (e, none_later)) = inr (
  e,
  λ k lo hi on there. elim (ℕ_discrete i k) [
    | yes same ↦ not_here (rw same on) (rw same there)
    | no ne ↦ none_later k (omega arith) hi on there
  ],
)

abbrev step : List ℕ → ℕ → ℕ → ℕ → Result ℕ → Result ℕ
step devices mask addr i later =
    if bit mask i == 1
    then (device_at devices i >>= λ d. if d == calc_pci_id addr then ok addr else later)
    else later

step_lem :
    (devices : List ℕ) (mask addr invalid i : ℕ) (r : Result ℕ)
    → AllNamed devices mask
    → i < 32
    → IsOutcome devices mask addr invalid (suc i) r
    → IsOutcome devices mask addr invalid i (step devices mask addr i r)
step_lem devices mask addr invalid i r named lt rest = elim (ℕ_discrete (bit mask i) 1) [
  | no clear ↦
      rw (==_ne (bit mask i) 1 clear)
        (widen devices mask addr invalid i r (λ on there. clear on) rest)
  | yes on ↦
      let (d, there) = get_elem?-lt devices i (named i lt on) in
      answer on d there (ℕ_discrete d (calc_pci_id addr))
]
  where
    answer :
        bit mask i ≡ 1
        → (d : ℕ) → get_elem? devices i ≡ some d
        → Dec (d ≡ calc_pci_id addr)
        → IsOutcome devices mask addr invalid i (step devices mask addr i r)
    answer on d there (yes same) =
        let here : get_elem? devices i ≡ some (calc_pci_id addr) = there ∙ ap some same in
        inl (
          rw
              (
                on,
                device_at_lem devices i (calc_pci_id addr) here,
                ◌>>=◌,
                ==_refl (calc_pci_id addr),
              )
              refl,
          (i, lt, on, here),
        )
    answer on d there (no other) =
        let past : step devices mask addr i r ≡ r =
          rw (on, device_at_lem devices i d there, ◌>>=◌, ==_ne d (calc_pci_id addr) other) refl in
        rw past
          (widen devices mask addr invalid i r (λ _ here. other (some_inj (sym there ∙ here))) rest)

search_devices_lem :
    (devices : List ℕ) (mask addr invalid n i : ℕ)
    → AllNamed devices mask
    → i + n ≡ 32
    → IsOutcome devices mask addr invalid i (search_devices devices mask addr invalid n i)
unfolding search_devices
search_devices_lem devices mask addr invalid zero i named e =
    inr (refl, λ k lo hi on there. absurd (omega arith))
search_devices_lem devices mask addr invalid (suc n) i named e =
    step_lem devices mask addr invalid i (search_devices devices mask addr invalid n (suc i)) named
      (omega arith) (search_devices_lem devices mask addr invalid n (suc i) named (omega arith))

bit_zero : (i : ℕ) → bit 0 i ≡ 0
unfolding bit
bit_zero i = ground arith

module _ (prefix : ℕ) (io_offset : ℕ → ℕ → Option ℕ) where
  config_access_lem :
      (devices : List ℕ) (mask addr : ℕ)
      → AllNamed devices mask
      → IsOutcome devices mask addr
          (invalid_address prefix io_offset)
          0
          (config_access prefix io_offset devices mask addr)
  unfolding config_access
  config_access_lem devices mask addr named = elim (ℕ_discrete mask 0) [
    | no some_bit ↦ rw (==_ne mask 0 some_bit) (
        search_devices_lem devices mask addr (invalid_address prefix io_offset) 32 0 named
          (omega arith))
    | yes empty ↦ rw empty (inr (refl, λ k lo hi on there. absurd (omega (arith, bit_zero k))))
  ]

  -- An access to PCI configuration space, where each bit of the domain's device mask names a device
  -- of the hub: it goes through unchanged if a device of the mask has the identifier of the address,
  -- and to the address of device 31, function 7, if none has.
  pub remap_addr-IsOwned :
      (cp : IoHubCp) (devices : List ℕ) (addr ds : ℕ)
      → addr / 2 ^ 60 * 2 ^ 60 ≡ prefix
      → AllNamed devices (get_device_mask cp ds)
      → ((remap_addr prefix io_offset cp devices addr ds ≡ ok addr)
          × IsOwned devices (get_device_mask cp ds) addr)
        ⊎ ((remap_addr prefix io_offset cp devices addr ds ≡ ok (invalid_address prefix io_offset))
            × ¬ IsOwned devices (get_device_mask cp ds) addr)
  unfolding remap_addr
  remap_addr-IsOwned cp devices addr ds config named =
      rw (config, ==_refl prefix)
        (elim (config_access_lem devices (get_device_mask cp ds) addr named) [
          | inl found ↦ inl found
          | inr (gone, none_owned) ↦
              inr (gone, λ owned. none_owned owned.0 (omega arith) owned.1 owned.2 owned.3)
        ])

-- The identifier leaves out the top bit of the device's number.
calc_pci_id-alias :
    (p dev func : ℕ)
    → dev < 16
    → func < 8
    → calc_pci_id (p * 2 ^ 60 + func * 2 ^ 8 + (dev + 16) * 2 ^ 11) ≡ dev * 16 + func
unfolding calc_pci_id
calc_pci_id-alias p dev func small few = omega arith

-- A domain, each bit of whose mask names a device of the hub, that owns a device with a number below
-- 16 also reaches the configuration space of the
-- device whose number is 16 higher, whoever owns that one.
pub remap_addr_alias :
    (p : ℕ) (io_offset : ℕ → ℕ → Option ℕ) (cp : IoHubCp) (devices : List ℕ) (ds i dev func : ℕ)
    → AllNamed devices (get_device_mask cp ds)
    → i < 32
    → bit (get_device_mask cp ds) i ≡ 1
    → get_elem? devices i ≡ some (dev * 16 + func)
    → dev < 16
    → func < 8
    → remap_addr
        (p * 2 ^ 60)
        io_offset
        cp
        devices
        (calc_pci_config_addr (p * 2 ^ 60) io_offset (dev + 16) func)
        ds
      ≡ ok (calc_pci_config_addr (p * 2 ^ 60) io_offset (dev + 16) func)
remap_addr_alias p io_offset cp devices ds i dev func named lt on there small few =
    let alias : get_elem? devices i
        ≡ some (calc_pci_id (calc_pci_config_addr (p * 2 ^ 60) io_offset (dev + 16) func)) =
      there ∙ ap some (sym (calc_pci_id-alias p dev func small few)) in
    elim (remap_addr-IsOwned (p * 2 ^ 60) io_offset cp devices
      (calc_pci_config_addr (p * 2 ^ 60) io_offset (dev + 16) func) ds (omega arith) named) [
        | inl (through, _) ↦ through
        | inr (_, none_owned) ↦ absurd (none_owned (i, lt, on, alias))
      ]
