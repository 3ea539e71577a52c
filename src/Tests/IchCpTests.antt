-- ===== src/Tests/IchCpTests.antt =====
-- The south bridge's control plane with two rows, of which row 1 gives DSid 1 the third set of
-- devices and its line 1 on line 1.
use pard_gem.Prelude.{
  ℕ, ◌+◌, ◌*◌, ◌<◌, ◌≡◌, ◌⊎◌, refl, true, false, [], ◌∷◌, none, arith, ok, replicate,
}
use pard_gem.Bytes.{put_at, word_at, load}
use pard_gem.IchCp.{
  IchCp, new_rows, row_ds_id, row_selected, nowhere, remap_addr, remap_interrupt, targets_from,
}
use pard_gem.IchCp.Safety.{IsValid}
use pard_gem.IchCp.Windows.{IsComponent, remap_addr_sound}
use pard_gem.IchCp.Interrupts.{Routes}
use pard_gem.IchCp.Lines.{raise_interrupt_pin-Routes}
use pard_gem.IoApic.{IoApic, element}
use pard_gem.IoApic.Delivery.{
  LocalApic, Message, raise_interrupt_pin, signal_all, signal_interrupt, deliver, receivers,
  vector_of, message_of, logical_apics,
}
use pard_gem.IoApic.Isolation.{IsOfGuest}

plane : IchCp
unfolding put_at
plane = record {
  param_table_entries = 2;
  tables = record {
    params = put_at 4 (put_at 8 (put_at 4 (new_rows 2) 140 (1 + 2 * 65536)) 144 0x1000) 180 1;
    stats = [];
    info = [];
    config = [];
  };
}

plane-IsValid : IsValid plane
unfolding plane
plane-IsValid = record { params = refl }

-- gem5 maps the I/O space high up.
abbrev io_address : ℕ → ℕ
io_address port = 0x8000000000000000 + port

remap_addr_sound_example :
    ((remap_addr io_address plane 1 0x1004).0 ≡ nowhere io_address 0x1004)
    ⊎ ((i : ℕ) × (row_ds_id plane i ≡ 1)
        × (i < plane.param_table_entries)
        × (row_selected plane i < 4)
        × IsComponent io_address plane i 0x1004 (remap_addr io_address plane 1 0x1004).0
        × ((remap_addr io_address plane 1 0x1004).1 ≡ plane))
remap_addr_sound_example = remap_addr_sound io_address plane 1 0x1004

row-Routes : Routes plane 1 1 1
unfolding plane load word_at
row-Routes = (refl, omega arith)

two : 1 < plane.param_table_entries
unfolding plane
two = omega arith

listed : remap_interrupt plane 1 ≡ ok ((1, 1) ∷ [])
unfolding plane remap_interrupt targets_from load word_at
listed = refl

-- Line 1 of guest 1: logical mode, vector 0x31, destination 1.
abbrev apic : IoApic
apic = record {
  max_guests = 2;
  reg_sel = 0 ∷ 0 ∷ [];
  apic_id = 1;
  arb_id = 1;
  lowest_priority_offset = 0;
  redir_table = replicate 24 0x10000 ∷ (0x10000 ∷ 0x0100000000000831 ∷ replicate 22 0x10000) ∷ [];
  pin_states = replicate 24 false;
}

abbrev up : IoApic
up = record apic { pin_states = false ∷ true ∷ replicate 22 false }

abbrev core : LocalApic
core = record { ds_id = 1; logical_destination = 0x01000000; initial_apic_id = 11 }

abbrev message : Message
message = record {
  destination = 1;
  vector = 0x31;
  delivery_mode = 0;
  dest_mode = 1;
  level = 0;
  trigger = 0;
}

raises :
    raise_interrupt_pin apic (core ∷ []) none ((1, 1) ∷ []) 1 ≡ ok ((11 ∷ [], message) ∷ [], up)
unfolding raise_interrupt_pin signal_all signal_interrupt element deliver receivers vector_of
    message_of logical_apics
raises = refl

raise_interrupt_pin-Routes_example :
    (row : ℕ) × (row < plane.param_table_entries)
    × ((l : ℕ) × Routes plane 1 row l)
    × IsOfGuest (row_ds_id plane row) (core ∷ []) 11
raise_interrupt_pin-Routes_example =
    raise_interrupt_pin-Routes plane apic up (core ∷ []) none ((1, 1) ∷ []) 1
      ((11 ∷ [], message) ∷ []) 0 0 listed raises refl (omega arith) refl
