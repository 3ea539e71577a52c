-- ===== src/Tests/IoApicTests.antt =====
-- An I/O APIC with two guests. Line 1 of guest 1 is unmasked, in logical mode to destination 1.
use pard_gem.Prelude.{
  ℕ, ◌≡◌, inl, refl, false, List, [], ◌∷◌, none, arith, ok, fault, out_of_bounds, replicate,
}
use pard_gem.IoApic.{IoApic, element, read_reg, write_reg}
use pard_gem.IoApic.Registers.{IsValid, read_reg-write_reg, read_reg-overrun, kept}
use pard_gem.IoApic.Delivery.{
  LocalApic, Message, signal_interrupt, deliver, receivers, vector_of, message_of, logical_apics,
  raise_interrupt_pin, lower_interrupt_pin, signal_all,
}
use pard_gem.IoApic.Isolation.{IsOfGuest, signal_interrupt-IsOfGuest}
use pard_gem.IoApic.Pins.{raised, lowered, IsFresh, raise_interrupt_pin-edge}

-- Logical mode, vector 0x31, destination 1.
abbrev entry : ℕ
entry = 0x0100000000000831

abbrev two_guests : IoApic
two_guests = record {
  max_guests = 2;
  reg_sel = 0 ∷ 0 ∷ [];
  apic_id = 1;
  arb_id = 1;
  lowest_priority_offset = 0;
  redir_table = replicate 24 0x10000 ∷ (0x10000 ∷ entry ∷ replicate 22 0x10000) ∷ [];
  pin_states = replicate 24 false;
}

two_guests-IsValid : IsValid two_guests
two_guests-IsValid = record { guests = refl; full = (refl, (refl, tt)) }

read_reg-write_reg_example :
    (t : IoApic) × (write_reg two_guests 1 0x13 0x02345678 ≡ ok t)
    × IsValid t
    × (read_reg t 1 0x13 ≡ ok (kept 0x13 0x02345678))
    × (read_reg t 0 0x13 ≡ read_reg two_guests 0 0x13)
read_reg-write_reg_example =
    read_reg-write_reg two_guests 1 0x13 0x02345678 0 0x13 two_guests-IsValid (omega arith)
      (omega arith, omega arith) (inl (omega arith))

read_reg-overrun_example :
    (read_reg two_guests 0 0x40 ≡ fault out_of_bounds)
    × (write_reg two_guests 0 0x40 7 ≡ fault out_of_bounds)
read_reg-overrun_example = read_reg-overrun two_guests 0 7 two_guests-IsValid (omega arith)

-- A core of each guest with the same logical destination.
abbrev cores : List LocalApic
cores =
    record { ds_id = 0; logical_destination = 0x01000000; initial_apic_id = 10 }
    ∷ record { ds_id = 1; logical_destination = 0x01000000; initial_apic_id = 11 }
    ∷ []

abbrev message : Message
message = record {
  destination = 1;
  vector = 0x31;
  delivery_mode = 0;
  dest_mode = 1;
  level = 0;
  trigger = 0;
}

sent_lem : signal_interrupt two_guests cores none 1 1 ≡ ok ((11 ∷ [], message) ∷ [], two_guests)
unfolding signal_interrupt element deliver receivers vector_of message_of logical_apics
sent_lem = refl

signal_interrupt-IsOfGuest_example : IsOfGuest 1 cores 11
signal_interrupt-IsOfGuest_example =
    signal_interrupt-IsOfGuest two_guests two_guests cores none 1 1 ((11 ∷ [], message) ∷ []) 0 0
      sent_lem refl (omega arith) refl

abbrev raised_once : IoApic
raised_once = raised two_guests 1 0

raise_lem :
    raise_interrupt_pin two_guests cores none ((1, 1) ∷ []) 1
    ≡ ok ((11 ∷ [], message) ∷ [], raised_once)
unfolding raise_interrupt_pin signal_all signal_interrupt element deliver receivers vector_of
    message_of logical_apics
raise_lem = refl

raise_interrupt_pin-edge_example :
    ((n : ℕ) × (raised_once ≡ raised two_guests 1 n))
    × ((others : List (ℕ × ℕ))
        → raise_interrupt_pin raised_once cores none others 1 ≡ ok ([], raised_once))
    × (lower_interrupt_pin raised_once 1 ≡ ok (lowered raised_once 1))
    × ((others : List (ℕ × ℕ)) → IsFresh cores none others 1 (lowered raised_once 1))
raise_interrupt_pin-edge_example =
    raise_interrupt_pin-edge two_guests raised_once cores none ((1, 1) ∷ []) 1 refl raise_lem
