-- ===== src/IoApic.antt =====
-- dev/cellx/i82094ax.cc and i82094ax.hh: the I/O APIC, with a register selector and a redirection
-- table for each guest.
pub mod Registers
pub mod Delivery
pub mod Isolation
pub mod Pins
use pard_gem.Prelude.{
  ℕ, zero, suc, ◌+◌, ◌-◌, ◌*◌, ◌/◌, ◌%◌, ◌^◌, bit_and, Bool, true, false, not, ◌&&◌, List, [], ◌∷◌,
  ◌++◌, Option, none, some, ltb, leb, ◌==◌, if◌then◌else◌, Result, ok, fault, assertion, panic,
  out_of_bounds, null_pointer, ◌>>=◌, ◌>>◌, require, length, get_elem?, set, replicate,
}

abbrev pub table_size : ℕ
table_size = 24

abbrev pub apic_version : ℕ
apic_version = 0x14

-- A redirection table has 24 entries of 64 bits.
pub record IoApic : Type 0 where
  pub max_guests : ℕ
  pub reg_sel : List ℕ
  pub apic_id : ℕ
  pub arb_id : ℕ
  pub lowest_priority_offset : ℕ
  pub redir_table : List (List ℕ)
  pub pin_states : List Bool

-- The constructor: each entry is masked.
pub init : ℕ → ℕ → Result IoApic
init id guests =
    require (ltb id 0xff) assertion
    >> require (ltb guests 0xff) assertion
    >> ok (record {
      max_guests = guests;
      reg_sel = replicate guests 0;
      apic_id = id;
      arb_id = id;
      lowest_priority_offset = 0;
      redir_table = replicate guests (replicate table_size (2 ^ 16));
      pin_states = replicate table_size false;
    })

-- The bit fields of a RedirTableEntry.
abbrev pub entry_dest : ℕ → ℕ
entry_dest e = e / 2 ^ 56 % 2 ^ 8

abbrev pub entry_mask : ℕ → ℕ
entry_mask e = e / 2 ^ 16 % 2

abbrev pub entry_trigger : ℕ → ℕ
entry_trigger e = e / 2 ^ 15 % 2

abbrev pub entry_polarity : ℕ → ℕ
entry_polarity e = e / 2 ^ 13 % 2

abbrev pub entry_dest_mode : ℕ → ℕ
entry_dest_mode e = e / 2 ^ 11 % 2

abbrev pub entry_delivery_mode : ℕ → ℕ
entry_delivery_mode e = e / 2 ^ 8 % 2 ^ 3

abbrev pub entry_vector : ℕ → ℕ
entry_vector e = e % 2 ^ 8

-- `topDW = value; topReserved = 0`, bits 63 to 32 and then 55 to 32,
unfoldable pub write_top : ℕ → ℕ → ℕ
write_top e value =
    let written = value % 2 ^ 32 * 2 ^ 32 + e % 2 ^ 32 in
    written / 2 ^ 56 * 2 ^ 56 + written % 2 ^ 32

-- and `bottomDW = value; bottomReserved = 0`, bits 31 to 0 and then 31 to 17.
unfoldable pub write_bottom : ℕ → ℕ → ℕ
write_bottom e value =
    let written = e / 2 ^ 32 * 2 ^ 32 + value % 2 ^ 32 in
    written / 2 ^ 32 * 2 ^ 32 + written % 2 ^ 17

-- `regs[i]`, where an index outside the array or vector is a fault.
unfoldable pub element : {A : Type 0} → List A → ℕ → Result A
element xs i = elim (get_elem? xs i) [ none ↦ fault out_of_bounds | some a ↦ ok a ]

-- The offsets that reach the redirection table: the last two lie behind its end.
abbrev pub in_table : ℕ → Bool
in_table offset = leb 0x10 offset && leb offset (0x10 + table_size * 2)

abbrev pub index_of : ℕ → ℕ
index_of offset = (offset - 0x10) / 2

unfoldable pub write_entry : IoApic → ℕ → ℕ → ℕ → Result IoApic
write_entry s ds offset value = do
  table ← element s.redir_table ds
  e ← element table (index_of offset)
  ok (record s {
    redir_table = set s.redir_table ds (
        set table (index_of offset)
          (if offset % 2 == 1 then write_top e value else write_bottom e value));
  })

-- `writeReg(DSid, offset, value)`
unfoldable pub write_reg : IoApic → ℕ → ℕ → ℕ → Result IoApic
write_reg s ds offset value =
    if offset == 0
    then ok (record s { apic_id = value / 2 ^ 24 % 2 ^ 8 })
    else if offset == 1
    then ok s
    else if offset == 2
    then ok (record s { arb_id = value / 2 ^ 24 % 2 ^ 8 })
    else if in_table offset
    then write_entry s ds offset value
    else ok s

-- `writeReg(offset, value)`, for each of `guests` guests from `ds` on.
write_from : IoApic → ℕ → ℕ → ℕ → ℕ → Result IoApic
write_from s zero ds offset value = ok s
write_from s (suc guests) ds offset value =
    write_reg s ds offset value >>= λ s'. write_from s' guests (suc ds) offset value

pub write_all : IoApic → ℕ → ℕ → Result IoApic
unfolding write_from
write_all s offset value = write_from s s.max_guests 0 offset value

unfoldable pub read_entry : IoApic → ℕ → ℕ → Result ℕ
read_entry s ds offset = do
  table ← element s.redir_table ds
  e ← element table (index_of offset)
  ok (if offset % 2 == 1 then e / 2 ^ 32 else e % 2 ^ 32)

unfoldable pub read_reg : IoApic → ℕ → ℕ → Result ℕ
read_reg s ds offset =
    if offset == 0
    then ok (s.apic_id * 2 ^ 24)
    else if offset == 1
    then ok ((table_size - 1) * 2 ^ 16 + apic_version)
    else if offset == 2
    then ok (s.arb_id * 2 ^ 24)
    else if in_table offset
    then read_entry s ds offset
    else ok 0

-- Programmed I/O: the packet's size and DSid, and its address less `pioAddr`.
unfoldable pub read : IoApic → ℕ → ℕ → ℕ → Result ℕ
read s size ds offset = do
  require (size == 4) assertion
  sel ← element s.reg_sel ds
  if offset == 0 then ok sel else if offset == 16 then read_reg s ds sel else fault panic

unfoldable pub write : IoApic → ℕ → ℕ → ℕ → ℕ → Result IoApic
write s size ds offset value = do
  require (size == 4) assertion
  sel ← element s.reg_sel ds
  if offset == 0
      then ok (record s { reg_sel = set s.reg_sel ds (value % 2 ^ 8) })
      else if offset == 16
      then write_reg s ds sel value
      else fault panic
