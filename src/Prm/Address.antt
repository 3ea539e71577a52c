-- ===== src/Prm/Address.antt =====
-- prm/ControlPlane.hh: how a 32-bit control-plane address names a word of a table. A mask of
-- contiguous bits is written as a quotient and a remainder by powers of two.
use pard_gem.Prelude.{
  ℕ, ◌+◌, ◌-◌, ◌*◌, ◌/◌, ◌%◌, ◌^◌, ◌≤◌, ◌<◌, ◌≡◌, Bool, ◌&&◌, Option, none, some, arith, ltb, leb,
  if◌then◌else◌,
}

-- `addr & ADDRTYPE_MASK`, as the number in the top two bits.
abbrev pub addrtype : ℕ → ℕ
addrtype addr = addr / 2 ^ 30 % 4

abbrev pub addrtype_cfgtbl : ℕ
addrtype_cfgtbl = 0

abbrev pub addrtype_cfgmem : ℕ
addrtype_cfgmem = 1

abbrev pub addrtype_sysinfo : ℕ
addrtype_sysinfo = 2

abbrev pub cfgtbl_type_param : ℕ
cfgtbl_type_param = 0

abbrev pub cfgtbl_type_stat : ℕ
cfgtbl_type_stat = 1

abbrev pub cfgtbl_addr2type : ℕ → ℕ
cfgtbl_addr2type addr = addr / 2 ^ 28 % 4

abbrev pub cfgtbl_addr2row : ℕ → ℕ
cfgtbl_addr2row addr = addr / 2 ^ 10 % 256

abbrev pub cfgtbl_addr2offset : ℕ → ℕ
cfgtbl_addr2offset addr = addr % 1024

abbrev pub cfgmem_addr2offset : ℕ → ℕ
cfgmem_addr2offset addr = addr % 2 ^ 24

abbrev pub sysinfo_addr2offset : ℕ → ℕ
sysinfo_addr2offset addr = addr % 256

-- `a - b` on `size_t`, which wraps.
abbrev pub sub_size : ℕ → ℕ → ℕ
sub_size a b = (a + 2 ^ 64 - b) % 2 ^ 64

-- `offset <= sizeof(T) - sizeof(uint64_t)`
abbrev pub fits : ℕ → ℕ → Bool
fits offset size = leb offset (sub_size size 8)

-- Where `((char *)&table[row]) + offset` lies in the table, if the row and the offset pass the
-- tests of `parseAddr`.
unfoldable pub entry_at : ℕ → ℕ → ℕ → ℕ → Option ℕ
entry_at rows size row offset =
    if ltb row rows && fits offset size then some (row * size + offset) else none

-- The address of a word of a configuration table, as firmware builds it.
unfoldable pub cfgtbl_addr : ℕ → ℕ → ℕ → ℕ
cfgtbl_addr table row offset = table * 2 ^ 28 + row * 2 ^ 10 + offset

-- The fields of such an address come back.
pub cfgtbl_addr_fields :
    (table row offset : ℕ)
    → table < 4
    → row < 256
    → offset < 1024
    → let addr = cfgtbl_addr table row offset in
      (addrtype addr ≡ addrtype_cfgtbl)
      × (cfgtbl_addr2type addr ≡ table)
      × (cfgtbl_addr2row addr ≡ row)
      × (cfgtbl_addr2offset addr ≡ offset)
unfolding cfgtbl_addr
cfgtbl_addr_fields table row offset ht hr ho = omega arith

pub row-mul-le : (rows size row : ℕ) → row < rows → row * size + size ≤ rows * size
row-mul-le rows size row h = grind arith

-- An entry of eight bytes or more keeps the word inside its own row.
pub entry_at-in_row :
    (rows size row offset : ℕ) {place : ℕ}
    → 8 ≤ size
    → size < 2 ^ 64
    → entry_at rows size row offset ≡ some place
    → (row * size ≤ place)
      × (place + 8 ≤ row * size + size)
      × (place + 8 ≤ rows * size)
      × (place ≡ row * size + offset)
unfolding entry_at
entry_at-in_row rows size row offset h lt e = ground (arith, row-mul-le rows size row)
