-- ===== src/IchCp.antt =====
-- dev/cellx/ich_cp.cc and ich_cp.hh: the south bridge's control plane, which gives each domain
-- one of four sets of legacy devices and says which domains an interrupt line reaches.
pub mod Safety
pub mod Windows
pub mod Interrupts
pub mod Lines
use pard_gem.Prelude.{
  ℕ, zero, suc, ◌+◌, ◌-◌, ◌*◌, ◌%◌, ◌^◌, ◌&&◌, Bool, List, [], ◌∷◌, ◌++◌, Option, none, some, ltb,
  leb, ◌==◌, if◌then◌else◌, Result, ok, ◌>>=◌, replicate,
}
use pard_gem.Bytes.{Block, word_at, put_at, load}
use pard_gem.Prm.Address.{
  addrtype, addrtype_cfgtbl, cfgtbl_type_param, cfgtbl_addr2type, cfgtbl_addr2row,
  cfgtbl_addr2offset, entry_at,
}
use pard_gem.Prm.Tables.{Tables, Pointer, param_table, in_space, query, update}
use pard_gem.Prm.Rows.{first_row}

-- `struct ParamEntry` is flags, DSid, selected (32, 16 and 16 bits), four register bases of 64
-- bits and 24 interrupt lines of 32 bits.
abbrev pub param_entry_size : ℕ
param_entry_size = 136

abbrev pub regbase_offset : ℕ
regbase_offset = 8

abbrev pub intlines_offset : ℕ
intlines_offset = 40

-- `-1`, as `int` and as a DSid or a selection.
abbrev pub no_line : ℕ
no_line = 2 ^ 32 - 1

abbrev pub unselected : ℕ
unselected = 0xffff

pub record IchCp : Type 0 where
  pub param_table_entries : ℕ
  pub tables : Tables

-- Rows of ones with their flags cleared.
abbrev pub new_rows : ℕ → Block
new_rows zero = []
new_rows (suc n) = replicate 4 0 ++ replicate 132 0xff ++ new_rows n

-- The constructor.
pub init : ℕ → IchCp
init entries = record {
  param_table_entries = entries;
  tables = record { params = new_rows entries; stats = []; info = []; config = [] };
}

unfoldable pub parse_addr : IchCp → ℕ → Pointer
parse_addr s addr =
    if addrtype addr == addrtype_cfgtbl && cfgtbl_addr2type addr == cfgtbl_type_param
    then in_space param_table (
        entry_at s.param_table_entries param_entry_size (cfgtbl_addr2row addr)
          (cfgtbl_addr2offset addr))
    else none

unfoldable pub query_table : IchCp → ℕ → ℕ → Result ℕ
query_table s ds addr = query (parse_addr s addr) s.tables

unfoldable pub update_table : IchCp → ℕ → ℕ → ℕ → Result IchCp
update_table s ds addr v =
    update (parse_addr s addr) v s.tables >>= λ t. ok (record s { tables = t })

-- The fields of `paramTable[i]`.
abbrev pub row_ds_id : IchCp → ℕ → ℕ
row_ds_id s i = word_at 2 s.tables.params (i * param_entry_size + 4)

abbrev pub row_selected : IchCp → ℕ → ℕ
row_selected s i = word_at 2 s.tables.params (i * param_entry_size + 6)

abbrev pub row_regbase : IchCp → ℕ → ℕ → ℕ
row_regbase s i k = word_at 8 s.tables.params (i * param_entry_size + regbase_offset + k * 8)

-- `struct ICH_COMPOMENT`, without its interrupt line.
pub record Component : Type 0 where
  pub regbase : ℕ
  pub regsize : ℕ

-- `*base` and `*remapped`.
pub record Window : Type 0 where
  pub base : ℕ
  pub remapped : ℕ

-- `x86IOAddress` is gem5's.
module _ (x86_io_address : ℕ → ℕ) where
  -- `compoments[selected]`: the serial port of that number, the clock, the timer and the I/O APIC.
  abbrev pub components : ℕ → List Component
  components selected =
      record { regbase = x86_io_address (com_port selected); regsize = 8 }
      ∷ record { regbase = x86_io_address 0x70; regsize = 4 }
      ∷ record { regbase = x86_io_address (0x40 + selected * 4); regsize = 4 }
      ∷ record { regbase = 0xfec00000; regsize = 0x14 }
      ∷ []
    where
      com_port : ℕ → ℕ
      com_port zero = 0x3f8
      com_port (suc zero) = 0x2f8
      com_port (suc (suc zero)) = 0x3e8
      com_port _ = 0x2e8

  abbrev pub nowhere : ℕ → Window
  nowhere addr = record { base = addr; remapped = x86_io_address 0 }

  abbrev pub covers : ℕ → Component → ℕ → Bool
  covers base c addr = leb base addr && ltb addr ((base + c.regsize) % 2 ^ 64)

  -- The search through the components from number `k` on.
  unfoldable pub find_window : IchCp → ℕ → ℕ → ℕ → List Component → Window
  find_window s i addr k [] = nowhere addr
  find_window s i addr k (c ∷ cs) =
      let later = find_window s i addr (suc k) cs in
      if covers (row_regbase s i k) c addr
      then record { base = row_regbase s i k; remapped = c.regbase }
      else later

  -- A selection of 4 or more is reset, although the method is `const`.
  unfoldable pub remap_in : IchCp → ℕ → Option ℕ → Window × IchCp
  remap_in s addr none = (nowhere addr, s)
  remap_in s addr (some i) =
      if leb 4 (row_selected s i)
      then (
        nowhere addr,
        record s {
          tables = record s.tables {
            params = put_at 2 s.tables.params (i * param_entry_size + 6) unselected;
          };
        },
      )
      else (find_window s i addr 0 (components (row_selected s i)), s)

  -- The method always returns true.
  pub remap_addr : IchCp → ℕ → ℕ → Window × IchCp
  unfolding remap_in
  remap_addr s ds addr =
      remap_in s addr (first_row (λ i. row_ds_id s i == ds) s.param_table_entries 0)

-- The rows from `i` on whose line is not -1, with their DSids.
unfoldable pub targets_from : IchCp → ℕ → ℕ → ℕ → Result (List (ℕ × ℕ))
targets_from s line zero i = ok []
targets_from s line (suc n) i = do
  target ← load 4 s.tables.params (i * param_entry_size + intlines_offset + line * 4)
  rest ← targets_from s line n (suc i)
  ok (if target == no_line then rest else (row_ds_id s i, target) ∷ rest)

unfoldable pub remap_interrupt : IchCp → ℕ → Result (List (ℕ × ℕ))
remap_interrupt s line = targets_from s line s.param_table_entries 0
