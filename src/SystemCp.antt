-- ===== src/SystemCp.antt =====
-- arch/x86/pardg5v_system_cp.cc: the control plane of the server's processors and memory.
pub mod Safety
mod Rows
pub mod CpuMask
pub mod Segments
pub mod FirstRow
pub mod Table
use pard_gem.Prelude.{
  ℕ, ◌+◌, ◌*◌, ◌/◌, ◌%◌, ◌^◌, Bool, ◌&&◌, Option, none, some, ltb, ◌==◌, if◌then◌else◌, Result, ok,
  fault, assertion, ◌>>=◌, replicate,
}
use pard_gem.Bytes.{Block, word_at, put_at}
use pard_gem.Prm.Address.{
  addrtype, addrtype_cfgtbl, addrtype_cfgmem, addrtype_sysinfo, cfgtbl_type_param, cfgtbl_type_stat,
  cfgtbl_addr2type, cfgtbl_addr2row, cfgtbl_addr2offset, cfgmem_addr2offset, sysinfo_addr2offset,
  fits, entry_at,
}
use pard_gem.Prm.Tables.{
  Tables, Pointer, param_table, stat_table, system_info, config_mem, in_space, query, update,
}
use pard_gem.Prm.Rows.{first_row}

-- Sizes and offsets of the packed structures: `struct ParamEntry` is DSid, flags (16 bits each),
-- padding, cpuMask, bsp_entry_addr (64 bits each) and four segments of base, size, offset.
abbrev pub param_entry_size : ℕ
param_entry_size = 88

abbrev pub stat_entry_size : ℕ
stat_entry_size = 16

abbrev pub system_info_size : ℕ
system_info_size = 16

abbrev pub config_mem_size : ℕ
config_mem_size = 2 ^ 24

abbrev pub segment_count : ℕ
segment_count = 4

pub record SystemCp : Type 0 where
  pub param_table_entries : ℕ
  pub stat_table_entries : ℕ
  pub tables : Tables

pub record Segment : Type 0 where
  pub base : ℕ
  pub size : ℕ
  pub offset : ℕ

-- The constructor. `raw_info` and `raw_config` stand for memory that `new` does not clear.
pub init : ℕ → ℕ → Block → Block → SystemCp
init params stats raw_info raw_config = record {
  param_table_entries = params;
  stat_table_entries = stats;
  tables = record {
    params = replicate (params * param_entry_size) 0;
    stats = replicate (stats * stat_entry_size) 0;
    info = put_at 8 (put_at 1 raw_info 0 8) 8 (8 * 2 ^ 30);
    config = raw_config;
  };
}

unfoldable pub parse_cfgtbl : SystemCp → ℕ → Pointer
parse_cfgtbl s addr =
    if cfgtbl_addr2type addr == cfgtbl_type_param
    then in_space param_table (
        entry_at s.param_table_entries param_entry_size (cfgtbl_addr2row addr)
          (cfgtbl_addr2offset addr))
    else if cfgtbl_addr2type addr == cfgtbl_type_stat
    then in_space stat_table (
        entry_at s.stat_table_entries stat_entry_size (cfgtbl_addr2row addr)
          (cfgtbl_addr2offset addr))
    else none

unfoldable pub parse_addr : SystemCp → ℕ → Pointer
unfolding parse_cfgtbl
parse_addr s addr =
    if addrtype addr == addrtype_cfgtbl
    then parse_cfgtbl s addr
    else if addrtype addr == addrtype_cfgmem
    then (if fits (cfgmem_addr2offset addr) config_mem_size
        then some (config_mem, cfgmem_addr2offset addr)
        else none)
    else if addrtype addr == addrtype_sysinfo
    then (if fits (sysinfo_addr2offset addr) system_info_size
        then some (system_info, sysinfo_addr2offset addr)
        else none)
    else none

-- The DSid of the caller is logged only.
unfoldable pub query_table : SystemCp → ℕ → ℕ → Result ℕ
query_table s ds addr = query (parse_addr s addr) s.tables

pub update_table : SystemCp → ℕ → ℕ → ℕ → Result SystemCp
update_table s ds addr v = do
  t ← update (parse_addr s addr) v s.tables
  ok (record s { tables = t })

-- The fields of `paramTable[i]`.
abbrev pub row_ds_id : SystemCp → ℕ → ℕ
row_ds_id s i = word_at 2 s.tables.params (i * param_entry_size)

abbrev pub row_flags : SystemCp → ℕ → ℕ
row_flags s i = word_at 2 s.tables.params (i * param_entry_size + 2)

-- `(paramTable[i].flags & FLAG_VALID) && (paramTable[i].DSid == DSid)`
unfoldable pub row_serves : SystemCp → ℕ → ℕ → Bool
row_serves s ds i = row_flags s i / 2 ^ 15 % 2 == 1 && row_ds_id s i == ds

unfoldable pub find_entry : SystemCp → ℕ → Option ℕ
find_entry s ds = first_row (row_serves s ds) s.param_table_entries 0

cpu_mask_at : Block → Option ℕ → Option ℕ
cpu_mask_at b none = none
cpu_mask_at b (some i) = some (word_at 8 b (i * param_entry_size + 8))

-- `none` stands for -ENOENT.
pub get_cpu_mask : SystemCp → ℕ → Option ℕ
unfolding cpu_mask_at
get_cpu_mask s ds = cpu_mask_at s.tables.params (find_entry s ds)

pub segment_at : Block → ℕ → Option ℕ → Option Segment
segment_at b idx none = none
segment_at b idx (some i) =
    let place = i * param_entry_size + 24 + idx * 16 in
    some (record {
      base = word_at 8 b place;
      size = word_at 4 b (place + 8);
      offset = word_at 4 b (place + 12);
    })

-- The segment behind the pointer, `none` for NULL.
pub get_segment : SystemCp → ℕ → ℕ → Result (Option Segment)
unfolding segment_at
get_segment s ds idx =
    if ltb idx segment_count
    then ok (segment_at s.tables.params idx (find_entry s ds))
    else fault assertion

-- The offset into the configuration memory, for `offset` and `size` that are not negative and
-- whose sum is below 2 ^ 31.
pub get_config_mem : ℕ → ℕ → Option ℕ
get_config_mem offset size = if ltb config_mem_size (offset + size) then none else some offset
