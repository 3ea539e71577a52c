-- ===== src/IoHubCp.antt =====
-- dev/pard/iohub_cp.cc: the control plane of the I/O hub, which assigns PCI devices to domains.
pub mod Assign
pub mod Safety
pub mod Program
use pard_gem.Prelude.{
  ℕ, zero, suc, ◌+◌, ◌-◌, ◌*◌, ◌/◌, ◌%◌, ◌^◌, Bool, true, false, ◌&&◌, not, List, [], ◌∷◌, Option,
  none, some, ltb, leb, ◌==◌, if◌then◌else◌, Result, ok, fault, panic, ◌>>=◌, replicate, length,
}
use pard_gem.Bytes.{Block, word_at, put_at, load, store}
use pard_gem.Prm.Address.{
  addrtype, addrtype_cfgtbl, addrtype_sysinfo, cfgtbl_type_param, cfgtbl_type_stat,
  cfgtbl_addr2type, cfgtbl_addr2row, cfgtbl_addr2offset, sysinfo_addr2offset, fits, entry_at,
}
use pard_gem.Prm.Rows.{first_row}
use pard_gem.Prm.Tables.{
  Tables, Pointer, Space, param_table, stat_table, system_info, config_mem, block, set_block,
  in_space, query,
}
use Assign.{reassign}

-- `struct ParamEntry` is flags, DSid (16 bits each) and device_mask (32 bits); `struct StatEntry`
-- has the first two alone. `struct IOHubInfo` is a header of eight bytes and 32 device records.
abbrev pub param_entry_size : ℕ
param_entry_size = 8

abbrev pub stat_entry_size : ℕ
stat_entry_size = 4

abbrev pub device_info_size : ℕ
device_info_size = 40

abbrev pub hub_info_size : ℕ
hub_info_size = 1288

-- What the hub knows of a PCI device, `struct PCI_DEVICE`; `name` is its owner's.
pub record PciDevice : Type 0 where
  pub pard_compatible : Bool
  pub pciid : ℕ
  pub interrupt_line : ℕ
  pub name : List ℕ

-- `registered` says whether the pointer `iohub` is not NULL; `device_tags` is the DSid register of
-- the owner of each of the hub's PCI devices.
pub record IoHubCp : Type 0 where
  pub param_table_entries : ℕ
  pub stat_table_entries : ℕ
  pub tables : Tables
  pub registered : Bool
  pub device_tags : List ℕ

-- The constructor, which leaves `iohub` as the memory was.
pub init : ℕ → ℕ → Bool → List ℕ → IoHubCp
init params stats raw_iohub tags = record {
  param_table_entries = params;
  stat_table_entries = stats;
  tables = record {
    params = replicate (params * param_entry_size) 0;
    stats = replicate (stats * stat_entry_size) 0;
    info = put_at 2 (replicate hub_info_size 0) 0 0xffff;
    config = [];
  };
  registered = raw_iohub;
  device_tags = tags;
}

pub reg_io_hub : IoHubCp → Result IoHubCp
reg_io_hub s = if not s.registered then fault panic else ok (record s { registered = true })

parse_cfgtbl : IoHubCp → ℕ → Pointer
parse_cfgtbl s addr =
    if cfgtbl_addr2type addr == cfgtbl_type_param
    then in_space param_table (
        entry_at s.param_table_entries param_entry_size (cfgtbl_addr2row addr)
          (cfgtbl_addr2offset addr))
    else if cfgtbl_addr2type addr == cfgtbl_type_stat
    then in_space stat_table (
        entry_at s.stat_table_entries stat_entry_size (cfgtbl_addr2row addr)
          (cfgtbl_addr2offset addr))
    else none

pub parse_addr : IoHubCp → ℕ → Pointer
unfolding parse_cfgtbl
parse_addr s addr =
    if addrtype addr == addrtype_cfgtbl
    then parse_cfgtbl s addr
    else if addrtype addr == addrtype_sysinfo
    then (if fits (sysinfo_addr2offset addr) hub_info_size
        then some (system_info, sysinfo_addr2offset addr)
        else none)
    else none

pub query_table : IoHubCp → ℕ → ℕ → Result ℕ
query_table s ds addr = query (parse_addr s addr) s.tables

-- The fields of `paramTable[i]`.
abbrev pub row_flags : IoHubCp → ℕ → ℕ
row_flags s i = word_at 2 s.tables.params (i * param_entry_size)

abbrev pub row_ds_id : IoHubCp → ℕ → ℕ
row_ds_id s i = word_at 2 s.tables.params (i * param_entry_size + 2)

abbrev pub row_device_mask : IoHubCp → ℕ → ℕ
row_device_mask s i = word_at 4 s.tables.params (i * param_entry_size + 4)

-- `flags & FLAG_VALID`
abbrev pub is_flagged : ℕ → Bool
is_flagged flags = flags % 2 == 1

-- After a write at `place` of the parameter table: where the written word covers the row's device
-- mask, each device whose bit changed is given to the row's domain or taken from it.
apply_row : IoHubCp → ℕ → ℕ → ℕ → Result IoHubCp
apply_row s idx place old =
    let start = idx * param_entry_size in
    let old_mask = old / 256 ^ (4 - (place - start)) % 2 ^ 32 in
    if leb place (start + 4) && leb (start + 8) (place + 8) && is_flagged (row_flags s idx)
    then (do
      tags ← reassign 32 0 old_mask (row_device_mask s idx) (row_ds_id s idx) s.device_tags
      ok (record s { device_tags = tags }))
    else ok s

apply_mask : IoHubCp → ℕ → ℕ → Result IoHubCp
unfolding apply_row
apply_mask s place old = apply_row s (place / param_entry_size) place old

written_through : IoHubCp → Space → ℕ → ℕ → Result IoHubCp
unfolding apply_mask
written_through s param_table place old = apply_mask s place old
written_through s stat_table place old = ok s
written_through s system_info place old = ok s
written_through s config_mem place old = ok s

update_at : IoHubCp → Pointer → ℕ → Result IoHubCp
unfolding written_through
update_at s none v = ok s
update_at s (some (space, place)) v = do
  old ← load 8 (block s.tables space) place
  b ← store 8 (block s.tables space) place v
  written_through (record s { tables = set_block s.tables space b }) space place old

pub update_table : IoHubCp → ℕ → ℕ → ℕ → Result IoHubCp
unfolding update_at
update_table s ds addr v = update_at s (parse_addr s addr) v

unfoldable pub row_serves : IoHubCp → ℕ → ℕ → Bool
row_serves s ds i = is_flagged (row_flags s i) && row_ds_id s i == ds

unfoldable pub mask_at : IoHubCp → Option ℕ → ℕ
mask_at s none = 0
mask_at s (some i) = row_device_mask s i

unfoldable pub get_device_mask : IoHubCp → ℕ → ℕ
unfolding mask_at row_serves
get_device_mask s ds = mask_at s (first_row (row_serves s ds) s.param_table_entries 0)

-- `strncpy(ident, name, 32)`: the name's bytes, then zeros.
copy_ident : ℕ → Block → ℕ → List ℕ → Result Block
copy_ident zero b place name = ok b
copy_ident (suc n) b place [] = store 1 b place 0 >>= λ b'. copy_ident n b' (place + 1) []
copy_ident (suc n) b place (c ∷ cs) = store 1 b place c >>= λ b'. copy_ident n b' (place + 1) cs

-- `(uint64_t)(&((struct IOHubInfo *)NULL)->devices[id])`
abbrev pub device_place : ℕ → ℕ
device_place id = 8 + id * device_info_size

put_device : Block → ℕ → ℕ → PciDevice → Result Block
unfolding copy_ident
put_device b total id dev = do
  let place = device_place id
  let next = if id == total - 1 then 0xffff else device_place (id + 1)
  b ← store 2 b place (next % 2 ^ 16)
  b ← store 1 b (place + 2) (id % 256)
  b ← store 1 b (place + 3) (if dev.pard_compatible then 1 else 0)
  b ← store 2 b (place + 4) dev.pciid
  b ← store 1 b (place + 6) dev.interrupt_line
  copy_ident 32 b (place + 8) dev.name

put_devices : Block → ℕ → ℕ → List PciDevice → Result Block
unfolding put_device
put_devices b total id [] = ok b
put_devices b total id (d ∷ ds) = put_device b total id d >>= λ b'. put_devices b' total (id + 1) ds

pub recv_device_change : IoHubCp → List PciDevice → Result IoHubCp
unfolding put_devices
recv_device_change s devices = do
  let n = length devices
  b ← store 1 s.tables.info 2 (n % 256)
  b ← store 2 b 0 (if n == 0 then 0xffff else device_place 0)
  b ← put_devices b n 0 devices
  ok (record s { tables = record s.tables { info = b } })
  where
    open s use {tables}
