-- ===== src/IoHubCp/Safety.antt =====
-- Which table accesses of the I/O hub's control plane stay inside its tables.
use pard_gem.Prelude.{ℕ, ◌+◌, ◌*◌, ◌<◌, ◌≡◌, some, arith, fault, out_of_bounds, length}
use pard_gem.Bytes.{IsBytes, load}
use pard_gem.Prm.Address.{
  cfgtbl_addr2row, cfgtbl_addr2offset, cfgtbl_addr2type, addrtype, addrtype_cfgtbl,
  cfgtbl_type_param, cfgtbl_type_stat, cfgtbl_addr, cfgtbl_addr_fields, entry_at,
}
use pard_gem.Prm.Tables.{IsInside, param_table, stat_table, entry_at-IsInside, query}
use pard_gem.IoHubCp.{
  IoHubCp, param_entry_size, stat_entry_size, hub_info_size, parse_cfgtbl, parse_addr, query_table,
}

-- Each block has the size that the constructor gives it.
pub record IsValid (s : IoHubCp) : Type 0 where
  pub params : length s.tables.params ≡ s.param_table_entries * param_entry_size
  pub stats : length s.tables.stats ≡ s.stat_table_entries * stat_entry_size
  pub info : length s.tables.info ≡ hub_info_size
  pub bytes : IsBytes s.tables.params

-- An address that does not name the statistics table.
abbrev pub IsChecked : ℕ → Type 0
IsChecked addr = addrtype addr ≡ addrtype_cfgtbl → ¬ (cfgtbl_addr2type addr ≡ cfgtbl_type_stat)

parse_cfgtbl-IsInside :
    (s : IoHubCp) (addr : ℕ)
    → IsValid s
    → ¬ (cfgtbl_addr2type addr ≡ cfgtbl_type_stat)
    → IsInside (parse_cfgtbl s addr) s.tables
unfolding parse_cfgtbl
parse_cfgtbl-IsInside s addr v h = ground (
  arith,
  entry_at-IsInside s.tables param_table s.param_table_entries param_entry_size
      (cfgtbl_addr2row addr) (cfgtbl_addr2offset addr),
)

-- Outside the statistics table, a pointer that `parseAddr` returns leaves room for its word.
pub parse_addr-IsInside :
    (s : IoHubCp) (addr : ℕ) → IsValid s → IsChecked addr → IsInside (parse_addr s addr) s.tables
unfolding parse_addr
parse_addr-IsInside s addr v h = ground (arith, parse_cfgtbl-IsInside s addr v)

pub parse_addr-param :
    (s : IoHubCp) (r : ℕ)
    → r < 256
    → r < s.param_table_entries
    → parse_addr s (cfgtbl_addr cfgtbl_type_param r 0)
      ≡ some (param_table, r * param_entry_size + 0)
unfolding parse_addr parse_cfgtbl entry_at
parse_addr-param s r small row =
    ground (arith, cfgtbl_addr_fields cfgtbl_type_param r 0 (omega arith) small (omega arith))

parse_addr-stat :
    (s : IoHubCp) (r offset : ℕ)
    → r < 256
    → r < s.stat_table_entries
    → offset < 1024
    → parse_addr s (cfgtbl_addr cfgtbl_type_stat r offset)
      ≡ some (stat_table, r * stat_entry_size + offset)
unfolding parse_addr parse_cfgtbl entry_at
parse_addr-stat s r offset small row h =
    ground (arith, cfgtbl_addr_fields cfgtbl_type_stat r offset (omega arith) small h)

-- A statistics entry has four bytes, so `sizeof(struct StatEntry) - sizeof(uint64_t)` wraps and
-- every offset passes the test: a query whose word runs past the table reads outside it.
pub query_table-stat_overrun :
    (s : IoHubCp) (ds r offset : ℕ)
    → IsValid s
    → r < 256
    → r < s.stat_table_entries
    → offset < 1024
    → s.stat_table_entries * stat_entry_size < r * stat_entry_size + offset + 8
    → query_table s ds (cfgtbl_addr cfgtbl_type_stat r offset) ≡ fault out_of_bounds
unfolding query_table query load
query_table-stat_overrun s ds r offset v small row h over =
    rw (parse_addr-stat s r offset small row h) (ground arith)
