-- ===== src/Tests/SystemCpTests.antt =====
-- The system control plane with two rows, of which row 0 serves DSid 7.
use pard_gem.Prelude.{
  ℕ, ◌+◌, ◌*◌, ◌^◌, ◌≡◌, refl, some, arith, ok, length, replicate, length-replicate,
}
use pard_gem.Bytes.{Block, word_at, put_at}
use pard_gem.Prm.Address.{cfgtbl_addr}
use pard_gem.Prm.Rows.{first_row}
use pard_gem.SystemCp.{
  SystemCp, Segment, config_mem_size, find_entry, row_serves, parse_addr, query_table, update_table,
  get_cpu_mask, get_segment,
}
use pard_gem.SystemCp.Safety.{IsValid, answer, update_table_total, query_table-update_table}
use pard_gem.SystemCp.CpuMask.{get_cpu_mask-update_table}
use pard_gem.SystemCp.Segments.{segment_words, get_segment-segment_words}

blank : ℕ → Block
blank n = replicate n 0

length-blank : (n : ℕ) → length (blank n) ≡ n
unfolding blank
length-blank n = length-replicate n 0

-- The first word of row 0 is its DSid and FLAG_VALID.
system : SystemCp
unfolding put_at
system = record {
  param_table_entries = 2;
  stat_table_entries = 1;
  tables = record {
    params = put_at 8 (replicate 176 0) 0 (7 + 0x8000 * 2 ^ 16);
    stats = replicate 16 0;
    info = replicate 16 0;
    config = blank config_mem_size;
  };
}

system-IsValid : IsValid system
unfolding system
system-IsValid = record {
  params = refl;
  stats = refl;
  info = refl;
  config = length-blank config_mem_size;
}

find_entry-system : find_entry system 7 ≡ some 0
unfolding system find_entry row_serves first_row word_at
find_entry-system = refl

query_table-update_table_example :
    (t : SystemCp) × (update_table system 0 (cfgtbl_addr 0 1 8) 0xff ≡ ok t)
    × IsValid t
    × (query_table t 3 (cfgtbl_addr 0 1 8)
        ≡ ok (answer (parse_addr system (cfgtbl_addr 0 1 8)) 0xff))
query_table-update_table_example =
    query_table-update_table system 0 3 (cfgtbl_addr 0 1 8) 0xff system-IsValid (omega arith)

programmed : SystemCp
programmed = (update_table_total system 0 (cfgtbl_addr 0 0 8) 3 system-IsValid).0

programmed_lem : update_table system 0 (cfgtbl_addr 0 0 8) 3 ≡ ok programmed
unfolding programmed
programmed_lem = (update_table_total system 0 (cfgtbl_addr 0 0 8) 3 system-IsValid).1

get_cpu_mask-update_table_example :
    (get_cpu_mask programmed 7 ≡ some 3) × (get_cpu_mask programmed 9 ≡ get_cpu_mask system 9)
get_cpu_mask-update_table_example =
    get_cpu_mask-update_table system programmed 0 7 9 0 3 (omega arith) find_entry-system
      (omega arith) (omega arith) programmed_lem

abbrev low_memory : Segment
low_memory = record { base = 0x1000; size = 0x800; offset = 0x200 }

get_segment-segment_words_example :
    (t : SystemCp) × (segment_words system 0 0 1 low_memory ≡ ok t)
    × (get_segment t 7 1 ≡ ok (some low_memory))
get_segment-segment_words_example =
    get_segment-segment_words system 0 7 0 1 low_memory system-IsValid find_entry-system
      (omega arith) (omega arith) (omega arith) (omega arith) (omega arith)
