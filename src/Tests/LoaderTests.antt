-- ===== src/Tests/LoaderTests.antt =====
-- The loader with two segments, of one byte and of twelve, on a blank plane with one row.
use pard_gem.Prelude.{
  ℕ, ◌≤◌, ◌^◌, ◌≡◌, refl, some, arith, ok, List, [], ◌∷◌, length, replicate, length-replicate,
  get_elem?,
}
use pard_gem.Bytes.{Block}
use pard_gem.SystemCp.{SystemCp, config_mem_size, get_segment, get_cpu_mask}
use pard_gem.SystemCp.Safety.{IsValid}
use pard_gem.SystemCp.FirstRow.{HasRow}
use pard_gem.Tools.Loader.{LoadSegment, round_sizes, loader_ds_id, load_bios}
use pard_gem.Tools.ConfigMemory.{Placed, total_size}
use pard_gem.Tools.Boot.{entry, Loadable, load_bios_lem}

blank : ℕ → Block
blank n = replicate n 0

length-blank : (n : ℕ) → length (blank n) ≡ n
unfolding blank
length-blank n = length-replicate n 0

plane : SystemCp
plane = record {
  param_table_entries = 1;
  stat_table_entries = 1;
  tables = record {
    params = replicate 88 0;
    stats = replicate 16 0;
    info = replicate 16 0;
    config = blank config_mem_size;
  };
}

plane-HasRow : HasRow plane
unfolding plane
plane-HasRow = record {
  valid = record {
    params = refl;
    stats = refl;
    info = refl;
    config = length-blank config_mem_size;
  };
  row = omega arith;
}

abbrev segments : List LoadSegment
segments =
    record { base = 0x901e8; size = 1; offset = 0; ptr = 4 ∷ replicate 7 0 }
    ∷ record { base = 0x902d0; size = 12; offset = 0; ptr = replicate 16 9 }
    ∷ []

segments-Loadable : Loadable segments
segments-Loadable = ((omega arith, omega arith), ((omega arith, omega arith), tt))

room : total_size (round_sizes segments) ≤ 2 ^ 24
unfolding total_size
room = omega arith

load_bios_lem_example :
    (segs' : List LoadSegment) × (t : SystemCp) × (load_bios segments plane ≡ ok (segs', t))
    × IsValid t
    × Placed 0 t 0 (round_sizes segments) segs'
    × ((seg : LoadSegment) × (get_elem? segs' 1 ≡ some seg)
        × (get_segment t loader_ds_id 1 ≡ ok (some (entry seg))))
    × (get_cpu_mask t loader_ds_id ≡ some 1)
load_bios_lem_example =
    load_bios_lem 0 1 segments plane plane-HasRow segments-Loadable (omega arith) (omega arith) room
