-- ===== src/Tests/PrmTests.antt =====
-- The manager programs the system control plane of two rows through its connector.
use pard_gem.Prelude.{
  ℕ, ◌≡◌, refl, some, none, arith, ok, length, replicate, length-replicate, [], ◌∷◌, Option,
}
use pard_gem.Bytes.{Block, word_at}
use pard_gem.Prm.Address.{entry_at}
use pard_gem.Prm.Connector.{Connector, read}
use pard_gem.Prm.Protocol.{IsReady, set_row, get_row}
use pard_gem.Prm.ReadBack.{get_row-set_row}
use pard_gem.Prm.Adaptor.{
  Adaptor, dispatch_access, to_connector, dispatch_access-read, check_register,
}
use pard_gem.Prm.Tables.{param_table}
use pard_gem.SystemCp.{SystemCp, config_mem_size, parse_addr, parse_cfgtbl}
use pard_gem.SystemCp.Safety.{IsValid}
use pard_gem.SystemCp.Table.{system_plane, IsKnown, system_plane-IsTable}

blank : ℕ → Block
blank n = replicate n 0

length-blank : (n : ℕ) → length (blank n) ≡ n
unfolding blank
length-blank n = length-replicate n 0

abbrev two_rows : SystemCp
two_rows = record {
  param_table_entries = 2;
  stat_table_entries = 1;
  tables = record {
    params = blank 176;
    stats = blank 16;
    info = blank 16;
    config = blank config_mem_size;
  };
}

two_rows-IsValid : IsValid two_rows
two_rows-IsValid = record {
  params = length-blank 176;
  stats = length-blank 16;
  info = length-blank 16;
  config = length-blank config_mem_size;
}

-- The CPU mask of row 1.
mask_place : parse_addr two_rows 0x408 ≡ some (param_table, 96)
unfolding parse_addr parse_cfgtbl entry_at
mask_place = refl

absent : {A : Type 0} {o : Option A} {a : A} → o ≡ some a → o ≡ none → ⊥
absent e f = cc

mask-IsKnown : IsKnown two_rows 0x408
mask-IsKnown = absent mask_place

-- The connector of device 3, its registers in their reset state.
abbrev connector : Connector SystemCp
connector = record {
  regs = replicate 32 0xff;
  cp_dev_id = 3;
  cp = some two_rows;
  cmd_handler = none;
}

connector-IsReady : IsReady system_plane connector two_rows
connector-IsReady = record { regs = refl; dev = omega arith; cp = refl }

get_row-set_row_example :
    (d : Connector SystemCp) × (e : Connector SystemCp) × (set_row system_plane 5 0x408 0xff
        connector
      ≡ ok d)
    × (get_row system_plane 6 0x408 d ≡ ok (0xff, e))
get_row-set_row_example =
    get_row-set_row system_plane system_plane-IsTable connector two_rows 5 6 0x408 0xff
      connector-IsReady two_rows-IsValid mask-IsKnown (omega arith) (omega arith) (omega arith)
      (omega arith)

abbrev adaptor : Adaptor
adaptor = record { command = 3 }

mask_register :
    check_register
      ((0, 4) ∷ (4, 4) ∷ (8, 8) ∷ (0x10, 1) ∷ (0x11, 1) ∷ (0x12, 2) ∷ (0x14, 4) ∷ (0x18, 8) ∷ [])
      0x14
      4
    ≡ ok tt
unfolding check_register
mask_register = refl

dispatch_access-read_example :
    dispatch_access
      (Connector SystemCp)
      (to_connector system_plane)
      (some (1, 0x14))
      4
      0
      read
      adaptor
      connector
    ≡ ok (word_at 4 connector.regs 0x14, adaptor, connector)
dispatch_access-read_example =
    dispatch_access-read system_plane adaptor connector 0x14 4 0 refl refl mask_register
      (omega arith)
