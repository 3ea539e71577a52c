-- ===== src/Tools/Loader.antt =====
-- system/utils/biosbuilder.c: how the firmware loader fills the configuration memory of the system
-- control plane.
use pard_gem.Prelude.{
  ℕ, zero, suc, ◌+◌, ◌*◌, ◌/◌, ◌%◌, ◌^◌, List, [], ◌∷◌, ◌==◌, if◌then◌else◌, Result, ok, fault,
  assertion, ◌>>=◌,
}
use pard_gem.Bytes.{Block, load}
use pard_gem.Prm.Address.{cfgtbl_type_param, cfgtbl_addr}
use pard_gem.SystemCp.{SystemCp, update_table}

-- `struct Segment`; `ptr` is the memory from the pointer on.
pub record LoadSegment : Type 0 where
  pub base : ℕ
  pub size : ℕ
  pub offset : ℕ
  pub ptr : Block

-- `union CPADDR` with `cfgmem.type = 1`; the offset has 24 bits.
abbrev pub cfgmem_addr : ℕ → ℕ
cfgmem_addr offset = offset % 2 ^ 24 + 2 ^ 30

-- The rounding in main, for each segment of `all_segments` before the one of size 0, which ends
-- each loop.
abbrev pub round_size : LoadSegment → LoadSegment
round_size seg =
    if seg.size % 8 == 0 then seg else record seg { size = (seg.size + 7) % 2 ^ 32 / 8 * 8 }

abbrev pub round_sizes : List LoadSegment → List LoadSegment
round_sizes [] = []
round_sizes (seg ∷ segs) = round_size seg ∷ round_sizes segs

-- The loop of write_config_memory, `n` words from `offset` on; the ioctl call succeeds.
unfoldable pub write_qwords : ℕ → SystemCp → ℕ → Block → ℕ → Result SystemCp
write_qwords zero s base buf offset = ok s
write_qwords (suc n) s base buf offset = do
  v ← load 8 buf offset
  t ← update_table s 0 (cfgmem_addr (base + offset)) (v % 2 ^ 64)
  write_qwords n t base buf (offset + 8)

unfoldable pub write_config_memory : SystemCp → ℕ → Block → ℕ → Result SystemCp
unfolding write_qwords
write_config_memory s base buf size =
    if size % 8 == 0 then write_qwords (size / 8) s base buf 0 else fault assertion

-- The loop of main over the segments, which sets their offsets.
unfoldable pub write_segments :
    List LoadSegment → SystemCp → ℕ → Result (List LoadSegment × SystemCp)
unfolding write_config_memory
write_segments [] s offset = ok ([], s)
write_segments (seg ∷ segs) s offset = do
  t ← write_config_memory s offset seg.ptr seg.size
  (placed, u) ← write_segments segs t ((offset + seg.size) % 2 ^ 32)
  ok (record seg { offset = offset } ∷ placed, u)

unfoldable pub load_config : List LoadSegment → SystemCp → Result (List LoadSegment × SystemCp)
unfolding write_segments
load_config segs s = write_segments (round_sizes segs) s 0

-- The loops of main that follow it: the words of the segments, each its base and then its offset
-- above its size, from `offset` of row 0 on; the mask of the processors; and the word that makes the
-- row valid, for the fixed DSid.
abbrev pub loader_ds_id : ℕ
loader_ds_id = 0xF0F0

unfoldable pub write_segment_table : List LoadSegment → SystemCp → ℕ → Result SystemCp
write_segment_table [] s offset = ok s
write_segment_table (seg ∷ segs) s offset = do
  t ← update_table s loader_ds_id (cfgtbl_addr cfgtbl_type_param 0 (offset % 2 ^ 10)) seg.base
  u ←
      update_table t loader_ds_id (cfgtbl_addr cfgtbl_type_param 0 ((offset + 8) % 2 ^ 10))
        (seg.size + seg.offset * 2 ^ 32)
  write_segment_table segs u (offset + 16)

unfoldable pub write_param_row : List LoadSegment → SystemCp → Result SystemCp
unfolding write_segment_table
write_param_row segs s = do
  t ← write_segment_table segs s 24
  u ← update_table t loader_ds_id (cfgtbl_addr cfgtbl_type_param 0 8) 1
  update_table u loader_ds_id (cfgtbl_addr cfgtbl_type_param 0 0) 0x8000F0F0

-- From the first write of main to the last; the boot command follows.
unfoldable pub load_bios : List LoadSegment → SystemCp → Result (List LoadSegment × SystemCp)
unfolding load_config write_param_row
load_bios segs s = do (placed, t) ← load_config segs s; u ← write_param_row placed t; ok (placed, u)
