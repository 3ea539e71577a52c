-- ===== src/SystemCp/Segments.antt =====
-- PARDg5VSystemCP::getSegment under table updates.
use pard_gem.Prelude.{
  ℕ, ◌+◌, ◌*◌, ◌^◌, ◌≤◌, ◌<◌, ◌≡◌, ap, ◌∙◌, some, arith, Result, ok, ◌>>=◌, length, lt→ltb,
}
use pard_gem.Bytes.{
  Block, word_at, put_at, word_at-put_at_self, word_at-put_at_below, word_at-put_at_sub,
  length-put_at,
}
use pard_gem.Prm.Address.{cfgtbl_type_param, cfgtbl_addr, row-mul-le}
use pard_gem.SystemCp.{
  SystemCp, param_entry_size, update_table, find_entry, segment_at, get_segment, segment_count,
  Segment,
}
use pard_gem.SystemCp.Safety.{IsValid, update_table_total}
use pard_gem.SystemCp.Rows.{written, find_entry-written, update_table-written, find_entry-serves}

-- The two words of segment `idx` of row `r`: its base, then its size below its offset.
abbrev pub segment_words : SystemCp → ℕ → ℕ → ℕ → Segment → Result SystemCp
segment_words s caller r idx seg = do
  t ← update_table s caller (cfgtbl_addr cfgtbl_type_param r (24 + idx * 16)) seg.base
  update_table t caller (cfgtbl_addr cfgtbl_type_param r (32 + idx * 16))
      (seg.size + seg.offset * 2 ^ 32)

pub segment_at-put_at :
    (b : Block) (r idx : ℕ) (seg : Segment)
    → idx < segment_count
    → r * param_entry_size + param_entry_size ≤ length b
    → seg.base < 2 ^ 64
    → seg.size < 2 ^ 32
    → seg.offset < 2 ^ 32
    → segment_at
        (put_at 8
          (put_at 8 b (r * param_entry_size + (24 + idx * 16)) seg.base)
          (r * param_entry_size + (32 + idx * 16))
          (seg.size + seg.offset * 2 ^ 32))
        idx
        (some r)
      ≡ some seg
unfolding segment_at
segment_at-put_at b r idx seg small room hb hs ho =
    λ i. some (record { base = base_read i; size = size_read i; offset = offset_read i })
  where
    place : ℕ
    place = r * param_entry_size + 24 + idx * 16

    lo : ℕ
    lo = r * param_entry_size + (24 + idx * 16)

    hi : ℕ
    hi = r * param_entry_size + (32 + idx * 16)

    v : ℕ
    v = seg.size + seg.offset * 2 ^ 32

    low : Block
    low = put_at 8 b lo seg.base

    both : Block
    both = put_at 8 low hi v

    same_place : place ≡ lo
    same_place = omega arith

    room_hi : hi + 8 ≤ length low
    room_hi = omega (arith, length-put_at 8 b lo seg.base)

    base_read : word_at 8 both place ≡ seg.base
    base_read =
        word_at-put_at_below 8 8 low hi place v (omega arith)
        ∙ ap (word_at 8 low) same_place
        ∙ word_at-put_at_self 8 b lo seg.base (omega arith) hb

    size_read : word_at 4 both (place + 8) ≡ seg.size
    size_read =
        word_at-put_at_sub 4 8 low hi (place + 8) 0 v (omega arith) (omega arith) room_hi
        ∙ omega arith

    offset_read : word_at 4 both (place + 12) ≡ seg.offset
    offset_read =
        word_at-put_at_sub 4 8 low hi (place + 12) 4 v (omega arith) (omega arith) room_hi
        ∙ omega arith

get_segment-written :
    (s : SystemCp) (ds r idx : ℕ) (seg : Segment)
    → find_entry s ds ≡ some r
    → idx < segment_count
    → r * param_entry_size + param_entry_size ≤ length s.tables.params
    → seg.base < 2 ^ 64
    → seg.size < 2 ^ 32
    → seg.offset < 2 ^ 32
    → get_segment
        (written
          (written s r (24 + idx * 16) seg.base)
          r
          (32 + idx * 16)
          (seg.size + seg.offset * 2 ^ 32))
        ds
        idx
      ≡ ok (some seg)
unfolding get_segment
get_segment-written s ds r idx seg found hidx room hb hs ho =
    rw
      (
        lt→ltb idx segment_count hidx,
        find_entry-written (written s r (24 + idx * 16) seg.base) r (32 + idx * 16)
            (seg.size + seg.offset * 2 ^ 32) ds (omega arith) (omega arith),
        find_entry-written s r (24 + idx * 16) seg.base ds (omega arith) (omega arith),
        found,
      )
      (ap ok (segment_at-put_at s.tables.params r idx seg hidx room hb hs ho))

-- Programming a segment of the row that serves a domain: on a valid plane both writes succeed, and
-- `getSegment` then gives that domain the segment, with all its three fields.
pub get_segment-segment_words :
    (s : SystemCp) (caller ds r idx : ℕ) (seg : Segment)
    → IsValid s
    → find_entry s ds ≡ some r
    → r < 256
    → idx < segment_count
    → seg.base < 2 ^ 64
    → seg.size < 2 ^ 32
    → seg.offset < 2 ^ 32
    → (t : SystemCp) × (segment_words s caller r idx seg ≡ ok t)
      × (get_segment t ds idx ≡ ok (some seg))
get_segment-segment_words s caller ds r idx seg valid found small hidx hb hs ho =
    let row = (find_entry-serves s ds found).1 in
    let (t₁, e₁, valid₁) =
      update_table_total s caller (cfgtbl_addr cfgtbl_type_param r (24 + idx * 16)) seg.base
        valid in
    let (eq₁, _) =
      update_table-written s t₁ caller r (24 + idx * 16) seg.base small row (omega arith) e₁ in
    let v : ℕ = seg.size + seg.offset * 2 ^ 32 in
    let row₁ : r < t₁.param_table_entries = rw eq₁ row in
    let (t, e, _) =
      update_table_total t₁ caller (cfgtbl_addr cfgtbl_type_param r (32 + idx * 16)) v valid₁ in
    let (eq, _) = update_table-written t₁ t caller r (32 + idx * 16) v small row₁ (omega arith) e in
    let room : r * param_entry_size + param_entry_size ≤ length s.tables.params =
      omega (arith, row-mul-le s.param_table_entries param_entry_size r row) in
    (
      t,
      rw (e₁, ◌>>=◌) e,
      ap (λ (x : SystemCp). get_segment x ds idx)
            (eq ∙ ap (λ (x : SystemCp). written x r (32 + idx * 16) v) eq₁)
          ∙ get_segment-written s ds r idx seg found hidx room hb hs ho,
    )
