-- ===== src/SystemCp/FirstRow.antt =====
-- The first row of the parameter table, written word by word.
use pard_gem.Prelude.{
  ℕ, ◌+◌, ◌*◌, ◌/◌, ◌%◌, ◌^◌, ◌≤◌, ◌<◌, ◌≡◌, refl, ap, ap₂, ◌∙◌, ◌⊎◌, inl, inr, true, ◌&&◌, Option,
  some, arith, ok, length, lt→ltb, ◌==◌,
}
use pard_gem.Bytes.{
  Block, word_at, put_at, word_at-put_at_below, word_at-put_at_above, word_at-put_at_sub,
  word_at-put_at_self,
}
use pard_gem.Prm.Address.{cfgtbl_type_param, cfgtbl_addr, row-mul-le}
use pard_gem.Prm.Rows.{first_row_complete}
use pard_gem.SystemCp.{
  SystemCp, Segment, param_entry_size, update_table, row_serves, find_entry, segment_at,
  segment_count, get_segment, get_cpu_mask, cpu_mask_at,
}
use pard_gem.SystemCp.Safety.{IsValid, update_table_total}
use pard_gem.SystemCp.Rows.{written, update_table-written}
use pard_gem.SystemCp.Segments.{segment_at-put_at}

-- The segment that the first row has, whomever it serves.
pub segment_of : SystemCp → ℕ → Option Segment
unfolding segment_at
segment_of s k = segment_at s.tables.params k (some 0)

-- A plane with a first row.
pub record HasRow (s : SystemCp) : Type 0 where
  pub valid : IsValid s
  pub row : 0 < s.param_table_entries

-- After the write nothing but a word of the first row differs.
pub record Rewritten (s t : SystemCp) (o v : ℕ) : Type 0 where
  pub has_row : HasRow t
  pub same : t ≡ written s 0 o v
  pub room : o + 8 ≤ length s.tables.params

pub write_word :
    (s : SystemCp) (ds o v : ℕ)
    → HasRow s
    → o + 8 ≤ param_entry_size
    → (t : SystemCp) × (update_table s ds (cfgtbl_addr cfgtbl_type_param 0 o) v ≡ ok t)
      × Rewritten s t o v
write_word s ds o v has h =
    let addr = cfgtbl_addr cfgtbl_type_param 0 o in
    let (t, e, valid) = update_table_total s ds addr v has.valid in
    let (same, room) = update_table-written s t ds 0 o v (omega arith) has.row h e in
    let kept : t.param_table_entries ≡ s.param_table_entries =
      ap (λ (x : SystemCp). x.param_table_entries) same in
    let row = has.row in
    (
      t,
      e,
      record {
        has_row = record { valid = valid; row = omega arith };
        same = same;
        room = omega arith;
      },
    )

pub config-kept : (s t : SystemCp) (o v : ℕ) → Rewritten s t o v → t.tables.config ≡ s.tables.config
config-kept s t o v w = ap (λ (x : SystemCp). x.tables.config) w.same

segment_at-kept :
    (b : Block) (k o v : ℕ)
    → (o + 8 ≤ 24 + k * 16) ⊎ (40 + k * 16 ≤ o)
    → segment_at (put_at 8 b (0 * param_entry_size + o) v) k (some 0) ≡ segment_at b k (some 0)
unfolding segment_at
segment_at-kept b k o v apart = λ i. some (record {
  base = keeps 8 (0 * param_entry_size + 24 + k * 16) (omega arith) (omega arith) i;
  size = keeps 4 (0 * param_entry_size + 24 + k * 16 + 8) (omega arith) (omega arith) i;
  offset = keeps 4 (0 * param_entry_size + 24 + k * 16 + 12) (omega arith) (omega arith) i;
})
  where
    keeps :
        (w j : ℕ)
        → 24 + k * 16 ≤ j
        → j + w ≤ 40 + k * 16
        → word_at w (put_at 8 b (0 * param_entry_size + o) v) j ≡ word_at w b j
    keeps w j lo hi = by_side apart
      where
        by_side :
            (o + 8 ≤ 24 + k * 16) ⊎ (40 + k * 16 ≤ o)
            → word_at w (put_at 8 b (0 * param_entry_size + o) v) j ≡ word_at w b j
        by_side (inl before) =
            word_at-put_at_above w 8 b (0 * param_entry_size + o) j v (omega arith)
        by_side (inr after) =
            word_at-put_at_below w 8 b (0 * param_entry_size + o) j v (omega arith)

pub segment_of-kept :
    (s t : SystemCp) (k o v : ℕ)
    → Rewritten s t o v
    → (o + 8 ≤ 24 + k * 16) ⊎ (40 + k * 16 ≤ o)
    → segment_of t k ≡ segment_of s k
unfolding segment_of
segment_of-kept s t k o v w apart =
    ap (λ (x : SystemCp). segment_at x.tables.params k (some 0)) w.same
    ∙ segment_at-kept s.tables.params k o v apart

pub segment_of-set :
    (s t u : SystemCp) (k : ℕ) (seg : Segment)
    → HasRow s
    → k < segment_count
    → Rewritten s t (24 + k * 16) seg.base
    → Rewritten t u (32 + k * 16) (seg.size + seg.offset * 2 ^ 32)
    → seg.base < 2 ^ 64
    → seg.size < 2 ^ 32
    → seg.offset < 2 ^ 32
    → segment_of u k ≡ some seg
unfolding segment_of
segment_of-set s t u k seg has small w w' hb hs ho =
    let o : ℕ = 32 + k * 16 in
    let v : ℕ = seg.size + seg.offset * 2 ^ 32 in
    let entries = has.row in
    let sizes = has.valid.params in
    let room : 0 * param_entry_size + param_entry_size ≤ length s.tables.params =
      omega (arith, row-mul-le s.param_table_entries param_entry_size 0 entries) in
    ap (λ (x : SystemCp). segment_at x.tables.params k (some 0))
      (w'.same ∙ ap (λ (x : SystemCp). written x 0 o v) w.same)
    ∙ segment_at-put_at s.tables.params 0 k seg small room hb hs ho

-- `DSid` 0xF0F0 below `FLAG_VALID`.
abbrev pub valid_word : ℕ
valid_word = 0x8000F0F0

row_serves-valid_word :
    (s : SystemCp)
    → 8 ≤ length s.tables.params
    → row_serves (written s 0 0 valid_word) 0xF0F0 0 ≡ true
unfolding row_serves
row_serves-valid_word s room =
    ap₂ (λ flags id. flags / 2 ^ 15 % 2 == 1 && id == 0xF0F0)
      (word_at-put_at_sub 2 8 s.tables.params (0 * param_entry_size + 0) (0 * param_entry_size + 2)
        2 valid_word refl (omega arith) room)
      (word_at-put_at_sub 2 8 s.tables.params (0 * param_entry_size + 0) (0 * param_entry_size) 0
        valid_word refl (omega arith) room)

pub find_entry-valid_word :
    (s t : SystemCp) → Rewritten s t 0 valid_word → find_entry t 0xF0F0 ≡ some 0
unfolding find_entry
find_entry-valid_word s t w =
    let row = w.has_row.row in
    first_row_complete (row_serves t 0xF0F0) t.param_table_entries 0 0 (omega arith) (omega arith)
      (ap (λ (x : SystemCp). row_serves x 0xF0F0 0) w.same
        ∙ row_serves-valid_word s (let room = w.room in omega arith))
      (λ j lo hi. absurd (omega arith))

pub get_segment-segment_of :
    (s : SystemCp) (ds k : ℕ)
    → find_entry s ds ≡ some 0
    → k < segment_count
    → get_segment s ds k ≡ ok (segment_of s k)
unfolding get_segment segment_of
get_segment-segment_of s ds k found small = rw (lt→ltb k segment_count small, found) refl

-- The mask that is written before the word that makes the row valid.
pub get_cpu_mask-first :
    (s t u : SystemCp) (mask : ℕ)
    → Rewritten s t 8 mask
    → Rewritten t u 0 valid_word
    → mask < 2 ^ 64
    → get_cpu_mask u 0xF0F0 ≡ some mask
unfolding get_cpu_mask cpu_mask_at
get_cpu_mask-first s t u mask w w' lt =
    let room = w.room in
    ap (cpu_mask_at u.tables.params) (find_entry-valid_word t u w')
    ∙ ap some (
        ap (λ (x : SystemCp). word_at 8 x.tables.params 8) w'.same
        ∙ word_at-put_at_above 8 8 t.tables.params 0 8 valid_word (omega arith)
        ∙ ap (λ (x : SystemCp). word_at 8 x.tables.params 8) w.same
        ∙ word_at-put_at_self 8 s.tables.params 8 mask (omega arith) lt)
