-- ===== src/Tools/ConfigMemory.antt =====
-- The loader's segments in the configuration memory.
use pard_gem.Prelude.{
  ℕ, zero, suc, ◌+◌, ◌-◌, ◌*◌, ◌/◌, ◌%◌, ◌^◌, ◌≤◌, ◌<◌, ◌≡◌, refl, ap, ◌∙◌, ◌⊎◌, inl, inr, List, [],
  ◌∷◌, some, arith, Result, ok, ◌>>=◌, length, ℕ_discrete, subst,
}
use pard_gem.Bytes.{Block, word_at, load_in}
use pard_gem.Prm.Tables.{config_mem, query-update-Apart}
use pard_gem.SystemCp.{SystemCp, parse_addr, query_table, update_table}
use pard_gem.SystemCp.Safety.{update_table-eq, query_table-update_table, parse_addr-tables}
use pard_gem.SystemCp.FirstRow.{HasRow}
use pard_gem.Tools.Loader.{
  LoadSegment, cfgmem_addr, round_sizes, write_qwords, write_config_memory, write_segments,
  load_config,
}

-- The word of the configuration memory at a place.
abbrev pub config_word : SystemCp → ℕ → ℕ → Result ℕ
config_word s ds place = query_table s ds (cfgmem_addr place)

pub parse_addr-config :
    (s : SystemCp) (place : ℕ)
    → place + 8 ≤ 2 ^ 24
    → parse_addr s (cfgmem_addr place) ≡ some (config_mem, place)
unfolding parse_addr
parse_addr-config s place room = ground arith

update_config :
    (s : SystemCp) (ds place v : ℕ)
    → HasRow s
    → place + 8 ≤ 2 ^ 24
    → v < 2 ^ 64
    → (t : SystemCp) × (update_table s 0 (cfgmem_addr place) v ≡ ok t)
      × HasRow t
      × (config_word t ds place ≡ ok v)
      × ((other : ℕ)
          → other + 8 ≤ 2 ^ 24
          → (place + 8 ≤ other) ⊎ (other + 8 ≤ place)
          → config_word t ds other ≡ config_word s ds other)
unfolding query_table
update_config s ds place v valid room lt =
    let (t, e, valid_t, back) =
      query_table-update_table s 0 ds (cfgmem_addr place) v valid.valid lt in
    let (u, w, same) = update_table-eq s t 0 (cfgmem_addr place) v e in
    let here = parse_addr-config s place room in
    let row = valid.row in
    let kept : t.param_table_entries ≡ s.param_table_entries =
      ap (λ (x : SystemCp). x.param_table_entries) same in
    (
      t,
      e,
      record { valid = valid_t; row = omega arith },
      back ∙ rw here refl,
      λ other room' apart.
          let there = parse_addr-config s other room' in
          rw (same, parse_addr-tables s u (cfgmem_addr other), there)
            (query-update-Apart config_mem place v config_mem other s.tables (inr (swap apart))
              (rw (← here) w)),
    )
  where
    swap : {a b : Type 0} → a ⊎ b → b ⊎ a
    swap (inl x) = inr x
    swap (inr y) = inl y

-- The words outside the bytes from `from` to `to` are as before.
abbrev pub Kept : ℕ → ℕ → ℕ → SystemCp → SystemCp → Type 0
Kept ds from to s t =
    (other : ℕ)
    → other + 8 ≤ 2 ^ 24
    → (to ≤ other) ⊎ (other + 8 ≤ from)
    → config_word t ds other ≡ config_word s ds other

-- The `n` words from `from` on are those of the buffer from `offset` on.
abbrev pub Copied : ℕ → ℕ → ℕ → Block → ℕ → SystemCp → Type 0
Copied ds n from buf offset t =
    (k : ℕ) → k < n → config_word t ds (from + k * 8) ≡ ok (word_at 8 buf (offset + k * 8) % 2 ^ 64)

widen :
    {other from to from' to' : ℕ}
    → (to ≤ other) ⊎ (other + 8 ≤ from)
    → to' ≤ to
    → from ≤ from'
    → (to' ≤ other) ⊎ (other + 8 ≤ from')
widen (inl after) hi lo = inl (omega arith)
widen (inr before) hi lo = inr (omega arith)

write_qwords_lem :
    (ds n : ℕ) (s : SystemCp) (base : ℕ) (buf : Block) (offset : ℕ)
    → HasRow s
    → base + offset + n * 8 ≤ 2 ^ 24
    → offset + n * 8 ≤ length buf
    → (t : SystemCp) × (write_qwords n s base buf offset ≡ ok t)
      × HasRow t
      × Copied ds n (base + offset) buf offset t
      × Kept ds (base + offset) (base + offset + n * 8) s t
unfolding write_qwords
write_qwords_lem ds zero s base buf offset valid room inside =
    (s, refl, valid, λ k lt. absurd (omega arith), λ other room' apart. refl)
write_qwords_lem ds (suc n) s base buf offset valid room inside =
    let v = word_at 8 buf offset % 2 ^ 64 in
    let (s₁, e₁, valid₁, back, kept₁) =
      update_config s ds (base + offset) v valid (omega arith) (omega arith) in
    let (t, e, valid_t, copied, kept) =
      write_qwords_lem ds n s₁ base buf (offset + 8) valid₁ (omega arith) (omega arith) in
    let first = kept (base + offset) (omega arith) (inr (omega arith)) ∙ back in
    (
      t,
      rw (load_in 8 buf offset (omega arith), ◌>>=◌, e₁, ◌>>=◌) e,
      valid_t,
      λ k lt. elim (ℕ_discrete k 0) [
        | yes q ↦
            let here : base + offset ≡ base + offset + k * 8 = omega arith in
            let there : offset ≡ offset + k * 8 = omega arith in rw (← here, ← there) first
        | no ne ↦
            let here : base + (offset + 8) + (k - 1) * 8 ≡ base + offset + k * 8 = omega arith in
            let there : offset + 8 + (k - 1) * 8 ≡ offset + k * 8 = omega arith in
            rw (← here, ← there) (copied (k - 1) (omega arith))
      ],
      λ other room' apart.
          kept other room' (widen apart (omega arith) (omega arith))
          ∙ kept₁ other room' (widen apart (omega arith) (omega arith)),
    )

-- A rounded segment that its memory holds.
abbrev pub IsWhole : LoadSegment → Type 0
IsWhole seg = (seg.size % 8 ≡ 0) × (seg.size ≤ length seg.ptr)

-- The segments lie one behind the other from `offset` on, each with its data in the memory.
unfoldable pub Placed : ℕ → SystemCp → ℕ → List LoadSegment → List LoadSegment → Type 0
Placed ds t offset [] [] = Unit {0}
Placed ds t offset (seg ∷ segs) (seg' ∷ segs') =
    (seg' ≡ record seg { offset = offset })
    × Copied ds (seg.size / 8) offset seg.ptr 0 t
    × Placed ds t (offset + seg.size) segs segs'
Placed ds t offset _ _ = ⊥

unfoldable pub Whole : List LoadSegment → Type 0
Whole [] = Unit {0}
Whole (seg ∷ segs) = IsWhole seg × Whole segs

unfoldable pub total_size : List LoadSegment → ℕ
total_size [] = 0
total_size (seg ∷ segs) = seg.size + total_size segs

write_config_memory_lem :
    (ds : ℕ) (s : SystemCp) (base : ℕ) (seg : LoadSegment)
    → HasRow s
    → IsWhole seg
    → base + seg.size ≤ 2 ^ 24
    → (t : SystemCp) × (write_config_memory s base seg.ptr seg.size ≡ ok t)
      × HasRow t
      × Copied ds (seg.size / 8) base seg.ptr 0 t
      × Kept ds base (base + seg.size) s t
unfolding write_config_memory
write_config_memory_lem ds s base seg valid (whole, held) room =
    let (t, e, valid_t, copied, kept) =
      write_qwords_lem ds (seg.size / 8) s base seg.ptr 0 valid (omega arith) (omega arith) in
    let from : base + 0 ≡ base = omega arith in
    (
      t,
      rw whole e,
      valid_t,
      subst (λ x. Copied ds (seg.size / 8) x seg.ptr 0 t) from copied,
      λ other room' apart. kept other room' (widen apart (omega arith) (omega arith)),
    )

write_segments_lem :
    (ds : ℕ) (segs : List LoadSegment) (s : SystemCp) (offset : ℕ)
    → HasRow s
    → Whole segs
    → offset + total_size segs ≤ 2 ^ 24
    → (segs' : List LoadSegment) × (t : SystemCp) × (write_segments segs s offset ≡ ok (segs', t))
      × HasRow t
      × Placed ds t offset segs segs'
      × Kept ds offset (offset + total_size segs) s t
unfolding write_segments Placed Whole total_size
write_segments_lem ds [] s offset valid whole room =
    ([], s, refl, valid, tt, λ other room' apart. refl)
write_segments_lem ds (seg ∷ segs) s offset valid (whole, rest) room =
    let (s₁, e₁, valid₁, copied, kept₁) =
      write_config_memory_lem ds s offset seg valid whole (omega arith) in
    let (segs', t, e, valid_t, placed, kept) =
      write_segments_lem ds segs s₁ (offset + seg.size) valid₁ rest (omega arith) in
    let wrap : (offset + seg.size) % 2 ^ 32 ≡ offset + seg.size = omega arith in
    (
      record seg { offset = offset } ∷ segs',
      t,
      rw (e₁, ◌>>=◌, wrap, e, ◌>>=◌) refl,
      valid_t,
      (
        refl,
        (λ k lt. kept (offset + k * 8) (omega arith) (inr (omega arith)) ∙ copied k lt),
        placed,
      ),
      λ other room' apart.
          kept other room' (widen apart (omega arith) (omega arith))
          ∙ kept₁ other room' (widen apart (omega arith) (omega arith)),
    )

pub load_config_lem :
    (ds : ℕ) (segs : List LoadSegment) (s : SystemCp)
    → HasRow s
    → Whole (round_sizes segs)
    → total_size (round_sizes segs) ≤ 2 ^ 24
    → (segs' : List LoadSegment) × (t : SystemCp) × (load_config segs s ≡ ok (segs', t))
      × HasRow t
      × Placed ds t 0 (round_sizes segs) segs'
unfolding load_config
load_config_lem ds segs s valid whole room =
    let (segs', t, e, valid_t, placed, kept) =
      write_segments_lem ds (round_sizes segs) s 0 valid whole (omega arith) in
    (segs', t, e, valid_t, placed)
