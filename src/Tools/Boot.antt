-- ===== src/Tools/Boot.antt =====
-- What the loader leaves in the system control plane for the domain that boots.
use pard_gem.Prelude.{
  ℕ, zero, suc, ◌+◌, ◌*◌, ◌%◌, ◌^◌, ◌≤◌, ◌<◌, ◌≡◌, refl, ap, ◌∙◌, inl, inr, List, [], ◌∷◌, some,
  arith, ok, ◌>>=◌, length, get_elem?, get_elem?-lt,
}
use pard_gem.Prm.Tables.{query}
use pard_gem.SystemCp.{SystemCp, Segment, segment_count, query_table, get_segment, get_cpu_mask}
use pard_gem.SystemCp.Safety.{IsValid}
use pard_gem.SystemCp.FirstRow.{
  HasRow, write_word, segment_of, segment_of-kept, segment_of-set, valid_word, config-kept,
  find_entry-valid_word, get_segment-segment_of, get_cpu_mask-first,
}
use pard_gem.Tools.Loader.{
  LoadSegment, round_size, round_sizes, loader_ds_id, write_segment_table, write_param_row,
  load_bios,
}
use pard_gem.Tools.ConfigMemory.{
  config_word, parse_addr-config, Placed, IsWhole, Whole, total_size, load_config_lem,
}

-- The segment that the plane is to hold.
abbrev pub entry : LoadSegment → Segment
entry seg = record { base = seg.base; size = seg.size; offset = seg.offset }

-- The fields fit into the plane's.
abbrev pub Fields : List LoadSegment → Type 0
Fields [] = Unit {0}
Fields (seg ∷ segs) =
    ((seg.base < 2 ^ 64) × (seg.size < 2 ^ 32) × (seg.offset < 2 ^ 32)) × Fields segs

-- What holds of the head at 0 and of the tail from 1 on holds of each element at its place.
by_place :
    (P : ℕ → LoadSegment → Type 0) (seg : LoadSegment) (segs : List LoadSegment)
    → P 0 seg
    → ((k : ℕ) (x : LoadSegment) → get_elem? segs k ≡ some x → P (suc k) x)
    → (k : ℕ) (x : LoadSegment) → get_elem? (seg ∷ segs) k ≡ some x
    → P k x
by_place P seg segs here later zero x e = let same : seg ≡ x = cc in rw (← same) here
by_place P seg segs here later (suc k) x e = later k x e

write_segment_table_lem :
    (segs : List LoadSegment) (s : SystemCp) (j : ℕ)
    → HasRow s
    → Fields segs
    → j + length segs ≤ segment_count
    → (t : SystemCp) × (write_segment_table segs s (24 + j * 16) ≡ ok t)
      × HasRow t
      × (t.tables.config ≡ s.tables.config)
      × ((k : ℕ) → k < j → segment_of t k ≡ segment_of s k)
      × ((k : ℕ) (seg : LoadSegment)
          → get_elem? segs k ≡ some seg
          → segment_of t (j + k) ≡ some (entry seg))
unfolding write_segment_table
write_segment_table_lem [] s j has fields few = (s, refl, has, refl, λ k lt. refl, λ k seg e. cc)
write_segment_table_lem (seg ∷ segs) s j has ((hb, hs, ho), fields) few =
    let v = seg.size + seg.offset * 2 ^ 32 in
    let (t₁, e₁, w₁) = write_word s loader_ds_id (24 + j * 16) seg.base has (omega arith) in
    let (t₂, e₂, w₂) = write_word t₁ loader_ds_id (32 + j * 16) v w₁.has_row (omega arith) in
    let (t, e, has_t, config, below, above) =
      write_segment_table_lem segs t₂ (suc j) w₂.has_row fields (omega arith) in
    let at : (24 + j * 16) % 2 ^ 10 ≡ 24 + j * 16 = omega arith in
    let at' : (24 + j * 16 + 8) % 2 ^ 10 ≡ 32 + j * 16 = omega arith in
    let next : 24 + j * 16 + 16 ≡ 24 + suc j * 16 = omega arith in
    let here = segment_of-set s t₁ t₂ j (entry seg) has (omega arith) w₁ w₂ hb hs ho in
    (
      t,
      rw (at, at', e₁, ◌>>=◌, e₂, ◌>>=◌, next) e,
      has_t,
      config ∙ config-kept t₁ t₂ (32 + j * 16) v w₂ ∙ config-kept s t₁ (24 + j * 16) seg.base w₁,
      λ k lt.
          below k (omega arith)
          ∙ segment_of-kept t₁ t₂ k (32 + j * 16) v w₂ (inr (omega arith))
          ∙ segment_of-kept s t₁ k (24 + j * 16) seg.base w₁ (inr (omega arith)),
      by_place (λ k x. segment_of t (j + k) ≡ some (entry x)) seg segs
          (rw (let q : j + 0 ≡ j = omega arith in q) (below j (omega arith) ∙ here))
          (λ k x e. rw (let q : j + suc k ≡ suc j + k = omega arith in q) (above k x e)),
    )

-- The words of the configuration memory are where an equal memory has them.
config_word-eq :
    (s t : SystemCp) (ds place : ℕ)
    → t.tables.config ≡ s.tables.config
    → place + 8 ≤ 2 ^ 24
    → config_word t ds place ≡ config_word s ds place
unfolding query_table query
config_word-eq s t ds place same room =
    rw (parse_addr-config t place room, parse_addr-config s place room, same) refl

write_param_row_lem :
    (segs : List LoadSegment) (s : SystemCp)
    → HasRow s
    → Fields segs
    → length segs ≤ segment_count
    → (t : SystemCp) × (write_param_row segs s ≡ ok t)
      × IsValid t
      × (t.tables.config ≡ s.tables.config)
      × ((k : ℕ) (seg : LoadSegment)
          → get_elem? segs k ≡ some seg
          → k < segment_count
          → get_segment t loader_ds_id k ≡ ok (some (entry seg)))
      × (get_cpu_mask t loader_ds_id ≡ some 1)
unfolding write_param_row
write_param_row_lem segs s has fields few =
    let (t₁, e₁, has₁, config, _, held) =
      write_segment_table_lem segs s 0 has fields (omega arith) in
    let (t₂, e₂, w₂) = write_word t₁ loader_ds_id 8 1 has₁ (omega arith) in
    let (t, e, w) = write_word t₂ loader_ds_id 0 valid_word w₂.has_row (omega arith) in
    (
      t,
      rw (e₁, ◌>>=◌, e₂, ◌>>=◌) e,
      w.has_row.valid,
      config-kept t₂ t 0 valid_word w ∙ config-kept t₁ t₂ 8 1 w₂ ∙ config,
      (λ k seg found small.
          get_segment-segment_of t loader_ds_id k (find_entry-valid_word t₂ t w) small
          ∙ ap ok (
              segment_of-kept t₂ t k 0 valid_word w (inl (omega arith))
              ∙ segment_of-kept t₁ t₂ k 8 1 w₂ (inl (omega arith))
              ∙ rw (let q : k ≡ 0 + k = omega arith in q) (held k seg found))),
      get_cpu_mask-first t₁ t₂ t 1 w₂ w (omega arith),
    )

-- The memory behind the pointer is as large as the rounded size, and the base has 64 bits.
abbrev pub Loadable : List LoadSegment → Type 0
Loadable [] = Unit {0}
Loadable (seg ∷ segs) =
    (((round_size seg).size ≤ length seg.ptr) × (seg.base < 2 ^ 64)) × Loadable segs

round_size-IsWhole :
    (seg : LoadSegment)
    → (round_size seg).size ≤ length seg.ptr
    → IsWhole (round_size seg) × ((round_size seg).base ≡ seg.base)
round_size-IsWhole seg held = ground arith

round_sizes-Whole : (segs : List LoadSegment) → Loadable segs → Whole (round_sizes segs)
unfolding Whole
round_sizes-Whole [] l = tt
round_sizes-Whole (seg ∷ segs) ((held, base), l) =
    ((round_size-IsWhole seg held).0, round_sizes-Whole segs l)

length-Placed :
    (ds : ℕ) (t : SystemCp) (o : ℕ) (segs segs' : List LoadSegment)
    → Placed ds t o (round_sizes segs) segs'
    → length segs' ≡ length segs
unfolding Placed
length-Placed ds t o [] [] p = refl
length-Placed ds t o (seg ∷ segs) (seg' ∷ segs') (same, copied, p) =
    let e = length-Placed ds t (o + (round_size seg).size) segs segs' p in omega arith
length-Placed ds t o [] (seg' ∷ segs') p = absurd p
length-Placed ds t o (seg ∷ segs) [] p = absurd p

Placed-Fields :
    (ds : ℕ) (t : SystemCp) (o : ℕ) (segs segs' : List LoadSegment)
    → Loadable segs
    → o + total_size (round_sizes segs) ≤ 2 ^ 24
    → Placed ds t o (round_sizes segs) segs'
    → Fields segs'
unfolding Placed total_size
Placed-Fields ds t o [] [] l room p = tt
Placed-Fields ds t o (seg ∷ segs) (seg' ∷ segs') ((held, base), l) room (same, copied, p) =
    let e = (round_size-IsWhole seg held).1 in
    (
      rw same (omega arith, omega arith, omega arith),
      Placed-Fields ds t (o + (round_size seg).size) segs segs' l (omega arith) p,
    )
Placed-Fields ds t o [] (seg' ∷ segs') l room p = absurd p
Placed-Fields ds t o (seg ∷ segs) [] l room p = absurd p

Placed-eq :
    (ds : ℕ) (t u : SystemCp) (o : ℕ) (segs segs' : List LoadSegment)
    → u.tables.config ≡ t.tables.config
    → o + total_size segs ≤ 2 ^ 24
    → Placed ds t o segs segs'
    → Placed ds u o segs segs'
unfolding Placed total_size
Placed-eq ds t u o [] [] same room p = tt
Placed-eq ds t u o (seg ∷ segs) (seg' ∷ segs') same room (e, copied, p) = (
  e,
  (λ k lt. config_word-eq t u ds (o + k * 8) same (omega arith) ∙ copied k lt),
  Placed-eq ds t u (o + seg.size) segs segs' same (omega arith) p,
)
Placed-eq ds t u o [] (seg' ∷ segs') same room p = absurd p
Placed-eq ds t u o (seg ∷ segs) [] same room p = absurd p

-- The loader on a valid plane with a row, for at most four segments that their memory holds and
-- that together, with rounded sizes, fit into the configuration memory. Every write succeeds. The
-- segments lie in that memory one behind the other, with their data, and for the domain 0xF0F0 the
-- plane then returns segment `k`, with the base and the rounded size of the source and the offset
-- of its data, and the mask of the first processor alone.
pub load_bios_lem :
    (ds k : ℕ) (segs : List LoadSegment) (s : SystemCp)
    → HasRow s
    → Loadable segs
    → k < length segs
    → length segs ≤ segment_count
    → total_size (round_sizes segs) ≤ 2 ^ 24
    → (segs' : List LoadSegment) × (t : SystemCp) × (load_bios segs s ≡ ok (segs', t))
      × IsValid t
      × Placed ds t 0 (round_sizes segs) segs'
      × ((seg : LoadSegment) × (get_elem? segs' k ≡ some seg)
          × (get_segment t loader_ds_id k ≡ ok (some (entry seg))))
      × (get_cpu_mask t loader_ds_id ≡ some 1)
unfolding load_bios
load_bios_lem ds k segs s has l place few room =
    let whole = round_sizes-Whole segs l in
    let (segs', t₁, e₁, has₁, placed) = load_config_lem ds segs s has whole room in
    let fields = Placed-Fields ds t₁ 0 segs segs' l (omega arith) placed in
    let few' = length-Placed ds t₁ 0 segs segs' placed in
    let (t, e, valid, config, segments, mask) =
      write_param_row_lem segs' t₁ has₁ fields (omega arith) in
    let (seg, found) = get_elem?-lt segs' k (omega arith) in
    (
      segs',
      t,
      rw (e₁, ◌>>=◌, e, ◌>>=◌) refl,
      valid,
      Placed-eq ds t₁ t 0 (round_sizes segs) segs' config (omega arith) placed,
      (seg, found, segments k seg found (omega arith)),
      mask,
    )
