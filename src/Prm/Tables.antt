-- ===== src/Prm/Tables.antt =====
-- The blocks of memory that the control planes expose word by word, and the parts that their
-- `queryTable` and `updateTable` share: `*pdata` behind the pointer of `parseAddr`.
use pard_gem.Prelude.{
  ℕ, ◌+◌, ◌-◌, ◌*◌, ◌^◌, ◌≤◌, ◌<◌, ◌≡◌, ◌≢◌, ◌⊎◌, inl, inr, refl, Option, none, some, Result, ok,
  fault, ◌>>=◌, length, arith,
}
use pard_gem.Bytes.{
  Block, word_at, put_at, load, store, load-store, load-store_apart, length-store, load_in,
  store_in,
}
use pard_gem.Prm.Address.{entry_at, entry_at-in_row}

pub data Space : Type 0 where
  param_table stat_table system_info config_mem : Space

-- A plane that lacks one of the blocks has it empty.
pub record Tables : Type 0 where
  pub params : Block
  pub stats : Block
  pub info : Block
  pub config : Block

abbrev pub block : Tables → Space → Block
block t param_table = t.params
block t stat_table = t.stats
block t system_info = t.info
block t config_mem = t.config

abbrev pub set_block : Tables → Space → Block → Tables
set_block t param_table b = record t { params = b }
set_block t stat_table b = record t { stats = b }
set_block t system_info b = record t { info = b }
set_block t config_mem b = record t { config = b }

-- The pointer that `parseAddr` returns, `none` for NULL.
abbrev pub Pointer : Type 0
Pointer = Option (Space × ℕ)

abbrev pub in_space : Space → Option ℕ → Pointer
in_space space none = none
in_space space (some place) = some (space, place)

abbrev pub all_ones : ℕ
all_ones = 2 ^ 64 - 1

unfoldable pub query : Pointer → Tables → Result ℕ
query none t = ok all_ones
query (some (space, place)) t = load 8 (block t space) place

unfoldable pub update : Pointer → ℕ → Tables → Result Tables
update none v t = ok t
update (some (space, place)) v t = do b ← store 8 (block t space) place v; ok (set_block t space b)

-- A pointer to a word inside its block.
abbrev pub IsInside : Pointer → Tables → Type 0
IsInside none t = Unit {0}
IsInside (some (space, place)) t = place + 8 ≤ length (block t space)

-- A row that `parseAddr` finds lies in its table, if the entries have eight bytes or more.
pub entry_at-IsInside :
    (t : Tables) (space : Space) (rows size row offset : ℕ)
    → 8 ≤ size
    → size < 2 ^ 64
    → length (block t space) ≡ rows * size
    → IsInside (in_space space (entry_at rows size row offset)) t
entry_at-IsInside t space rows size row offset h lt e = go (entry_at rows size row offset) refl
  where
    go : (o : Option ℕ) → entry_at rows size row offset ≡ o → IsInside (in_space space o) t
    go none found = tt
    go (some place) found = omega (arith, entry_at-in_row rows size row offset h lt found)

-- Blocks of the same sizes.
pub record SameSizes (t u : Tables) : Type 0 where
  pub params : length u.params ≡ length t.params
  pub stats : length u.stats ≡ length t.stats
  pub info : length u.info ≡ length t.info
  pub config : length u.config ≡ length t.config

block-set_block : (t : Tables) (space : Space) (b : Block) → block (set_block t space b) space ≡ b
block-set_block t param_table b = refl
block-set_block t stat_table b = refl
block-set_block t system_info b = refl
block-set_block t config_mem b = refl

set_block-SameSizes :
    (t : Tables) (space : Space) (b : Block)
    → length b ≡ length (block t space)
    → SameSizes t (set_block t space b)
set_block-SameSizes t param_table b e = record {
  params = e;
  stats = refl;
  info = refl;
  config = refl;
}
set_block-SameSizes t stat_table b e = record {
  params = refl;
  stats = e;
  info = refl;
  config = refl;
}
set_block-SameSizes t system_info b e = record {
  params = refl;
  stats = refl;
  info = e;
  config = refl;
}
set_block-SameSizes t config_mem b e = record {
  params = refl;
  stats = refl;
  info = refl;
  config = e;
}

pub query_inside : (p : Pointer) (t : Tables) → IsInside p t → (v : ℕ) × (query p t ≡ ok v)
unfolding query
query_inside none t h = (all_ones, refl)
query_inside (some (space, place)) t h =
    (word_at 8 (block t space) place, load_in 8 (block t space) place h)

pub update_inside :
    (p : Pointer) (v : ℕ) (t : Tables)
    → IsInside p t
    → (u : Tables) × (update p v t ≡ ok u) × SameSizes t u
unfolding update
update_inside none v t h =
    (t, refl, record { params = refl; stats = refl; info = refl; config = refl })
update_inside (some (space, place)) v t h =
    let (b, e) = store_in 8 (block t space) place v h in
    (
      set_block t space b,
      rw (e, ◌>>=◌),
      set_block-SameSizes t space b (length-store 8 (block t space) place v e),
    )

-- The written block of a successful update through a pointer.
update-written :
    (space : Space) (place v : ℕ) (t : Tables) {u : Tables}
    → update (some (space, place)) v t ≡ ok u
    → (b : Block) × (store 8 (block t space) place v ≡ ok b) × (u ≡ set_block t space b)
unfolding update
update-written space place v t {u} e = go (store 8 (block t space) place v) refl e
  where
    go :
        (r : Result Block)
        → store 8 (block t space) place v ≡ r
        → (r >>= λ b. ok (set_block t space b)) ≡ ok u
        → (b : Block) × (store 8 (block t space) place v ≡ ok b) × (u ≡ set_block t space b)
    go (ok b) h k = (b, h, cc)
    go (fault f) h k = cc

-- What an update wrote is what a query reads.
pub query-update :
    (space : Space) (place v : ℕ) (t : Tables) {u : Tables}
    → v < 2 ^ 64
    → update (some (space, place)) v t ≡ ok u
    → query (some (space, place)) u ≡ ok v
unfolding query
query-update space place v t lt e =
    let (b, w, k) = update-written space place v t e in
    rw (k, block-set_block t space b) (load-store 8 (block t space) place v lt w)

block-set_block_ne :
    (t : Tables) (space other : Space) (b : Block)
    → space ≢ other
    → block (set_block t space b) other ≡ block t other
block-set_block_ne t param_table param_table b h = absurd (h refl)
block-set_block_ne t param_table stat_table b h = refl
block-set_block_ne t param_table system_info b h = refl
block-set_block_ne t param_table config_mem b h = refl
block-set_block_ne t stat_table param_table b h = refl
block-set_block_ne t stat_table stat_table b h = absurd (h refl)
block-set_block_ne t stat_table system_info b h = refl
block-set_block_ne t stat_table config_mem b h = refl
block-set_block_ne t system_info param_table b h = refl
block-set_block_ne t system_info stat_table b h = refl
block-set_block_ne t system_info system_info b h = absurd (h refl)
block-set_block_ne t system_info config_mem b h = refl
block-set_block_ne t config_mem param_table b h = refl
block-set_block_ne t config_mem stat_table b h = refl
block-set_block_ne t config_mem system_info b h = refl
block-set_block_ne t config_mem config_mem b h = absurd (h refl)

Space-discrete : Discrete Space
Space-discrete = hlevel

-- Two pointers to words that share no byte.
abbrev pub Apart : Space × ℕ → Space × ℕ → Type 0
Apart (s, i) (t, j) = (s ≢ t) ⊎ (j + 8 ≤ i) ⊎ (i + 8 ≤ j)

-- An update leaves every word alone that it does not overlap.
pub query-update-Apart :
    (space : Space) (place v : ℕ) (other : Space) (there : ℕ) (t : Tables) {u : Tables}
    → Apart (space, place) (other, there)
    → update (some (space, place)) v t ≡ ok u
    → query (some (other, there)) u ≡ query (some (other, there)) t
unfolding query
query-update-Apart space place v other there t (inl ne) e =
    let (b, w, k) = update-written space place v t e in
    rw (k, block-set_block_ne t space other b ne)
query-update-Apart space place v other there t (inr h) e =
    let (b, w, k) = update-written space place v t e in
    elim (Space-discrete space other) [
      | yes same ↦
          rw (k, ← same, block-set_block t space b)
            (load-store_apart 8 8 (block t space) place there v w h)
      | no ne ↦ rw (k, block-set_block_ne t space other b ne)
    ]

-- An update through a pointer into the parameter table.
pub update-param_table :
    (place v : ℕ) (t : Tables) {u : Tables}
    → update (some (param_table, place)) v t ≡ ok u
    → (u ≡ record t { params = put_at 8 t.params place v }) × (place + 8 ≤ length t.params)
unfolding update store
update-param_table place v t e = ground arith
