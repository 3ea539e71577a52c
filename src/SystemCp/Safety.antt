-- ===== src/SystemCp/Safety.antt =====
-- Memory safety of the system control plane's table accesses, and the contract of its tables.
use pard_gem.Prelude.{
  ℕ, ◌*◌, ◌^◌, ◌<◌, ◌<◌, ◌≡◌, refl, none, some, arith, Result, ok, fault, ◌>>=◌, length,
}
use pard_gem.Prm.Address.{cfgtbl_addr2row, cfgtbl_addr2offset}
use pard_gem.Prm.Tables.{
  Tables, Pointer, all_ones, IsInside, SameSizes, param_table, stat_table, entry_at-IsInside, query,
  update, query_inside, update_inside, query-update,
}
use pard_gem.SystemCp.{
  SystemCp, param_entry_size, stat_entry_size, system_info_size, config_mem_size, parse_cfgtbl,
  parse_addr, query_table, update_table,
}

-- Each block has the size that the constructor gives it.
pub record IsValid (s : SystemCp) : Type 0 where
  pub params : length s.tables.params ≡ s.param_table_entries * param_entry_size
  pub stats : length s.tables.stats ≡ s.stat_table_entries * stat_entry_size
  pub info : length s.tables.info ≡ system_info_size
  pub config : length s.tables.config ≡ config_mem_size

parse_cfgtbl-IsInside :
    (s : SystemCp) (addr : ℕ) → IsValid s → IsInside (parse_cfgtbl s addr) s.tables
unfolding parse_cfgtbl
parse_cfgtbl-IsInside s addr v = ground (
  arith,
  entry_at-IsInside s.tables param_table s.param_table_entries param_entry_size
      (cfgtbl_addr2row addr) (cfgtbl_addr2offset addr),
  entry_at-IsInside s.tables stat_table s.stat_table_entries stat_entry_size (cfgtbl_addr2row addr)
      (cfgtbl_addr2offset addr),
)

-- A pointer that `parseAddr` returns leaves room for its 64-bit word inside the block.
pub parse_addr-IsInside :
    (s : SystemCp) (addr : ℕ) → IsValid s → IsInside (parse_addr s addr) s.tables
unfolding parse_addr
parse_addr-IsInside s addr v = ground (arith, parse_cfgtbl-IsInside s addr v)

-- Only the blocks' contents change, so an address keeps its meaning.
pub parse_addr-tables :
    (s : SystemCp) (t : Tables) (addr : ℕ)
    → parse_addr (record s { tables = t }) addr ≡ parse_addr s addr
unfolding parse_addr
parse_addr-tables s t addr = refl

SameSizes-IsValid :
    (s : SystemCp) (t : Tables)
    → IsValid s
    → SameSizes s.tables t
    → IsValid (record s { tables = t })
SameSizes-IsValid s t v same = omega arith

-- Every query returns a word, and every update succeeds and keeps the blocks' sizes.
pub query_table_total :
    (s : SystemCp) (ds addr : ℕ) → IsValid s → (v : ℕ) × (query_table s ds addr ≡ ok v)
unfolding query_table
query_table_total s ds addr v =
    query_inside (parse_addr s addr) s.tables (parse_addr-IsInside s addr v)

pub update_table_total :
    (s : SystemCp) (ds addr v : ℕ)
    → IsValid s
    → (t : SystemCp) × (update_table s ds addr v ≡ ok t) × IsValid t
unfolding update_table
update_table_total s ds addr v valid =
    let (t, e, same) =
      update_inside (parse_addr s addr) v s.tables (parse_addr-IsInside s addr valid) in
    (record s { tables = t }, rw (e, ◌>>=◌), SameSizes-IsValid s t valid same)

-- What a query returns after `v` was written through the same pointer.
abbrev pub answer : Pointer → ℕ → ℕ
answer none v = all_ones
answer (some _) v = v

query-update-answer :
    (p : Pointer) (v : ℕ) (t u : Tables)
    → v < 2 ^ 64
    → update p v t ≡ ok u
    → query p u ≡ ok (answer p v)
unfolding query
query-update-answer none v t u lt e = refl
query-update-answer (some (space, place)) v t u lt e =
    unfold query in query-update space place v t lt e

pub update_table-eq :
    (s t : SystemCp) (ds addr v : ℕ)
    → update_table s ds addr v ≡ ok t
    → (u : Tables) × (update (parse_addr s addr) v s.tables ≡ ok u) × (t ≡ record s { tables = u })
unfolding update_table
update_table-eq s t ds addr v e = go (update (parse_addr s addr) v s.tables) refl e
  where
    go :
        (r : Result Tables)
        → update (parse_addr s addr) v s.tables ≡ r
        → (r >>= λ u. ok (record s { tables = u })) ≡ ok t
        → (u : Tables) × (update (parse_addr s addr) v s.tables ≡ ok u)
          × (t ≡ record s { tables = u })
    go (ok u) h k = (u, h, cc)
    go (fault f) h k = cc

-- On a valid plane, whatever the address and the DSid of the caller: an update succeeds and keeps
-- the plane valid, and a query at that address then returns the word that was written, or all ones
-- if the address names no word.
pub query_table-update_table :
    (s : SystemCp) (ds ds' addr v : ℕ)
    → IsValid s
    → v < 2 ^ 64
    → (t : SystemCp) × (update_table s ds addr v ≡ ok t)
      × IsValid t
      × (query_table t ds' addr ≡ ok (answer (parse_addr s addr) v))
query_table-update_table s ds ds' addr v valid lt =
    let (t, e, keeps) = update_table_total s ds addr v valid in
    let (u, w, same) = update_table-eq s t ds addr v e in
    (
      t,
      e,
      keeps,
      rw same (
          unfold query_table in
          rw parse_addr-tables (query-update-answer (parse_addr s addr) v s.tables u lt w)),
    )
