-- ===== src/IchCp/Safety.antt =====
-- Memory safety of the south bridge's table, and its contract as a table behind a connector.
use pard_gem.Prelude.{
  ℕ, ◌*◌, ◌^◌, ◌<◌, ◌≡◌, ◌≢◌, refl, none, some, arith, ok, ◌>>=◌, bind_ok, length,
}
use pard_gem.Prm.Address.{cfgtbl_addr2row, cfgtbl_addr2offset}
use pard_gem.Prm.ControlPlane.{ControlPlane, IsTable}
use pard_gem.Prm.Tables.{
  Tables, Pointer, IsInside, param_table, entry_at-IsInside, query, update, query_inside,
  update_inside, query-update,
}
use pard_gem.IchCp.{IchCp, param_entry_size, parse_addr, query_table, update_table}

-- The block has the size that the constructor gives it.
pub record IsValid (s : IchCp) : Type 0 where
  pub params : length s.tables.params ≡ s.param_table_entries * param_entry_size

parse_addr-IsInside : (s : IchCp) (addr : ℕ) → IsValid s → IsInside (parse_addr s addr) s.tables
unfolding parse_addr
parse_addr-IsInside s addr v = ground (
  arith,
  entry_at-IsInside s.tables param_table s.param_table_entries param_entry_size
      (cfgtbl_addr2row addr) (cfgtbl_addr2offset addr),
)

parse_addr-tables :
    (s : IchCp) (t : Tables) (addr : ℕ)
    → parse_addr (record s { tables = t }) addr ≡ parse_addr s addr
unfolding parse_addr
parse_addr-tables s t addr = refl

update_table_total :
    (s : IchCp) (ds addr v : ℕ)
    → IsValid s
    → (t : IchCp) × (update_table s ds addr v ≡ ok t) × IsValid t
unfolding update_table
update_table_total s ds addr v valid =
    let (t, e, same) =
      update_inside (parse_addr s addr) v s.tables (parse_addr-IsInside s addr valid) in
    (
      record s { tables = t },
      rw (e, ◌>>=◌),
      record { params = omega (arith, same.params, valid.params) },
    )

-- The addresses that name a word.
abbrev pub IsKnown : IchCp → ℕ → Type 0
IsKnown s addr = parse_addr s addr ≢ none

query-update-known :
    (p : Pointer) (v : ℕ) (t u : Tables)
    → p ≢ none
    → v < 2 ^ 64
    → update p v t ≡ ok u
    → query p u ≡ ok v
query-update-known none v t u known lt e = absurd (known refl)
query-update-known (some (space, place)) v t u known lt e = query-update space place v t lt e

reads_back :
    (s t : IchCp) (ds ds' addr v : ℕ)
    → IsValid s
    → IsKnown s addr
    → v < 2 ^ 64
    → update_table s ds addr v ≡ ok t
    → query_table t ds' addr ≡ ok v
unfolding update_table query_table
reads_back s t ds ds' addr v valid known lt e =
    let (u, w, last) =
      bind_ok (update (parse_addr s addr) v s.tables) (λ t'. ok (record s { tables = t' })) e in
    let same : t ≡ record s { tables = u } = cc in
    rw (same, parse_addr-tables s u addr)
      (query-update-known (parse_addr s addr) v s.tables u known lt w)

abbrev pub ich_plane : ControlPlane
ich_plane = record { State = IchCp; query_table = query_table; update_table = update_table }

-- The south bridge's control plane is a table: on a valid plane each address that names a word
-- can be read and written, the write keeps the plane valid, and the word is read back.
pub ich_plane-IsTable : IsTable ich_plane IsValid IsKnown
unfolding query_table
ich_plane-IsTable = record {
  answers = λ s ds addr valid known.
      query_inside (parse_addr s addr) s.tables (parse_addr-IsInside s addr valid);
  accepts = λ s ds addr v valid known. update_table_total s ds addr v valid;
  reads_back = λ s t ds ds' addr v valid known lt e. reads_back s t ds ds' addr v valid known lt e;
}
