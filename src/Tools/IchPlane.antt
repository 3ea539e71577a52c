-- ===== src/Tools/IchPlane.antt =====
-- The parameter table of the south bridge's control plane, as the tool sees it.
use pard_gem.Prelude.{
  ℕ, ◌+◌, ◌*◌, ◌≤◌, ◌<◌, ◌≡◌, ◌≢◌, refl, ap, ◌∙◌, ◌⊎◌, inr, some, none, arith, ok, bind_ok,
}
use pard_gem.Prm.Address.{entry_at}
use pard_gem.Prm.Tables.{Tables, Pointer, param_table, all_ones, query, update, query-update-Apart}
use pard_gem.IchCp.{IchCp, param_entry_size, parse_addr, query_table, update_table}
use pard_gem.IchCp.Safety.{IsValid, IsKnown, ich_plane, ich_plane-IsTable}
use pard_gem.Tools.RowTable.{RowTable, word_addr}
use pard_gem.Tools.IchTool.{entry_words}

-- A valid plane of that many rows.
abbrev pub IsPlane : ℕ → IchCp → Type 0
IsPlane rows s = IsValid s × (s.param_table_entries ≡ rows)

-- The word's place in the table.
parse_addr-word :
    (s : IchCp) (r i : ℕ)
    → r < s.param_table_entries
    → r < 256
    → i < entry_words
    → parse_addr s (word_addr r i) ≡ some (param_table, r * param_entry_size + i * 8)
unfolding parse_addr entry_at
parse_addr-word s r i row_in few word_in = ground arith

parse_addr-end :
    (s : IchCp) (r : ℕ) → s.param_table_entries ≤ r → r < 256 → parse_addr s (word_addr r 0) ≡ none
unfolding parse_addr entry_at
parse_addr-end s r past few = ground arith

some_ne_none : {p : Pointer} {x : _} → p ≡ some x → p ≢ none
some_ne_none e f = cc

apart_words :
    (r i r' i' : ℕ)
    → i < entry_words
    → i' < entry_words
    → (r ≢ r') ⊎ (i ≢ i')
    → (r' * param_entry_size + i' * 8 + 8 ≤ r * param_entry_size + i * 8)
      ⊎ (r * param_entry_size + i * 8 + 8 ≤ r' * param_entry_size + i' * 8)
apart_words r i r' i' h h' ne = ground arith

update_rows :
    (s t : IchCp) (ds addr v : ℕ)
    → update_table s ds addr v ≡ ok t
    → (u : Tables) × (update (parse_addr s addr) v s.tables ≡ ok u) × (t ≡ record s { tables = u })
unfolding update_table
update_rows s t ds addr v e =
    let (u, w, last) =
      bind_ok (update (parse_addr s addr) v s.tables) (λ t'. ok (record s { tables = t' })) e in
    (u, w, cc)

keeps_words :
    (s t : IchCp) (ds ds' r i v r' i' : ℕ)
    → r < s.param_table_entries
    → r' < s.param_table_entries
    → s.param_table_entries ≤ 256
    → i < entry_words
    → i' < entry_words
    → (r ≢ r') ⊎ (i ≢ i')
    → update_table s ds (word_addr r i) v ≡ ok t
    → query_table t ds' (word_addr r' i') ≡ query_table s ds' (word_addr r' i')
unfolding query_table
keeps_words s t ds ds' r i v r' i' h h' few hi hi' ne e =
    let (u, w, same) = update_rows s t ds (word_addr r i) v e in
    let here = parse_addr-word s r i h (omega arith) hi in
    let there = parse_addr-word s r' i' h' (omega arith) hi' in
    let there_t = parse_addr-word (record s { tables = u }) r' i' h' (omega arith) hi' in
    let w' : update (some (param_table, r * param_entry_size + i * 8)) v s.tables ≡ ok u =
      rw (← here) w in
    rw (same, there_t, there)
      (query-update-Apart param_table (r * param_entry_size + i * 8) v param_table
        (r' * param_entry_size + i' * 8) s.tables (inr (apart_words r i r' i' hi hi' ne)) w')

ends_row :
    (s : IchCp) (ds r : ℕ)
    → s.param_table_entries ≤ r
    → r < 256
    → query_table s ds (word_addr r 0) ≡ ok all_ones
unfolding query_table query
ends_row s ds r past few = rw (parse_addr-end s r past few) refl

-- A valid plane of at most 256 rows fills the contract of the tool's table.
pub ich_plane-RowTable :
    (rows : ℕ) → rows ≤ 256 → RowTable ich_plane (IsPlane rows) rows entry_words
ich_plane-RowTable rows few = record {
  reads = λ s ds r i (valid, size) h hi.
      ich_plane-IsTable.answers s ds (word_addr r i) valid (known s r i size h hi);
  writes = λ s ds r i v (valid, size) h hi lt.
      let (t, e, valid_t) =
        ich_plane-IsTable.accepts s ds (word_addr r i) v valid (known s r i size h hi) in
      let (u, w, same) = update_rows s t ds (word_addr r i) v e in
      (t, e, (valid_t, ap (λ (x : IchCp). x.param_table_entries) same ∙ size));
  reads_back = λ s t ds ds' r i v (valid, size) h hi lt e.
      ich_plane-IsTable.reads_back s t ds ds' (word_addr r i) v valid (known s r i size h hi) lt e;
  keeps = λ s t ds ds' r i v r' i' (valid, size) h hi h' hi' ne e.
      keeps_words s t ds ds' r i v r' i' (omega arith) (omega arith) (omega arith) hi hi' ne e;
  ends = λ s ds r (valid, size) past small. ends_row s ds r (omega arith) small;
}
  where
    known :
        (s : IchCp) (r i : ℕ)
        → s.param_table_entries ≡ rows
        → r < rows
        → i < entry_words
        → IsKnown s (word_addr r i)
    known s r i size h hi = some_ne_none (parse_addr-word s r i (omega arith) (omega arith) hi)
