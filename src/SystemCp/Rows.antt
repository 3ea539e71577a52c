-- ===== src/SystemCp/Rows.antt =====
-- A write of one word into a row of the system control plane's parameter table: the address that
-- names it, and what the search for a domain's row sees of it.
use pard_gem.Prelude.{
  ℕ, ◌+◌, ◌*◌, ◌/◌, ◌%◌, ◌^◌, ◌≤◌, ◌<◌, ◌≡◌, ◌≢◌, sym, ap, ap₂, ◌∙◌, true, ◌&&◌, some, arith, ok,
  length, dec_lt, ◌==◌,
}
use mathlib.Core.Path.{fun_ext}
use pard_gem.Bytes.{Block, word_at, put_at, word_at-put_at_below, word_at-put_at_above}
use pard_gem.Prm.Address.{cfgtbl_type_param, cfgtbl_addr, cfgtbl_addr_fields, entry_at}
use pard_gem.Prm.Rows.{first_row, first_row_sound}
use pard_gem.Prm.Tables.{Tables, param_table, update, update-param_table}
use pard_gem.SystemCp.{
  SystemCp, param_entry_size, parse_cfgtbl, parse_addr, update_table, row_serves, row_ds_id,
  find_entry,
}
use pard_gem.SystemCp.Safety.{update_table-eq}

-- A write of eight bytes at offset 8 or more of row `r` leaves the first four bytes of every row.
pub word_at-put_at_header :
    (b : Block) (r i o j v : ℕ)
    → 8 ≤ o
    → o + 8 ≤ param_entry_size
    → i * param_entry_size ≤ j
    → j + 2 ≤ i * param_entry_size + 8
    → word_at 2 (put_at 8 b (r * param_entry_size + o) v) j ≡ word_at 2 b j
word_at-put_at_header b r i o j v lo hi p q = elim (dec_lt r i) [
  | yes lt ↦ word_at-put_at_above 2 8 b (r * param_entry_size + o) j v (omega arith)
  | no ge ↦ word_at-put_at_below 2 8 b (r * param_entry_size + o) j v (omega arith)
]

-- The plane after a write of a word at offset `o` of row `r`.
abbrev pub written : SystemCp → ℕ → ℕ → ℕ → SystemCp
written s r o v = record s {
  tables = record s.tables { params = put_at 8 s.tables.params (r * param_entry_size + o) v };
}
  where
    open s use {tables}

pub row_serves-written :
    (s : SystemCp) (r o v ds i : ℕ)
    → 8 ≤ o
    → o + 8 ≤ param_entry_size
    → row_serves (written s r o v) ds i ≡ row_serves s ds i
unfolding row_serves
row_serves-written s r o v ds i lo hi =
    ap₂ (λ flags id. flags / 2 ^ 15 % 2 == 1 && id == ds)
      (word_at-put_at_header params r i o (i * param_entry_size + 2) v lo hi (omega arith)
        (omega arith))
      (word_at-put_at_header params r i o (i * param_entry_size) v lo hi (omega arith)
        (omega arith))
  where
    params : Block
    params = s.tables.params

pub find_entry-written :
    (s : SystemCp) (r o v ds : ℕ)
    → 8 ≤ o
    → o + 8 ≤ param_entry_size
    → find_entry (written s r o v) ds ≡ find_entry s ds
unfolding find_entry
find_entry-written s r o v ds lo hi =
    ap (λ t. first_row t s.param_table_entries 0)
      (fun_ext (λ i. row_serves-written s r o v ds i lo hi))

pub parse_addr-param :
    (s : SystemCp) (r o : ℕ)
    → r < 256
    → r < s.param_table_entries
    → o + 8 ≤ param_entry_size
    → parse_addr s (cfgtbl_addr cfgtbl_type_param r o)
      ≡ some (param_table, r * param_entry_size + o)
unfolding parse_addr parse_cfgtbl entry_at
parse_addr-param s r o small row h =
    ground (arith, cfgtbl_addr_fields cfgtbl_type_param r o (omega arith) small (omega arith))

pub update_table-written :
    (s t : SystemCp) (ds r o v : ℕ)
    → r < 256
    → r < s.param_table_entries
    → o + 8 ≤ param_entry_size
    → update_table s ds (cfgtbl_addr cfgtbl_type_param r o) v ≡ ok t
    → (t ≡ written s r o v) × (r * param_entry_size + o + 8 ≤ length s.tables.params)
update_table-written s t ds r o v small row h e =
    let (u, w, same) = update_table-eq s t ds (cfgtbl_addr cfgtbl_type_param r o) v e in
    let w' : update (some (param_table, r * param_entry_size + o)) v s.tables ≡ ok u =
      rw (parse_addr-param s r o small row h) at w in
    let (eq, room) = update-param_table (r * param_entry_size + o) v s.tables w' in
    (same ∙ ap (λ (u : Tables). record s { tables = u }) eq, room)

pub row_serves-ds_id : (s : SystemCp) (ds i : ℕ) → row_serves s ds i ≡ true → row_ds_id s i ≡ ds
unfolding row_serves
row_serves-ds_id s ds i e = ground arith

pub find_entry-serves :
    (s : SystemCp) (ds : ℕ) {r : ℕ}
    → find_entry s ds ≡ some r
    → (row_serves s ds r ≡ true) × (r < s.param_table_entries)
unfolding find_entry
find_entry-serves s ds e =
    let (p, _, q, _) = first_row_sound (row_serves s ds) s.param_table_entries 0 e in
    (p, omega arith)

-- Two domains are never served by one row.
pub find_entry-ne :
    (s : SystemCp) (ds ds' : ℕ) {r i : ℕ}
    → find_entry s ds ≡ some r
    → find_entry s ds' ≡ some i
    → ds ≢ ds'
    → r ≢ i
find_entry-ne s ds ds' {r} {i} e e' ne same = ne (
    sym (row_serves-ds_id s ds r (find_entry-serves s ds e).0)
    ∙ ap (row_ds_id s) same
    ∙ row_serves-ds_id s ds' i (find_entry-serves s ds' e').0)
