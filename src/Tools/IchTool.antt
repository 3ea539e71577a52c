-- ===== src/Tools/IchTool.antt =====
-- system/utils/ich/ich_list.c and ich_util.c: the tool that registers a domain in the south bridge's
-- control plane and maps its interrupt lines.
use pard_gem.Prelude.{
  ℕ, zero, suc, ◌+◌, ◌-◌, ◌*◌, ◌/◌, ◌%◌, ◌^◌, Bool, ◌&&◌, not, leb, ◌==◌, if◌then◌else◌, Result, ok,
  fault, out_of_bounds, ◌>>=◌,
}
use pard_gem.Prm.ControlPlane.{ControlPlane}
use pard_gem.Prm.Tables.{all_ones}
use pard_gem.Tools.RowTable.{param_addr}

-- `struct ParamEntry` of ich.h has 17 words: flags, DSid and selected (32, 16 and 16 bits), four
-- register bases, and 24 interrupt lines, two in a word.
abbrev pub entry_words : ℕ
entry_words = 17

-- The fields of the first word.
abbrev pub is_valid : ℕ → Bool
is_valid w = w % 2 == 1

abbrev pub word_ds_id : ℕ → ℕ
word_ds_id w = w / 2 ^ 32 % 2 ^ 16

-- The entry of a new domain: all ones, then the assignments of ich_assign in their order.
unfoldable pub int_line : ℕ → ℕ → ℕ
int_line row j =
    if j == 8 then 8 else if j == row + 4 then 4 else if j == row then 2 else 0xFFFFFFFF

unfoldable pub entry_word : ℕ → ℕ → ℕ → ℕ
unfolding int_line
entry_word ds row i =
    if i == 0
    then 1 + ds % 2 ^ 16 * 2 ^ 32 + row % 2 ^ 16 * 2 ^ 48
    else if i == 1
    then 0x80000000000003f8
    else if i == 2
    then 0x8000000000000070
    else if i == 3
    then 0x8000000000000040
    else if i == 4
    then 0xFEC00000
    else int_line row ((i - 5) * 2) + int_line row ((i - 5) * 2 + 1) * 2 ^ 32

-- The word of line `from` with the line set to `to`.
abbrev pub set_line : ℕ → ℕ → ℕ → ℕ
set_line w from to =
    if from % 2 == 0
    then w / 2 ^ 32 % 2 ^ 32 * 2 ^ 32 + to % 2 ^ 32
    else w % 2 ^ 32 + to % 2 ^ 32 * 2 ^ 32

abbrev pub line_word : ℕ → ℕ
line_word from = 5 + from / 2

-- How the search through the rows ends; `unfinished` where `fuel` rows were not enough.
pub data Scan : Type 0 where
  registered free : ℕ → Scan
  at_end unfinished : Scan

-- What a command returns: 0, -ENOMEM, -ENODEV; `endless` where the search does not end.
pub data Code : Type 0 where
  success no_memory no_device endless : Code

module _ (cp : ControlPlane) where
  -- ichcp_cfgtbl_param_read_qword and its counterpart.
  abbrev pub read_qword : cp.State → ℕ → ℕ → ℕ → Result ℕ
  read_qword s ds row offset = cp.query_table s ds (param_addr row offset)

  abbrev pub write_qword : cp.State → ℕ → ℕ → ℕ → ℕ → Result cp.State
  write_qword s ds row offset v = cp.update_table s ds (param_addr row offset) v

  -- The loop of ich_assign, from `row` on, which stops at the first free row.
  unfoldable pub scan_free : ℕ → cp.State → ℕ → ℕ → Result Scan
  scan_free zero s ds row = ok unfinished
  scan_free (suc fuel) s ds row =
      let rest = scan_free fuel s ds (row + 1) in
      read_qword s ds row 0 >>= λ w.
      if w == all_ones
      then ok at_end
      else if is_valid w && word_ds_id w == ds
      then ok (registered row)
      else if not (is_valid w)
      then ok (free row)
      else rest

  -- The loop of ich_irqmap, which passes over free rows.
  unfoldable pub scan_registered : ℕ → cp.State → ℕ → ℕ → Result Scan
  scan_registered zero s ds row = ok unfinished
  scan_registered (suc fuel) s ds row =
      let rest = scan_registered fuel s ds (row + 1) in
      read_qword s ds row 0 >>= λ w.
      if w == all_ones
      then ok at_end
      else if is_valid w && word_ds_id w == ds
      then ok (registered row)
      else rest

  -- The loop over the words of a new entry, `n` of them from word `i` on.
  unfoldable pub write_words : ℕ → ℕ → cp.State → ℕ → ℕ → Result cp.State
  write_words zero i s ds row = ok s
  write_words (suc n) i s ds row =
      write_qword s ds row (i * 8) (entry_word ds row i) >>= λ t. write_words n (suc i) t ds row

  -- The line `row + 4` of a row above 19 lies behind the array.
  unfoldable pub register : cp.State → ℕ → ℕ → Result cp.State
  unfolding write_words
  register s ds row =
      if leb 24 (row + 4)
      then fault out_of_bounds
      else write_words (entry_words - 1) 1 s ds row >>= λ t.
          write_qword t ds row 0 (entry_word ds row 0)

  abbrev pub assign_at : cp.State → ℕ → Scan → Result (Code × cp.State)
  assign_at s ds (registered row) = ok (success, s)
  assign_at s ds (free row) = register s ds row >>= λ t. ok (success, t)
  assign_at s ds at_end = ok (no_memory, s)
  assign_at s ds unfinished = ok (endless, s)

  unfoldable pub ich_assign : ℕ → cp.State → ℕ → Result (Code × cp.State)
  unfolding scan_free
  ich_assign fuel s ds = scan_free fuel s ds 0 >>= λ found. assign_at s ds found

  abbrev pub map_at : cp.State → ℕ → ℕ → ℕ → Scan → Result (Code × cp.State)
  map_at s ds from to (registered row) =
      if leb 24 from
      then fault out_of_bounds
      else read_qword s ds row (line_word from * 8) >>= λ w.
          write_qword s ds row (line_word from * 8) (set_line w from to) >>= λ t. ok (success, t)
  map_at s ds from to unfinished = ok (endless, s)
  map_at s ds from to _ = ok (no_device, s)

  unfoldable pub ich_irqmap : ℕ → cp.State → ℕ → ℕ → ℕ → Result (Code × cp.State)
  unfolding scan_registered
  ich_irqmap fuel s ds from to = scan_registered fuel s ds 0 >>= λ found. map_at s ds from to found
