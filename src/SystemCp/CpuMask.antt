-- ===== src/SystemCp/CpuMask.antt =====
-- PARDg5VSystemCP::getCpuMask under a table update.
use pard_gem.Prelude.{
  ℕ, ◌+◌, ◌*◌, ◌^◌, ◌<◌, ◌≡◌, ◌≢◌, refl, ap, Option, none, some, arith, ok, dec_lt,
}
use pard_gem.Bytes.{Block, put_at, word_at-put_at_self, word_at-put_at_below, word_at-put_at_above}
use pard_gem.Prm.Address.{cfgtbl_type_param, cfgtbl_addr}
use pard_gem.SystemCp.{
  SystemCp, param_entry_size, update_table, find_entry, get_cpu_mask, cpu_mask_at,
}
use pard_gem.SystemCp.Rows.{
  find_entry-written, update_table-written, find_entry-serves, find_entry-ne,
}

cpu_mask_at-put_at :
    (b : Block) (r v : ℕ) (o : Option ℕ)
    → ((i : ℕ) → o ≡ some i → r ≢ i)
    → cpu_mask_at (put_at 8 b (r * param_entry_size + 8) v) o ≡ cpu_mask_at b o
unfolding cpu_mask_at
cpu_mask_at-put_at b r v none h = refl
cpu_mask_at-put_at b r v (some i) h = ap some (elim (dec_lt r i) [
  | yes lt ↦
      word_at-put_at_above 8 8 b (r * param_entry_size + 8) (i * param_entry_size + 8) v
        (omega arith)
  | no ge ↦
      word_at-put_at_below 8 8 b (r * param_entry_size + 8) (i * param_entry_size + 8) v
        (omega (arith, h i refl))
])

-- Programming the 64-bit CPU mask of the row, one of the first 256, that serves a domain:
-- `getCpuMask` then gives that domain the new mask, and gives every other domain what it gave
-- before.
pub get_cpu_mask-update_table :
    (s t : SystemCp) (caller ds other r mask : ℕ)
    → ds ≢ other
    → find_entry s ds ≡ some r
    → r < 256
    → mask < 2 ^ 64
    → update_table s caller (cfgtbl_addr cfgtbl_type_param r 8) mask ≡ ok t
    → (get_cpu_mask t ds ≡ some mask) × (get_cpu_mask t other ≡ get_cpu_mask s other)
unfolding get_cpu_mask
get_cpu_mask-update_table s t caller ds other r mask ne found small lt e =
    let row = (find_entry-serves s ds found).1 in
    let (eq, room) = update_table-written s t caller r 8 mask small row (omega arith) e in
    rw eq (
      rw (find_entry-written s r 8 mask ds (omega arith) (omega arith), found)
          (ap some (word_at-put_at_self 8 s.tables.params (r * param_entry_size + 8) mask room lt)),
      rw (find_entry-written s r 8 mask other (omega arith) (omega arith)) (
          cpu_mask_at-put_at s.tables.params r mask (find_entry s other)
            (λ i e'. find_entry-ne s ds other found e' ne)),
    )
