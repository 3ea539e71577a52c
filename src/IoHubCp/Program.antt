-- ===== src/IoHubCp/Program.antt =====
-- Programming a row of the I/O hub's parameter table: who gets which device.
use pard_gem.Prelude.{
  ℕ, ◌+◌, ◌-◌, ◌*◌, ◌/◌, ◌%◌, ◌^◌, ◌≤◌, ◌<◌, ◌≡◌, ◌≢◌, inr, ap, ap₂, ◌∙◌, true, false, List, some,
  arith, ok, fault, null_pointer, ◌>>=◌, length, get_elem?, le→leb, ◌==◌, ==_refl, if◌then◌else◌,
  ltb, lt→ltb, ge_ltb, dec_lt, ◌&&◌,
}
use pard_gem.Bytes.{
  Block, word_at, put_at, load_in, store-put_at, word_at-high, word_at-put_at_sub,
  word_at-put_at_below,
}
use pard_gem.Prm.Address.{cfgtbl_addr, cfgtbl_type_param, row-mul-le}
use pard_gem.Prm.Rows.{first_row, first_row_complete}
use pard_gem.IoHubCp.Assign.{bit, assigned, reassign, reassign_lem, reassign_missing}
use pard_gem.IoHubCp.{
  IoHubCp, param_entry_size, row_flags, row_ds_id, row_device_mask, is_flagged, apply_mask,
  written_through, update_at, update_table, row_serves, mask_at, get_device_mask,
}
use pard_gem.IoHubCp.Safety.{IsValid, parse_addr-param}

-- The word of a row: its flags, its DSid and its device mask.
abbrev pub row_word : ℕ → ℕ → ℕ → ℕ
row_word flags ds mask = flags + ds * 2 ^ 16 + mask * 2 ^ 32

-- The plane whose row `r` holds the word `v`.
abbrev pub written : IoHubCp → ℕ → ℕ → IoHubCp
written s r v = record s {
  tables = record s.tables { params = put_at 8 s.tables.params (r * param_entry_size + 0) v };
}

module _ (s : IoHubCp) (r flags ds mask : ℕ) (valid : IsValid s) (row : r < s.param_table_entries)
    (hf : flags < 2 ^ 16) (hd : ds < 2 ^ 16) (hm : mask < 2 ^ 32) where
  room : r * param_entry_size + 8 ≤ length s.tables.params
  room = omega (arith, row-mul-le s.param_table_entries param_entry_size r row)

  row_fields :
      let t = written s r (row_word flags ds mask) in
      (row_flags t r ≡ flags) × (row_ds_id t r ≡ ds) × (row_device_mask t r ≡ mask)
  row_fields = (
    word_at-put_at_sub 2 8 b (r * param_entry_size + 0) (r * param_entry_size) 0 v (omega arith)
          (omega arith) (omega (arith, room))
        ∙ omega arith,
    word_at-put_at_sub 2 8 b (r * param_entry_size + 0) (r * param_entry_size + 2) 2 v (omega arith)
          (omega arith) (omega (arith, room))
        ∙ omega arith,
    word_at-put_at_sub 4 8 b (r * param_entry_size + 0) (r * param_entry_size + 4) 4 v (omega arith)
          (omega arith) (omega (arith, room))
        ∙ omega arith,
  )
    where
      b : Block
      b = s.tables.params

      v : ℕ
      v = row_word flags ds mask

  -- The code's own steps, up to the loop over the changed bits.
  apply_mask-written :
      apply_mask
        (written s r (row_word flags ds mask))
        (r * param_entry_size + 0)
        (word_at 8 s.tables.params (r * param_entry_size + 0))
      ≡ (if is_flagged flags
          then (reassign 32 0 (row_device_mask s r) mask ds s.device_tags >>= λ tags.
              ok (record (written s r (row_word flags ds mask)) { device_tags = tags }))
          else ok (written s r (row_word flags ds mask)))
  unfolding apply_mask
  apply_mask-written = rw (
    place_row,
    old_mask,
    row_fields.0,
    row_fields.1,
    row_fields.2,
    le→leb place (r * param_entry_size + 4) (omega arith),
    le→leb (r * param_entry_size + 8) (place + 8) (omega arith),
  )
    where
      b : Block
      b = s.tables.params

      place : ℕ
      place = r * param_entry_size + 0

      place_row : place / param_entry_size ≡ r
      place_row = omega arith

      old_mask :
          word_at 8 b place / 256 ^ (4 - (place - r * param_entry_size)) % 2 ^ 32
          ≡ row_device_mask s r
      old_mask =
          ap (λ k. word_at 8 b place / 256 ^ k % 2 ^ 32)
            (let e : 4 - (place - r * param_entry_size) ≡ 4 = omega arith in e)
          ∙ word_at-high b place (omega (arith, room)) valid.bytes
          ∙ ap (word_at 4 b) (let e : place + 4 ≡ r * param_entry_size + 4 = omega arith in e)

  update_table-row :
      (caller : ℕ)
      → r < 256
      → update_table s caller (cfgtbl_addr cfgtbl_type_param r 0) (row_word flags ds mask)
        ≡ apply_mask
            (written s r (row_word flags ds mask))
            (r * param_entry_size + 0)
            (word_at 8 s.tables.params (r * param_entry_size + 0))
  unfolding update_table update_at written_through
  update_table-row caller small = rw (
    parse_addr-param s r small row,
    load_in 8 s.tables.params (r * param_entry_size + 0) (omega (arith, room)),
    store-put_at 8 s.tables.params (r * param_entry_size + 0) (row_word flags ds mask)
        (omega (arith, room)),
    ◌>>=◌,
  )

  row_serves-written :
      (tags : List ℕ)
      → is_flagged flags ≡ true
      → ((i : ℕ) → i < r → row_serves s ds i ≡ false)
      → first_row
          (row_serves (record (written s r (row_word flags ds mask)) { device_tags = tags }) ds)
          s.param_table_entries
          0
        ≡ some r
  unfolding row_serves
  row_serves-written tags flagged before =
      first_row_complete
        (row_serves (record (written s r (row_word flags ds mask)) { device_tags = tags }) ds)
        s.param_table_entries 0 r (omega arith) (omega arith)
        (rw (row_fields.0, row_fields.1, flagged) (==_refl ds))
        (λ i _ lt.
          ap₂ (λ f d. is_flagged f && d == ds)
            (word_at-put_at_below 2 8 s.tables.params (r * param_entry_size + 0)
              (i * param_entry_size) (row_word flags ds mask) (omega arith))
            (word_at-put_at_below 2 8 s.tables.params (r * param_entry_size + 0)
              (i * param_entry_size + 2) (row_word flags ds mask) (omega arith))
          ∙ before i lt)

  -- On a valid plane, writing one of the first 256 rows, valid and not shadowed by an earlier
  -- row, with a DSid of 16 and a mask of 32 bits, where each changed bit names a device: the
  -- update succeeds; each of the 32 devices whose bit changed belongs to the row's domain if the
  -- bit is set and to none if it is clear, the others keep their owner, and the domain's mask is
  -- read.
  pub program_row :
      (caller : ℕ)
      → r < 256
      → is_flagged flags ≡ true
      → ((j : ℕ) → j < 32 → bit (row_device_mask s r) j ≢ bit mask j → j < length s.device_tags)
      → ((i : ℕ) → i < r → row_serves s ds i ≡ false)
      → (t : IoHubCp) × (update_table s caller
            (cfgtbl_addr cfgtbl_type_param r 0)
            (row_word flags ds mask)
          ≡ ok t)
        × ((j : ℕ)
            → get_elem? t.device_tags j ≡ (
                if ltb j 32
                then assigned (row_device_mask s r) mask ds s.device_tags j
                else get_elem? s.device_tags j))
        × (get_device_mask t ds ≡ mask)
  unfolding get_device_mask mask_at
  program_row caller small flagged named before =
      let (tags, e, _, inside, outside) =
        reassign_lem 32 0 (row_device_mask s r) mask ds s.device_tags
          (λ j _ lt. named j (omega arith)) in
      (
        record (written s r (row_word flags ds mask)) { device_tags = tags },
        update_table-row caller small ∙ apply_mask-written ∙ rw (flagged, e, ◌>>=◌),
        λ j. elim (dec_lt j 32) [
          | yes lt ↦ rw (lt→ltb j 32 lt) (inside j (omega arith) (omega arith))
          | no ge ↦ rw (ge_ltb j 32 ge) (outside j (inr (omega arith)))
        ],
        rw (row_serves-written tags flagged before) row_fields.2,
      )

  -- On a valid plane, writing one of the first 256 rows, valid, with a DSid of 16 and a mask of 32
  -- bits, where a changed bit names no device, is fatal: the code reads through a null pointer.
  pub program_row_missing :
      (caller j : ℕ)
      → r < 256
      → is_flagged flags ≡ true
      → j < 32
      → bit (row_device_mask s r) j ≢ bit mask j
      → length s.device_tags ≤ j
      → update_table s caller (cfgtbl_addr cfgtbl_type_param r 0) (row_word flags ds mask)
        ≡ fault null_pointer
  program_row_missing caller j small flagged lt d missing =
      update_table-row caller small
      ∙ apply_mask-written
      ∙ rw (
        flagged,
        reassign_missing 32 0 j (row_device_mask s r) mask ds s.device_tags (omega arith) lt d
            missing,
        ◌>>=◌,
      )
