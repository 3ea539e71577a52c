-- ===== src/Tools/IrqMap.antt =====
-- ich_irqmap over a table: one interrupt line of the row that serves a domain.
use pard_gem.Prelude.{
  ℕ, suc, ◌+◌, ◌/◌, ◌%◌, ◌^◌, ◌<◌, ◌≡◌, refl, ap, ◌∙◌, ◌⊎◌, inl, inr, arith, lt_leb, ◌==◌,
  if◌then◌else◌, ok, ◌>>=◌, ℕ_discrete,
}
use pard_gem.Prm.ControlPlane.{ControlPlane}
use pard_gem.Tools.RowTable.{RowTable, word_addr}
use pard_gem.Tools.IchTool.{
  Scan, registered, free, at_end, unfinished, success, no_device, entry_words, line_word, set_line,
  map_at, ich_irqmap,
}
use pard_gem.Tools.Scan.{IsRegistered, IsEnd, Unserved, RegisteredOutcome, scan_registered_lem}

-- The half of a word that holds a line.
abbrev pub half : ℕ → ℕ → ℕ
half w line = if line % 2 == 0 then w % 2 ^ 32 else w / 2 ^ 32 % 2 ^ 32

set_line-lt : (w from to : ℕ) → set_line w from to < 2 ^ 64
set_line-lt w from to = ground arith

set_line-half :
    (w from to : ℕ)
    → (half (set_line w from to) from ≡ to % 2 ^ 32)
      × (half (set_line w from to) (from + 1) ≡ half w (from + 1))
set_line-half w from to = ground arith

module _ (cp : ControlPlane) (Valid : cp.State → Type 0) (rows : ℕ)
    (law : RowTable cp Valid rows entry_words) (s : cp.State) (ds ds' from to r' j : ℕ)
    (valid : Valid s) (few : rows < 256) where
  -- The line is set: in the word that held `w` the line's half is `to` and the other half, a line's
  -- too, is as before; word `j` of row `r'` is that word, or is as before.
  abbrev pub IsMapped : ℕ → Type 0
  IsMapped r =
      (w : ℕ) × (t : cp.State) × (ich_irqmap cp (suc rows) s ds from to ≡ ok (success, t))
      × Valid t
      × (cp.query_table s ds (word_addr r (line_word from)) ≡ ok w)
      × ((v : ℕ) × (cp.query_table t ds' (word_addr r (line_word from)) ≡ ok v)
          × (half v from ≡ to % 2 ^ 32)
          × (half v (from + 1) ≡ half w (from + 1)))
      × (((r ≡ r') × (line_word from ≡ j))
          ⊎ (cp.query_table t ds' (word_addr r' j) ≡ cp.query_table s ds' (word_addr r' j)))

  abbrev pub MapOutcome : Type 0
  MapOutcome =
      ((ich_irqmap cp (suc rows) s ds from to ≡ ok (no_device, s))
        × ((k : ℕ) × IsEnd cp Valid rows law s ds valid few k
            × Unserved cp Valid rows law s ds valid few 0 k))
      ⊎ ((r : ℕ) × IsRegistered cp Valid rows law s ds valid few r × IsMapped r)

  mapped :
      (r : ℕ)
      → r < rows
      → from < 24
      → r' < rows
      → j < entry_words
      → ich_irqmap cp (suc rows) s ds from to ≡ map_at cp s ds from to (registered r)
      → IsMapped r
  mapped r inside line row_in word_in e =
      let i = line_word from in
      let (w, here) = law.reads s ds r i valid inside (omega arith) in
      let v = set_line w from to in
      let lt = set_line-lt w from to in
      let (t, done, valid_t) = law.writes s ds r i v valid inside (omega arith) lt in
      (
        w,
        t,
        e ∙ rw (lt_leb 24 from line, here, ◌>>=◌, done, ◌>>=◌) refl,
        valid_t,
        here,
        (
          v,
          law.reads_back s t ds ds' r i v valid inside (omega arith) lt done,
          (set_line-half w from to).0,
          (set_line-half w from to).1,
        ),
        elim (ℕ_discrete r r') [
          | no ne ↦ inr (
              law.keeps s t ds ds' r i v r' j valid inside (omega arith) row_in word_in (inl ne)
                done)
          | yes q ↦ elim (ℕ_discrete i j) [
            | yes p ↦ inl (q, p)
            | no ne ↦ inr (
                law.keeps s t ds ds' r i v r' j valid inside (omega arith) row_in word_in (inr ne)
                  done)
          ]
        ],
      )

  map_by_scan :
      (out : Scan)
      → from < 24
      → r' < rows
      → j < entry_words
      → ich_irqmap cp (suc rows) s ds from to ≡ map_at cp s ds from to out
      → RegisteredOutcome cp Valid rows law s ds valid few 0 out
      → MapOutcome
  map_by_scan (registered r) line row_in word_in e o =
      inr (r, o, mapped r o.0 line row_in word_in e)
  map_by_scan at_end line row_in word_in e o = inl (e, o)
  map_by_scan unfinished line row_in word_in e o = absurd o
  map_by_scan (free r) line row_in word_in e o = absurd o

-- ich_irqmap for one of the 24 lines, on a valid state of a table of at most 255 rows whose contract
-- holds, with fuel for its rows and its end: either no row up to the end, or up to a row
-- that reads as the end, serves the domain, it returns -ENODEV and nothing changes; or line `from` of such a row becomes `to`, and every other
-- line and every other word of the table stays as it was.
pub ich_irqmap_lem :
    (cp : ControlPlane) (Valid : cp.State → Type 0) (rows : ℕ)
    (law : RowTable cp Valid rows entry_words) (s : cp.State) (ds ds' from to r' j : ℕ)
    (valid : Valid s) (few : rows < 256)
    → from < 24
    → r' < rows
    → j < entry_words
    → MapOutcome cp Valid rows law s ds ds' from to r' j valid few
unfolding ich_irqmap
ich_irqmap_lem cp Valid rows law s ds ds' from to r' j valid few line row_in word_in =
    let (out, e, o) = scan_registered_lem cp Valid rows law s ds valid few rows 0 (omega arith) in
    map_by_scan cp Valid rows law s ds ds' from to r' j valid few out line row_in word_in
      (ap (λ x. x >>= λ found. map_at cp s ds from to found) e) o
