-- ===== src/Tools/Assign.antt =====
-- ich_assign over a table: the row that it fills, and the order in which it does.
use pard_gem.Prelude.{
  ℕ, zero, suc, ◌+◌, ◌^◌, ◌≤◌, ◌<◌, ◌≡◌, ◌≢◌, refl, ap, sym, ◌∙◌, ◌⊎◌, inl, inr, arith, lt_leb,
  ◌==◌, ==_refl, ==_ne, if◌then◌else◌, ok, fault, out_of_bounds, le→leb, ◌>>=◌, ℕ_discrete, dec_lt,
}
use pard_gem.Prm.ControlPlane.{ControlPlane}
use pard_gem.Tools.RowTable.{RowTable, word_addr}
use pard_gem.Tools.IchTool.{
  Scan, registered, free, at_end, unfinished, success, no_memory, entry_words, entry_word, int_line,
  write_words, register, assign_at, ich_assign,
}
use pard_gem.Tools.Scan.{InUse, IsRegistered, IsFreeRow, IsEnd, FreeOutcome, scan_free_lem}

entry_word-lt : (ds row i : ℕ) → entry_word ds row i < 2 ^ 64
unfolding entry_word int_line
entry_word-lt ds row i = ground arith

module _ (cp : ControlPlane) (Valid : cp.State → Type 0) (rows : ℕ)
    (law : RowTable cp Valid rows entry_words) (ds ds' r : ℕ) (inside : r < rows) where
  -- The words from `i` to `k` of row `r` are those of the entry, and the other words are as before.
  abbrev Filled : ℕ → ℕ → cp.State → cp.State → Type 0
  Filled i k s t =
      ((j : ℕ) → i ≤ j → j < k → cp.query_table t ds' (word_addr r j) ≡ ok (entry_word ds r j))
      × ((r' j : ℕ)
          → r' < rows
          → j < entry_words
          → (r ≢ r') ⊎ ((j < i) ⊎ (k ≤ j))
          → cp.query_table t ds' (word_addr r' j) ≡ cp.query_table s ds' (word_addr r' j))

  write_words_lem :
      (n i k : ℕ) (s : cp.State)
      → Valid s
      → i + n ≡ k
      → k ≤ entry_words
      → (t : cp.State) × (write_words cp n i s ds r ≡ ok t) × Valid t × Filled i k s t
  unfolding write_words
  write_words_lem zero i k s valid sum le =
      (s, refl, valid, (λ j lo hi. absurd (omega arith), λ r' j lt small other. refl))
  write_words_lem (suc n) i k s valid sum le =
      let v = entry_word ds r i in
      let (s₁, e₁, valid₁) =
        law.writes s ds r i v valid inside (omega arith) (entry_word-lt ds r i) in
      let (t, e, valid', (filled, same)) = write_words_lem n (suc i) k s₁ valid₁ (omega arith) le in
      let back =
        law.reads_back s s₁ ds ds' r i v valid inside (omega arith) (entry_word-lt ds r i) e₁ in
      (
        t,
        rw (e₁, ◌>>=◌) e,
        valid',
        (
          λ j lo hi. elim (ℕ_discrete i j) [
            | yes q ↦ rw (← q) (same r i inside (omega arith) (inr (inl (omega arith))) ∙ back)
            | no ne ↦ filled j (omega arith) hi
          ],
          λ r' j lt small other.
              same r' j lt small (later other)
              ∙ law.keeps s s₁ ds ds' r i v r' j valid inside (omega arith) lt small (differs other)
                  e₁,
        ),
      )
    where
      later : {r' j : ℕ} → (r ≢ r') ⊎ ((j < i) ⊎ (k ≤ j)) → (r ≢ r') ⊎ ((j < suc i) ⊎ (k ≤ j))
      later (inl ne) = inl ne
      later (inr (inl lo)) = inr (inl (omega arith))
      later (inr (inr hi)) = inr (inr hi)

      differs : {r' j : ℕ} → (r ≢ r') ⊎ ((j < i) ⊎ (k ≤ j)) → (r ≢ r') ⊎ (i ≢ j)
      differs (inl ne) = inl ne
      differs (inr (inl lo)) = inr (λ q. omega arith)
      differs (inr (inr hi)) = inr (λ q. omega arith)

  -- The state in which only the first word is still missing.
  register_lem :
      (s : cp.State)
      → Valid s
      → r < 20
      → (u t : cp.State) × (register cp s ds r ≡ ok t)
        × Valid t
        × (cp.update_table u ds (word_addr r 0) (entry_word ds r 0) ≡ ok t)
        × (cp.query_table u ds' (word_addr r 0) ≡ cp.query_table s ds' (word_addr r 0))
        × Filled 0 entry_words s t
  unfolding register
  register_lem s valid small =
      let (u, e, valid_u, (filled, same)) =
        write_words_lem 16 1 entry_words s valid refl (omega arith) in
      let v = entry_word ds r 0 in
      let (t, e', valid_t) =
        law.writes u ds r 0 v valid_u inside (omega arith) (entry_word-lt ds r 0) in
      let back =
        law.reads_back u t ds ds' r 0 v valid_u inside (omega arith) (entry_word-lt ds r 0) e' in
      (
        u,
        t,
        rw (lt_leb 24 (r + 4) (omega arith), e, ◌>>=◌) e',
        valid_t,
        e',
        same r 0 inside (omega arith) (inr (inl (omega arith))),
        (
          λ j lo hi. elim (ℕ_discrete j 0) [
            | yes q ↦ rw q back
            | no ne ↦
                law.keeps u t ds ds' r 0 v r j valid_u inside (omega arith) inside hi
                  (inr (λ q. ne (sym q))) e'
                ∙ filled j (omega arith) hi
          ],
          λ r' j lt hi other.
              law.keeps u t ds ds' r 0 v r' j valid_u inside (omega arith) lt hi (differs other) e'
              ∙ same r' j lt hi (later other),
        ),
      )
    where
      differs : {r' j : ℕ} → (r ≢ r') ⊎ ((j < 0) ⊎ (entry_words ≤ j)) → (r ≢ r') ⊎ (0 ≢ j)
      differs (inl ne) = inl ne
      differs (inr (inl lo)) = absurd (omega arith)
      differs (inr (inr hi)) = inr (λ q. omega arith)

      later :
          {r' j : ℕ}
          → (r ≢ r') ⊎ ((j < 0) ⊎ (entry_words ≤ j))
          → (r ≢ r') ⊎ ((j < 1) ⊎ (entry_words ≤ j))
      later (inl ne) = inl ne
      later (inr (inl lo)) = absurd (omega arith)
      later (inr (inr hi)) = inr (inr hi)

module _ (cp : ControlPlane) (Valid : cp.State → Type 0) (rows : ℕ)
    (law : RowTable cp Valid rows entry_words) (s : cp.State) (ds ds' r' j : ℕ) (valid : Valid s)
    (few : rows < 256) where
  -- Row `r` gets the entry of the domain: the state after it at word `j` of row `r'`, and the state
  -- `u` before the last write.
  abbrev pub IsFilled : ℕ → Type 0
  IsFilled r =
      (u t : cp.State) × (ich_assign cp (suc rows) s ds ≡ ok (success, t))
      × Valid t
      × (cp.query_table t ds' (word_addr r' j)
          ≡ (if r' == r then ok (entry_word ds r j) else cp.query_table s ds' (word_addr r' j)))
      × (cp.query_table u ds' (word_addr r 0) ≡ cp.query_table s ds' (word_addr r 0))
      × (cp.update_table u ds (word_addr r 0) (entry_word ds r 0) ≡ ok t)

  abbrev pub AssignOutcome : Type 0
  AssignOutcome =
      ((ich_assign cp (suc rows) s ds ≡ ok (success, s))
        × ((r : ℕ) × IsRegistered cp Valid rows law s ds valid few r))
      ⊎ (((ich_assign cp (suc rows) s ds ≡ ok (no_memory, s))
            × ((k : ℕ) × IsEnd cp Valid rows law s ds valid few k
                × InUse cp Valid rows law s ds valid few 0 k))
          ⊎ ((r : ℕ) × IsFreeRow cp Valid rows law s ds valid few 0 r
              × (((20 ≤ r) × (ich_assign cp (suc rows) s ds ≡ fault out_of_bounds)) ⊎ IsFilled r)))

  overrun : (r : ℕ) → 20 ≤ r → assign_at cp s ds (free r) ≡ fault out_of_bounds
  unfolding register
  overrun r high = rw (le→leb 24 (r + 4) (omega arith)) refl

  filled :
      (r : ℕ)
      → r < rows
      → r < 20
      → r' < rows
      → j < entry_words
      → ich_assign cp (suc rows) s ds ≡ assign_at cp s ds (free r)
      → IsFilled r
  filled r inside small row_in word_in e =
      let (u, t, done, valid_t, last, old, (new, same)) =
        register_lem cp Valid rows law ds ds' r inside s valid small in
      (
        u,
        t,
        e ∙ rw (done, ◌>>=◌) refl,
        valid_t,
        elim (ℕ_discrete r' r) [
          | yes q ↦ rw (q, ==_refl r) (new j (omega arith) word_in)
          | no ne ↦ rw (==_ne r' r ne) (same r' j row_in word_in (inl (λ q. ne (sym q))))
        ],
        old,
        last,
      )

  by_scan :
      (out : Scan)
      → r' < rows
      → j < entry_words
      → ich_assign cp (suc rows) s ds ≡ assign_at cp s ds out
      → FreeOutcome cp Valid rows law s ds valid few 0 out
      → AssignOutcome
  by_scan (registered r) row_in word_in e o = inl (e, (r, o))
  by_scan at_end row_in word_in e o = inr (inl (e, o))
  by_scan unfinished row_in word_in e o = absurd o
  by_scan (free r) row_in word_in e o = inr (
      inr (
        r,
        o,
        elim (dec_lt r 20) [
          | yes small ↦ inr (filled r o.0 small row_in word_in e)
          | no high ↦ inl (omega arith, e ∙ overrun r (omega arith))
        ],
      ))

-- ich_assign for a domain, on a valid state of a table of at most 255 rows whose contract holds, with
-- fuel for its rows and its end. It ends in one of these ways: a row serves the domain already and
-- nothing changes; no row is free up to the end, or up to a row that reads as the end, and it
-- returns -ENOMEM; the first free row `r` is above 19 and it writes behind an array of its own; or
-- that row gets the entry of the domain and every other row `r'` keeps its words `j`. In the last
-- case the row's first word, which makes it valid, is the last to be written, in a state in which
-- it still has its old value.
pub ich_assign_lem :
    (cp : ControlPlane) (Valid : cp.State → Type 0) (rows : ℕ)
    (law : RowTable cp Valid rows entry_words) (s : cp.State) (ds ds' r' j : ℕ) (valid : Valid s)
    (few : rows < 256)
    → r' < rows
    → j < entry_words
    → AssignOutcome cp Valid rows law s ds ds' r' j valid few
unfolding ich_assign
ich_assign_lem cp Valid rows law s ds ds' r' j valid few row_in word_in =
    let (out, e, o) = scan_free_lem cp Valid rows law s ds valid few rows 0 (omega arith) in
    by_scan cp Valid rows law s ds ds' r' j valid few out row_in word_in
      (ap (λ x. x >>= λ found. assign_at cp s ds found) e) o
