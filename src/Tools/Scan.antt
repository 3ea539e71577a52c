-- ===== src/Tools/Scan.antt =====
-- How the loops of ich_assign and ich_irqmap over the rows of a table end.
use pard_gem.Prelude.{
  ℕ, zero, suc, ◌+◌, ◌≤◌, ◌<◌, ◌≡◌, refl, ap, ◌∙◌, ◌⊎◌, inl, inr, true, false, not, ◌&&◌, arith,
  ◌==◌, ==_iff, if◌then◌else◌, ok, Bool-cases, ℕ_discrete,
}
use pard_gem.Prm.ControlPlane.{ControlPlane}
use pard_gem.Prm.Tables.{all_ones}
use pard_gem.Tools.RowTable.{RowTable, word_addr}
use pard_gem.Tools.IchTool.{
  Scan, registered, free, at_end, unfinished, is_valid, word_ds_id, entry_words, scan_free,
  scan_registered,
}

module _ (cp : ControlPlane) (Valid : cp.State → Type 0) (rows : ℕ)
    (law : RowTable cp Valid rows entry_words) (s : cp.State) (ds : ℕ) (valid : Valid s)
    (few : rows < 256) where
  -- The first word of a row.
  abbrev pub HasWord : ℕ → ℕ → Type 0
  HasWord r w = cp.query_table s ds (word_addr r 0) ≡ ok w

  -- The rows from `row` up to `k` are in use.
  abbrev pub InUse : ℕ → ℕ → Type 0
  InUse row k = (j : ℕ) → row ≤ j → j < k → (w : ℕ) × HasWord j w × (is_valid w ≡ true)

  abbrev pub IsRegistered : ℕ → Type 0
  IsRegistered r =
      (r < rows) × ((w : ℕ) × HasWord r w × ((is_valid w && word_ds_id w == ds) ≡ true))

  abbrev pub IsFreeRow : ℕ → ℕ → Type 0
  IsFreeRow row r = (r < rows) × InUse row r × ((w : ℕ) × HasWord r w × (is_valid w ≡ false))

  -- The end of the table, or a row that reads as the end.
  abbrev pub IsEnd : ℕ → Type 0
  IsEnd k = (k ≡ rows) ⊎ ((k < rows) × HasWord k all_ones)

  abbrev pub FreeOutcome : ℕ → Scan → Type 0
  FreeOutcome row (registered r) = IsRegistered r
  FreeOutcome row (free r) = IsFreeRow row r
  FreeOutcome row at_end = (k : ℕ) × IsEnd k × InUse row k
  FreeOutcome row unfinished = ⊥

  extend : (row k w : ℕ) → HasWord row w → is_valid w ≡ true → InUse (row + 1) k → InUse row k
  extend row k w here used later j lo hi = elim (ℕ_discrete row j) [
    | yes same ↦ (w, rw (← same) here, used)
    | no ne ↦ later j (omega arith) hi
  ]

  widen :
      (row w : ℕ) (out : Scan)
      → HasWord row w
      → is_valid w ≡ true
      → FreeOutcome (row + 1) out
      → FreeOutcome row out
  widen row w (registered r) here used o = o
  widen row w (free r) here used (lt, later, o) = (lt, extend row r w here used later, o)
  widen row w at_end here used (k, end, later) = (k, end, extend row k w here used later)
  widen row w unfinished here used o = o

  free_step :
      (fuel row w : ℕ)
      → HasWord row w
      → scan_free cp (suc fuel) s ds row ≡ (
          if w == all_ones
          then ok at_end
          else if is_valid w && word_ds_id w == ds
          then ok (registered row)
          else if not (is_valid w)
          then ok (free row)
          else scan_free cp fuel s ds (row + 1))
  unfolding scan_free
  free_step fuel row w here = rw here refl

  pub scan_free_lem :
      (n row : ℕ)
      → row + n ≡ rows
      → (out : Scan) × (scan_free cp (suc n) s ds row ≡ ok out) × FreeOutcome row out
  scan_free_lem zero row sum =
      let here = law.ends s ds row valid (omega arith) (omega arith) in
      (at_end, free_step zero row all_ones here, (rows, inl refl, λ j lo hi. absurd (omega arith)))
  scan_free_lem (suc n) row sum =
      let (w, here) = law.reads s ds row 0 valid (omega arith) (omega arith) in
      let step = free_step (suc n) row w here in
      elim (Bool-cases (w == all_ones)) [
        | inl last ↦ (
          at_end,
          step ∙ rw last refl,
          (
            row,
            inr (omega arith, here ∙ ap ok ((==_iff w all_ones).0 last)),
            λ j lo hi. absurd (omega arith),
          ),
        )
        | inr more ↦ elim (Bool-cases (is_valid w && word_ds_id w == ds)) [
          | inl ours ↦ (registered row, step ∙ rw (more, ours) refl, (omega arith, (w, here, ours)))
          | inr other ↦ elim (Bool-cases (is_valid w)) [
            | inr unused ↦ (
              free row,
              step ∙ rw (more, other, unused) refl,
              (omega arith, λ j lo hi. absurd (omega arith), (w, here, unused)),
            )
            | inl used ↦
                (let (out, e, o) = scan_free_lem n (row + 1) (omega arith) in
                  (out, step ∙ rw (more, other, used) e, widen row w out here used o))
          ]
        ]
      ]

  -- The rows from `row` up to `k` do not serve the domain.
  abbrev pub Unserved : ℕ → ℕ → Type 0
  Unserved row k =
      (j : ℕ)
      → row ≤ j
      → j < k
      → (w : ℕ) × HasWord j w × ((is_valid w && word_ds_id w == ds) ≡ false)

  abbrev pub RegisteredOutcome : ℕ → Scan → Type 0
  RegisteredOutcome row (registered r) = IsRegistered r
  RegisteredOutcome row (free r) = ⊥
  RegisteredOutcome row at_end = (k : ℕ) × IsEnd k × Unserved row k
  RegisteredOutcome row unfinished = ⊥

  widen_registered :
      (row w : ℕ) (out : Scan)
      → HasWord row w
      → (is_valid w && word_ds_id w == ds) ≡ false
      → RegisteredOutcome (row + 1) out
      → RegisteredOutcome row out
  widen_registered row w (registered r) here other o = o
  widen_registered row w (free r) here other o = o
  widen_registered row w at_end here other (k, end, later) = (
    k,
    end,
    λ j lo hi. elim (ℕ_discrete row j) [
      | yes same ↦ (w, rw (← same) here, other)
      | no ne ↦ later j (omega arith) hi
    ],
  )
  widen_registered row w unfinished here other o = o

  registered_step :
      (fuel row w : ℕ)
      → HasWord row w
      → scan_registered cp (suc fuel) s ds row ≡ (
          if w == all_ones
          then ok at_end
          else if is_valid w && word_ds_id w == ds
          then ok (registered row)
          else scan_registered cp fuel s ds (row + 1))
  unfolding scan_registered
  registered_step fuel row w here = rw here refl

  pub scan_registered_lem :
      (n row : ℕ)
      → row + n ≡ rows
      → (out : Scan) × (scan_registered cp (suc n) s ds row ≡ ok out) × RegisteredOutcome row out
  scan_registered_lem zero row sum =
      let here = law.ends s ds row valid (omega arith) (omega arith) in
      (
        at_end,
        registered_step zero row all_ones here,
        (rows, inl refl, λ j lo hi. absurd (omega arith)),
      )
  scan_registered_lem (suc n) row sum =
      let (w, here) = law.reads s ds row 0 valid (omega arith) (omega arith) in
      let step = registered_step (suc n) row w here in
      elim (Bool-cases (w == all_ones)) [
        | inl last ↦ (
          at_end,
          step ∙ rw last refl,
          (
            row,
            inr (omega arith, here ∙ ap ok ((==_iff w all_ones).0 last)),
            λ j lo hi. absurd (omega arith),
          ),
        )
        | inr more ↦ elim (Bool-cases (is_valid w && word_ds_id w == ds)) [
          | inl ours ↦ (registered row, step ∙ rw (more, ours) refl, (omega arith, (w, here, ours)))
          | inr other ↦
              (let (out, e, o) = scan_registered_lem n (row + 1) (omega arith) in
                (out, step ∙ rw (more, other) e, widen_registered row w out here other o))
        ]
      ]
