-- ===== src/IchCp/Interrupts.antt =====
-- From an interrupt line to the domains that see it: the targets of dev/cellx/ich_cp.cc, and what
-- the I/O APIC of dev/cellx/i82094ax.cc sends to them.
use pard_gem.Prelude.{
  ℕ, zero, suc, ◌+◌, ◌*◌, ◌≤◌, ◌<◌, ◌≡◌, ◌≢◌, refl, subst, sym, List, [], ◌∷◌, some, arith, ◌==◌,
  if◌then◌else◌, Result, ok, ◌>>=◌, bind_ok, get_elem?, ℕ_discrete,
}
use pard_gem.Bytes.{load, load_in, word_at}
use pard_gem.IchCp.{
  IchCp, param_entry_size, intlines_offset, no_line, row_ds_id, targets_from, remap_interrupt,
}
use pard_gem.IchCp.Safety.{IsValid}
use pard_gem.IoApic.{table_size}

-- The row sends the line on as the guest's line `l`.
abbrev pub Routes : IchCp → ℕ → ℕ → ℕ → Type 0
Routes s line row l =
    (load 4 s.tables.params (row * param_entry_size + intlines_offset + line * 4) ≡ ok l)
    × (l ≢ no_line)

no_target : (k : ℕ) {x : ℕ × ℕ} → get_elem? [] k ≡ some x → ⊥
no_target k e = cc

-- A target of a table whose rows are below `n`.
abbrev pub IsTarget : IchCp → ℕ → ℕ → ℕ → ℕ → Type 0
IsTarget s line n ds l = (row : ℕ) × (row < n) × (row_ds_id s row ≡ ds) × Routes s line row l

first_or_later :
    (s : IchCp) (line i n target k : ℕ) (rest : List (ℕ × ℕ)) {ds l : ℕ}
    → Routes s line i target
    → i < n
    → get_elem? ((row_ds_id s i, target) ∷ rest) k ≡ some (ds, l)
    → ((j : ℕ) → get_elem? rest j ≡ some (ds, l) → IsTarget s line n ds l)
    → IsTarget s line n ds l
first_or_later s line i n target zero rest {ds} {l} routes lt at later =
    let same : target ≡ l = cc in (i, lt, cc, subst (Routes s line i) same routes)
first_or_later s line i n target (suc k) rest routes lt at later = later k at

pub targets_from_sound :
    (s : IchCp) (line n i k : ℕ) {ts : List (ℕ × ℕ)} {ds l : ℕ}
    → targets_from s line n i ≡ ok ts
    → get_elem? ts k ≡ some (ds, l)
    → IsTarget s line (i + n) ds l
unfolding targets_from
targets_from_sound s line zero i k {ts} {ds} {l} e at =
    let empty : [] ≡ ts = cc in
    absurd (no_target k (subst (λ xs. get_elem? xs k ≡ some (ds, l)) (sym empty) at))
targets_from_sound s line (suc n) i k {ts} {ds} {l} e at =
    let after : ℕ → Result (List (ℕ × ℕ)) = λ target. targets_from s line n (suc i) >>= λ rest.
    ok (if target == no_line then rest else (row_ds_id s i, target) ∷ rest) in
    let (target, found, e₁) =
      bind_ok (load 4 s.tables.params (i * param_entry_size + intlines_offset + line * 4)) after
        e in
    let (rest, more, e₂) =
      bind_ok (targets_from s line n (suc i))
        (λ rest. ok (if target == no_line then rest else (row_ds_id s i, target) ∷ rest)) e₁ in
    let step : suc i + n ≡ i + suc n = omega arith in
    elim (ℕ_discrete target no_line) [
      | yes off ↦
          let same : rest ≡ ts = ground arith in
          subst (λ m. IsTarget s line m ds l) step
            (targets_from_sound s line n (suc i) k more
              (subst (λ xs. get_elem? xs k ≡ some (ds, l)) (sym same) at))
      | no on ↦
          let same : (row_ds_id s i, target) ∷ rest ≡ ts = ground arith in
          first_or_later s line i (i + suc n) target k rest (found, on) (omega arith)
            (subst (λ xs. get_elem? xs k ≡ some (ds, l)) (sym same) at)
            (λ j there.
              subst (λ m. IsTarget s line m ds l) step
                (targets_from_sound s line n (suc i) j more there))
    ]

targets_from-total :
    (s : IchCp) (line n i : ℕ)
    → IsValid s
    → line < table_size
    → i + n ≤ s.param_table_entries
    → (ts : List (ℕ × ℕ)) × (targets_from s line n i ≡ ok ts)
unfolding targets_from
targets_from-total s line zero i valid lt room = ([], refl)
targets_from-total s line (suc n) i valid lt room =
    let inside =
      load_in 4 s.tables.params (i * param_entry_size + intlines_offset + line * 4)
        (omega (arith, valid.params)) in
    let (rest, e) = targets_from-total s line n (suc i) valid lt (omega arith) in
    (
      (if word_at 4 s.tables.params (i * param_entry_size + intlines_offset + line * 4) == no_line
          then rest
          else (
            row_ds_id s i,
            word_at 4 s.tables.params (i * param_entry_size + intlines_offset + line * 4),
          )
            ∷ rest),
      rw (inside, e, ◌>>=◌) refl,
    )

-- The row's target is in the list.
abbrev Lists : IchCp → ℕ → ℕ → List (ℕ × ℕ) → Type 0
Lists s row l ts = (k : ℕ) × (get_elem? ts k ≡ some (row_ds_id s row, l))

targets_from_complete :
    (s : IchCp) (line n i row : ℕ) {ts : List (ℕ × ℕ)} {l : ℕ}
    → targets_from s line n i ≡ ok ts
    → i ≤ row
    → row < i + n
    → Routes s line row l
    → Lists s row l ts
unfolding targets_from
targets_from_complete s line zero i row e lo hi routes = absurd (omega arith)
targets_from_complete s line (suc n) i row {ts} {l} e lo hi routes =
    let after : ℕ → Result (List (ℕ × ℕ)) = λ target. targets_from s line n (suc i) >>= λ rest.
    ok (if target == no_line then rest else (row_ds_id s i, target) ∷ rest) in
    let (target, found, e₁) =
      bind_ok (load 4 s.tables.params (i * param_entry_size + intlines_offset + line * 4)) after
        e in
    let (rest, more, e₂) =
      bind_ok (targets_from s line n (suc i))
        (λ rest. ok (if target == no_line then rest else (row_ds_id s i, target) ∷ rest)) e₁ in
    elim (ℕ_discrete i row) [
      | yes here ↦
          let place : load 4 s.tables.params (i * param_entry_size + intlines_offset + line * 4)
              ≡ ok l =
            subst
              (λ x.
                load 4 s.tables.params (x * param_entry_size + intlines_offset + line * 4) ≡ ok l)
              (sym here) routes.0 in
          let eq : target ≡ l = cc in
          let same : (row_ds_id s i, target) ∷ rest ≡ ts = ground (arith, routes.1) in
          (
            zero,
            subst (λ xs. get_elem? xs zero ≡ some (row_ds_id s row, l)) same (rw (here, eq) refl),
          )
      | no there ↦
          let (k, at) =
            targets_from_complete s line n (suc i) row {l = l} more (omega arith) (omega arith)
              routes in
          elim (ℕ_discrete target no_line) [
            | yes off ↦
                let same : rest ≡ ts = ground arith in
                (k, subst (λ xs. get_elem? xs k ≡ some (row_ds_id s row, l)) same at)
            | no on ↦
                let same : (row_ds_id s i, target) ∷ rest ≡ ts = ground arith in
                (suc k, subst (λ xs. get_elem? xs (suc k) ≡ some (row_ds_id s row, l)) same at)
          ]
    ]

-- On a valid plane, for one of the 24 lines: the list of targets is computed, and a row whose entry
-- for the line is not -1 has its DSid and the guest's line in it.
pub remap_interrupt_complete :
    (s : IchCp) (line row l : ℕ)
    → IsValid s
    → line < table_size
    → row < s.param_table_entries
    → Routes s line row l
    → (ts : List (ℕ × ℕ)) × (remap_interrupt s line ≡ ok ts)
      × ((k : ℕ) × (get_elem? ts k ≡ some (row_ds_id s row, l)))
unfolding remap_interrupt
remap_interrupt_complete s line row l valid lt inside routes =
    let (ts, e) = targets_from-total s line s.param_table_entries 0 valid lt (omega arith) in
    (
      ts,
      e,
      targets_from_complete s line s.param_table_entries 0 row e (omega arith) (omega arith) routes,
    )
