-- ===== src/IchCp/Windows.antt =====
-- Where the south bridge's control plane sends an access of a domain.
use pard_gem.Prelude.{
  ℕ, zero, suc, ◌+◌, ◌%◌, ◌^◌, ◌≤◌, ◌<◌, ◌≡◌, ◌⊎◌, inl, inr, refl, Bool, true, false, List, [], ◌∷◌,
  Option, none, some, arith, ◌==◌, if◌then◌else◌, get_elem?, le→leb, lt_leb, ==_iff, dec_lt,
}
use pard_gem.Prm.Rows.{first_row, first_row_sound}
use pard_gem.IchCp.{
  IchCp, Component, Window, row_ds_id, row_selected, row_regbase, components, nowhere, covers,
  find_window, remap_in, remap_addr,
}

module _ (x86_io_address : ℕ → ℕ) where
  -- The window is that of a component of the set, at the base that the row gives it.
  abbrev pub IsComponent : IchCp → ℕ → ℕ → Window → Type 0
  IsComponent s i addr w =
      (k : ℕ) × (c : Component) × (get_elem? (components x86_io_address (row_selected s i)) k
        ≡ some c)
      × (w ≡ record { base = row_regbase s i k; remapped = c.regbase })
      × (row_regbase s i k ≤ addr)
      × (addr < (row_regbase s i k + c.regsize) % 2 ^ 64)

  -- The same, of a search from component `n` on.
  abbrev IsFound : IchCp → ℕ → ℕ → ℕ → List Component → Window → Type 0
  IsFound s i addr n cs w =
      (k : ℕ) × (j : ℕ) × (c : Component) × (j ≡ n + k)
      × (get_elem? cs k ≡ some c)
      × (w ≡ record { base = row_regbase s i j; remapped = c.regbase })
      × (row_regbase s i j ≤ addr)
      × (addr < (row_regbase s i j + c.regsize) % 2 ^ 64)

  abbrev Answer : IchCp → ℕ → ℕ → ℕ → List Component → Window → Type 0
  Answer s i addr n cs w = (w ≡ nowhere x86_io_address addr) ⊎ IsFound s i addr n cs w

  find_window_sound :
      (s : IchCp) (i addr n : ℕ) (cs : List Component)
      → Answer s i addr n cs (find_window x86_io_address s i addr n cs)
  unfolding find_window
  find_window_sound s i addr n [] = inl refl
  find_window_sound s i addr n (c ∷ cs) =
      go (covers x86_io_address (row_regbase s i n) c addr) refl
        (find_window x86_io_address s i addr (suc n) cs) (find_window_sound s i addr (suc n) cs)
    where
      go :
          (b : Bool)
          → covers x86_io_address (row_regbase s i n) c addr ≡ b
          → (later : Window) → Answer s i addr (suc n) cs later
          → Answer s i addr n
              (c ∷ cs)
              (if b then record { base = row_regbase s i n; remapped = c.regbase } else later)
      go true e later rest = inr (zero, n, c, omega arith, refl, refl, ground arith, ground arith)
      go false e later (inl none_covers) = inl none_covers
      go false e later (inr (k, j, d, place, at, w, low, high)) =
          inr (suc k, j, d, omega arith, at, w, low, high)

  remap_in_sound :
      (s : IchCp) (addr : ℕ) (o : Option ℕ)
      → ((remap_in x86_io_address s addr o).0 ≡ nowhere x86_io_address addr)
        ⊎ ((i : ℕ) × (o ≡ some i)
            × (row_selected s i < 4)
            × IsComponent s i addr (remap_in x86_io_address s addr o).0
            × ((remap_in x86_io_address s addr o).1 ≡ s))
  unfolding remap_in
  remap_in_sound s addr none = inl refl
  remap_in_sound s addr (some i) = elim (dec_lt (row_selected s i) 4) [
    | no ge ↦ rw (le→leb 4 (row_selected s i) (omega arith)) (inl refl)
    | yes lt ↦
        rw (lt_leb 4 (row_selected s i) lt)
          (elim (find_window_sound s i addr 0 (components x86_io_address (row_selected s i))) [
            | inl none_covers ↦ inl none_covers
            | inr (k, j, c, place, at, w, low, high) ↦
                let same : k ≡ j = omega arith in
                inr (i, refl, lt, (j, c, rw (← same) at, w, low, high), refl)
          ])
  ]

  -- An access of a domain goes to the address that stands for nothing, or to a component of the set
  -- that a row with the domain's DSid selects: the access lies in the component's registers, counted
  -- from the base that the row gives them, and the plane is unchanged.
  pub remap_addr_sound :
      (s : IchCp) (ds addr : ℕ)
      → ((remap_addr x86_io_address s ds addr).0 ≡ nowhere x86_io_address addr)
        ⊎ ((i : ℕ) × (row_ds_id s i ≡ ds)
            × (i < s.param_table_entries)
            × (row_selected s i < 4)
            × IsComponent s i addr (remap_addr x86_io_address s ds addr).0
            × ((remap_addr x86_io_address s ds addr).1 ≡ s))
  unfolding remap_addr
  remap_addr_sound s ds addr =
      elim (remap_in_sound s addr (first_row (λ i. row_ds_id s i == ds) s.param_table_entries 0)) [
        | inl gone ↦ inl gone
        | inr (i, found, small, component, same) ↦
            let (served, _, inside, _) =
              first_row_sound (λ j. row_ds_id s j == ds) s.param_table_entries 0 found in
            inr (i, (==_iff (row_ds_id s i) ds).0 served, omega arith, small, component, same)
      ]
