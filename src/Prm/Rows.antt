-- ===== src/Prm/Rows.antt =====
-- The loops of the control planes that look for the first row of a table that passes a test.
use pard_gem.Prelude.{
  ℕ, zero, suc, ◌+◌, ◌≤◌, ◌<◌, ◌≡◌, refl, inl, inr, Bool, true, false, Option, none, some, arith,
  if◌then◌else◌, Bool-cases, ℕ_discrete,
}

-- `for (i = first; i < first + n; i++) if (test(i)) break;`
unfoldable pub first_row : (ℕ → Bool) → ℕ → ℕ → Option ℕ
first_row test zero i = none
first_row test (suc n) i = if test i then some i else first_row test n (suc i)

-- The row that is found passes the test, and no row before it does.
pub first_row_sound :
    (test : ℕ → Bool) (n i : ℕ) {r : ℕ}
    → first_row test n i ≡ some r
    → (test r ≡ true) × (i ≤ r) × (r < i + n) × ((j : ℕ) → i ≤ j → j < r → test j ≡ false)
unfolding first_row
first_row_sound test zero i e = cc
first_row_sound test (suc n) i {r} e = elim (Bool-cases (test i)) [
  | inl t ↦
      let same : i ≡ r = ground arith in
      (rw (← same) t, omega arith, omega arith, λ j p q. absurd (omega arith))
  | inr f ↦
      let rest : first_row test n (suc i) ≡ some r = ground arith in
      let (t, lo, hi, before) = first_row_sound test n (suc i) rest in
      (
        t,
        omega arith,
        omega arith,
        λ j p q. elim (ℕ_discrete i j) [
          | yes same ↦ rw (← same) f
          | no ne ↦ before j (omega arith) q
        ],
      )
]

-- The first row that passes is found.
pub first_row_complete :
    (test : ℕ → Bool) (n i r : ℕ)
    → i ≤ r
    → r < i + n
    → test r ≡ true
    → ((j : ℕ) → i ≤ j → j < r → test j ≡ false)
    → first_row test n i ≡ some r
unfolding first_row
first_row_complete test zero i r lo hi t before = absurd (omega arith)
first_row_complete test (suc n) i r lo hi t before = elim (ℕ_discrete i r) [
  | yes e ↦ rw (e, t)
  | no ne ↦ rw (before i (omega arith) (omega arith)) (
      first_row_complete test n (suc i) r (omega arith) (omega arith) t
        (λ j p q. before j (omega arith) q))
]

pub first_row-none :
    (test : ℕ → Bool) (n i : ℕ)
    → ((j : ℕ) → i ≤ j → j < i + n → test j ≡ false)
    → first_row test n i ≡ none
unfolding first_row
first_row-none test zero i all = refl
first_row-none test (suc n) i all =
    rw (all i (omega arith) (omega arith))
      (first_row-none test n (suc i) (λ j p q. all j (omega arith) (omega arith)))
