-- ===== src/RangeMap.antt =====
-- What the code uses of gem5's AddrRangeMap, as an interface: ranges of addresses that do not overlap,
-- each with a value. A range is its first address and the number of its addresses.
use pard_gem.Prelude.{ℕ, ◌+◌, ◌≤◌, ◌<◌, ◌≡◌, ◌≢◌, Option, none, some}

pub record Range : Type 0 where
  pub start : ℕ
  pub size : ℕ

-- RangeSize.
abbrev pub Within : Range → ℕ → Type 0
Within r a = (r.start ≤ a) × (a < r.start + r.size)

-- `insert` gives `none` for `end()`, when nothing was inserted, and so does `find`.
pub record RangeMap (V : Type 0) : Type 1 where
  pub Map : Type 0
  pub empty : Map
  pub insert : Map → Range → V → Option Map
  pub find : Map → ℕ → Option V

-- A range is inserted exactly when no address of it is taken, and then its addresses find its value
-- while all others find what they found before.
pub record IsRangeMap {V : Type 0} (R : RangeMap V) : Type 0 where
  pub find_empty : (a : ℕ) → R.find R.empty a ≡ none
  pub inserts :
      (m : R.Map) (r : Range) (v : V)
      → 0 < r.size
      → ((a : ℕ) → Within r a → R.find m a ≡ none)
      → (m' : R.Map) × (R.insert m r v ≡ some m')
  pub refuses :
      (m : R.Map) (r : Range) (v : V) (a : ℕ)
      → Within r a
      → R.find m a ≢ none
      → R.insert m r v ≡ none
  pub finds :
      (m m' : R.Map) (r : Range) (v : V) (a : ℕ)
      → R.insert m r v ≡ some m'
      → Within r a
      → R.find m' a ≡ some v
  pub keeps :
      (m m' : R.Map) (r : Range) (v : V) (a : ℕ)
      → R.insert m r v ≡ some m'
      → ¬ Within r a
      → R.find m' a ≡ R.find m a
