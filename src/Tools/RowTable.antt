-- ===== src/Tools/RowTable.antt =====
-- What a tool relies on in a control plane: a parameter table of `rows` rows of `words` words. The
-- tools reach it through the ioctl calls CPA_IOCGENTRY and CPA_IOCSENTRY of the guest's driver,
-- which hand the address on and succeed.
use pard_gem.Prelude.{ℕ, ◌+◌, ◌*◌, ◌%◌, ◌^◌, ◌≤◌, ◌<◌, ◌≡◌, ◌≢◌, ◌⊎◌, ok}
use pard_gem.Prm.ControlPlane.{ControlPlane}
use pard_gem.Prm.Tables.{all_ones}

-- `0x00000000 | (rowid&0xFF)<<10 | (offset&0x3FF)`: the fields do not overlap.
abbrev pub param_addr : ℕ → ℕ → ℕ
param_addr rowid offset = rowid % 2 ^ 8 * 2 ^ 10 + offset % 2 ^ 10

abbrev pub word_addr : ℕ → ℕ → ℕ
word_addr row i = param_addr row (i * 8)

pub record RowTable (cp : ControlPlane) (Valid : cp.State → Type 0) (rows words : ℕ) : Type 0 where
  pub reads :
      (s : cp.State) (ds r i : ℕ)
      → Valid s
      → r < rows
      → i < words
      → (v : ℕ) × (cp.query_table s ds (word_addr r i) ≡ ok v)
  pub writes :
      (s : cp.State) (ds r i v : ℕ)
      → Valid s
      → r < rows
      → i < words
      → v < 2 ^ 64
      → (t : cp.State) × (cp.update_table s ds (word_addr r i) v ≡ ok t) × Valid t
  pub reads_back :
      (s t : cp.State) (ds ds' r i v : ℕ)
      → Valid s
      → r < rows
      → i < words
      → v < 2 ^ 64
      → cp.update_table s ds (word_addr r i) v ≡ ok t
      → cp.query_table t ds' (word_addr r i) ≡ ok v
  pub keeps :
      (s t : cp.State) (ds ds' r i v r' i' : ℕ)
      → Valid s
      → r < rows
      → i < words
      → r' < rows
      → i' < words
      → (r ≢ r') ⊎ (i ≢ i')
      → cp.update_table s ds (word_addr r i) v ≡ ok t
      → cp.query_table t ds' (word_addr r' i') ≡ cp.query_table s ds' (word_addr r' i')
  pub ends :
      (s : cp.State) (ds r : ℕ)
      → Valid s
      → rows ≤ r
      → r < 256
      → cp.query_table s ds (word_addr r 0) ≡ ok all_ones
