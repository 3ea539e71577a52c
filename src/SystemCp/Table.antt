-- ===== src/SystemCp/Table.antt =====
-- The system control plane as a table behind a connector.
use pard_gem.Prelude.{ℕ, ◌≡◌, ◌≢◌, none, some, refl, ap, ok}
use pard_gem.Prm.ControlPlane.{ControlPlane, IsTable}
use pard_gem.Prm.Tables.{Pointer}
use pard_gem.SystemCp.{SystemCp, parse_addr, query_table, update_table}
use pard_gem.SystemCp.Safety.{
  IsValid, answer, query_table_total, update_table_total, query_table-update_table,
}

abbrev pub system_plane : ControlPlane
system_plane = record { State = SystemCp; query_table = query_table; update_table = update_table }

-- The addresses that name a word.
abbrev pub IsKnown : SystemCp → ℕ → Type 0
IsKnown s addr = parse_addr s addr ≢ none

answer-some : (p : Pointer) (v : ℕ) → p ≢ none → answer p v ≡ v
answer-some none v known = absurd (known refl)
answer-some (some _) v known = refl

pub system_plane-IsTable : IsTable system_plane IsValid IsKnown
system_plane-IsTable = record {
  answers = λ s ds addr valid known. query_table_total s ds addr valid;
  accepts = λ s ds addr v valid known. update_table_total s ds addr v valid;
  reads_back = λ s t ds ds' addr v valid known lt e.
      let (u, w, _, got) = query_table-update_table s ds ds' addr v valid lt in
      let same : t ≡ u = cc in rw (same, got) (ap ok (answer-some (parse_addr s addr) v known));
}
