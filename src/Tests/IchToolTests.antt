-- ===== src/Tests/IchToolTests.antt =====
-- The tool on a south bridge's control plane with two rows, the second of which serves DSid 1.
use pard_gem.Prelude.{◌+◌, ◌*◌, ◌^◌, ◌≡◌, refl, arith, ok, []}
use pard_gem.Bytes.{put_at, word_at, load}
use pard_gem.Prm.Address.{entry_at}
use pard_gem.Prm.Tables.{query}
use pard_gem.IchCp.{IchCp, new_rows, parse_addr, query_table}
use pard_gem.IchCp.Safety.{ich_plane}
use pard_gem.Tools.RowTable.{RowTable, word_addr}
use pard_gem.Tools.IchTool.{entry_words}
use pard_gem.Tools.Assign.{AssignOutcome, ich_assign_lem}
use pard_gem.Tools.IrqMap.{MapOutcome, ich_irqmap_lem}
use pard_gem.Tools.IchPlane.{IsPlane, ich_plane-RowTable}

plane : IchCp
unfolding put_at
plane = record {
  param_table_entries = 2;
  tables = record {
    params = put_at 8 (new_rows 2) 136 (1 + 1 * 2 ^ 32);
    stats = [];
    info = [];
    config = [];
  };
}

plane-IsPlane : IsPlane 2 plane
unfolding plane
plane-IsPlane = (record { params = refl }, refl)

two_rows : RowTable ich_plane (IsPlane 2) 2 entry_words
two_rows = ich_plane-RowTable 2 (omega arith)

-- DSid 2 gets row 0, the first that is free.
ich_assign_lem_example :
    AssignOutcome ich_plane (IsPlane 2) 2 two_rows plane 2 0 0 5 plane-IsPlane (omega arith)
ich_assign_lem_example =
    ich_assign_lem ich_plane (IsPlane 2) 2 two_rows plane 2 0 0 5 plane-IsPlane (omega arith)
      (omega arith) (omega arith)

ich_irqmap_lem_example :
    MapOutcome ich_plane (IsPlane 2) 2 two_rows plane 1 0 4 9 1 7 plane-IsPlane (omega arith)
ich_irqmap_lem_example =
    ich_irqmap_lem ich_plane (IsPlane 2) 2 two_rows plane 1 0 4 9 1 7 plane-IsPlane (omega arith)
      (omega arith) (omega arith) (omega arith)

serves_one : query_table plane 0 (word_addr 1 0) ≡ ok (1 + 2 ^ 32)
unfolding plane query_table parse_addr load word_at query entry_at
serves_one = refl
