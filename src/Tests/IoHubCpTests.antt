-- ===== src/Tests/IoHubCpTests.antt =====
-- The I/O hub's control plane with two rows and 32 devices; row 0 serves DSid 5 with device 0.
use pard_gem.Prelude.{
  ℕ, ◌≤◌, ◌<◌, ◌≡◌, ◌≢◌, refl, true, [], ◌∷◌, arith, ok, fault, out_of_bounds, null_pointer, length,
  replicate, get_elem?, ltb, if◌then◌else◌,
}
use pard_gem.Bytes.{word_at, put_at}
use pard_gem.Prm.Address.{cfgtbl_addr}
use pard_gem.IoHubCp.{IoHubCp, query_table, update_table, get_device_mask, row_device_mask}
use pard_gem.IoHubCp.Assign.{bit, assigned}
use pard_gem.IoHubCp.Safety.{IsValid, query_table-stat_overrun}
use pard_gem.IoHubCp.Program.{program_row, program_row_missing, row_word}

hub : IoHubCp
unfolding put_at
hub = record {
  param_table_entries = 2;
  stat_table_entries = 1;
  tables = record {
    params = put_at 8 (replicate 16 0) 0 (row_word 1 5 1);
    stats = replicate 4 0;
    info = replicate 1288 0;
    config = [];
  };
  registered = true;
  device_tags = 5 ∷ replicate 31 0xffff;
}

hub-IsValid : IsValid hub
unfolding hub
hub-IsValid = record { params = refl; stats = refl; info = refl; bytes = omega arith }

-- The word of row 0 does not fit in the one entry of four bytes.
query_table-stat_overrun_example : query_table hub 0 (cfgtbl_addr 1 0 0) ≡ fault out_of_bounds
unfolding hub
query_table-stat_overrun_example =
    query_table-stat_overrun hub 0 0 0 hub-IsValid (omega arith) (omega arith) (omega arith)
      (omega arith)

hub_row : row_device_mask hub 0 ≡ 1
unfolding hub word_at
hub_row = refl

hub_room : 0 < hub.param_table_entries
unfolding hub
hub_room = omega arith

changed_named :
    (j : ℕ) → j < 32 → bit (row_device_mask hub 0) j ≢ bit 2 j → j < length hub.device_tags
unfolding hub
changed_named j lt d = omega arith

-- Device 1 is added, device 0 taken away.
program_row_example :
    (t : IoHubCp) × (update_table hub 9 (cfgtbl_addr 0 0 0) (row_word 1 5 2) ≡ ok t)
    × ((j : ℕ)
        → get_elem? t.device_tags j ≡ (
            if ltb j 32
            then assigned (row_device_mask hub 0) 2 5 hub.device_tags j
            else get_elem? hub.device_tags j))
    × (get_device_mask t 5 ≡ 2)
program_row_example =
    program_row hub 0 1 5 2 hub-IsValid hub_room (omega arith) (omega arith) (omega arith) 9
      (omega arith) refl changed_named (λ i lt. absurd (omega arith))

-- The same hub with three devices.
few : IoHubCp
unfolding hub
few = record hub { device_tags = 5 ∷ 0xffff ∷ 0xffff ∷ [] }

few-IsValid : IsValid few
unfolding few
few-IsValid = record { params = refl; stats = refl; info = refl; bytes = omega arith }

few_room : 0 < few.param_table_entries
unfolding few
few_room = omega arith

few_changed : bit (row_device_mask few 0) 3 ≢ bit 9 3
unfolding few bit word_at
few_changed = omega arith

few_missing : length few.device_tags ≤ 3
unfolding few
few_missing = omega arith

-- Bit 3 of the mask 9 names no device.
program_row_missing_example :
    update_table few 9 (cfgtbl_addr 0 0 0) (row_word 1 5 9) ≡ fault null_pointer
program_row_missing_example =
    program_row_missing few 0 1 5 9 few-IsValid few_room (omega arith) (omega arith) (omega arith) 9
      3 (omega arith) refl (omega arith) few_changed few_missing
