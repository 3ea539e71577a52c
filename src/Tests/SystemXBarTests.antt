-- ===== src/Tests/SystemXBarTests.antt =====
-- Runs of the system crossbar, over the range map of ListMap.
use pard_gem.Prelude.{ℕ, ◌≡◌, refl, true, false, [], ◌∷◌, some, arith, Result, ok, fault, panic}
use pard_gem.RangeMap.{Range, Within}
use pard_gem.Tests.ListMap.{list_map, list_map-IsRangeMap}
use pard_gem.SystemXBar.{
  XPacket, XBar, Params, Answers, no_stats, init, build_map, insert_all, memory_port, io_port,
  destination, recv_timing_req,
}
use pard_gem.SystemXBar.Routing.{in_ranges, route, init-routes}
use pard_gem.SystemXBar.Retry.{with_request, recv_timing_req-retry}

abbrev low_memory : Range
low_memory = record { start = 0; size = 4096 }

abbrev high_memory : Range
high_memory = record { start = 8192; size = 4096 }

abbrev io_window : Range
io_window = record { start = 4096; size = 1024 }

abbrev params : Params
params = record {
  slave_count = 2;
  has_memory = true;
  has_io = true;
  memory_ranges = low_memory ∷ high_memory ∷ [];
  io_ranges = io_window ∷ [];
}

abbrev find_port : ℕ → ℕ
find_port a = 0

abbrev calc : XPacket → Result XPacket
calc pkt = ok (record pkt { first_word_delay = 5; last_word_delay = 9 })

apart_memory : (a : ℕ) → Within low_memory a → in_ranges (high_memory ∷ []) a ≡ false
apart_memory a h = ground arith

apart_io : (b : ℕ) → in_ranges params.memory_ranges b ≡ true → in_ranges params.io_ranges b ≡ false
apart_io b h = ground arith

init-routes_example :
    (x : XBar list_map) × (init list_map find_port calc 1000 params 1 ≡ ok x)
    × (destination list_map find_port calc 1000 x 4100 ≡ route find_port params 1 4100)
init-routes_example =
    init-routes list_map list_map-IsRangeMap find_port calc 1000 params 1 4100 refl refl
      (omega arith, apart_memory, (omega arith, λ a h. refl, tt)) (omega arith, λ a h. refl, tt)
      apart_io

-- Ranges of memory and of I/O that share an address are fatal.
overlap :
    init list_map find_port calc 1000 (record params { io_ranges = low_memory ∷ [] }) 1
    ≡ fault panic
unfolding init build_map insert_all memory_port io_port
overlap = refl

abbrev quiet : XBar list_map
quiet = record {
  fixed_port_map = (low_memory, 1) ∷ [];
  outstanding_req = 77 ∷ [];
  stats = no_stats;
  snoops = 0;
  calls = [];
}

abbrev read_line : XPacket
read_line = record {
  request = 78;
  cmd = 1;
  addr = 64;
  size = 64;
  has_data = false;
  uncacheable = false;
  express_snoop = false;
  needs_response = true;
  is_response = false;
  src = 0;
  first_word_delay = 0;
  last_word_delay = 0;
}

abbrev refusal : Answers
refusal = record {
  layer_free = true;
  bypass_caches = false;
  lookup = some (0 ∷ [], 2);
  success = false;
  cmd_after = 1;
  mem_inhibit_after = false;
  now = 100;
  header_edge = 103;
}

recv_timing_req-retry_example :
    (pkt₁ pkt₂ : XPacket) × (x₁ y z : XBar list_map) × (recv_timing_req list_map find_port calc 1000
        quiet read_line 1 refusal
      ≡ ok (false, pkt₁, x₁))
    × (recv_timing_req list_map find_port calc 1000 x₁ pkt₁ 1 (record refusal { success = true })
        ≡ ok (true, pkt₂, y))
    × (recv_timing_req list_map find_port calc 1000 quiet read_line 1
          (record refusal { success = true })
        ≡ ok (true, pkt₂, z))
    × (y ≡ record z { calls = y.calls })
    × (y.outstanding_req ≡ with_request list_map find_port calc 1000 quiet read_line)
recv_timing_req-retry_example =
    recv_timing_req-retry list_map find_port calc 1000 quiet read_line 1 refusal
      (record refusal { success = true }) (λ pkt f l. (5, 9, refl)) (refl, refl, refl, refl)
      (refl, refl, refl, refl) (refl, refl)
