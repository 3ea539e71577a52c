-- ===== src/Tests/MemTests.antt =====
-- A request of domain 1 to address 0x1000, and its response, through the memory controller, a mapper
-- and a tagged crossbar.
use pard_gem.Prelude.{
  ℕ, ◌+◌, ◌*◌, ◌≤◌, ◌<◌, ◌≡◌, ◌≢◌, refl, true, false, [], ◌∷◌, some, arith, ok, ◌^◌,
}
use pard_gem.Mem.Packet.{Packet, mem_ctrl_state, mapper_state, foreign_state, clear_delays}
use pard_gem.Mem.MemCtrl
use pard_gem.Mem.AddrMapper
use pard_gem.Mem.TagXBar

abbrev request : Packet
request = record {
  addr = 0x1000;
  src = 3;
  dest = 9;
  ds_id = some 1;
  needs_response = true;
  mem_inhibit = false;
  first_word_delay = 4;
  last_word_delay = 6;
  sender_state = foreign_state 2 ∷ [];
}

-- What the memory sees of it.
abbrev moved : Packet
moved = record request {
  addr = 0x80001000;
  first_word_delay = 0;
  last_word_delay = 0;
  sender_state = mem_ctrl_state 3 0x1000 ∷ foreign_state 2 ∷ [];
}

remap_addr-isolates_example :
    (1 * MemCtrl.window ≤ 0x80001000)
    × (0x80001000 < (1 + 1) * MemCtrl.window)
    × (◌≢◌ {A = ℕ} 0x80001000 0x100001000)
unfolding MemCtrl.remap_addr
remap_addr-isolates_example =
    MemCtrl.remap_addr-isolates 1 2 0x1000 0x1000 (omega arith) (omega arith) (omega arith) refl
      refl

response_reverses_remap_example :
    MemCtrl.recv_timing_resp moved true
    ≡ ok (
      true,
      record (clear_delays moved) { dest = 3; addr = 0x1000; sender_state = foreign_state 2 ∷ [] },
    )
unfolding MemCtrl.recv_timing_req MemCtrl.remapped MemCtrl.remap_addr
response_reverses_remap_example = MemCtrl.response_reverses_remap request moved refl refl refl

refused_request_drifts_example :
    (refused : Packet) × (there : Packet) × (MemCtrl.recv_timing_req request false
      ≡ ok (false, refused))
    × (refused.sender_state ≡ foreign_state 2 ∷ [])
    × (refused.addr ≡ 0x1000 + MemCtrl.window)
    × (MemCtrl.recv_timing_req refused true ≡ ok (true, there))
    × (MemCtrl.remap_addr 2 0x1000 ≡ ok there.addr)
refused_request_drifts_example = MemCtrl.refused_request_drifts request refl refl refl (omega arith)

-- A mapper that moves each domain by a megabyte, with hooks that do nothing.
abbrev by_domain : ℕ → ℕ → ℕ
by_domain addr ds = addr + ds * 2 ^ 20

abbrev no_hook : Packet → Packet
no_hook p = p

abbrev mapped : Packet
mapped = record request {
  addr = 0x101000;
  sender_state = mapper_state 0x1000 ∷ foreign_state 2 ∷ [];
}

response_reverses_map_example :
    AddrMapper.recv_timing_resp by_domain no_hook no_hook mapped true
    ≡ ok (true, record mapped { addr = 0x1000; sender_state = foreign_state 2 ∷ [] })
unfolding AddrMapper.recv_timing_req
response_reverses_map_example =
    AddrMapper.response_reverses_map by_domain no_hook no_hook request mapped (λ p. refl) refl refl
      refl
