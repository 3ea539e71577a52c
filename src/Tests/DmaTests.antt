-- ===== src/Tests/DmaTests.antt =====
-- Runs of the DMA port on a transfer that crosses a cache line.
use pard_gem.Prelude.{
  ℕ, zero, suc, ◌+◌, ◌-◌, ◌%◌, ◌*◌, ◌≡◌, refl, subst, min, true, false, List, [], ◌∷◌, ◌++◌, none,
  some, arith, ◌==◌, if◌then◌else◌, Result, ok, fault, assertion, length, get_elem?,
}
use pard_gem.Dma.{
  Chunk, ReqState, DmaPacket, Port, Transfer, Peer, read_req, atomic, dma_action, handle_resp,
  recv_timing_resp, schedule_rest, try_send_from, try_send_timing_req, send_all_atomic,
  send_by_mode, send_dma, new_state, make_response,
}
use pard_gem.Dma.Heap.{Live}
use pard_gem.Dma.Owed.{packets, remove_at}
use pard_gem.Dma.Inv.{Core, due}
use pard_gem.Dma.Response.{Progress}
use pard_gem.Dma.World.{World, Action, transfer, send_event, Inv, Enabled, run, run_all}
use pard_gem.Dma.Safety.{
  start, start-Inv, Follows, run-Inv, dma_run_safe, recv_timing_resp_progress,
}
use pard_gem.Dma.Timing.{service, emptied, service_lem}
use pard_gem.Dma.Device.{AreOf, transfer_tags}
use pard_gem.Dma.Atomic.{IsDone, last_latency, dma_action_atomic}

-- Chunks that end at the boundaries of lines of 64 bytes.
abbrev split_lines : ℕ → ℕ → ℕ → List Chunk
split_lines zero addr size = []
split_lines (suc rounds) addr size =
    let n = min (64 - addr % 64) size in
    let rest = split_lines rounds (addr + n) (size - n) in
    if size == 0 then [] else record { addr = addr; size = n } ∷ rest

abbrev line_chunks : ℕ → ℕ → List Chunk
line_chunks addr size = split_lines 4 addr size

abbrev read_ten : Transfer
read_ten = record {
  cmd = read_req;
  ds_id = 2;
  addr = 60;
  size = 10;
  event = some 7;
  data_at = none;
  delay = 3;
  flags = 0;
}

two_chunks :
    line_chunks 60 10 ≡ record { addr = 60; size = 4 } ∷ record { addr = 64; size = 6 } ∷ []
two_chunks = refl

abbrev after : World → Action → World
after w a = elim (run line_chunks w a) [ ok v ↦ v | fault _ ↦ w ]

abbrev begin : Action
begin = transfer read_ten true 0 1

-- The first packet is sent at once, and the second waits for the send event.
abbrev begun : World
begun = after start begin

begins : run line_chunks start begin ≡ ok begun
unfolding run dma_action send_dma send_by_mode try_send_timing_req try_send_from schedule_rest start
begins = refl

begun_at : begun.port.send_at ≡ some 1
unfolding run dma_action send_dma send_by_mode try_send_timing_req try_send_from schedule_rest start
begun_at = refl

begin-Enabled : Enabled line_chunks start begin
unfolding start
begin-Enabled = (
  ((omega arith, (omega arith, tt)), refl),
  omega arith,
  omega arith,
  omega arith,
  λ e same. (refl, λ k s l. cc),
)

ok_eq : {A : Type 0} {r : Result A} {a b : A} → r ≡ ok a → r ≡ ok b → a ≡ b
ok_eq e f = cc

begin-Follows : Follows line_chunks start (begin ∷ send_event true 1 2 ∷ [])
begin-Follows = (
  begin-Enabled,
  λ w e.
      subst (λ u. Follows line_chunks u (send_event true 1 2 ∷ [])) (ok_eq begins e)
        (begun_at, λ w' e'. tt),
)

dma_run_safe_example :
    (w : World) × (run_all line_chunks start (begin ∷ send_event true 1 2 ∷ []) ≡ ok w) × Inv w
dma_run_safe_example = dma_run_safe line_chunks (begin ∷ send_event true 1 2 ∷ []) begin-Follows

begun-Inv : Inv begun
begun-Inv =
    let (w, e, v) = run-Inv line_chunks start begin start-Inv begin-Enabled in
    subst Inv (ok_eq e begins) v

service_lem_example :
    (run_all line_chunks begun (service begun.port.transmit_list 1 1) ≡ ok (emptied begun))
    × Follows line_chunks begun (service begun.port.transmit_list 1 1)
service_lem_example = service_lem line_chunks begun 1 1 begun-Inv begun_at

-- The first packet, and its response.
abbrev first_packet : DmaPacket
first_packet = record {
  cmd = read_req;
  ds_id = 2;
  addr = 60;
  size = 4;
  flags = 0;
  data_at = none;
  state = some 0;
  is_response = false;
  mem_inhibit = false;
  shared = false;
}

first_in_flight : get_elem? begun.in_flight 0 ≡ some first_packet
unfolding run dma_action send_dma send_by_mode try_send_timing_req try_send_from schedule_rest start
first_in_flight = refl

recv_timing_resp_progress_example :
    (k : ℕ) × (s : ReqState) × (p : Port) × (first_packet.state ≡ some k)
    × Live begun.port.states k s
    × (recv_timing_resp begun.port (make_response first_packet) 5 ≡ ok p)
    × Progress begun.port p k s
        (s.num_bytes + first_packet.size)
        (remove_at begun.in_flight 0 ++ begun.port.transmit_list)
        (due s 0 5)
recv_timing_resp_progress_example =
    recv_timing_resp_progress begun 0 first_packet (make_response first_packet) 5 begun-Inv
      first_in_flight (refl, refl, refl) refl

-- In atomic mode.
abbrev idle_port : Port
idle_port = record {
  mode = atomic;
  transmit_list = [];
  pending_count = 0;
  in_retry = false;
  send_at = none;
  drain_manager = none;
  states = [];
  scheduled = [];
  drained = [];
}

abbrev memory : Peer
memory = record { accepts = true; latency = λ pkt. pkt.size * 10 }

idle_port-Core : Core idle_port []
idle_port-Core = record {
  counted = refl;
  small = omega arith;
  balanced = λ k s e. cc;
  unfinished = λ k s e. cc;
  bounded = λ k s e. cc;
  marked = tt;
  idle = λ k x s e c. cc;
  distinct = λ k j x s u e e' c c'. cc;
}

dma_action_atomic_example :
    (p : Port) × (dma_action line_chunks idle_port read_ten memory 100 101 ≡ ok p)
    × IsDone idle_port p 0 (new_state read_ten) (
        due
          (new_state read_ten)
          (last_latency memory.latency (packets read_ten 0 (line_chunks 60 10) 0))
          100)
dma_action_atomic_example =
    dma_action_atomic line_chunks idle_port read_ten memory 100 101 idle_port-Core refl refl
      ((omega arith, (omega arith, tt)), refl) (omega arith) (omega arith) (omega arith)
      (λ e same. (refl, λ k s l. cc))

-- The completion event 7 is due after 60 ticks of the last packet and 3 of delay.
atomic_schedules :
    dma_action line_chunks idle_port read_ten memory 100 101
    ≡ ok (record idle_port { states = none ∷ []; scheduled = (7, 163) ∷ [] })
unfolding dma_action send_dma send_by_mode send_all_atomic handle_resp
atomic_schedules = refl

-- A DMA action of no bytes on an idle port fails the assertion of sendDma.
no_bytes :
    dma_action line_chunks idle_port (record read_ten { size = 0 }) memory 0 1 ≡ fault assertion
unfolding dma_action send_dma
no_bytes = refl

-- A device that has no DSid sends with 65535 all the same.
abbrev untagged : Transfer
untagged = record read_ten { ds_id = 65535 }

untagged_sends :
    dma_action line_chunks idle_port untagged memory 100 101
    ≡ ok (record idle_port { states = none ∷ []; scheduled = (7, 163) ∷ [] })
unfolding dma_action send_dma send_by_mode send_all_atomic handle_resp
untagged_sends = refl

transfer_tags_example :
    (w : World) × (new : List DmaPacket) × (run line_chunks start begin ≡ ok w)
    × (w.in_flight ++ w.port.transmit_list ≡ (start.in_flight ++ start.port.transmit_list) ++ new)
    × (length new ≡ length (line_chunks 60 10))
    × AreOf read_ten new
transfer_tags_example = transfer_tags line_chunks start read_ten true 0 1 start-Inv begin-Enabled
