-- ===== src/Dma.antt =====
-- dev/pard/dma_device.cc: the DMA port of a device. A DMA action is split into packets of at most a
-- cache line that share one heap-allocated DmaReqState; the last response frees that state and
-- schedules the device's completion event.
pub mod Heap
pub mod Owed
pub mod Inv
pub mod Response
pub mod Queue
pub mod World
pub mod Send
pub mod Steps
pub mod Start
pub mod Safety
pub mod Timing
pub mod Atomic
pub mod Device
use pard_gem.Prelude.{
  ℕ, zero, suc, ◌+◌, ◌-◌, ◌%◌, ◌^◌, Bool, true, false, not, ◌&&◌, ◌||◌, List, [], ◌∷◌, ◌++◌, Option,
  none, some, leb, ◌==◌, if◌then◌else◌, Result, ok, fault, assertion, panic, out_of_bounds, ◌>>=◌,
  ◌>>◌, require, length, get_elem?, set, ℤ, pos, negsuc, ==ℤ,
}

-- What a ChunkGenerator yields for each round of its loop.
pub record Chunk : Type 0 where
  pub addr : ℕ
  pub size : ℕ

-- DmaReqState; an event of the device is known by its number.
pub record ReqState : Type 0 where
  pub completion_event : Option ℕ
  pub tot_bytes : ℕ
  pub num_bytes : ℕ
  pub delay : ℕ

pub data Command : Type 0 where
  read_req write_req : Command

-- `state` is the sender state, `none` where the cast to DmaReqState gives NULL, else its place on
-- the heap. `data` is an offset in the device's buffer.
pub record DmaPacket : Type 0 where
  pub cmd : Command
  pub ds_id : ℕ
  pub addr : ℕ
  pub size : ℕ
  pub flags : ℕ
  pub data_at : Option ℕ
  pub state : Option ℕ
  pub is_response : Bool
  pub mem_inhibit : Bool
  pub shared : Bool

-- `system->isTimingMode()`, `isAtomicMode()`, or neither.
pub data Mode : Type 0 where
  timing atomic other_mode : Mode

-- The port. `states` is the heap of DmaReqStates, `none` for one that has been deleted; `send_at` is
-- the time of `sendEvent`; `scheduled` are the device's events in the event queue with their times,
-- and `drained` the drain managers that were signalled.
pub record Port : Type 0 where
  pub mode : Mode
  pub transmit_list : List DmaPacket
  pub pending_count : ℕ
  pub in_retry : Bool
  pub send_at : Option ℕ
  pub drain_manager : Option ℕ
  pub states : List (Option ReqState)
  pub scheduled : List (ℕ × ℕ)
  pub drained : List ℕ

-- The constructor.
unfoldable pub init : Mode → Port
init mode = record {
  mode = mode;
  transmit_list = [];
  pending_count = 0;
  in_retry = false;
  send_at = none;
  drain_manager = none;
  states = [];
  scheduled = [];
  drained = [];
}

abbrev pub is_scheduled : List (ℕ × ℕ) → ℕ → Bool
is_scheduled [] e = false
is_scheduled ((e', _) ∷ rest) e = (e' == e) || is_scheduled rest e

-- `device->schedule(event, when)`, which asserts that the event is not scheduled.
abbrev pub schedule_event : List (ℕ × ℕ) → ℕ → ℕ → Result (List (ℕ × ℕ))
schedule_event queue e when =
    if is_scheduled queue e then fault assertion else ok ((e, when) ∷ queue)

-- `dynamic_cast<DmaReqState*>` and the reads through it.
unfoldable pub find_state : List (Option ReqState) → Option ℕ → Result (ℕ × ReqState)
find_state heap none = fault assertion
find_state heap (some k) = elim (get_elem? heap k) [
  | some (some s) ↦ ok (k, s)
  | _ ↦ fault out_of_bounds
]

-- Signals the completion event, where there is one, at `at`.
unfoldable pub signal_completion : Port → ReqState → ℕ → Result Port
signal_completion p s at = elim s.completion_event [
  | none ↦ ok p
  | some e ↦ (schedule_event p.scheduled e at >>= λ queue. ok (record p { scheduled = queue }))
]

-- The bytes that a response acknowledges, and the end of the request.
unfoldable pub acknowledge : Port → ℕ → ReqState → ℕ → ℕ → ℕ → Result Port
unfolding signal_completion
acknowledge p k s total delay now =
    if s.tot_bytes == total
    then (signal_completion (record p { states = set p.states k none }) s
        ((now + (delay + s.delay) % 2 ^ 64) % 2 ^ 64))
    else ok (record p { states = set p.states k (some (record s { num_bytes = total })) })

unfoldable pub signal_drain : Port → Port
signal_drain p =
    if p.pending_count == 0
    then elim p.drain_manager [
      | none ↦ p
      | some dm ↦ record p { drained = dm ∷ p.drained; drain_manager = none }
    ]
    else p

unfoldable pub handle_resp : Port → DmaPacket → ℕ → ℕ → Result Port
unfolding find_state acknowledge signal_drain
handle_resp p pkt delay now = do
  require pkt.is_response assertion
  (k, s) ← find_state p.states pkt.state
  require (not (p.pending_count == 0)) assertion
  require (leb ((s.num_bytes + pkt.size) % 2 ^ 64) s.tot_bytes) assertion
  p' ←
      acknowledge (record p { pending_count = p.pending_count - 1 }) k s
        ((s.num_bytes + pkt.size) % 2 ^ 64) delay now
  ok (signal_drain p')

unfoldable pub recv_timing_resp : Port → DmaPacket → ℕ → Result Port
unfolding handle_resp
recv_timing_resp p pkt now = do
  require (not (pkt.mem_inhibit && not pkt.shared)) assertion
  handle_resp p pkt 0 now

-- PARDg5VDmaPort::drain; the number is what the device adds to its count.
unfoldable pub drain : Port → ℕ → ℕ × Port
drain p dm = if p.pending_count == 0 then (0, p) else (1, record p { drain_manager = some dm })

unfoldable pub queue_dma : Port → DmaPacket → Port
queue_dma p pkt = record p {
  transmit_list = p.transmit_list ++ pkt ∷ [];
  pending_count = (p.pending_count + 1) % 2 ^ 32;
}

-- `sendEvent` is scheduled for the rest of the list, a cycle later at `edge`.
unfoldable pub schedule_rest : Port → List DmaPacket → ℕ → Result Port
schedule_rest p [] edge = ok (record p { in_retry = false; transmit_list = [] })
schedule_rest p (next ∷ rest) edge = elim p.send_at [
  | some _ ↦ fault assertion
  | none ↦ ok (record p { in_retry = false; transmit_list = next ∷ rest; send_at = some edge })
]

unfoldable pub try_send_from : Port → List DmaPacket → Bool → ℕ → Result Port
unfolding schedule_rest
try_send_from p [] accepted edge = fault out_of_bounds
try_send_from p (pkt ∷ rest) accepted edge =
    if accepted then schedule_rest p rest edge else ok (record p { in_retry = true })

-- trySendTimingReq; `accepted` is what `sendTimingReq` answers.
unfoldable pub try_send_timing_req : Port → Bool → ℕ → Result Port
unfolding try_send_from
try_send_timing_req p accepted edge = try_send_from p p.transmit_list accepted edge

abbrev pub is_waiting : Port → Bool
is_waiting p = p.in_retry || elim p.send_at [ none ↦ false | some _ ↦ true ]

-- The peer of an atomic access turns the packet into its response, and tells how long that took.
abbrev pub make_response : DmaPacket → DmaPacket
make_response pkt = record pkt { is_response = true }

-- The loop of atomic mode over the transmit list.
unfoldable pub send_all_atomic : Port → List DmaPacket → (DmaPacket → ℕ) → ℕ → Result Port
unfolding handle_resp
send_all_atomic p [] latency now = ok (record p { transmit_list = [] })
send_all_atomic p (pkt ∷ rest) latency now =
    handle_resp (record p { transmit_list = rest }) (make_response pkt) (latency pkt) now >>= λ p'.
    send_all_atomic p' rest latency now

-- What the other side of the port answers: in timing mode, and in atomic mode.
pub record Peer : Type 0 where
  pub accepts : Bool
  pub latency : DmaPacket → ℕ

unfoldable pub send_by_mode : Port → Mode → Peer → ℕ → ℕ → Result Port
unfolding try_send_timing_req send_all_atomic
send_by_mode p timing peer now edge =
    if is_waiting p then ok p else try_send_timing_req p peer.accepts edge
send_by_mode p atomic peer now edge = send_all_atomic p p.transmit_list peer.latency now
send_by_mode p other_mode peer now edge = fault panic

unfoldable pub send_dma : Port → Peer → ℕ → ℕ → Result Port
unfolding send_by_mode
send_dma p peer now edge = do
  require (not (length p.transmit_list == 0)) assertion
  send_by_mode p p.mode peer now edge

-- The event queue drops an event before it runs it.
unfoldable pub process_send_event : Port → Peer → ℕ → ℕ → Result Port
unfolding send_dma
process_send_event p peer now edge = send_dma (record p { send_at = none }) peer now edge

unfoldable pub recv_retry : Port → Bool → ℕ → Result Port
unfolding try_send_timing_req
recv_retry p accepted edge = do
  require (not (length p.transmit_list == 0)) assertion
  try_send_timing_req p accepted edge

-- A uint16_t compared with an int is promoted to an int.
unfoldable pub lacks_ds_id : ℕ → Bool
lacks_ds_id ds_id = ==ℤ (pos (ds_id % 2 ^ 16)) (negsuc 0)

-- The arguments of dmaAction. A size is an int; it is not negative here.
pub record Transfer : Type 0 where
  pub cmd : Command
  pub ds_id : ℕ
  pub addr : ℕ
  pub size : ℕ
  pub event : Option ℕ
  pub data_at : Option ℕ
  pub delay : ℕ
  pub flags : ℕ

abbrev pub data_pointer : Option ℕ → ℕ → Option ℕ
data_pointer none complete = none
data_pointer (some d) complete = some (d + complete)

abbrev pub new_packet : Transfer → ℕ → Chunk → ℕ → DmaPacket
new_packet t k c complete = record {
  cmd = t.cmd;
  ds_id = t.ds_id;
  addr = c.addr;
  size = c.size;
  flags = t.flags;
  data_at = data_pointer t.data_at complete;
  state = some k;
  is_response = false;
  mem_inhibit = false;
  shared = false;
}

-- The loop over the chunks; `complete` are the bytes of the chunks before.
unfoldable pub queue_chunks : Port → Transfer → ℕ → List Chunk → ℕ → Port
unfolding queue_dma
queue_chunks p t k [] complete = p
queue_chunks p t k (c ∷ rest) complete =
    queue_chunks (queue_dma p (new_packet t k c complete)) t k rest (complete + c.size)

-- `new DmaReqState(event, size, delay)`.
abbrev pub new_state : Transfer → ReqState
new_state t = record {
  completion_event = t.event;
  tot_bytes = t.size;
  num_bytes = 0;
  delay = t.delay;
}

unfoldable pub allocate : Port → Transfer → Port
allocate p t = record p { states = p.states ++ some (new_state t) ∷ [] }

-- The ChunkGenerator of gem5 and the system's cache line size are not this code: `chunks addr size`
-- is the list it yields for that line size.
module _ (chunks : ℕ → ℕ → List Chunk) where
  unfoldable pub dma_action : Port → Transfer → Peer → ℕ → ℕ → Result Port
  unfolding lacks_ds_id queue_chunks allocate send_dma
  dma_action p t peer now edge =
      if lacks_ds_id t.ds_id
      then ok (allocate p t)
      else send_dma (queue_chunks (allocate p t) t (length p.states) (chunks t.addr t.size) 0) peer
          now edge

-- The device hands its own DSid on, which its constructor sets to -1: 65535 as a uint16_t.
abbrev pub unset_ds_id : ℕ
unset_ds_id = 65535
