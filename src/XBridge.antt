-- ===== src/XBridge.antt =====
-- ext/xbridge.cc and xbridge.hh: the bridge without a tag, its two ports with a state of their own.
pub mod Refine
use pard_gem.Prelude.{
  ℕ, ◌+◌, ◌-◌, ◌*◌, ◌%◌, ◌^◌, max, Bool, true, false, not, ◌&&◌, List, [], ◌∷◌, ◌++◌, Option, none,
  some, leb, ◌==◌, if◌then◌else◌, Result, ok, fault, assertion, ◌>>=◌, ◌>>◌, require, length,
}
use pard_gem.Mem.Packet.{
  Packet, SenderState, x_bridge_state, tag_bridge_state, mapper_state, mem_ctrl_state,
  tag_xbar_state, foreign_state, push_state, pop_state, clear_delays, expects_response,
}
use pard_gem.Bridge.{Deferred, schedule_first, schedule_next}

-- The request queue,
pub record MasterPort : Type 0 where
  pub transmit_list : List Deferred
  pub req_queue_limit : ℕ
  pub send_event : Option ℕ

-- and the response queue.
pub record SlavePort : Type 0 where
  pub transmit_list : List Deferred
  pub outstanding_responses : ℕ
  pub retry_req : Bool
  pub resp_queue_limit : ℕ
  pub send_event : Option ℕ

pub record XBridge : Type 0 where
  pub slave_port : SlavePort
  pub master_port : MasterPort

-- The constructor, with the sizes of its parameters.
pub init : ℕ → ℕ → XBridge
init resp_size req_size = record {
  slave_port = record {
    transmit_list = [];
    outstanding_responses = 0;
    retry_req = false;
    resp_queue_limit = resp_size;
    send_event = none;
  };
  master_port = record { transmit_list = []; req_queue_limit = req_size; send_event = none };
}

abbrev pub resp_queue_full : SlavePort → Bool
resp_queue_full s = s.outstanding_responses == s.resp_queue_limit

abbrev pub req_queue_full : MasterPort → Bool
req_queue_full m = length m.transmit_list == m.req_queue_limit

-- `dynamic_cast<RequestState *>(…)` and the assertion that it is not NULL: `origSrc`.
abbrev pub orig_src : SenderState → Result ℕ
orig_src (x_bridge_state src) = ok src
orig_src _ = fault assertion

pub sched_timing_req : MasterPort → Packet → ℕ → Result MasterPort
sched_timing_req m pkt when =
    let marked = if expects_response pkt then push_state pkt (x_bridge_state pkt.src) else pkt in
    schedule_first m.transmit_list m.send_event when >>= λ at.
    require (not (req_queue_full m)) assertion
    >> ok (record m {
      transmit_list = m.transmit_list ++ record { pkt = marked; tick = when } ∷ [];
      send_event = at;
    })

pub reserve_response : SlavePort → Packet → SlavePort
reserve_response s pkt =
    if expects_response pkt
    then (if resp_queue_full s
        then record s { retry_req = true }
        else record s { outstanding_responses = (s.outstanding_responses + 1) % 2 ^ 32 })
    else s

-- Whether the request is taken, the packet, and the bridge. `when` is `bridge.clockEdge(delay)`.
pub recv_timing_req : XBridge → Packet → ℕ → Result (Bool × Packet × XBridge)
unfolding reserve_response
recv_timing_req x pkt when =
    if x.slave_port.retry_req
    then fault assertion
    else if req_queue_full x.master_port
    then ok (false, pkt, record x { slave_port = record x.slave_port { retry_req = true } })
    else if (reserve_response x.slave_port pkt).retry_req
    then ok (false, pkt, record x { slave_port = reserve_response x.slave_port pkt })
    else (sched_timing_req x.master_port (clear_delays pkt) when >>= λ m. ok (
      true,
      clear_delays pkt,
      record { slave_port = reserve_response x.slave_port pkt; master_port = m },
    ))

pub sched_timing_resp : SlavePort → Packet → ℕ → Result SlavePort
sched_timing_resp s pkt when = do
  (req_state, popped) ← pop_state pkt
  src ← orig_src req_state
  at ← schedule_first s.transmit_list s.send_event when
  ok (record s {
    transmit_list =
        s.transmit_list ++ record { pkt = record popped { dest = src }; tick = when } ∷ [];
    send_event = at;
  })

pub recv_timing_resp : XBridge → Packet → ℕ → Result XBridge
recv_timing_resp x pkt when =
    sched_timing_resp x.slave_port (clear_delays pkt) when >>= λ s. ok (record x { slave_port = s })

-- The slave port, and whether it called `sendRetry`.
pub retry_stalled_req : SlavePort → SlavePort × Bool
retry_stalled_req s = if s.retry_req then (record s { retry_req = false }, true) else (s, false)

pop_front_req : XBridge → List Deferred → ℕ → Result (XBridge × Bool)
unfolding retry_stalled_req
pop_front_req x rest edge = do
  at ← schedule_next rest x.master_port.send_event edge
  let (s, retried) = retry_stalled_req x.slave_port
  ok (
    record {
      slave_port = s;
      master_port = record x.master_port { transmit_list = rest; send_event = at };
    },
    retried,
  )

send_head_req : XBridge → List Deferred → Bool → ℕ → ℕ → Result (XBridge × Bool)
unfolding pop_front_req
send_head_req x [] sent now edge = fault assertion
send_head_req x (req ∷ rest) sent now edge =
    require (leb req.tick now) assertion
    >> (if sent then pop_front_req x rest edge else ok (x, false))

-- The master port's `trySendTiming` at time `now`, with `edge = bridge.clockEdge()`; `sent` is the
-- answer of `sendTimingReq`.
pub try_send_req : XBridge → Bool → ℕ → ℕ → Result (XBridge × Bool)
unfolding send_head_req
try_send_req x = send_head_req x x.master_port.transmit_list

pop_front_resp : XBridge → List Deferred → ℕ → Result (XBridge × Bool)
pop_front_resp x rest edge = do
  require (not (x.slave_port.outstanding_responses == 0)) assertion
  at ← schedule_next rest x.slave_port.send_event edge
  let s = record x.slave_port {
    transmit_list = rest;
    outstanding_responses = x.slave_port.outstanding_responses - 1;
    send_event = at;
  }
  ok (
      if not (req_queue_full x.master_port) && s.retry_req
      then (record x { slave_port = record s { retry_req = false } }, true)
      else (record x { slave_port = s }, false))

send_head_resp : XBridge → List Deferred → Bool → ℕ → ℕ → Result (XBridge × Bool)
unfolding pop_front_resp
send_head_resp x [] sent now edge = fault assertion
send_head_resp x (resp ∷ rest) sent now edge =
    require (leb resp.tick now) assertion
    >> (if sent then pop_front_resp x rest edge else ok (x, false))

-- The slave port's `trySendTiming`.
pub try_send_resp : XBridge → Bool → ℕ → ℕ → Result (XBridge × Bool)
unfolding send_head_resp
try_send_resp x = send_head_resp x x.slave_port.transmit_list
