-- ===== src/Bridge.antt =====
-- mem/tag_bridge.cc: a buffered bridge between two crossbars that stamps each request with its
-- DSid. ext/xbridge.cc has the same code without the stamp: `kind` tells the two classes apart.
pub mod Protocol
pub mod Queues
pub mod Enqueue
pub mod Request
pub mod Drain
pub mod Respond
pub mod Safety
pub mod Access
use pard_gem.Prelude.{
  ℕ, suc, ◌+◌, ◌-◌, ◌%◌, ◌^◌, max, Bool, true, false, not, ◌&&◌, List, [], ◌∷◌, ◌++◌, Option, none,
  some, leb, ◌==◌, if◌then◌else◌, Result, ok, fault, assertion, ◌>>=◌, ◌>>◌, require, length,
}
use pard_gem.Mem.Packet.{
  Packet, SenderState, tag_bridge_state, x_bridge_state, mapper_state, mem_ctrl_state,
  tag_xbar_state, foreign_state, has_ds_id, set_ds_id, push_state, pop_state, clear_delays,
  expects_response,
}

-- A TagBridge with its DSid, or an XBridge.
pub data Kind : Type 0 where
  tags : ℕ → Kind
  plain : Kind

-- A packet that waits in a queue, and the time from which it may be sent.
pub record Deferred : Type 0 where
  pub pkt : Packet
  pub tick : ℕ

-- Both ports of a bridge. `requests` and `responses` are the transmit lists of the master port and
-- of the slave port; `send_req_at` and `send_resp_at` are the times of their send events, `none`
-- for an event that is not scheduled.
pub record Bridge : Type 0 where
  pub kind : Kind
  pub resp_queue_limit : ℕ
  pub req_queue_limit : ℕ
  pub requests : List Deferred
  pub responses : List Deferred
  pub outstanding : ℕ
  pub retry_req : Bool
  pub send_req_at : Option ℕ
  pub send_resp_at : Option ℕ

-- The constructors.
unfoldable pub init : Kind → ℕ → ℕ → Bridge
init kind resp_limit req_limit = record {
  kind = kind;
  resp_queue_limit = resp_limit;
  req_queue_limit = req_limit;
  requests = [];
  responses = [];
  outstanding = 0;
  retry_req = false;
  send_req_at = none;
  send_resp_at = none;
}

abbrev pub resp_queue_full : Bridge → Bool
resp_queue_full b = b.outstanding == b.resp_queue_limit

abbrev pub req_queue_full : Bridge → Bool
req_queue_full b = length b.requests == b.req_queue_limit

-- `new RequestState(src)`, of the bridge's own class,
abbrev pub request_state : Kind → ℕ → SenderState
request_state (tags d) src = tag_bridge_state src
request_state plain src = x_bridge_state src

-- and the `dynamic_cast` that finds its port again, `none` for NULL.
abbrev pub own_state : Kind → SenderState → Option ℕ
own_state (tags d) (tag_bridge_state src) = some src
own_state plain (x_bridge_state src) = some src
own_state _ _ = none

-- `schedule` of gem5's event queue: an event is scheduled at most once.
abbrev pub schedule : Option ℕ → ℕ → Result (Option ℕ)
schedule none when = ok (some when)
schedule (some _) when = fault assertion

-- Schedules the send event where the queue was empty.
abbrev pub schedule_first : List Deferred → Option ℕ → ℕ → Result (Option ℕ)
schedule_first [] at when = schedule at when
schedule_first (_ ∷ _) at when = ok at

-- Schedules it for the new head of a queue, not before `edge`, the next clock edge.
abbrev pub schedule_next : List Deferred → Option ℕ → ℕ → Result (Option ℕ)
schedule_next [] at edge = ok at
schedule_next (next ∷ _) at edge = schedule at (max next.tick edge)

unfoldable pub mark_request : Kind → Packet → Packet
mark_request kind pkt =
    if expects_response pkt then push_state pkt (request_state kind pkt.src) else pkt

unfoldable pub sched_timing_req : Bridge → Packet → ℕ → Result Bridge
unfolding mark_request
sched_timing_req b pkt when = do
  at ← schedule_first b.requests b.send_req_at when
  require (not (req_queue_full b)) assertion
  ok (record b {
    send_req_at = at;
    requests = b.requests ++ record { pkt = mark_request b.kind pkt; tick = when } ∷ [];
  })

-- Reserves space for the response of a request that expects one, or notes that there is none.
unfoldable pub reserve : Bridge → Packet → Bridge
reserve b pkt =
    if expects_response pkt
    then (if resp_queue_full b
        then record b { retry_req = true }
        else record b { outstanding = (b.outstanding + 1) % 2 ^ 32 })
    else b

-- TagBridge: `assert(!pkt->hasDSid()); pkt->setDSid(bridge.DSid);`
abbrev pub attach : Kind → Packet → Result Packet
attach (tags d) pkt = if has_ds_id pkt then fault assertion else ok (set_ds_id pkt d)
attach plain pkt = ok pkt

-- What a port does with a request: whether it takes it, the packet, and the bridge.
abbrev pub Reply : Type 0
Reply = Bool × Packet × Bridge

unfoldable pub forward_req : Bridge → Packet → ℕ → Result Reply
forward_req b pkt when =
    if b.retry_req
    then ok (false, pkt, b)
    else (sched_timing_req b (clear_delays pkt) when >>= λ b'. ok (true, clear_delays pkt, b'))

-- `when` is `bridge.clockEdge(delay)`.
unfoldable pub recv_timing_req : Bridge → Packet → ℕ → Result Reply
unfolding reserve forward_req
recv_timing_req b pkt when =
    if b.retry_req
    then fault assertion
    else if req_queue_full b
    then ok (false, pkt, record b { retry_req = true })
    else (attach b.kind pkt >>= λ pkt'. forward_req (reserve b pkt) pkt' when)

unfoldable pub sched_timing_resp : Bridge → Packet → ℕ → Result Bridge
sched_timing_resp b pkt when = do
  (state, pkt') ← pop_state pkt
  origin ← elim (own_state b.kind state) [ none ↦ fault assertion | some src ↦ ok src ]
  at ← schedule_first b.responses b.send_resp_at when
  ok (record b {
    send_resp_at = at;
    responses = b.responses ++ record { pkt = record pkt' { dest = origin }; tick = when } ∷ [];
  })

-- The master port always takes a response.
unfoldable pub recv_timing_resp : Bridge → Packet → ℕ → Result Bridge
unfolding sched_timing_resp
recv_timing_resp b pkt when = sched_timing_resp b (clear_delays pkt) when

-- The bridge, and whether it called `sendRetry` on the slave port.
abbrev pub Sent : Type 0
Sent = Bridge × Bool

unfoldable pub retry_stalled_req : Bridge → Sent
retry_stalled_req b = if b.retry_req then (record b { retry_req = false }, true) else (b, false)

unfoldable pub after_req_sent : Bridge → List Deferred → ℕ → Result Sent
unfolding retry_stalled_req
after_req_sent b rest edge = do
  at ← schedule_next rest b.send_req_at edge
  ok (retry_stalled_req (record b { requests = rest; send_req_at = at }))

unfoldable pub send_req_from : Bridge → List Deferred → Bool → ℕ → ℕ → Result Sent
unfolding after_req_sent
send_req_from b [] sent now edge = fault assertion
send_req_from b (req ∷ rest) sent now edge = do
  require (leb req.tick now) assertion
  if sent then after_req_sent b rest edge else ok (b, false)

-- The master port's trySendTiming at time `now`; `sent` is what `sendTimingReq` answers.
unfoldable pub try_send_req : Bridge → Bool → ℕ → ℕ → Result Sent
unfolding send_req_from
try_send_req b sent now edge = send_req_from b b.requests sent now edge

unfoldable pub after_resp_sent : Bridge → List Deferred → ℕ → Result Sent
after_resp_sent b rest edge = do
  require (not (b.outstanding == 0)) assertion
  at ← schedule_next rest b.send_resp_at edge
  let b' = record b { responses = rest; outstanding = b.outstanding - 1; send_resp_at = at }
  ok (
      if not (req_queue_full b') && b'.retry_req
      then (record b' { retry_req = false }, true)
      else (b', false))

unfoldable pub send_resp_from : Bridge → List Deferred → Bool → ℕ → ℕ → Result Sent
unfolding after_resp_sent
send_resp_from b [] sent now edge = fault assertion
send_resp_from b (resp ∷ rest) sent now edge = do
  require (leb resp.tick now) assertion
  if sent then after_resp_sent b rest edge else ok (b, false)

-- The slave port's trySendTiming.
unfoldable pub try_send_resp : Bridge → Bool → ℕ → ℕ → Result Sent
unfolding send_resp_from
try_send_resp b sent now edge = send_resp_from b b.responses sent now edge

-- The send events: the simulator takes an event off its queue before it runs it.
pub process_send_req : Bridge → Bool → ℕ → ℕ → Result Sent
process_send_req b = try_send_req (record b { send_req_at = none })

pub process_send_resp : Bridge → Bool → ℕ → ℕ → Result Sent
process_send_resp b = try_send_resp (record b { send_resp_at = none })

-- `recvRetry` of the master port and of the slave port.
pub recv_retry_master : Bridge → Bool → ℕ → ℕ → Result Sent
recv_retry_master = try_send_req

pub recv_retry_slave : Bridge → Bool → ℕ → ℕ → Result Sent
recv_retry_slave = try_send_resp
