-- ===== src/Bridge/Request.antt =====
-- A request that a peer sends: on every branch of recvTimingReq the invariant is kept.
use pard_gem.Prelude.{
  ℕ, ◌+◌, ◌^◌, ◌≤◌, ◌<◌, ◌≡◌, refl, inl, inr, true, false, arith, if◌then◌else◌, length, ok, ◌>>=◌,
  Bool-cases, ==_iff,
}
use pard_gem.Mem.Packet.{Packet, expects_response, clear_delays, set_ds_id}
use pard_gem.Bridge.{
  Bridge, Kind, tags, plain, attach, reserve, forward_req, recv_timing_req, req_queue_full,
  resp_queue_full,
}
use pard_gem.Bridge.Protocol.{World, request, Enabled, run, IsUntagged}
use pard_gem.Bridge.Queues.{Inv, Kept, IsLive-later}
use pard_gem.Bridge.Enqueue.{queued, sched_timing_req_lem, queued-Inv}

refused-Inv :
    (w : World) (t : ℕ)
    → w.now ≤ t
    → 0 < length w.bridge.requests + w.bridge.outstanding
    → Inv w
    → Inv (record w { bridge = record w.bridge { retry_req = true }; now = t })
refused-Inv w t h busy v = record {
  req_room = v.req_room;
  resp_room = v.resp_room;
  resp_small = v.resp_small;
  positive = v.positive;
  counted = v.counted;
  req_live = IsLive-later b.requests b.send_req_at w.req_blocked w.now t h v.req_live;
  resp_live = IsLive-later b.responses b.send_resp_at w.resp_blocked w.now t h v.resp_live;
  queue_marked = v.queue_marked;
  flight_marked = v.flight_marked;
  stalled = λ x. busy;
}
  where
    b : Bridge
    b = w.bridge

attach_lem :
    (kind : Kind) (pkt : Packet)
    → IsUntagged kind pkt
    → (pkt' : Packet) × (attach kind pkt ≡ ok pkt') × (expects_response pkt' ≡ expects_response pkt)
attach_lem (tags d) pkt h = (set_ds_id pkt d, rw h, refl)
attach_lem plain pkt h = (pkt, refl, refl)

-- A request that is taken: the reply, and what happens to the bridge.
forward_req_lem :
    (w : World) (pkt : Packet) (t when n : ℕ)
    → w.now ≤ t
    → t ≤ when
    → length w.bridge.requests < w.bridge.req_queue_limit
    → w.bridge.retry_req ≡ false
    → Inv w
    → forward_req (record w.bridge { outstanding = n }) pkt when
      ≡ ok (
        true,
        clear_delays pkt,
        queued (record w.bridge { outstanding = n }) (clear_delays pkt) when,
      )
unfolding forward_req
forward_req_lem w pkt t when n h k room calm v = rw (
  sched_timing_req_lem (record w.bridge { outstanding = n }) (clear_delays pkt) w.req_blocked t when
      k room
      (IsLive-later w.bridge.requests w.bridge.send_req_at w.req_blocked w.now t h v.req_live),
  ◌>>=◌,
  calm,
)

request_taken :
    (w : World) (pkt pkt' : Packet) (t edge n : ℕ)
    → w.now ≤ t
    → t ≤ edge
    → length w.bridge.requests < w.bridge.req_queue_limit
    → w.bridge.retry_req ≡ false
    → Inv w
    → attach w.bridge.kind pkt ≡ ok pkt'
    → expects_response pkt' ≡ expects_response pkt
    → reserve w.bridge pkt ≡ record w.bridge { outstanding = n }
    → n ≡ w.bridge.outstanding + (if expects_response pkt then 1 else 0)
    → n ≤ w.bridge.resp_queue_limit
    → Kept w (request pkt t edge)
unfolding run recv_timing_req
request_taken w pkt pkt' t edge n h k room calm v attached same reserved count le = (
  record w {
    bridge = queued (record w.bridge { outstanding = n }) (clear_delays pkt') edge;
    now = t;
  },
  rw (
    (let r : req_queue_full w.bridge ≡ false = ground arith in r),
    attached,
    reserved,
    forward_req_lem w pkt' t edge n h k room calm v,
    ◌>>=◌,
    calm,
  ),
  queued-Inv w (clear_delays pkt') t edge h k room calm v n (rw same count) le,
)

reserve_silent : (b : Bridge) (pkt : Packet) → expects_response pkt ≡ false → reserve b pkt ≡ b
unfolding reserve
reserve_silent b pkt e = rw e

reserve_space :
    (b : Bridge) (pkt : Packet)
    → expects_response pkt ≡ true
    → resp_queue_full b ≡ false
    → b.outstanding + 1 < 2 ^ 32
    → reserve b pkt ≡ record b { outstanding = b.outstanding + 1 }
unfolding reserve
reserve_space b pkt e space lt = ground arith

pub reserve_full :
    (b : Bridge) (pkt : Packet)
    → expects_response pkt ≡ true
    → resp_queue_full b ≡ true
    → reserve b pkt ≡ record b { retry_req = true }
unfolding reserve
reserve_full b pkt e full = rw (e, full)

refused_full :
    (w : World) (pkt : Packet) (t edge : ℕ)
    → w.bridge.retry_req ≡ false
    → req_queue_full w.bridge ≡ true
    → run w (request pkt t edge)
      ≡ ok (record w { bridge = record w.bridge { retry_req = true }; now = t })
unfolding run recv_timing_req
refused_full w pkt t edge calm full = rw (full, calm)

refused_resp :
    (w : World) (pkt pkt' : Packet) (t edge : ℕ)
    → w.bridge.retry_req ≡ false
    → req_queue_full w.bridge ≡ false
    → attach w.bridge.kind pkt ≡ ok pkt'
    → expects_response pkt ≡ true
    → resp_queue_full w.bridge ≡ true
    → run w (request pkt t edge)
      ≡ ok (record w { bridge = record w.bridge { retry_req = true }; now = t })
unfolding run recv_timing_req forward_req
refused_resp w pkt pkt' t edge calm room attached expects full =
    rw (attached, reserve_full w.bridge pkt expects full, room, calm)

room_left :
    (b : Bridge)
    → req_queue_full b ≡ false
    → length b.requests ≤ b.req_queue_limit
    → length b.requests < b.req_queue_limit
room_left b e h = ground arith

space_left :
    (b : Bridge)
    → resp_queue_full b ≡ false
    → b.outstanding ≤ b.resp_queue_limit
    → b.outstanding + 1 ≤ b.resp_queue_limit
space_left b e h = ground arith

-- The peer sends a request.
pub request_step :
    (w : World) (pkt : Packet) (t edge : ℕ)
    → Inv w
    → Enabled w (request pkt t edge)
    → Kept w (request pkt t edge)
request_step w pkt t edge v ((h, k), calm, fresh) =
    let b : Bridge = w.bridge in
    let (pkt', attached, same) = attach_lem b.kind pkt fresh in
    elim (Bool-cases (req_queue_full b)) [
      | inl full ↦ (
        record w { bridge = record b { retry_req = true }; now = t },
        refused_full w pkt t edge calm full,
        refused-Inv w t h
            (omega (arith, (==_iff (length b.requests) b.req_queue_limit).0 full, v.positive.0)) v,
      )
      | inr open_q ↦ elim (Bool-cases (expects_response pkt)) [
        | inr silent ↦
            request_taken w pkt pkt' t edge b.outstanding h k (room_left b open_q v.req_room) calm v
              attached same (reserve_silent b pkt silent) (rw silent (omega arith)) v.resp_room
        | inl expects ↦ elim (Bool-cases (resp_queue_full b)) [
          | inl full ↦ (
            record w { bridge = record b { retry_req = true }; now = t },
            refused_resp w pkt pkt' t edge calm open_q attached expects full,
            refused-Inv w t h
                (omega (arith, (==_iff b.outstanding b.resp_queue_limit).0 full, v.positive.1)) v,
          )
          | inr space ↦
              request_taken w pkt pkt' t edge (b.outstanding + 1) h k
                (room_left b open_q v.req_room) calm v attached same
                (reserve_space b pkt expects space
                  (omega (arith, space_left b space v.resp_room, v.resp_small)))
                (rw expects refl) (space_left b space v.resp_room)
        ]
      ]
    ]
