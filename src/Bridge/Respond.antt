-- ===== src/Bridge/Respond.antt =====
-- Responses: recvTimingResp, and sending from the response queue.
use pard_gem.Prelude.{
  ℕ, ◌-◌, ◌≤◌, ◌<◌, ◌≡◌, refl, inl, ap, ◌∙◌, Bool, true, false, not, ◌&&◌, List, [], ◌∷◌, ◌++◌,
  none, some, arith, le→leb, length, ok, ◌>>=◌, ==_ne, length-append,
}
use pard_gem.Mem.Packet.{Packet}
use pard_gem.Bridge.{
  Bridge, Deferred, req_queue_full, try_send_resp, send_resp_from, after_resp_sent,
  process_send_resp, recv_retry_slave,
}
use pard_gem.Bridge.Protocol.{World, resp_event, resp_retry, Enabled, run}
use pard_gem.Bridge.Queues.{Inv, Kept, IsLive, IsLive-later}
use pard_gem.Mem.Packet.{SenderState, clear_delays}
use pard_gem.Bridge.{own_state, sched_timing_resp, recv_timing_resp}
use pard_gem.Bridge.Protocol.{response, remove_at}
use pard_gem.Bridge.Queues.{length-remove_at, AllMarked-remove_at, AllMarked-get_elem?}
use pard_gem.Bridge.Enqueue.{event_added, schedule_first_lem}
use pard_gem.Bridge.Drain.{
  next_event, schedule_next-none, next_event-IsLive, head_of_event, head_of_retry,
}

-- A bridge whose response queue has no event set.
abbrev idle : Bridge → Bridge
idle b = record b { send_resp_at = none }

abbrev replied : Bridge → List Deferred → ℕ → Bridge
replied b rest edge = record b {
  responses = rest;
  outstanding = b.outstanding - 1;
  send_resp_at = next_event rest edge;
  retry_req = b.retry_req && req_queue_full b;
}

send_resp_sent :
    (b : Bridge) (d : Deferred) (rest : List Deferred) (t edge : ℕ)
    → b.responses ≡ d ∷ rest
    → d.tick ≤ t
    → 0 < b.outstanding
    → (retried : Bool) × (try_send_resp (idle b) true t edge ≡ ok (replied b rest edge, retried))
unfolding try_send_resp send_resp_from after_resp_sent
send_resp_sent b d rest t edge e h p = (
  not (req_queue_full b) && b.retry_req,
  rw (e, le→leb d.tick t h, ==_ne b.outstanding 0 (λ z. omega arith), schedule_next-none rest edge)
      (ground arith),
)

send_resp_refused :
    (b : Bridge) (d : Deferred) (rest : List Deferred) (t edge : ℕ)
    → b.responses ≡ d ∷ rest
    → d.tick ≤ t
    → try_send_resp (idle b) false t edge ≡ ok (idle b, false)
unfolding try_send_resp send_resp_from
send_resp_refused b d rest t edge e h = rw (e, le→leb d.tick t h)

replied-Inv :
    (w : World) (d : Deferred) (rest : List Deferred) (t edge : ℕ)
    → w.now ≤ t
    → Inv w
    → w.bridge.responses ≡ d ∷ rest
    → Inv (record w { bridge = replied w.bridge rest edge; now = t; resp_blocked = false })
replied-Inv w d rest t edge h v e = record {
  req_room = v.req_room;
  resp_room = omega (arith, v.resp_room);
  resp_small = v.resp_small;
  positive = v.positive;
  counted = omega (arith, v.counted, ap (λ (q : List Deferred). length q) e);
  req_live = IsLive-later b.requests b.send_req_at w.req_blocked w.now t h v.req_live;
  resp_live = next_event-IsLive rest edge t;
  queue_marked = v.queue_marked;
  flight_marked = v.flight_marked;
  stalled = λ x. ground (arith, v.positive);
}
  where
    b : Bridge
    b = w.bridge

unsent-Inv :
    (w : World) (d : Deferred) (rest : List Deferred) (t : ℕ)
    → w.now ≤ t
    → d.tick ≤ t
    → Inv w
    → w.bridge.responses ≡ d ∷ rest
    → Inv (record w { bridge = idle w.bridge; now = t; resp_blocked = true })
unsent-Inv w d rest t h k v e = record {
  req_room = v.req_room;
  resp_room = v.resp_room;
  resp_small = v.resp_small;
  positive = v.positive;
  counted = v.counted;
  req_live = IsLive-later b.requests b.send_req_at w.req_blocked w.now t h v.req_live;
  resp_live = rw e (inl (refl, refl, k));
  queue_marked = v.queue_marked;
  flight_marked = v.flight_marked;
  stalled = v.stalled;
}
  where
    b : Bridge
    b = w.bridge

-- A send from the response queue, when its event runs or the peer's retry comes.
resp_sends :
    (w : World) (d : Deferred) (rest : List Deferred) (sent : Bool) (t edge : ℕ)
    → w.now ≤ t
    → d.tick ≤ t
    → Inv w
    → w.bridge.responses ≡ d ∷ rest
    → (w' : World) × ((try_send_resp (idle w.bridge) sent t edge >>= λ r.
          ok (record w { bridge = r.0; now = t; resp_blocked = not sent }))
        ≡ ok w')
      × Inv w'
resp_sends w d rest true t edge h k v e =
    let (_, s) =
      send_resp_sent w.bridge d rest t edge e k
        (omega (arith, v.counted, ap (λ (q : List Deferred). length q) e)) in
    (
      record w { bridge = replied w.bridge rest edge; now = t; resp_blocked = false },
      rw (s, ◌>>=◌),
      replied-Inv w d rest t edge h v e,
    )
resp_sends w d rest false t edge h k v e = (
  record w { bridge = idle w.bridge; now = t; resp_blocked = true },
  rw (send_resp_refused w.bridge d rest t edge e k, ◌>>=◌),
  unsent-Inv w d rest t h k v e,
)

pub resp_event_step :
    (w : World) (sent : Bool) (t edge : ℕ)
    → Inv w
    → Enabled w (resp_event sent t edge)
    → Kept w (resp_event sent t edge)
unfolding run process_send_resp
resp_event_step w sent t edge v ((h, k), set) =
    let (d, rest, e, le) =
      head_of_event w.bridge.responses w.bridge.send_resp_at w.resp_blocked w.now t v.resp_live
        set in
    resp_sends w d rest sent t edge h le v e

pub resp_retry_step :
    (w : World) (sent : Bool) (t edge : ℕ)
    → Inv w
    → Enabled w (resp_retry sent t edge)
    → Kept w (resp_retry sent t edge)
unfolding run recv_retry_slave
resp_retry_step w sent t edge v ((h, k), owed) =
    let (d, rest, e, le, none_set) =
      head_of_retry w.bridge.responses w.bridge.send_resp_at w.resp_blocked w.now v.resp_live
        owed in
    let (w', ran, v') = resp_sends w d rest sent t edge h (omega arith) v e in
    let same : w.bridge ≡ idle w.bridge = λ i. record w.bridge { send_resp_at = none_set i } in
    (
      w',
      ap
            (λ (b : Bridge). try_send_resp b sent t edge >>= λ r.
              ok (record w { bridge = r.0; now = t; resp_blocked = not sent }))
            same
          ∙ ran,
      v',
    )

-- The response as it waits: back towards the port that the request came from.
abbrev answered : Bridge → Packet → List SenderState → ℕ → ℕ → Bridge
answered b pkt rest src when = record b {
  send_resp_at = event_added b.responses b.send_resp_at when;
  responses =
      b.responses
      ++ record { pkt = record (clear_delays pkt) { sender_state = rest; dest = src }; tick = when }
        ∷ [];
}

recv_timing_resp_lem :
    (b : Bridge) (pkt : Packet) (s : SenderState) (rest : List SenderState) (src now when : ℕ)
    (blocked : Bool)
    → pkt.sender_state ≡ s ∷ rest
    → own_state b.kind s ≡ some src
    → now ≤ when
    → IsLive b.responses b.send_resp_at blocked now
    → recv_timing_resp b pkt when ≡ ok (answered b pkt rest src when)
unfolding recv_timing_resp sched_timing_resp
recv_timing_resp_lem b pkt s rest src now when blocked e own h live =
    rw
      (e, own, (schedule_first_lem b.responses b.send_resp_at blocked pkt now when h live).0, ◌>>=◌)

-- A peer answers a request that is in flight.
pub response_step :
    (w : World) (k : ℕ) (pkt : Packet) (t edge : ℕ)
    → Inv w
    → Enabled w (response k pkt t edge)
    → Kept w (response k pkt t edge)
unfolding run
response_step w k pkt t edge v ((h, le), (sent, found, same)) =
    let b : Bridge = w.bridge in
    let (s, rest, src, top, own) =
      AllMarked-get_elem? b.kind w.in_flight k sent v.flight_marked found in
    let live = IsLive-later b.responses b.send_resp_at w.resp_blocked w.now t h v.resp_live in
    let added : Packet = record (clear_delays pkt) { sender_state = rest; dest = src } in
    (
      record w {
        bridge = answered b pkt rest src edge;
        now = t;
        in_flight = remove_at w.in_flight k;
      },
      rw (
        recv_timing_resp_lem b pkt s rest src t edge w.resp_blocked (same ∙ top) own le live,
        ◌>>=◌,
      ),
      record {
        req_room = v.req_room;
        resp_room = v.resp_room;
        resp_small = v.resp_small;
        positive = v.positive;
        counted = omega (
          arith,
          v.counted,
          length-remove_at w.in_flight k sent found,
          length-append b.responses (record { pkt = added; tick = edge } ∷ []),
        );
        req_live = IsLive-later b.requests b.send_req_at w.req_blocked w.now t h v.req_live;
        resp_live =
            (schedule_first_lem b.responses b.send_resp_at w.resp_blocked added t edge le live).1;
        queue_marked = v.queue_marked;
        flight_marked = AllMarked-remove_at b.kind w.in_flight k v.flight_marked;
        stalled = v.stalled;
      },
    )
