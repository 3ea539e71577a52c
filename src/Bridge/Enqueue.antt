-- ===== src/Bridge/Enqueue.antt =====
-- A packet that joins a queue of the bridge: the send event, its sender state, and the invariant.
use pard_gem.Prelude.{
  ℕ, ◌+◌, ◌≤◌, ◌<◌, ◌≡◌, refl, inr, ap, Bool, true, false, List, [], ◌∷◌, ◌++◌, Option, some, arith,
  if◌then◌else◌, length, length-append, ok, ◌>>=◌,
}
use pard_gem.Mem.Packet.{Packet, expects_response, tag_bridge_state, x_bridge_state}
use pard_gem.Bridge.{
  Bridge, Kind, tags, plain, Deferred, mark_request, schedule, schedule_first, sched_timing_req,
}
use pard_gem.Bridge.Protocol.{World}
use pard_gem.Bridge.Queues.{
  Inv, IsLive, IsMarked, QueueMarked-append, count_expecting-append, IsLive-later,
}

-- The send event after a packet was added to a queue.
abbrev pub event_added : List Deferred → Option ℕ → ℕ → Option ℕ
event_added [] at when = some when
event_added (_ ∷ _) at when = at

pub schedule_first_lem :
    (q : List Deferred) (at : Option ℕ) (blocked : Bool) (pkt : Packet) (now when : ℕ)
    → now ≤ when
    → IsLive q at blocked now
    → (schedule_first q at when ≡ ok (event_added q at when))
      × IsLive (q ++ record { pkt = pkt; tick = when } ∷ []) (event_added q at when) blocked now
schedule_first_lem [] at blocked pkt now when h (e, b) =
    (rw (e, schedule), inr (when, b, refl, omega arith))
schedule_first_lem (d ∷ q) at blocked pkt now when h l = (refl, l)

pub mark_request-IsMarked :
    (kind : Kind) (pkt : Packet)
    → expects_response pkt ≡ true
    → IsMarked kind (mark_request kind pkt)
unfolding mark_request
mark_request-IsMarked (tags d) pkt e =
    rw e (tag_bridge_state pkt.src, pkt.sender_state, pkt.src, refl, refl)
mark_request-IsMarked plain pkt e =
    rw e (x_bridge_state pkt.src, pkt.sender_state, pkt.src, refl, refl)

pub expects_response-mark_request :
    (kind : Kind) (pkt : Packet) → expects_response (mark_request kind pkt) ≡ expects_response pkt
unfolding mark_request
expects_response-mark_request kind pkt = ground arith

abbrev pub queued : Bridge → Packet → ℕ → Bridge
queued b pkt when = record b {
  send_req_at = event_added b.requests b.send_req_at when;
  requests = b.requests ++ record { pkt = mark_request b.kind pkt; tick = when } ∷ [];
}

pub sched_timing_req_lem :
    (b : Bridge) (pkt : Packet) (blocked : Bool) (now when : ℕ)
    → now ≤ when
    → length b.requests < b.req_queue_limit
    → IsLive b.requests b.send_req_at blocked now
    → sched_timing_req b pkt when ≡ ok (queued b pkt when)
unfolding sched_timing_req
sched_timing_req_lem b pkt blocked now when h room live =
    rw ((schedule_first_lem b.requests b.send_req_at blocked pkt now when h live).0, ◌>>=◌)
      (ground arith)

pub queued-Inv :
    (w : World) (pkt : Packet) (t when : ℕ)
    → w.now ≤ t
    → t ≤ when
    → length w.bridge.requests < w.bridge.req_queue_limit
    → w.bridge.retry_req ≡ false
    → Inv w
    → (outstanding : ℕ)
    → outstanding ≡ w.bridge.outstanding + (if expects_response pkt then 1 else 0)
    → outstanding ≤ w.bridge.resp_queue_limit
    → Inv (record w {
      bridge = queued (record w.bridge { outstanding = outstanding }) pkt when;
      now = t;
    })
queued-Inv w pkt t when h k room calm v outstanding e le = record {
  req_room = omega (arith, length-append b.requests (added ∷ []));
  resp_room = le;
  resp_small = v.resp_small;
  positive = v.positive;
  counted = omega (
    arith,
    v.counted,
    e,
    count_expecting-append b.requests (added ∷ []),
    ap {B = ℕ} (λ (x : Bool). if x then 1 else 0) (expects_response-mark_request b.kind pkt),
  );
  req_live =
      (schedule_first_lem b.requests b.send_req_at w.req_blocked (mark_request b.kind pkt) t when k
        (IsLive-later b.requests b.send_req_at w.req_blocked w.now t h v.req_live)).1;
  resp_live = IsLive-later b.responses b.send_resp_at w.resp_blocked w.now t h v.resp_live;
  queue_marked =
      QueueMarked-append b.kind b.requests added v.queue_marked (λ x.
        mark_request-IsMarked b.kind pkt (rw (expects_response-mark_request b.kind pkt) at x));
  flight_marked = v.flight_marked;
  stalled = λ x. cc;
}
  where
    b : Bridge
    b = w.bridge

    added : Deferred
    added = record { pkt = mark_request b.kind pkt; tick = when }
