-- ===== src/Bridge/Drain.antt =====
-- Sending from the two queues: the events and the retries of trySendTiming.
use pard_gem.Prelude.{
  ℕ, suc, ◌+◌, ◌≤◌, ◌≡◌, refl, subst, inl, inr, ap, ◌∙◌, max, Bool, true, false, not, List, [], ◌∷◌,
  Option, none, some, arith, if◌then◌else◌, le→leb, length, ok, ◌>>=◌, Bool-cases,
}
use pard_gem.Mem.Packet.{Packet, expects_response}
use pard_gem.Bridge.{
  Bridge, Kind, Deferred, schedule_next, try_send_req, send_req_from, after_req_sent,
  retry_stalled_req, process_send_req, recv_retry_master,
}
use pard_gem.Bridge.Protocol.{World, req_event, req_retry, Enabled, run, launch}
use pard_gem.Bridge.Queues.{
  Inv, Kept, IsLive, IsMarked, AllMarked, QueueMarked, count_expecting, IsLive-later,
}

-- The send event after the head of a queue was sent.
abbrev pub next_event : List Deferred → ℕ → Option ℕ
next_event [] edge = none
next_event (d ∷ _) edge = some (max d.tick edge)

pub schedule_next-none :
    (q : List Deferred) (edge : ℕ) → schedule_next q none edge ≡ ok (next_event q edge)
schedule_next-none [] edge = refl
schedule_next-none (d ∷ q) edge = refl

pub next_event-IsLive : (q : List Deferred) (edge now : ℕ) → IsLive q (next_event q edge) false now
next_event-IsLive [] edge now = (refl, refl)
next_event-IsLive (d ∷ q) edge now = inr (max d.tick edge, refl, refl, omega arith)

-- A bridge whose request queue has no event set.
abbrev pub waiting : Bridge → Bridge
waiting b = record b { send_req_at = none }

abbrev pub drained : Bridge → List Deferred → ℕ → Bridge
drained b rest edge = record b {
  requests = rest;
  send_req_at = next_event rest edge;
  retry_req = false;
}

retry_stalled_req_lem :
    (b : Bridge) → retry_stalled_req b ≡ (record b { retry_req = false }, b.retry_req)
unfolding retry_stalled_req
retry_stalled_req_lem b = ground arith

send_req_sent :
    (b : Bridge) (d : Deferred) (rest : List Deferred) (t edge : ℕ)
    → b.requests ≡ d ∷ rest
    → d.tick ≤ t
    → try_send_req (waiting b) true t edge ≡ ok (drained b rest edge, b.retry_req)
unfolding try_send_req send_req_from after_req_sent
send_req_sent b d rest t edge e h =
    rw (e, le→leb d.tick t h, schedule_next-none rest edge) (ap ok (retry_stalled_req_lem _))

send_req_refused :
    (b : Bridge) (d : Deferred) (rest : List Deferred) (t edge : ℕ)
    → b.requests ≡ d ∷ rest
    → d.tick ≤ t
    → try_send_req (waiting b) false t edge ≡ ok (waiting b, false)
unfolding try_send_req send_req_from
send_req_refused b d rest t edge e h = rw (e, le→leb d.tick t h)

-- What the invariant says of a request queue with a head.
record Head (w : World) (d : Deferred) (rest : List Deferred) : Type 0 where
  split : w.bridge.requests ≡ d ∷ rest
  room : suc (length rest) ≤ w.bridge.req_queue_limit
  counted :
      w.bridge.outstanding
      ≡ (if expects_response d.pkt then 1 else 0)
        + count_expecting rest
        + length w.in_flight
        + length w.bridge.responses
  marked : expects_response d.pkt ≡ true → IsMarked w.bridge.kind d.pkt
  rest_marked : QueueMarked w.bridge.kind rest

Inv-Head :
    (w : World) (d : Deferred) (rest : List Deferred)
    → Inv w
    → w.bridge.requests ≡ d ∷ rest
    → Head w d rest
Inv-Head w d rest v e = record {
  split = e;
  room = rw e at v.req_room;
  counted = rw e at v.counted;
  marked = (rw e at v.queue_marked).0;
  rest_marked = (rw e at v.queue_marked).1;
}

length-launch :
    (d : Deferred) (rest : List Deferred) (flight : List Packet)
    → length (launch (d ∷ rest) true flight)
      ≡ (if expects_response d.pkt then 1 else 0) + length flight
length-launch d rest flight = ground arith

AllMarked-launch :
    (kind : Kind) (d : Deferred) (rest : List Deferred) (flight : List Packet)
    → (expects_response d.pkt ≡ true → IsMarked kind d.pkt)
    → AllMarked kind flight
    → AllMarked kind (launch (d ∷ rest) true flight)
AllMarked-launch kind d rest flight m h = elim (Bool-cases (expects_response d.pkt)) [
  | inl e ↦ rw e (m e, h)
  | inr e ↦ rw e h
]

drained-Inv :
    (w : World) (d : Deferred) (rest : List Deferred) (t edge : ℕ)
    → w.now ≤ t
    → Inv w
    → Head w d rest
    → Inv (record w {
      bridge = drained w.bridge rest edge;
      now = t;
      req_blocked = false;
      in_flight = launch (d ∷ rest) true w.in_flight;
    })
drained-Inv w d rest t edge h v head = record {
  req_room = omega (arith, head.room);
  resp_room = v.resp_room;
  resp_small = v.resp_small;
  positive = v.positive;
  counted = omega (arith, head.counted, length-launch d rest w.in_flight);
  req_live = next_event-IsLive rest edge t;
  resp_live = IsLive-later b.responses b.send_resp_at w.resp_blocked w.now t h v.resp_live;
  queue_marked = head.rest_marked;
  flight_marked = AllMarked-launch b.kind d rest w.in_flight head.marked v.flight_marked;
  stalled = λ x. cc;
}
  where
    b : Bridge
    b = w.bridge

blocked-Inv :
    (w : World) (d : Deferred) (rest : List Deferred) (t : ℕ)
    → w.now ≤ t
    → d.tick ≤ t
    → Inv w
    → w.bridge.requests ≡ d ∷ rest
    → Inv (record w { bridge = waiting w.bridge; now = t; req_blocked = true })
blocked-Inv w d rest t h k v e = record {
  req_room = v.req_room;
  resp_room = v.resp_room;
  resp_small = v.resp_small;
  positive = v.positive;
  counted = v.counted;
  req_live = rw e (inl (refl, refl, k));
  resp_live = IsLive-later b.responses b.send_resp_at w.resp_blocked w.now t h v.resp_live;
  queue_marked = v.queue_marked;
  flight_marked = v.flight_marked;
  stalled = v.stalled;
}
  where
    b : Bridge
    b = w.bridge

-- A send from the request queue, when its event runs or the peer's retry comes.
req_sends :
    (w : World) (d : Deferred) (rest : List Deferred) (sent : Bool) (t edge : ℕ)
    → w.now ≤ t
    → d.tick ≤ t
    → Inv w
    → w.bridge.requests ≡ d ∷ rest
    → (w' : World) × ((try_send_req (waiting w.bridge) sent t edge >>= λ r. ok (record w {
      bridge = r.0;
      now = t;
      req_blocked = not sent;
      in_flight = launch w.bridge.requests sent w.in_flight;
    }))
        ≡ ok w')
      × Inv w'
req_sends w d rest true t edge h k v e = (
  record w {
    bridge = drained w.bridge rest edge;
    now = t;
    req_blocked = false;
    in_flight = launch (d ∷ rest) true w.in_flight;
  },
  rw (send_req_sent w.bridge d rest t edge e k, ◌>>=◌) (rw e),
  drained-Inv w d rest t edge h v (Inv-Head w d rest v e),
)
req_sends w d rest false t edge h k v e = (
  record w { bridge = waiting w.bridge; now = t; req_blocked = true },
  rw (send_req_refused w.bridge d rest t edge e k, ◌>>=◌) (rw e),
  blocked-Inv w d rest t h k v e,
)

-- A queue whose event is set to `t` has a head that may go at `t`,
pub head_of_event :
    (q : List Deferred) (at : Option ℕ) (blocked : Bool) (now t : ℕ)
    → IsLive q at blocked now
    → at ≡ some t
    → (d : Deferred) × (rest : List Deferred) × (q ≡ d ∷ rest) × (d.tick ≤ t)
head_of_event [] at blocked now t (e, _) s = absurd (cc)
head_of_event (d ∷ rest) at blocked now t (inl (_, e, _)) s = absurd (cc)
head_of_event (d ∷ rest) at blocked now t (inr (u, _, e, le)) s =
    let same : u ≡ t = cc in (d, rest, refl, subst (λ k. d.tick ≤ k) same le)

-- and one whose peer owes a retry has a head that may go now, and no event.
pub head_of_retry :
    (q : List Deferred) (at : Option ℕ) (blocked : Bool) (now : ℕ)
    → IsLive q at blocked now
    → blocked ≡ true
    → (d : Deferred) × (rest : List Deferred) × (q ≡ d ∷ rest) × (d.tick ≤ now) × (at ≡ none)
head_of_retry [] at blocked now (_, e) s = absurd (cc)
head_of_retry (d ∷ rest) at blocked now (inl (_, e, le)) s = (d, rest, refl, le, e)
head_of_retry (d ∷ rest) at blocked now (inr (u, e, _, _)) s = absurd (cc)

pub req_event_step :
    (w : World) (sent : Bool) (t edge : ℕ)
    → Inv w
    → Enabled w (req_event sent t edge)
    → Kept w (req_event sent t edge)
unfolding run process_send_req
req_event_step w sent t edge v ((h, k), set) =
    let (d, rest, e, le) =
      head_of_event w.bridge.requests w.bridge.send_req_at w.req_blocked w.now t v.req_live set in
    req_sends w d rest sent t edge h le v e

pub req_retry_step :
    (w : World) (sent : Bool) (t edge : ℕ)
    → Inv w
    → Enabled w (req_retry sent t edge)
    → Kept w (req_retry sent t edge)
unfolding run recv_retry_master
req_retry_step w sent t edge v ((h, k), owed) =
    let (d, rest, e, le, idle) =
      head_of_retry w.bridge.requests w.bridge.send_req_at w.req_blocked w.now v.req_live owed in
    let (w', ran, v') = req_sends w d rest sent t edge h (omega arith) v e in
    let same : w.bridge ≡ waiting w.bridge = λ i. record w.bridge { send_req_at = idle i } in
    (
      w',
      ap
            (λ (b : Bridge). try_send_req b sent t edge >>= λ r. ok (record w {
              bridge = r.0;
              now = t;
              req_blocked = not sent;
              in_flight = launch w.bridge.requests sent w.in_flight;
            }))
            same
          ∙ ran,
      v',
    )
