-- ===== src/Bridge/Safety.antt =====
-- No assertion of a bridge can fail among peers that keep to the protocol.
use pard_gem.Prelude.{ℕ, ◌≡◌, refl, true, false, List, [], ◌∷◌, none, ok, fault, assertion}
use pard_gem.Mem.Packet.{Packet, expects_response, set_ds_id}
use pard_gem.Bridge.{
  Bridge, Kind, tags, init, attach, forward_req, recv_timing_req, req_queue_full, resp_queue_full,
}
use pard_gem.Bridge.Protocol.{
  World, Action, request, response, req_event, resp_event, req_retry, resp_retry, Enabled, run,
}
use pard_gem.Bridge.Queues.{Inv, Kept}
use pard_gem.Bridge.Request.{request_step, reserve_full}
use pard_gem.Bridge.Respond.{response_step, resp_event_step, resp_retry_step}
use pard_gem.Bridge.Drain.{req_event_step, req_retry_step}

pub run-Inv : (w : World) (a : Action) → Inv w → Enabled w a → Kept w a
run-Inv w (request pkt t edge) v e = request_step w pkt t edge v e
run-Inv w (response k pkt t edge) v e = response_step w k pkt t edge v e
run-Inv w (req_event sent t edge) v e = req_event_step w sent t edge v e
run-Inv w (resp_event sent t edge) v e = resp_event_step w sent t edge v e
run-Inv w (req_retry sent t edge) v e = req_retry_step w sent t edge v e
run-Inv w (resp_retry sent t edge) v e = resp_retry_step w sent t edge v e

-- Each action of a history is enabled when its turn comes.
abbrev pub Follows : World → List Action → Type 0
Follows w [] = Unit {0}
Follows w (a ∷ rest) = Enabled w a × ((w' : World) → run w a ≡ ok w' → Follows w' rest)

-- A new bridge, with nothing on its way.
abbrev pub start : Kind → ℕ → ℕ → ℕ → World
start kind resp_limit req_limit now = record {
  bridge = record {
    kind = kind;
    resp_queue_limit = resp_limit;
    req_queue_limit = req_limit;
    requests = [];
    responses = [];
    outstanding = 0;
    retry_req = false;
    send_req_at = none;
    send_resp_at = none;
  };
  now = now;
  req_blocked = false;
  resp_blocked = false;
  in_flight = [];
}

start-init : (kind : Kind) (r q now : ℕ) → (start kind r q now).bridge ≡ init kind r q
unfolding init
start-init kind r q now = refl

-- A request that a TagBridge refuses for want of a response slot has been stamped all the same: when
-- the sender repeats it after the retry, and the request queue has room, the assertion that it bears
-- no DSid fails.
pub refused_then_fatal :
    (b b' : Bridge) (d : ℕ) (pkt : Packet) (when when' : ℕ)
    → b.kind ≡ tags d
    → b.retry_req ≡ false
    → req_queue_full b ≡ false
    → pkt.ds_id ≡ none
    → expects_response pkt ≡ true
    → resp_queue_full b ≡ true
    → b'.kind ≡ tags d
    → b'.retry_req ≡ false
    → req_queue_full b' ≡ false
    → (pkt' : Packet) × (recv_timing_req b pkt when
        ≡ ok (false, pkt', record b { retry_req = true }))
      × (recv_timing_req b' pkt' when' ≡ fault assertion)
unfolding recv_timing_req forward_req
refused_then_fatal b b' d pkt when when' k calm room fresh expects full k' calm' room' =
    let stamped : attach b.kind pkt ≡ ok (set_ds_id pkt d) = rw (k, fresh) in
    let twice : attach b'.kind (set_ds_id pkt d) ≡ fault assertion = rw k' in
    (
      set_ds_id pkt d,
      rw (stamped, reserve_full b pkt expects full, room, calm),
      rw (twice, room', calm'),
    )
