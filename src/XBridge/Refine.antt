-- ===== src/XBridge/Refine.antt =====
-- The bridge of ext/xbridge.cc does what the bridge of mem/tag_bridge.cc does, less the tag.
use pard_gem.Prelude.{ℕ, ◌≡◌, refl, Bool, arith, Result, ok, ◌>>=◌}
use pard_gem.Mem.Packet.{Packet}
use pard_gem.Bridge.{Bridge, plain}
use pard_gem.Bridge
use pard_gem.XBridge.{
  XBridge, init, sched_timing_req, reserve_response, recv_timing_req, sched_timing_resp,
  recv_timing_resp, retry_stalled_req, try_send_req, try_send_resp,
}

abbrev pub as_bridge : XBridge → Bridge
as_bridge x = record {
  kind = plain;
  resp_queue_limit = x.slave_port.resp_queue_limit;
  req_queue_limit = x.master_port.req_queue_limit;
  requests = x.master_port.transmit_list;
  responses = x.slave_port.transmit_list;
  outstanding = x.slave_port.outstanding_responses;
  retry_req = x.slave_port.retry_req;
  send_req_at = x.master_port.send_event;
  send_resp_at = x.slave_port.send_event;
}

abbrev pub reply_as_bridge : Result (Bool × Packet × XBridge) → Result (Bool × Packet × Bridge)
reply_as_bridge r = r >>= λ x. ok (x.0, x.1, as_bridge x.2)

abbrev pub sent_as_bridge : Result (XBridge × Bool) → Result (Bridge × Bool)
sent_as_bridge r = r >>= λ x. ok (as_bridge x.0, x.1)

as_bridge-init : (r q : ℕ) → as_bridge (init r q) ≡ Bridge.init plain r q
unfolding init Bridge.init
as_bridge-init r q = refl

req_refines :
    (x : XBridge) (pkt : Packet) (when : ℕ)
    → reply_as_bridge (recv_timing_req x pkt when) ≡ Bridge.recv_timing_req (as_bridge x) pkt when
unfolding recv_timing_req sched_timing_req reserve_response Bridge.recv_timing_req
    Bridge.forward_req Bridge.reserve Bridge.sched_timing_req Bridge.mark_request
req_refines x pkt when = ground arith

resp_refines :
    (x : XBridge) (pkt : Packet) (when : ℕ)
    → (recv_timing_resp x pkt when >>= λ y. ok (as_bridge y))
      ≡ Bridge.recv_timing_resp (as_bridge x) pkt when
unfolding recv_timing_resp sched_timing_resp Bridge.recv_timing_resp Bridge.sched_timing_resp
resp_refines x pkt when = ground arith

try_req_refines :
    (x : XBridge) (sent : Bool) (now edge : ℕ)
    → sent_as_bridge (try_send_req x sent now edge)
      ≡ Bridge.try_send_req (as_bridge x) sent now edge
unfolding try_send_req retry_stalled_req Bridge.try_send_req Bridge.send_req_from
    Bridge.after_req_sent Bridge.retry_stalled_req
try_req_refines x sent now edge = ground arith

try_resp_refines :
    (x : XBridge) (sent : Bool) (now edge : ℕ)
    → sent_as_bridge (try_send_resp x sent now edge)
      ≡ Bridge.try_send_resp (as_bridge x) sent now edge
unfolding try_send_resp Bridge.try_send_resp Bridge.send_resp_from Bridge.after_resp_sent
try_resp_refines x sent now edge = ground arith

-- Each operation of an XBridge is the operation of the other class's model without a tag, on the
-- fields of both ports taken together: construction, a request, a response, and the two attempts to
-- send, with the same packets, answers, retries and failed assertions.
pub as_bridge-refines :
    (x : XBridge) (pkt : Packet) (sent : Bool) (when now edge r q : ℕ)
    → (as_bridge (init r q) ≡ Bridge.init plain r q)
      × (reply_as_bridge (recv_timing_req x pkt when)
          ≡ Bridge.recv_timing_req (as_bridge x) pkt when)
      × ((recv_timing_resp x pkt when >>= λ y. ok (as_bridge y))
          ≡ Bridge.recv_timing_resp (as_bridge x) pkt when)
      × (sent_as_bridge (try_send_req x sent now edge)
          ≡ Bridge.try_send_req (as_bridge x) sent now edge)
      × (sent_as_bridge (try_send_resp x sent now edge)
          ≡ Bridge.try_send_resp (as_bridge x) sent now edge)
as_bridge-refines x pkt sent when now edge r q = (
  as_bridge-init r q,
  req_refines x pkt when,
  resp_refines x pkt when,
  try_req_refines x sent now edge,
  try_resp_refines x sent now edge,
)
