-- ===== src/Tests/BridgeTests.antt =====
-- A bridge that tags with DSid 2, with one slot in each queue, and one without a tag.
use pard_gem.Prelude.{◌≡◌, refl, true, false, List, [], ◌∷◌, none, ok, fault, assertion, ◌>>=◌}
use pard_gem.Mem.Packet.{Packet}
use pard_gem.Bridge.{
  Bridge, tags, plain, init, recv_timing_req, recv_timing_resp, try_send_req, try_send_resp,
}
use pard_gem.Bridge.Protocol.{World, Action, request, req_event, run}
use pard_gem.Bridge.Safety.{refused_then_fatal, start}
use pard_gem.XBridge
use pard_gem.XBridge.{XBridge}
use pard_gem.XBridge.Refine.{as_bridge, reply_as_bridge, sent_as_bridge, as_bridge-refines}

abbrev read_request : Packet
read_request = record {
  addr = 0x40;
  src = 1;
  dest = 0;
  ds_id = none;
  needs_response = true;
  mem_inhibit = false;
  first_word_delay = 0;
  last_word_delay = 0;
  sender_state = [];
}

abbrev new : World
new = start (tags 2) 1 1 0

-- The request arrives at time 0 and is sent on at its time, 10.
abbrev history : List Action
history = request read_request 0 10 ∷ req_event true 10 10 ∷ []

abbrev after : World → Action → World
after w a = elim (run w a) [ ok v ↦ v | fault _ ↦ w ]

-- A bridge whose only response slot is taken, and the same bridge when it is free again.
abbrev busy : Bridge
busy = record {
  kind = tags 2;
  resp_queue_limit = 1;
  req_queue_limit = 1;
  requests = [];
  responses = [];
  outstanding = 1;
  retry_req = false;
  send_req_at = none;
  send_resp_at = none;
}

abbrev free : Bridge
free = record busy { outstanding = 0 }

refused_then_fatal_example :
    (pkt' : Packet) × (recv_timing_req busy read_request 5
      ≡ ok (false, pkt', record busy { retry_req = true }))
    × (recv_timing_req free pkt' 9 ≡ fault assertion)
refused_then_fatal_example =
    refused_then_fatal busy free 2 read_request 5 9 refl refl refl refl refl refl refl refl refl

as_bridge-refines_example :
    let x : XBridge = XBridge.init 1 1 in
    (as_bridge (XBridge.init 1 1) ≡ init plain 1 1)
    × (reply_as_bridge (XBridge.recv_timing_req x read_request 10)
        ≡ recv_timing_req (as_bridge x) read_request 10)
    × ((XBridge.recv_timing_resp x read_request 10 >>= λ y. ok (as_bridge y))
        ≡ recv_timing_resp (as_bridge x) read_request 10)
    × (sent_as_bridge (XBridge.try_send_req x true 10 10) ≡ try_send_req (as_bridge x) true 10 10)
    × (sent_as_bridge (XBridge.try_send_resp x true 10 10) ≡ try_send_resp (as_bridge x) true 10 10)
as_bridge-refines_example = as_bridge-refines (XBridge.init 1 1) read_request true 10 10 10 1 1
