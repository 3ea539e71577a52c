-- ===== src/Mem/TagXBar.antt =====
-- mem/tag_xbar.cc: the ports that a tagged crossbar puts around gem5's crossbar. Each direction
-- remembers the port a packet came from. `sent` is the answer of the peer.
use pard_gem.Prelude.{
  ℕ, Bool, true, false, not, ◌&&◌, Option, none, some, if◌then◌else◌, Result, ok, fault, panic,
  ◌>>=◌,
}
use pard_gem.Mem.Packet.{Packet, SenderState, tag_xbar_state, push_state, pop_state, clear_delays}

abbrev pub own_state : SenderState → Option ℕ
own_state (tag_xbar_state src) = some src
own_state _ = none

-- `if (!memInhibitAsserted && needsResponse) pkt->pushSenderState(new RequestState(pkt->getSrc()))`
abbrev pub marked : Packet → Packet
marked pkt =
    if not pkt.mem_inhibit && pkt.needs_response
    then push_state pkt (tag_xbar_state pkt.src)
    else pkt

pub recv_timing_req : Packet → Bool → Result (Bool × Packet)
recv_timing_req pkt sent =
    if not sent && pkt.needs_response
    then (pop_state (marked pkt) >>= λ r. ok (sent, r.1))
    else ok (sent, marked pkt)

-- A response that goes back to the port of its request.
returned : Packet → Bool → Result (Bool × Packet)
returned pkt sent = do
  (state, popped) ← pop_state pkt
  elim (own_state state) [
    | none ↦ fault panic
    | some src ↦
        if sent
        then ok (true, record (clear_delays popped) { dest = src })
        else ok (false, record (push_state (clear_delays popped) state) { dest = pkt.dest })
  ]

pub recv_timing_resp : Packet → Bool → Result (Bool × Packet)
unfolding returned
recv_timing_resp pkt sent = returned pkt sent

-- A snoop request always succeeds.
pub recv_timing_snoop_req : Packet → Packet
recv_timing_snoop_req pkt = marked pkt

pub recv_timing_snoop_resp : Packet → Bool → Result (Bool × Packet)
unfolding returned
recv_timing_snoop_resp pkt sent = returned pkt sent
