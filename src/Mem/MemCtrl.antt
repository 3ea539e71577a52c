-- ===== src/Mem/MemCtrl.antt =====
-- mem/pard_mem_ctrl.cc: the memory controller that gives each domain a window of its own.
use pard_gem.Prelude.{
  ℕ, ◌+◌, ◌*◌, ◌%◌, ◌^◌, ◌≤◌, ◌<◌, ◌≡◌, ◌≢◌, refl, Bool, true, false, not, ◌&&◌, ◌∷◌, Option, none,
  some, arith, if◌then◌else◌, ltb, Result, ok, fault, panic, ◌>>=◌, List,
}
use pard_gem.Mem.Packet.{
  Packet, SenderState, mem_ctrl_state, get_ds_id, push_state, pop_state, clear_delays,
  expects_response,
}

abbrev pub window : ℕ
window = 0x80000000

-- The sum is a 64-bit `Addr`.
unfoldable pub remap_addr : ℕ → ℕ → Result ℕ
remap_addr ds addr = if ltb ds 4 then ok ((addr + ds * window) % 2 ^ 64) else fault panic

-- The `dynamic_cast<RequestState *>(pkt->senderState)`, on the top of the stack.
abbrev pub own_state : List SenderState → Option (ℕ × ℕ)
own_state (mem_ctrl_state src addr ∷ _) = some (src, addr)
own_state _ = none

unfoldable pub remapped : Packet → Result Packet
remapped pkt = do
  ds ← get_ds_id pkt
  addr ← remap_addr ds pkt.addr
  ok (record (clear_delays pkt) { addr = addr })

-- The packet comes back at its first address; `send` is the memory's answer.
pub recv_atomic : (Packet → ℕ × Packet) → Packet → Result (ℕ × Packet)
unfolding remapped
recv_atomic send pkt = do
  there ← remapped pkt
  let (tick, back) = send there
  ok (tick, record back { addr = pkt.addr })

pub recv_functional : (Packet → Packet) → Packet → Result Packet
unfolding remapped
recv_functional send pkt = remapped pkt >>= λ there. ok (record (send there) { addr = pkt.addr })

-- What the sender sees: whether the memory took the request, and the packet. `sent` is the answer
-- of `sendTimingReq`.
unfoldable pub recv_timing_req : Packet → Bool → Result (Bool × Packet)
unfolding remapped
recv_timing_req pkt sent = do
  let marked =
      if not pkt.mem_inhibit && pkt.needs_response
      then push_state pkt (mem_ctrl_state pkt.src pkt.addr)
      else pkt
  there ← remapped marked
  if not sent && pkt.needs_response
      then (pop_state there >>= λ r. ok (sent, r.1))
      else ok (sent, there)

-- A response on its way back, and the packet as it was if the sender refuses it.
pub recv_timing_resp : Packet → Bool → Result (Bool × Packet)
recv_timing_resp pkt sent = elim (own_state pkt.sender_state) [
  | none ↦ fault panic
  | some (src, addr) ↦ (do
    (state, popped) ← pop_state pkt
    let back = record (clear_delays popped) { dest = src; addr = addr }
    if sent
        then ok (true, back)
        else ok (false, record (push_state back state) { dest = pkt.dest; addr = pkt.addr }))
]

-- Addresses below 2 GB of two domains never meet, and each lies in its domain's window.
pub remap_addr-isolates :
    (ds ds' addr addr' : ℕ) {there there' : ℕ}
    → ds ≢ ds'
    → addr < window
    → addr' < window
    → remap_addr ds addr ≡ ok there
    → remap_addr ds' addr' ≡ ok there'
    → (ds * window ≤ there) × (there < (ds + 1) * window) × (there ≢ there')
unfolding remap_addr
remap_addr-isolates ds ds' addr addr' ne h h' e e' = ground arith

-- A request that the memory took, and its response with the same states: the response goes back to
-- the request's port and address, with the states that the request came with.
pub response_reverses_remap :
    (pkt resp : Packet) {there : Packet}
    → expects_response pkt ≡ true
    → recv_timing_req pkt true ≡ ok (true, there)
    → resp.sender_state ≡ there.sender_state
    → (recv_timing_resp resp true
        ≡ ok (
          true,
          record (clear_delays resp) {
            dest = pkt.src;
            addr = pkt.addr;
            sender_state = pkt.sender_state;
          },
        ))
unfolding recv_timing_req recv_timing_resp remapped
response_reverses_remap pkt resp {there} h e s = ground arith

-- A response that the sender refuses keeps its states, its destination and its address.
pub refused_response :
    (pkt : Packet) {src addr : ℕ}
    → own_state pkt.sender_state ≡ some (src, addr)
    → recv_timing_resp pkt false ≡ ok (false, clear_delays pkt)
unfolding recv_timing_resp
refused_response pkt e = ground arith

-- A request that the memory refuses keeps its states, but not its address: when the sender repeats
-- the packet, it is moved a second time. From domain 1 the repeated request reaches the place of the
-- same address of domain 2.
pub refused_request_drifts :
    (pkt : Packet)
    → pkt.ds_id ≡ some 1
    → pkt.needs_response ≡ true
    → pkt.mem_inhibit ≡ false
    → pkt.addr < window
    → (refused : Packet) × (there : Packet) × (recv_timing_req pkt false ≡ ok (false, refused))
      × (refused.sender_state ≡ pkt.sender_state)
      × (refused.addr ≡ pkt.addr + window)
      × (recv_timing_req refused true ≡ ok (true, there))
      × (remap_addr 2 pkt.addr ≡ ok there.addr)
unfolding recv_timing_req remapped remap_addr
refused_request_drifts pkt d n m h = (
  record (clear_delays pkt) { addr = pkt.addr + window },
  record (push_state (clear_delays pkt) (mem_ctrl_state pkt.src (pkt.addr + window))) {
    addr = pkt.addr + 2 * window;
  },
  ground arith,
  refl,
  refl,
  ground arith,
  ground arith,
)
