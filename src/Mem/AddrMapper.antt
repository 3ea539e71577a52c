-- ===== src/Mem/AddrMapper.antt =====
-- mem/tag_addr_mapper.cc: an abstract mapper whose subclasses give `remapAddr` and two hooks. The
-- peers' ports are the arguments `send` and `sent`. Timing snoops, retries and range changes go on
-- to the other port unchanged, and are not modelled.
use pard_gem.Prelude.{
  ℕ, ◌≡◌, refl, Bool, true, false, not, ◌&&◌, List, ◌∷◌, Option, none, some, arith, if◌then◌else◌,
  Result, ok, fault, panic, ◌>>=◌, Option-cases, inl, inr,
}
use pard_gem.Mem.Packet.{
  Packet, SenderState, mapper_state, get_ds_id, push_state, pop_state, expects_response,
}

abbrev pub set_addr : Packet → ℕ → Packet
set_addr pkt addr = record pkt { addr = addr }

-- The `dynamic_cast<TagAddrMapperSenderState *>(pkt->senderState)`.
abbrev pub own_state : List SenderState → Option ℕ
own_state (mapper_state addr ∷ _) = some addr
own_state _ = none

module _ (remap_addr : ℕ → ℕ → ℕ) where
  -- `pkt->setAddr(remapAddr(orig_addr, pkt->getDSid()))`
  abbrev pub mapped : Packet → Result Packet
  mapped pkt = get_ds_id pkt >>= λ ds. ok (set_addr pkt (remap_addr pkt.addr ds))

  pub recv_functional_snoop : (Packet → Packet) → Packet → Result Packet
  recv_functional_snoop send pkt = mapped pkt >>= λ there. ok (set_addr (send there) pkt.addr)

  pub recv_atomic_snoop : (Packet → ℕ × Packet) → Packet → Result (ℕ × Packet)
  recv_atomic_snoop send pkt = do
    there ← mapped pkt
    let (tick, back) = send there
    ok (tick, set_addr back pkt.addr)

module _ (remap_addr : ℕ → ℕ → ℕ) (pre_req_hook post_resp_hook : Packet → Packet) where
  pub recv_functional : (Packet → Packet) → Packet → Result Packet
  recv_functional send pkt = mapped remap_addr pkt >>= λ there.
      ok (set_addr (post_resp_hook (send (pre_req_hook there))) pkt.addr)

  pub recv_atomic : (Packet → ℕ × Packet) → Packet → Result (ℕ × Packet)
  recv_atomic send pkt = do
    there ← mapped remap_addr pkt
    let (tick, back) = send (pre_req_hook there)
    ok (tick, set_addr (post_resp_hook back) pkt.addr)

  -- What the sender sees: whether the peer took the request, and the packet.
  unfoldable pub recv_timing_req : Packet → Bool → Result (Bool × Packet)
  recv_timing_req pkt sent = do
    let marked =
        if pkt.needs_response && not pkt.mem_inhibit
        then push_state pkt (mapper_state pkt.addr)
        else pkt
    there ← mapped remap_addr marked
    if not sent && pkt.needs_response
        then (pop_state (pre_req_hook there) >>= λ r. ok (sent, r.1))
        else ok (sent, pre_req_hook there)

  pub recv_timing_resp : Packet → Bool → Result (Bool × Packet)
  recv_timing_resp pkt sent = elim (own_state pkt.sender_state) [
    | none ↦ fault panic
    | some addr ↦ (do
      (state, popped) ← pop_state pkt
      let hooked = record (post_resp_hook pkt) { sender_state = popped.sender_state }
      if sent
          then ok (true, set_addr hooked addr)
          else ok (false, set_addr (push_state hooked state) pkt.addr))
  ]

  -- Where the hook on requests leaves the sender states alone: a request that the peer took, and
  -- its response with the same states: the response has the request's own address and the states
  -- that it came with, whatever the mapping and the hook do.
  pub response_reverses_map :
      (pkt resp : Packet) {there : Packet}
      → ((p : Packet) → (pre_req_hook p).sender_state ≡ p.sender_state)
      → expects_response pkt ≡ true
      → recv_timing_req pkt true ≡ ok (true, there)
      → resp.sender_state ≡ there.sender_state
      → recv_timing_resp resp true
        ≡ ok (
          true,
          record (post_resp_hook resp) { addr = pkt.addr; sender_state = pkt.sender_state },
        )
  unfolding recv_timing_req recv_timing_resp
  response_reverses_map pkt resp {there} hook h e s = elim (Option-cases pkt.ds_id) [
    | inl missing ↦ absurd (ground arith)
    | inr (ds, tagged) ↦
        ground
          (arith, hook (set_addr (push_state pkt (mapper_state pkt.addr)) (remap_addr pkt.addr ds)))
  ]

  -- A response that the sender refuses keeps its address and its sender states.
  pub refused_response_keeps :
      (pkt : Packet) {addr : ℕ}
      → own_state pkt.sender_state ≡ some addr
      → recv_timing_resp pkt false
        ≡ ok (
          false,
          record (post_resp_hook pkt) { addr = pkt.addr; sender_state = pkt.sender_state },
        )
  unfolding recv_timing_resp
  refused_response_keeps pkt e = ground arith

  -- Where the hook changes neither address, tag, kind nor states, a request that the peer refuses
  -- keeps its sender states but not its address: repeated, it is mapped a second time.
  pub refused_request_maps_twice :
      (pkt : Packet) (ds : ℕ)
      → ((p : Packet) → pre_req_hook p ≡ p)
      → pkt.ds_id ≡ some ds
      → pkt.needs_response ≡ true
      → pkt.mem_inhibit ≡ false
      → (refused : Packet) × (there : Packet) × (recv_timing_req pkt false ≡ ok (false, refused))
        × (refused.sender_state ≡ pkt.sender_state)
        × (recv_timing_req refused true ≡ ok (true, there))
        × (there.addr ≡ remap_addr (remap_addr pkt.addr ds) ds)
  unfolding recv_timing_req
  refused_request_maps_twice pkt ds hook tagged n m =
      let once : ℕ = remap_addr pkt.addr ds in
      let refused : Packet = set_addr pkt once in
      let there : Packet = set_addr (push_state refused (mapper_state once)) (remap_addr once ds) in
      (
        refused,
        there,
        ground (arith, hook (set_addr (push_state pkt (mapper_state pkt.addr)) once)),
        refl,
        ground (arith, hook there),
        refl,
      )
