-- ===== src/SystemXBar/Retry.antt =====
-- A request that the crossbar of mem/pard_system_xbar.cc could not send, and its repetition.
use pard_gem.Prelude.{
  ℕ, ◌+◌, ◌≡◌, refl, Bool, true, false, not, List, [], ◌∷◌, ◌++◌, some, ==_refl, if◌then◌else◌,
  Result, ok, ◌>>=◌, inl, inr, Bool-cases, Option-cases,
}
use pard_gem.RangeMap.{RangeMap}
use pard_gem.SystemXBar.{
  XPacket, XBar, Answers, Call, forward, update_request, failed_timing, succeeded_timing, chosen,
  count, size_if_data, member, erase, snooped, snoop, add_outstanding, tell_filter, refused, settle,
  snoop_latency, destination, recv_timing_req,
}

-- calcPacketTiming sets the delays of a packet whose delays are 0.
abbrev pub SetsDelays : (XPacket → Result XPacket) → Type 0
SetsDelays calc =
    (pkt : XPacket)
    → pkt.first_word_delay ≡ 0
    → pkt.last_word_delay ≡ 0
    → (first last : ℕ) × (calc pkt
        ≡ ok (record pkt { first_word_delay = first; last_word_delay = last }))

-- A request on its way: not an express snoop, with no delays, and not sent already.
abbrev pub IsNew : {R : RangeMap ℕ} → XBar R → XPacket → Type 0
IsNew x pkt =
    (pkt.express_snoop ≡ false)
    × (pkt.first_word_delay ≡ 0)
    × (pkt.last_word_delay ≡ 0)
    × (member x.outstanding_req pkt.request ≡ false)

-- The destination refuses it: the packet comes back with its command, uninhibited.
abbrev pub Refuses : XPacket → Answers → Type 0
Refuses pkt a =
    (a.layer_free ≡ true)
    × (a.success ≡ false)
    × (a.mem_inhibit_after ≡ false)
    × (a.cmd_after ≡ pkt.cmd)

abbrev pub Accepts : Answers → Type 0
Accepts a = (a.layer_free ≡ true) × (a.success ≡ true)

module _ (R : RangeMap ℕ) (find_port : ℕ → ℕ) (calc_packet_timing : XPacket → Result XPacket)
    (clock_period : ℕ) where
  abbrev sends : XBar R → XPacket → ℕ → Answers → Result (Bool × XPacket × XBar R)
  sends = recv_timing_req R find_port calc_packet_timing clock_period

  -- The requests outstanding once `pkt` was sent.
  abbrev pub with_request : XBar R → XPacket → List ℕ
  with_request x pkt =
      if pkt.needs_response then pkt.request ∷ x.outstanding_req else x.outstanding_req

  snoop_calls :
      (x : XBar R) (pkt : XPacket) (slave : ℕ) (a : Answers)
      → (calls : List Call) × (snoop R find_port calc_packet_timing clock_period x pkt slave a
          ≡ record x { calls = calls })
  unfolding snoop
  snoop_calls x pkt slave a = elim (Bool-cases (snooped pkt a.bypass_caches)) [
    | inl e ↦ (x.calls ++ forward pkt (some slave) (chosen a.lookup) ∷ [], rw e refl)
    | inr e ↦ (x.calls, rw e refl)
  ]

  tell_filter_calls :
      (x : XBar R) (pkt : XPacket) (slave : ℕ) (a : Answers)
      → (calls : List Call) × (tell_filter R find_port calc_packet_timing clock_period x pkt slave a
          ≡ record x { calls = calls })
  unfolding tell_filter
  tell_filter_calls x pkt slave a = elim (Option-cases a.lookup) [
    | inl none_there ↦ (x.calls, rw none_there refl)
    | inr (l, there) ↦ elim (Bool-cases (snooped pkt a.bypass_caches)) [
      | inl e ↦ (x.calls ++ update_request pkt slave (not a.success) ∷ [], rw (there, e) refl)
      | inr e ↦ (x.calls, rw (there, e) refl)
    ]
  ]

  add_outstanding_lem :
      (x : XBar R) (pkt : XPacket)
      → pkt.express_snoop ≡ false
      → member x.outstanding_req pkt.request ≡ false
      → add_outstanding R find_port calc_packet_timing clock_period x pkt
        ≡ ok (record x { outstanding_req = with_request x pkt })
  unfolding add_outstanding
  add_outstanding_lem x pkt plain fresh = elim (Bool-cases pkt.needs_response) [
    | inl e ↦ rw (plain, e, fresh) refl
    | inr e ↦ rw (plain, e) refl
  ]

  -- Removing the request again.
  erased :
      (x : XBar R) (pkt : XPacket)
      → (if pkt.needs_response then erase (with_request x pkt) pkt.request else with_request x pkt)
        ≡ x.outstanding_req
  erased x pkt = elim (Bool-cases pkt.needs_response) [
    | inl e ↦ rw (e, ==_refl pkt.request) refl
    | inr e ↦ rw e refl
  ]

  -- The two outcomes, in closed form.
  refused_lem :
      (x : XBar R) (pkt : XPacket) (slave : ℕ) (a : Answers)
      → SetsDelays calc_packet_timing
      → IsNew x pkt
      → Refuses pkt a
      → (calls : List Call) × (sends x pkt slave a
          ≡ ok (false, record pkt { src = slave }, record x { calls = calls }))
  unfolding recv_timing_req settle refused
  refused_lem x pkt slave a sets (plain, first, last, fresh) (free, failed, calm, same) =
      let (f, l, e) = sets (record pkt { src = slave }) first last in
      let timed = record pkt { src = slave; first_word_delay = f; last_word_delay = l } in
      let (c₁, snooped₁) = snoop_calls x timed slave a in
      let x₁ : XBar R = record x { calls = c₁ } in
      let added = add_outstanding_lem x₁ timed plain fresh in
      let x₂ : XBar R = record x₁ { outstanding_req = with_request x timed } in
      let (c₃, told) = tell_filter_calls x₂ timed slave a in
      (
        c₃
            ++ failed_timing (destination R find_port calc_packet_timing clock_period x pkt.addr)
                slave a.header_edge
              ∷ [],
        rw
            (
              e,
              ◌>>=◌,
              snooped₁,
              added,
              ◌>>=◌,
              told,
              plain,
              free,
              failed,
              calm,
              ◌>>=◌,
              erased x pkt,
              same,
              first,
              last,
            )
            refl,
      )

  accepted_lem :
      (x : XBar R) (pkt : XPacket) (slave first last : ℕ) (a : Answers)
      → calc_packet_timing (record pkt { src = slave })
        ≡ ok (record pkt { src = slave; first_word_delay = first; last_word_delay = last })
      → IsNew x pkt
      → Accepts a
      → (calls : List Call) × (sends x pkt slave a
          ≡ ok (
            true,
            record pkt {
              src = slave;
              first_word_delay = first;
              last_word_delay = last;
              cmd = a.cmd_after;
            },
            record x {
              outstanding_req = with_request x pkt;
              stats =
                  count x.stats slave
                    (destination R find_port calc_packet_timing clock_period x pkt.addr)
                    (size_if_data pkt)
                    pkt.cmd;
              calls = calls;
            },
          ))
  unfolding recv_timing_req settle
  accepted_lem x pkt slave f l a e (plain, first, last, fresh) (free, done) =
      let timed = record pkt { src = slave; first_word_delay = f; last_word_delay = l } in
      let (c₁, snooped₁) = snoop_calls x timed slave a in
      let x₁ : XBar R = record x { calls = c₁ } in
      let added = add_outstanding_lem x₁ timed plain fresh in
      let x₂ : XBar R = record x₁ { outstanding_req = with_request x timed } in
      let (c₃, told) = tell_filter_calls x₂ timed slave a in
      (
        c₃
            ++ succeeded_timing (destination R find_port calc_packet_timing clock_period x pkt.addr)
                (l + a.now + snoop_latency R find_port calc_packet_timing clock_period timed a)
              ∷ [],
        rw (e, ◌>>=◌, snooped₁, added, ◌>>=◌, told, plain, free, done) refl,
      )

  -- A request that is refused after it was sent, and repeated once a retry allows it: the refusal leaves
  -- neither a trace in the crossbar, the calls on gem5's objects apart, nor a delay on the packet,
  -- so the repetition is accepted with the same packet, outstanding requests and statistics as if
  -- the request had been accepted at once. This is for a normal request without delays that is not
  -- outstanding, and a refusal that leaves its command and does not inhibit it.
  pub recv_timing_req-retry :
      (x : XBar R) (pkt : XPacket) (slave : ℕ) (no_answer answer : Answers)
      → SetsDelays calc_packet_timing
      → IsNew x pkt
      → Refuses pkt no_answer
      → Accepts answer
      → (pkt₁ pkt₂ : XPacket) × (x₁ y z : XBar R) × (recv_timing_req R find_port calc_packet_timing
            clock_period x pkt slave no_answer
          ≡ ok (false, pkt₁, x₁))
        × (recv_timing_req R find_port calc_packet_timing clock_period x₁ pkt₁ slave answer
            ≡ ok (true, pkt₂, y))
        × (recv_timing_req R find_port calc_packet_timing clock_period x pkt slave answer
            ≡ ok (true, pkt₂, z))
        × (y ≡ record z { calls = y.calls })
        × (y.outstanding_req ≡ with_request x pkt)
  unfolding destination
  recv_timing_req-retry x pkt slave no_answer answer sets (plain, first, last, fresh) refuses
        accepts =
      let (f, l, e) = sets (record pkt { src = slave }) first last in
      let (c, refusal) =
        refused_lem x pkt slave no_answer sets (plain, first, last, fresh) refuses in
      let (d, again) =
        accepted_lem (record x { calls = c }) (record pkt { src = slave }) slave f l answer e
          (plain, first, last, fresh) accepts in
      let (g, at_once) =
        accepted_lem x pkt slave f l answer e (plain, first, last, fresh) accepts in
      (_, _, _, _, _, refusal, again, at_once, refl, refl)
