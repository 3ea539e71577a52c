-- ===== src/SystemXBar/Access.antt =====
-- The other handlers of mem/pard_system_xbar.cc: atomic and functional requests, and timing snoops.
use pard_gem.Prelude.{
  ℕ, suc, ◌+◌, ◌*◌, Bool, false, not, ◌&&◌, ◌||◌, ◌∷◌, Option, none, some, ◌==◌, if◌then◌else◌,
  Result, ok, assertion, ◌>>=◌, ◌>>◌, require,
}
use pard_gem.RangeMap.{RangeMap}
use pard_gem.SystemXBar.{
  XPacket, XBar, forward, update_response, Lookup, lookup_latency, chosen, count, log, size_if_data,
  snooped, destination,
}

-- The same during recvAtomic. `snoop_response` is what the command of a snooper's response, if it is
-- not InvalidCmd, makes of the packet; `reply` is the packet after the destination's sendAtomic.
pub record AtomicAnswers : Type 0 where
  pub bypass_caches : Bool
  pub lookup : Option Lookup
  pub snoop_response : Option (XPacket → XPacket)
  pub snoop_latency : ℕ
  pub reply : XPacket → XPacket
  pub reply_latency : ℕ

module _ (R : RangeMap ℕ) (find_port : ℕ → ℕ) (calc_packet_timing : XPacket → Result XPacket)
    (clock_period : ℕ) where
  -- `lookup` is the filter's lookupSnoop.
  pub recv_timing_snoop_req : XBar R → XPacket → ℕ → Option Lookup → Result (XPacket × XBar R)
  recv_timing_snoop_req x pkt master lookup = do
    require pkt.express_snoop assertion
    let there = record pkt { src = master }
    require
        (elim (R.find x.fixed_port_map pkt.addr) [ none ↦ false | some i ↦ i == master ]
          || master == find_port pkt.addr)
        assertion
    ok (
      there,
      log
          (record x {
            stats = record x.stats { trans_dist = pkt.cmd ∷ x.stats.trans_dist };
            snoops = suc x.snoops;
          })
          (forward there none (chosen lookup)),
    )

  -- recvFunctional: the packet after the snoopers saw it, and the port it is sent on to, if any.
  pub recv_functional :
      XBar R → XPacket → ℕ → Bool → (XPacket → XPacket) → XPacket × Option ℕ × XBar R
  recv_functional x pkt slave bypass snoopers =
      let pkt' = if snooped pkt bypass then snoopers pkt else pkt in
      let x' = if snooped pkt bypass then log x (forward pkt (some slave) none) else x in
      (
        pkt',
        if pkt'.is_response
            then none
            else some (destination R find_port calc_packet_timing clock_period x pkt'.addr),
        x',
      )

  unfoldable pub snoop_atomic :
      XBar R → XPacket → ℕ → AtomicAnswers → Option (XPacket → XPacket) × ℕ × XBar R
  snoop_atomic x pkt slave a =
      if snooped pkt a.bypass_caches
      then (
        a.snoop_response,
        lookup_latency a.lookup * clock_period + a.snoop_latency,
        log x (forward pkt (some slave) (chosen a.lookup)),
      )
      else (none, 0, x)

  abbrev pub tell_filter_response : XBar R → XPacket → ℕ → AtomicAnswers → XBar R
  tell_filter_response x pkt slave a = elim a.lookup [
    | none ↦ x
    | some _ ↦
        (if snooped pkt a.bypass_caches && pkt.is_response
          then log x (update_response pkt slave)
          else x)
  ]

  -- The packet and the latency, once a snooper's response is restored.
  abbrev pub restore : Option (XPacket → XPacket) → ℕ → XPacket → ℕ → Result (XPacket × ℕ)
  restore none snoop_lat pkt lat = ok (pkt, lat)
  restore (some respond) snoop_lat pkt lat =
      require (not pkt.is_response) assertion >> ok (respond pkt, snoop_lat)

  abbrev pub count_response : XBar R → XPacket → ℕ → ℕ → XBar R
  count_response x pkt slave dest =
      if pkt.is_response
      then record x { stats = count x.stats slave dest (size_if_data pkt) pkt.cmd }
      else x

  unfoldable pub recv_atomic : XBar R → XPacket → ℕ → AtomicAnswers → Result (ℕ × XPacket × XBar R)
  unfolding snoop_atomic
  recv_atomic x pkt slave a =
      let (respond, snoop_lat, x₁) = snoop_atomic x pkt slave a in
      let dest = destination R find_port calc_packet_timing clock_period x pkt.addr in
      let x₂ = record x₁ { stats = count x₁.stats slave dest (size_if_data pkt) pkt.cmd } in
      restore respond snoop_lat (a.reply pkt) a.reply_latency >>= λ (pkt', lat). ok (
        lat,
        record pkt' { last_word_delay = lat },
        count_response (tell_filter_response x₂ (a.reply pkt) slave a) pkt' slave dest,
      )
