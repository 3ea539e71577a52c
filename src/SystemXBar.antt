-- ===== src/SystemXBar.antt =====
-- mem/pard_system_xbar.cc: the crossbar of the server, a CoherentXBar of gem5 with two more ports, for
-- memory and for I/O, whose address ranges are fixed when it is built.
pub mod Routing
pub mod Retry
pub mod Access
use pard_gem.Prelude.{
  ℕ, zero, suc, ◌+◌, ◌*◌, Bool, true, false, not, ◌&&◌, ◌||◌, List, [], ◌∷◌, ◌++◌, Option, none,
  some, ◌==◌, if◌then◌else◌, Result, ok, fault, assertion, panic, ◌>>=◌, ◌>>◌, require,
}
use pard_gem.RangeMap.{Range, RangeMap}

-- What the crossbar reads of a packet; `request` stands for the pointer `pkt->req`.
pub record XPacket : Type 0 where
  pub request : ℕ
  pub cmd : ℕ
  pub addr : ℕ
  pub size : ℕ
  pub has_data : Bool
  pub uncacheable : Bool
  pub express_snoop : Bool
  pub needs_response : Bool
  pub is_response : Bool
  pub src : ℕ
  pub first_word_delay : ℕ
  pub last_word_delay : ℕ

-- The calls on gem5's objects, in the order of the code: on snoopers (with the snoop filter's choice of
-- them, if there is one), on the snoop filter, and on the layer of a master port.
pub data Call : Type 0 where
  forward : XPacket → Option ℕ → Option (List ℕ) → Call
  update_request : XPacket → ℕ → Bool → Call
  update_response : XPacket → ℕ → Call
  failed_timing : ℕ → ℕ → ℕ → Call
  succeeded_timing : ℕ → ℕ → Call

-- A count for each pair of a slave and a master port, as a list of increments.
pub record Stats : Type 0 where
  pub pkt_count : List (ℕ × ℕ)
  pub pkt_size : List (ℕ × ℕ × ℕ)
  pub trans_dist : List ℕ

pub record XBar (R : RangeMap ℕ) : Type 0 where
  pub fixed_port_map : R.Map
  pub outstanding_req : List ℕ
  pub stats : Stats
  pub snoops : ℕ
  pub calls : List Call

-- The constructor's parameters: the slave ports, whether memory and I/O are connected, their ranges.
pub record Params : Type 0 where
  pub slave_count : ℕ
  pub has_memory : Bool
  pub has_io : Bool
  pub memory_ranges : List Range
  pub io_ranges : List Range

abbrev pub no_stats : Stats
no_stats = record { pkt_count = []; pkt_size = []; trans_dist = [] }

abbrev pub member : List ℕ → ℕ → Bool
member [] r = false
member (q ∷ rest) r = q == r || member rest r

abbrev pub erase : List ℕ → ℕ → List ℕ
erase [] r = []
erase (q ∷ rest) r = if q == r then rest else q ∷ erase rest r

abbrev pub log : {R : RangeMap ℕ} → XBar R → Call → XBar R
log x c = record x { calls = x.calls ++ c ∷ [] }

unfoldable pub count : Stats → ℕ → ℕ → ℕ → ℕ → Stats
count s slave master size cmd = record {
  pkt_count = (slave, master) ∷ s.pkt_count;
  pkt_size = (slave, master, size) ∷ s.pkt_size;
  trans_dist = cmd ∷ s.trans_dist;
}

abbrev pub size_if_data : XPacket → ℕ
size_if_data pkt = if pkt.has_data then pkt.size else 0

-- The snoop filter's answer to a look-up: the ports to snoop and the latency in cycles.
abbrev pub Lookup : Type 0
Lookup = List ℕ × ℕ

abbrev pub chosen : Option Lookup → Option (List ℕ)
chosen none = none
chosen (some (ports, lat)) = some ports

abbrev pub lookup_latency : Option Lookup → ℕ
lookup_latency none = 0
lookup_latency (some (ports, lat)) = lat

-- What gem5's objects answer during recvTimingReq: `layer_free` is `tryTiming`, `lookup` the snoop
-- filter's answer where there is a filter, `success` what the master port's sendTimingReq returns,
-- with the command and the inhibit flag that the packet then has.
pub record Answers : Type 0 where
  pub layer_free : Bool
  pub bypass_caches : Bool
  pub lookup : Option Lookup
  pub success : Bool
  pub cmd_after : ℕ
  pub mem_inhibit_after : Bool
  pub now : ℕ
  pub header_edge : ℕ

abbrev pub snooped : XPacket → Bool → Bool
snooped pkt bypass = not pkt.uncacheable && not bypass

-- `findPort` and `calcPacketTiming` (which asserts that the delays are 0) are gem5's.
module _ (R : RangeMap ℕ) (find_port : ℕ → ℕ) (calc_packet_timing : XPacket → Result XPacket)
    (clock_period : ℕ) where
  unfoldable pub insert_all : R.Map → List Range → ℕ → Result R.Map
  insert_all m [] port = ok m
  insert_all m (r ∷ rest) port = elim (R.insert m r port) [
    | none ↦ fault panic
    | some m' ↦ insert_all m' rest port
  ]

  -- The ports' numbers are those of the master ports that gem5's constructor made, `made`, and on.
  unfoldable pub memory_port : Params → ℕ → ℕ
  memory_port p made = made

  unfoldable pub io_port : Params → ℕ → ℕ
  io_port p made = if p.has_memory then made + 1 else made

  unfoldable pub build_map : Params → ℕ → Result R.Map
  unfolding insert_all memory_port io_port
  build_map p made = do
    m ← if p.has_memory then insert_all R.empty p.memory_ranges (memory_port p made) else ok R.empty
    if p.has_io then insert_all m p.io_ranges (io_port p made) else ok m

  unfoldable pub init : Params → ℕ → Result (XBar R)
  unfolding build_map
  init p made = build_map p made >>= λ m. ok (record {
    fixed_port_map = m;
    outstanding_req = [];
    stats = no_stats;
    snoops = 0;
    calls = [];
  })

  -- The ranges of the coherent crossbar, then the fixed ones.
  abbrev pub get_addr_ranges : Params → List Range → List Range
  get_addr_ranges p coherent = coherent ++ p.memory_ranges ++ p.io_ranges

  unfoldable pub destination : XBar R → ℕ → ℕ
  destination x addr = elim (R.find x.fixed_port_map addr) [ some i ↦ i | none ↦ find_port addr ]

  -- A packet that may be cached goes to the snoopers, too.
  unfoldable pub snoop : XBar R → XPacket → ℕ → Answers → XBar R
  snoop x pkt slave a =
      if snooped pkt a.bypass_caches then log x (forward pkt (some slave) (chosen a.lookup)) else x

  abbrev pub snoop_latency : XPacket → Answers → ℕ
  snoop_latency pkt a =
      if snooped pkt a.bypass_caches then lookup_latency a.lookup * clock_period else 0

  abbrev pub adds_outstanding : XPacket → Bool
  adds_outstanding pkt = not pkt.express_snoop && pkt.needs_response

  unfoldable pub add_outstanding : XBar R → XPacket → Result (XBar R)
  add_outstanding x pkt =
      if adds_outstanding pkt
      then (require (not (member x.outstanding_req pkt.request)) assertion
          >> ok (record x { outstanding_req = pkt.request ∷ x.outstanding_req }))
      else ok x

  -- The snoop filter sees the command that was sent, and whether the send failed.
  unfoldable pub tell_filter : XBar R → XPacket → ℕ → Answers → XBar R
  tell_filter x pkt slave a = elim a.lookup [
    | none ↦ x
    | some _ ↦
        (if snooped pkt a.bypass_caches
          then log x (update_request pkt slave (not a.success))
          else x)
  ]

  unfoldable pub refused : XBar R → XPacket → ℕ → ℕ → Answers → Result (XPacket × XBar R)
  refused x pkt slave dest a = do
    require (not a.mem_inhibit_after) assertion
    ok (
      record pkt { first_word_delay = 0; last_word_delay = 0; cmd = a.cmd_after },
      log
          (record x {
            outstanding_req =
                if adds_outstanding pkt
                then erase x.outstanding_req pkt.request
                else x.outstanding_req;
          })
          (failed_timing dest slave a.header_edge),
    )

  unfoldable pub settle : XBar R → XPacket → ℕ → ℕ → ℕ → Answers → Result (XPacket × XBar R)
  unfolding refused
  settle x pkt slave dest finish a =
      if pkt.express_snoop
      then (require a.success assertion
          >> ok (record pkt { cmd = a.cmd_after }, record x { snoops = suc x.snoops }))
      else if not a.success
      then refused x pkt slave dest a
      else ok (record pkt { cmd = a.cmd_after }, log x (succeeded_timing dest finish))

  abbrev pub count_sent : XBar R → XPacket → ℕ → ℕ → Bool → XBar R
  count_sent x pkt slave dest success =
      if success
      then record x { stats = count x.stats slave dest (size_if_data pkt) pkt.cmd }
      else x

  -- Whether the request was taken, the packet, and the crossbar.
  unfoldable pub recv_timing_req : XBar R → XPacket → ℕ → Answers → Result (Bool × XPacket × XBar R)
  unfolding destination snoop add_outstanding tell_filter settle
  recv_timing_req x pkt slave a =
      if not pkt.express_snoop && not a.layer_free
      then ok (false, pkt, x)
      else (calc_packet_timing (record pkt { src = slave }) >>= λ timed.
          add_outstanding (snoop x timed slave a) timed >>= λ x₁.
          settle (tell_filter x₁ timed slave a) timed slave (destination x pkt.addr)
            (timed.last_word_delay + a.now + snoop_latency timed a) a
          >>= λ (pkt', x₂).
              ok (a.success, pkt', count_sent x₂ pkt slave (destination x pkt.addr) a.success))
