-- ===== src/Dma/World.antt =====
-- The DMA port in timing mode among its peers: the memory side that accepts packets or refuses them
-- and owes a retry, answers in any order, and the device that starts transfers and whose events run.
use pard_gem.Prelude.{
  ℕ, ◌+◌, ◌^◌, ◌<◌, ◌≡◌, ◌⊎◌, Bool, true, false, not, ◌&&◌, List, [], ◌∷◌, ◌++◌, Option, none, some,
  ◌==◌, Result, ok, ◌>>=◌, if◌then◌else◌, length, get_elem?,
}
use pard_gem.Dma.{
  DmaPacket, Port, Chunk, Transfer, Peer, timing, dma_action, process_send_event, recv_retry,
  recv_timing_resp, is_waiting, drain,
}
use pard_gem.Dma.Owed.{packets, remove_at}
use pard_gem.Dma.Inv.{Core}
use pard_gem.Dma.Queue.{IsFreeEvent, Splits}
use pard_gem.Dma.Response.{IsAnswer}

-- `in_flight`: the packets sent without a response yet, the first one sent first.
pub record World : Type 0 where
  pub port : Port
  pub in_flight : List DmaPacket

-- What can happen next. `accepted` is the peer's answer to a packet, `edge` the next clock edge.
pub data Action : Type 0 where
  transfer : Transfer → Bool → ℕ → ℕ → Action
  send_event : Bool → ℕ → ℕ → Action
  retry : Bool → ℕ → Action
  response : ℕ → DmaPacket → ℕ → Action
  device_event : ℕ → Action
  drain_request : ℕ → Action

abbrev pub launch : Bool → List DmaPacket → List DmaPacket → List DmaPacket
launch true (q ∷ _) flight = flight ++ q ∷ []
launch _ _ flight = flight

-- A device event runs: the event queue drops it.
abbrev pub unschedule : List (ℕ × ℕ) → ℕ → List (ℕ × ℕ)
unschedule [] e = []
unschedule ((x, at) ∷ rest) e = if x == e then rest else (x, at) ∷ unschedule rest e

abbrev pub timing_peer : Bool → Peer
timing_peer accepted = record { accepts = accepted; latency = λ _. 0 }

-- Something is to be sent: then a retry or the send event will come.
abbrev pub IsSending : List DmaPacket → Bool → Option ℕ → Type 0
IsSending [] waits at = (waits ≡ false) × (at ≡ none)
IsSending (_ ∷ _) waits at =
    ((waits ≡ true) × (at ≡ none)) ⊎ ((waits ≡ false) × ((t : ℕ) × (at ≡ some t)))

pub record Inv (w : World) : Type 0 where
  pub core : Core w.port (w.in_flight ++ w.port.transmit_list)
  pub in_timing : w.port.mode ≡ timing
  pub sending : IsSending w.port.transmit_list w.port.in_retry w.port.send_at

module _ (chunks : ℕ → ℕ → List Chunk) where
  abbrev pub chunks_of : Transfer → List Chunk
  chunks_of t = chunks t.addr t.size

  abbrev pub Enabled : World → Action → Type 0
  Enabled w (transfer t accepted now edge) =
      Splits t (chunks_of t)
      × (0 < t.size)
      × (t.size < 2 ^ 31)
      × (w.port.pending_count + length (chunks_of t) < 2 ^ 32)
      × IsFreeEvent w.port t.event
  Enabled w (send_event accepted t edge) = w.port.send_at ≡ some t
  Enabled w (retry accepted edge) = w.port.in_retry ≡ true
  Enabled w (response i pkt now) =
      (sent : DmaPacket) × (get_elem? w.in_flight i ≡ some sent)
      × IsAnswer pkt sent
      × ((pkt.mem_inhibit && not pkt.shared) ≡ false)
  Enabled w (device_event e) = Unit {0}
  Enabled w (drain_request dm) = Unit {0}

  unfoldable pub run : World → Action → Result World
  run w (transfer t accepted now edge) = do
    p ← dma_action chunks w.port t (timing_peer accepted) now edge
    ok (record {
      port = p;
      in_flight =
          if is_waiting w.port
          then w.in_flight
          else launch accepted
              (w.port.transmit_list ++ packets t (length w.port.states) (chunks_of t) 0)
              w.in_flight;
    })
  run w (send_event accepted now edge) = do
    p ← process_send_event w.port (timing_peer accepted) now edge
    ok (record { port = p; in_flight = launch accepted w.port.transmit_list w.in_flight })
  run w (retry accepted edge) = do
    p ← recv_retry w.port accepted edge
    ok (record { port = p; in_flight = launch accepted w.port.transmit_list w.in_flight })
  run w (response i pkt now) = do
    p ← recv_timing_resp w.port pkt now
    ok (record { port = p; in_flight = remove_at w.in_flight i })
  run w (device_event e) =
      ok (record w { port = record w.port { scheduled = unschedule w.port.scheduled e } })
  run w (drain_request dm) = ok (record w { port = (drain w.port dm).1 })

  unfoldable pub run_all : World → List Action → Result World
  unfolding run
  run_all w [] = ok w
  run_all w (a ∷ rest) = run w a >>= λ w'. run_all w' rest
