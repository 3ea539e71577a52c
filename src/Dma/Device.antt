-- ===== src/Dma/Device.antt =====
-- PARDg5VDmaDevice: a device with a DMA port and a DSid of its own.
use pard_gem.Prelude.{
  ℕ, ◌+◌, ◌%◌, ◌^◌, ◌≡◌, refl, Bool, true, false, not, List, [], ◌∷◌, ◌++◌, Option, ◌==◌, Result,
  ok, fault, panic, ◌>>=◌, length,
}
use pard_gem.Dma.{
  Chunk, DmaPacket, Port, Transfer, Peer, Mode, Command, read_req, write_req, init, dma_action,
  unset_ds_id, drain,
}
use pard_gem.Dma.Owed.{packets, length-packets}
use pard_gem.Dma.World.{World, Inv, transfer, chunks_of, Enabled, run}
use pard_gem.Dma.Start.{transfer_outstanding}

pub record Device : Type 0 where
  pub dma_port : Port
  pub ds_id : ℕ

-- The constructor.
pub new_device : Mode → Device
new_device mode = record { dma_port = init mode; ds_id = unset_ds_id }

pub assign_ds_id : Device → ℕ → Device
assign_ds_id d ds_id = record d { ds_id = ds_id % 2 ^ 16 }

-- `init`: whether the port is connected.
pub init_device : Bool → Result (Unit {0})
init_device true = ok tt
init_device false = fault panic

-- dmaRead and dmaWrite, for devices that do not know PARD; `cmd` tells them apart.
abbrev pub own_transfer : Device → Command → ℕ → ℕ → Option ℕ → Option ℕ → ℕ → Transfer
own_transfer d cmd addr size event data_at delay = record {
  cmd = cmd;
  ds_id = d.ds_id;
  addr = addr;
  size = size;
  event = event;
  data_at = data_at;
  delay = delay;
  flags = 0;
}

module _ (chunks : ℕ → ℕ → List Chunk) where
  abbrev pub start_transfer : Device → Transfer → Peer → ℕ → ℕ → Result Device
  start_transfer d t peer now edge =
      dma_action chunks d.dma_port t peer now edge >>= λ p. ok (record d { dma_port = p })

  pub dma_write : Device → ℕ → ℕ → Option ℕ → Option ℕ → ℕ → Peer → ℕ → ℕ → Result Device
  dma_write d addr size event data_at delay =
      start_transfer d (own_transfer d write_req addr size event data_at delay)

  pub dma_read : Device → ℕ → ℕ → Option ℕ → Option ℕ → ℕ → Peer → ℕ → ℕ → Result Device
  dma_read d addr size event data_at delay =
      start_transfer d (own_transfer d read_req addr size event data_at delay)

abbrev pub dma_pending : Device → Bool
dma_pending d = not (d.dma_port.pending_count == 0)

-- `drain`: `pio` is the count of the PIO port.
abbrev pub drain_device : Device → ℕ → ℕ → ℕ × Bool × Device
drain_device d dm pio =
    let (n, p) = drain d.dma_port dm in (pio + n, not (pio + n == 0), record d { dma_port = p })

-- Every packet bears the DSid of the transfer, its command, and none is a response.
abbrev pub AreOf : Transfer → List DmaPacket → Type 0
AreOf t [] = Unit {0}
AreOf t (pkt ∷ rest) = ((pkt.ds_id ≡ t.ds_id) × (pkt.cmd ≡ t.cmd)) × AreOf t rest

packets-AreOf : (t : Transfer) (k : ℕ) (cs : List Chunk) (c : ℕ) → AreOf t (packets t k cs c)
packets-AreOf t k [] c = tt
packets-AreOf t k (x ∷ cs) c = ((refl, refl), packets-AreOf t k cs (c + x.size))

-- Starting a transfer in timing mode, in any state that satisfies the invariant, whether the memory
-- side accepts the first packet or refuses it and whatever the DSid, 65535 included: the packets
-- that were outstanding keep their order, and behind them follow one packet for each chunk, all
-- under the transfer's DSid and command.
pub transfer_tags :
    (chunks : ℕ → ℕ → List Chunk) (w : World) (t : Transfer) (accepted : Bool) (now edge : ℕ)
    → Inv w
    → Enabled chunks w (transfer t accepted now edge)
    → (w' : World) × (new : List DmaPacket) × (run chunks w (transfer t accepted now edge) ≡ ok w')
      × (w'.in_flight ++ w'.port.transmit_list ≡ (w.in_flight ++ w.port.transmit_list) ++ new)
      × (length new ≡ length (chunks t.addr t.size))
      × AreOf t new
transfer_tags chunks w t accepted now edge v en =
    let (w', e, _, out) = transfer_outstanding chunks w v t accepted now edge en in
    let k = length w.port.states in
    (
      w',
      packets t k (chunks_of chunks t) 0,
      e,
      out,
      length-packets t k (chunks_of chunks t) 0,
      packets-AreOf t k (chunks_of chunks t) 0,
    )
