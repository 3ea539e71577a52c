-- ===== src/Dma/Safety.antt =====
-- No assertion of a DMA port fails among peers that keep to the protocol.
use pard_gem.Prelude.{
  ℕ, ◌+◌, ◌≡◌, refl, false, not, ◌&&◌, List, [], ◌∷◌, ◌++◌, some, arith, ok, ◌>>=◌, get_elem?,
}
use pard_gem.Dma.{ReqState, DmaPacket, Port, Chunk, init, timing, recv_timing_resp}
use pard_gem.Dma.Heap.{Live}
use pard_gem.Dma.Owed.{remove_at, remove_at-append, AreMarked-get_elem?}
use pard_gem.Dma.Inv.{due}
use pard_gem.Dma.Response.{IsAnswer, Progress, handle_resp-Core}
use pard_gem.Dma.World.{
  World, Action, transfer, send_event, retry, response, device_event, drain_request, Inv, Enabled,
  run, run_all,
}
use pard_gem.Dma.Steps.{
  Kept, send_event_step, retry_step, response_step, drain_step, device_event_step,
}
use pard_gem.Dma.Start.{transfer_step}

module _ (chunks : ℕ → ℕ → List Chunk) where
  -- One step of the protocol: no assertion fails, and the invariant holds again.
  pub run-Inv : (w : World) (a : Action) → Inv w → Enabled chunks w a → Kept chunks w a
  run-Inv w (transfer t accepted now edge) v e = transfer_step chunks w v t accepted now edge e
  run-Inv w (send_event accepted t edge) v e = send_event_step chunks w v accepted t edge e
  run-Inv w (retry accepted edge) v e = retry_step chunks w v accepted edge e
  run-Inv w (response i pkt now) v e = response_step chunks w v i pkt now e
  run-Inv w (device_event x) v e = device_event_step chunks w v x
  run-Inv w (drain_request dm) v e = drain_step chunks w v dm

  -- Each action of a history is enabled when its turn comes.
  abbrev pub Follows : World → List Action → Type 0
  Follows w [] = Unit {0}
  Follows w (a ∷ rest) =
      Enabled chunks w a × ((w' : World) → run chunks w a ≡ ok w' → Follows w' rest)

  run_all-Inv :
      (w : World) (acts : List Action)
      → Inv w
      → Follows w acts
      → (w' : World) × (run_all chunks w acts ≡ ok w') × Inv w'
  unfolding run_all
  run_all-Inv w [] v f = (w, refl, v)
  run_all-Inv w (a ∷ rest) v f =
      let (w₁, e, v₁) = run-Inv w a v f.0 in
      let (w₂, e₂, v₂) = run_all-Inv w₁ rest v₁ (f.1 w₁ e) in (w₂, rw (e, ◌>>=◌) e₂, v₂)

-- A new port in timing mode.
unfoldable pub start : World
unfolding init
start = record { port = init timing; in_flight = [] }

pub start-Inv : Inv start
unfolding start
start-Inv = record {
  core = record {
    counted = refl;
    small = omega arith;
    balanced = λ k s e. cc;
    unfinished = λ k s e. cc;
    bounded = λ k s e. cc;
    marked = tt;
    idle = λ k x s e c. cc;
    distinct = λ k j x s u e e' c c'. cc;
  };
  in_timing = refl;
  sending = (refl, refl);
}

-- A DMA port in timing mode, from its construction through any history that follows the protocol,
-- for any way of splitting transfers whose chunks are positive and cover each transfer: the history
-- runs to its end and the invariant holds there. So `pendingCount` is the number of packets queued or
-- in flight, each live request waits for exactly the bytes of its packets among these, a deleted
-- request state is never read, no completion event is used twice, and a transmit list that is not
-- empty always has a send event or a retry to come.
pub dma_run_safe :
    (chunks : ℕ → ℕ → List Chunk) (acts : List Action)
    → Follows chunks start acts
    → (w : World) × (run_all chunks start acts ≡ ok w) × Inv w
dma_run_safe chunks acts f = run_all-Inv chunks start acts start-Inv f

-- The response to a packet in flight, in any state that satisfies the invariant: it is taken, and
-- its request `k` either has packets outstanding still, then counts the bytes and no event is
-- scheduled; or this was the last one, then the request state is deleted and its completion event,
-- where it has one, is scheduled after the request's delay.
pub recv_timing_resp_progress :
    (w : World) (i : ℕ) (sent pkt : DmaPacket) (now : ℕ)
    → Inv w
    → get_elem? w.in_flight i ≡ some sent
    → IsAnswer pkt sent
    → (pkt.mem_inhibit && not pkt.shared) ≡ false
    → (k : ℕ) × (s : ReqState) × (p : Port) × (sent.state ≡ some k)
      × Live w.port.states k s
      × (recv_timing_resp w.port pkt now ≡ ok p)
      × Progress w.port p k s
          (s.num_bytes + sent.size)
          (remove_at w.in_flight i ++ w.port.transmit_list)
          (due s 0 now)
unfolding recv_timing_resp
recv_timing_resp_progress w i sent pkt now v found answer calm =
    let (found', left) = remove_at-append w.in_flight w.port.transmit_list i found in
    let (k, s, st, l, pos) =
      AreMarked-get_elem? w.port.states (w.in_flight ++ w.port.transmit_list) i v.core.marked
        found' in
    let (p, e, _, _, progress) =
      handle_resp-Core w.port (w.in_flight ++ w.port.transmit_list) i k s sent pkt 0 now v.core
        found' st l answer in
    (k, s, p, st, l, rw (calm, e) refl, rw (← left) progress)
