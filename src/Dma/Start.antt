-- ===== src/Dma/Start.antt =====
-- The start of a transfer on a DMA port in timing mode.
use pard_gem.Prelude.{
  ℕ, ◌<◌, ◌≡◌, refl, ap, sym, ◌∙◌, ◌⊎◌, inl, inr, Bool, true, false, ◌||◌, List, [], ◌∷◌, ◌++◌,
  Option, none, some, arith, ok, length, append_assoc,
}
use pard_gem.Dma.{DmaPacket, Port, Chunk, Transfer, is_waiting, dma_action, send_dma, allocate}
use pard_gem.Dma.Owed.{packets, total}
use pard_gem.Dma.Inv.{Core}
use pard_gem.Dma.Queue.{queue_chunks-packets, queued, queued-Core}
use pard_gem.Dma.World.{
  World, transfer, launch, timing_peer, IsSending, Inv, chunks_of, Enabled, run,
}
use pard_gem.Dma.Send.{
  sent_on, sent_on_outstanding, Nonempty, try_send_timing_req-sent_on, sent_on-Inv,
  send_dma_waiting, send_dma_ready,
}
use pard_gem.Dma.Steps.{Kept}

-- Nothing waits and nothing is to be sent, or both.
waiting_cases :
    (ps : List DmaPacket) (waits : Bool) (at : Option ℕ)
    → IsSending ps waits at
    → ((ps ≡ []) × (waits ≡ false) × (at ≡ none))
      ⊎ (Nonempty ps × ((waits || elim at [ none ↦ false | some _ ↦ true ]) ≡ true))
waiting_cases [] waits at (w, n) = inl (refl, w, n)
waiting_cases (q ∷ ps) waits at (inl (w, n)) = inr (tt, rw w refl)
waiting_cases (q ∷ ps) waits at (inr (w, (t, n))) = inr (tt, rw (w, n) refl)

IsSending-append :
    (ps qs : List DmaPacket) (waits : Bool) (at : Option ℕ)
    → Nonempty ps
    → IsSending ps waits at
    → IsSending (ps ++ qs) waits at × Nonempty (ps ++ qs)
IsSending-append [] qs waits at h s = absurd h
IsSending-append (q ∷ ps) qs waits at h s = (s, tt)

pub packets-Nonempty :
    (t : Transfer) (k : ℕ) (cs : List Chunk)
    → total cs ≡ t.size
    → 0 < t.size
    → Nonempty (packets t k cs 0)
packets-Nonempty t k [] e h = absurd (omega arith)
packets-Nonempty t k (c ∷ cs) e h = tt

module _ (chunks : ℕ → ℕ → List Chunk) (w : World) (v : Inv w) (t : Transfer) (accepted : Bool)
    (now edge : ℕ) (en : Enabled chunks w (transfer t accepted now edge)) where
  abbrev news : List DmaPacket
  news = packets t (length w.port.states) (chunks_of chunks t) 0

  abbrev after_queue : Port
  after_queue =
      queued w.port (w.in_flight ++ w.port.transmit_list) t (chunks_of chunks t) v.core en.0 en.1
        (omega (arith, en.2)) en.3 en.4

  queued-flight : Core after_queue (w.in_flight ++ after_queue.transmit_list)
  unfolding allocate
  queued-flight = rw (← append_assoc) (
      queued-Core w.port (w.in_flight ++ w.port.transmit_list) t (chunks_of chunks t) v.core en.0
        en.1 (omega (arith, en.2)) en.3 en.4)

  dma_action-queued :
      dma_action chunks w.port t (timing_peer accepted) now edge
      ≡ send_dma after_queue (timing_peer accepted) now edge
  unfolding dma_action allocate
  dma_action-queued =
      ap (λ p. send_dma p (timing_peer accepted) now edge)
        (queue_chunks-packets (allocate w.port t) t (length w.port.states) (chunks_of chunks t) 0
          en.3)

  -- The step, with the packets that are outstanding after it.
  pub transfer_outstanding :
      (w' : World) × (run chunks w (transfer t accepted now edge) ≡ ok w')
      × Inv w'
      × (w'.in_flight ++ w'.port.transmit_list ≡ (w.in_flight ++ w.port.transmit_list) ++ news)
  unfolding run allocate
  transfer_outstanding =
      elim (waiting_cases w.port.transmit_list w.port.in_retry w.port.send_at v.sending) [
        | inl (z, r, at) ↦
            (let all : List DmaPacket = w.port.transmit_list ++ news in
              let h : Nonempty all =
                rw z (packets-Nonempty t (length w.port.states) (chunks_of chunks t) en.0.1 en.1) in
              let ready : is_waiting w.port ≡ false = rw (r, at) refl in
              let sends =
                dma_action-queued
                ∙ send_dma_ready after_queue (timing_peer accepted) now edge v.in_timing h ready
                ∙ try_send_timing_req-sent_on after_queue all accepted edge refl h at in
              (
                record {
                  port = sent_on after_queue all accepted edge;
                  in_flight = launch accepted all w.in_flight;
                },
                rw (sends, ready) refl,
                sent_on-Inv after_queue w.in_flight all accepted edge queued-flight v.in_timing h,
                sent_on_outstanding after_queue w.in_flight all accepted edge h
                    ∙ sym (append_assoc w.in_flight w.port.transmit_list news),
              ))
        | inr (h, busy) ↦
            (let (s, h') =
                IsSending-append w.port.transmit_list news w.port.in_retry w.port.send_at h
                  v.sending in
              (
                record { port = after_queue; in_flight = w.in_flight },
                rw
                    (
                      dma_action-queued,
                      send_dma_waiting after_queue (timing_peer accepted) now edge v.in_timing h'
                          busy,
                      busy,
                    )
                    refl,
                record { core = queued-flight; in_timing = v.in_timing; sending = s },
                sym (append_assoc w.in_flight w.port.transmit_list news),
              ))
      ]

  pub transfer_step : Kept chunks w (transfer t accepted now edge)
  transfer_step = let (w', e, v', _) = transfer_outstanding in (w', e, v')
