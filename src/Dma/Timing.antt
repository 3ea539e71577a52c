-- ===== src/Dma/Timing.antt =====
-- What was queued is sent: one packet a cycle, in order, while the memory side accepts.
use pard_gem.Prelude.{
  ℕ, ◌+◌, ◌≡◌, refl, ap, sym, subst, ◌∙◌, inl, inr, Bool, true, false, List, [], ◌∷◌, ◌++◌, Option,
  none, some, ok, ◌>>=◌, append_assoc,
}
use pard_gem.Dma.{DmaPacket, Port, Chunk, process_send_event, timing}
use pard_gem.Dma.World.{World, Action, send_event, IsSending, Inv, run, run_all, timing_peer}
use pard_gem.Dma.Safety.{Follows}
use pard_gem.Dma.Send.{sent_on, Nonempty, try_send_timing_req-sent_on, send_dma_ready}

-- A send event each `step` ticks, the first at `at`, as many as packets wait.
abbrev pub service : List DmaPacket → ℕ → ℕ → List Action
service [] at step = []
service (q ∷ ps) at step = send_event true at (at + step) ∷ service ps (at + step) step

-- The port once its list has been sent.
abbrev pub emptied : World → World
emptied w = record {
  port = record w.port { transmit_list = []; in_retry = false; send_at = none };
  in_flight = w.in_flight ++ w.port.transmit_list;
}

ok_injective : {w w' : World} → ok w ≡ ok w' → w ≡ w'
ok_injective e = cc

module _ (chunks : ℕ → ℕ → List Chunk) where
  event_sends :
      (w : World) (q : DmaPacket) (ps : List DmaPacket) (at edge : ℕ)
      → w.port.mode ≡ timing
      → w.port.in_retry ≡ false
      → w.port.transmit_list ≡ q ∷ ps
      → run chunks w (send_event true at edge)
        ≡ ok (record {
          port = sent_on (record w.port { send_at = none }) (q ∷ ps) true edge;
          in_flight = w.in_flight ++ q ∷ [];
        })
  unfolding run process_send_event
  event_sends w q ps at edge m r e =
      let p : Port = record w.port { send_at = none } in
      let sends =
        send_dma_ready p (timing_peer true) at edge m (rw e tt) (rw r refl)
        ∙ try_send_timing_req-sent_on p (q ∷ ps) true edge e tt refl in
      rw (sends, e) refl

  -- The world after the first of two or more packets was sent.
  abbrev moved : World → DmaPacket → DmaPacket → List DmaPacket → ℕ → World
  moved w q x rest edge = record {
    port = record w.port { in_retry = false; transmit_list = x ∷ rest; send_at = some edge };
    in_flight = w.in_flight ++ q ∷ [];
  }

  service_sends :
      (w : World) (ps : List DmaPacket) (at step : ℕ)
      → w.port.mode ≡ timing
      → w.port.in_retry ≡ false
      → w.port.transmit_list ≡ ps
      → Nonempty ps
      → w.port.send_at ≡ some at
      → (run_all chunks w (service ps at step) ≡ ok (emptied w))
        × Follows chunks w (service ps at step)
  unfolding run_all
  service_sends w [] at step m r e h s = absurd h
  service_sends w (q ∷ []) at step m r e h s =
      (rw (event_sends w q [] at (at + step) m r e, e) refl, (s, λ w' e'. tt))
  service_sends w (q ∷ x ∷ rest) at step m r e h s =
      let next = moved w q x rest (at + step) in
      let first = event_sends w q (x ∷ rest) at (at + step) m r e in
      let (runs, follows) = service_sends next (x ∷ rest) (at + step) step m refl refl tt refl in
      (
        rw (first, ◌>>=◌, e)
            (runs
              ∙ ap
                  (λ sent. ok (record {
                    port = record w.port { transmit_list = []; in_retry = false; send_at = none };
                    in_flight = sent;
                  }))
                  (append_assoc w.in_flight (q ∷ []) (x ∷ rest))),
        (
          s,
          λ w' e'.
              let same : next ≡ w' = ok_injective (sym first ∙ e') in
              subst (λ u. Follows chunks u (service (x ∷ rest) (at + step) step)) same follows,
        ),
      )

  Nonempty-due :
      (ps : List DmaPacket) (waits : Bool) (o : Option ℕ) (at : ℕ)
      → IsSending ps waits o
      → o ≡ some at
      → Nonempty ps × (waits ≡ false)
  Nonempty-due [] waits o at (w, n) e = cc
  Nonempty-due (q ∷ ps) waits o at (inl (w, n)) e = cc
  Nonempty-due (q ∷ ps) waits o at (inr (w, n)) e = (tt, w)

  -- Where the send event is due at `at`, in any state that satisfies the invariant, and the memory
  -- side accepts each packet: as many send events as packets wait, one each `step` ticks, are all
  -- due in their turn, run to their end, and send every packet on in the order of the list, after
  -- which no event is scheduled.
  pub service_lem :
      (w : World) (at step : ℕ)
      → Inv w
      → w.port.send_at ≡ some at
      → (run_all chunks w (service w.port.transmit_list at step) ≡ ok (emptied w))
        × Follows chunks w (service w.port.transmit_list at step)
  service_lem w at step v s =
      let (h, r) =
        Nonempty-due w.port.transmit_list w.port.in_retry w.port.send_at at v.sending s in
      service_sends w w.port.transmit_list at step v.in_timing r refl h s
