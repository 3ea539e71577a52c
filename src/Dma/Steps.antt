-- ===== src/Dma/Steps.antt =====
-- Each step of the DMA port's protocol but the start of a transfer: no assertion fails and the
-- invariant is kept.
use pard_gem.Prelude.{
  ℕ, ◌≡◌, refl, ◌∙◌, inl, inr, Bool, true, false, List, [], ◌∷◌, ◌++◌, Option, none, some, arith,
  ◌==◌, ok, Bool-cases,
}
use pard_gem.Dma.{DmaPacket, Port, Chunk, is_scheduled, process_send_event, recv_timing_resp, drain}
use pard_gem.Dma.Owed.{remove_at, remove_at-append, AreMarked-get_elem?}
use pard_gem.Dma.Response.{handle_resp-Core}
use pard_gem.Dma.World.{
  World, Action, send_event, retry, response, device_event, drain_request, launch, unschedule,
  timing_peer, IsSending, Inv, Enabled, run,
}
use pard_gem.Dma.Send.{
  sent_on, Nonempty, try_send_timing_req-sent_on, sent_on-Inv, send_dma_ready, recv_retry_ready,
  resend-Core,
}

module _ (chunks : ℕ → ℕ → List Chunk) where
  -- A step runs to its end and keeps the invariant.
  abbrev pub Kept : World → Action → Type 0
  Kept w a = (w' : World) × (run chunks w a ≡ ok w') × Inv w'

-- The event or a retry is due only if there is something to send.
event-Nonempty :
    (ps : List DmaPacket) (waits : Bool) (at : Option ℕ) (t : ℕ)
    → IsSending ps waits at
    → at ≡ some t
    → Nonempty ps × (waits ≡ false)
event-Nonempty [] waits at t s e = cc
event-Nonempty (q ∷ ps) waits at t (inl (w, n)) e = cc
event-Nonempty (q ∷ ps) waits at t (inr (w, n)) e = (tt, w)

retry-Nonempty :
    (ps : List DmaPacket) (waits : Bool) (at : Option ℕ)
    → IsSending ps waits at
    → waits ≡ true
    → Nonempty ps × (at ≡ none)
retry-Nonempty [] waits at s e = cc
retry-Nonempty (q ∷ ps) waits at (inl (w, n)) e = (tt, n)
retry-Nonempty (q ∷ ps) waits at (inr (w, n)) e = cc

module _ (chunks : ℕ → ℕ → List Chunk) (w : World) (v : Inv w) where
  pub send_event_step :
      (accepted : Bool) (t edge : ℕ)
      → w.port.send_at ≡ some t
      → Kept chunks w (send_event accepted t edge)
  unfolding run process_send_event
  send_event_step accepted t edge e =
      let p : Port = record w.port { send_at = none } in
      let (h, ready) =
        event-Nonempty w.port.transmit_list w.port.in_retry w.port.send_at t v.sending e in
      let sends =
        send_dma_ready p (timing_peer accepted) t edge v.in_timing h (rw ready refl)
        ∙ try_send_timing_req-sent_on p w.port.transmit_list accepted edge refl h refl in
      (
        record {
          port = sent_on p w.port.transmit_list accepted edge;
          in_flight = launch accepted w.port.transmit_list w.in_flight;
        },
        rw sends refl,
        sent_on-Inv p w.in_flight w.port.transmit_list accepted edge
            (resend-Core w.port _ w.port.in_retry w.port.transmit_list none v.core) v.in_timing h,
      )

  pub retry_step :
      (accepted : Bool) (edge : ℕ) → w.port.in_retry ≡ true → Kept chunks w (retry accepted edge)
  unfolding run
  retry_step accepted edge e =
      let (h, quiet) =
        retry-Nonempty w.port.transmit_list w.port.in_retry w.port.send_at v.sending e in
      let sends =
        recv_retry_ready w.port accepted edge h
        ∙ try_send_timing_req-sent_on w.port w.port.transmit_list accepted edge refl h quiet in
      (
        record {
          port = sent_on w.port w.port.transmit_list accepted edge;
          in_flight = launch accepted w.port.transmit_list w.in_flight;
        },
        rw sends refl,
        sent_on-Inv w.port w.in_flight w.port.transmit_list accepted edge v.core v.in_timing h,
      )

  pub response_step :
      (i : ℕ) (pkt : DmaPacket) (now : ℕ)
      → Enabled chunks w (response i pkt now)
      → Kept chunks w (response i pkt now)
  unfolding run recv_timing_resp
  response_step i pkt now (sent, found, answer, calm) =
      let (found', left) = remove_at-append w.in_flight w.port.transmit_list i found in
      let (k, s, st, l, pos) =
        AreMarked-get_elem? w.port.states (w.in_flight ++ w.port.transmit_list) i v.core.marked
          found' in
      let (p', e, v', (m, ts, r, at), _) =
        handle_resp-Core w.port (w.in_flight ++ w.port.transmit_list) i k s sent pkt 0 now v.core
          found' st l answer in
      (
        record { port = p'; in_flight = remove_at w.in_flight i },
        rw (calm, e) refl,
        record {
          core = rw (ts, ← left) v';
          in_timing = m ∙ v.in_timing;
          sending = rw (ts, r, at) v.sending;
        },
      )

  managed : (o : Option ℕ) → Inv (record w { port = record w.port { drain_manager = o } })
  managed o = record {
    core = record {
      counted = v.core.counted;
      small = v.core.small;
      balanced = v.core.balanced;
      unfinished = v.core.unfinished;
      bounded = v.core.bounded;
      marked = v.core.marked;
      idle = v.core.idle;
      distinct = v.core.distinct;
    };
    in_timing = v.in_timing;
    sending = v.sending;
  }

  pub drain_step : (dm : ℕ) → Kept chunks w (drain_request dm)
  unfolding run drain
  drain_step dm = (
    record w { port = (drain w.port dm).1 },
    refl,
    elim (Bool-cases (w.port.pending_count == 0)) [
      | inl e ↦ rw e v
      | inr e ↦ rw e (managed (some dm))
    ],
  )

  unscheduled :
      (queue : List (ℕ × ℕ)) (x e : ℕ)
      → is_scheduled queue e ≡ false
      → is_scheduled (unschedule queue x) e ≡ false
  unscheduled [] x e f = f
  unscheduled ((y, at) ∷ queue) x e f = ground (arith, unscheduled queue x e)

  pub device_event_step : (e : ℕ) → Kept chunks w (device_event e)
  unfolding run
  device_event_step x = (
    record w { port = record w.port { scheduled = unschedule w.port.scheduled x } },
    refl,
    record {
      core = record {
        counted = v.core.counted;
        small = v.core.small;
        balanced = v.core.balanced;
        unfinished = v.core.unfinished;
        bounded = v.core.bounded;
        marked = v.core.marked;
        idle = λ k e s l c. unscheduled w.port.scheduled x e (v.core.idle k e s l c);
        distinct = v.core.distinct;
      };
      in_timing = v.in_timing;
      sending = v.sending;
    },
  )
