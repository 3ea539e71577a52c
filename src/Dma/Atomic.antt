-- ===== src/Dma/Atomic.antt =====
-- dmaAction in atomic mode: the whole transfer is done before it returns.
use pard_gem.Prelude.{
  ℕ, ◌+◌, ◌^◌, ◌<◌, ◌≡◌, refl, ap, ◌∙◌, inl, inr, List, [], ◌∷◌, none, some, arith, ok, ◌>>=◌,
  length, get_elem?,
}
use pard_gem.Dma.{
  ReqState, DmaPacket, Port, Chunk, Transfer, Peer, atomic, new_state, new_packet, make_response,
  handle_resp, allocate, send_all_atomic, send_by_mode, send_dma, dma_action,
}
use pard_gem.Dma.Heap.{Live, Live-new}
use pard_gem.Dma.Owed.{owed-packets, packets, ArePositive}
use pard_gem.Dma.Inv.{Core, fire, due}
use pard_gem.Dma.Queue.{queue_chunks-packets, queued, queued-Core, Splits, IsFreeEvent}
use pard_gem.Dma.Response.{Progress, handle_resp-Core}
use pard_gem.Dma.Start.{packets-Nonempty}
use pard_gem.Dma.Send.{resend-Core, Nonempty, Nonempty-length}

-- The latency of the last packet.
abbrev pub last_latency : (DmaPacket → ℕ) → List DmaPacket → ℕ
last_latency latency [] = 0
last_latency latency (q ∷ []) = latency q
last_latency latency (q ∷ x ∷ rest) = last_latency latency (x ∷ rest)

-- The port when the transfer is done: nothing is left to send or outstanding, the request state is
-- deleted and its event was scheduled.
pub record IsDone (p p' : Port) (k : ℕ) (s : ReqState) (at : ℕ) : Type 0 where
  pub all_sent : p'.transmit_list ≡ []
  pub none_pending : p'.pending_count ≡ 0
  pub freed : get_elem? p'.states k ≡ some none
  pub signalled : p'.scheduled ≡ fire s.completion_event at p.scheduled

send_all_atomic_cons :
    (p p' : Port) (q : DmaPacket) (rest : List DmaPacket) (latency : DmaPacket → ℕ) (now : ℕ)
    → handle_resp (record p { transmit_list = rest }) (make_response q) (latency q) now ≡ ok p'
    → send_all_atomic p (q ∷ rest) latency now ≡ send_all_atomic p' rest latency now
unfolding send_all_atomic handle_resp
send_all_atomic_cons p p' q rest latency now e =
    ap (λ r. r >>= λ p'. send_all_atomic p' rest latency now) e

send_all_atomic_nil :
    (p : Port) (latency : DmaPacket → ℕ) (now : ℕ)
    → send_all_atomic p [] latency now ≡ ok (record p { transmit_list = [] })
unfolding send_all_atomic
send_all_atomic_nil p latency now = refl

module _ (t : Transfer) (k : ℕ) (latency : DmaPacket → ℕ) (now : ℕ) where
  -- The response to the packet `q` at the head.
  handled :
      (p : Port) (q : DmaPacket) (rest : List DmaPacket) (s : ReqState)
      → Core p (q ∷ rest)
      → q.state ≡ some k
      → Live p.states k s
      → (p₁ : Port) × (send_all_atomic p (q ∷ rest) latency now
          ≡ send_all_atomic p₁ rest latency now)
        × Core p₁ rest
        × Progress p p₁ k s (s.num_bytes + q.size) rest (due s (latency q) now)
  handled p q rest s v st l =
      let before : Port = record p { transmit_list = rest } in
      let (p₁, e, v₁, _, progress) =
        handle_resp-Core before (q ∷ rest) 0 k s q (make_response q) (latency q) now
          (resend-Core p (q ∷ rest) p.in_retry rest p.send_at v) refl st l (refl, refl, refl) in
      (p₁, send_all_atomic_cons p p₁ q rest latency now e, v₁, progress)

  send_all_atomic-IsDone :
      (cs : List Chunk) (c : ℕ) (p : Port) (s : ReqState)
      → Core p (packets t k cs c)
      → Nonempty (packets t k cs c)
      → ArePositive cs
      → Live p.states k s
      → (p' : Port) × (send_all_atomic p (packets t k cs c) latency now ≡ ok p')
        × IsDone p p' k s (due s (last_latency latency (packets t k cs c)) now)
  send_all_atomic-IsDone [] c p s v h pos l = absurd h
  send_all_atomic-IsDone (x ∷ []) c p s v h pos l =
      let (p₁, e, v₁, progress) = handled p (new_packet t k x c) [] s v refl l in
      elim progress [
        | inl (more, _, _) ↦ absurd (omega arith)
        | inr (_, freed, queue) ↦ (
          record p₁ { transmit_list = [] },
          e ∙ send_all_atomic_nil p₁ latency now,
          record { all_sent = refl; none_pending = v₁.counted; freed = freed; signalled = queue },
        )
      ]
  send_all_atomic-IsDone (x ∷ y ∷ cs) c p s v h pos l =
      let rest = packets t k (y ∷ cs) (c + x.size) in
      let (p₁, e, v₁, progress) = handled p (new_packet t k x c) rest s v refl l in
      elim progress [
        | inl (more, live, queue) ↦
            (let (p', e', done) =
                send_all_atomic-IsDone (y ∷ cs) (c + x.size) p₁
                  (record s { num_bytes = s.num_bytes + x.size }) v₁ tt pos.1 live in
              (
                p',
                e ∙ e',
                record {
                  all_sent = done.all_sent;
                  none_pending = done.none_pending;
                  freed = done.freed;
                  signalled = rw (← queue) done.signalled;
                },
              ))
        | inr (z, _, _) ↦ absurd (ground (arith, pos, owed-packets t k (y ∷ cs) (c + x.size)))
      ]

-- sendDma in atomic mode, with something to send.
send_dma_atomic :
    (p : Port) (ps : List DmaPacket) (peer : Peer) (now edge : ℕ)
    → p.mode ≡ atomic
    → p.transmit_list ≡ ps
    → Nonempty ps
    → send_dma p peer now edge ≡ send_all_atomic p ps peer.latency now
unfolding send_dma send_by_mode
send_dma_atomic p ps peer now edge m e h = rw (e, Nonempty-length ps h, m) refl

-- A transfer of at least one byte in atomic mode, on a port with nothing outstanding, with an event
-- that is not in use and chunks that are positive and cover the transfer: dmaAction returns, the
-- transmit list is empty, nothing is pending, the request state is deleted, and the completion event
-- was scheduled once, after the latency of the last packet and the transfer's own delay.
pub dma_action_atomic :
    (chunks : ℕ → ℕ → List Chunk) (p : Port) (t : Transfer) (peer : Peer) (now edge : ℕ)
    → Core p []
    → p.mode ≡ atomic
    → p.transmit_list ≡ []
    → Splits t (chunks t.addr t.size)
    → 0 < t.size
    → t.size < 2 ^ 31
    → length (chunks t.addr t.size) < 2 ^ 32
    → IsFreeEvent p t.event
    → (p' : Port) × (dma_action chunks p t peer now edge ≡ ok p')
      × IsDone p p' (length p.states) (new_state t) (
          due
            (new_state t)
            (last_latency peer.latency (packets t (length p.states) (chunks t.addr t.size) 0))
            now)
unfolding dma_action allocate
dma_action_atomic chunks p t peer now edge v m e sp pos small room free =
    let cs = chunks t.addr t.size in
    let k = length p.states in
    let room' : p.pending_count + length cs < 2 ^ 32 = omega (arith, v.counted, room) in
    let fits : t.size < 2 ^ 64 = omega arith in
    let after = queued p [] t cs v sp pos fits room' free in
    let h = packets-Nonempty t k cs sp.1 pos in
    let (p', runs, done) =
      send_all_atomic-IsDone t k peer.latency now cs 0 after (new_state t)
        (queued-Core p [] t cs v sp pos fits room' free) h sp.0 (Live-new p.states (new_state t)) in
    (
      p',
      ap (λ q. send_dma q peer now edge) (queue_chunks-packets (allocate p t) t k cs 0 room')
          ∙ send_dma_atomic after (packets t k cs 0) peer now edge m (rw e refl) h
          ∙ runs,
      record {
        all_sent = done.all_sent;
        none_pending = done.none_pending;
        freed = done.freed;
        signalled = done.signalled;
      },
    )
