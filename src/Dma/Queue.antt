-- ===== src/Dma/Queue.antt =====
-- The packets that dmaAction queues.
use pard_gem.Prelude.{
  ℕ, ◌+◌, ◌^◌, ◌<◌, ◌≡◌, refl, ap, sym, ◌∙◌, inl, inr, false, List, [], ◌∷◌, ◌++◌, Option, some,
  arith, length, length-append, append_assoc, append-nil,
}
use pard_gem.Dma.{
  ReqState, DmaPacket, Port, Chunk, Transfer, is_scheduled, lacks_ds_id, new_state, allocate,
  queue_chunks, queue_dma, new_packet,
}
use pard_gem.Dma.Heap.{Live, Live-new, Live-append, Live-lt}
use pard_gem.Dma.Owed.{
  owed, owed-append, owed-packets, owed-packets_ne, owed_unborn, packets, total, ArePositive,
  length-packets, AreMarked-append, AreMarked-old, AreMarked-packets,
}
use pard_gem.Dma.Inv.{Core}

abbrev pub with_packets : Port → List DmaPacket → Port
with_packets p ps = record p {
  transmit_list = p.transmit_list ++ ps;
  pending_count = p.pending_count + length ps;
}

pub queue_chunks-packets :
    (p : Port) (t : Transfer) (k : ℕ) (cs : List Chunk) (c : ℕ)
    → p.pending_count + length cs < 2 ^ 32
    → queue_chunks p t k cs c ≡ with_packets p (packets t k cs c)
unfolding queue_chunks queue_dma
queue_chunks-packets p t k [] c h = ground (arith, append-nil p.transmit_list)
queue_chunks-packets p t k (x ∷ cs) c h =
    let q = new_packet t k x c in
    queue_chunks-packets (queue_dma p q) t k cs (c + x.size) (omega arith)
    ∙ ground (arith, append_assoc p.transmit_list (q ∷ []) (packets t k cs (c + x.size)))

-- No DSid is rejected: a uint16_t is never equal to -1.
pub lacks_ds_id_never : (ds_id : ℕ) → lacks_ds_id ds_id ≡ false
unfolding lacks_ds_id
lacks_ds_id_never ds_id = refl

-- An event that is neither in the event queue nor the completion event of a request.
abbrev pub IsFreeEvent : Port → Option ℕ → Type 0
IsFreeEvent p o =
    (e : ℕ)
    → o ≡ some e
    → (is_scheduled p.scheduled e ≡ false)
      × ((k : ℕ) (s : ReqState) → Live p.states k s → ¬ (s.completion_event ≡ some e))

-- The laws of the chunks that a transfer is split into: no chunk is empty, and together they are the
-- whole of it.
abbrev pub Splits : Transfer → List Chunk → Type 0
Splits t cs = ArePositive cs × (total cs ≡ t.size)

module _ (p : Port) (ps : List DmaPacket) (t : Transfer) (cs : List Chunk) (v : Core p ps)
    (sp : Splits t cs) (some_bytes : 0 < t.size) (fits : t.size < 2 ^ 64)
    (room : p.pending_count + length cs < 2 ^ 32) (free : IsFreeEvent p t.event) where
  -- The port after the loop over the chunks.
  abbrev pub queued : Port
  queued = with_packets (allocate p t) (packets t (length p.states) cs 0)

  abbrev news : List DmaPacket
  news = packets t (length p.states) cs 0

  queue_old : (j : ℕ) (u : ReqState) → Live p.states j u → owed j (ps ++ news) ≡ owed j ps
  queue_old j u l =
      let lt = Live-lt p.states j u l in
      ground (
        arith,
        owed-append j ps news,
        owed-packets_ne t (length p.states) j cs 0 (λ (e : j ≡ length p.states). omega arith),
      )

  queue_new : owed (length p.states) (ps ++ news) ≡ t.size
  queue_new = ground (
    arith,
    owed-append (length p.states) ps news,
    owed-packets t (length p.states) cs 0,
    owed_unborn p.states (length p.states) ps (omega arith) v.marked,
  )

  pub queued-Core : Core queued (ps ++ news)
  unfolding allocate
  queued-Core = record {
    counted =
        ground (arith, v.counted, length-append ps news, length-packets t (length p.states) cs 0);
    small = ground (arith, room, length-packets t (length p.states) cs 0);
    balanced = λ j u e. elim (Live-append p.states (new_state t) j u e) [
      | inl (q, same) ↦ rw (q, same) (omega (arith, queue_new))
      | inr (q, l) ↦ rw (queue_old j u l) (v.balanced j u l)
    ];
    unfinished = λ j u e. elim (Live-append p.states (new_state t) j u e) [
      | inl (q, same) ↦ rw same some_bytes
      | inr (q, l) ↦ v.unfinished j u l
    ];
    bounded = λ j u e. elim (Live-append p.states (new_state t) j u e) [
      | inl (q, same) ↦ rw same fits
      | inr (q, l) ↦ v.bounded j u l
    ];
    marked =
        AreMarked-append (queued.states) ps news (AreMarked-old p.states (new_state t) ps v.marked)
          (AreMarked-packets queued.states t (length p.states) (new_state t) cs 0
            (Live-new p.states (new_state t)) sp.0);
    idle = λ j x u e c. elim (Live-append p.states (new_state t) j u e) [
      | inl (q, same) ↦ (free x (ap (λ (s : ReqState). s.completion_event) (sym same) ∙ c)).0
      | inr (q, l) ↦ v.idle j x u l c
    ];
    distinct = λ j j' x u w e e' c c'. elim (Live-append p.states (new_state t) j u e) [
      | inl (q, same) ↦ elim (Live-append p.states (new_state t) j' w e') [
        | inl (q', same') ↦ q ∙ sym q'
        | inr (q', l') ↦
            absurd
              ((free x (ap (λ (s : ReqState). s.completion_event) (sym same) ∙ c)).1 j' w l' c')
      ]
      | inr (q, l) ↦ elim (Live-append p.states (new_state t) j' w e') [
        | inl (q', same') ↦
            absurd ((free x (ap (λ (s : ReqState). s.completion_event) (sym same') ∙ c')).1 j u l c)
        | inr (q', l') ↦ v.distinct j j' x u w l l' c c'
      ]
    ];
  }
