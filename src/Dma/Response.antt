-- ===== src/Dma/Response.antt =====
-- handleResp on the response to any packet that is outstanding.
use pard_gem.Prelude.{
  ℕ, ◌+◌, ◌<◌, ◌≡◌, refl, ◌≢◌, ◌⊎◌, inl, inr, true, false, List, Option, none, some, arith, ok, set,
  get_elem?, ℕ_discrete, get_elem?-set_self, ◌∙◌, ap,
}
use pard_gem.Dma.{ReqState, DmaPacket, Port, is_scheduled, signal_drain, handle_resp}
use pard_gem.Dma.Heap.{Live, Live-lt, Live-set}
use pard_gem.Dma.Owed.{
  owed, remove_at, owed-remove_at, length-remove_at, AreMarked-remove_at, AreMarked-delete,
  AreMarked-replace,
}
use pard_gem.Dma.Inv.{
  Core, fire, partial, completed, due, handle_resp-partial, handle_resp-completed,
}

-- `pkt` answers the request packet `sent`: a response brings its sender state back.
abbrev pub IsAnswer : DmaPacket → DmaPacket → Type 0
IsAnswer pkt sent = (pkt.is_response ≡ true) × (pkt.state ≡ sent.state) × (pkt.size ≡ sent.size)

-- What a port does not change when it handles a response.
abbrev pub SameSending : Port → Port → Type 0
SameSending p p' =
    (p'.mode ≡ p.mode)
    × (p'.transmit_list ≡ p.transmit_list)
    × (p'.in_retry ≡ p.in_retry)
    × (p'.send_at ≡ p.send_at)

signal_drain-Core :
    (p : Port) (ps : List DmaPacket)
    → Core p ps
    → Core (signal_drain p) ps
      × SameSending p (signal_drain p)
      × ((signal_drain p).states ≡ p.states)
      × ((signal_drain p).scheduled ≡ p.scheduled)
unfolding signal_drain
signal_drain-Core p ps v = ground arith

is_scheduled-fire :
    (o : Option ℕ) (at e : ℕ) (queue : List (ℕ × ℕ))
    → o ≢ some e
    → is_scheduled queue e ≡ false
    → is_scheduled (fire o at queue) e ≡ false
is_scheduled-fire none at e queue h f = f
is_scheduled-fire (some x) at e queue h f = ground (arith, λ (q : x ≡ e). h (ap some q))

module _ (p : Port) (ps : List DmaPacket) (i k : ℕ) (s : ReqState) (sent : DmaPacket)
    (v : Core p ps) (found : get_elem? ps i ≡ some sent) (st : sent.state ≡ some k)
    (l : Live p.states k s) where
  -- The bytes of the packet are among those that its request waits for.
  pub share :
      (s.num_bytes + sent.size + owed k (remove_at ps i) ≡ s.tot_bytes) × (0 < p.pending_count)
  share =
      ground (
        arith,
        v.balanced k s l,
        owed-remove_at k ps i found,
        length-remove_at ps i found,
        v.counted,
      )

  -- Other requests have no share in it.
  others : (j : ℕ) → j ≢ k → owed j (remove_at ps i) ≡ owed j ps
  others j h = ground (arith, owed-remove_at j ps i found)

  partial-Core :
      0 < owed k (remove_at ps i) → Core (partial p k s (s.num_bytes + sent.size)) (remove_at ps i)
  partial-Core left = record {
    counted = ground (arith, v.counted, length-remove_at ps i found);
    small = ground (arith, v.small);
    balanced = λ j u e. elim (after j u e) [
      | inl (p₁, q) ↦ ground (arith, share)
      | inr (n, o) ↦ rw (others j n) (v.balanced j u o)
    ];
    unfinished = λ j u e. elim (after j u e) [
      | inl (p₁, q) ↦ ground (arith, share)
      | inr (n, o) ↦ v.unfinished j u o
    ];
    bounded = λ j u e. elim (after j u e) [
      | inl (p₁, q) ↦ ground (arith, v.bounded k s l)
      | inr (n, o) ↦ v.bounded j u o
    ];
    marked =
        AreMarked-replace p.states k new (remove_at ps i)
          (get_elem?-set_self p.states k (some new) (Live-lt p.states k s l))
          (AreMarked-remove_at p.states ps i v.marked);
    idle = λ j x u e c. let (u', o, c') = before j u e in v.idle j x u' o (c' ∙ c);
    distinct = λ j j' x u w e e' c c'.
        let (u', o, d) = before j u e in
        let (w', o', d') = before j' w e' in v.distinct j j' x u' w' o o' (d ∙ c) (d' ∙ c');
  }
    where
      new : ReqState
      new = record s { num_bytes = s.num_bytes + sent.size }

      after :
          (j : ℕ) (u : ReqState)
          → Live (set p.states k (some new)) j u
          → ((j ≡ k) × (some new ≡ some u)) ⊎ ((j ≢ k) × Live p.states j u)
      after j u e = Live-set p.states k j (some new) u (Live-lt p.states k s l) e

      before :
          (j : ℕ) (u : ReqState)
          → Live (set p.states k (some new)) j u
          → (u' : ReqState) × Live p.states j u' × (u'.completion_event ≡ u.completion_event)
      before j u e = elim (after j u e) [
        | inl (p₁, q) ↦ (s, rw p₁ l, ground arith)
        | inr (n, o) ↦ (u, o, refl)
      ]

  completed-Core :
      (at : ℕ) → owed k (remove_at ps i) ≡ 0 → Core (completed p k s at) (remove_at ps i)
  completed-Core at none_left = record {
    counted = ground (arith, v.counted, length-remove_at ps i found);
    small = ground (arith, v.small);
    balanced = λ j u e. let (n, o) = after j u e in rw (others j n) (v.balanced j u o);
    unfinished = λ j u e. v.unfinished j u (after j u e).1;
    bounded = λ j u e. v.bounded j u (after j u e).1;
    marked =
        AreMarked-delete p.states k (remove_at ps i) none_left
          (AreMarked-remove_at p.states ps i v.marked);
    idle = λ j x u e c.
        let (n, o) = after j u e in
        is_scheduled-fire s.completion_event at x p.scheduled
          (λ same. n (v.distinct j k x u s o l c same)) (v.idle j x u o c);
    distinct = λ j j' x u w e e'. v.distinct j j' x u w (after j u e).1 (after j' w e').1;
  }
    where
      after : (j : ℕ) (u : ReqState) → Live (set p.states k none) j u → (j ≢ k) × Live p.states j u
      after j u e = elim (Live-set p.states k j none u (Live-lt p.states k s l) e) [
        | inl (p₁, q) ↦ cc
        | inr found_before ↦ found_before
      ]

-- What a response does to its request `k`, whose other packets are `rest`: while one of these is
-- outstanding the request lives on and counts the bytes; else it is deleted and its event is due.
abbrev pub Progress : Port → Port → ℕ → ReqState → ℕ → List DmaPacket → ℕ → Type 0
Progress p p' k s n rest at =
    ((0 < owed k rest)
      × Live p'.states k (record s { num_bytes = n })
      × (p'.scheduled ≡ p.scheduled))
    ⊎ ((owed k rest ≡ 0)
        × (get_elem? p'.states k ≡ some none)
        × (p'.scheduled ≡ fire s.completion_event at p.scheduled))

-- Of a port that keeps its invariant, the response to any outstanding packet is handled without a
-- failing assertion, and the invariant holds of the packets that remain.
pub handle_resp-Core :
    (p : Port) (ps : List DmaPacket) (i k : ℕ) (s : ReqState) (sent pkt : DmaPacket) (delay now : ℕ)
    → Core p ps
    → get_elem? ps i ≡ some sent
    → sent.state ≡ some k
    → Live p.states k s
    → IsAnswer pkt sent
    → (p' : Port) × (handle_resp p pkt delay now ≡ ok p')
      × Core p' (remove_at ps i)
      × SameSending p p'
      × Progress p p' k s (s.num_bytes + sent.size) (remove_at ps i) (due s delay now)
handle_resp-Core p ps i k s sent pkt delay now v found st l (r, same_state, same_size) =
    let share' = share p ps i k s sent v found st l in
    let lt = Live-lt p.states k s l in
    elim (ℕ_discrete (owed k (remove_at ps i)) 0) [
      | yes z ↦
          (let done = completed p k s (due s delay now) in
            let (v', same, hs, hq) =
              signal_drain-Core done (remove_at ps i)
                (completed-Core p ps i k s sent v found st l (due s delay now) z) in
            (
              signal_drain done,
              handle_resp-completed p pkt delay now k s r (same_state ∙ st) l share'.1
                  (ground (arith, share')) (v.bounded k s l) (λ e. v.idle k e s l),
              v',
              same,
              inr (z, rw hs (get_elem?-set_self p.states k none lt), hq),
            ))
      | no n ↦
          (let new : ReqState = record s { num_bytes = s.num_bytes + sent.size } in
            let more = partial p k s (s.num_bytes + sent.size) in
            let (v', same, hs, hq) =
              signal_drain-Core more (remove_at ps i)
                (partial-Core p ps i k s sent v found st l (omega arith)) in
            (
              signal_drain more,
              rw (← same_size) (
                  handle_resp-partial p pkt delay now k s r (same_state ∙ st) l share'.1
                    (ground (arith, share')) (v.bounded k s l)),
              v',
              same,
              inl (omega arith, rw hs (get_elem?-set_self p.states k (some new) lt), hq),
            ))
    ]
