-- ===== src/Dma/Inv.antt =====
-- What the port keeps to itself while packets are outstanding: the count of them, the bytes that each
-- request still waits for, and that a completion event is not used twice.
use pard_gem.Prelude.{
  ℕ, ◌+◌, ◌-◌, ◌%◌, ◌^◌, ◌≤◌, ◌<◌, ◌≡◌, refl, true, false, List, ◌∷◌, Option, none, some, arith, ok,
  ◌>>=◌, length, set, Option-cases, inl, inr,
}
use pard_gem.Dma.{
  ReqState, DmaPacket, Port, is_scheduled, signal_completion, acknowledge, signal_drain, find_state,
  handle_resp,
}
use pard_gem.Dma.Heap.{Live}
use pard_gem.Dma.Owed.{owed, AreMarked}

-- `ps` are the outstanding packets: the ones sent without a response yet, then those in the list.
pub record Core (p : Port) (ps : List DmaPacket) : Type 0 where
  pub counted : p.pending_count ≡ length ps
  pub small : p.pending_count < 2 ^ 32
  pub balanced : (k : ℕ) (s : ReqState) → Live p.states k s → s.num_bytes + owed k ps ≡ s.tot_bytes
  pub unfinished : (k : ℕ) (s : ReqState) → Live p.states k s → s.num_bytes < s.tot_bytes
  pub bounded : (k : ℕ) (s : ReqState) → Live p.states k s → s.tot_bytes < 2 ^ 64
  pub marked : AreMarked p.states ps
  pub idle :
      (k e : ℕ) (s : ReqState)
      → Live p.states k s
      → s.completion_event ≡ some e
      → is_scheduled p.scheduled e ≡ false
  pub distinct :
      (k j e : ℕ) (s u : ReqState)
      → Live p.states k s
      → Live p.states j u
      → s.completion_event ≡ some e
      → u.completion_event ≡ some e
      → k ≡ j

abbrev pub fire : Option ℕ → ℕ → List (ℕ × ℕ) → List (ℕ × ℕ)
fire none at queue = queue
fire (some e) at queue = (e, at) ∷ queue

-- The port after a response that does not, or does, complete its request.
abbrev pub partial : Port → ℕ → ReqState → ℕ → Port
partial p k s n = record p {
  pending_count = p.pending_count - 1;
  states = set p.states k (some (record s { num_bytes = n }));
}

abbrev pub completed : Port → ℕ → ReqState → ℕ → Port
completed p k s at = record p {
  pending_count = p.pending_count - 1;
  states = set p.states k none;
  scheduled = fire s.completion_event at p.scheduled;
}

-- The time at which the completion event of `s` is due.
abbrev pub due : ReqState → ℕ → ℕ → ℕ
due s delay now = (now + (delay + s.delay) % 2 ^ 64) % 2 ^ 64

signal_completion-fire :
    (p : Port) (s : ReqState) (at : ℕ)
    → ((e : ℕ) → s.completion_event ≡ some e → is_scheduled p.scheduled e ≡ false)
    → signal_completion p s at
      ≡ ok (record p { scheduled = fire s.completion_event at p.scheduled })
unfolding signal_completion
signal_completion-fire p s at free = elim (Option-cases s.completion_event) [
  | inl e ↦ rw e refl
  | inr (x, e) ↦ rw (e, free x e) refl
]

module _ (p : Port) (pkt : DmaPacket) (delay now k : ℕ) (s : ReqState) where
  handle_resp-acknowledge :
      pkt.is_response ≡ true
      → pkt.state ≡ some k
      → Live p.states k s
      → 0 < p.pending_count
      → s.num_bytes + pkt.size ≤ s.tot_bytes
      → s.tot_bytes < 2 ^ 64
      → handle_resp p pkt delay now ≡ (
          acknowledge
            (record p { pending_count = p.pending_count - 1 })
            k
            s
            (s.num_bytes + pkt.size)
            delay
            now
          >>= λ p'. ok (signal_drain p'))
  unfolding handle_resp find_state
  handle_resp-acknowledge r st l h le small = ground arith

  pub handle_resp-partial :
      pkt.is_response ≡ true
      → pkt.state ≡ some k
      → Live p.states k s
      → 0 < p.pending_count
      → s.num_bytes + pkt.size < s.tot_bytes
      → s.tot_bytes < 2 ^ 64
      → handle_resp p pkt delay now ≡ ok (signal_drain (partial p k s (s.num_bytes + pkt.size)))
  unfolding acknowledge
  handle_resp-partial r st l h lt small =
      ground (arith, handle_resp-acknowledge r st l h (omega arith) small)

  pub handle_resp-completed :
      pkt.is_response ≡ true
      → pkt.state ≡ some k
      → Live p.states k s
      → 0 < p.pending_count
      → s.num_bytes + pkt.size ≡ s.tot_bytes
      → s.tot_bytes < 2 ^ 64
      → ((e : ℕ) → s.completion_event ≡ some e → is_scheduled p.scheduled e ≡ false)
      → handle_resp p pkt delay now ≡ ok (signal_drain (completed p k s (due s delay now)))
  unfolding acknowledge
  handle_resp-completed r st l h eq small free =
      let fired =
        signal_completion-fire
          (record p { pending_count = p.pending_count - 1; states = set p.states k none }) s
          (due s delay now) free in
      ground (arith, handle_resp-acknowledge r st l h (omega arith) small, fired)
