-- ===== src/Dma/Send.antt =====
-- Sending the head of the transmit list in timing mode.
use pard_gem.Prelude.{
  ℕ, ◌≡◌, refl, ◌∙◌, inl, inr, Bool, true, false, not, ◌==◌, List, [], ◌∷◌, ◌++◌, Option, none,
  some, arith, ok, length, append_assoc, append-nil,
}
use pard_gem.Dma.{
  DmaPacket, Port, Peer, timing, try_send_timing_req, send_dma, recv_retry, is_waiting,
  schedule_rest, try_send_from, send_by_mode,
}
use pard_gem.Dma.Inv.{Core}
use pard_gem.Dma.World.{Inv, launch, IsSending}

-- The core invariant does not depend on how the packets are sent.
pub resend-Core :
    (p : Port) (ps : List DmaPacket) (waits : Bool) (list : List DmaPacket) (at : Option ℕ)
    → Core p ps
    → Core (record p { in_retry = waits; transmit_list = list; send_at = at }) ps
resend-Core p ps waits list at v = record {
  counted = v.counted;
  small = v.small;
  balanced = v.balanced;
  unfinished = v.unfinished;
  bounded = v.bounded;
  marked = v.marked;
  idle = v.idle;
  distinct = v.distinct;
}

-- The port after the peer's answer, in closed form.
abbrev pub sent_on : Port → List DmaPacket → Bool → ℕ → Port
sent_on p [] accepted edge = p
sent_on p (q ∷ rest) false edge = record p {
  in_retry = true;
  transmit_list = q ∷ rest;
  send_at = none;
}
sent_on p (q ∷ []) true edge = record p { in_retry = false; transmit_list = []; send_at = none }
sent_on p (q ∷ n ∷ rest) true edge = record p {
  in_retry = false;
  transmit_list = n ∷ rest;
  send_at = some edge;
}

abbrev pub Nonempty : List DmaPacket → Type 0
Nonempty [] = ⊥
Nonempty (_ ∷ _) = Unit {0}

pub try_send_timing_req-sent_on :
    (p : Port) (ps : List DmaPacket) (accepted : Bool) (edge : ℕ)
    → p.transmit_list ≡ ps
    → Nonempty ps
    → p.send_at ≡ none
    → try_send_timing_req p accepted edge ≡ ok (sent_on p ps accepted edge)
unfolding try_send_timing_req try_send_from schedule_rest
try_send_timing_req-sent_on p [] accepted edge e h n = absurd h
try_send_timing_req-sent_on p (q ∷ rest) false edge e h n = ground arith
try_send_timing_req-sent_on p (q ∷ []) true edge e h n = ground arith
try_send_timing_req-sent_on p (q ∷ x ∷ rest) true edge e h n = ground arith

pub sent_on-Core :
    (p : Port) (flight ps : List DmaPacket) (accepted : Bool) (edge : ℕ)
    → Core p (flight ++ ps)
    → Nonempty ps
    → Core
        (sent_on p ps accepted edge)
        (launch accepted ps flight ++ (sent_on p ps accepted edge).transmit_list)
sent_on-Core p flight [] accepted edge v h = absurd h
sent_on-Core p flight (q ∷ rest) false edge v h =
    resend-Core p (flight ++ q ∷ rest) true (q ∷ rest) none v
sent_on-Core p flight (q ∷ []) true edge v h =
    rw append-nil (resend-Core p (flight ++ q ∷ []) false [] none v)
sent_on-Core p flight (q ∷ x ∷ rest) true edge v h =
    rw append_assoc (resend-Core p (flight ++ q ∷ x ∷ rest) false (x ∷ rest) (some edge) v)

-- The outstanding packets stay in their order.
pub sent_on_outstanding :
    (p : Port) (flight ps : List DmaPacket) (accepted : Bool) (edge : ℕ)
    → Nonempty ps
    → launch accepted ps flight ++ (sent_on p ps accepted edge).transmit_list ≡ flight ++ ps
sent_on_outstanding p flight [] accepted edge h = absurd h
sent_on_outstanding p flight (q ∷ rest) false edge h = refl
sent_on_outstanding p flight (q ∷ []) true edge h = append-nil (flight ++ q ∷ [])
sent_on_outstanding p flight (q ∷ x ∷ rest) true edge h = append_assoc flight (q ∷ []) (x ∷ rest)

pub sent_on-IsSending :
    (p : Port) (ps : List DmaPacket) (accepted : Bool) (edge : ℕ)
    → Nonempty ps
    → IsSending
        (sent_on p ps accepted edge).transmit_list
        (sent_on p ps accepted edge).in_retry
        (sent_on p ps accepted edge).send_at
      × ((sent_on p ps accepted edge).mode ≡ p.mode)
sent_on-IsSending p [] accepted edge h = absurd h
sent_on-IsSending p (q ∷ rest) false edge h = (inl (refl, refl), refl)
sent_on-IsSending p (q ∷ []) true edge h = ((refl, refl), refl)
sent_on-IsSending p (q ∷ x ∷ rest) true edge h = (inr (refl, (edge, refl)), refl)

-- The invariant after the head was sent or refused.
pub sent_on-Inv :
    (p : Port) (flight ps : List DmaPacket) (accepted : Bool) (edge : ℕ)
    → Core p (flight ++ ps)
    → p.mode ≡ timing
    → Nonempty ps
    → Inv (record { port = sent_on p ps accepted edge; in_flight = launch accepted ps flight })
sent_on-Inv p flight ps accepted edge v m h =
    let (s, same) = sent_on-IsSending p ps accepted edge h in
    record { core = sent_on-Core p flight ps accepted edge v h; in_timing = same ∙ m; sending = s }

pub Nonempty-length : (ps : List DmaPacket) → Nonempty ps → (not (length ps == 0)) ≡ true
Nonempty-length [] h = absurd h
Nonempty-length (q ∷ ps) h = ground arith

module _ (p : Port) (peer : Peer) (now edge : ℕ) (m : p.mode ≡ timing)
    (h : Nonempty p.transmit_list) where
  pub send_dma_waiting : is_waiting p ≡ true → send_dma p peer now edge ≡ ok p
  unfolding send_dma send_by_mode
  send_dma_waiting w = rw (Nonempty-length p.transmit_list h, m, w) refl

  pub send_dma_ready :
      is_waiting p ≡ false → send_dma p peer now edge ≡ try_send_timing_req p peer.accepts edge
  unfolding send_dma send_by_mode
  send_dma_ready w = rw (Nonempty-length p.transmit_list h, m, w) refl

pub recv_retry_ready :
    (p : Port) (accepted : Bool) (edge : ℕ)
    → Nonempty p.transmit_list
    → recv_retry p accepted edge ≡ try_send_timing_req p accepted edge
unfolding recv_retry
recv_retry_ready p accepted edge h = rw (Nonempty-length p.transmit_list h) refl
