-- ===== src/Bridge/Queues.antt =====
-- The invariant of a bridge among its peers.
use pard_gem.Prelude.{
  ℕ, zero, suc, ◌+◌, ◌^◌, ◌≤◌, ◌<◌, ◌≡◌, refl, subst, ◌⊎◌, inl, inr, ap, Bool, true, false, List,
  [], ◌∷◌, ◌++◌, Option, none, some, arith, if◌then◌else◌, length, get_elem?, ok,
}
use pard_gem.Mem.Packet.{Packet, SenderState, expects_response}
use pard_gem.Bridge.{Kind, Deferred, own_state}
use pard_gem.Bridge.Protocol.{World, Action, run, remove_at}

-- How many waiting requests expect a response.
abbrev pub count_expecting : List Deferred → ℕ
count_expecting [] = 0
count_expecting (d ∷ ds) = (if expects_response d.pkt then 1 else 0) + count_expecting ds

-- The top sender state is one that the bridge pushed.
abbrev pub IsMarked : Kind → Packet → Type 0
IsMarked kind pkt =
    (s : SenderState) × (rest : List SenderState) × (src : ℕ) × (pkt.sender_state ≡ s ∷ rest)
    × (own_state kind s ≡ some src)

abbrev pub AllMarked : Kind → List Packet → Type 0
AllMarked kind [] = Unit {0}
AllMarked kind (p ∷ ps) = IsMarked kind p × AllMarked kind ps

-- Each waiting request that expects a response carries the bridge's state.
abbrev pub QueueMarked : Kind → List Deferred → Type 0
QueueMarked kind [] = Unit {0}
QueueMarked kind (d ∷ ds) =
    (expects_response d.pkt ≡ true → IsMarked kind d.pkt) × QueueMarked kind ds

-- Who will send the head of a queue: its own event, set to a time at which it may go, or the peer's
-- retry; for an empty queue neither is pending.
abbrev pub IsLive : List Deferred → Option ℕ → Bool → ℕ → Type 0
IsLive [] at blocked now = (at ≡ none) × (blocked ≡ false)
IsLive (d ∷ _) at blocked now =
    ((blocked ≡ true) × (at ≡ none) × (d.tick ≤ now))
    ⊎ ((t : ℕ) × (blocked ≡ false) × (at ≡ some t) × (d.tick ≤ t))

pub record Inv (w : World) : Type 0 where
  pub req_room : length w.bridge.requests ≤ w.bridge.req_queue_limit
  pub resp_room : w.bridge.outstanding ≤ w.bridge.resp_queue_limit
  pub resp_small : w.bridge.resp_queue_limit < 2 ^ 32
  pub positive : (0 < w.bridge.req_queue_limit) × (0 < w.bridge.resp_queue_limit)
  pub counted :
      w.bridge.outstanding
      ≡ count_expecting w.bridge.requests + length w.in_flight + length w.bridge.responses
  pub req_live : IsLive w.bridge.requests w.bridge.send_req_at w.req_blocked w.now
  pub resp_live : IsLive w.bridge.responses w.bridge.send_resp_at w.resp_blocked w.now
  pub queue_marked : QueueMarked w.bridge.kind w.bridge.requests
  pub flight_marked : AllMarked w.bridge.kind w.in_flight
  pub stalled : w.bridge.retry_req ≡ true → 0 < length w.bridge.requests + w.bridge.outstanding

-- The step succeeds, so no assertion of the bridge fails, and keeps the invariant.
abbrev pub Kept : World → Action → Type 0
Kept w a = (w' : World) × (run w a ≡ ok w') × Inv w'

pub count_expecting-append :
    (xs ys : List Deferred) → count_expecting (xs ++ ys) ≡ count_expecting xs + count_expecting ys
count_expecting-append [] ys = omega arith
count_expecting-append (x ∷ xs) ys = omega (arith, count_expecting-append xs ys)

pub QueueMarked-append :
    (kind : Kind) (xs : List Deferred) (d : Deferred)
    → QueueMarked kind xs
    → (expects_response d.pkt ≡ true → IsMarked kind d.pkt)
    → QueueMarked kind (xs ++ d ∷ [])
QueueMarked-append kind [] d h m = (m, tt)
QueueMarked-append kind (x ∷ xs) d h m = (h.0, QueueMarked-append kind xs d h.1 m)

-- Time passes, and a queue that has a sender keeps it.
pub IsLive-later :
    (q : List Deferred) (at : Option ℕ) (blocked : Bool) (now t : ℕ)
    → now ≤ t
    → IsLive q at blocked now
    → IsLive q at blocked t
IsLive-later [] at blocked now t h l = l
IsLive-later (d ∷ ds) at blocked now t h (inl (b, e, p)) = inl (b, e, omega arith)
IsLive-later (d ∷ ds) at blocked now t h (inr l) = inr l

pub length-remove_at :
    (ps : List Packet) (k : ℕ) (p : Packet)
    → get_elem? ps k ≡ some p
    → length ps ≡ suc (length (remove_at ps k))
length-remove_at [] k p e = cc
length-remove_at (q ∷ ps) zero p e = refl
length-remove_at (q ∷ ps) (suc k) p e = ap suc (length-remove_at ps k p e)

pub AllMarked-remove_at :
    (kind : Kind) (ps : List Packet) (k : ℕ) → AllMarked kind ps → AllMarked kind (remove_at ps k)
AllMarked-remove_at kind [] k h = tt
AllMarked-remove_at kind (q ∷ ps) zero h = h.1
AllMarked-remove_at kind (q ∷ ps) (suc k) h = (h.0, AllMarked-remove_at kind ps k h.1)

pub AllMarked-get_elem? :
    (kind : Kind) (ps : List Packet) (k : ℕ) (p : Packet)
    → AllMarked kind ps
    → get_elem? ps k ≡ some p
    → IsMarked kind p
AllMarked-get_elem? kind [] k p h e = cc
AllMarked-get_elem? kind (q ∷ ps) zero p h e =
    let same : q ≡ p = cc in subst (IsMarked kind) same h.0
AllMarked-get_elem? kind (q ∷ ps) (suc k) p h e = AllMarked-get_elem? kind ps k p h.1 e
