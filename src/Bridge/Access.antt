-- ===== src/Bridge/Access.antt =====
-- The atomic and functional accesses of mem/tag_bridge.cc, which ext/xbridge.cc repeats. The packet
-- and its `checkFunctional` and `makeResponse` are gem5's: `check` gives its answer and the packet,
-- which a waiting write may have filled in part.
use pard_gem.Prelude.{
  ℕ, ◌+◌, ◌*◌, ◌≡◌, refl, Bool, true, false, List, [], ◌∷◌, ◌++◌, Option, none, some, arith,
  if◌then◌else◌,
}

-- `delay * bridge.clockPeriod() + masterPort.sendAtomic(pkt)`, in ticks below 2 ^ 64.
pub recv_atomic : {P : Type 0} → ℕ → ℕ → (P → ℕ × P) → P → ℕ × P
recv_atomic delay period send_atomic pkt =
    let (tick, back) = send_atomic pkt in (delay * period + tick, back)

module _ (P : Type 0) (check : P → P → Bool × P) (make_response : P → P) where
  -- The search through a transmit list: whether a packet answered, and the access.
  check_functional : List P → P → Bool × P
  check_functional [] pkt = (false, pkt)
  check_functional (waiting ∷ rest) pkt = elim (check pkt waiting).0 [
    | true ↦ (true, make_response (check pkt waiting).1)
    | false ↦ check_functional rest (check pkt waiting).1
  ]

  -- The slave port's recvFunctional, over the packets of the two queues.
  pub recv_functional : List P → List P → (P → P) → P → P
  unfolding check_functional
  recv_functional responses requests send_functional pkt =
      let (found, got) = check_functional responses pkt in
      if found
      then got
      else let (found', got') = check_functional requests got in
        if found' then got' else send_functional got'

  -- The access after a list of packets none of which answers it.
  abbrev pub passed : List P → P → Option P
  passed [] pkt = some pkt
  passed (waiting ∷ rest) pkt = elim (check pkt waiting).0 [
    | true ↦ none
    | false ↦ passed rest (check pkt waiting).1
  ]

  finish : Bool × P → (P → P) → P
  finish (true, got) send = got
  finish (false, got) send = send got

  search_both :
      (xs ys : List P) (send : P → P) (pkt : P)
      → recv_functional xs ys send pkt ≡ finish (check_functional (xs ++ ys) pkt) send
  unfolding check_functional recv_functional finish
  search_both [] ys send pkt = ground arith
  search_both (x ∷ xs) ys send pkt = ground (arith, search_both xs ys send (check pkt x).1)

  search_passed :
      (xs : List P) (pkt : P) {p : P}
      → passed xs pkt ≡ some p
      → check_functional xs pkt ≡ (false, p)
  unfolding check_functional
  search_passed [] pkt e = ground arith
  search_passed (x ∷ xs) pkt {p} e = ground (arith, search_passed xs (check pkt x).1 {p = p})

  search_found :
      (before : List P) (w : P) (after : List P) (pkt : P) {p got : P}
      → passed before pkt ≡ some p
      → check p w ≡ (true, got)
      → check_functional (before ++ w ∷ after) pkt ≡ (true, make_response got)
  unfolding check_functional
  search_found [] w after pkt e f = ground arith
  search_found (x ∷ xs) w after pkt {p} {got} e f =
      ground (arith, search_found xs w after (check pkt x).1 {p = p} {got = got})

  -- A functional access that no packet waiting in the bridge answers is forwarded to the peer, as
  -- the searches left it.
  pub recv_functional-passed :
      (responses requests : List P) (send : P → P) (pkt : P) {p : P}
      → passed (responses ++ requests) pkt ≡ some p
      → recv_functional responses requests send pkt ≡ send p
  unfolding finish
  recv_functional-passed responses requests send pkt e =
      rw (search_both responses requests send pkt, search_passed (responses ++ requests) pkt e) refl

  -- The first waiting packet that answers a functional access, responses before requests, makes it a
  -- response, and the access is not forwarded.
  pub recv_functional-answered :
      (responses requests : List P) (send : P → P) (pkt : P) (before : List P) (w : P)
      (after : List P) {p got : P}
      → responses ++ requests ≡ before ++ w ∷ after
      → passed before pkt ≡ some p
      → check p w ≡ (true, got)
      → recv_functional responses requests send pkt ≡ make_response got
  unfolding finish
  recv_functional-answered responses requests send pkt before w after split e answers =
      rw (search_both responses requests send pkt, split, search_found before w after pkt e answers)
        refl
