-- ===== src/Dma/Heap.antt =====
-- The DmaReqStates that dmaAction allocates and handleResp deletes.
use pard_gem.Prelude.{
  ℕ, zero, suc, ◌<◌, ◌≡◌, refl, ◌∙◌, sym, ◌≢◌, ◌⊎◌, inl, inr, List, [], ◌∷◌, ◌++◌, Option, some,
  arith, length, get_elem?, set, get_elem?-set_self, get_elem?-set_ne, ℕ_discrete,
}
use pard_gem.Dma.{ReqState}

abbrev pub Live : List (Option ReqState) → ℕ → ReqState → Type 0
Live heap k s = get_elem? heap k ≡ some (some s)

pub Live-lt :
    (heap : List (Option ReqState)) (k : ℕ) (s : ReqState) → Live heap k s → k < length heap
Live-lt [] k s e = cc
Live-lt (x ∷ heap) zero s e = omega arith
Live-lt (x ∷ heap) (suc k) s e = omega (arith, Live-lt heap k s e)

-- A place holds at most one state.
pub Live-unique :
    (heap : List (Option ReqState)) (k : ℕ) {s s' : ReqState}
    → Live heap k s
    → Live heap k s'
    → s ≡ s'
Live-unique heap k e e' = cc

-- After a write at `k`, what is live there is what was written, and all else was live before.
pub Live-set :
    (heap : List (Option ReqState)) (k j : ℕ) (v : Option ReqState) (s : ReqState)
    → k < length heap
    → Live (set heap k v) j s
    → ((j ≡ k) × (v ≡ some s)) ⊎ ((j ≢ k) × Live heap j s)
Live-set heap k j v s h e = elim (ℕ_discrete j k) [
  | yes p ↦ (let hit = get_elem?-set_self heap k v h in inl (p, cc))
  | no p ↦ inr (p, sym (get_elem?-set_ne heap k j v (λ q. p (sym q))) ∙ e)
]

pub Live-set_ne :
    (heap : List (Option ReqState)) (k j : ℕ) (v : Option ReqState) (s : ReqState)
    → j ≢ k
    → Live heap j s
    → Live (set heap k v) j s
Live-set_ne heap k j v s p e = get_elem?-set_ne heap k j v (λ q. p (sym q)) ∙ e

-- A new state stands behind all others.
pub Live-new :
    (heap : List (Option ReqState)) (s : ReqState) → Live (heap ++ some s ∷ []) (length heap) s
Live-new [] s = refl
Live-new (x ∷ heap) s = Live-new heap s

pub Live-old :
    (heap : List (Option ReqState)) (s : ReqState) (j : ℕ) (u : ReqState)
    → Live heap j u
    → Live (heap ++ some s ∷ []) j u
Live-old [] s j u e = cc
Live-old (x ∷ heap) s zero u e = e
Live-old (x ∷ heap) s (suc j) u e = Live-old heap s j u e

pub Live-append :
    (heap : List (Option ReqState)) (s : ReqState) (j : ℕ) (u : ReqState)
    → Live (heap ++ some s ∷ []) j u
    → ((j ≡ length heap) × (u ≡ s)) ⊎ ((j < length heap) × Live heap j u)
Live-append [] s zero u e = inl (refl, cc)
Live-append [] s (suc j) u e = cc
Live-append (x ∷ heap) s zero u e = inr (omega arith, e)
Live-append (x ∷ heap) s (suc j) u e = elim (Live-append heap s j u e) [
  | inl (p, q) ↦ inl (omega arith, q)
  | inr (p, q) ↦ inr (omega arith, q)
]
