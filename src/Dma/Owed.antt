-- ===== src/Dma/Owed.antt =====
-- The bytes that a list of packets still owes to each request.
use pard_gem.Prelude.{
  ℕ, zero, suc, ◌+◌, ◌≤◌, ◌<◌, ◌≡◌, refl, ◌≢◌, List, [], ◌∷◌, ◌++◌, Option, none, some, arith, ◌==◌,
  if◌then◌else◌, length, get_elem?, set, ℕ_discrete,
}
use pard_gem.Dma.{ReqState, DmaPacket, Chunk, Transfer, new_packet}
use pard_gem.Dma.Heap.{Live, Live-lt, Live-set_ne, Live-old}

abbrev pub owed_by : ℕ → DmaPacket → ℕ
owed_by k pkt = elim pkt.state [ none ↦ 0 | some j ↦ (if j == k then pkt.size else 0) ]

abbrev pub owed : ℕ → List DmaPacket → ℕ
owed k [] = 0
owed k (pkt ∷ rest) = owed_by k pkt + owed k rest

abbrev pub remove_at : List DmaPacket → ℕ → List DmaPacket
remove_at [] i = []
remove_at (p ∷ ps) zero = ps
remove_at (p ∷ ps) (suc i) = p ∷ remove_at ps i

-- A packet of some bytes that belongs to a live request.
abbrev pub IsMarked : List (Option ReqState) → DmaPacket → Type 0
IsMarked heap pkt = (k : ℕ) × (s : ReqState) × (pkt.state ≡ some k) × Live heap k s × (0 < pkt.size)

abbrev pub AreMarked : List (Option ReqState) → List DmaPacket → Type 0
AreMarked heap [] = Unit {0}
AreMarked heap (pkt ∷ rest) = IsMarked heap pkt × AreMarked heap rest

pub owed-append : (k : ℕ) (ps qs : List DmaPacket) → owed k (ps ++ qs) ≡ owed k ps + owed k qs
owed-append k [] qs = omega arith
owed-append k (p ∷ ps) qs = omega (arith, owed-append k ps qs)

pub owed-remove_at :
    (k : ℕ) (ps : List DmaPacket) (i : ℕ) {pkt : DmaPacket}
    → get_elem? ps i ≡ some pkt
    → owed_by k pkt + owed k (remove_at ps i) ≡ owed k ps
owed-remove_at k [] i e = cc
owed-remove_at k (p ∷ ps) zero {pkt = pkt} e = let same : p ≡ pkt = cc in rw same refl
owed-remove_at k (p ∷ ps) (suc i) e = omega (arith, owed-remove_at k ps i e)

pub length-remove_at :
    (ps : List DmaPacket) (i : ℕ) {pkt : DmaPacket}
    → get_elem? ps i ≡ some pkt
    → suc (length (remove_at ps i)) ≡ length ps
length-remove_at [] i e = cc
length-remove_at (p ∷ ps) zero e = refl
length-remove_at (p ∷ ps) (suc i) e = omega (arith, length-remove_at ps i e)

pub remove_at-append :
    (ps qs : List DmaPacket) (i : ℕ) {pkt : DmaPacket}
    → get_elem? ps i ≡ some pkt
    → (get_elem? (ps ++ qs) i ≡ some pkt) × (remove_at (ps ++ qs) i ≡ remove_at ps i ++ qs)
remove_at-append [] qs i e = cc
remove_at-append (p ∷ ps) qs zero e = (e, refl)
remove_at-append (p ∷ ps) qs (suc i) e =
    let (found, left) = remove_at-append ps qs i e in (found, rw left refl)

pub AreMarked-append :
    (heap : List (Option ReqState)) (ps qs : List DmaPacket)
    → AreMarked heap ps
    → AreMarked heap qs
    → AreMarked heap (ps ++ qs)
AreMarked-append heap [] qs m n = n
AreMarked-append heap (p ∷ ps) qs (m, ms) n = (m, AreMarked-append heap ps qs ms n)

pub AreMarked-remove_at :
    (heap : List (Option ReqState)) (ps : List DmaPacket) (i : ℕ)
    → AreMarked heap ps
    → AreMarked heap (remove_at ps i)
AreMarked-remove_at heap [] i m = tt
AreMarked-remove_at heap (p ∷ ps) zero (m, ms) = ms
AreMarked-remove_at heap (p ∷ ps) (suc i) (m, ms) = (m, AreMarked-remove_at heap ps i ms)

pub AreMarked-get_elem? :
    (heap : List (Option ReqState)) (ps : List DmaPacket) (i : ℕ) {pkt : DmaPacket}
    → AreMarked heap ps
    → get_elem? ps i ≡ some pkt
    → IsMarked heap pkt
AreMarked-get_elem? heap [] i m e = cc
AreMarked-get_elem? heap (p ∷ ps) zero {pkt = pkt} (m, ms) e =
    let same : p ≡ pkt = cc in rw (← same) m
AreMarked-get_elem? heap (p ∷ ps) (suc i) (m, ms) e = AreMarked-get_elem? heap ps i ms e

pub AreMarked-old :
    (heap : List (Option ReqState)) (s : ReqState) (ps : List DmaPacket)
    → AreMarked heap ps
    → AreMarked (heap ++ some s ∷ []) ps
AreMarked-old heap s [] m = tt
AreMarked-old heap s (p ∷ ps) ((k, u, e, l, h), ms) =
    ((k, u, e, Live-old heap s k u l, h), AreMarked-old heap s ps ms)

-- Deleting a request to which nothing is owed leaves every packet marked.
pub AreMarked-delete :
    (heap : List (Option ReqState)) (k : ℕ) (ps : List DmaPacket)
    → owed k ps ≡ 0
    → AreMarked heap ps
    → AreMarked (set heap k none) ps
AreMarked-delete heap k [] z m = tt
AreMarked-delete heap k (p ∷ ps) z ((j, u, e, l, h), ms) =
    let other : j ≢ k = λ same. ground arith in
    ((j, u, e, Live-set_ne heap k j none u other l, h), AreMarked-delete heap k ps (omega arith) ms)

-- Replacing a live state by another leaves every packet marked.
pub AreMarked-replace :
    (heap : List (Option ReqState)) (k : ℕ) (s : ReqState) (ps : List DmaPacket)
    → Live (set heap k (some s)) k s
    → AreMarked heap ps
    → AreMarked (set heap k (some s)) ps
AreMarked-replace heap k s [] l m = tt
AreMarked-replace heap k s (p ∷ ps) l ((j, u, e, lj, h), ms) =
    let rest = AreMarked-replace heap k s ps l ms in
    elim (ℕ_discrete j k) [
      | yes same ↦ ((j, s, e, rw same l, h), rest)
      | no other ↦ ((j, u, e, Live-set_ne heap k j (some s) u other lj, h), rest)
    ]

-- The packets of one action.
abbrev pub packets : Transfer → ℕ → List Chunk → ℕ → List DmaPacket
packets t k [] complete = []
packets t k (c ∷ rest) complete = new_packet t k c complete ∷ packets t k rest (complete + c.size)

abbrev pub total : List Chunk → ℕ
total [] = 0
total (c ∷ rest) = c.size + total rest

abbrev pub ArePositive : List Chunk → Type 0
ArePositive [] = Unit {0}
ArePositive (c ∷ rest) = (0 < c.size) × ArePositive rest

pub owed-packets :
    (t : Transfer) (k : ℕ) (cs : List Chunk) (c : ℕ) → owed k (packets t k cs c) ≡ total cs
owed-packets t k [] c = refl
owed-packets t k (x ∷ cs) c = ground (arith, owed-packets t k cs (c + x.size))

pub owed-packets_ne :
    (t : Transfer) (k j : ℕ) (cs : List Chunk) (c : ℕ) → j ≢ k → owed j (packets t k cs c) ≡ 0
owed-packets_ne t k j [] c h = refl
owed-packets_ne t k j (x ∷ cs) c h = ground (arith, owed-packets_ne t k j cs (c + x.size) h)

pub length-packets :
    (t : Transfer) (k : ℕ) (cs : List Chunk) (c : ℕ) → length (packets t k cs c) ≡ length cs
length-packets t k [] c = refl
length-packets t k (x ∷ cs) c = omega (arith, length-packets t k cs (c + x.size))

pub AreMarked-packets :
    (heap : List (Option ReqState)) (t : Transfer) (k : ℕ) (s : ReqState) (cs : List Chunk) (c : ℕ)
    → Live heap k s
    → ArePositive cs
    → AreMarked heap (packets t k cs c)
AreMarked-packets heap t k s [] c l m = tt
AreMarked-packets heap t k s (x ∷ cs) c l (h, ms) =
    ((k, s, refl, l, h), AreMarked-packets heap t k s cs (c + x.size) l ms)

-- Packets that belong to a live request owe nothing to a place that no state has yet.
pub owed_unborn :
    (heap : List (Option ReqState)) (k : ℕ) (ps : List DmaPacket)
    → length heap ≤ k
    → AreMarked heap ps
    → owed k ps ≡ 0
owed_unborn heap k [] h m = refl
owed_unborn heap k (p ∷ ps) h ((j, u, e, l, pos), ms) =
    ground (arith, owed_unborn heap k ps h ms, Live-lt heap j u l)
