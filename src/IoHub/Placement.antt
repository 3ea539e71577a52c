-- ===== src/IoHub/Placement.antt =====
-- Windows that do not meet: the BARs of one device in the loop of `startup` of dev/pard/iohub.cc, and
-- a device that gets new windows above all others.
use pard_gem.Prelude.{
  ℕ, zero, suc, ◌+◌, ◌-◌, ◌*◌, ◌/◌, ◌%◌, ◌^◌, ◌≤◌, ◌<◌, ◌≡◌, ◌≢◌, ◌⊎◌, inl, inr, refl, ap, sym, ◌∙◌,
  List, [], ◌∷◌, some, arith, ◌==◌, if◌then◌else◌, get_elem?, set, length, ℕ_discrete, Bool-cases,
}
use pard_gem.IoHub.Bars.{Bar, HubDevice, Bases, new_bar, next_bases, probe_bars}

abbrev pub base_for : Bases → ℕ → ℕ
base_for bases type = if type == 1 then bases.io else bases.mem

abbrev pub start_of : Bar → ℕ
start_of b = b.uniq / 2 * 2

-- Two windows of one kind do not meet.
abbrev pub Apart : Bar → Bar → Type 0
Apart b c =
    (b.uniq % 2 ≢ c.uniq % 2)
    ⊎ ((start_of b + b.size ≤ start_of c) ⊎ (start_of c + c.size ≤ start_of b))

-- Between the bases before and the bases after.
abbrev pub Between : Bases → Bases → Bar → Type 0
Between lo hi b =
    (base_for lo (b.uniq % 2) ≤ start_of b) × (start_of b + b.size ≤ base_for hi (b.uniq % 2))

-- Both bases are even and leave room for `budget` more bytes.
abbrev pub HasRoom : Bases → ℕ → Type 0
HasRoom bases budget =
    (bases.io % 2 ≡ 0)
    × (bases.mem % 2 ≡ 0)
    × (bases.io + budget < 2 ^ 32)
    × (bases.mem + budget < 2 ^ 32)

abbrev pub LeBases : Bases → Bases → Type 0
LeBases lo hi = (lo.io ≤ hi.io) × (lo.mem ≤ hi.mem)

abbrev pub size_of : ℕ → ℕ
size_of value = (2 ^ 32 - value / 2 * 2) % 2 ^ 32

new_bar-Between :
    (value : ℕ) (bases : Bases) (bound budget : ℕ)
    → size_of value ≤ bound
    → HasRoom bases (bound + budget)
    → Between bases (next_bases value bases) (new_bar value bases)
      × LeBases bases (next_bases value bases)
      × HasRoom (next_bases value bases) budget
unfolding new_bar next_bases
new_bar-Between value bases bound budget small room = elim (Bool-cases (value % 2 == 1)) [
  | inl odd ↦ ground arith
  | inr even ↦ ground arith
]

abbrev pub times : ℕ → ℕ → ℕ
times zero bound = 0
times (suc n) bound = bound + times n bound

base_for_le : (lo hi : Bases) (type : ℕ) → LeBases lo hi → base_for lo type ≤ base_for hi type
base_for_le lo hi type (io, mem) = ground arith

Between-wider :
    (a lo hi z : Bases) (b : Bar) → LeBases a lo → LeBases hi z → Between lo hi b → Between a z b
Between-wider a lo hi z b le le' (l, h) =
    omega (arith, base_for_le a lo (b.uniq % 2) le, base_for_le hi z (b.uniq % 2) le')

Apart-below : (lo mid hi : Bases) (b c : Bar) → Between lo mid b → Between mid hi c → Apart b c
Apart-below lo mid hi b c (l, h) (l', h') = elim (ℕ_discrete (b.uniq % 2) (c.uniq % 2)) [
  | no other ↦ inl other
  | yes same ↦
      (let l'' : base_for mid (b.uniq % 2) ≤ start_of c = rw same l' in inr (inl (omega arith)))
]

Apart-sym : (b c : Bar) → Apart b c → Apart c b
Apart-sym b c (inl h) = inl (λ e. h (sym e))
Apart-sym b c (inr (inl h)) = inr (inr h)
Apart-sym b c (inr (inr h)) = inr (inl h)

abbrev pub AllBetween : Bases → Bases → List Bar → Type 0
AllBetween lo hi bars = (k : ℕ) (b : Bar) → get_elem? bars k ≡ some b → Between lo hi b

abbrev pub AllApart : List Bar → Type 0
AllApart bars =
    (k l : ℕ) (b c : Bar)
    → get_elem? bars k ≡ some b
    → get_elem? bars l ≡ some c
    → k ≢ l
    → Apart b c

-- What is proved of a list of new windows.
abbrev pub AreNew : Bases → Bases → ℕ → List Bar → Type 0
AreNew lo hi budget bars = LeBases lo hi × HasRoom hi budget × AllBetween lo hi bars × AllApart bars

pub cons-AreNew :
    (lo mid hi : Bases) (budget : ℕ) (b : Bar) (bars : List Bar)
    → Between lo mid b
    → LeBases lo mid
    → AreNew mid hi budget bars
    → AreNew lo hi budget (b ∷ bars)
cons-AreNew lo mid hi budget b bars here le (le', room, all, apart) =
    ((omega arith, omega arith), room, between, pairs)
  where
    some_injective : {x y : Bar} → some x ≡ some y → x ≡ y
    some_injective e = cc

    between : AllBetween lo hi (b ∷ bars)
    between zero x e =
        rw (← some_injective e) (Between-wider lo lo mid hi b (omega arith, omega arith) le' here)
    between (suc k) x e = Between-wider lo mid hi hi x le (omega arith, omega arith) (all k x e)

    pairs : AllApart (b ∷ bars)
    pairs zero zero x y e f ne = absurd (ne refl)
    pairs zero (suc l) x y e f ne =
        rw (← some_injective e) (Apart-below lo mid hi b y here (all l y f))
    pairs (suc k) zero x y e f ne =
        rw (← some_injective f) (Apart-sym b x (Apart-below lo mid hi b x here (all k x e)))
    pairs (suc k) (suc l) x y e f ne = apart k l x y e f (λ q. ne (ap suc q))

module _ (sized : ℕ → ℕ) (bound : ℕ) (small : (addr : ℕ) → size_of (sized addr) ≤ bound) where
  pub probe_bars-AreNew :
      (config n i : ℕ) (bases : Bases) (budget : ℕ)
      → HasRoom bases (times n bound + budget)
      → AreNew bases
          (probe_bars sized config n i bases).1
          budget
          (probe_bars sized config n i bases).0
  unfolding probe_bars
  probe_bars-AreNew config zero i bases budget room =
      ((omega arith, omega arith), omega arith, λ k b e. cc, λ k l b c e f ne. cc)
  probe_bars-AreNew config (suc n) i bases budget room =
      let value = sized (config + 0x10 + i * 4) in
      let (here, le, room') =
        new_bar-Between value bases bound (times n bound + budget) (small (config + 0x10 + i * 4))
          (omega arith) in
      cons-AreNew bases (next_bases value bases)
        (probe_bars sized config n (suc i) (next_bases value bases)).1 budget (new_bar value bases)
        (probe_bars sized config n (suc i) (next_bases value bases)).0 here le
        (probe_bars-AreNew config n (suc i) (next_bases value bases) budget room')

-- The window of BAR `k` of device `i`.
abbrev pub BarAt : List HubDevice → ℕ → ℕ → Bar → Type 0
BarAt devices i k b =
    (d : HubDevice) × (get_elem? devices i ≡ some d) × (get_elem? d.bars k ≡ some b)

-- All windows lie below the bases, and no two of them meet.
pub record Placed (lo hi : Bases) (devices : List HubDevice) : Type 0 where
  pub placed_between : (i k : ℕ) (b : Bar) → BarAt devices i k b → Between lo hi b
  pub placed_apart :
      (i k j l : ℕ) (b c : Bar)
      → BarAt devices i k b
      → BarAt devices j l c
      → (i ≢ j) ⊎ (k ≢ l)
      → Apart b c

pub lt_of_some :
    (xs : List HubDevice) (i : ℕ) {a : HubDevice} → get_elem? xs i ≡ some a → i < length xs
lt_of_some [] i e = cc
lt_of_some (x ∷ xs) zero e = omega arith
lt_of_some (x ∷ xs) (suc i) e = omega (arith, lt_of_some xs i e)

get_elem?-set_cases :
    (xs : List HubDevice) (i j : ℕ) (v : HubDevice) {d : HubDevice}
    → get_elem? (set xs i v) j ≡ some d
    → ((j ≡ i) × (v ≡ d)) ⊎ ((j ≢ i) × (get_elem? xs j ≡ some d))
get_elem?-set_cases [] i j v e = cc
get_elem?-set_cases (x ∷ xs) zero zero v e = inl (refl, cc)
get_elem?-set_cases (x ∷ xs) zero (suc j) v e = inr (λ q. omega arith, e)
get_elem?-set_cases (x ∷ xs) (suc i) zero v e = inr (λ q. omega arith, e)
get_elem?-set_cases (x ∷ xs) (suc i) (suc j) v e = elim (get_elem?-set_cases xs i j v e) [
  | inl (q, same) ↦ inl (ap suc q, same)
  | inr (ne, f) ↦ inr (λ q. ne (omega arith), f)
]

-- Giving one device new windows above all others.
pub place :
    (lo mid hi : Bases) (budget i : ℕ) (devices : List HubDevice) (d : HubDevice)
    → Placed lo mid devices
    → LeBases lo mid
    → AreNew mid hi budget d.bars
    → Placed lo hi (set devices i d)
place lo mid hi budget i devices d v le (le', room, all, apart) = record {
  placed_between = λ j k b here. elim (bar j k b here) [
    | inl (q, e) ↦ Between-wider lo mid hi hi b le (omega arith, omega arith) (all k b e)
    | inr (ne, old) ↦
        Between-wider lo lo mid hi b (omega arith, omega arith) le' (v.placed_between j k b old)
  ];
  placed_apart = λ j k j' l b c here there ne. elim (bar j k b here) [
    | inl (q, e) ↦ elim (bar j' l c there) [
      | inl (q', e') ↦ apart k l b c e e' (elim ne [ inl n ↦ absurd (n (q ∙ sym q')) | inr n ↦ n ])
      | inr (n', old') ↦
          Apart-sym c b (Apart-below lo mid hi c b (v.placed_between j' l c old') (all k b e))
    ]
    | inr (n, old) ↦ elim (bar j' l c there) [
      | inl (q', e') ↦ Apart-below lo mid hi b c (v.placed_between j k b old) (all l c e')
      | inr (n', old') ↦ v.placed_apart j k j' l b c old old' ne
    ]
  ];
}
  where
    bar :
        (j k : ℕ) (b : Bar)
        → BarAt (set devices i d) j k b
        → ((j ≡ i) × (get_elem? d.bars k ≡ some b)) ⊎ ((j ≢ i) × BarAt devices j k b)
    bar j k b (x, at, e) = elim (get_elem?-set_cases devices i j d at) [
      | inl (q, same) ↦ inl (q, rw same e)
      | inr (ne, old) ↦ inr (ne, (x, old, e))
    ]
