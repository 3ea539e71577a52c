-- ===== src/SystemXBar/Routing.antt =====
-- Where the crossbar of mem/pard_system_xbar.cc sends an address.
use pard_gem.Prelude.{
  ℕ, ◌+◌, ◌<◌, ◌≡◌, refl, ap, ◌∙◌, Bool, true, false, ◌&&◌, ◌||◌, List, [], ◌∷◌, Option, none, some,
  arith, ltb, leb, if◌then◌else◌, Result, ok, ◌>>=◌, inl, inr, Bool-cases,
}
use pard_gem.RangeMap.{Range, Within, RangeMap, IsRangeMap}
use pard_gem.SystemXBar.{
  XPacket, XBar, Params, no_stats, insert_all, build_map, init, destination, memory_port, io_port,
}

abbrev pub in_range : Range → ℕ → Bool
in_range r a = leb r.start a && ltb a (r.start + r.size)

abbrev pub in_ranges : List Range → ℕ → Bool
in_ranges [] a = false
in_ranges (r ∷ rest) a = in_range r a || in_ranges rest a

-- The port that an address belongs to: memory, I/O, or what the ports of the coherent crossbar say.
abbrev pub route : (ℕ → ℕ) → Params → ℕ → ℕ → ℕ
route find_port p made a =
    if in_ranges p.memory_ranges a
    then made
    else if in_ranges p.io_ranges a
    then made + 1
    else find_port a

-- No range is empty, and no two share an address.
abbrev pub AreDisjoint : List Range → Type 0
AreDisjoint [] = Unit {0}
AreDisjoint (r ∷ rest) =
    (0 < r.size) × ((a : ℕ) → Within r a → in_ranges rest a ≡ false) × AreDisjoint rest

in_range-Within : (r : Range) (a : ℕ) → in_range r a ≡ true → Within r a
in_range-Within r a e = ground arith

Within-in_range : (r : Range) (a : ℕ) → Within r a → in_range r a ≡ true
Within-in_range r a h = ground arith

not_both : {b : Bool} → b ≡ true → b ≡ false → ⊥
not_both e f = cc

contradiction : true ≡ false → ⊥
contradiction e = cc

or_left : (b c : Bool) → b ≡ true → (b || c) ≡ true
or_left b c e = rw e refl

or_right : (b c : Bool) → c ≡ true → (b || c) ≡ true
or_right true c e = refl
or_right false c e = e

module _ (R : RangeMap ℕ) (law : IsRangeMap R) (find_port : ℕ → ℕ)
    (calc_packet_timing : XPacket → Result XPacket) (clock_period : ℕ) where
  -- The map after an insertion, by a test.
  insert-find :
      (m m' : R.Map) (r : Range) (port a : ℕ)
      → R.insert m r port ≡ some m'
      → R.find m' a ≡ (if in_range r a then some port else R.find m a)
  insert-find m m' r port a e = elim (Bool-cases (in_range r a)) [
    | inl here ↦ rw here (law.finds m m' r port a e (in_range-Within r a here))
    | inr there ↦ rw there (law.keeps m m' r port a e (λ h. not_both (Within-in_range r a h) there))
  ]

  insert_all_cons :
      (m m' : R.Map) (r : Range) (rest : List Range) (port : ℕ)
      → R.insert m r port ≡ some m'
      → insert_all R find_port calc_packet_timing clock_period m (r ∷ rest) port
        ≡ insert_all R find_port calc_packet_timing clock_period m' rest port
  unfolding insert_all
  insert_all_cons m m' r rest port e = rw (insert_all, e) refl

  insert_all-find :
      (m : R.Map) (rs : List Range) (port : ℕ)
      → AreDisjoint rs
      → ((a : ℕ) → in_ranges rs a ≡ true → R.find m a ≡ none)
      → (m' : R.Map) × (insert_all R find_port calc_packet_timing clock_period m rs port ≡ ok m')
        × ((a : ℕ) → R.find m' a ≡ (if in_ranges rs a then some port else R.find m a))
  unfolding insert_all
  insert_all-find m [] port d free = (m, refl, λ a. refl)
  insert_all-find m (r ∷ rest) port (pos, apart, d) free =
      let (m₁, e) =
        law.inserts m r port pos
          (λ a h. free a (or_left _ (in_ranges rest a) (Within-in_range r a h))) in
      let (m', e', found) =
        insert_all-find m₁ rest port d
          (λ a h. insert-find m m₁ r port a e ∙ later a h (free a (or_right (in_range r a) _ h))) in
      (
        m',
        insert_all_cons m m₁ r rest port e ∙ e',
        λ a. found a ∙ split a (insert-find m m₁ r port a e),
      )
    where
      later :
          (a : ℕ)
          → in_ranges rest a ≡ true
          → R.find m a ≡ none
          → ◌≡◌ {A = Option ℕ} (if in_range r a then some port else R.find m a) none
      later a h f = elim (Bool-cases (in_range r a)) [
        | inl here ↦ absurd (not_both h (apart a (in_range-Within r a here)))
        | inr there ↦ rw there f
      ]

      split :
          {m₁ : R.Map} (a : ℕ)
          → R.find m₁ a ≡ (if in_range r a then some port else R.find m a)
          → ◌≡◌ {A = Option ℕ}
              (if in_ranges rest a then some port else R.find m₁ a)
              (if in_ranges (r ∷ rest) a then some port else R.find m a)
      split a e = elim (Bool-cases (in_range r a)) [
        | inl here ↦ elim (Bool-cases (in_ranges rest a)) [
          | inl also ↦ rw (also, here) refl
          | inr only_here ↦ rw (only_here, e, here) refl
        ]
        | inr there ↦ rw (e, there) refl
      ]

  build_map_found :
      (p : Params) (made : ℕ)
      → p.has_memory ≡ true
      → p.has_io ≡ true
      → AreDisjoint p.memory_ranges
      → AreDisjoint p.io_ranges
      → ((a : ℕ) → in_ranges p.memory_ranges a ≡ true → in_ranges p.io_ranges a ≡ false)
      → (m : R.Map) × (build_map R find_port calc_packet_timing clock_period p made ≡ ok m)
        × ((a : ℕ)
            → R.find m a ≡ (
                if in_ranges p.io_ranges a
                then some (made + 1)
                else if in_ranges p.memory_ranges a
                then some made
                else none))
  unfolding build_map memory_port io_port
  build_map_found p made has_mem has_io dm di apart =
      let (m₁, e₁, f₁) =
        insert_all-find R.empty p.memory_ranges made dm (λ a h. law.find_empty a) in
      let (m₂, e₂, f₂) = insert_all-find m₁ p.io_ranges (made + 1) di (λ a h. f₁ a ∙ free a h) in
      (
        m₂,
        rw (has_mem, e₁, ◌>>=◌, has_io) e₂,
        λ a.
            f₂ a
            ∙ ap (λ o. if in_ranges p.io_ranges a then some (made + 1) else o)
                (f₁ a
                  ∙ ap (λ o. if in_ranges p.memory_ranges a then some made else o)
                      (law.find_empty a)),
      )
    where
      free :
          (a : ℕ)
          → in_ranges p.io_ranges a ≡ true
          → ◌≡◌ {A = Option ℕ}
              (if in_ranges p.memory_ranges a then some made else R.find R.empty a)
              none
      free a h = elim (Bool-cases (in_ranges p.memory_ranges a)) [
        | inl both ↦ absurd (not_both h (apart a both))
        | inr other ↦ rw other (law.find_empty a)
      ]

  -- A crossbar whose memory and I/O are connected, with ranges that are not empty and share no
  -- address: the constructor succeeds (the master ports that gem5's constructor made come first, then
  -- memory and I/O), and the new crossbar sends every address `a` of a memory range to the memory
  -- port, every address of an I/O range to the I/O port, and any other where gem5's findPort says.
  pub init-routes :
      (p : Params) (made a : ℕ)
      → p.has_memory ≡ true
      → p.has_io ≡ true
      → AreDisjoint p.memory_ranges
      → AreDisjoint p.io_ranges
      → ((b : ℕ) → in_ranges p.memory_ranges b ≡ true → in_ranges p.io_ranges b ≡ false)
      → (x : XBar R) × (init R find_port calc_packet_timing clock_period p made ≡ ok x)
        × (destination R find_port calc_packet_timing clock_period x a ≡ route find_port p made a)
  unfolding init destination
  init-routes p made a has_mem has_io dm di apart =
      let (m, e, found) = build_map_found p made has_mem has_io dm di apart in
      (
        record {
          fixed_port_map = m;
          outstanding_req = [];
          stats = no_stats;
          snoops = 0;
          calls = [];
        },
        rw e refl,
        routed (in_ranges p.memory_ranges a) (in_ranges p.io_ranges a) (found a) (apart a),
      )
    where
      routed :
          (in_mem in_io : Bool) {o : Option ℕ}
          → o ≡ (if in_io then some (made + 1) else if in_mem then some made else none)
          → (in_mem ≡ true → in_io ≡ false)
          → ◌≡◌ {A = ℕ}
              (elim o [ some i ↦ i | none ↦ find_port a ])
              (if in_mem then made else if in_io then made + 1 else find_port a)
      routed true true e h = absurd (contradiction (h refl))
      routed true false e h = rw e refl
      routed false true e h = rw e refl
      routed false false e h = rw e refl
