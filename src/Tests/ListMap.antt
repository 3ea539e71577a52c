-- ===== src/Tests/ListMap.antt =====
-- A range map made of a list, which keeps the laws of RangeMap.
use pard_gem.Prelude.{
  ℕ, ◌+◌, ◌≤◌, ◌<◌, ◌≡◌, ◌≢◌, refl, subst, Bool, true, false, ◌&&◌, ◌||◌, List, [], ◌∷◌, Option,
  none, some, arith, ltb, leb, if◌then◌else◌, inl, inr, Bool-cases, max, min,
}
use pard_gem.RangeMap.{Range, Within, RangeMap, IsRangeMap}

abbrev pub Entries : Type 0
Entries = List (Range × ℕ)

abbrev pub within : Range → ℕ → Bool
within r a = leb r.start a && ltb a (r.start + r.size)

abbrev pub search_in : Entries → ℕ → Option ℕ
search_in [] a = none
search_in ((r, v) ∷ rest) a = let later = search_in rest a in if within r a then some v else later

-- Whether two ranges of some addresses share one.
abbrev pub meets : Range → Range → Bool
meets r s = ltb (max r.start s.start) (min (r.start + r.size) (s.start + s.size))

abbrev pub meets_any : Entries → Range → Bool
meets_any [] r = false
meets_any ((s, v) ∷ rest) r = meets s r || meets_any rest r

abbrev pub list_map : RangeMap ℕ
list_map = record {
  Map = Entries;
  empty = [];
  insert = λ m r v. if meets_any m r then none else some ((r, v) ∷ m);
  find = search_in;
}

within_both : (s : Range) (a : ℕ) → within s a ≡ true → (s.start ≤ a) × (a < s.start + s.size)
within_both s a e = ground arith

or_true : (b : Bool) → (b || true) ≡ true
or_true true = refl
or_true false = refl

or_false : {b c : Bool} → b ≡ false → c ≡ false → (b || c) ≡ false
or_false e f = rw (e, f) refl

search_taken :
    (m : Entries) (r : Range) (a : ℕ) → Within r a → search_in m a ≢ none → meets_any m r ≡ true
search_taken [] r a h f = absurd (f refl)
search_taken ((s, v) ∷ rest) r a h f = elim (Bool-cases (within s a)) [
  | inl here ↦ (let (lo, hi) = within_both s a here in ground arith)
  | inr there ↦
      (let rest_meets = search_taken rest r a h (λ e. f (rw there e)) in
        rw rest_meets (or_true (meets s r)))
]

search_free :
    (m : Entries) (r : Range)
    → 0 < r.size
    → ((a : ℕ) → Within r a → search_in m a ≡ none)
    → meets_any m r ≡ false
search_free [] r pos free = refl
search_free ((s, v) ∷ rest) r pos free = or_false apart (search_free rest r pos later)
  where
    first : (a : ℕ) → Within r a → within s a ≡ true → ⊥
    first a h e = some_ne (rw e refl) (free a h)
      where
        some_ne : {o : Option ℕ} → o ≡ some v → o ≡ none → ⊥
        some_ne e f = cc

    apart : meets s r ≡ false
    apart = elim (Bool-cases (meets s r)) [
      | inr no_meet ↦ no_meet
      | inl both ↦ absurd (first (max s.start r.start) (ground arith) (ground arith))
    ]

    later : (a : ℕ) → Within r a → search_in rest a ≡ none
    later a h = elim (Bool-cases (within s a)) [
      | inl e ↦ absurd (first a h e)
      | inr e ↦ subst (λ b. (if b then some v else search_in rest a) ≡ none) e (free a h)
    ]

within-true : (r : Range) (a : ℕ) → Within r a → within r a ≡ true
within-true r a h = ground arith

within-false : (r : Range) (a : ℕ) → ¬ Within r a → within r a ≡ false
within-false r a h = elim (Bool-cases (within r a)) [
  | inl e ↦ absurd (h (within_both r a e))
  | inr e ↦ e
]

inserted_if :
    (b : Bool) {x m' : Entries}
    → ◌≡◌ {A = Option Entries} (if b then none else some x) (some m')
    → m' ≡ x
inserted_if true e = cc
inserted_if false e = cc

inserted_shape :
    (m : Entries) (r : Range) (v : ℕ) (m' : Entries)
    → list_map.insert m r v ≡ some m'
    → m' ≡ (r, v) ∷ m
inserted_shape m r v m' e = inserted_if (meets_any m r) e

pub list_map-IsRangeMap : IsRangeMap list_map
list_map-IsRangeMap = record {
  find_empty = λ a. refl;
  inserts = λ m r v pos free. ((r, v) ∷ m, rw (search_free m r pos free) refl);
  refuses = λ m r v a h taken. rw (search_taken m r a h taken) refl;
  finds = λ m m' r v a e h. rw (inserted_shape m r v m' e, within-true r a h) refl;
  keeps = λ m m' r v a e h. rw (inserted_shape m r v m' e, within-false r a h) refl;
}
