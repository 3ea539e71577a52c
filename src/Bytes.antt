-- ===== src/Bytes.antt =====
-- Little-endian words in a block of bytes, as x86 lays out the packed structures that the control
-- planes expose (a `uint64_t *` into a table, `memcpy` into a register block).
use native.Mathlib.Nat.{pow-suc}
use pard_gem.Prelude.{
  ℕ, zero, suc, ◌+◌, ◌*◌, ◌/◌, ◌%◌, ◌^◌, ◌≤◌, ◌<◌, ◌≡◌, refl, ap, ◌⊎◌, inl, inr, List, [], ◌∷◌,
  arith, length, leb, if◌then◌else◌, Result, ok, fault, out_of_bounds, replicate, ◌∙◌,
}

abbrev pub Block : Type 0
Block = List ℕ

-- The number in the first `w` bytes.
pub word : ℕ → Block → ℕ
word zero bs = 0
word (suc w) [] = 0
word (suc w) (b ∷ bs) = b + 256 * word w bs

pub put : ℕ → Block → ℕ → Block
put zero bs v = bs
put (suc w) [] v = []
put (suc w) (b ∷ bs) v = v % 256 ∷ put w bs (v / 256)

unfoldable pub word_at : ℕ → Block → ℕ → ℕ
unfolding word
word_at w bs zero = word w bs
word_at w [] (suc i) = 0
word_at w (b ∷ bs) (suc i) = word_at w bs i

unfoldable pub put_at : ℕ → Block → ℕ → ℕ → Block
unfolding put
put_at w bs zero v = put w bs v
put_at w [] (suc i) v = []
put_at w (b ∷ bs) (suc i) v = b ∷ put_at w bs i v

-- `*(uintN_t *)(block + i)`, where an access that leaves the block is a fault.
unfoldable pub load : ℕ → Block → ℕ → Result ℕ
unfolding word word_at
load w bs i = if leb (i + w) (length bs) then ok (word_at w bs i) else fault out_of_bounds

unfoldable pub store : ℕ → Block → ℕ → ℕ → Result Block
unfolding put put_at
store w bs i v = if leb (i + w) (length bs) then ok (put_at w bs i v) else fault out_of_bounds

length-put : (w : ℕ) (bs : Block) (v : ℕ) → length (put w bs v) ≡ length bs
unfolding put
length-put zero bs v = refl
length-put (suc w) [] v = refl
length-put (suc w) (b ∷ bs) v = ap suc (length-put w bs (v / 256))

pub length-put_at : (w : ℕ) (bs : Block) (i v : ℕ) → length (put_at w bs i v) ≡ length bs
unfolding put_at
length-put_at w bs zero v = length-put w bs v
length-put_at w [] (suc i) v = refl
length-put_at w (b ∷ bs) (suc i) v = ap suc (length-put_at w bs i v)

word-put : (w : ℕ) (bs : Block) (v : ℕ) → w ≤ length bs → v < 256 ^ w → word w (put w bs v) ≡ v
unfolding word put
word-put zero bs v h lt = omega arith
word-put (suc w) [] v h lt = absurd (omega arith)
word-put (suc w) (b ∷ bs) v h lt =
    omega (arith, word-put w bs (v / 256) (omega arith) (omega (arith, pow-suc 256 w)))

-- A word that is written is read back.
pub word_at-put_at_self :
    (w : ℕ) (bs : Block) (i v : ℕ)
    → i + w ≤ length bs
    → v < 256 ^ w
    → word_at w (put_at w bs i v) i ≡ v
unfolding word_at put_at
word_at-put_at_self w bs zero v h lt = word-put w bs v (omega arith) lt
word_at-put_at_self w [] (suc i) v h lt = absurd (omega arith)
word_at-put_at_self w (b ∷ bs) (suc i) v h lt = word_at-put_at_self w bs i v (omega arith) lt

word-put_at : (u w : ℕ) (bs : Block) (i v : ℕ) → u ≤ i → word u (put_at w bs i v) ≡ word u bs
unfolding word put_at
word-put_at zero w bs i v h = refl
word-put_at (suc u) w bs zero v h = absurd (omega arith)
word-put_at (suc u) w [] (suc i) v h = refl
word-put_at (suc u) w (b ∷ bs) (suc i) v h = omega (arith, word-put_at u w bs i v (omega arith))

word_at-put : (u w : ℕ) (bs : Block) (j v : ℕ) → w ≤ j → word_at u (put w bs v) j ≡ word_at u bs j
unfolding word_at put
word_at-put u zero bs j v h = refl
word_at-put u (suc w) bs zero v h = absurd (omega arith)
word_at-put u (suc w) [] (suc j) v h = refl
word_at-put u (suc w) (b ∷ bs) (suc j) v h = word_at-put u w bs j (v / 256) (omega arith)

-- A write does not change the words below it,
pub word_at-put_at_below :
    (u w : ℕ) (bs : Block) (i j v : ℕ) → j + u ≤ i → word_at u (put_at w bs i v) j ≡ word_at u bs j
unfolding word_at put_at
word_at-put_at_below u w bs i zero v h = word-put_at u w bs i v (omega arith)
word_at-put_at_below u w bs zero (suc j) v h = absurd (omega arith)
word_at-put_at_below u w [] (suc i) (suc j) v h = refl
word_at-put_at_below u w (b ∷ bs) (suc i) (suc j) v h =
    word_at-put_at_below u w bs i j v (omega arith)

-- nor those above it.
pub word_at-put_at_above :
    (u w : ℕ) (bs : Block) (i j v : ℕ) → i + w ≤ j → word_at u (put_at w bs i v) j ≡ word_at u bs j
unfolding word_at put_at
word_at-put_at_above u w bs zero j v h = word_at-put u w bs j v (omega arith)
word_at-put_at_above u w bs (suc i) zero v h = absurd (omega arith)
word_at-put_at_above u w [] (suc i) (suc j) v h = refl
word_at-put_at_above u w (b ∷ bs) (suc i) (suc j) v h =
    word_at-put_at_above u w bs i j v (omega arith)

pub load-store :
    (w : ℕ) (bs : Block) {cs : Block} (i v : ℕ)
    → v < 256 ^ w
    → store w bs i v ≡ ok cs
    → load w cs i ≡ ok v
unfolding load store
load-store w bs i v lt e = ground (arith, word_at-put_at_self w bs i v, length-put_at w bs i v)

pub length-store :
    (w : ℕ) (bs : Block) {cs : Block} (i v : ℕ) → store w bs i v ≡ ok cs → length cs ≡ length bs
unfolding store
length-store w bs i v e = ground (arith, length-put_at w bs i v)

-- Writes and reads of words that do not overlap.
pub load-store_apart :
    (u w : ℕ) (bs : Block) {cs : Block} (i j v : ℕ)
    → store w bs i v ≡ ok cs
    → (j + u ≤ i) ⊎ (i + w ≤ j)
    → load u cs j ≡ load u bs j
unfolding load store
load-store_apart u w bs i j v e (inl h) =
    ground (arith, length-put_at w bs i v, word_at-put_at_below u w bs i j v h)
load-store_apart u w bs i j v e (inr h) =
    ground (arith, length-put_at w bs i v, word_at-put_at_above u w bs i j v h)

-- A store succeeds exactly within the block.
pub store_in :
    (w : ℕ) (bs : Block) (i v : ℕ) → i + w ≤ length bs → (cs : Block) × (store w bs i v ≡ ok cs)
unfolding store
store_in w bs i v h = (put_at w bs i v, ground arith)

pub load_in : (w : ℕ) (bs : Block) (i : ℕ) → i + w ≤ length bs → load w bs i ≡ ok (word_at w bs i)
unfolding load
load_in w bs i h = ground arith

-- The `u` low bytes of a number, and the number less its `k` low bytes.
abbrev pub low_bytes : ℕ → ℕ → ℕ
low_bytes zero v = 0
low_bytes (suc u) v = v % 256 + 256 * low_bytes u (v / 256)

abbrev pub drop_bytes : ℕ → ℕ → ℕ
drop_bytes zero v = v
drop_bytes (suc k) v = drop_bytes k (v / 256)

word-put_sub :
    (u w : ℕ) (bs : Block) (v : ℕ) → u ≤ w → w ≤ length bs → word u (put w bs v) ≡ low_bytes u v
unfolding word put
word-put_sub zero w bs v h k = refl
word-put_sub (suc u) zero bs v h k = absurd (omega arith)
word-put_sub (suc u) (suc w) [] v h k = absurd (omega arith)
word-put_sub (suc u) (suc w) (b ∷ bs) v h k =
    omega (arith, word-put_sub u w bs (v / 256) (omega arith) (omega arith))

word_at-put_sub :
    (u w : ℕ) (bs : Block) (k v : ℕ)
    → k + u ≤ w
    → w ≤ length bs
    → word_at u (put w bs v) k ≡ low_bytes u (drop_bytes k v)
unfolding word_at put
word_at-put_sub u w bs zero v h l = word-put_sub u w bs v (omega arith) l
word_at-put_sub u zero bs (suc k) v h l = absurd (omega arith)
word_at-put_sub u (suc w) [] (suc k) v h l = absurd (omega arith)
word_at-put_sub u (suc w) (b ∷ bs) (suc k) v h l =
    word_at-put_sub u w bs k (v / 256) (omega arith) (omega arith)

-- A field inside a word that is written.
pub word_at-put_at_sub :
    (u w : ℕ) (bs : Block) (i j k v : ℕ)
    → j ≡ i + k
    → k + u ≤ w
    → i + w ≤ length bs
    → word_at u (put_at w bs i v) j ≡ low_bytes u (drop_bytes k v)
unfolding word_at put_at
word_at-put_at_sub u w bs zero j k v e h l =
    rw (let same : j ≡ k = omega arith in same) (word_at-put_sub u w bs k v h (omega arith))
word_at-put_at_sub u w [] (suc i) j k v e h l = absurd (omega arith)
word_at-put_at_sub u w (b ∷ bs) (suc i) zero k v e h l = absurd (omega arith)
word_at-put_at_sub u w (b ∷ bs) (suc i) (suc j) k v e h l =
    word_at-put_at_sub u w bs i j k v (omega arith) h (omega arith)

-- Every entry is a byte.
abbrev pub IsBytes : Block → Type 0
IsBytes [] = Unit {0}
IsBytes (b ∷ bs) = (b < 256) × IsBytes bs

IsBytes-put : (w : ℕ) (bs : Block) (v : ℕ) → IsBytes bs → IsBytes (put w bs v)
unfolding put
IsBytes-put zero bs v h = h
IsBytes-put (suc w) [] v h = tt
IsBytes-put (suc w) (b ∷ bs) v h = (omega arith, IsBytes-put w bs (v / 256) h.1)

pub IsBytes-put_at : (w : ℕ) (bs : Block) (i v : ℕ) → IsBytes bs → IsBytes (put_at w bs i v)
unfolding put_at
IsBytes-put_at w bs zero v h = IsBytes-put w bs v h
IsBytes-put_at w [] (suc i) v h = tt
IsBytes-put_at w (b ∷ bs) (suc i) v h = (h.0, IsBytes-put_at w bs i v h.1)

pub IsBytes-replicate : (n : ℕ) → IsBytes (replicate n 0)
IsBytes-replicate zero = tt
IsBytes-replicate (suc n) = (omega arith, IsBytes-replicate n)

word_high : (bs : Block) → 8 ≤ length bs → IsBytes bs → word 8 bs / 2 ^ 32 % 2 ^ 32 ≡ word_at 4 bs 4
unfolding word word_at
word_high (a ∷ b ∷ c ∷ d ∷ e ∷ f ∷ g ∷ h ∷ bs) l p = omega arith
word_high _ l p = absurd (omega arith)

-- The upper half of a 64-bit word.
pub word_at-high :
    (bs : Block) (i : ℕ)
    → i + 8 ≤ length bs
    → IsBytes bs
    → word_at 8 bs i / 2 ^ 32 % 2 ^ 32 ≡ word_at 4 bs (i + 4)
unfolding word_at
word_at-high bs zero l p = word_high bs (omega arith) p
word_at-high [] (suc i) l p = absurd (omega arith)
word_at-high (b ∷ bs) (suc i) l p =
    word_at-high bs i (omega arith) p.1
    ∙ ap (word_at 4 (b ∷ bs)) (let e : suc (i + 4) ≡ suc i + 4 = omega arith in e)

pub store-put_at :
    (w : ℕ) (bs : Block) (i v : ℕ) → i + w ≤ length bs → store w bs i v ≡ ok (put_at w bs i v)
unfolding store
store-put_at w bs i v h = ground arith
