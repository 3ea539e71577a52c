-- ===== src/IoHubCp/Assign.antt =====
-- The loop of PARDg5VIOHubCP::updateTable over the bits of a device mask that changed.
use pard_gem.Prelude.{
  ℕ, zero, suc, ◌+◌, ◌/◌, ◌%◌, ◌^◌, ◌≤◌, ◌<◌, ◌≡◌, ◌≢◌, ◌⊎◌, inl, inr, refl, sym, subst, ◌∙◌, List,
  Option, some, arith, ◌==◌, ltb, if◌then◌else◌, Result, ok, fault, null_pointer, ◌>>=◌, length,
  get_elem?, set, length-set, get_elem?-set_self, get_elem?-set_ne, ℕ_discrete, dec_lt,
}

-- Bit `i` of a mask.
unfoldable pub bit : ℕ → ℕ → ℕ
bit mask i = mask / 2 ^ i % 2

-- The DSid that a device gets when no domain has it: `setDSid(-1)` on a `uint16_t`.
abbrev pub no_ds_id : ℕ
no_ds_id = 0xffff

-- `getPciDevice(i)` is NULL beyond the last device, and is read through without a test.
retag : ℕ → ℕ → List ℕ → Result (List ℕ)
retag i ds tags = if ltb i (length tags) then ok (set tags i ds) else fault null_pointer

-- Bit `i` of `old ^ new` is set where the two bits differ.
reassign_one : ℕ → ℕ → ℕ → ℕ → List ℕ → Result (List ℕ)
unfolding retag
reassign_one i old new ds tags =
    if bit old i == bit new i
    then ok tags
    else retag i (if bit new i == 1 then ds else no_ds_id) tags

-- `for (i = first; i < first + n; i++)`
unfoldable pub reassign : ℕ → ℕ → ℕ → ℕ → ℕ → List ℕ → Result (List ℕ)
unfolding reassign_one
reassign zero i old new ds tags = ok tags
reassign (suc n) i old new ds tags =
    reassign_one i old new ds tags >>= λ tags'. reassign n (suc i) old new ds tags'

-- What becomes of the register of device `i`.
abbrev pub assigned : ℕ → ℕ → ℕ → List ℕ → ℕ → Option ℕ
assigned old new ds tags i =
    if bit old i == bit new i
    then get_elem? tags i
    else if bit new i == 1
    then some ds
    else some no_ds_id

reassign_one_lem :
    (i old new ds : ℕ) (tags : List ℕ)
    → (bit old i ≢ bit new i → i < length tags)
    → (tags' : List ℕ) × (reassign_one i old new ds tags ≡ ok tags')
      × (length tags' ≡ length tags)
      × (get_elem? tags' i ≡ assigned old new ds tags i)
      × ((j : ℕ) → i ≢ j → get_elem? tags' j ≡ get_elem? tags j)
unfolding reassign_one retag
reassign_one_lem i old new ds tags h = elim (ℕ_discrete (bit old i) (bit new i)) [
  | yes e ↦ (tags, ground arith, refl, ground arith, λ j ne. refl)
  | no ne ↦
      let v : ℕ = if bit new i == 1 then ds else no_ds_id in
      (
        set tags i v,
        ground (arith, h ne),
        length-set tags i v,
        ground (arith, h ne, get_elem?-set_self tags i v),
        λ j away. get_elem?-set_ne tags i j v away,
      )
]

-- The loop over `n` bits from `i` on, where every bit that changed names a device.
pub reassign_lem :
    (n i old new ds : ℕ) (tags : List ℕ)
    → ((j : ℕ) → i ≤ j → j < i + n → bit old j ≢ bit new j → j < length tags)
    → (tags' : List ℕ) × (reassign n i old new ds tags ≡ ok tags')
      × (length tags' ≡ length tags)
      × ((j : ℕ) → i ≤ j → j < i + n → get_elem? tags' j ≡ assigned old new ds tags j)
      × ((j : ℕ) → (j < i) ⊎ (i + n ≤ j) → get_elem? tags' j ≡ get_elem? tags j)
unfolding reassign
reassign_lem zero i old new ds tags h =
    (tags, refl, refl, λ j p q. absurd (omega arith), λ j p. refl)
reassign_lem (suc n) i old new ds tags h =
    let (t₁, e₁, len₁, self₁, away₁) =
      reassign_one_lem i old new ds tags (h i (omega arith) (omega arith)) in
    let (t₂, e₂, len₂, in₂, out₂) =
      reassign_lem n (suc i) old new ds t₁
        (λ j p q d. subst (λ k. j < k) (sym len₁) (h j (omega arith) (omega arith) d)) in
    (
      t₂,
      rw (e₁, ◌>>=◌) e₂,
      len₂ ∙ len₁,
      λ j p q. elim (ℕ_discrete i j) [
        | yes e ↦
            subst (λ k. get_elem? t₂ k ≡ assigned old new ds tags k) e
              (out₂ i (inl (omega arith)) ∙ self₁)
        | no ne ↦ rw (← away₁ j ne) (in₂ j (omega arith) (omega arith))
      ],
      λ j p.
          out₂ j (elim p [ inl a ↦ inl (omega arith) | inr b ↦ inr (omega arith) ])
          ∙ away₁ j (λ e. elim p [ inl a ↦ omega arith | inr b ↦ omega arith ]),
    )

reassign_one_missing :
    (i old new ds : ℕ) (tags : List ℕ)
    → bit old i ≢ bit new i
    → length tags ≤ i
    → reassign_one i old new ds tags ≡ fault null_pointer
unfolding reassign_one retag
reassign_one_missing i old new ds tags d l = ground arith

reassign_one-cases :
    (i old new ds : ℕ) (tags : List ℕ)
    → ((tags' : List ℕ) × (reassign_one i old new ds tags ≡ ok tags')
        × (length tags' ≡ length tags))
      ⊎ (reassign_one i old new ds tags ≡ fault null_pointer)
reassign_one-cases i old new ds tags = elim (dec_lt i (length tags)) [
  | yes lt ↦ let (t, e, len, _, _) = reassign_one_lem i old new ds tags (λ d. lt) in inl (t, e, len)
  | no ge ↦ elim (ℕ_discrete (bit old i) (bit new i)) [
    | yes same ↦
        let (t, e, len, _, _) = reassign_one_lem i old new ds tags (λ d. absurd (d same)) in
        inl (t, e, len)
    | no d ↦ inr (reassign_one_missing i old new ds tags d (omega arith))
  ]
]

-- A bit that changed and names no device stops the simulator.
pub reassign_missing :
    (n i j old new ds : ℕ) (tags : List ℕ)
    → i ≤ j
    → j < i + n
    → bit old j ≢ bit new j
    → length tags ≤ j
    → reassign n i old new ds tags ≡ fault null_pointer
unfolding reassign
reassign_missing zero i j old new ds tags p q d l = absurd (omega arith)
reassign_missing (suc n) i j old new ds tags p q d l = elim (ℕ_discrete i j) [
  | yes e ↦ rw (
    reassign_one_missing i old new ds tags (subst (λ k. bit old k ≢ bit new k) (sym e) d)
        (omega arith),
    ◌>>=◌,
  )
  | no ne ↦ elim (reassign_one-cases i old new ds tags) [
    | inl (t, e, len) ↦
        rw (e, ◌>>=◌)
          (reassign_missing n (suc i) j old new ds t (omega arith) (omega arith) d (omega arith))
    | inr e ↦ rw (e, ◌>>=◌)
  ]
]
