-- ===== src/IoApic/Registers.antt =====
-- The registers of the I/O APIC: what a guest writes is what it reads, and no guest sees another's.
use pard_gem.Prelude.{
  ℕ, zero, suc, subst, ap, ◌+◌, ◌*◌, ◌/◌, ◌%◌, ◌^◌, ◌≤◌, ◌<◌, ◌≡◌, ◌≢◌, ◌⊎◌, refl, true, List, [],
  ◌∷◌, none, some, arith, ◌==◌, if◌then◌else◌, ok, fault, out_of_bounds, ◌>>=◌, ◌∙◌, length,
  get_elem?, set, length-set, get_elem?-set_self, get_elem?-set_ne, get_elem?-lt, ℕ_discrete,
}
use pard_gem.IoApic.{
  IoApic, table_size, element, write_top, write_bottom, in_table, index_of, write_entry, write_reg,
  read_entry, read_reg,
}

-- A table for each guest, each of 24 entries of 64 bits.
abbrev pub AllFull : List (List ℕ) → Type 0
AllFull [] = Unit {0}
AllFull (t ∷ ts) = (length t ≡ table_size) × AllFull ts

pub record IsValid (s : IoApic) : Type 0 where
  pub guests : length s.redir_table ≡ s.max_guests
  pub full : AllFull s.redir_table

AllFull-get_elem? :
    (ts : List (List ℕ)) (i : ℕ) {u : List ℕ}
    → AllFull ts
    → get_elem? ts i ≡ some u
    → length u ≡ table_size
AllFull-get_elem? [] i h e = cc
AllFull-get_elem? (t ∷ ts) zero {u} h e =
    let same : t ≡ u = cc in subst (λ x. length x ≡ table_size) same h.0
AllFull-get_elem? (t ∷ ts) (suc i) h e = AllFull-get_elem? ts i h.1 e

AllFull-set :
    (ts : List (List ℕ)) (i : ℕ) (t : List ℕ)
    → AllFull ts
    → length t ≡ table_size
    → AllFull (set ts i t)
AllFull-set [] i t h e = tt
AllFull-set (u ∷ ts) zero t h e = (e, h.1)
AllFull-set (u ∷ ts) (suc i) t h e = (h.0, AllFull-set ts i t h.1 e)

read_top-write_top : (e v : ℕ) → write_top e v / 2 ^ 32 ≡ v % 2 ^ 32 / 2 ^ 24 * 2 ^ 24
unfolding write_top
read_top-write_top e v = omega arith

read_bottom-write_top : (e v : ℕ) → write_top e v % 2 ^ 32 ≡ e % 2 ^ 32
unfolding write_top
read_bottom-write_top e v = omega arith

read_bottom-write_bottom : (e v : ℕ) → write_bottom e v % 2 ^ 32 ≡ v % 2 ^ 17
unfolding write_bottom
read_bottom-write_bottom e v = omega arith

read_top-write_bottom : (e v : ℕ) → write_bottom e v / 2 ^ 32 ≡ e / 2 ^ 32
unfolding write_bottom
read_top-write_bottom e v = omega arith

-- The word at an offset of the table, and what a register keeps of a written word: the destination,
-- or the fields of bits 16 to 0.
abbrev pub half : ℕ → ℕ → ℕ
half offset e = if offset % 2 == 1 then e / 2 ^ 32 else e % 2 ^ 32

abbrev pub kept : ℕ → ℕ → ℕ
kept offset v = if offset % 2 == 1 then v % 2 ^ 32 / 2 ^ 24 * 2 ^ 24 else v % 2 ^ 17

abbrev written : ℕ → ℕ → ℕ → ℕ
written offset e v = if offset % 2 == 1 then write_top e v else write_bottom e v

half-written : (offset e v : ℕ) → half offset (written offset e v) ≡ kept offset v
half-written offset e v = ground (arith, read_top-write_top e v, read_bottom-write_bottom e v)

half-written_other :
    (offset offset' e v : ℕ)
    → offset % 2 ≢ offset' % 2
    → half offset' (written offset e v) ≡ half offset' e
half-written_other offset offset' e v ne =
    ground (arith, read_bottom-write_top e v, read_top-write_bottom e v)

-- The offsets of the 24 entries.
abbrev pub IsEntry : ℕ → Type 0
IsEntry offset = (0x10 ≤ offset) × (offset < 0x10 + table_size * 2)

read_reg_lem :
    (s : IoApic) (ds offset : ℕ) {table : List ℕ} {e : ℕ}
    → IsEntry offset
    → get_elem? s.redir_table ds ≡ some table
    → get_elem? table (index_of offset) ≡ some e
    → read_reg s ds offset ≡ ok (half offset e)
unfolding read_reg read_entry element
read_reg_lem s ds offset h t e = ground arith

write_reg_lem :
    (s : IoApic) (ds offset v : ℕ) {table : List ℕ} {e : ℕ}
    → IsEntry offset
    → get_elem? s.redir_table ds ≡ some table
    → get_elem? table (index_of offset) ≡ some e
    → write_reg s ds offset v
      ≡ ok (record s {
        redir_table = set s.redir_table ds (set table (index_of offset) (written offset e v));
      })
unfolding write_reg write_entry element
write_reg_lem s ds offset v h t e = ground arith

-- The table after a write.
abbrev after : IoApic → ℕ → ℕ → List ℕ → ℕ → IoApic
after s ds i table e = record s { redir_table = set s.redir_table ds (set table i e) }

entry_of_other_guest :
    (s : IoApic) (ds ds' i offset' e : ℕ) (table : List ℕ)
    → ds ≢ ds'
    → read_entry (after s ds i table e) ds' offset' ≡ read_entry s ds' offset'
unfolding read_entry element
entry_of_other_guest s ds ds' i offset' e table ne =
    ground (arith, get_elem?-set_ne s.redir_table ds ds' (set table i e) ne)

entry_of_other_index :
    (s : IoApic) (ds i offset' e : ℕ) (table : List ℕ)
    → get_elem? s.redir_table ds ≡ some table
    → ds < length s.redir_table
    → i ≢ index_of offset'
    → read_entry (after s ds i table e) ds offset' ≡ read_entry s ds offset'
unfolding read_entry element
entry_of_other_index s ds i offset' e table t lt ne =
    rw
      (
        get_elem?-set_self s.redir_table ds (set table i e) lt,
        t,
        ◌>>=◌,
        get_elem?-set_ne table i (index_of offset') e ne,
      )
      refl

entry_of_other_half :
    (s : IoApic) (ds offset offset' e v : ℕ) (table : List ℕ)
    → get_elem? s.redir_table ds ≡ some table
    → ds < length s.redir_table
    → get_elem? table (index_of offset) ≡ some e
    → index_of offset < length table
    → index_of offset ≡ index_of offset'
    → offset % 2 ≢ offset' % 2
    → read_entry (after s ds (index_of offset) table (written offset e v)) ds offset'
      ≡ read_entry s ds offset'
unfolding read_entry element
entry_of_other_half s ds offset offset' e v table t lt en inside same ne =
    rw
      (
        get_elem?-set_self s.redir_table ds (set table (index_of offset) (written offset e v)) lt,
        t,
        ◌>>=◌,
        ← same,
        get_elem?-set_self table (index_of offset) (written offset e v) inside,
        en,
      )
      (ap ok (half-written_other offset offset' e v ne))

read_reg-entries :
    (s : IoApic) (ts : List (List ℕ)) (ds' offset' : ℕ)
    → (in_table offset' ≡ true
        → read_entry (record s { redir_table = ts }) ds' offset' ≡ read_entry s ds' offset')
    → read_reg (record s { redir_table = ts }) ds' offset' ≡ read_reg s ds' offset'
unfolding read_reg
read_reg-entries s ts ds' offset' h = ground arith

entry_of_other :
    (s : IoApic) (ds offset ds' offset' e v : ℕ) (table : List ℕ)
    → get_elem? s.redir_table ds ≡ some table
    → ds < length s.redir_table
    → get_elem? table (index_of offset) ≡ some e
    → index_of offset < length table
    → IsEntry offset
    → in_table offset' ≡ true
    → (ds ≢ ds') ⊎ (offset ≢ offset')
    → read_entry (after s ds (index_of offset) table (written offset e v)) ds' offset'
      ≡ read_entry s ds' offset'
entry_of_other s ds offset ds' offset' e v table t lt en inside entry reach other =
    elim (ℕ_discrete ds ds') [
      | no ne ↦
          entry_of_other_guest s ds ds' (index_of offset) offset' (written offset e v) table ne
      | yes same ↦ elim (ℕ_discrete (index_of offset) (index_of offset')) [
        | no ne ↦
            rw (← same) (
              entry_of_other_index s ds (index_of offset) offset' (written offset e v) table t lt
                ne)
        | yes alike ↦ rw (← same) (
            entry_of_other_half s ds offset offset' e v table t lt en inside alike
              (λ even. ground arith))
      ]
    ]

-- On a valid I/O APIC a write to an entry's register succeeds and keeps the I/O APIC valid. A read
-- then gives what that half of the entry keeps of the word, the destination or the bits below 17,
-- and any other register of this guest, or any register of another guest, reads as before.
pub read_reg-write_reg :
    (s : IoApic) (ds offset v ds' offset' : ℕ)
    → IsValid s
    → ds < s.max_guests
    → IsEntry offset
    → (ds ≢ ds') ⊎ (offset ≢ offset')
    → (t : IoApic) × (write_reg s ds offset v ≡ ok t)
      × IsValid t
      × (read_reg t ds offset ≡ ok (kept offset v))
      × (read_reg t ds' offset' ≡ read_reg s ds' offset')
read_reg-write_reg s ds offset v ds' offset' valid lt entry other =
    let guests : ds < length s.redir_table = omega (arith, valid.guests) in
    let (table, t) = get_elem?-lt s.redir_table ds guests in
    let full : length table ≡ table_size = AllFull-get_elem? s.redir_table ds valid.full t in
    let inside : index_of offset < length table = omega (arith, full, entry.0, entry.1) in
    let (e, en) = get_elem?-lt table (index_of offset) inside in
    let new : List ℕ = set table (index_of offset) (written offset e v) in
    let there : get_elem? (set s.redir_table ds new) ds ≡ some new =
      get_elem?-set_self s.redir_table ds new guests in
    let set_there : get_elem? new (index_of offset) ≡ some (written offset e v) =
      get_elem?-set_self table (index_of offset) (written offset e v) inside in
    (
      record s { redir_table = set s.redir_table ds new },
      write_reg_lem s ds offset v entry t en,
      record {
        guests = length-set s.redir_table ds new ∙ valid.guests;
        full =
            AllFull-set s.redir_table ds new valid.full
              (length-set table (index_of offset) (written offset e v) ∙ full);
      },
      read_reg_lem (record s { redir_table = set s.redir_table ds new }) ds offset entry there
            set_there
          ∙ ap ok (half-written offset e v),
      read_reg-entries s (set s.redir_table ds new) ds' offset' (λ reach.
          entry_of_other s ds offset ds' offset' e v table t guests en inside entry reach other),
    )

get_elem?-length : {A : Type 0} (xs : List A) → get_elem? xs (length xs) ≡ none
get_elem?-length [] = refl
get_elem?-length (x ∷ xs) = get_elem?-length xs

-- The guard admits one offset too many: on a valid I/O APIC, for each of its guests, register 0x40
-- is looked up behind the last entry of the guest's table, by a read and by a write.
pub read_reg-overrun :
    (s : IoApic) (ds v : ℕ)
    → IsValid s
    → ds < s.max_guests
    → (read_reg s ds 0x40 ≡ fault out_of_bounds) × (write_reg s ds 0x40 v ≡ fault out_of_bounds)
unfolding read_reg write_reg read_entry write_entry element
read_reg-overrun s ds v valid lt =
    let (table, t) = get_elem?-lt s.redir_table ds (omega (arith, valid.guests)) in
    let full : length table ≡ table_size = AllFull-get_elem? s.redir_table ds valid.full t in
    let past : get_elem? table table_size ≡ none =
      subst (λ n. get_elem? table n ≡ none) full (get_elem?-length table) in
    (rw (t, ◌>>=◌, past) refl, rw (t, ◌>>=◌, past) refl)
