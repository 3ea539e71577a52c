-- ===== src/IoApic/Isolation.antt =====
-- Whom the I/O APIC of dev/cellx/i82094ax.cc interrupts.
use pard_gem.Prelude.{
  ℕ, zero, suc, ◌%◌, ◌<◌, ◌≡◌, ◌≢◌, refl, Bool, true, false, List, [], ◌∷◌, Option, some, arith,
  if◌then◌else◌, Result, ok, ◌>>=◌, length, get_elem?, bind_ok, require, ltb, assertion, ℕ_discrete,
  subst, sym, ap, ◌∙◌,
}
use pard_gem.IoApic.{IoApic, element, entry_mask, table_size}
use pard_gem.IoApic.Delivery.{
  LocalApic, Message, Sending, lowest_priority, selects, logical_apics, advance, pick_lowest,
  receivers, deliver, message_of, vector_of, signal_interrupt,
}

-- The number is that of a local APIC that belongs to the guest.
abbrev pub IsOfGuest : ℕ → List LocalApic → ℕ → Type 0
IsOfGuest ds locals a =
    (k : ℕ) × (l : LocalApic) × (get_elem? locals k ≡ some l)
    × (l.ds_id ≡ ds)
    × (l.initial_apic_id ≡ a)

later :
    (ds : ℕ) (l : LocalApic) (locals : List LocalApic) (a : ℕ)
    → IsOfGuest ds locals a
    → IsOfGuest ds (l ∷ locals) a
later ds l locals a (k, m, e, own, same) = (suc k, m, e, own, same)

logical_apics-IsOfGuest :
    (ds dest : ℕ) (locals : List LocalApic) (j : ℕ) {a : ℕ}
    → get_elem? (logical_apics ds dest locals) j ≡ some a
    → IsOfGuest ds locals a
unfolding logical_apics
logical_apics-IsOfGuest ds dest [] j e = cc
logical_apics-IsOfGuest ds dest (l ∷ locals) j {a} e =
    go (selects ds dest l) refl j e (λ i h. logical_apics-IsOfGuest ds dest locals i h)
  where
    go :
        (b : Bool)
        → selects ds dest l ≡ b
        → (i : ℕ)
        → get_elem?
            (if b
              then l.initial_apic_id ∷ logical_apics ds dest locals
              else logical_apics ds dest locals)
            i
          ≡ some a
        → ((n : ℕ) → get_elem? (logical_apics ds dest locals) n ≡ some a → IsOfGuest ds locals a)
        → IsOfGuest ds (l ∷ locals) a
    go true s zero h rest = (zero, l, refl, ground arith, cc)
    go true s (suc i) h rest = later ds l locals a (rest i h)
    go false s i h rest = later ds l locals a (rest i h)

advance-get_elem? : (xs : List ℕ) (n : ℕ) {a : ℕ} → advance xs n ≡ ok a → get_elem? xs n ≡ some a
unfolding advance
advance-get_elem? [] n e = cc
advance-get_elem? (x ∷ xs) zero e = cc
advance-get_elem? (x ∷ xs) (suc n) e = advance-get_elem? xs n e

advance-lt : (xs : List ℕ) (n : ℕ) → n < length xs → (a : ℕ) × (advance xs n ≡ ok a)
unfolding advance
advance-lt [] n h = absurd (omega arith)
advance-lt (x ∷ xs) zero h = (x, refl)
advance-lt (x ∷ xs) (suc n) h = advance-lt xs n (omega arith)

get_elem?-one : {A : Type 0} (b : A) (j : ℕ) {a : A} → get_elem? (b ∷ []) j ≡ some a → b ≡ a
get_elem?-one b zero e = cc
get_elem?-one b (suc j) e = cc

pick_lowest-get_elem? :
    (s t : IoApic) (xs ys : List ℕ) (j : ℕ) {a : ℕ}
    → pick_lowest s xs ≡ ok (ys, t)
    → get_elem? ys j ≡ some a
    → (i : ℕ) × (get_elem? xs i ≡ some a)
unfolding pick_lowest
pick_lowest-get_elem? s t [] ys j {a} e h =
    let empty : [] ≡ ys = cc in (j, subst (λ zs. get_elem? zs j ≡ some a) (sym empty) h)
pick_lowest-get_elem? s t (x ∷ xs) ys j {a} e h =
    let place : ℕ = s.lowest_priority_offset % length (x ∷ xs) in
    let (b, walk) = advance-lt (x ∷ xs) place (omega arith) in
    let one : b ∷ [] ≡ ys = ground (arith, walk) in
    let same : b ≡ a = get_elem?-one b j (subst (λ zs. get_elem? zs j ≡ some a) (sym one) h) in
    (place, advance-get_elem? (x ∷ xs) place walk ∙ ap some same)

receivers-IsOfGuest :
    (s t : IoApic) (locals : List LocalApic) (ds : ℕ) (m : Message) (apics : List ℕ) (j : ℕ) {a : ℕ}
    → receivers s locals ds m ≡ ok (apics, t)
    → m.dest_mode ≢ 0
    → get_elem? apics j ≡ some a
    → IsOfGuest ds locals a
unfolding receivers
receivers-IsOfGuest s t locals ds m apics j {a} e logical h =
    elim (ℕ_discrete m.delivery_mode lowest_priority) [
      | yes low ↦
          let picked : pick_lowest s (logical_apics ds m.destination locals) ≡ ok (apics, t) =
            ground arith in
          let (i, g) =
            pick_lowest-get_elem? s t (logical_apics ds m.destination locals) apics j picked h in
          logical_apics-IsOfGuest ds m.destination locals i g
      | no other ↦
          let all : logical_apics ds m.destination locals ≡ apics = ground arith in
          logical_apics-IsOfGuest ds m.destination locals j
            (subst (λ xs. get_elem? xs j ≡ some a) (sym all) h)
    ]

signal-deliver :
    (s : IoApic) (locals : List LocalApic) (pic : Option ℕ) (ds line : ℕ)
    {r : List Sending × IoApic}
    → signal_interrupt s locals pic ds line ≡ ok r
    → (entry : ℕ) × (deliver s locals pic ds entry ≡ ok r)
unfolding signal_interrupt
signal-deliver s locals pic ds line e =
    let (_, _, looked) =
      bind_ok (require (ltb line table_size) assertion)
        (λ _. element s.redir_table ds >>= λ table. element table line >>= deliver s locals pic ds)
        e in
    let (table, _, found) =
      bind_ok (element s.redir_table ds) (λ table. element table line >>= deliver s locals pic ds)
        looked in
    let (entry, _, d) = bind_ok (element table line) (deliver s locals pic ds) found in (entry, d)

no_sending : (k : ℕ) {x : Sending} → get_elem? [] k ≡ some x → ⊥
no_sending k e = cc

abbrev one_sending : IoApic → List LocalApic → ℕ → ℕ → ℕ → Result (List Sending × IoApic)
one_sending s locals ds entry v =
    receivers s locals ds (message_of entry v) >>= λ r. ok ((r.0, message_of entry v) ∷ [], r.1)

only_sending :
    (xs : List ℕ) (n : Message) (u t : IoApic) (sent : List Sending) (k : ℕ) {apics : List ℕ}
    {m : Message}
    → ◌≡◌ {A = Result (List Sending × IoApic)} (ok ((xs, n) ∷ [], u)) (ok (sent, t))
    → get_elem? sent k ≡ some (apics, m)
    → (xs ≡ apics) × (n ≡ m)
only_sending xs n u t sent k {apics} {m} e at =
    let one : (xs, n) ∷ [] ≡ sent = cc in
    let same : (xs, n) ≡ (apics, m) =
      get_elem?-one (xs, n) k (subst (λ zs. get_elem? zs k ≡ some (apics, m)) (sym one) at) in
    (ap (λ x. x.0) same, ap (λ x. x.1) same)

deliver-receivers :
    (s t : IoApic) (locals : List LocalApic) (pic : Option ℕ) (ds entry : ℕ) (sent : List Sending)
    (k : ℕ) {apics : List ℕ} {m : Message}
    → deliver s locals pic ds entry ≡ ok (sent, t)
    → get_elem? sent k ≡ some (apics, m)
    → (u : IoApic) × (receivers s locals ds m ≡ ok (apics, u))
unfolding deliver
deliver-receivers s t locals pic ds entry sent k {apics} {m} e at =
    elim (ℕ_discrete (entry_mask entry) 1) [
      | yes masked ↦
          let silent : [] ≡ sent = ground arith in
          absurd (no_sending k (subst (λ zs. get_elem? zs k ≡ some (apics, m)) (sym silent) at))
      | no open_entry ↦
          let sends : (vector_of pic entry >>= one_sending s locals ds entry) ≡ ok (sent, t) =
            ground arith in
          let (v, _, rest) = bind_ok (vector_of pic entry) (one_sending s locals ds entry) sends in
          let (r, got, last) =
            bind_ok (receivers s locals ds (message_of entry v))
              (λ r. ok ((r.0, message_of entry v) ∷ [], r.1)) rest in
          let (to, what) = only_sending r.0 (message_of entry v) r.1 t sent k last at in
          (r.1, rw (← what, ← to) got)
    ]

-- Whatever an interrupt of a guest's line sends: a message in logical destination mode goes only to
-- local APICs that belong to that guest.
pub signal_interrupt-IsOfGuest :
    (s t : IoApic) (locals : List LocalApic) (pic : Option ℕ) (ds line : ℕ) (sent : List Sending)
    (k j : ℕ) {apics : List ℕ} {m : Message} {a : ℕ}
    → signal_interrupt s locals pic ds line ≡ ok (sent, t)
    → get_elem? sent k ≡ some (apics, m)
    → m.dest_mode ≢ 0
    → get_elem? apics j ≡ some a
    → IsOfGuest ds locals a
signal_interrupt-IsOfGuest s t locals pic ds line sent k j {apics} {m} {a} e at logical h =
    let (entry, d) = signal-deliver s locals pic ds line e in
    let (u, r) = deliver-receivers s t locals pic ds entry sent k d at in
    receivers-IsOfGuest s u locals ds m apics j r logical h
