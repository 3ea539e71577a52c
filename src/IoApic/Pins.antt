-- ===== src/IoApic/Pins.antt =====
-- The interrupt pins of dev/cellx/i82094ax.cc are edge triggered.
use pard_gem.Prelude.{
  ℕ, zero, suc, ◌+◌, ◌%◌, ◌^◌, ◌<◌, ◌≡◌, refl, ◌∙◌, subst, sym, ap, Bool, true, false, List, [],
  ◌∷◌, ◌++◌, Option, arith, ltb, if◌then◌else◌, Result, ok, assertion, ◌>>=◌, ◌>>◌, require,
  bind_ok, length, set, length-set, get_elem?-set_self, get_elem?-lt, ℕ_discrete, lt→ltb,
}
use pard_gem.IoApic.{IoApic, table_size, element, entry_mask}
use pard_gem.IoApic.Delivery.{
  LocalApic, Message, Sending, lowest_priority, logical_apics, advance, pick_lowest, receivers,
  deliver, message_of, vector_of, signal_interrupt, signal_all, raise_interrupt_pin,
  lower_interrupt_pin,
}

-- Delivery moves the offset of the lowest priority mode, and nothing else.
abbrev pub Rotated : IoApic → IoApic → Type 0
Rotated s t = (n : ℕ) × (t ≡ record s { lowest_priority_offset = n })

pick_lowest-Rotated :
    (s t : IoApic) (xs : List ℕ) {ys : List ℕ} → pick_lowest s xs ≡ ok (ys, t) → Rotated s t
unfolding pick_lowest
pick_lowest-Rotated s t [] e = (s.lowest_priority_offset, cc)
pick_lowest-Rotated s t (x ∷ xs) e =
    let (_, _, last) =
      bind_ok (advance (x ∷ xs) (s.lowest_priority_offset % length (x ∷ xs))) _ e in
    ((s.lowest_priority_offset + 1) % 2 ^ 64, cc)

receivers-Rotated :
    (s t : IoApic) (locals : List LocalApic) (ds : ℕ) (m : Message) {xs : List ℕ}
    → receivers s locals ds m ≡ ok (xs, t)
    → Rotated s t
unfolding receivers
receivers-Rotated s t locals ds m {xs} e = elim (ℕ_discrete m.dest_mode 0) [
  | yes physical ↦ (s.lowest_priority_offset, ground arith)
  | no logical ↦ elim (ℕ_discrete m.delivery_mode lowest_priority) [
    | yes low ↦
        let picked : pick_lowest s (logical_apics ds m.destination locals) ≡ ok (xs, t) =
          ground arith in
        pick_lowest-Rotated s t (logical_apics ds m.destination locals) picked
    | no other ↦ (s.lowest_priority_offset, ground arith)
  ]
]

Rotated-refl : (s : IoApic) → Rotated s s
Rotated-refl s = (s.lowest_priority_offset, refl)

abbrev with_offset : ℕ → IoApic → IoApic
with_offset n s = record s { lowest_priority_offset = n }

Rotated-trans : (s t u : IoApic) → Rotated s t → Rotated t u → Rotated s u
Rotated-trans s t u (m, e) (n, f) = (n, f ∙ ap (with_offset n) e)

deliver-Rotated :
    (s t : IoApic) (locals : List LocalApic) (pic : Option ℕ) (ds entry : ℕ) {sent : List Sending}
    → deliver s locals pic ds entry ≡ ok (sent, t)
    → Rotated s t
unfolding deliver
deliver-Rotated s t locals pic ds entry {sent} e = elim (ℕ_discrete (entry_mask entry) 1) [
  | yes masked ↦ (s.lowest_priority_offset, ground arith)
  | no open_entry ↦
      let send : ℕ → Result (List Sending × IoApic) = λ v.
        receivers s locals ds (message_of entry v) >>= λ r.
        ok ((r.0, message_of entry v) ∷ [], r.1) in
      let sends : (vector_of pic entry >>= send) ≡ ok (sent, t) = ground arith in
      let (v, _, rest) = bind_ok (vector_of pic entry) send sends in
      let (r, got, last) =
        bind_ok (receivers s locals ds (message_of entry v))
          (λ r. ok ((r.0, message_of entry v) ∷ [], r.1)) rest in
      let same : r.1 ≡ t = cc in
      subst (Rotated s) same (receivers-Rotated s r.1 locals ds (message_of entry v) got)
]

signal_interrupt-Rotated :
    (s t : IoApic) (locals : List LocalApic) (pic : Option ℕ) (ds line : ℕ) {sent : List Sending}
    → signal_interrupt s locals pic ds line ≡ ok (sent, t)
    → Rotated s t
unfolding signal_interrupt
signal_interrupt-Rotated s t locals pic ds line e =
    let (_, _, looked) =
      bind_ok (require (ltb line table_size) assertion)
        (λ _. element s.redir_table ds >>= λ table. element table line >>= deliver s locals pic ds)
        e in
    let (table, _, found) =
      bind_ok (element s.redir_table ds) (λ table. element table line >>= deliver s locals pic ds)
        looked in
    let (entry, _, d) = bind_ok (element table line) (deliver s locals pic ds) found in
    deliver-Rotated s t locals pic ds entry d

signal_all-Rotated :
    (s t : IoApic) (locals : List LocalApic) (pic : Option ℕ) (targets : List (ℕ × ℕ))
    {sent : List Sending}
    → signal_all s locals pic targets ≡ ok (sent, t)
    → Rotated s t
unfolding signal_all
signal_all-Rotated s t locals pic [] e = (s.lowest_priority_offset, cc)
signal_all-Rotated s t locals pic ((ds, line) ∷ rest) {sent} e =
    let (r, first, e₁) =
      bind_ok (signal_interrupt s locals pic ds line)
        (λ r. signal_all r.1 locals pic rest >>= λ q. ok (r.0 ++ q.0, q.1)) e in
    let (q, more, e₂) = bind_ok (signal_all r.1 locals pic rest) (λ q. ok (r.0 ++ q.0, q.1)) e₁ in
    let same : q.1 ≡ t = cc in
    Rotated-trans s r.1 t (signal_interrupt-Rotated s r.1 locals pic ds line first)
      (subst (Rotated r.1) same (signal_all-Rotated r.1 q.1 locals pic rest more))

set-set : {A : Type 0} (xs : List A) (i : ℕ) (v : A) → set (set xs i v) i v ≡ set xs i v
set-set [] i v = refl
set-set (x ∷ xs) zero v = refl
set-set (x ∷ xs) (suc i) v = ap (λ ys. x ∷ ys) (set-set xs i v)

-- The pin set, and the offset moved to `n`.
abbrev pub raised : IoApic → ℕ → ℕ → IoApic
raised s number n = record s {
  lowest_priority_offset = n;
  pin_states = set s.pin_states number true;
}

raise_again :
    (s : IoApic) (locals : List LocalApic) (pic : Option ℕ) (targets : List (ℕ × ℕ)) (number n : ℕ)
    → number < table_size
    → length s.pin_states ≡ table_size
    → raise_interrupt_pin (raised s number n) locals pic targets number ≡ ok ([], raised s number n)
unfolding raise_interrupt_pin element
raise_again s locals pic targets number n lt full =
    rw
      (
        lt→ltb number table_size lt,
        get_elem?-set_self s.pin_states number true (omega arith),
        ◌>>=◌,
        ◌>>◌,
        require,
        set-set s.pin_states number true,
      )
      refl

abbrev set_pin : ℕ → IoApic → IoApic
set_pin number s = record s { pin_states = set s.pin_states number true }

signal_unless :
    Bool → IoApic → List LocalApic → Option ℕ → List (ℕ × ℕ) → Result (List Sending × IoApic)
signal_unless pin s locals pic targets = if pin then ok ([], s) else signal_all s locals pic targets

signal_unless-Rotated :
    (pin : Bool) (s t : IoApic) (locals : List LocalApic) (pic : Option ℕ) (targets : List (ℕ × ℕ))
    {sent : List Sending}
    → signal_unless pin s locals pic targets ≡ ok (sent, t)
    → Rotated s t
unfolding signal_unless
signal_unless-Rotated true s t locals pic targets e = (s.lowest_priority_offset, cc)
signal_unless-Rotated false s t locals pic targets e = signal_all-Rotated s t locals pic targets e

raise_lem :
    (s t : IoApic) (locals : List LocalApic) (pic : Option ℕ) (targets : List (ℕ × ℕ)) (number : ℕ)
    {sent : List Sending}
    → raise_interrupt_pin s locals pic targets number ≡ ok (sent, t)
    → (number < table_size) × ((n : ℕ) × (t ≡ raised s number n))
unfolding raise_interrupt_pin signal_unless
raise_lem s t locals pic targets number {sent} e =
    let last : List Sending × IoApic → Result (List Sending × IoApic) =
      λ r. ok (r.0, set_pin number r.1) in
    let (_, req, e₁) =
      bind_ok (require (ltb number table_size) assertion)
        (λ _.
          element s.pin_states number >>= λ pin. signal_unless pin s locals pic targets >>= last)
        e in
    let (pin, _, e₂) =
      bind_ok (element s.pin_states number) (λ pin. signal_unless pin s locals pic targets >>= last)
        e₁ in
    let (r, got, e₃) = bind_ok (signal_unless pin s locals pic targets) last e₂ in
    let (n, moved) = signal_unless-Rotated pin s r.1 locals pic targets got in
    let end : set_pin number r.1 ≡ t = cc in
    (ground arith, (n, sym end ∙ ap (set_pin number) moved))

abbrev pub lowered : IoApic → ℕ → IoApic
lowered s number = record s { pin_states = set s.pin_states number false }

lower_lem :
    (s : IoApic) (number : ℕ)
    → number < table_size
    → length s.pin_states ≡ table_size
    → lower_interrupt_pin s number ≡ ok (lowered s number)
unfolding lower_interrupt_pin element
lower_lem s number lt full =
    let (pin, at) = get_elem?-lt s.pin_states number (omega arith) in
    rw (lt→ltb number table_size lt, at, ◌>>=◌, ◌>>◌, require) refl

-- A raise sends what the targets' interrupts send.
abbrev pub IsFresh : List LocalApic → Option ℕ → List (ℕ × ℕ) → ℕ → IoApic → Type 0
IsFresh locals pic others number u =
    raise_interrupt_pin u locals pic others number
    ≡ (signal_all u locals pic others >>= λ r. ok (r.0, set_pin number r.1))

raise_lowered :
    (s : IoApic) (locals : List LocalApic) (pic : Option ℕ) (others : List (ℕ × ℕ)) (number : ℕ)
    → number < table_size
    → length s.pin_states ≡ table_size
    → IsFresh locals pic others number (lowered s number)
unfolding raise_interrupt_pin element
raise_lowered s locals pic others number lt full =
    rw
      (
        lt→ltb number table_size lt,
        get_elem?-set_self s.pin_states number false (omega arith),
        ◌>>=◌,
        ◌>>◌,
        require,
      )
      refl

-- On an I/O APIC with its 24 pins, a raise of a pin that succeeds sets the pin, and beyond that
-- moves only the offset of the lowest priority mode. As long as the pin stays up, raising it
-- again sends nothing, whatever guests the control plane lists; once it is lowered, a raise sends
-- what its targets' interrupts send.
pub raise_interrupt_pin-edge :
    (s t : IoApic) (locals : List LocalApic) (pic : Option ℕ) (targets : List (ℕ × ℕ)) (number : ℕ)
    {sent : List Sending}
    → length s.pin_states ≡ table_size
    → raise_interrupt_pin s locals pic targets number ≡ ok (sent, t)
    → ((n : ℕ) × (t ≡ raised s number n))
      × ((others : List (ℕ × ℕ)) → raise_interrupt_pin t locals pic others number ≡ ok ([], t))
      × (lower_interrupt_pin t number ≡ ok (lowered t number))
      × ((others : List (ℕ × ℕ)) → IsFresh locals pic others number (lowered t number))
raise_interrupt_pin-edge s t locals pic targets number full e =
    let (lt, (n, same)) = raise_lem s t locals pic targets number e in
    let still : length t.pin_states ≡ table_size =
      rw same (length-set s.pin_states number true ∙ full) in
    (
      (n, same),
      λ others. rw same (raise_again s locals pic others number n lt full),
      lower_lem t number lt still,
      λ others. raise_lowered t locals pic others number lt still,
    )
