-- ===== src/IchCp/Lines.antt =====
-- An interrupt line from the pin of dev/cellx/i82094ax.cc through the table of
-- dev/cellx/ich_cp.cc to the local APICs.
use pard_gem.Prelude.{
  ℕ, zero, suc, ◌<◌, ◌≡◌, ◌≢◌, inl, inr, refl, subst, sym, Bool, true, false, List, [], ◌∷◌, ◌++◌,
  Option, some, arith, if◌then◌else◌, ltb, Result, ok, assertion, ◌>>=◌, require, bind_ok,
  get_elem?, set, get_elem?-append,
}
use pard_gem.IchCp.{IchCp, row_ds_id, remap_interrupt}
use pard_gem.IchCp.Interrupts.{Routes, targets_from_sound}
use pard_gem.IoApic.{IoApic, element, table_size}
use pard_gem.IoApic.Delivery.{
  LocalApic, Message, Sending, signal_interrupt, signal_all, raise_interrupt_pin,
}
use pard_gem.IoApic.Isolation.{IsOfGuest, signal_interrupt-IsOfGuest}

-- A guest of the targets owns the local APIC.
abbrev IsOfTarget : List (ℕ × ℕ) → List LocalApic → ℕ → Type 0
IsOfTarget targets locals a =
    (n : ℕ) × (ds : ℕ) × (line : ℕ) × (get_elem? targets n ≡ some (ds, line))
    × IsOfGuest ds locals a

no_sending : (k : ℕ) {x : Sending} → get_elem? [] k ≡ some x → ⊥
no_sending k e = cc

signal_all-IsOfTarget :
    (s t : IoApic) (locals : List LocalApic) (pic : Option ℕ) (targets : List (ℕ × ℕ))
    (sent : List Sending) (k j : ℕ) {apics : List ℕ} {m : Message} {a : ℕ}
    → signal_all s locals pic targets ≡ ok (sent, t)
    → get_elem? sent k ≡ some (apics, m)
    → m.dest_mode ≢ 0
    → get_elem? apics j ≡ some a
    → IsOfTarget targets locals a
unfolding signal_all
signal_all-IsOfTarget s t locals pic [] sent k j {apics} {m} e at logical h =
    let empty : [] ≡ sent = cc in
    absurd (no_sending k (subst (λ xs. get_elem? xs k ≡ some (apics, m)) (sym empty) at))
signal_all-IsOfTarget s t locals pic ((ds, line) ∷ rest) sent k j {apics} {m} {a} e at logical h =
    let (r, first, e₁) =
      bind_ok (signal_interrupt s locals pic ds line)
        (λ r. signal_all r.1 locals pic rest >>= λ q. ok (r.0 ++ q.0, q.1)) e in
    let (q, more, e₂) = bind_ok (signal_all r.1 locals pic rest) (λ q. ok (r.0 ++ q.0, q.1)) e₁ in
    let same : r.0 ++ q.0 ≡ sent = cc in
    elim (get_elem?-append r.0 q.0 k
      (subst (λ xs. get_elem? xs k ≡ some (apics, m)) (sym same) at)) [
        | inl here ↦ (
          zero,
          ds,
          line,
          refl,
          signal_interrupt-IsOfGuest s r.1 locals pic ds line r.0 k j first here logical h,
        )
        | inr (i, there) ↦
            let (n, ds', line', elem, own) =
              signal_all-IsOfTarget r.1 q.1 locals pic rest q.0 i j more there logical h in
            (suc n, ds', line', elem, own)
      ]

-- A raise that sends anything sends what its targets' interrupts send.
raise-signal_all :
    (s t : IoApic) (locals : List LocalApic) (pic : Option ℕ) (targets : List (ℕ × ℕ)) (number : ℕ)
    (sent : List Sending) (k : ℕ) {x : Sending}
    → raise_interrupt_pin s locals pic targets number ≡ ok (sent, t)
    → get_elem? sent k ≡ some x
    → (u : IoApic) × (signal_all s locals pic targets ≡ ok (sent, u))
unfolding raise_interrupt_pin
raise-signal_all s t locals pic targets number sent k {x} e at =
    let last : List Sending × IoApic → Result (List Sending × IoApic) =
      λ r. ok (r.0, record r.1 { pin_states = set r.1.pin_states number true }) in
    let send : Bool → Result (List Sending × IoApic) =
      λ pin. if pin then ok ([], s) else signal_all s locals pic targets in
    let (_, _, e₁) =
      bind_ok (require (ltb number table_size) assertion)
        (λ _. element s.pin_states number >>= λ pin. send pin >>= last) e in
    let (pin, _, e₂) = bind_ok (element s.pin_states number) (λ pin. send pin >>= last) e₁ in
    let (r, got, e₃) = bind_ok (send pin) last e₂ in
    let sends : r.0 ≡ sent = cc in go pin r got sends
  where
    go :
        (b : Bool) (r : List Sending × IoApic)
        → (if b then ok ([], s) else signal_all s locals pic targets) ≡ ok r
        → r.0 ≡ sent
        → (u : IoApic) × (signal_all s locals pic targets ≡ ok (sent, u))
    go true r got sends =
        let empty : [] ≡ sent = cc in
        absurd (no_sending k (subst (λ xs. get_elem? xs k ≡ some x) (sym empty) at))
    go false r got sends = (r.1, rw (← sends) got)

raise-IsOfTarget :
    (s t : IoApic) (locals : List LocalApic) (pic : Option ℕ) (targets : List (ℕ × ℕ)) (number : ℕ)
    (sent : List Sending) (k j : ℕ) {apics : List ℕ} {m : Message} {a : ℕ}
    → raise_interrupt_pin s locals pic targets number ≡ ok (sent, t)
    → get_elem? sent k ≡ some (apics, m)
    → m.dest_mode ≢ 0
    → get_elem? apics j ≡ some a
    → IsOfTarget targets locals a
raise-IsOfTarget s t locals pic targets number sent k j {apics} {m} {a} e at logical h =
    let (u, all) = raise-signal_all s t locals pic targets number sent k e at in
    signal_all-IsOfTarget s u locals pic targets sent k j all at logical h

-- Raising a pin with the targets that the south bridge's control plane lists for it: a message in
-- logical destination mode reaches only local APICs of a domain that has a row in the plane's table
-- whose entry for the line is not -1.
pub raise_interrupt_pin-Routes :
    (plane : IchCp) (s t : IoApic) (locals : List LocalApic) (pic : Option ℕ)
    (targets : List (ℕ × ℕ)) (number : ℕ) (sent : List Sending) (k j : ℕ) {apics : List ℕ}
    {m : Message} {a : ℕ}
    → remap_interrupt plane number ≡ ok targets
    → raise_interrupt_pin s locals pic targets number ≡ ok (sent, t)
    → get_elem? sent k ≡ some (apics, m)
    → m.dest_mode ≢ 0
    → get_elem? apics j ≡ some a
    → (row : ℕ) × (row < plane.param_table_entries)
      × ((l : ℕ) × Routes plane number row l)
      × IsOfGuest (row_ds_id plane row) locals a
unfolding remap_interrupt
raise_interrupt_pin-Routes plane s t locals pic targets number sent k j {apics} {m} {a} listed e at
      logical h =
    let (n, ds, l, elem, own) =
      raise-IsOfTarget s t locals pic targets number sent k j e at logical h in
    let (row, inside, same, routes) =
      targets_from_sound plane number plane.param_table_entries 0 n listed elem in
    (row, omega arith, (l, routes), subst (λ d. IsOfGuest d locals a) (sym same) own)
