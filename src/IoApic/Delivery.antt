-- ===== src/IoApic/Delivery.antt =====
-- How dev/cellx/i82094ax.cc delivers an interrupt: the pins, the control plane's list of guests and
-- lines, and the local APICs that receive the message.
use pard_gem.Prelude.{
  ℕ, zero, suc, ◌+◌, ◌/◌, ◌%◌, ◌^◌, bit_and, Bool, true, false, not, ◌&&◌, List, [], ◌∷◌, ◌++◌,
  Option, none, some, ◌==◌, ltb, if◌then◌else◌, Result, ok, fault, assertion, panic, ◌>>=◌, ◌>>◌,
  require, length, set,
}
use pard_gem.IoApic.{
  IoApic, table_size, element, entry_dest, entry_mask, entry_trigger, entry_polarity,
  entry_dest_mode, entry_delivery_mode, entry_vector,
}

-- gem5's delivery modes.
abbrev pub lowest_priority : ℕ
lowest_priority = 1

abbrev pub ext_int : ℕ
ext_int = 7

-- TriggerIntMessage.
pub record Message : Type 0 where
  pub destination : ℕ
  pub vector : ℕ
  pub delivery_mode : ℕ
  pub dest_mode : ℕ
  pub level : ℕ
  pub trigger : ℕ

-- A context's local APIC, by what `signalInterrupt` asks of it.
pub record LocalApic : Type 0 where
  pub ds_id : ℕ
  pub logical_destination : ℕ
  pub initial_apic_id : ℕ

-- The contexts with a local APIC of the guest that the destination selects.
abbrev pub selects : ℕ → ℕ → LocalApic → Bool
selects ds dest a = a.ds_id == ds && not (bit_and (a.logical_destination / 2 ^ 24) dest == 0)

unfoldable pub logical_apics : ℕ → ℕ → List LocalApic → List ℕ
logical_apics ds dest [] = []
logical_apics ds dest (a ∷ rest) =
    let later = logical_apics ds dest rest in
    if selects ds dest a then a.initial_apic_id ∷ later else later

-- The contexts' numbers, from `i` on.
unfoldable pub all_contexts : ℕ → List LocalApic → List ℕ
all_contexts i [] = []
all_contexts i (a ∷ rest) = i ∷ all_contexts (suc i) rest

-- The walk of `modOffset` steps through the list, which asserts that it stays inside.
unfoldable pub advance : List ℕ → ℕ → Result ℕ
advance [] n = fault assertion
advance (a ∷ rest) zero = ok a
advance (a ∷ rest) (suc n) = advance rest n

-- A message that `sendMessage` sends, and its receivers.
abbrev pub Sending : Type 0
Sending = List ℕ × Message

unfoldable pub pick_lowest : IoApic → List ℕ → Result (List ℕ × IoApic)
pick_lowest s [] = ok ([], s)
pick_lowest s (a ∷ rest) = do
  selected ← advance (a ∷ rest) (s.lowest_priority_offset % length (a ∷ rest))
  ok (selected ∷ [], record s { lowest_priority_offset = (s.lowest_priority_offset + 1) % 2 ^ 64 })

unfoldable pub receivers : IoApic → List LocalApic → ℕ → Message → Result (List ℕ × IoApic)
receivers s locals ds m =
    if m.dest_mode == 0
    then (if m.delivery_mode == lowest_priority
        then fault panic
        else if m.destination == 0xff
        then ok (all_contexts 0 locals, s)
        else ok (m.destination ∷ [], s))
    else if m.delivery_mode == lowest_priority
    then pick_lowest s (logical_apics ds m.destination locals)
    else ok (logical_apics ds m.destination locals, s)

-- `extIntPic->getVector()`, where there is such a controller.
unfoldable pub vector_of : Option ℕ → ℕ → Result ℕ
vector_of pic e =
    if entry_delivery_mode e == ext_int
    then elim pic [ none ↦ fault assertion | some v ↦ ok v ]
    else ok (entry_vector e)

unfoldable pub message_of : ℕ → ℕ → Message
message_of e vector = record {
  destination = entry_dest e;
  vector = vector;
  delivery_mode = entry_delivery_mode e;
  dest_mode = entry_dest_mode e;
  level = entry_polarity e;
  trigger = entry_trigger e;
}

unfoldable pub deliver : IoApic → List LocalApic → Option ℕ → ℕ → ℕ → Result (List Sending × IoApic)
deliver s locals pic ds e =
    if entry_mask e == 1
    then ok ([], s)
    else (vector_of pic e >>= λ v.
        receivers s locals ds (message_of e v) >>= λ r. ok ((r.0, message_of e v) ∷ [], r.1))

-- `signalInterrupt(DSid, line)`: what it sends.
unfoldable pub signal_interrupt :
    IoApic → List LocalApic → Option ℕ → ℕ → ℕ → Result (List Sending × IoApic)
signal_interrupt s locals pic ds line = do
  require (ltb line table_size) assertion
  table ← element s.redir_table ds
  e ← element table line
  deliver s locals pic ds e

-- `signalInterrupt(line)`, over the guests and lines that the control plane lists.
unfoldable pub signal_all :
    IoApic → List LocalApic → Option ℕ → List (ℕ × ℕ) → Result (List Sending × IoApic)
signal_all s locals pic [] = ok ([], s)
signal_all s locals pic ((ds, line) ∷ rest) = signal_interrupt s locals pic ds line >>= λ r.
    signal_all r.1 locals pic rest >>= λ q. ok (r.0 ++ q.0, q.1)

unfoldable pub raise_interrupt_pin :
    IoApic → List LocalApic → Option ℕ → List (ℕ × ℕ) → ℕ → Result (List Sending × IoApic)
raise_interrupt_pin s locals pic targets number = do
  require (ltb number table_size) assertion
  pin ← element s.pin_states number
  r ← if pin then ok ([], s) else signal_all s locals pic targets
  ok (r.0, record r.1 { pin_states = set r.1.pin_states number true })

unfoldable pub lower_interrupt_pin : IoApic → ℕ → Result IoApic
lower_interrupt_pin s number = do
  require (ltb number table_size) assertion
  pin ← element s.pin_states number
  ok (record s { pin_states = set s.pin_states number false })
