-- ===== src/Mem/Packet.antt =====
-- gem5's packet, as far as the components read and write it: the fields behind its getters and
-- setters, the DSid that patch/patch.stable_2014_12_14 adds, and the stack of sender states.
use pard_gem.Prelude.{
  ℕ, Bool, true, false, not, ◌&&◌, List, [], ◌∷◌, Option, none, some, Result, ok, fault, assertion,
}

-- A state that a component pushes on a request, to find on the response. The constructor is the
-- class that `dynamic_cast` tests; `foreign_state` stands for the classes of gem5 itself.
pub data SenderState : Type 0 where
  tag_bridge_state x_bridge_state : ℕ → SenderState
  mapper_state : ℕ → SenderState
  mem_ctrl_state : ℕ → ℕ → SenderState
  tag_xbar_state : ℕ → SenderState
  foreign_state : ℕ → SenderState

-- `src` and `dest` are port numbers. `ds_id` is `none` while the flag VALID_DSID is clear.
pub record Packet : Type 0 where
  pub addr : ℕ
  pub src : ℕ
  pub dest : ℕ
  pub ds_id : Option ℕ
  pub needs_response : Bool
  pub mem_inhibit : Bool
  pub first_word_delay : ℕ
  pub last_word_delay : ℕ
  pub sender_state : List SenderState

abbrev pub has_ds_id : Packet → Bool
has_ds_id p = elim p.ds_id [ none ↦ false | some _ ↦ true ]

-- `getDSid` asserts that the flag is set.
abbrev pub get_ds_id : Packet → Result ℕ
get_ds_id p = elim p.ds_id [ none ↦ fault assertion | some d ↦ ok d ]

abbrev pub set_ds_id : Packet → ℕ → Packet
set_ds_id p d = record p { ds_id = some d }

abbrev pub push_state : Packet → SenderState → Packet
push_state p s = record p { sender_state = s ∷ p.sender_state }

-- The top state and the packet without it; popping from an empty stack is an assertion of gem5's.
abbrev pub pop_state : Packet → Result (SenderState × Packet)
pop_state p = elim p.sender_state [
  | [] ↦ fault assertion
  | s ∷ rest ↦ ok (s, record p { sender_state = rest })
]

-- `pkt->firstWordDelay = pkt->lastWordDelay = 0`
abbrev pub clear_delays : Packet → Packet
clear_delays p = record p { first_word_delay = 0; last_word_delay = 0 }

-- `pkt->needsResponse() && !pkt->memInhibitAsserted()`
abbrev pub expects_response : Packet → Bool
expects_response p = p.needs_response && not p.mem_inhibit
