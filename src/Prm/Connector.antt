-- ===== src/Prm/Connector.antt =====
-- prm/CPConnector.cc and CPConnector.hh: the registers through which the manager reaches one
-- control plane over the control-plane network.
use pard_gem.Prelude.{
  ℕ, ◌+◌, ◌-◌, ◌*◌, ◌%◌, ◌^◌, Bool, false, ◌||◌, Option, none, some, ◌==◌, if◌then◌else◌, Result,
  ok, fault, assertion, panic, null_pointer, ◌>>=◌, ◌>>◌, require,
}
use pard_gem.Bytes.{Block, word_at, load, store}
use pard_gem.Prm.ControlPlane.{ControlPlane, Handler}

-- Offsets in `struct CPConnRegs`, which has 32 bytes.
abbrev pub cp_ident : ℕ
cp_ident = 4

abbrev pub cp_ident_high : ℕ
cp_ident_high = 8

abbrev pub cp_cmd : ℕ
cp_cmd = 16

abbrev pub cp_state : ℕ
cp_state = 17

abbrev pub cp_ldom_id : ℕ
cp_ldom_id = 18

abbrev pub cp_dest_addr : ℕ
cp_dest_addr = 20

abbrev pub cp_data : ℕ
cp_data = 24

-- The commands 'G' and 'S', and what the register holds after an unknown one.
abbrev pub get_command : ℕ
get_command = 0x47

abbrev pub set_command : ℕ
set_command = 0x53

abbrev pub no_command : ℕ
no_command = 0xff

-- What `recvAtomic` reads of a packet: `data` is the number in its `size` bytes, which a read
-- replaces.
pub data Direction : Type 0 where
  read write other : Direction

pub record Access : Type 0 where
  pub addr : ℕ
  pub size : ℕ
  pub direction : Direction
  pub data_word : ℕ

-- `S` is the state of the control plane behind `cp`, `none` stands for NULL.
pub record Connector (S : Type 0) : Type 0 where
  pub regs : Block
  pub cp_dev_id : ℕ
  pub cp : Option S
  pub cmd_handler : Option (Handler (Option S))

-- `assert(!cp)`: a connector serves one control plane,
pub register_control_plane : {S : Type 0} → Connector S → S → Result (Connector S)
register_control_plane {S = S} c s = register_in c c.cp
  where
    register_in : Connector S → Option S → Result (Connector S)
    register_in c none = ok (record c { cp = some s })
    register_in c (some _) = fault assertion

-- and one command handler.
pub register_command_handler :
    {S : Type 0} → Connector S → Handler (Option S) → Result (Connector S)
register_command_handler {S = S} c h = register_in c c.cmd_handler
  where
    register_in : Connector S → Option (Handler (Option S)) → Result (Connector S)
    register_in c none = ok (record c { cmd_handler = some h })
    register_in c (some _) = fault assertion

-- `pkt->getAddr() - cpDevID*32` in 64 bits, for a `cpDevID*32` that is an `int` of 0 or more.
unfoldable pub offset_of : ℕ → ℕ → ℕ
offset_of dev addr = (addr + (2 ^ 64 - dev * 32)) % 2 ^ 64

unfoldable pub is_register : ℕ → Bool
is_register i =
    i == 0
    || i == cp_ident
    || i == cp_ident_high
    || i == cp_cmd
    || i == cp_state
    || i == cp_ldom_id
    || i == cp_dest_addr
    || i == cp_data

unfoldable pub is_size : ℕ → Bool
is_size n = n == 1 || n == 2 || n == 4 || n == 8

-- The two `memcpy` between the packet and the registers: the packet's bytes after it, and the
-- registers.
unfoldable pub transfer : Access → ℕ → Block → Result (ℕ × Block)
transfer a offset regs = move a.direction
  where
    move : Direction → Result (ℕ × Block)
    move read = do v ← load a.size regs offset; ok (v, regs)
    move write = do r ← store a.size regs offset a.data_word; ok (a.data_word, r)
    move other = fault panic

module _ (plane : ControlPlane) where
  -- `cp->…`.
  unfoldable pub the_plane : Option plane.State → Result plane.State
  the_plane none = fault null_pointer
  the_plane (some s) = ok s

  unfoldable pub command_get : Connector plane.State → Result (Connector plane.State)
  command_get c = do
    s ← the_plane c.cp
    v ← plane.query_table s (word_at 2 c.regs cp_ldom_id) (word_at 4 c.regs cp_dest_addr)
    r ← store 8 c.regs cp_data v
    ok (record c { regs = r })

  unfoldable pub command_set : Connector plane.State → Result (Connector plane.State)
  command_set c = do
    s ← the_plane c.cp
    t ←
        plane.update_table s (word_at 2 c.regs cp_ldom_id) (word_at 4 c.regs cp_dest_addr)
          (word_at 8 c.regs cp_data)
    ok (record c { cp = some t })

  unfoldable pub handled :
      Connector plane.State
      → Option (Handler (Option plane.State))
      → Result (Bool × Connector plane.State)
  handled c none = ok (false, c)
  handled c (some h) = do
    (b, t) ←
        h (word_at 1 c.regs cp_cmd) (word_at 2 c.regs cp_ldom_id) (word_at 4 c.regs cp_dest_addr)
          (word_at 8 c.regs cp_data) c.cp
    ok (b, record c { cp = t })

  unfoldable pub refuse : Connector plane.State → Result (Connector plane.State)
  refuse c = do r ← store 1 c.regs cp_cmd no_command; ok (record c { regs = r })

  unfoldable pub command_other : Connector plane.State → Result (Connector plane.State)
  command_other c = do (b, d) ← handled c c.cmd_handler; if b then ok d else refuse d

  unfoldable pub run_command : Connector plane.State → Result (Connector plane.State)
  run_command c =
      if word_at 1 c.regs cp_cmd == get_command
      then command_get c
      else if word_at 1 c.regs cp_cmd == set_command
      then command_set c
      else command_other c

  -- The latency in ticks, the packet's data, and the connector.
  unfoldable pub special : ℕ → ℕ → Connector plane.State → Result (ℕ × ℕ × Connector plane.State)
  special offset v c =
      if offset == cp_cmd then (run_command c >>= λ d. ok (3, v, d)) else ok (1, v, c)

  unfoldable pub recv_atomic :
      Access → Connector plane.State → Result (ℕ × ℕ × Connector plane.State)
  recv_atomic a c = do
    require (is_register (offset_of c.cp_dev_id a.addr)) assertion
    require (is_size a.size) assertion
    (v, r) ← transfer a (offset_of c.cp_dev_id a.addr) c.regs
    special (offset_of c.cp_dev_id a.addr) v (record c { regs = r })
