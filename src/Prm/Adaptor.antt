-- ===== src/Prm/Adaptor.antt =====
-- prm/CPAdaptor.cc: the PCI device that turns the manager's accesses into packets of the
-- control-plane network.
use pard_gem.Prelude.{
  ℕ, ◌+◌, ◌*◌, ◌%◌, ◌^◌, ◌≤◌, ◌<◌, ◌≡◌, refl, true, false, ◌==◌, List, [], ◌∷◌, if◌then◌else◌,
  Option, none, some, Result, ok, fault, assertion, panic, ◌>>=◌, ◌>>◌, require, arith, ◌≢◌, length,
}
use pard_gem.Prm.Connector.{
  Direction, read, Access, Connector, is_size, is_register, offset_of, transfer, special,
  recv_atomic, cp_cmd,
}
use pard_gem.Prm.ControlPlane.{ControlPlane}
use pard_gem.Prm.Protocol.{offset_of-register}
use pard_gem.Bytes.{word_at, load_in}

-- `cpRegisterMap`, offset and size of each register.
abbrev pub cp_register_map : List (ℕ × ℕ)
cp_register_map =
    (0, 4) ∷ (4, 4) ∷ (8, 8) ∷ (0x10, 1) ∷ (0x11, 1) ∷ (0x12, 2) ∷ (0x14, 4) ∷ (0x18, 8) ∷ []

-- The command register, whose bits 9 to 0 are `selectCP`.
pub record Adaptor : Type 0 where
  pub command : ℕ

abbrev pub select_cp : Adaptor → ℕ
select_cp a = a.command % 2 ^ 10

-- The first register of the map at the offset must have the access's size.
unfoldable pub check_register : List (ℕ × ℕ) → ℕ → ℕ → Result (Unit {0})
check_register [] offset size = fault panic
check_register ((base, width) ∷ rest) offset size =
    let later = check_register rest offset size in
    if offset == base then require (size == width) panic else later

-- The number that a read returns, and the adaptor.
unfoldable pub access_command : ℕ → ℕ → ℕ → Direction → Adaptor → Result (ℕ × Adaptor)
access_command offset size v d a =
    if offset == 0 then require (size == 4) assertion >> ok (moved d) else fault panic
  where
    moved : Direction → ℕ × Adaptor
    moved read = (a.command, a)
    moved _ = (v, record { command = v })

-- `N` is the state of the network behind the master port, and `send` its `sendAtomic`.
module _ (N : Type 0) (send : Access → N → Result (ℕ × N)) where
  unfoldable pub access_data : ℕ → ℕ → ℕ → Direction → Adaptor → N → Result (ℕ × N)
  access_data offset size v d a n = do
    check_register cp_register_map offset size
    send (record { addr = select_cp a * 32 + offset; size = size; direction = d; data_word = v }) n

  unfoldable pub access_bar : ℕ → ℕ → ℕ → ℕ → Direction → Adaptor → N → Result (ℕ × Adaptor × N)
  access_bar bar addr size v d a n =
      if bar == 0
      then (access_command addr size v d a >>= λ r. ok (r.0, r.1, n))
      else if bar == 1
      then (access_data addr size v d a n >>= λ r. ok (r.0, a, r.1))
      else fault panic

  -- `getBAR` of the PCI device has found the bar and the offset in it, `none` for no bar.
  unfoldable pub dispatch_access :
      Option (ℕ × ℕ) → ℕ → ℕ → Direction → Adaptor → N → Result (ℕ × Adaptor × N)
  dispatch_access none size v d a n = fault panic
  dispatch_access (some (bar, addr)) size v d a n =
      require (is_size size) panic >> access_bar bar addr size v d a n

-- A register of the map passes the assertions of the connector that it is sent to.
check_register-map :
    (offset size : ℕ)
    → check_register cp_register_map offset size ≡ ok tt
    → (is_register offset ≡ true) × (is_size size ≡ true) × (offset + size ≤ 32) × (offset < 32)
unfolding check_register is_register is_size
check_register-map offset size e = ground arith

module _ (plane : ControlPlane) where
  -- The network of one connector, whose latency the adaptor drops.
  unfoldable pub to_connector : Access → Connector plane.State → Result (ℕ × Connector plane.State)
  to_connector p c = recv_atomic plane p c >>= λ r. ok (r.1, r.2)

  -- Through bar 1, a read of any register of the map other than the command, with the size that the
  -- map gives it, returns the word in the selected connector's registers and changes nothing.
  pub dispatch_access-read :
      (a : Adaptor) (c : Connector plane.State) (offset size v : ℕ)
      → length c.regs ≡ 32
      → c.cp_dev_id ≡ select_cp a
      → check_register cp_register_map offset size ≡ ok tt
      → offset ≢ cp_cmd
      → dispatch_access (Connector plane.State) to_connector (some (1, offset)) size v read a c
        ≡ ok (word_at size c.regs offset, a, c)
  unfolding dispatch_access access_bar access_data to_connector recv_atomic transfer special
  dispatch_access-read a c offset size v l dev e ne =
      let (reg, fit, inside, low) = check_register-map offset size e in
      let here : offset_of c.cp_dev_id (select_cp a * 32 + offset) ≡ offset =
        rw dev (offset_of-register (select_cp a) offset (omega arith) low) in
      let other : (offset == cp_cmd) ≡ false = ground arith in
      rw (fit, e, here, reg, load_in size c.regs offset (omega arith), ◌>>=◌, ◌>>◌, require, other)
        refl
