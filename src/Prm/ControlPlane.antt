-- ===== src/Prm/ControlPlane.antt =====
-- prm/ControlPlane.hh and prm/interfaces.hh: what a connector asks of a control plane and of a
-- command handler, and the laws that a control plane with tables keeps.
use pard_gem.Prelude.{ℕ, ◌≡◌, ◌<◌, ◌^◌, Bool, Result, ok}

-- A control plane: its state, and the two virtual methods of class ControlPlane.
pub record ControlPlane : Type 1 where
  pub State : Type 0
  pub query_table : State → ℕ → ℕ → Result ℕ
  pub update_table : State → ℕ → ℕ → ℕ → Result State

-- ICommandHandler::handleCommand: command, DSid, address and data, over the state that the handler
-- may change.
abbrev pub Handler : Type 0 → Type 0
Handler S = ℕ → ℕ → ℕ → ℕ → S → Result (Bool × S)

-- The contract of a table: at an address that the plane knows, a query succeeds, an update
-- succeeds, and a query after it gives the 64-bit word back.
pub record IsTable (cp : ControlPlane) (Valid : cp.State → Type 0) (Known : cp.State → ℕ → Type 0)
    : Type 0 where
  pub answers :
      (s : cp.State) (ds addr : ℕ)
      → Valid s
      → Known s addr
      → (v : ℕ) × (cp.query_table s ds addr ≡ ok v)
  pub accepts :
      (s : cp.State) (ds addr v : ℕ)
      → Valid s
      → Known s addr
      → (t : cp.State) × (cp.update_table s ds addr v ≡ ok t) × Valid t
  pub reads_back :
      (s t : cp.State) (ds ds' addr v : ℕ)
      → Valid s
      → Known s addr
      → v < 2 ^ 64
      → cp.update_table s ds addr v ≡ ok t
      → cp.query_table t ds' addr ≡ ok v
