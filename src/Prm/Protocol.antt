-- ===== src/Prm/Protocol.antt =====
-- How the manager programs a control plane through the registers of prm/CPConnector.cc: the row's
-- DSid, its address and the word are written, then the command.
use pard_gem.Prelude.{
  ℕ, ◌+◌, ◌*◌, ◌^◌, ◌≤◌, ◌<◌, ◌≡◌, refl, ◌∙◌, true, false, some, arith, ◌==◌, Result, ok, fault,
  ◌>>=◌, ◌>>◌, require, length,
}
use pard_gem.Bytes.{word_at, put_at, store-put_at, load_in, length-put_at}
use pard_gem.Prm.ControlPlane.{ControlPlane}
use pard_gem.Prm.Connector.{
  cp_cmd, cp_ldom_id, cp_dest_addr, cp_data, get_command, set_command, read, write, Connector,
  offset_of, is_register, is_size, transfer, the_plane, command_get, command_set, run_command,
  special, recv_atomic,
}

pub offset_of-register :
    (dev i : ℕ) → dev * 32 + 32 ≤ 2 ^ 64 → i < 32 → offset_of dev (dev * 32 + i) ≡ i
unfolding offset_of
offset_of-register dev i h lt = omega arith

module _ (plane : ControlPlane) where
  -- A connector with its control plane in place.
  pub record IsReady (c : Connector plane.State) (s : plane.State) : Type 0 where
    pub regs : length c.regs ≡ 32
    pub dev : c.cp_dev_id * 32 + 32 ≤ 2 ^ 64
    pub cp : c.cp ≡ some s

  abbrev pub write_reg : ℕ → ℕ → ℕ → Connector plane.State → Result (Connector plane.State)
  write_reg i n v c = do
    (_, _, d) ←
        recv_atomic plane
          (record { addr = c.cp_dev_id * 32 + i; size = n; direction = write; data_word = v }) c
    ok d

  abbrev pub read_reg : ℕ → ℕ → Connector plane.State → Result (ℕ × Connector plane.State)
  read_reg i n c = do
    (_, v, d) ←
        recv_atomic plane
          (record { addr = c.cp_dev_id * 32 + i; size = n; direction = read; data_word = 0 }) c
    ok (v, d)

  unfoldable pub select_row : ℕ → ℕ → Connector plane.State → Result (Connector plane.State)
  select_row ds addr c = do c1 ← write_reg cp_ldom_id 2 ds c; write_reg cp_dest_addr 4 addr c1

  unfoldable pub set_row : ℕ → ℕ → ℕ → Connector plane.State → Result (Connector plane.State)
  set_row ds addr v c = do
    c1 ← select_row ds addr c
    c2 ← write_reg cp_data 8 v c1
    write_reg cp_cmd 1 set_command c2

  unfoldable pub get_row : ℕ → ℕ → Connector plane.State → Result (ℕ × Connector plane.State)
  get_row ds addr c = do
    c1 ← select_row ds addr c
    c2 ← write_reg cp_cmd 1 get_command c1
    read_reg cp_data 8 c2

  abbrev pub put_reg : ℕ → ℕ → ℕ → Connector plane.State → Connector plane.State
  put_reg i n v c = record c { regs = put_at n c.regs i v }

  pub put_reg-IsReady :
      (c : Connector plane.State) (s : plane.State) (i n v : ℕ)
      → IsReady c s
      → IsReady (put_reg i n v c) s
  put_reg-IsReady c s i n v r = record {
    regs = length-put_at n c.regs i v ∙ r.regs;
    dev = r.dev;
    cp = r.cp;
  }

  -- A write of a register other than the command only stores the word.
  pub write_reg_lem :
      (c : Connector plane.State) (s : plane.State) (i n v : ℕ)
      → IsReady c s
      → is_register i ≡ true
      → is_size n ≡ true
      → i + n ≤ 32
      → i < 32
      → (i == cp_cmd) ≡ false
      → write_reg i n v c ≡ ok (put_reg i n v c)
  unfolding recv_atomic transfer special
  write_reg_lem c s i n v r a b le lt other =
      rw
        (
          offset_of-register c.cp_dev_id i r.dev lt,
          a,
          b,
          store-put_at n c.regs i v (omega arith),
          ◌>>=◌,
          ◌>>◌,
          require,
          other,
        )
        refl

  abbrev pub in_three : ℕ → Connector plane.State → Result (ℕ × ℕ × Connector plane.State)
  in_three v d = ok (3, v, d)

  special-strip :
      (r : Result (Connector plane.State)) (v : ℕ) → ((r >>= in_three v) >>= λ x. ok x.2) ≡ r
  special-strip (ok d) v = refl
  special-strip (fault e) v = refl

  pub write_cmd_lem :
      (c : Connector plane.State) (s : plane.State) (v : ℕ)
      → IsReady c s
      → write_reg cp_cmd 1 v c ≡ run_command plane (put_reg cp_cmd 1 v c)
  unfolding recv_atomic transfer special is_register is_size
  write_cmd_lem c s v r =
      rw
        (
          offset_of-register c.cp_dev_id cp_cmd r.dev (omega arith),
          store-put_at 1 c.regs cp_cmd v (omega arith),
          ◌>>=◌,
          ◌>>◌,
          require,
        )
        (special-strip (run_command plane (put_reg cp_cmd 1 v c)) v)

  pub read_data_lem :
      (c : Connector plane.State) (s : plane.State)
      → IsReady c s
      → read_reg cp_data 8 c ≡ ok (word_at 8 c.regs cp_data, c)
  unfolding recv_atomic transfer special is_register is_size
  read_data_lem c s r =
      rw
        (
          offset_of-register c.cp_dev_id cp_data r.dev (omega arith),
          load_in 8 c.regs cp_data (omega arith),
          ◌>>=◌,
          ◌>>◌,
          require,
        )
        refl

  pub run_command-set :
      (c : Connector plane.State) (s t : plane.State)
      → c.cp ≡ some s
      → word_at 1 c.regs cp_cmd ≡ set_command
      → plane.update_table s
          (word_at 2 c.regs cp_ldom_id)
          (word_at 4 c.regs cp_dest_addr)
          (word_at 8 c.regs cp_data)
        ≡ ok t
      → run_command plane c ≡ ok (record c { cp = some t })
  unfolding run_command command_set the_plane
  run_command-set c s t here cmd e = rw (cmd, here, ◌>>=◌, e) refl

  pub run_command-get :
      (c : Connector plane.State) (s : plane.State) (v : ℕ)
      → IsReady c s
      → word_at 1 c.regs cp_cmd ≡ get_command
      → plane.query_table s (word_at 2 c.regs cp_ldom_id) (word_at 4 c.regs cp_dest_addr) ≡ ok v
      → run_command plane c ≡ ok (put_reg cp_data 8 v c)
  unfolding run_command command_get the_plane
  run_command-get c s v r cmd e =
      rw (cmd, r.cp, ◌>>=◌, e, store-put_at 8 c.regs cp_data v (omega arith)) refl

  -- The registers after the row is selected.
  abbrev pub selected : ℕ → ℕ → Connector plane.State → Connector plane.State
  selected ds addr c = put_reg cp_dest_addr 4 addr (put_reg cp_ldom_id 2 ds c)

  pub select_row_lem :
      (c : Connector plane.State) (s : plane.State) (ds addr : ℕ)
      → IsReady c s
      → select_row ds addr c ≡ ok (selected ds addr c)
  unfolding select_row is_register is_size
  select_row_lem c s ds addr r =
      rw (write_reg_lem c s cp_ldom_id 2 ds r refl refl (omega arith) (omega arith) refl, ◌>>=◌)
        (write_reg_lem (put_reg cp_ldom_id 2 ds c) s cp_dest_addr 4 addr
          (put_reg-IsReady c s cp_ldom_id 2 ds r) refl refl (omega arith) (omega arith) refl)
