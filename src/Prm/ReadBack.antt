-- ===== src/Prm/ReadBack.antt =====
-- Words that the manager programs through prm/CPConnector.cc are the words that it reads back,
-- whatever control plane with a table stands behind the connector.
use pard_gem.Prelude.{ℕ, ◌^◌, ◌<◌, ◌≡◌, refl, ◌∙◌, some, arith, ok, ◌>>=◌, length}
use pard_gem.Bytes.{
  word_at, put_at, length-put_at, word_at-put_at_self, word_at-put_at_below, word_at-put_at_above,
}
use pard_gem.Prm.ControlPlane.{ControlPlane, IsTable}
use pard_gem.Prm.Connector.{
  cp_cmd, cp_ldom_id, cp_dest_addr, cp_data, get_command, set_command, Connector, is_register,
  is_size,
}
use pard_gem.Prm.Protocol.{
  IsReady, put_reg, put_reg-IsReady, set_row, get_row, write_reg_lem, write_cmd_lem, read_data_lem,
  run_command-set, run_command-get, selected, select_row_lem,
}

module _ (plane : ControlPlane) where
  -- The words that the command finds in the selected plane registers.
  ldom_id-selected :
      (c : Connector plane.State) (ds addr : ℕ)
      → length c.regs ≡ 32
      → ds < 2 ^ 16
      → word_at 2 (selected plane ds addr c).regs cp_ldom_id ≡ ds
  ldom_id-selected c ds addr l lt =
      word_at-put_at_below 2 4 (put_at 2 c.regs cp_ldom_id ds) cp_dest_addr cp_ldom_id addr
        (omega arith)
      ∙ word_at-put_at_self 2 c.regs cp_ldom_id ds (omega arith) lt

  dest_addr-selected :
      (c : Connector plane.State) (ds addr : ℕ)
      → length c.regs ≡ 32
      → addr < 2 ^ 32
      → word_at 4 (selected plane ds addr c).regs cp_dest_addr ≡ addr
  dest_addr-selected c ds addr l lt =
      word_at-put_at_self 4 (put_at 2 c.regs cp_ldom_id ds) cp_dest_addr addr
        (omega (arith, length-put_at 2 c.regs cp_ldom_id ds)) lt

  pub set_row_lem :
      (c : Connector plane.State) (s t : plane.State) (ds addr v : ℕ)
      → IsReady plane c s
      → ds < 2 ^ 16
      → addr < 2 ^ 32
      → v < 2 ^ 64
      → plane.update_table s ds addr v ≡ ok t
      → (d : Connector plane.State) × (set_row plane ds addr v c ≡ ok d) × IsReady plane d t
  unfolding set_row is_register is_size
  set_row_lem c s t ds addr v r small there word e =
      let c1 = selected plane ds addr c in
      let r1 : IsReady plane c1 s =
        put_reg-IsReady plane _ s cp_dest_addr 4 addr
          (put_reg-IsReady plane c s cp_ldom_id 2 ds r) in
      let c2 = put_reg plane cp_data 8 v c1 in
      let r2 : IsReady plane c2 s = put_reg-IsReady plane c1 s cp_data 8 v r1 in
      let c3 = put_reg plane cp_cmd 1 set_command c2 in
      let r3 : IsReady plane c3 s = put_reg-IsReady plane c2 s cp_cmd 1 set_command r2 in
      let cmd : word_at 1 c3.regs cp_cmd ≡ set_command =
        word_at-put_at_self 1 c2.regs cp_cmd set_command (omega (arith, r2.regs)) (omega arith) in
      let row : word_at 2 c3.regs cp_ldom_id ≡ ds =
        word_at-put_at_above 2 1 c2.regs cp_cmd cp_ldom_id set_command (omega arith)
        ∙ word_at-put_at_below 2 8 c1.regs cp_data cp_ldom_id v (omega arith)
        ∙ ldom_id-selected c ds addr r.regs small in
      let dest : word_at 4 c3.regs cp_dest_addr ≡ addr =
        word_at-put_at_above 4 1 c2.regs cp_cmd cp_dest_addr set_command (omega arith)
        ∙ word_at-put_at_below 4 8 c1.regs cp_data cp_dest_addr v (omega arith)
        ∙ dest_addr-selected c ds addr r.regs there in
      let value : word_at 8 c3.regs cp_data ≡ v =
        word_at-put_at_above 8 1 c2.regs cp_cmd cp_data set_command (omega arith)
        ∙ word_at-put_at_self 8 c1.regs cp_data v (omega (arith, r1.regs)) word in
      (
        record c3 { cp = some t },
        rw
            (
              select_row_lem plane c s ds addr r,
              ◌>>=◌,
              write_reg_lem plane c1 s cp_data 8 v r1 refl refl (omega arith) (omega arith) refl,
              write_cmd_lem plane c2 s set_command r2,
            )
            (run_command-set plane c3 s t r.cp cmd (rw (row, dest, value) e)),
        record { regs = r3.regs; dev = r3.dev; cp = refl },
      )

  pub get_row_lem :
      (c : Connector plane.State) (s : plane.State) (ds addr v : ℕ)
      → IsReady plane c s
      → ds < 2 ^ 16
      → addr < 2 ^ 32
      → v < 2 ^ 64
      → plane.query_table s ds addr ≡ ok v
      → (d : Connector plane.State) × (get_row plane ds addr c ≡ ok (v, d)) × IsReady plane d s
  unfolding get_row is_register is_size
  get_row_lem c s ds addr v r small there word e =
      let c1 = selected plane ds addr c in
      let r1 : IsReady plane c1 s =
        put_reg-IsReady plane _ s cp_dest_addr 4 addr
          (put_reg-IsReady plane c s cp_ldom_id 2 ds r) in
      let c2 = put_reg plane cp_cmd 1 get_command c1 in
      let r2 : IsReady plane c2 s = put_reg-IsReady plane c1 s cp_cmd 1 get_command r1 in
      let c3 = put_reg plane cp_data 8 v c2 in
      let r3 : IsReady plane c3 s = put_reg-IsReady plane c2 s cp_data 8 v r2 in
      let cmd : word_at 1 c2.regs cp_cmd ≡ get_command =
        word_at-put_at_self 1 c1.regs cp_cmd get_command (omega (arith, r1.regs)) (omega arith) in
      let row : word_at 2 c2.regs cp_ldom_id ≡ ds =
        word_at-put_at_above 2 1 c1.regs cp_cmd cp_ldom_id get_command (omega arith)
        ∙ ldom_id-selected c ds addr r.regs small in
      let dest : word_at 4 c2.regs cp_dest_addr ≡ addr =
        word_at-put_at_above 4 1 c1.regs cp_cmd cp_dest_addr get_command (omega arith)
        ∙ dest_addr-selected c ds addr r.regs there in
      let value : word_at 8 c3.regs cp_data ≡ v =
        word_at-put_at_self 8 c2.regs cp_data v (omega (arith, r2.regs)) word in
      (
        c3,
        rw
            (
              select_row_lem plane c s ds addr r,
              ◌>>=◌,
              write_cmd_lem plane c1 s get_command r1,
              run_command-get plane c2 s v r2 cmd (rw (row, dest) e),
              read_data_lem plane c3 s r3,
              value,
            )
            refl,
        r3,
      )

  -- A set command through the connector, then a get command for the same address, give the word
  -- back, for a plane that is a table, an address that it knows, and operands that fit their
  -- registers, whatever DSid the get names.
  pub get_row-set_row :
      {Valid : plane.State → Type 0} {Known : plane.State → ℕ → Type 0}
      → IsTable plane Valid Known
      → (c : Connector plane.State) (s : plane.State) (ds ds' addr v : ℕ) → IsReady plane c s
      → Valid s
      → Known s addr
      → ds < 2 ^ 16
      → ds' < 2 ^ 16
      → addr < 2 ^ 32
      → v < 2 ^ 64
      → (d e : Connector plane.State) × (set_row plane ds addr v c ≡ ok d)
        × (get_row plane ds' addr d ≡ ok (v, e))
  get_row-set_row table c s ds ds' addr v r valid known small small' there word =
      let (t, accepted, _) = table.accepts s ds addr v valid known in
      let (d, set, ready) = set_row_lem c s t ds addr v r small there word accepted in
      let (e, got, _) =
        get_row_lem d t ds' addr v ready small' there word
          (table.reads_back s t ds ds' addr v valid known word accepted) in
      (d, e, set, got)
