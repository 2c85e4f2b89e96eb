-- ===== src/Emulator/Data.antt =====
-- The branches of `emulate` that move data: SET, LOAD, STORE and MOVE. A command returns true for
-- the C result 1, halt. The debugging printf calls are left out.
use systems_projects.Prelude.{ℕ, ◌+◌, bit_and, Bool, false, not, ◌&&◌, ◌==◌, if◌then◌else◌}
use systems_projects.Prelude.Bits.{shr}
use systems_projects.Cpu.{
  Cmd, pure, ◌>>=◌, ◌>>◌, gets, read_byte, write_byte, get_r, set_r, set_sp, advance, operand,
  load2, store2,
}
use systems_projects.Emulator.Fields.{field_a, field_b}

unfoldable pub exec_set : ℕ → Cmd Bool
exec_set insn = do v ← operand; set_r (field_a insn) v; advance 4; pure false

unfoldable pub exec_load : ℕ → Cmd Bool
exec_load insn =
    let is_indirect = not (bit_and insn 0x0800 == 0) in
    let is_byte = not (bit_and insn 0x0400 == 0) in
    if not is_indirect && not is_byte
    then (do addr ← operand; v ← load2 addr; set_r (field_a insn) v; advance 4; pure false)
    else if is_byte && not is_indirect
    then (do addr ← operand; v ← read_byte addr; set_r (field_a insn) v; advance 4; pure false)
    else if not is_byte && is_indirect
    then (do
      addr ← get_r (field_b insn)
      v ← load2 addr
      set_r (field_a insn) v
      advance 2
      pure false)
    else (do
      addr ← get_r (field_b insn)
      v ← read_byte addr
      set_r (field_a insn) v
      advance 2
      pure false)

unfoldable pub exec_store : ℕ → Cmd Bool
exec_store insn =
    let kind = shr (bit_and insn 0xFF00) 8 in
    if kind == 0x30
    then (do addr ← operand; v ← get_r (field_a insn); store2 v addr; advance 4; pure false)
    else if kind == 0x34
    then (do
      addr ← operand
      v ← get_r (field_a insn)
      write_byte (addr + 1) (bit_and v 0xFF)
      advance 4
      pure false)
    else if kind == 0x3C
    then (do
      v ← get_r (field_a insn)
      addr ← get_r (field_b insn)
      write_byte addr (bit_and v 0xFF)
      advance 2
      pure false)
    else (do
      v ← get_r (field_a insn)
      addr ← get_r (field_b insn)
      store2 v addr
      advance 2
      pure false)

unfoldable pub move_regs : ℕ → ℕ → Cmd (Unit {0})
move_regs src dst =
    if dst == 8
    then (do v ← get_r src; set_sp v)
    else if src == 8
    then (do v ← gets (λ s. s.sp); set_r dst v)
    else (do v ← get_r src; set_r dst v)

unfoldable pub exec_move : ℕ → Cmd Bool
unfolding move_regs
exec_move insn = do move_regs (bit_and insn 0x0F) (bit_and (shr insn 4) 0x0F); advance 2; pure false
