-- ===== src/Emulator/Alu.antt =====
-- The ALU branch of `emulate`.
use systems_projects.Prelude.{
  ℕ, ◌+◌, ◌/◌, ◌^◌, bit_and, bit_or, bit_xor, Bool, false, not, ltb, ◌==◌, if◌then◌else◌,
}
use systems_projects.Cpu.{
  Cmd, bad_shift, pure, raise, ◌>>=◌, ◌>>◌, modify, sub16, u16, get_r, set_r, advance,
}
use systems_projects.Emulator.Fields.{field_a, field_b, field_c}

-- Z and N from the 16-bit result, as at the end of each case of the ALU's switch.
unfoldable pub set_flags : ℕ → Cmd (Unit {0})
set_flags res = modify λ s. record s {
  z = if res == 0 then 1 else 0;
  n = if not (bit_and res 0x8000 == 0) then 1 else 0;
}

unfoldable pub write_result : ℕ → ℕ → Cmd (Unit {0})
write_result c res = do set_r c res; set_flags res

-- `shiftA >> shiftB` on operands promoted to a 32-bit `int`.
unfoldable pub shift_right : ℕ → ℕ → Cmd ℕ
shift_right x y = if ltb y 32 then pure (x / 2 ^ y) else raise bad_shift

-- The switch on `aluOp`; the last branch, ADD, is its default.
unfoldable pub alu : ℕ → ℕ → ℕ → ℕ → Cmd (Unit {0})
unfolding write_result shift_right
alu op a b c =
    if op == 0x0200
    then (do x ← get_r a; y ← get_r b; write_result c (sub16 x y))
    else if op == 0x0400
    then (do x ← get_r a; y ← get_r b; write_result c (bit_and x y))
    else if op == 0x0600
    then (do x ← get_r a; y ← get_r b; write_result c (bit_or x y))
    else if op == 0x0800
    then (do x ← get_r a; y ← get_r b; write_result c (bit_xor x y))
    else if op == 0x0A00
    then (do x ← get_r a; y ← get_r b; res ← shift_right x y; write_result c res)
    else if op == 0x0C00
    then (do x ← get_r a; y ← get_r b; set_flags (sub16 x y))
    else if op == 0x0E00
    then (do x ← get_r a; set_flags x)
    else (do x ← get_r a; y ← get_r b; write_result c (u16 (x + y)))

unfoldable pub exec_alu : ℕ → Cmd Bool
exec_alu insn = do
  alu (bit_and insn 0x0E00) (field_a insn) (field_b insn) (field_c insn)
  advance 2
  pure false
