-- ===== src/Emulator/Control.antt =====
-- The branches of `emulate` for jumps, calls, the stack, and input and output.
use systems_projects.Prelude.{ℕ, ◌+◌, Bool, true, false, ◌&&◌, ◌||◌, leb, ◌==◌, if◌then◌else◌}
use systems_projects.Cpu.{
  Cmd, ok, pure, ◌>>=◌, ◌>>◌, gets, sub16, get_r, set_r, set_pc, set_sp, advance, operand, load2,
  store2, get_char, put_char,
}
use systems_projects.Emulator.Fields.{field_op, field_a}

-- The test of each case of the two switches on `op_val`.
unfoldable pub taken : ℕ → ℕ → ℕ → Bool
taken op z n =
    if op == 0
    then true
    else if op == 1
    then z == 1
    else if op == 2
    then z == 0
    else if op == 3
    then n == 1
    else if op == 4
    then (n == 0) && (z == 0)
    else if op == 5
    then (n == 1) || (z == 1)
    else if op == 6
    then n == 0
    else false

unfoldable pub branch : Bool → Cmd ℕ → ℕ → Cmd (Unit {0})
branch go target len = if go then (do t ← target; set_pc t) else advance len

unfoldable pub exec_jump : ℕ → Cmd Bool
unfolding branch
exec_jump insn s =
    if leb 7 (field_op insn)
    then ok true s
    else (branch (taken (field_op insn) s.z s.n) operand 4 >> pure false) s

unfoldable pub exec_jump_reg : ℕ → Cmd Bool
unfolding branch
exec_jump_reg insn s =
    if leb 7 (field_op insn)
    then ok true s
    else (branch (taken (field_op insn) s.z s.n) (get_r (field_a insn)) 2 >> pure false) s

-- The return address goes below the stack pointer before the target is read.
unfoldable pub exec_call : Cmd Bool
exec_call = do
  sp ← gets (λ s. s.sp)
  set_sp (sub16 sp 2)
  pc ← gets (λ s. s.pc)
  store2 (pc + 4) (sub16 sp 2)
  target ← operand
  set_pc target
  pure false

unfoldable pub exec_call_reg : ℕ → Cmd Bool
exec_call_reg insn = do
  sp ← gets (λ s. s.sp)
  set_sp (sub16 sp 2)
  pc ← gets (λ s. s.pc)
  store2 (pc + 2) (sub16 sp 2)
  target ← get_r (field_a insn)
  set_pc target
  pure false

unfoldable pub exec_ret : Cmd Bool
exec_ret = do sp ← gets (λ s. s.sp); target ← load2 sp; set_pc target; set_sp (sp + 2); pure false

unfoldable pub exec_push : ℕ → Cmd Bool
exec_push insn = do
  sp ← gets (λ s. s.sp)
  set_sp (sub16 sp 2)
  v ← get_r (field_a insn)
  store2 v (sub16 sp 2)
  advance 2
  pure false

unfoldable pub exec_pop : ℕ → Cmd Bool
exec_pop insn = do
  sp ← gets (λ s. s.sp)
  v ← load2 sp
  set_r (field_a insn) v
  set_sp (sp + 2)
  advance 2
  pure false

unfoldable pub exec_in : ℕ → Cmd Bool
exec_in insn = do c ← get_char; set_r (field_a insn) c; advance 2; pure false

unfoldable pub exec_out : ℕ → Cmd Bool
exec_out insn = do v ← get_r (field_a insn); put_char v; advance 2; pure false
