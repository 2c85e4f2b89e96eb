-- ===== src/Emulator/Invariant.antt =====
-- Every branch of `emulate` keeps the invariant of the machine's state.
use systems_projects.Prelude.{ℕ, Bool, false, arith}
use systems_projects.Prelude.Bits.{bit_and_0x8000}
use systems_projects.Cpu.{Cpu, Cmd}
use systems_projects.Cpu.Keeps.{
  IsWf, Kept, kept, Keeps, Kept-if, Keeps-bind, Keeps-pure, Keeps-operand, Keeps-get_r, keeps_rules,
}
use systems_projects.Emulator.Data.{move_regs, exec_set, exec_load, exec_store, exec_move}
use systems_projects.Emulator.Alu.{set_flags, write_result, shift_right, alu, exec_alu}
use systems_projects.Emulator.Control.{
  branch, exec_jump, exec_jump_reg, exec_call, exec_call_reg, exec_ret, exec_push, exec_pop,
  exec_in, exec_out,
}
use systems_projects.Emulator.Step.{emulate, select}

exec_set-Keeps : (insn : ℕ) → Keeps (exec_set insn)
unfolding exec_set
exec_set-Keeps insn = search keeps_rules depth 12

exec_load-Keeps : (insn : ℕ) → Keeps (exec_load insn)
unfolding exec_load
exec_load-Keeps insn = search keeps_rules depth 12

exec_store-Keeps : (insn : ℕ) → Keeps (exec_store insn)
unfolding exec_store
exec_store-Keeps insn = search keeps_rules depth 12

move_regs-Keeps : (src dst : ℕ) → Keeps (move_regs src dst)
unfolding move_regs
move_regs-Keeps src dst = search keeps_rules

exec_move-Keeps : (insn : ℕ) → Keeps (exec_move insn)
unfolding exec_move
exec_move-Keeps insn = search (keeps_rules, move_regs-Keeps) depth 12

-- A zero result has no sign bit, so the flags are never both set.
set_flags-Keeps : (res : ℕ) → Keeps (set_flags res)
unfolding set_flags
set_flags-Keeps res = record { at = λ s h. kept (ground (arith, bit_and_0x8000 res)) }

write_result-Keeps : (c res : ℕ) → Keeps (write_result c res)
unfolding write_result
write_result-Keeps c res = search (keeps_rules, set_flags-Keeps)

shift_right-Keeps : (x y : ℕ) → Keeps (shift_right x y)
unfolding shift_right
shift_right-Keeps x y = search keeps_rules

ruleset alu_rules = (keeps_rules, set_flags-Keeps, write_result-Keeps, shift_right-Keeps)

alu-Keeps : (op a b c : ℕ) → Keeps (alu op a b c)
unfolding alu
alu-Keeps op a b c = search alu_rules depth 14

exec_alu-Keeps : (insn : ℕ) → Keeps (exec_alu insn)
unfolding exec_alu
exec_alu-Keeps insn = search (keeps_rules, alu-Keeps) depth 12

branch-Keeps : (go : Bool) (target : Cmd ℕ) (len : ℕ) → Keeps target → Keeps (branch go target len)
unfolding branch
branch-Keeps go target len h = search keeps_rules

exec_jump-Keeps : (insn : ℕ) → Keeps (exec_jump insn)
unfolding exec_jump
exec_jump-Keeps insn = record {
  at = λ s h.
      Kept-if _ (kept h)
        ((Keeps-bind (branch-Keeps _ _ 4 Keeps-operand) (λ _. Keeps-pure false)).at s h);
}

exec_jump_reg-Keeps : (insn : ℕ) → Keeps (exec_jump_reg insn)
unfolding exec_jump_reg
exec_jump_reg-Keeps insn = record {
  at = λ s h.
      Kept-if _ (kept h)
        ((Keeps-bind (branch-Keeps _ _ 2 (Keeps-get_r _)) (λ _. Keeps-pure false)).at s h);
}

exec_call-Keeps : Keeps exec_call
unfolding exec_call
exec_call-Keeps = search keeps_rules depth 12

exec_call_reg-Keeps : (insn : ℕ) → Keeps (exec_call_reg insn)
unfolding exec_call_reg
exec_call_reg-Keeps insn = search keeps_rules depth 12

exec_ret-Keeps : Keeps exec_ret
unfolding exec_ret
exec_ret-Keeps = search keeps_rules depth 12

exec_push-Keeps : (insn : ℕ) → Keeps (exec_push insn)
unfolding exec_push
exec_push-Keeps insn = search keeps_rules depth 12

exec_pop-Keeps : (insn : ℕ) → Keeps (exec_pop insn)
unfolding exec_pop
exec_pop-Keeps insn = search keeps_rules depth 12

exec_in-Keeps : (insn : ℕ) → Keeps (exec_in insn)
unfolding exec_in
exec_in-Keeps insn = search keeps_rules depth 12

exec_out-Keeps : (insn : ℕ) → Keeps (exec_out insn)
unfolding exec_out
exec_out-Keeps insn = search keeps_rules depth 12

ruleset branch_rules = (
  keeps_rules, exec_set-Keeps, exec_load-Keeps, exec_store-Keeps, exec_move-Keeps, exec_alu-Keeps,
  exec_jump-Keeps, exec_jump_reg-Keeps, exec_call-Keeps, exec_call_reg-Keeps, exec_ret-Keeps,
  exec_push-Keeps, exec_pop-Keeps, exec_in-Keeps, exec_out-Keeps,
)

select-Keeps : (high insn : ℕ) → Keeps (select high insn)
unfolding select
select-Keeps high insn = search branch_rules depth 20

pub emulate-Keeps : Keeps emulate
unfolding emulate
emulate-Keeps = search (keeps_rules, select-Keeps)

-- Whatever instruction is fetched, `emulate` either faults or leaves a state in which every field
-- fits its C type, Z and N are flags that are not both set, and both streams hold bytes.
pub emulate-IsWf : (s : Cpu) → IsWf s → Kept (emulate s)
emulate-IsWf = emulate-Keeps.at
