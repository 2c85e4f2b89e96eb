-- ===== src/Emulator/Step.antt =====
-- `emulate` of bare-metal-16bit/emulate.c: fetch one instruction and select its branch.
use systems_projects.Prelude.{ℕ, bit_and, Bool, true, ◌==◌, if◌then◌else◌}
use systems_projects.Cpu.{Cmd, pure, ◌>>=◌, gets, load2}
use systems_projects.Emulator.Data.{exec_set, exec_load, exec_store, exec_move}
use systems_projects.Emulator.Alu.{exec_alu}
use systems_projects.Emulator.Control.{
  exec_jump, exec_jump_reg, exec_call, exec_call_reg, exec_ret, exec_push, exec_pop, exec_in,
  exec_out,
}

-- `high` is `insn & 0xF000`.
unfoldable pub select : ℕ → ℕ → Cmd Bool
select high insn =
    if high == 0x1000
    then exec_set insn
    else if high == 0x2000
    then exec_load insn
    else if high == 0x3000
    then exec_store insn
    else if high == 0x4000
    then exec_move insn
    else if high == 0x5000
    then exec_alu insn
    else if high == 0x6000
    then exec_jump insn
    else if high == 0x7000
    then exec_jump_reg insn
    else if high == 0x8000
    then exec_call
    else if high == 0x9000
    then exec_call_reg insn
    else if high == 0xA000
    then exec_ret
    else if high == 0xB000
    then exec_push insn
    else if high == 0xC000
    then exec_pop insn
    else if high == 0xD000
    then exec_in insn
    else if high == 0xE000
    then exec_out insn
    else if high == 0xF000
    then pure true
    else pure true

unfoldable pub emulate : Cmd Bool
unfolding select
emulate = do pc ← gets (λ s. s.pc); insn ← load2 pc; select (bit_and insn 0xF000) insn
