-- ===== src/Emulator/Decode.antt =====
-- `emulate` reads the instruction format: on a word that encodes an instruction it performs it.
use systems_projects.Prelude.{ℕ, ◌*◌, ◌/◌, ◌%◌, ◌≡◌, true, arith, ◌∙◌, false}
use systems_projects.Prelude.Bits.{bit_and_0xf000}
use systems_projects.Cpu.{Cpu, ok, load2}
use systems_projects.Emulator.Step.{emulate, select}
use systems_projects.Emulator.Branches.{
  set-perform, load_abs-perform, load_ind-perform, store_abs-perform, store_ind-perform,
  move-perform, alu-perform, cmp-perform, test-perform, jump-perform, jump_reg-perform,
  call-perform, call_reg-perform, ret-perform, push-perform, pop-perform, input-perform,
  output-perform,
}
use systems_projects.Emulator.Format.{alu_code-le, cond_code-le}
use systems_projects.Emulator.Isa.{Insn, IsInsn, Conforms, encode, perform}

-- The branch that a word selects.
pub emulate_branch :
    (s : Cpu) (w k : ℕ)
    → load2 s.pc s ≡ ok w s
    → w / 4096 % 16 ≡ k
    → emulate s ≡ select (k * 4096) w s
unfolding emulate
emulate_branch s w k fetched high = rw (fetched, bit_and_0xf000 w, high)

-- On every instruction of the format but STORE.B to an absolute address and MOVE of SP to SP, `emulate`
-- performs the instruction whose encoding is the word at PC.
pub emulate-perform :
    (s : Cpu) (i : Insn)
    → IsInsn i
    → Conforms i
    → load2 s.pc s ≡ ok (encode i) s
    → emulate s ≡ perform i s
unfolding encode select perform
emulate-perform s (Insn.set a) h c e = emulate_branch s _ 1 e (omega arith) ∙ set-perform s a h
emulate-perform s (Insn.load_abs true a) h c e =
    emulate_branch s _ 2 e (omega arith) ∙ load_abs-perform s true a h
emulate-perform s (Insn.load_abs false a) h c e =
    emulate_branch s _ 2 e (omega arith) ∙ load_abs-perform s false a h
emulate-perform s (Insn.load_ind true a b) h c e =
    emulate_branch s _ 2 e (omega arith) ∙ load_ind-perform s true a b h.0 h.1
emulate-perform s (Insn.load_ind false a b) h c e =
    emulate_branch s _ 2 e (omega arith) ∙ load_ind-perform s false a b h.0 h.1
emulate-perform s (Insn.store_abs true a) h c e = absurd c
emulate-perform s (Insn.store_abs false a) h c e =
    emulate_branch s _ 3 e (omega arith) ∙ store_abs-perform s a h
emulate-perform s (Insn.store_ind true a b) h c e =
    emulate_branch s _ 3 e (omega arith) ∙ store_ind-perform s true a b h.0 h.1
emulate-perform s (Insn.store_ind false a b) h c e =
    emulate_branch s _ 3 e (omega arith) ∙ store_ind-perform s false a b h.0 h.1
emulate-perform s (Insn.move src dst) h c e =
    emulate_branch s _ 4 e (omega arith) ∙ move-perform s src dst h.0 h.1 c
emulate-perform s (Insn.alu op a b d) h c e =
    emulate_branch s _ 5 e (omega (arith, alu_code-le op)) ∙ alu-perform s op a b d h.0 h.1 h.2
emulate-perform s (Insn.cmp a b) h c e =
    emulate_branch s _ 5 e (omega arith) ∙ cmp-perform s a b h.0 h.1
emulate-perform s (Insn.test a) h c e = emulate_branch s _ 5 e (omega arith) ∙ test-perform s a h
emulate-perform s (Insn.jump k) h c e =
    emulate_branch s _ 6 e (omega (arith, cond_code-le k)) ∙ jump-perform s k
emulate-perform s (Insn.jump_reg k a) h c e =
    emulate_branch s _ 7 e (omega (arith, cond_code-le k)) ∙ jump_reg-perform s k a h
emulate-perform s Insn.call h c e = emulate_branch s _ 8 e (omega arith) ∙ call-perform s
emulate-perform s (Insn.call_reg a) h c e =
    emulate_branch s _ 9 e (omega arith) ∙ call_reg-perform s a h
emulate-perform s Insn.ret h c e = emulate_branch s _ 10 e (omega arith) ∙ ret-perform s
emulate-perform s (Insn.push a) h c e = emulate_branch s _ 11 e (omega arith) ∙ push-perform s a h
emulate-perform s (Insn.pop a) h c e = emulate_branch s _ 12 e (omega arith) ∙ pop-perform s a h
emulate-perform s (Insn.input a) h c e = emulate_branch s _ 13 e (omega arith) ∙ input-perform s a h
emulate-perform s (Insn.output a) h c e =
    emulate_branch s _ 14 e (omega arith) ∙ output-perform s a h
emulate-perform s Insn.halt h c e = emulate_branch s _ 15 e (omega arith)
