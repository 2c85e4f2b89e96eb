-- ===== src/Disasm/Length.antt =====
-- The lengths that `disasm` returns are those by which `emulate` moves on.
use systems_projects.Prelude.{
  ℕ, ◌+◌, ◌*◌, ◌/◌, ◌%◌, ◌≡◌, refl, bit_and, arith, Bool, true, false, ◌==◌, if◌then◌else◌,
}
use systems_projects.Prelude.Bits.{shr, bit_and_0xf000, bit_and_0x0800}
use systems_projects.Cpu.{Cpu, ok, load2, u16}
use systems_projects.Cpu.Moves.{
  Moved, Moves, moved, Stays, Moves-after, Moves-before, Moves-advance, stays_rules,
}
use systems_projects.Emulator.Step.{emulate}
use systems_projects.Emulator.Format.{alu_code-le, cond_code-le}
use systems_projects.Emulator.Isa
use systems_projects.Emulator.Isa.{
  Insn, IsInsn, Conforms, AluOp, encode, perform, holds, result, read, write, get_move, set_move,
}
use systems_projects.Emulator.Decode.{emulate-perform}
use systems_projects.Emulator.Alu.{set_flags}
use systems_projects.Disasm.{disasm_load, disasm_store, disasm_move, disasm_op, disasm}

-- The bytes of an instruction, with its second word.
abbrev pub size : Insn → ℕ
size (Insn.set a) = 4
size (Insn.load_abs byte a) = 4
size (Insn.store_abs byte a) = 4
size (Insn.jump k) = 4
size Insn.call = 4
size _ = 2

disasm_high :
    (w k next : ℕ)
    → w / 4096 % 16 ≡ k
    → disasm w next
      ≡ disasm_op (k * 4096) w next (bit_and w 7) (shr (bit_and w 0x38) 3) (shr (bit_and w 0x1C0) 6)
unfolding disasm
disasm_high w k next high = rw (bit_and_0xf000 w, high)

bytes-load :
    (w next ra rb : ℕ) → (disasm_load w next ra rb).bytes ≡ (if w / 2048 % 2 == 0 then 4 else 2)
unfolding disasm_load
bytes-load w next ra rb = ground (arith, bit_and_0x0800 w)

bytes-store :
    (w next ra rb : ℕ) → (disasm_store w next ra rb).bytes ≡ (if w / 2048 % 2 == 0 then 4 else 2)
unfolding disasm_store
bytes-store w next ra rb = ground (arith, bit_and_0x0800 w)

bytes-disasm : (i : Insn) (next : ℕ) → IsInsn i → (disasm (encode i) next).bytes ≡ size i
unfolding encode disasm_op disasm_move
bytes-disasm (Insn.set a) next h = rw (disasm_high (0x1000 + a) 1 next (omega arith))
bytes-disasm (Insn.load_abs true a) next h =
    let w : ℕ = 0x2000 + 1 * 0x400 + a in
    rw (disasm_high w 2 next (omega arith))
      (ground (arith, bytes-load w next (bit_and w 7) (shr (bit_and w 0x38) 3)))
bytes-disasm (Insn.load_abs false a) next h =
    let w : ℕ = 0x2000 + 0 * 0x400 + a in
    rw (disasm_high w 2 next (omega arith))
      (ground (arith, bytes-load w next (bit_and w 7) (shr (bit_and w 0x38) 3)))
bytes-disasm (Insn.load_ind true a b) next h =
    let w : ℕ = 0x2800 + 1 * 0x400 + b * 8 + a in
    rw (disasm_high w 2 next (omega arith))
      (ground (arith, bytes-load w next (bit_and w 7) (shr (bit_and w 0x38) 3)))
bytes-disasm (Insn.load_ind false a b) next h =
    let w : ℕ = 0x2800 + 0 * 0x400 + b * 8 + a in
    rw (disasm_high w 2 next (omega arith))
      (ground (arith, bytes-load w next (bit_and w 7) (shr (bit_and w 0x38) 3)))
bytes-disasm (Insn.store_abs true a) next h =
    let w : ℕ = 0x3000 + 1 * 0x400 + a in
    rw (disasm_high w 3 next (omega arith))
      (ground (arith, bytes-store w next (bit_and w 7) (shr (bit_and w 0x38) 3)))
bytes-disasm (Insn.store_abs false a) next h =
    let w : ℕ = 0x3000 + 0 * 0x400 + a in
    rw (disasm_high w 3 next (omega arith))
      (ground (arith, bytes-store w next (bit_and w 7) (shr (bit_and w 0x38) 3)))
bytes-disasm (Insn.store_ind true a b) next h =
    let w : ℕ = 0x3800 + 1 * 0x400 + b * 8 + a in
    rw (disasm_high w 3 next (omega arith))
      (ground (arith, bytes-store w next (bit_and w 7) (shr (bit_and w 0x38) 3)))
bytes-disasm (Insn.store_ind false a b) next h =
    let w : ℕ = 0x3800 + 0 * 0x400 + b * 8 + a in
    rw (disasm_high w 3 next (omega arith))
      (ground (arith, bytes-store w next (bit_and w 7) (shr (bit_and w 0x38) 3)))
bytes-disasm (Insn.move src dst) next h =
    rw (disasm_high (0x4000 + dst * 16 + src) 4 next (omega arith))
bytes-disasm (Insn.alu op a b c) next h =
    rw (disasm_high (encode (Insn.alu op a b c)) 5 next (omega (arith, alu_code-le op)))
bytes-disasm (Insn.cmp a b) next h = rw (disasm_high (0x5C00 + b * 8 + a) 5 next (omega arith))
bytes-disasm (Insn.test a) next h = rw (disasm_high (0x5E00 + a) 5 next (omega arith))
bytes-disasm (Insn.jump k) next h =
    rw (disasm_high (encode (Insn.jump k)) 6 next (omega (arith, cond_code-le k)))
bytes-disasm (Insn.jump_reg k a) next h =
    rw (disasm_high (encode (Insn.jump_reg k a)) 7 next (omega (arith, cond_code-le k)))
bytes-disasm Insn.call next h = rw (disasm_high 0x8000 8 next refl)
bytes-disasm (Insn.call_reg a) next h = rw (disasm_high (0x9000 + a) 9 next (omega arith))
bytes-disasm Insn.ret next h = rw (disasm_high 0xA000 10 next refl)
bytes-disasm (Insn.push a) next h = rw (disasm_high (0xB000 + a) 11 next (omega arith))
bytes-disasm (Insn.pop a) next h = rw (disasm_high (0xC000 + a) 12 next (omega arith))
bytes-disasm (Insn.input a) next h = rw (disasm_high (0xD000 + a) 13 next (omega arith))
bytes-disasm (Insn.output a) next h = rw (disasm_high (0xE000 + a) 14 next (omega arith))
bytes-disasm Insn.halt next h = rw (disasm_high 0xF000 15 next refl)

-- An instruction that is no jump that is taken, no CALL, no RET and no HALT.
abbrev pub GoesOn : Cpu → Insn → Type 0
GoesOn s (Insn.jump k) = holds k s ≡ false
GoesOn s (Insn.jump_reg k a) = holds k s ≡ false
GoesOn s Insn.call = ⊥
GoesOn s (Insn.call_reg a) = ⊥
GoesOn s Insn.ret = ⊥
GoesOn s Insn.halt = ⊥
GoesOn s _ = Unit

set_flags-Stays : (res : ℕ) → Stays (set_flags res)
unfolding set_flags
set_flags-Stays res = record { at = λ s. moved refl }

result-Stays : (op : AluOp) (x y : ℕ) → Stays (result op x y)
unfolding result
result-Stays Isa.rshift x y = search stays_rules
result-Stays _ x y = search stays_rules

read-Stays : (byte : Bool) (addr : ℕ) → Stays (read byte addr)
unfolding read
read-Stays true addr = search stays_rules
read-Stays false addr = search stays_rules

write-Stays : (byte : Bool) (v addr : ℕ) → Stays (write byte v addr)
unfolding write
write-Stays true v addr = search stays_rules
write-Stays false v addr = search stays_rules

get_move-Stays : (r : ℕ) → Stays (get_move r)
unfolding get_move
get_move-Stays r = search stays_rules

set_move-Stays : (r v : ℕ) → Stays (set_move r v)
unfolding set_move
set_move-Stays r v = search stays_rules

ruleset insn_rules = (
  stays_rules, Moves-after, Moves-before, Moves-advance, set_flags-Stays, result-Stays, read-Stays,
  write-Stays, get_move-Stays, set_move-Stays,
)

-- Of those, the ones that are no jump.
Straight : Insn → Type 0
Straight (Insn.jump k) = ⊥
Straight (Insn.jump_reg k a) = ⊥
Straight Insn.call = ⊥
Straight (Insn.call_reg a) = ⊥
Straight Insn.ret = ⊥
Straight Insn.halt = ⊥
Straight _ = Unit

perform-Moves : (i : Insn) → Straight i → Moves (size i) (perform i)
unfolding perform Straight
perform-Moves (Insn.jump k) h = absurd h
perform-Moves (Insn.jump_reg k a) h = absurd h
perform-Moves Insn.call h = absurd h
perform-Moves (Insn.call_reg a) h = absurd h
perform-Moves Insn.ret h = absurd h
perform-Moves Insn.halt h = absurd h
perform-Moves _ h = search insn_rules depth 12

perform-Moved : (s : Cpu) (i : Insn) → GoesOn s i → Moved (u16 (s.pc + size i)) (perform i s)
unfolding perform Straight
perform-Moved s (Insn.jump k) h = rw h (moved refl)
perform-Moved s (Insn.jump_reg k a) h = rw h (moved refl)
perform-Moved s Insn.call h = absurd h
perform-Moved s (Insn.call_reg a) h = absurd h
perform-Moved s Insn.ret h = absurd h
perform-Moved s Insn.halt h = absurd h
perform-Moved s i h = (perform-Moves i tt).at s

-- On an instruction of the format, STORE.B to an absolute address and MOVE of SP to SP apart, that is
-- no jump that is taken, no CALL, no RET and no HALT, `emulate` moves PC on by as many bytes as
-- `disasm` returns for the same word, or faults.
pub emulate-disasm :
    (s : Cpu) (i : Insn) (next : ℕ)
    → IsInsn i
    → Conforms i
    → GoesOn s i
    → load2 s.pc s ≡ ok (encode i) s
    → Moved (u16 (s.pc + (disasm (encode i) next).bytes)) (emulate s)
emulate-disasm s i next is c g fetched =
    rw (bytes-disasm i next is, emulate-perform s i is c fetched) (perform-Moved s i g)
