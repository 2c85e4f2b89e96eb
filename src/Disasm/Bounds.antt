-- ===== src/Disasm/Bounds.antt =====
-- How much `disasm` writes to its buffer.
use systems_projects.Prelude.{
  ℕ, ◌+◌, ◌≤◌, ◌<◌, ◌≡◌, true, ltb, bit_and, arith, none, some, List, ◌++◌, length, length-append,
  codes,
}
use systems_projects.Prelude.Bits.{shr, bit_and_0x07, bit_and_0x38, bit_and_0x1c0}
use systems_projects.Disasm.{
  Line, reg, hex4, reg_str, jmp_suff, byte_suff, three, disasm_load, disasm_store, disasm_move,
  alu_text, disasm_op, disasm,
}

-- The bytes of `buf` that are written, with the null behind the text.
abbrev pub written : Line → ℕ
written l = elim (l.text) [ none ↦ 0 | some text ↦ length text + 1 ]

-- The register of three bits is one digit.
one_digit : (r : ℕ) → r < 8 → ltb r 10 ≡ true
one_digit r h = ground arith

reg_str-le : (r : ℕ) → length (reg_str r) ≤ 5
unfolding reg_str
reg_str-le r = ground arith

jmp_suff-le : (k : ℕ) → length (jmp_suff k) ≤ 10
unfolding jmp_suff
jmp_suff-le k = ground arith

byte_suff-le : (insn : ℕ) → length (byte_suff insn) ≤ 2
unfolding byte_suff
byte_suff-le insn = ground arith

module _ (ra rb rc : ℕ) (ha : ra < 8) (hb : rb < 8) (hc : rc < 8) where
  alu_text-le : (op : ℕ) → length (alu_text op ra rb rc) ≤ 21
  unfolding alu_text three
  alu_text-le op = rw (one_digit ra ha, one_digit rb hb, one_digit rc hc) (ground arith)

  disasm_load-le : (insn next : ℕ) → written (disasm_load insn next ra rb) ≤ 22
  unfolding disasm_load hex4 byte_suff
  disasm_load-le insn next = rw (one_digit ra ha, one_digit rb hb) (ground arith)

  disasm_store-le : (insn next : ℕ) → written (disasm_store insn next ra rb) ≤ 22
  unfolding disasm_store hex4 byte_suff
  disasm_store-le insn next = rw (one_digit ra ha, one_digit rb hb) (ground arith)

disasm_move-le : (insn : ℕ) → written (disasm_move insn) ≤ 22
unfolding disasm_move
disasm_move-le insn =
    let src = bit_and insn 0xF in
    let dst = shr (bit_and insn 0xF0) 4 in
    omega (
      arith,
      reg_str-le src,
      reg_str-le dst,
      length-append (reg_str src) (codes " -> " ++ reg_str dst),
    )

jump_text-le :
    (k : ℕ) (target : List ℕ)
    → length target ≤ 8
    → length (codes "JMP" ++ (jmp_suff k ++ target)) ≤ 21
jump_text-le k target h = omega (arith, jmp_suff-le k, length-append (jmp_suff k) target)

module _ (ra rb rc : ℕ) (ha : ra < 8) (hb : rb < 8) (hc : rc < 8) where
  disasm_op-le : (high insn next : ℕ) → written (disasm_op high insn next ra rb rc) ≤ 22
  unfolding disasm_op
  disasm_op-le high insn next = ground (
    arith,
    disasm_load-le ra rb rc ha hb hc insn next,
    disasm_store-le ra rb rc ha hb hc insn next,
    disasm_move-le insn,
    alu_text-le ra rb rc ha hb hc (bit_and insn 0x0E00),
    jump_text-le (shr (bit_and insn 0x0E00) 9) (codes " 0x" ++ hex4 next),
    jump_text-le (shr (bit_and insn 0x0E00) 9) (codes " *" ++ reg rc),
    one_digit ra ha,
    one_digit rc hc,
  )

-- Whatever the two words, `disasm` writes at most 22 bytes, the null included; its callers give it
-- 64.
pub written-disasm : (insn next : ℕ) → written (disasm insn next) ≤ 22
unfolding disasm
written-disasm insn next =
    disasm_op-le (bit_and insn 7) (shr (bit_and insn 0x38) 3) (shr (bit_and insn 0x1C0) 6)
      (omega (arith, bit_and_0x07 insn)) (omega (arith, bit_and_0x38 insn))
      (omega (arith, bit_and_0x1c0 insn)) (bit_and insn 0xF000) insn next
