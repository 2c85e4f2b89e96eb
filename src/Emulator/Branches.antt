-- ===== src/Emulator/Branches.antt =====
-- Each branch of `emulate`, on a word that encodes an instruction of its kind, performs it.
use systems_projects.Prelude.{
  ℕ, ◌+◌, ◌*◌, ◌/◌, ◌≤◌, ◌<◌, ◌≡◌, refl, bit_and, Bool, true, arith, ◌==◌, if◌then◌else◌, inl, inr,
  Bool-cases, false,
}
use systems_projects.Prelude.Bits.{
  shr, bit_and_0x0f, bit_and_0x0400, bit_and_0x0800, bit_and_0x0e00, bit_and_0xff00,
}
use systems_projects.Cpu.{Cpu, Cmd, and_then, ◌>>=◌, pure, operand, get_r, load2}
use systems_projects.Emulator.Fields.{field_a, field_b, field_c, field_op}
use systems_projects.Emulator.Data.{move_regs, exec_set, exec_load, exec_store, exec_move}
use systems_projects.Emulator.Alu.{alu, exec_alu}
use systems_projects.Emulator.Control.{
  branch, exec_jump, exec_jump_reg, exec_call, exec_call_reg, exec_ret, exec_push, exec_pop,
  exec_in, exec_out,
}
use systems_projects.Emulator.Format.{
  and_then_assoc, set_move_sp, set_move_reg, alu_code-le, alu-alu_code, cond_code-le, leb_seven,
  taken-holds, field_a_lem, field_b_lem, field_c_lem, field_op_lem,
}
use systems_projects.Emulator.Isa
use systems_projects.Emulator.Isa.{
  Insn, IsInsn, encode, perform, holds, result, read, write, get_move, set_move, push_word,
  pop_word, AluOp, alu_code, Cond, cond_code,
}

module _ (s : Cpu) where
  pub set-perform : (a : ℕ) → a < 8 → exec_set (0x1000 + a) s ≡ perform (Insn.set a) s
  unfolding exec_set perform
  set-perform a h =
      let e : field_a (0x1000 + a) ≡ a = omega (arith, field_a_lem (0x1000 + a)) in rw e

  pub load_abs-perform :
      (byte : Bool) (a : ℕ)
      → a < 8
      → exec_load (encode (Insn.load_abs byte a)) s ≡ perform (Insn.load_abs byte a) s
  unfolding exec_load perform encode
  load_abs-perform true a h =
      let w : ℕ = 0x2000 + 1 * 0x400 + a in
      let e : field_a w ≡ a = omega (arith, field_a_lem w) in
      let i : bit_and w 0x0800 ≡ 0 = omega (arith, bit_and_0x0800 w) in
      let b : bit_and w 0x0400 ≡ 0x0400 = omega (arith, bit_and_0x0400 w) in rw (e, i, b)
  load_abs-perform false a h =
      let w : ℕ = 0x2000 + 0 * 0x400 + a in
      let e : field_a w ≡ a = omega (arith, field_a_lem w) in
      let i : bit_and w 0x0800 ≡ 0 = omega (arith, bit_and_0x0800 w) in
      let b : bit_and w 0x0400 ≡ 0 = omega (arith, bit_and_0x0400 w) in rw (e, i, b)

  pub load_ind-perform :
      (byte : Bool) (a b : ℕ)
      → a < 8
      → b < 8
      → exec_load (encode (Insn.load_ind byte a b)) s ≡ perform (Insn.load_ind byte a b) s
  unfolding exec_load perform encode
  load_ind-perform true a b ha hb =
      let w : ℕ = 0x2800 + 1 * 0x400 + b * 8 + a in
      let e : field_a w ≡ a = omega (arith, field_a_lem w) in
      let f : field_b w ≡ b = omega (arith, field_b_lem w) in
      let i : bit_and w 0x0800 ≡ 0x0800 = omega (arith, bit_and_0x0800 w) in
      let b' : bit_and w 0x0400 ≡ 0x0400 = omega (arith, bit_and_0x0400 w) in rw (e, f, i, b')
  load_ind-perform false a b ha hb =
      let w : ℕ = 0x2800 + 0 * 0x400 + b * 8 + a in
      let e : field_a w ≡ a = omega (arith, field_a_lem w) in
      let f : field_b w ≡ b = omega (arith, field_b_lem w) in
      let i : bit_and w 0x0800 ≡ 0x0800 = omega (arith, bit_and_0x0800 w) in
      let b' : bit_and w 0x0400 ≡ 0 = omega (arith, bit_and_0x0400 w) in rw (e, f, i, b')

  pub store_abs-perform :
      (a : ℕ)
      → a < 8
      → exec_store (encode (Insn.store_abs false a)) s ≡ perform (Insn.store_abs false a) s
  unfolding exec_store perform encode
  store_abs-perform a h =
      let w : ℕ = 0x3000 + 0 * 0x400 + a in
      let e : field_a w ≡ a = omega (arith, field_a_lem w) in
      let k : bit_and w 0xFF00 ≡ 0x3000 = omega (arith, bit_and_0xff00 w) in rw (e, k)

  pub store_ind-perform :
      (byte : Bool) (a b : ℕ)
      → a < 8
      → b < 8
      → exec_store (encode (Insn.store_ind byte a b)) s ≡ perform (Insn.store_ind byte a b) s
  unfolding exec_store perform encode
  store_ind-perform true a b ha hb =
      let w : ℕ = 0x3800 + 1 * 0x400 + b * 8 + a in
      let e : field_a w ≡ a = omega (arith, field_a_lem w) in
      let f : field_b w ≡ b = omega (arith, field_b_lem w) in
      let k : bit_and w 0xFF00 ≡ 0x3C00 = omega (arith, bit_and_0xff00 w) in rw (e, f, k)
  store_ind-perform false a b ha hb =
      let w : ℕ = 0x3800 + 0 * 0x400 + b * 8 + a in
      let e : field_a w ≡ a = omega (arith, field_a_lem w) in
      let f : field_b w ≡ b = omega (arith, field_b_lem w) in
      let k : bit_and w 0xFF00 ≡ 0x3800 = omega (arith, bit_and_0xff00 w) in rw (e, f, k)

  move_regs_lem :
      (src dst : ℕ)
      → src ≤ 8
      → src + dst < 16
      → move_regs src dst s ≡ (get_move src >>= set_move dst) s
  unfolding move_regs get_move
  move_regs_lem src dst h k = elim (Bool-cases (dst == 8)) [
    | inl e ↦ let m : (src == 8) ≡ false = ground arith in rw (set_move_sp dst e, e, m)
    | inr e ↦ elim (Bool-cases (src == 8)) [
      | inl f ↦ rw (set_move_reg dst e, e, f)
      | inr f ↦ rw (set_move_reg dst e, e, f)
    ]
  ]

  pub move-perform :
      (src dst : ℕ)
      → src ≤ 8
      → dst ≤ 8
      → src + dst < 16
      → exec_move (0x4000 + dst * 16 + src) s ≡ perform (Insn.move src dst) s
  unfolding exec_move perform
  move-perform src dst h k d =
      let w : ℕ = 0x4000 + dst * 16 + src in
      let e : bit_and w 0x0F ≡ src = omega (arith, bit_and_0x0f w) in
      let f : bit_and (shr w 4) 0x0F ≡ dst = omega (arith, bit_and_0x0f (w / 16)) in
      rw (e, f, move_regs_lem src dst h d) (simp and_then_assoc)

  pub alu-perform :
      (op : AluOp) (a b c : ℕ)
      → a < 8
      → b < 8
      → c < 8
      → exec_alu (encode (Insn.alu op a b c)) s ≡ perform (Insn.alu op a b c) s
  unfolding exec_alu perform encode
  alu-perform op a b c ha hb hc =
      let w : ℕ = 0x5000 + alu_code op * 0x200 + c * 64 + b * 8 + a in
      let small = alu_code-le op in
      let e : field_a w ≡ a = omega (arith, field_a_lem w) in
      let f : field_b w ≡ b = omega (arith, field_b_lem w) in
      let g : field_c w ≡ c = omega (arith, field_c_lem w) in
      let k : bit_and w 0x0E00 ≡ alu_code op * 0x200 = omega (arith, bit_and_0x0e00 w) in
      rw (e, f, g, k, alu-alu_code op a b c) (simp and_then_assoc)

  pub cmp-perform :
      (a b : ℕ) → a < 8 → b < 8 → exec_alu (0x5C00 + b * 8 + a) s ≡ perform (Insn.cmp a b) s
  unfolding exec_alu perform alu
  cmp-perform a b ha hb =
      let w : ℕ = 0x5C00 + b * 8 + a in
      let e : field_a w ≡ a = omega (arith, field_a_lem w) in
      let f : field_b w ≡ b = omega (arith, field_b_lem w) in
      let k : bit_and w 0x0E00 ≡ 0x0C00 = omega (arith, bit_and_0x0e00 w) in
      rw (e, f, k) (simp and_then_assoc)

  pub test-perform : (a : ℕ) → a < 8 → exec_alu (0x5E00 + a) s ≡ perform (Insn.test a) s
  unfolding exec_alu perform alu
  test-perform a ha =
      let w : ℕ = 0x5E00 + a in
      let e : field_a w ≡ a = omega (arith, field_a_lem w) in
      let k : bit_and w 0x0E00 ≡ 0x0E00 = omega (arith, bit_and_0x0e00 w) in
      rw (e, k) (simp and_then_assoc)

  branch_lem :
      (go : Bool) (target : Cmd ℕ) (len : ℕ)
      → and_then (branch go target len s) (λ _. pure false)
        ≡ (if go then (do t ← target; Isa.go_to t) else Isa.next len) s
  unfolding branch
  branch_lem true target len = simp and_then_assoc
  branch_lem false target len = refl

  pub jump-perform : (k : Cond) → exec_jump (encode (Insn.jump k)) s ≡ perform (Insn.jump k) s
  unfolding exec_jump perform encode
  jump-perform k =
      let w : ℕ = 0x6000 + cond_code k * 0x200 in
      let small = cond_code-le k in
      let e : field_op w ≡ cond_code k = omega (arith, field_op_lem w) in
      rw (e, leb_seven k, taken-holds k s) (branch_lem (holds k s) operand 4)

  pub jump_reg-perform :
      (k : Cond) (a : ℕ)
      → a < 8
      → exec_jump_reg (encode (Insn.jump_reg k a)) s ≡ perform (Insn.jump_reg k a) s
  unfolding exec_jump_reg perform encode
  jump_reg-perform k a h =
      let w : ℕ = 0x7000 + cond_code k * 0x200 + a in
      let small = cond_code-le k in
      let e : field_op w ≡ cond_code k = omega (arith, field_op_lem w) in
      let f : field_a w ≡ a = omega (arith, field_a_lem w) in
      rw (e, f, leb_seven k, taken-holds k s) (branch_lem (holds k s) (get_r a) 2)

  pub call-perform : exec_call s ≡ perform Insn.call s
  unfolding exec_call perform
  call-perform = simp and_then_assoc

  pub call_reg-perform :
      (a : ℕ) → a < 8 → exec_call_reg (0x9000 + a) s ≡ perform (Insn.call_reg a) s
  unfolding exec_call_reg perform
  call_reg-perform a h =
      let e : field_a (0x9000 + a) ≡ a = omega (arith, field_a_lem (0x9000 + a)) in
      rw e (simp and_then_assoc)

  pub push-perform : (a : ℕ) → a < 8 → exec_push (0xB000 + a) s ≡ perform (Insn.push a) s
  unfolding exec_push perform
  push-perform a h =
      let e : field_a (0xB000 + a) ≡ a = omega (arith, field_a_lem (0xB000 + a)) in rw e

  pub pop-perform : (a : ℕ) → a < 8 → exec_pop (0xC000 + a) s ≡ perform (Insn.pop a) s
  unfolding exec_pop perform
  pop-perform a h =
      let e : field_a (0xC000 + a) ≡ a = omega (arith, field_a_lem (0xC000 + a)) in rw e

  pub input-perform : (a : ℕ) → a < 8 → exec_in (0xD000 + a) s ≡ perform (Insn.input a) s
  unfolding exec_in perform
  input-perform a h =
      let e : field_a (0xD000 + a) ≡ a = omega (arith, field_a_lem (0xD000 + a)) in rw e

  pub output-perform : (a : ℕ) → a < 8 → exec_out (0xE000 + a) s ≡ perform (Insn.output a) s
  unfolding exec_out perform
  output-perform a h =
      let e : field_a (0xE000 + a) ≡ a = omega (arith, field_a_lem (0xE000 + a)) in rw e

-- RET changes PC and SP in the other order.
pub ret-perform : (s : Cpu) → exec_ret s ≡ perform Insn.ret s
unfolding exec_ret perform load2
ret-perform s = ground arith
