-- ===== src/Emulator/Format.antt =====
-- How the fields and the tests of emulate.c read a word of the instruction format.
use systems_projects.Prelude.{ℕ, ◌*◌, ◌/◌, ◌%◌, ◌≤◌, ◌≡◌, refl, true, arith, ◌==◌, leb, false}
use systems_projects.Prelude.Bits.{bit_and_0x07}
use systems_projects.Cpu.{Cpu, Cmd, Outcome, ok, fault, and_then, ◌>>=◌, ◌>>◌, get_r, set_r, set_sp}
use mathlib.Core.Path.{fun_ext}
use systems_projects.Emulator.Fields.{field_a, field_b, field_c, field_op}
use systems_projects.Emulator.Alu.{set_flags, write_result, shift_right, alu}
use systems_projects.Emulator.Control.{taken}
use systems_projects.Emulator.Isa
use systems_projects.Emulator.Isa.{
  Insn, IsInsn, encode, perform, holds, result, read, write, get_move, set_move, push_word,
  pop_word, AluOp, alu_code, Cond, cond_code,
}

-- The fields of a word by division.
pub field_a_lem : (w : ℕ) → field_a w ≡ w % 8
field_a_lem w = bit_and_0x07 w

pub field_b_lem : (w : ℕ) → field_b w ≡ w / 8 % 8
field_b_lem w = bit_and_0x07 (w / 8)

pub field_c_lem : (w : ℕ) → field_c w ≡ w / 64 % 8
field_c_lem w = bit_and_0x07 (w / 64)

pub field_op_lem : (w : ℕ) → field_op w ≡ w / 512 % 8
field_op_lem w = bit_and_0x07 (w / 512)

pub and_then_assoc :
    {A B C : Type 0} (r : Outcome A) (f : A → Cmd B) (g : B → Cmd C)
    → and_then (and_then r f) g ≡ and_then r (λ a s. and_then (f a s) g)
and_then_assoc (ok v t) f g = refl
and_then_assoc (fault e) f g = refl

pub set_move_sp : (dst : ℕ) → (dst == 8) ≡ true → set_move dst ≡ set_sp
unfolding set_move
set_move_sp dst e = fun_ext λ v. rw e

pub set_move_reg : (dst : ℕ) → (dst == 8) ≡ false → set_move dst ≡ set_r dst
unfolding set_move
set_move_reg dst e = fun_ext λ v. rw e

pub alu_code-le : (op : AluOp) → alu_code op ≤ 5
alu_code-le Isa.add = omega arith
alu_code-le _ = omega arith

pub alu-alu_code :
    (op : AluOp) (a b c : ℕ)
    → alu (alu_code op * 0x200) a b c
      ≡ (do x ← get_r a; y ← get_r b; v ← result op x y; set_r c v; set_flags v)
unfolding alu write_result shift_right result
alu-alu_code Isa.add a b c = refl
alu-alu_code _ a b c = refl

pub cond_code-le : (k : Cond) → cond_code k ≤ 6
cond_code-le Isa.always = omega arith
cond_code-le _ = omega arith

pub leb_seven : (k : Cond) → leb 7 (cond_code k) ≡ false
leb_seven Isa.always = refl
leb_seven _ = refl

pub taken-holds : (k : Cond) (s : Cpu) → taken (cond_code k) s.z s.n ≡ holds k s
unfolding taken holds
taken-holds Isa.always s = refl
taken-holds _ s = refl
