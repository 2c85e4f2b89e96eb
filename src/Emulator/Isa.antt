-- ===== src/Emulator/Isa.antt =====
-- The instruction set as data: its binary format, and what each instruction does.
use systems_projects.Prelude.{
  ℕ, ◌+◌, ◌*◌, ◌/◌, ◌^◌, ◌≤◌, ◌<◌, bit_and, bit_or, bit_xor, Bool, true, false, ◌&&◌, ◌||◌, ltb,
  ◌==◌, if◌then◌else◌,
}
use systems_projects.Cpu.{
  Cpu, Cmd, bad_shift, pure, raise, ◌>>=◌, ◌>>◌, gets, sub16, u16, read_byte, write_byte, get_r,
  set_r, set_pc, set_sp, advance, operand, load2, store2, get_char, put_char,
}
use systems_projects.Emulator.Alu.{set_flags}

pub data Cond : Type 0 where
  always zero not_zero less greater less_equal greater_equal : Cond

-- Those that write a register; the other two set the flags only.
pub data AluOp : Type 0 where
  add sub conj disj xor rshift : AluOp

pub data Insn : Type 0 where
  set : ℕ → Insn
  load_abs : (byte : Bool) → ℕ → Insn
  load_ind : (byte : Bool) → ℕ → ℕ → Insn
  store_abs : (byte : Bool) → ℕ → Insn
  store_ind : (byte : Bool) → ℕ → ℕ → Insn
  move : (src dst : ℕ) → Insn
  alu : AluOp → (a b c : ℕ) → Insn
  cmp : (a b : ℕ) → Insn
  test : ℕ → Insn
  jump : Cond → Insn
  jump_reg : Cond → ℕ → Insn
  call : Insn
  call_reg : ℕ → Insn
  ret : Insn
  push : ℕ → Insn
  pop : ℕ → Insn
  input : ℕ → Insn
  output : ℕ → Insn
  halt : Insn

abbrev pub cond_code : Cond → ℕ
cond_code always = 0
cond_code zero = 1
cond_code not_zero = 2
cond_code less = 3
cond_code greater = 4
cond_code less_equal = 5
cond_code greater_equal = 6

abbrev pub alu_code : AluOp → ℕ
alu_code add = 0
alu_code sub = 1
alu_code conj = 2
alu_code disj = 3
alu_code xor = 4
alu_code rshift = 5

abbrev pub bit : Bool → ℕ
bit true = 1
bit false = 0

-- The first word of an instruction, in the format that the assembler writes.
unfoldable pub encode : Insn → ℕ
encode (set a) = 0x1000 + a
encode (load_abs byte a) = 0x2000 + bit byte * 0x400 + a
encode (load_ind byte a b) = 0x2800 + bit byte * 0x400 + b * 8 + a
encode (store_abs byte a) = 0x3000 + bit byte * 0x400 + a
encode (store_ind byte a b) = 0x3800 + bit byte * 0x400 + b * 8 + a
encode (move src dst) = 0x4000 + dst * 16 + src
encode (alu op a b c) = 0x5000 + alu_code op * 0x200 + c * 64 + b * 8 + a
encode (cmp a b) = 0x5C00 + b * 8 + a
encode (test a) = 0x5E00 + a
encode (jump k) = 0x6000 + cond_code k * 0x200
encode (jump_reg k a) = 0x7000 + cond_code k * 0x200 + a
encode call = 0x8000
encode (call_reg a) = 0x9000 + a
encode ret = 0xA000
encode (push a) = 0xB000 + a
encode (pop a) = 0xC000 + a
encode (input a) = 0xD000 + a
encode (output a) = 0xE000 + a
encode halt = 0xF000

-- Register numbers are below 8, and 8 in a move is the stack pointer.
abbrev pub IsInsn : Insn → Type 0
IsInsn (set a) = a < 8
IsInsn (load_abs byte a) = a < 8
IsInsn (load_ind byte a b) = (a < 8) × (b < 8)
IsInsn (store_abs byte a) = a < 8
IsInsn (store_ind byte a b) = (a < 8) × (b < 8)
IsInsn (move src dst) = (src ≤ 8) × (dst ≤ 8)
IsInsn (alu op a b c) = (a < 8) × (b < 8) × (c < 8)
IsInsn (cmp a b) = (a < 8) × (b < 8)
IsInsn (test a) = a < 8
IsInsn (jump_reg k a) = a < 8
IsInsn (call_reg a) = a < 8
IsInsn (push a) = a < 8
IsInsn (pop a) = a < 8
IsInsn (input a) = a < 8
IsInsn (output a) = a < 8
IsInsn _ = Unit

-- All but two: STORE.B to an absolute address, which emulate.c does otherwise, and MOVE of SP to SP,
-- for which it reads and writes `R[8]`, behind the array.
abbrev pub Conforms : Insn → Type 0
Conforms (store_abs true a) = ⊥
Conforms (store_abs false a) = Unit
Conforms (move src dst) = src + dst < 16
Conforms _ = Unit

-- Whether a jump is taken, from the last result's flags.
unfoldable pub holds : Cond → Cpu → Bool
holds always s = true
holds zero s = s.z == 1
holds not_zero s = s.z == 0
holds less s = s.n == 1
holds greater s = (s.n == 0) && (s.z == 0)
holds less_equal s = (s.n == 1) || (s.z == 1)
holds greater_equal s = s.n == 0

unfoldable pub result : AluOp → ℕ → ℕ → Cmd ℕ
result add x y = pure (u16 (x + y))
result sub x y = pure (sub16 x y)
result conj x y = pure (bit_and x y)
result disj x y = pure (bit_or x y)
result xor x y = pure (bit_xor x y)
result rshift x y = if ltb y 32 then pure (x / 2 ^ y) else raise bad_shift

unfoldable pub read : (byte : Bool) → ℕ → Cmd ℕ
read true addr = read_byte addr
read false addr = load2 addr

unfoldable pub write : (byte : Bool) → ℕ → ℕ → Cmd (Unit {0})
write true v addr = write_byte addr (bit_and v 0xFF)
write false v addr = store2 v addr

-- A register by its number in a move.
unfoldable pub get_move : ℕ → Cmd ℕ
get_move r = if r == 8 then gets (λ s. s.sp) else get_r r

unfoldable pub set_move : ℕ → ℕ → Cmd (Unit {0})
set_move r v = if r == 8 then set_sp v else set_r r v

unfoldable pub push_word : ℕ → Cmd (Unit {0})
push_word v = do sp ← gets (λ s. s.sp); set_sp (sub16 sp 2); store2 v (sub16 sp 2)

unfoldable pub pop_word : Cmd ℕ
pop_word = do sp ← gets (λ s. s.sp); v ← load2 sp; set_sp (sp + 2); pure v

-- The next instruction, `len` bytes on.
abbrev pub next : ℕ → Cmd Bool
next len = do advance len; pure false

abbrev pub go_to : ℕ → Cmd Bool
go_to target = do set_pc target; pure false

unfoldable pub perform : Insn → Cmd Bool
unfolding read write get_move set_move push_word pop_word
perform (set a) = do v ← operand; set_r a v; next 4
perform (load_abs byte a) = do addr ← operand; v ← read byte addr; set_r a v; next 4
perform (load_ind byte a b) = do addr ← get_r b; v ← read byte addr; set_r a v; next 2
perform (store_abs byte a) = do addr ← operand; v ← get_r a; write byte v addr; next 4
perform (store_ind byte a b) = do v ← get_r a; addr ← get_r b; write byte v addr; next 2
perform (move src dst) = do v ← get_move src; set_move dst v; next 2
perform (alu op a b c) = do
  x ← get_r a
  y ← get_r b
  v ← result op x y
  set_r c v
  set_flags v
  next 2
perform (cmp a b) = do x ← get_r a; y ← get_r b; set_flags (sub16 x y); next 2
perform (test a) = do x ← get_r a; set_flags x; next 2
perform (jump k) = λ s. (if holds k s then (do t ← operand; go_to t) else next 4) s
perform (jump_reg k a) = λ s. (if holds k s then (do t ← get_r a; go_to t) else next 2) s
perform call = do pc ← gets (λ s. s.pc); push_word (pc + 4); t ← operand; go_to t
perform (call_reg a) = do pc ← gets (λ s. s.pc); push_word (pc + 2); t ← get_r a; go_to t
perform ret = do t ← pop_word; go_to t
perform (push a) = do
  sp ← gets (λ s. s.sp)
  set_sp (sub16 sp 2)
  v ← get_r a
  store2 v (sub16 sp 2)
  next 2
perform (pop a) = do sp ← gets (λ s. s.sp); v ← load2 sp; set_r a v; set_sp (sp + 2); next 2
perform (input a) = do c ← get_char; set_r a c; next 2
perform (output a) = do v ← get_r a; put_char v; next 2
perform halt = pure true
