-- ===== src/Cpu.antt =====
-- The simulated machine of bare-metal-16bit/lab1.h, and the commands on it from which emulate.c is
-- written: reads and writes of its fields, `load2` and `store2`, and the standard streams.
pub mod Keeps
pub mod Memory
pub mod Moves
use systems_projects.Prelude.{
  ℕ, ◌+◌, ◌-◌, ◌*◌, ◌%◌, ◌^◌, bit_and, bit_or, List, [], ◌∷◌, ◌++◌, ltb, ◌==◌, if◌then◌else◌,
}
use systems_projects.Prelude.Bits.{shr}

-- An assignment to a `uint8_t` or a `uint16_t` converts the value.
abbrev pub u8 : ℕ → ℕ
u8 x = x % 2 ^ 8

abbrev pub u16 : ℕ → ℕ
u16 x = x % 2 ^ 16

-- `x - y` stored in a `uint16_t`.
abbrev pub sub16 : ℕ → ℕ → ℕ
sub16 x y = (x + 2 ^ 16 - y) % 2 ^ 16

-- The size of the array behind `memory`.
abbrev pub mem_size : ℕ
mem_size = 64 * 1024

-- `struct cpu`, with what is left of the standard input and what OUT has written, oldest first.
-- `memory` and `regs` are the arrays: the commands below check the index.
pub record Cpu : Type 0 where
  pub memory : ℕ → ℕ
  pub regs : ℕ → ℕ
  pub pc : ℕ
  pub sp : ℕ
  pub z : ℕ
  pub n : ℕ
  pub input : List ℕ
  pub output : List ℕ

-- What C leaves undefined: an index outside an array, and a shift by the width of `int` or more.
pub data Fault : Type 0 where
  bad_address bad_register bad_shift : Fault

pub data Outcome (A : Type 0) : Type 0 where
  ok : A → Cpu → Outcome A
  fault : Fault → Outcome A

abbrev pub Cmd : Type 0 → Type 0
Cmd A = Cpu → Outcome A

abbrev pub pure : {A : Type 0} → A → Cmd A
pure = ok

abbrev pub raise : {A : Type 0} → Fault → Cmd A
raise e s = fault e

module _ {A B : Type 0} where
  abbrev pub and_then : Outcome A → (A → Cmd B) → Outcome B
  and_then (ok a s) k = k a s
  and_then (fault e) k = fault e

  infixl 5 ◌>>=◌
  abbrev pub ◌>>=◌ : Cmd A → (A → Cmd B) → Cmd B
  m >>= k = λ s. and_then (m s) k

infixl 5 ◌>>◌
abbrev pub ◌>>◌ : {B : Type 0} → Cmd (Unit {0}) → Cmd B → Cmd B
m >> k = m >>= λ _. k

abbrev pub gets : (Cpu → ℕ) → Cmd ℕ
gets f s = ok (f s) s

abbrev pub modify : (Cpu → Cpu) → Cmd (Unit {0})
modify f s = ok tt (f s)

-- An array with one element replaced.
abbrev pub update : (ℕ → ℕ) → ℕ → ℕ → ℕ → ℕ
update f i v j = if i == j then v else f j

unfoldable pub read_byte : ℕ → Cmd ℕ
read_byte i s = if ltb i mem_size then ok (s.memory i) s else fault bad_address

unfoldable pub write_byte : ℕ → ℕ → Cmd (Unit {0})
write_byte i v s =
    if ltb i mem_size
    then ok tt (record s { memory = update s.memory i (u8 v) })
    else fault bad_address

unfoldable pub get_r : ℕ → Cmd ℕ
get_r i s = if ltb i 8 then ok (s.regs i) s else fault bad_register

unfoldable pub set_r : ℕ → ℕ → Cmd (Unit {0})
set_r i v s =
    if ltb i 8 then ok tt (record s { regs = update s.regs i (u16 v) }) else fault bad_register

abbrev pub set_pc : ℕ → Cmd (Unit {0})
set_pc v = modify λ s. record s { pc = u16 v }

abbrev pub set_sp : ℕ → Cmd (Unit {0})
set_sp v = modify λ s. record s { sp = u16 v }

-- The parameter `addr` is a `uint16_t`; `addr + 1` is computed in `int` and does not wrap.
unfoldable pub store2 : ℕ → ℕ → Cmd (Unit {0})
unfolding write_byte
store2 word addr = do
  write_byte (u16 addr) (bit_and (u16 word) 0xFF)
  write_byte (u16 addr + 1) (bit_and (shr (u16 word) 8) 0xFF)

unfoldable pub load2 : ℕ → Cmd ℕ
unfolding read_byte
load2 addr = do
  lo ← read_byte (u16 addr)
  hi ← read_byte (u16 addr + 1)
  pure (u16 (bit_or lo (hi * 2 ^ 8)))

-- `cpu->PC = cpu->PC + k`, and `load2(cpu, cpu->PC+2)`.
abbrev pub advance : ℕ → Cmd (Unit {0})
advance k = modify λ s. record s { pc = u16 (s.pc + k) }

unfoldable pub operand : Cmd ℕ
operand s = load2 (s.pc + 2) s

-- `fgetc(stdin)` stored in a `uint16_t`: the next byte, or EOF, which is -1.
next_char : List ℕ → ℕ
next_char [] = 0xFFFF
next_char (c ∷ rest) = c

after_char : List ℕ → List ℕ
after_char [] = []
after_char (c ∷ rest) = rest

unfoldable pub get_char : Cmd ℕ
unfolding next_char after_char
get_char s = ok (next_char s.input) (record s { input = after_char s.input })

-- `fputc(c, stdout)`, which writes `c` as an `unsigned char`.
unfoldable pub put_char : ℕ → Cmd (Unit {0})
put_char c s = ok tt (record s { output = s.output ++ (u8 c ∷ []) })
