-- ===== src/Disasm.antt =====
-- bare-metal-16bit/disasm.c: the text and the length of an instruction. The formats of its calls of
-- `sprintf` are written out: `%d` at a number of 16 bits, and `%04x` at a uint16_t.
pub mod Bounds
mod Examples
pub mod Length
pub mod Listing
use systems_projects.Prelude.{
  ℕ, ◌+◌, ◌/◌, ◌%◌, bit_and, Bool, ltb, ◌==◌, if◌then◌else◌, Option, none, some, List, [], ◌∷◌,
  ◌++◌, codes,
}
use systems_projects.Prelude.Bits.{shr}

-- What `disasm` writes to `buf`, and its result. The text is `none` where `buf` is left as it was.
pub record Line : Type 0 where
  pub text : Option (List ℕ)
  pub bytes : ℕ

abbrev pub line : ℕ → List ℕ → Line
line bytes text = record { text = some text; bytes = bytes }

abbrev pub hex_digit : ℕ → ℕ
hex_digit d = if ltb d 10 then b'0' + d else 87 + d

unfoldable pub hex4 : ℕ → List ℕ
hex4 x =
    hex_digit (x / 4096 % 16)
    ∷ hex_digit (x / 256 % 16)
    ∷ hex_digit (x / 16 % 16)
    ∷ hex_digit (x % 16)
    ∷ []

abbrev digit : ℕ → List ℕ
digit n = (b'0' + n % 10) ∷ []

-- `%d` of a number of 16 bits.
unfoldable pub number : ℕ → List ℕ
number n =
    if ltb n 10
    then digit n
    else if ltb n 100
    then digit (n / 10) ++ digit n
    else if ltb n 1000
    then digit (n / 100) ++ (digit (n / 10) ++ digit n)
    else if ltb n 10000
    then digit (n / 1000) ++ (digit (n / 100) ++ (digit (n / 10) ++ digit n))
    else digit (n / 10000) ++ (digit (n / 1000) ++ (digit (n / 100) ++ (digit (n / 10) ++ digit n)))

-- `R%d`.
unfoldable pub reg : ℕ → List ℕ
unfolding number
reg r = b'R' ∷ number r

unfoldable pub reg_str : ℕ → List ℕ
unfolding reg
reg_str r = if ltb r 8 then reg r else if r == 8 then codes "SP" else codes "*BAD*"

unfoldable pub jmp_suff : ℕ → List ℕ
jmp_suff k =
    if k == 0
    then []
    else if k == 1
    then codes "_Z"
    else if k == 2
    then codes "_NZ"
    else if k == 3
    then codes "_LT"
    else if k == 4
    then codes "_GT"
    else if k == 5
    then codes "_LE"
    else if k == 6
    then codes "_GE"
    else codes "_*ILLEGAL*"

-- The `.B` of LOAD and STORE.
unfoldable pub byte_suff : ℕ → List ℕ
byte_suff insn = if bit_and insn 0x0400 == 0 then [] else codes ".B"

unfoldable pub three : List ℕ → List ℕ → (ra rb rc : ℕ) → List ℕ
unfolding reg
three name op ra rb rc = name ++ (reg ra ++ (op ++ (reg rb ++ (codes " -> " ++ reg rc))))

unfoldable pub disasm_load : (insn next ra rb : ℕ) → Line
unfolding byte_suff hex4 reg
disasm_load insn next ra rb =
    let start = codes "LOAD" ++ (byte_suff insn ++ (b' ' ∷ (reg ra ++ codes " <- *"))) in
    if bit_and insn 0x0800 == 0
    then line 4 (start ++ (codes "0x" ++ hex4 next))
    else line 2 (start ++ reg rb)

unfoldable pub disasm_store : (insn next ra rb : ℕ) → Line
unfolding byte_suff hex4 reg
disasm_store insn next ra rb =
    let start = codes "STORE" ++ (byte_suff insn ++ (b' ' ∷ (reg ra ++ codes " -> *"))) in
    if bit_and insn 0x0800 == 0
    then line 4 (start ++ (codes "0x" ++ hex4 next))
    else line 2 (start ++ reg rb)

unfoldable pub disasm_move : ℕ → Line
unfolding reg_str
disasm_move insn = line 2 (
    codes "MOV "
    ++ (reg_str (bit_and insn 0xF) ++ (codes " -> " ++ reg_str (shr (bit_and insn 0xF0) 4))))

-- The switch on `op`; the last branch is TEST, since `op` is `insn & 0x0E00`.
unfoldable pub alu_text : (op ra rb rc : ℕ) → List ℕ
unfolding three reg
alu_text op ra rb rc =
    if op == 0x0000
    then three (codes "ADD ") (codes " + ") ra rb rc
    else if op == 0x0200
    then three (codes "SUB ") (codes " - ") ra rb rc
    else if op == 0x0400
    then three (codes "AND ") (codes " & ") ra rb rc
    else if op == 0x0600
    then three (codes "OR ") (codes " | ") ra rb rc
    else if op == 0x0800
    then three (codes "XOR ") (codes " ^ ") ra rb rc
    else if op == 0x0A00
    then three (codes "RSHIFT ") (codes " >> ") ra rb rc
    else if op == 0x0C00
    then codes "CMP " ++ (reg ra ++ (codes " - " ++ reg rb))
    else codes "TEST " ++ reg ra

-- The switch on `insn & 0xF000`, which is `high`.
unfoldable pub disasm_op : (high insn next ra rb rc : ℕ) → Line
unfolding disasm_load disasm_store disasm_move alu_text hex4 jmp_suff reg
disasm_op high insn next ra rb rc =
    if high == 0x1000
    then line 4 (codes "SET " ++ (reg ra ++ (codes " = 0x" ++ hex4 next)))
    else if high == 0x2000
    then disasm_load insn next ra rb
    else if high == 0x3000
    then disasm_store insn next ra rb
    else if high == 0x4000
    then disasm_move insn
    else if high == 0x5000
    then line 2 (alu_text (bit_and insn 0x0E00) ra rb rc)
    else if high == 0x6000
    then line 4
        (codes "JMP" ++ (jmp_suff (shr (bit_and insn 0x0E00) 9) ++ (codes " 0x" ++ hex4 next)))
    else if high == 0x7000
    then line 2 (codes "JMP" ++ (jmp_suff (shr (bit_and insn 0x0E00) 9) ++ (codes " *" ++ reg rc)))
    else if high == 0x8000
    then line 4 (codes "CALL 0x" ++ hex4 next)
    else if high == 0x9000
    then line 2 (codes "CALL *" ++ reg rc)
    else if high == 0xA000
    then line 2 (codes "RET")
    else if high == 0xB000
    then line 2 (codes "PUSH " ++ reg rc)
    else if high == 0xC000
    then line 2 (codes "POP " ++ reg rc)
    else if high == 0xD000
    then line 2 (codes "IN " ++ reg rc)
    else if high == 0xE000
    then line 2 (codes "OUT " ++ reg rc)
    else if high == 0xF000
    then line 2 (codes "HALT")
    else record { text = none; bytes = 2 }

unfoldable pub disasm : (insn next : ℕ) → Line
unfolding disasm_op
disasm insn next =
    disasm_op (bit_and insn 0xF000) insn next (bit_and insn 7) (shr (bit_and insn 0x38) 3)
      (shr (bit_and insn 0x1C0) 6)
