-- ===== src/Emulator/Fields.antt =====
-- The instruction's fields, as `emulate` of bare-metal-16bit/emulate.c takes them out first.
use systems_projects.Prelude.{ℕ, bit_and}
use systems_projects.Prelude.Bits.{shr}

abbrev pub field_op : ℕ → ℕ
field_op insn = bit_and (shr insn 9) 7

abbrev pub field_c : ℕ → ℕ
field_c insn = bit_and (shr insn 6) 7

abbrev pub field_b : ℕ → ℕ
field_b insn = bit_and (shr insn 3) 7

abbrev pub field_a : ℕ → ℕ
field_a insn = bit_and insn 7
