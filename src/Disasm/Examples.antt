-- ===== src/Disasm/Examples.antt =====
-- Instructions as they are listed, and the theorems about the disassembler at them.
use systems_projects.Prelude.{
  ℕ, zero, suc, List, some, ltb, ◌&&◌, ◌+◌, ◌≤◌, ◌≡◌, refl, true, [], ◌∷◌, arith, codes,
}
use systems_projects.Cpu.{Cpu, ok, load2, u16}
use systems_projects.Cpu.Moves.{Moved}
use systems_projects.Emulator.Isa.{Insn, encode}
use systems_projects.Emulator.Step.{emulate}
use systems_projects.Runsim.{boot}
use systems_projects.Disasm.Bounds.{written, written-disasm}
use systems_projects.Disasm.Length.{emulate-disasm}
use systems_projects.Disasm.{disasm, line}
use systems_projects.Disasm.Listing.{Row, listing}
use systems_projects.Disasm.Listing.Covers.{Follow, Until, data_end, listing-Follow}

load_runs : disasm 0x2C0B 0x12AF ≡ line 2 (codes "LOAD.B R3 <- *R1")
unfolding disasm
load_runs = refl

jump_runs : disasm 0x6200 0x12AF ≡ line 4 (codes "JMP_Z 0x12af")
unfolding disasm
jump_runs = refl

-- LOAD.B R3 <- *R1, behind no other instruction.
abbrev loading : Cpu
loading = boot (0x0B ∷ 0x2C ∷ []) []

loading_fetched : load2 0 loading ≡ ok 0x2C0B loading
unfolding load2
loading_fetched = refl

written-disasm_example : written (disasm 0x3C0B 0x12AF) ≤ 22
written-disasm_example = written-disasm 0x3C0B 0x12AF

emulate-disasm_example :
    Moved (u16 (loading.pc + (disasm (encode (Insn.load_ind true 3 1)) 0).bytes)) (emulate loading)
unfolding encode
emulate-disasm_example =
    emulate-disasm loading (Insn.load_ind true 3 1) 0 (omega arith, omega arith) tt tt
      loading_fetched

-- LOAD.B R3 <- *R1 and HALT, and the text `hi`.
abbrev six_bytes : ℕ → ℕ
six_bytes zero = 0x0B
six_bytes (suc zero) = 0x2C
six_bytes (suc (suc zero)) = 0x00
six_bytes (suc (suc (suc zero))) = 0xF0
six_bytes (suc (suc (suc (suc zero)))) = b'h'
six_bytes (suc (suc (suc (suc (suc i))))) = b'i'

listing-Follow_example :
    (rows rest : List Row) × (middle : ℕ) × (listing (λ b. ltb 31 b && ltb b 127) six_bytes 6
      ≡ some (rows, rest))
    × Follow six_bytes 0 middle rows
    × Until 6 middle rows
    × Follow six_bytes middle (data_end 6 middle) rest
listing-Follow_example = listing-Follow (λ b. ltb 31 b && ltb b 127) six_bytes 6
