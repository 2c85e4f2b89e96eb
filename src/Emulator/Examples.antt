-- ===== src/Emulator/Examples.antt =====
-- Small programs, run by evaluation, and the theorems about the emulator at their states.
use systems_projects.Prelude.{ℕ, ◌≡◌, refl, false, List, [], ◌∷◌, ◌<◌, arith, All, ◌^◌}
use systems_projects.Cpu.{Cpu, ok, load2, operand, set_r, update}
use systems_projects.Cpu.Keeps.{IsWf, Kept}
use systems_projects.Emulator.Data.{exec_set}
use systems_projects.Emulator.Step.{emulate}
use systems_projects.Emulator.Invariant.{emulate-IsWf}
use systems_projects.Emulator.Isa
use systems_projects.Emulator.Isa.{Insn, encode, perform}
use systems_projects.Emulator.Decode.{emulate-perform}
use systems_projects.Emulator.Stack.{two_steps, pushed, push-pop, call-ret}
use systems_projects.Emulator.Compare.{compared, cmp-jump}
use systems_projects.Emulator.StoreLoad.{word_stored, byte_stored, store-load, store_byte-load_byte}
use systems_projects.Runsim.{boot, simulate}
use systems_projects.Runsim.Image.{boot-IsWf}
use systems_projects.Runsim.Loop.{ExitIsWf, simulate-boot-IsWf}

-- SET R3 = 0x1234; HALT.
abbrev set_file : List ℕ
set_file = 0x03 ∷ 0x10 ∷ 0x34 ∷ 0x12 ∷ 0x00 ∷ 0xF0 ∷ []

set_runs :
    emulate (boot set_file [])
    ≡ ok false (record (boot set_file []) { regs = update (λ _. 0) 3 0x1234; pc = 4 })
unfolding emulate exec_set load2 operand set_r
set_runs = refl

-- ADD R1 + R2 -> R3.
abbrev add_file : List ℕ
add_file = 0xD1 ∷ 0x50 ∷ []

-- PUSH R3; POP R4.
abbrev push_file : List ℕ
push_file = 0x03 ∷ 0xB0 ∷ 0x04 ∷ 0xC0 ∷ []

-- CALL 6; HALT; RET.
abbrev call_file : List ℕ
call_file = 0x00 ∷ 0x80 ∷ 0x06 ∷ 0x00 ∷ 0x00 ∷ 0xF0 ∷ 0x00 ∷ 0xA0 ∷ []

-- CMP R0 - R1; JMP_Z 0x0010.
abbrev compare_file : List ℕ
compare_file = 0x08 ∷ 0x5C ∷ 0x00 ∷ 0x62 ∷ 0x10 ∷ 0x00 ∷ []

-- STORE R1 -> *0x5678; LOAD R2 <- *0x5678, and the same with bytes.
abbrev store_file : List ℕ
store_file = 0x01 ∷ 0x30 ∷ 0x78 ∷ 0x56 ∷ 0x02 ∷ 0x20 ∷ 0x78 ∷ 0x56 ∷ []

abbrev store_byte_file : List ℕ
store_byte_file = 0x01 ∷ 0x34 ∷ 0x78 ∷ 0x56 ∷ 0x02 ∷ 0x24 ∷ 0x78 ∷ 0x56 ∷ []

-- JMP 0; and JMP 0x6000.
abbrev loop_file : List ℕ
loop_file = 0x00 ∷ 0x60 ∷ 0x00 ∷ 0x00 ∷ []

abbrev far_file : List ℕ
far_file = 0x00 ∷ 0x60 ∷ 0x00 ∷ 0x60 ∷ []

-- The state in which R1 holds 0xAB.
abbrev loaded : List ℕ → Cpu
loaded file = record (boot file []) { regs = update (λ _. 0) 1 0xAB }

loaded-IsWf : (file : List ℕ) → All (λ c. c < 2 ^ 8) file → IsWf (loaded file)
loaded-IsWf file h = let w = boot-IsWf file [] h tt in grind arith

emulate-IsWf_example : Kept (emulate (boot set_file []))
emulate-IsWf_example = emulate-IsWf (boot set_file []) (boot-IsWf set_file [] (omega arith) tt)

emulate-perform_example :
    emulate (boot add_file []) ≡ perform (Insn.alu Isa.add 1 2 3) (boot add_file [])
unfolding load2 encode
emulate-perform_example =
    emulate-perform (boot add_file []) (Insn.alu Isa.add 1 2 3) (omega arith) tt refl

push-pop_example :
    two_steps (loaded push_file)
    ≡ ok false (record (pushed (loaded push_file) 0) {
      regs = update (loaded push_file).regs 4 0;
      sp = 0xFFFE;
      pc = 4;
    })
unfolding load2 encode
push-pop_example =
    push-pop (loaded push_file) (loaded-IsWf push_file (omega arith)) (omega arith) 3 4
      (omega arith) (omega arith) refl refl

call-ret_example :
    two_steps (boot call_file [])
    ≡ ok false (record (pushed (boot call_file []) 4) { sp = 0xFFFE; pc = 4 })
unfolding load2 encode operand
call-ret_example =
    call-ret (boot call_file []) (boot-IsWf call_file [] (omega arith) tt) (omega arith) 6
      (omega arith) refl refl refl

cmp-jump_example :
    ((loaded compare_file).regs 0 ≡ (loaded compare_file).regs 1
      → two_steps (loaded compare_file)
        ≡ ok false (record (compared (loaded compare_file) 0 1) { pc = 0x10 }))
    × (¬ ((loaded compare_file).regs 0 ≡ (loaded compare_file).regs 1)
        → two_steps (loaded compare_file)
          ≡ ok false (record (compared (loaded compare_file) 0 1) { pc = 6 }))
unfolding load2 encode operand
cmp-jump_example =
    cmp-jump (loaded compare_file) (loaded-IsWf compare_file (omega arith)) 0 1 (omega arith)
      (omega arith) Isa.zero 0x10 (omega arith) (omega arith) refl refl refl

store-load_example :
    two_steps (loaded store_file)
    ≡ ok false (record (word_stored (loaded store_file) 1 0x5678) {
      regs = update (loaded store_file).regs 2 0xAB;
      pc = 8;
    })
unfolding load2 encode operand
store-load_example =
    store-load (loaded store_file) (loaded-IsWf store_file (omega arith)) 1 2 0x5678 (omega arith)
      (omega arith) (omega arith) refl refl refl refl

store_byte-load_byte_example :
    two_steps (loaded store_byte_file)
    ≡ ok false (record (byte_stored (loaded store_byte_file) 1 0x5678) {
      regs = update (loaded store_byte_file).regs 2 0;
      pc = 8;
    })
unfolding load2 encode operand
store_byte-load_byte_example =
    store_byte-load_byte (loaded store_byte_file) (loaded-IsWf store_byte_file (omega arith)) 1 2
      0x5678 (omega arith) (omega arith) (omega arith) refl refl refl refl

simulate-boot-IsWf_example : ExitIsWf (simulate 5 (boot set_file []))
simulate-boot-IsWf_example = simulate-boot-IsWf 5 set_file [] (omega arith) tt
