-- ===== src/Runsim.antt =====
-- bare-metal-16bit/runsim.c: the initial state and the main loop. What the options -v and -r print
-- is left out, with the reads that -v makes for it.
pub mod Image
pub mod Loop
use systems_projects.Prelude.{ℕ, suc, zero, Bool, true, false, List, [], ◌∷◌, ◌==◌, if◌then◌else◌}
use systems_projects.Cpu.{Cpu, Fault, Outcome, ok, fault, Cmd, pure, ◌>>=◌, gets, load2}
use systems_projects.Emulator.Step.{emulate}

-- Memory after `fread` has put the file at address 0 of the zeroed array.
abbrev pub image : List ℕ → ℕ → ℕ
image [] i = 0
image (b ∷ bytes) zero = b
image (b ∷ bytes) (suc i) = image bytes i

-- `_cpu`, with the program loaded.
abbrev pub boot : (file input : List ℕ) → Cpu
boot file input = record {
  memory = image file;
  regs = λ _. 0;
  pc = 0;
  sp = 0xFFFE;
  z = 0;
  n = 0;
  input = input;
  output = [];
}

pub data Verdict : Type 0 where
  go_on halted pc_unchanged : Verdict

-- One round of `while (1)`. `old_pc` is what the source calls it: the word at PC.
unfoldable pub round : Cmd Verdict
round = do
  pc ← gets (λ s. s.pc)
  old_pc ← load2 pc
  stop ← emulate
  new_pc ← gets (λ s. s.pc)
  pure (if stop then halted else (if old_pc == new_pc then pc_unchanged else go_on))

-- How the program ends: `break`, the error exit, undefined behaviour, or not within the rounds given.
pub data Exit : Type 0 where
  stopped : Cpu → Exit
  failed : Cpu → Exit
  undefined : Fault → Exit
  running : Cpu → Exit

unfoldable pub after_round : Outcome Verdict → (Cpu → Exit) → Exit
after_round (ok go_on s) next = next s
after_round (ok halted s) next = stopped s
after_round (ok pc_unchanged s) next = failed s
after_round (fault e) next = undefined e

unfoldable pub simulate : ℕ → Cpu → Exit
unfolding after_round
simulate zero s = running s
simulate (suc rounds) s = after_round (round s) (simulate rounds)
