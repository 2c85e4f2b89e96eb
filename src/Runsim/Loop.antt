-- ===== src/Runsim/Loop.antt =====
-- What the main loop keeps, and what its check of PC does.
use systems_projects.Prelude.{ℕ, zero, suc, ◌^◌, ◌<◌, List, All}
use systems_projects.Cpu.{Cpu, Fault, Outcome, ok, fault}
use systems_projects.Cpu.Keeps.{IsWf, Kept, kept, faulted, Keeps, keeps_rules}
use systems_projects.Emulator.Invariant.{emulate-Keeps}
use systems_projects.Emulator.Isa
use systems_projects.Runsim.{
  Verdict, go_on, halted, pc_unchanged, round, Exit, stopped, failed, undefined, running,
  after_round, simulate, boot,
}
use systems_projects.Runsim.Image.{boot-IsWf}

round-Keeps : Keeps round
unfolding round
round-Keeps = search (keeps_rules, emulate-Keeps)

-- The state that an exit leaves, if it leaves one.
pub data ExitIsWf : Exit → Type 0 where
  at_stop : {s : Cpu} → IsWf s → ExitIsWf (stopped s)
  at_failure : {s : Cpu} → IsWf s → ExitIsWf (failed s)
  at_fault : {e : Fault} → ExitIsWf (undefined e)
  at_round : {s : Cpu} → IsWf s → ExitIsWf (running s)

after_round-IsWf :
    (r : Outcome Verdict) (next : Cpu → Exit)
    → Kept r
    → ((s : Cpu) → IsWf s → ExitIsWf (next s))
    → ExitIsWf (after_round r next)
unfolding after_round
after_round-IsWf (ok go_on s) next (kept h) ih = ih s h
after_round-IsWf (ok halted s) next (kept h) ih = at_stop h
after_round-IsWf (ok pc_unchanged s) next (kept h) ih = at_failure h
after_round-IsWf (fault e) next faulted ih = at_fault

simulate-IsWf : (rounds : ℕ) (s : Cpu) → IsWf s → ExitIsWf (simulate rounds s)
unfolding simulate
simulate-IsWf zero s h = at_round h
simulate-IsWf (suc rounds) s h =
    after_round-IsWf (round s) (simulate rounds) (round-Keeps.at s h) (simulate-IsWf rounds)

-- However many rounds it is given, a simulation of any file of bytes on any input ends or goes on in
-- a well-formed state, or meets undefined behaviour.
pub simulate-boot-IsWf :
    (rounds : ℕ) (file input : List ℕ)
    → All (λ c. c < 2 ^ 8) file
    → All (λ c. c < 2 ^ 8) input
    → ExitIsWf (simulate rounds (boot file input))
simulate-boot-IsWf rounds file input hf hi =
    simulate-IsWf rounds (boot file input) (boot-IsWf file input hf hi)
