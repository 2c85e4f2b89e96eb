-- ===== src/Shell/Pipes/Whole.antt =====
-- `checkAndRunPipes` on a line, when every call succeeds.
use systems_projects.Prelude.{
  ℕ, ◌+◌, ◌≡◌, refl, ap, ◌∙◌, false, ◌==◌, none, some, List, [], ◌∷◌, ◌++◌, length, length-append,
  All, arith,
}
use systems_projects.Shell.Commands.{Token, pipe}
use systems_projects.Shell.Files.{File, lookup}
use systems_projects.Shell.Os.{Os, Shell}
use systems_projects.Shell.Loop.Stages.{Succeeds}
use systems_projects.Shell.Pipes.{
  run_vectors, run_cleared, run_places, run_commands, check_and_run_pipes,
}
use systems_projects.Shell.Pipes.Tokens.{Cells, command_args}
use systems_projects.Shell.Pipes.Run.{Some, Ran, run_vectors-Ran}
use systems_projects.Shell.Pipes.Lines.{
  Words, joined, somes, cut, clear_joined, width, command_args_lem,
}

width_joined :
    (c : List Token) (commands : List (List Token))
    → width (c ∷ commands) ≡ length (joined (c ∷ commands)) + 1
width_joined c [] = omega arith
width_joined c (d ∷ commands) =
    omega (arith, width_joined d commands, length-append c (pipe ∷ joined (d ∷ commands)))

runs_vectors :
    (os : Os) (c d : List Token) (commands : List (List Token)) (extra : Cells)
    → All Words (c ∷ d ∷ commands)
    → All Some (c ∷ d ∷ commands)
    → check_and_run_pipes os
        (somes (joined (c ∷ d ∷ commands)) ++ (none ∷ extra))
        (length (joined (c ∷ d ∷ commands)))
      ≡ some (run_vectors os (length (d ∷ commands)) (c ∷ d ∷ commands))
unfolding check_and_run_pipes run_cleared run_places run_commands
runs_vectors os c d commands extra words names =
    let all = c ∷ d ∷ commands in
    let n = length (joined all) in
    let cells = cut all ++ extra in
    let cleared = clear_joined c (d ∷ commands) extra words in
    let (args, vecs) =
      command_args_lem all cells extra 0 n refl names
        (omega (arith, width_joined c (d ∷ commands))) in
    let number : length (d ∷ commands) + 1 ≡ length all = omega arith in
    let args' = ap (λ k. command_args k cells n 0) number ∙ args in
    let some_pipe : (length (d ∷ commands) == 0) ≡ false = ground arith in
    ap (run_cleared os n) cleared
    ∙ rw (some_pipe, args') (ap (run_commands os (length (d ∷ commands))) vecs)

-- On the tokens of at least two commands, each of a word or more, with pipes between them, in an array
-- with NULL behind them: when every call succeeds, one child is started for each command, in order, and
-- all are waited for. Each runs its words, the first with the shell's input and each of the others with
-- the pipe that the one before it writes, the last with the shell's output, and otherwise with the
-- descriptors that the shell had before; and the shell has these again.
pub check_and_run_pipes-Ran :
    (os : Os) (pid : ℕ → ℕ) (s : Shell) (a b : File) (c d : List Token)
    (commands : List (List Token)) (extra : Cells)
    → Succeeds os pid
    → lookup s.fds 0 ≡ some a
    → lookup s.fds 1 ≡ some b
    → All Words (c ∷ d ∷ commands)
    → All Some (c ∷ d ∷ commands)
    → (check_and_run_pipes os
          (somes (joined (c ∷ d ∷ commands)) ++ (none ∷ extra))
          (length (joined (c ∷ d ∷ commands)))
        ≡ some (run_vectors os (length (d ∷ commands)) (c ∷ d ∷ commands)))
      × Ran os s a b (length (d ∷ commands)) (c ∷ d ∷ commands)
check_and_run_pipes-Ran os pid s a b c d commands extra works stdin stdout words names = (
  runs_vectors os c d commands extra words names,
  run_vectors-Ran os pid s a b (length (d ∷ commands)) (c ∷ d ∷ commands) works stdin stdout
      (omega arith) (omega arith) names,
)
