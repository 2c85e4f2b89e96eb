-- ===== src/Shell/Pipes.antt =====
-- `checkAndRunPipes` of unix-shell-from-scratch/external_commands.c, which makes all pipes of a line
-- before it starts a command, and which no other file calls. What it prints is left out, and `pipe` is
-- taken to succeed.
pub mod Tokens
pub mod Opened
pub mod Held
pub mod Stages
pub mod Forks
pub mod Run
pub mod Lines
pub mod Whole
mod Examples
use systems_projects.Prelude.{
  ℕ, zero, suc, ◌+◌, ◌-◌, Bool, true, false, ◌==◌, if◌then◌else◌, Option, none, some, List, [], ◌∷◌,
  get_elem?,
}
use systems_projects.Shell.Commands.{Token}
use systems_projects.Shell.Files.{Table, close_fd, dup2}
use systems_projects.Shell.Os.{
  Os, Child, execs, exits, Cmd, pure, exit, ◌>>=◌, ◌>>◌, close, pipe, proc_fork, waitpid,
}
use systems_projects.Shell.Internal.{text_of}
use systems_projects.Shell.Pipes.Tokens.{Cells, clear_pipes, command_args, vectors}

-- `pipesFD`, a reading and a writing end each.
abbrev pub Pipes : Type 0
Pipes = List (ℕ × ℕ)

unfoldable pub open_pipes : (pipe_count : ℕ) → Cmd Pipes
open_pipes zero = pure []
open_pipes (suc n) = do ends ← pipe; pipes ← open_pipes n; pure (ends ∷ pipes)

-- `pipesFD[i]` in the place of the standard input, or of the output; the places that the code asks for
-- are those of pipes.
abbrev pub input_from : Option (ℕ × ℕ) → Table → Table
input_from none t = t
input_from (some ends) t = dup2 t ends.0 0

abbrev pub output_to : Option (ℕ × ℕ) → Table → Table
output_to none t = t
output_to (some ends) t = dup2 t ends.1 1

unfoldable pub close_pipes : Pipes → Table → Table
close_pipes [] t = t
close_pipes (ends ∷ pipes) t = close_pipes pipes (close_fd (close_fd t ends.0) ends.1)

unfoldable pub redirect_ends : Pipes → (command_total command_idx : ℕ) → Table → Table
redirect_ends pipes command_total command_idx t =
    if command_idx == command_total - 1
    then input_from (get_elem? pipes (command_idx - 1)) t
    else if command_idx == 0
    then output_to (get_elem? pipes command_idx) t
    else output_to (get_elem? pipes command_idx) (input_from (get_elem? pipes (command_idx - 1)) t)

module _ (os : Os) where
  unfoldable pub exec_vector : List Token → Table → Child
  exec_vector [] t = exits 1
  exec_vector (name ∷ args) t =
      if os.executable (text_of name) then execs name (name ∷ args) t else exits 1

  unfoldable pub pipes_child : Pipes → (command_total command_idx : ℕ) → List Token → Table → Child
  unfolding redirect_ends close_pipes exec_vector
  pipes_child pipes command_total command_idx argv t =
      exec_vector argv (close_pipes pipes (redirect_ends pipes command_total command_idx t))

  forked_or_exit : Option ℕ → Cmd ℕ
  forked_or_exit none = exit 1
  forked_or_exit (some pid) = pure pid

  -- What the parent closes when it has started a command.
  close_write : Option (ℕ × ℕ) → Cmd (Unit {0})
  close_write none = pure tt
  close_write (some ends) = close ends.1

  close_read : Option (ℕ × ℕ) → Cmd (Unit {0})
  close_read none = pure tt
  close_read (some ends) = close ends.0

  unfoldable pub fork_commands :
      Pipes → (command_total command_idx : ℕ) → (commands : List (List Token)) → Cmd (List ℕ)
  unfolding pipes_child forked_or_exit close_write close_read
  fork_commands pipes command_total command_idx [] = pure []
  fork_commands pipes command_total command_idx (argv ∷ commands) = do
    forked ← proc_fork os (λ t. pipes_child pipes command_total command_idx argv t)
    pid ← forked_or_exit forked
    if command_idx == command_total - 1 then pure tt else close_write (get_elem? pipes command_idx)
    if command_idx == 0 then pure tt else close_read (get_elem? pipes (command_idx - 1))
    pids ← fork_commands pipes command_total (command_idx + 1) commands
    pure (pid ∷ pids)

  unfoldable pub wait_each : List ℕ → Cmd (Unit {0})
  wait_each [] = pure tt
  wait_each (pid ∷ pids) = do status ← waitpid os pid; wait_each pids

  -- From the argument vectors of the commands.
  unfoldable pub run_vectors : (pipe_count : ℕ) → List (List Token) → Cmd ℕ
  unfolding open_pipes fork_commands wait_each
  run_vectors pipe_count commands = do
    pipes ← open_pipes pipe_count
    pids ← fork_commands pipes (pipe_count + 1) 0 commands
    wait_each pids
    pure 1

  unfoldable pub run_commands : (pipe_count : ℕ) → Option (List (List Token)) → Option (Cmd ℕ)
  run_commands pipe_count none = none
  run_commands pipe_count (some commands) = some (run_vectors pipe_count commands)

  unfoldable pub run_places : Cells → (pipe_count : ℕ) → Option (List ℕ) → Option (Cmd ℕ)
  unfolding run_commands
  run_places cells pipe_count none = none
  run_places cells pipe_count (some places) = run_commands pipe_count (vectors cells places)

  -- `isPipe`, which is returned, is 1 where a pipe has been counted.
  unfoldable pub run_cleared : (n_tokens : ℕ) → Option (Cells × ℕ) → Option (Cmd ℕ)
  unfolding run_places
  run_cleared n_tokens none = none
  run_cleared n_tokens (some (cells, pipe_count)) =
      if pipe_count == 0
      then some (pure 0)
      else run_places cells pipe_count (command_args (pipe_count + 1) cells n_tokens 0)

  -- There is no result where the array of tokens is read behind its end.
  unfoldable pub check_and_run_pipes : Cells → (n_tokens : ℕ) → Option (Cmd ℕ)
  unfolding run_cleared
  check_and_run_pipes cells n_tokens = run_cleared n_tokens (clear_pipes n_tokens cells)
