-- ===== src/Shell/Loop.antt =====
-- unix-shell-from-scratch/command_loop.c: a single command, and the loop over the commands of a line.
pub mod Ends
pub mod Stages
pub mod Chains
pub mod Rounds
pub mod Pipelines
pub mod Operators
pub mod Single
use systems_projects.Prelude.{
  ℕ, zero, suc, ◌+◌, Bool, true, false, not, ◌&&◌, ◌==◌, if◌then◌else◌, Option, none, some, List,
  [], ◌∷◌, ◌++◌, codes,
}
use systems_projects.Shell.Commands.{Token, Command, text_eq, is_null}
use systems_projects.Shell.Os.{
  Os, Shell, Outcome, Cmd, pure, ◌>>=◌, ◌>>◌, close, pipe, set_qbuf, waitpid,
}
use systems_projects.Shell.Internal.{text_of, decimal, run_exit, run_pwd, run_cd}
use systems_projects.Shell.External.{
  has_exited, exit_status, run_external, run_redirect_external, run_pipe,
}

-- `close` of a descriptor that may be -1, which has no effect.
unfoldable pub close_end : Option ℕ → Cmd (Unit {0})
close_end none = pure tt
close_end (some fd) = close fd

module _ (os : Os) where
  -- A command alone, by its name.
  unfoldable pub standalone_command : (name : Token) → Command → Cmd ℕ
  standalone_command name cmd =
      if text_eq (text_of name) (codes "pwd")
      then run_pwd os
      else if text_eq (text_of name) (codes "cd")
      then (do status ← run_cd os cmd; set_qbuf (decimal status); pure 0)
      else if text_eq (text_of name) (codes "exit")
      then (do status ← run_exit cmd; set_qbuf (decimal status); pure 0)
      else if is_null cmd.output && is_null cmd.input
      then run_external os name cmd
      else (do status ← run_redirect_external os name cmd; pure 0)

  -- The loop that waits for the children; the status word of the last one is returned.
  unfoldable pub wait_all : List ℕ → (exit_code : ℕ) → Cmd ℕ
  wait_all [] exit_code = pure exit_code
  wait_all (pid ∷ pids) exit_code = do
    status ← waitpid os pid
    set_qbuf (decimal (exit_status status))
    wait_all pids status

  -- One round of the loop over the commands, with `previous_pipe_read_end` and `childPids`: whether
  -- `next` and `prev` are NULL and whether `next_pipe` is 1 decide on it. `more` is the rounds left.
  unfoldable pub run_round :
      (no_next no_prev is_and : Bool)
      → (name : Token) → Command
      → Option ℕ
      → List ℕ
      → (exit_code : ℕ) → (more : Option ℕ → List ℕ → ℕ → Cmd ℕ) → Cmd ℕ
  unfolding close_end
  run_round true true true name c previous pids exit_code more = more previous pids exit_code
  run_round true true false name c previous pids exit_code more =
      standalone_command name c >>= more previous pids
  run_round false true is_and name c previous pids exit_code more = do
    (read_end, write_end) ← pipe
    pid ← run_pipe os none (some write_end) name c
    close write_end
    more (some read_end) (pids ++ (pid ∷ [])) exit_code
  run_round false false is_and name c previous pids exit_code more = do
    (read_end, write_end) ← pipe
    pid ← run_pipe os previous (some write_end) name c
    close write_end
    more (some read_end) (pids ++ (pid ∷ [])) exit_code
  run_round true false is_and name c previous pids exit_code more = do
    pid ← run_pipe os previous none name c
    close_end previous
    more previous (pids ++ (pid ∷ [])) exit_code

  -- A command without a name ends the loop at once.
  unfoldable pub run_named :
      Option Token
      → Command
      → Option ℕ
      → List ℕ
      → (exit_code : ℕ) → (more : Option ℕ → List ℕ → ℕ → Cmd ℕ) → Cmd ℕ
  unfolding run_round
  run_named none c previous pids exit_code more = pure 1
  run_named (some name) c previous pids exit_code more =
      run_round (is_null c.next) (is_null c.prev) (c.next_pipe == 1) name c previous pids exit_code
        more

  -- `childPids`, of 32 numbers, is a list without a bound: a list that `main` makes has at most 31
  -- commands.
  unfoldable pub run_from : List Command → Option ℕ → List ℕ → (exit_code : ℕ) → Cmd ℕ
  unfolding wait_all
  run_from [] previous pids exit_code = wait_all pids exit_code
  run_from (c ∷ commands) previous pids exit_code =
      run_named c.command c previous pids exit_code (run_from commands)

  -- From the commands in the order of the list.
  unfoldable pub run_pipeline : List Command → Cmd ℕ
  unfolding run_from
  run_pipeline commands = run_from commands none [] 0
