-- ===== src/Shell/External.antt =====
-- The commands that run in a child process: `runExternal` and `runPipe` of
-- unix-shell-from-scratch/external_commands.c, and `runRedirectExternal` of internal_commands.c. What
-- they print to the standard error, and the default action of SIGINT in the child, are left out.
use systems_projects.Prelude.{ℕ, ◌/◌, ◌%◌, Bool, ◌==◌, if◌then◌else◌, Option, none, some, List}
use systems_projects.Shell.Commands.{Token, less, greater, Command}
use systems_projects.Shell.Files.{File, Table, read_file, write_file, take_lowest, close_fd, dup2}
use systems_projects.Shell.Os.{
  Os, Child, execs, exits, returns, Cmd, pure, exit, ◌>>=◌, ◌>>◌, set_qbuf, proc_fork, waitpid,
}
use systems_projects.Shell.Internal.{text_of, decimal}

-- `WIFEXITED` and `WEXITSTATUS` of a status word.
abbrev pub has_exited : ℕ → Bool
has_exited status = status % 128 == 0

abbrev pub exit_status : ℕ → ℕ
exit_status status = status / 256 % 256

unfoldable pub value_of : Option ℕ → ℕ → ℕ
value_of none unset = unset
value_of (some r) unset = r

-- A name to redirect to: `<` and `>` are none.
unfoldable pub file_name : Option Token → Option (List ℕ)
unfolding text_of
file_name none = none
file_name (some less) = none
file_name (some greater) = none
file_name (some t) = some (text_of t)

-- A file that is put in the place of a standard stream.
unfoldable pub replace : Table → File → ℕ → Table
replace t file stream = let (fd, t') = take_lowest t file in close_fd (dup2 t' fd stream) fd

-- An end of a pipe that is.
unfoldable pub connect : Table → (fd stream : ℕ) → Table
connect t fd stream = close_fd (dup2 t fd stream) fd

module _ (os : Os) where
  -- `execvp`, and `failed` where it returns.
  unfoldable pub exec_or : Child → (name : Token) → Command → Table → Child
  exec_or failed name cmd t = if os.executable (text_of name) then execs name cmd.args t else failed

  wait_for : Option ℕ → Cmd ℕ
  wait_for none = pure 0
  wait_for (some pid) = do
    status ← waitpid os pid
    if has_exited status then set_qbuf (decimal (exit_status status)) else pure tt
    pure status

  unfoldable pub run_external : (name : Token) → Command → Cmd ℕ
  unfolding exec_or wait_for value_of
  run_external name cmd =
      if value_of cmd.redirect os.unset == 0
      then pure 1
      else (do pid ← proc_fork os (λ t. exec_or (exits 1) name cmd t); wait_for pid)

  -- The child: where a call fails it returns, and goes on as a shell.
  unfoldable pub redirect_output : List ℕ → (name : Token) → Command → Table → Child
  unfolding exec_or
  redirect_output file name cmd t =
      let (fd, t') = take_lowest t (write_file file) in
      if os.writable file
      then (if os.chmod file
          then (let done = close_fd (dup2 t' fd 1) fd in exec_or (returns 1 done) name cmd done)
          else returns 1 t')
      else returns 1 t

  unfoldable pub redirect_input : List ℕ → (name : Token) → Command → Table → Child
  unfolding exec_or
  redirect_input file name cmd t =
      let (fd, t') = take_lowest t (read_file file) in
      if os.readable file
      then (if os.chmod file
          then (let done = close_fd (dup2 t' fd 0) fd in exec_or (returns 1 done) name cmd done)
          else returns 1 t')
      else returns 1 t

  wait_only : Option ℕ → Cmd ℕ
  wait_only none = pure 0
  wait_only (some pid) = waitpid os pid >>= λ status. pure 0

  redirected : Option (List ℕ) → Option (List ℕ) → (name : Token) → Command → Cmd ℕ
  redirected (some file) output name cmd =
      proc_fork os (λ t. redirect_input file name cmd t) >>= wait_only
  redirected none (some file) name cmd =
      proc_fork os (λ t. redirect_output file name cmd t) >>= wait_only
  redirected none none name cmd = pure 1

  unfoldable pub run_redirect_external : (name : Token) → Command → Cmd ℕ
  unfolding redirected wait_only file_name redirect_input redirect_output
  run_redirect_external name cmd = redirected (file_name cmd.input) (file_name cmd.output) name cmd

  -- The standard output of the child of a pipeline, `none` where its file cannot be opened. -1 for a
  -- descriptor is `none`.
  unfoldable pub pipe_output : Option ℕ → Option Token → Table → Option Table
  unfolding connect replace
  pipe_output (some fd) output t = some (connect t fd 1)
  pipe_output none none t = some t
  pipe_output none (some file) t =
      if os.writable (text_of file) then some (replace t (write_file (text_of file)) 1) else none

  unfoldable pub pipe_input : Option ℕ → Option Token → Table → Option Table
  unfolding connect replace
  pipe_input (some fd) input t = some (connect t fd 0)
  pipe_input none none t = some t
  pipe_input none (some file) t =
      if os.readable (text_of file) then some (replace t (read_file (text_of file)) 0) else none

  exec_redirected : (name : Token) → Command → Option Table → Child
  exec_redirected name cmd none = exits 1
  exec_redirected name cmd (some t) = exec_or (exits 1) name cmd t

  input_then_exec : (input : Option ℕ) → (name : Token) → Command → Option Table → Child
  input_then_exec input name cmd none = exits 1
  input_then_exec input name cmd (some t) = exec_redirected name cmd (pipe_input input cmd.input t)

  unfoldable pub pipe_child : (input output : Option ℕ) → (name : Token) → Command → Table → Child
  unfolding exec_redirected input_then_exec exec_or
  pipe_child input output name cmd t =
      input_then_exec input name cmd (pipe_output output cmd.output t)

  forked : Option ℕ → Cmd ℕ
  forked none = exit 1
  forked (some pid) = pure pid

  unfoldable pub run_pipe : (input output : Option ℕ) → (name : Token) → Command → Cmd ℕ
  unfolding pipe_child forked
  run_pipe input output name cmd = proc_fork os (λ t. pipe_child input output name cmd t) >>= forked
