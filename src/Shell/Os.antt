-- ===== src/Shell/Os.antt =====
-- What the shell asks of the operating system, and the commands from which its C files are written.
-- `Os` gives the answers, which are any; the descriptors are those of POSIX.
use systems_projects.Prelude.{ℕ, ◌+◌, Bool, Option, none, some, List, [], ◌∷◌, ◌++◌}
use systems_projects.Shell.Files.{Table, pipe_read, pipe_write, take_lowest, close_fd}
use systems_projects.Shell.Commands.{Token}

-- Each call of `fork` gives a process id in the parent or fails. `wait` gives the status word of a
-- process, by its id, `home` that of `getenv("HOME")`, and `unset` is what a field holds that no one
-- has set. The others say whether a call succeeds for a name or a path.
pub record Os : Type 0 where
  pub fork : ℕ → Option ℕ
  pub wait : ℕ → ℕ
  pub executable : List ℕ → Bool
  pub readable : List ℕ → Bool
  pub writable : List ℕ → Bool
  pub chmod : List ℕ → Bool
  pub chdir : List ℕ → Bool
  pub home : Option (List ℕ)
  pub getcwd : (moves : List (List ℕ)) → Option (List ℕ)
  pub unset : ℕ

-- What a child process comes to: it runs a program with its arguments, exits, or goes on in the code
-- of the shell, as a second shell that has returned from the function with a value.
pub data Child : Type 0 where
  execs : (command : Token) (args : List Token) → Table → Child
  exits : ℕ → Child
  returns : ℕ → Table → Child

-- The shell's own process. `qbuf` is the text of `$?`, `forks` and `pipes` count the calls made,
-- and `moves` are the directories that `chdir` has gone to.
pub record Shell : Type 0 where
  pub fds : Table
  pub forks : ℕ
  pub pipes : ℕ
  pub children : List (ℕ × Child)
  pub waited : List ℕ
  pub qbuf : List ℕ
  pub printed : List (List ℕ)
  pub moves : List (List ℕ)

-- `exit` ends the shell.
pub data Outcome (A : Type 0) : Type 0 where
  ok : A → Shell → Outcome A
  exited : ℕ → Shell → Outcome A

abbrev pub Cmd : Type 0 → Type 0
Cmd A = Shell → Outcome A

abbrev pub pure : {A : Type 0} → A → Cmd A
pure = ok

abbrev pub exit : {A : Type 0} → ℕ → Cmd A
exit = exited

module _ {A B : Type 0} where
  abbrev pub and_then : Outcome A → (A → Cmd B) → Outcome B
  and_then (ok a s) k = k a s
  and_then (exited code s) k = exited code s

  infixl 5 ◌>>=◌
  abbrev pub ◌>>=◌ : Cmd A → (A → Cmd B) → Cmd B
  m >>= k = λ s. and_then (m s) k

infixl 5 ◌>>◌
abbrev pub ◌>>◌ : {B : Type 0} → Cmd (Unit {0}) → Cmd B → Cmd B
m >> k = m >>= λ _. k

abbrev pub modify : (Shell → Shell) → Cmd (Unit {0})
modify f s = ok tt (f s)

abbrev pub close : ℕ → Cmd (Unit {0})
close fd = modify λ s. record s { fds = close_fd s.fds fd }

-- The read end and the write end.
unfoldable pub pipe : Cmd (ℕ × ℕ)
pipe s =
    let (r, t) = take_lowest s.fds (pipe_read s.pipes) in
    let (w, t') = take_lowest t (pipe_write s.pipes) in
    ok (r, w) (record s { fds = t'; pipes = s.pipes + 1 })

abbrev pub set_qbuf : List ℕ → Cmd (Unit {0})
set_qbuf text = modify λ s. record s { qbuf = text }

born : Option ℕ → (Table → Child) → Cmd (Option ℕ)
born none child s = ok none (record s { forks = s.forks + 1 })
born (some pid) child s =
    ok (some pid)
      (record s { forks = s.forks + 1; children = s.children ++ ((pid, child s.fds) ∷ []) })

module _ (os : Os) where
  -- `fork`, with what the child does, which starts with a copy of the descriptors.
  unfoldable pub proc_fork : (Table → Child) → Cmd (Option ℕ)
  unfolding born
  proc_fork child s = born (os.fork s.forks) child s

  -- `waitpid`: the status word.
  unfoldable pub waitpid : ℕ → Cmd ℕ
  waitpid pid s = ok (os.wait pid) (record s { waited = s.waited ++ (pid ∷ []) })
