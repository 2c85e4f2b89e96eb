-- ===== src/Shell/Loop/Single.antt =====
-- A command that is alone on its line.
use systems_projects.Prelude.{
  ℕ, ◌+◌, ◌<◌, ◌≡◌, refl, ap, ◌∙◌, true, false, ◌&&◌, ◌==◌, if◌then◌else◌, Option, none, some, List,
  [], ◌∷◌, ◌++◌, arith, codes, Bool-cases, inl, inr,
}
use systems_projects.Shell.Commands.{Token, Command, is_null, text_eq}
use systems_projects.Shell.Files.{File, read_file, Table, lookup, take_lowest}
use systems_projects.Shell.Os.{Os, Child, execs, exits, returns, Shell, ok, proc_fork, waitpid}
use systems_projects.Shell.Internal.{text_of, decimal, digits, signed, atoi_byte}
use systems_projects.Shell.External.{
  replace, has_exited, exit_status, exec_or, run_external, redirect_input, file_name,
  run_redirect_external, value_of,
}
use systems_projects.Shell.Loop.Ends.{lookup-replace, lowest-ne}
use systems_projects.Shell.Loop.{
  standalone_command, wait_all, run_round, run_named, run_from, run_pipeline,
}

-- `exit` gives back the number that is printed for an exit status.
pub atoi_byte-decimal : (n : ℕ) → n < 256 → atoi_byte (decimal n) ≡ n
unfolding atoi_byte decimal signed digits
atoi_byte-decimal n h = ground arith

-- One command with a name, not linked to another, and with no `&&` behind it.
pub record IsAlone (c : Command) (name : Token) : Type 0 where
  pub named : c.command ≡ some name
  pub no_next : is_null c.next ≡ true
  pub no_prev : is_null c.prev ≡ true
  pub no_and : (c.next_pipe == 1) ≡ false

-- It is not one of the three that the shell runs itself.
pub record IsExternal (name : Token) : Type 0 where
  pub not_pwd : text_eq (text_of name) (codes "pwd") ≡ false
  pub not_cd : text_eq (text_of name) (codes "cd") ≡ false
  pub not_exit : text_eq (text_of name) (codes "exit") ≡ false

module _ (os : Os) (s s' : Shell) (c : Command) (name : Token) (status : ℕ)
    (alone : IsAlone c name) where
  -- The loop runs such a command and returns its status.
  pub run_pipeline-alone :
      standalone_command os name c s ≡ ok status s' → run_pipeline os (c ∷ []) s ≡ ok status s'
  unfolding run_pipeline run_from run_named run_round wait_all
  run_pipeline-alone e =
      ap (λ (n : Option Token). run_named os n c none [] 0 (run_from os []) s) alone.named
      ∙ rw (alone.no_next, alone.no_prev, alone.no_and, e) refl

  standalone_external :
      IsExternal name
      → is_null c.output ≡ true
      → is_null c.input ≡ true
      → standalone_command os name c s ≡ run_external os name c s
  unfolding standalone_command
  standalone_external ext no_out no_in =
      rw (ext.not_pwd, ext.not_cd, ext.not_exit, no_out, no_in) refl

  standalone_redirect :
      IsExternal name
      → (is_null c.output && is_null c.input) ≡ false
      → run_redirect_external os name c s ≡ ok 0 s'
      → standalone_command os name c s ≡ ok 0 s'
  unfolding standalone_command
  standalone_redirect ext files e = rw (ext.not_pwd, ext.not_cd, ext.not_exit, files, e) refl

file_name_null : (t : Option Token) (f : List ℕ) → file_name t ≡ some f → is_null t ≡ false
unfolding file_name is_null
file_name_null none f e = cc
file_name_null (some t) f e = refl

-- The shell when a child has been started and waited for.
abbrev pub waited_child : Shell → (pid : ℕ) → Child → (qbuf : List ℕ) → Shell
waited_child s pid child qbuf = record s {
  forks = s.forks + 1;
  children = s.children ++ ((pid, child) ∷ []);
  waited = s.waited ++ (pid ∷ []);
  qbuf = qbuf;
}

module _ (os : Os) (s : Shell) (c : Command) (name : Token) (pid : ℕ) (alone : IsAlone c name)
    (ext : IsExternal name) (forks : os.fork s.forks ≡ some pid) where
  -- The child of a command with no files runs it with the shell's descriptors, if it can, or exits,
  -- and the shell waits for it and returns its status word; if it exited, its exit status becomes the
  -- text of `$?`. This holds unless what is in `redirect` is 0.
  pub run_pipeline-external :
      (value_of c.redirect os.unset == 0) ≡ false
      → is_null c.output ≡ true
      → is_null c.input ≡ true
      → run_pipeline os (c ∷ []) s
        ≡ ok (os.wait pid) (
            waited_child s pid
              (if os.executable (text_of name) then execs name c.args s.fds else exits 1)
              (if has_exited (os.wait pid) then decimal (exit_status (os.wait pid)) else s.qbuf))
  unfolding run_external proc_fork waitpid exec_or
  run_pipeline-external set no_out no_in = run_pipeline-alone os s _ c name (os.wait pid) alone (
      standalone_external os s s c name (os.wait pid) alone ext no_out no_in
      ∙ rw (set, forks)
          (elim (Bool-cases (has_exited (os.wait pid))) [ inl e ↦ rw e refl | inr e ↦ rw e refl ]))

  input_child :
      (file : List ℕ)
      → file_name c.input ≡ some file
      → run_pipeline os (c ∷ []) s
        ≡ ok 0 (waited_child s pid (redirect_input os file name c s.fds) s.qbuf)
  unfolding run_redirect_external proc_fork waitpid
  input_child file named = run_pipeline-alone os s _ c name 0 alone (
      standalone_redirect os s _ c name 0 alone ext
        (ground (arith, file_name_null c.input file named)) (rw (named, forks) refl))

  -- With an input file that can be opened, the child reads it and writes to the shell's own output,
  -- also where the command has an output file.
  pub run_pipeline-input :
      (file : List ℕ) (a b : File)
      → file_name c.input ≡ some file
      → (os.readable file && os.chmod file && os.executable (text_of name)) ≡ true
      → lookup s.fds 0 ≡ some a
      → lookup s.fds 1 ≡ some b
      → (t : Table) × (run_pipeline os (c ∷ []) s
          ≡ ok 0 (waited_child s pid (execs name c.args t) s.qbuf))
        × (lookup t 0 ≡ some (read_file file))
        × (lookup t 1 ≡ some b)
  unfolding redirect_input exec_or replace
  run_pipeline-input file a b named works stdin stdout =
      let opens : os.readable file ≡ true = ground arith in
      let changes : os.chmod file ≡ true = ground arith in
      let runs : os.executable (text_of name) ≡ true = ground arith in
      let t = replace s.fds (read_file file) 0 in
      let child : redirect_input os file name c s.fds ≡ execs name c.args t =
        rw (opens, changes, runs) refl in
      (
        t,
        input_child file named ∙ ap (λ (k : Child). ok 0 (waited_child s pid k s.qbuf)) child,
        ground (arith, lookup-replace s.fds (read_file file) 0 0, lowest-ne s.fds 0 a stdin),
        ground (arith, lookup-replace s.fds (read_file file) 0 1, lowest-ne s.fds 1 b stdout),
      )

  second_shell :
      (file : List ℕ)
      → (os.readable file && os.chmod file && os.executable (text_of name)) ≡ false
      → (t : Table) × (redirect_input os file name c s.fds ≡ returns 1 t)
  unfolding redirect_input exec_or replace
  second_shell file fails = elim (Bool-cases (os.readable file)) [
    | inl opens ↦ elim (Bool-cases (os.chmod file)) [
      | inl changes ↦
          let stops : os.executable (text_of name) ≡ false = ground arith in
          (replace s.fds (read_file file) 0, rw (opens, changes, stops) refl)
      | inr stays ↦ ((take_lowest s.fds (read_file file)).1, rw (opens, stays) refl)
    ]
    | inr shut ↦ (s.fds, rw shut refl)
  ]

  -- A command alone that is none of `pwd`, `cd` and `exit`, with an input file that cannot be opened, or
  -- whose mode cannot be changed, or a program that cannot be executed: if `fork` succeeds, the child
  -- goes on in the code of the shell, which waits for it.
  pub run_pipeline-second_shell :
      (file : List ℕ)
      → file_name c.input ≡ some file
      → (os.readable file && os.chmod file && os.executable (text_of name)) ≡ false
      → (t : Table) × (run_pipeline os (c ∷ []) s ≡ ok 0 (waited_child s pid (returns 1 t) s.qbuf))
  run_pipeline-second_shell file named fails =
      let (t, child) = second_shell file fails in
      (t, input_child file named ∙ ap (λ (k : Child). ok 0 (waited_child s pid k s.qbuf)) child)
