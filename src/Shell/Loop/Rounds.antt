-- ===== src/Shell/Loop/Rounds.antt =====
-- The rounds of the loop over a line of two commands or more, when every call succeeds.
use systems_projects.Prelude.{
  ℕ, ◌+◌, ◌≡◌, refl, ap, ◌∙◌, true, false, ◌==◌, Option, none, some, List, [], ◌∷◌, ◌++◌,
  append_assoc, length, All, arith,
}
use systems_projects.Shell.Commands.{Token, Command, is_null}
use systems_projects.Shell.Commands.Links.{LinkedFrom}
use systems_projects.Shell.Files.{File, pipe_read, lookup, close_fd}
use systems_projects.Shell.Files.Laws.{open_count, open_count-close_fd, is_open}
use systems_projects.Shell.Os.{Os, Child, Shell, ok, Cmd, proc_fork}
use systems_projects.Shell.External.{run_pipe, pipe_child}
use systems_projects.Shell.Loop.{close_end, wait_all, run_round, run_named, run_from}
use systems_projects.Shell.Loop.Ends.{pipe_lem, read_of, write_of, piped, old_ends}
use systems_projects.Shell.Loop.Stages.{
  Succeeds, Ready, stdin_for, first-Joined, middle-Joined, last-Joined,
}
use systems_projects.Shell.Loop.Chains.{
  Named, Chain, pids_of, with_child, without_writer, open_count-without_writer,
  without_writer-Ready, read_end-without_writer,
}

module _ (os : Os) (pid : ℕ → ℕ) (works : Succeeds os pid) where
  run_pipe_lem :
      (input output : Option ℕ) (name : Token) (c : Command) (s : Shell)
      → run_pipe os input output name c s
        ≡ ok (pid s.forks) (with_child s (pid s.forks) (pipe_child os input output name c s.fds))
  unfolding run_pipe proc_fork
  run_pipe_lem input output name c s = rw (works.forks s.forks) refl

  -- The state after a command that is not the last one.
  abbrev pub after_command : Shell → Child → Shell
  after_command s child = with_child (without_writer s) (pid s.forks) child

  pub first_round :
      (c : Command) (name : Token) (pids : List ℕ) (code : ℕ) (more : Option ℕ → List ℕ → ℕ → Cmd ℕ)
      (s : Shell)
      → c.command ≡ some name
      → is_null c.next ≡ false
      → is_null c.prev ≡ true
      → run_named os c.command c none pids code more s
        ≡ more
            (some (read_of s))
            (pids ++ (pid s.forks ∷ []))
            code
            (after_command s (pipe_child os none (some (write_of s)) name c (piped s).fds))
  unfolding run_named run_round
  first_round c name pids code more s named has_next no_prev =
      ap (λ (n : Option Token). run_named os n c none pids code more s) named
      ∙ rw (has_next, no_prev, pipe_lem s, run_pipe_lem none (some (write_of s)) name c (piped s))
          refl

  middle_round :
      (c : Command) (name : Token) (previous : Option ℕ) (pids : List ℕ) (code : ℕ)
      (more : Option ℕ → List ℕ → ℕ → Cmd ℕ) (s : Shell)
      → c.command ≡ some name
      → is_null c.next ≡ false
      → is_null c.prev ≡ false
      → run_named os c.command c previous pids code more s
        ≡ more
            (some (read_of s))
            (pids ++ (pid s.forks ∷ []))
            code
            (after_command s (pipe_child os previous (some (write_of s)) name c (piped s).fds))
  unfolding run_named run_round
  middle_round c name previous pids code more s named has_next has_prev =
      ap (λ (n : Option Token). run_named os n c previous pids code more s) named
      ∙ rw
          (
            has_next,
            has_prev,
            pipe_lem s,
            run_pipe_lem previous (some (write_of s)) name c (piped s),
          )
          refl

  last_round :
      (c : Command) (name : Token) (r : ℕ) (pids : List ℕ) (code : ℕ)
      (more : Option ℕ → List ℕ → ℕ → Cmd ℕ) (s : Shell)
      → c.command ≡ some name
      → is_null c.next ≡ true
      → is_null c.prev ≡ false
      → run_named os c.command c (some r) pids code more s
        ≡ more
            (some r)
            (pids ++ (pid s.forks ∷ []))
            code
            (record (with_child s (pid s.forks) (pipe_child os (some r) none name c s.fds)) {
              fds = close_fd s.fds r;
            })
  unfolding run_named run_round close_end
  last_round c name r pids code more s named no_next has_prev =
      ap (λ (n : Option Token). run_named os n c (some r) pids code more s) named
      ∙ rw (no_next, has_prev, run_pipe_lem (some r) none name c s) refl

  -- What the rounds from a command on come to.
  pub record Rounds (more : Cmd ℕ) (s : Shell) (pids : List ℕ) (code : ℕ) (input own : File)
      (commands : List Command) (leak : ℕ) : Type 0 where
    pub last : Shell
    pub kids : List (ℕ × Child)
    pub runs : more s ≡ wait_all os (pids ++ pids_of kids) code last
    pub started : last.children ≡ s.children ++ kids
    pub chain : Chain s.pipes input own commands kids
    pub opened : open_count last.fds + 1 ≡ open_count s.fds + leak
    pub same : last.waited ≡ s.waited

  close_last :
      (s : Shell) (r k : ℕ)
      → lookup s.fds r ≡ some (pipe_read k)
      → open_count (close_fd s.fds r) + 1 ≡ open_count s.fds
  close_last s r k e =
      let there : is_open (lookup s.fds r) ≡ 1 = rw e refl in
      omega (arith, there, open_count-close_fd s.fds r)

  run_rest :
      (c : Command) (commands : List Command) (i : ℕ) (s : Shell) (r k : ℕ) (pids : List ℕ)
      (code : ℕ) (a b : File)
      → LinkedFrom (i + 1) (some i) (c ∷ commands)
      → All Named (c ∷ commands)
      → Ready s.fds a b
      → lookup s.fds r ≡ some (pipe_read k)
      → (r == 0) ≡ false
      → (r == 1) ≡ false
      → Rounds
          (run_from os (c ∷ commands) (some r) pids code)
          s
          pids
          code
          (pipe_read k)
          b
          (c ∷ commands)
          (length commands)
  unfolding run_from is_null
  run_rest c [] i s r k pids code a b (before, after) ((name, named), _) ready open_end r0 r1 =
      record {
        last = _;
        kids = (pid s.forks, pipe_child os (some r) none name c s.fds) ∷ [];
        runs =
            last_round c name r pids code (run_from os []) s named (rw after refl) (rw before refl);
        started = refl;
        chain = last-Joined os pid works s a b ready r k open_end r0 r1 c name named;
        opened = omega (arith, close_last s r k open_end);
        same = refl;
      }
  run_rest c (d ∷ commands) i s r k pids code a b (before, after, links) ((name, named), names)
        ready open_end r0 r1 =
      let child = pipe_child os (some r) (some (write_of s)) name c (piped s).fds in
      let s1 = after_command s child in
      let ih =
        run_rest d commands (i + 1) s1 (read_of s) s.pipes (pids ++ (pid s.forks ∷ [])) code a b
          links names (without_writer-Ready s a b ready) (read_end-without_writer s)
          (old_ends s 0 a ready.stdin).0 (old_ends s 1 b ready.stdout).0 in
      record {
        last = ih.last;
        kids = (pid s.forks, child) ∷ ih.kids;
        runs =
            middle_round c name (some r) pids code (run_from os (d ∷ commands)) s named
              (rw after refl) (rw before refl)
            ∙ ih.runs
            ∙ rw append_assoc refl;
        started = ih.started ∙ rw append_assoc refl;
        chain = (middle-Joined os pid works s a b ready r k open_end r0 r1 c name named, ih.chain);
        opened = omega (arith, ih.opened, open_count-without_writer s);
        same = ih.same;
      }

  pub run_all :
      (c d : Command) (commands : List Command) (s : Shell) (a b : File)
      → LinkedFrom 0 none (c ∷ d ∷ commands)
      → All Named (c ∷ d ∷ commands)
      → Ready s.fds a b
      → Rounds
          (run_from os (c ∷ d ∷ commands) none [] 0)
          s
          []
          0
          (stdin_for c.input a)
          b
          (c ∷ d ∷ commands)
          (length commands + 1)
  unfolding run_from is_null
  run_all c d commands s a b (before, after, links) ((name, named), names) ready =
      let child = pipe_child os none (some (write_of s)) name c (piped s).fds in
      let s1 = after_command s child in
      let ih =
        run_rest d commands 0 s1 (read_of s) s.pipes (pid s.forks ∷ []) 0 a b links names
          (without_writer-Ready s a b ready) (read_end-without_writer s)
          (old_ends s 0 a ready.stdin).0 (old_ends s 1 b ready.stdout).0 in
      record {
        last = ih.last;
        kids = (pid s.forks, child) ∷ ih.kids;
        runs =
            first_round c name [] 0 (run_from os (d ∷ commands)) s named (rw after refl)
              (rw before refl)
            ∙ ih.runs;
        started = ih.started ∙ rw append_assoc refl;
        chain = (first-Joined os pid works s a b ready c name named, ih.chain);
        opened = omega (arith, ih.opened, open_count-without_writer s);
        same = ih.same;
      }
