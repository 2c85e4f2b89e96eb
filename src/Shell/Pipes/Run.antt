-- ===== src/Shell/Pipes/Run.antt =====
-- `checkAndRunPipes` when every call succeeds.
use systems_projects.Prelude.{
  ℕ, ◌+◌, ◌-◌, ◌≤◌, ◌<◌, ◌≡◌, refl, sym, ap, ◌∙◌, true, false, ◌==◌, some, List, [], ◌∷◌, ◌++◌,
  append_assoc, append-nil, length, All, arith, Bool-cases, inl, inr,
}
use systems_projects.Shell.Commands.{Token}
use systems_projects.Shell.Files.{File, Table, lookup, close_fd}
use systems_projects.Shell.Os.{Os, Child, Shell, ok, and_then, pure, proc_fork, waitpid}
use systems_projects.Shell.Loop.Stages.{Succeeds}
use systems_projects.Shell.Loop.Chains.{pids_of}
use systems_projects.Shell.Pipes.{Pipes, pipes_child, fork_commands, wait_each, run_vectors}
use systems_projects.Shell.Pipes.Opened.{Opened, open_pipes-Opens}
use systems_projects.Shell.Pipes.Held.{get_some, Held, Opened-Held}
use systems_projects.Shell.Pipes.Stages.{input_of, output_of, Stage, child-Stage}
use systems_projects.Shell.Pipes.Forks.{first-Held, last-Held, middle-Held, all_closed}

-- A command has a name.
abbrev pub Some : List Token → Type 0
Some [] = ⊥
Some (name ∷ args) = Unit

-- The children of the commands from a number on, of which `k` is the last one.
abbrev pub Staged :
    (base k : ℕ) (t0 : Table) (a b : File) (idx : ℕ) → List (List Token) → List (ℕ × Child) → Type 0
Staged base k t0 a b idx [] [] = Unit
Staged base k t0 a b idx [] (kid ∷ kids) = ⊥
Staged base k t0 a b idx (argv ∷ commands) [] = ⊥
Staged base k t0 a b idx (argv ∷ commands) (kid ∷ kids) =
    Stage t0 argv (input_of base a idx) (output_of base k b idx) kid.1
    × Staged base k t0 a b (idx + 1) commands kids

module _ (os : Os) (pid : ℕ → ℕ) (works : Succeeds os pid) (base : ℕ) (t0 start : Table)
    (a b : File) (pipes : Pipes) (o : Opened base t0 start pipes) (some_pipe : 0 < length pipes)
    (stdin : lookup t0 0 ≡ some a) (stdout : lookup t0 1 ≡ some b) where
  pub record Forked (idx : ℕ) (commands : List (List Token)) (s : Shell) : Type 0 where
    pub final : Shell
    pub kids : List (ℕ × Child)
    pub runs : fork_commands os pipes (length pipes + 1) idx commands s ≡ ok (pids_of kids) final
    pub started : final.children ≡ s.children ++ kids
    pub staged : Staged base (length pipes) t0 a b idx commands kids
    pub waited : final.waited ≡ s.waited
    pub restored : (x : ℕ) → lookup final.fds x ≡ lookup t0 x

  -- The shell behind one fork, with descriptors `t`.
  abbrev behind : (idx : ℕ) → List Token → Shell → Table → Shell
  behind idx argv s t = record s {
    fds = t;
    forks = s.forks + 1;
    children =
        s.children ++ ((pid s.forks, pipes_child os pipes (length pipes + 1) idx argv s.fds) ∷ []);
  }

  one_fork :
      (idx : ℕ) (argv : List Token) (commands : List (List Token)) (s : Shell)
      → Held base t0 pipes idx s.fds
      → idx ≤ length pipes
      → (t : Table) × Held base t0 pipes (idx + 1) t
        × (fork_commands os pipes (length pipes + 1) idx (argv ∷ commands) s
            ≡ and_then
                (fork_commands os pipes (length pipes + 1) (idx + 1) commands (behind idx argv s t))
                (λ pids. pure (pid s.forks ∷ pids)))
  unfolding fork_commands proc_fork
  one_fork idx argv commands s held small = elim (Bool-cases (idx == length pipes)) [
    | inl last ↦
        let test : (idx == length pipes + 1 - 1) ≡ true = ground arith in
        let inner : (idx == 0) ≡ false = ground arith in
        let (r, got) = get_some pipes (idx - 1) (ground arith) in
        (
          close_fd s.fds r.0,
          last-Held base t0 start pipes o idx s.fds held r last inner got,
          rw (works.forks s.forks, test, inner, got) refl,
        )
    | inr not_last ↦
        let test : (idx == length pipes + 1 - 1) ≡ false = ground arith in
        let (q, got) = get_some pipes idx (ground arith) in
        elim (Bool-cases (idx == 0)) [
          | inl first ↦ (
            close_fd s.fds q.1,
            first-Held base t0 start pipes o idx s.fds held q first got,
            rw (works.forks s.forks, test, got, first) refl,
          )
          | inr inner ↦
              let (r, got') = get_some pipes (idx - 1) (ground arith) in
              (
                close_fd (close_fd s.fds q.1) r.0,
                middle-Held base t0 start pipes o idx s.fds held q r inner got got',
                rw (works.forks s.forks, test, got, inner, got') refl,
              )
        ]
  ]

  all_forks :
      (commands : List (List Token)) (idx : ℕ) (s : Shell)
      → Held base t0 pipes idx s.fds
      → All Some commands
      → idx + length commands ≡ length pipes + 1
      → Forked idx commands s
  unfolding fork_commands
  all_forks [] idx s held names size = record {
    final = s;
    kids = [];
    runs = refl;
    started = sym (append-nil s.children);
    staged = tt;
    waited = refl;
    restored = all_closed base t0 start pipes o idx s.fds held (ground (arith, size));
  }
  all_forks ([] ∷ commands) idx s held (named, names) size = absurd named
  all_forks ((name ∷ args) ∷ commands) idx s held (named, names) size =
      let argv = name ∷ args in
      let (t, held', runs) = one_fork idx argv commands s held (omega (arith, size)) in
      let r =
        all_forks commands (idx + 1) (behind idx argv s t) held' names (omega (arith, size)) in
      let rest = r.runs in
      let child = pipes_child os pipes (length pipes + 1) idx argv s.fds in
      record {
        final = r.final;
        kids = (pid s.forks, child) ∷ r.kids;
        runs = runs ∙ rw rest refl;
        started = r.started ∙ append_assoc s.children ((pid s.forks, child) ∷ []) r.kids;
        staged = (
          child-Stage base (length pipes) t0 pipes a b refl some_pipe stdin stdout o.free idx s.fds
              held (omega (arith, size)) os pid works argv name args refl,
          r.staged,
        );
        waited = r.waited;
        restored = r.restored;
      }

wait_each_lem :
    (os : Os) (pids : List ℕ) (s : Shell)
    → wait_each os pids s ≡ ok tt (record s { waited = s.waited ++ pids })
unfolding wait_each waitpid
wait_each_lem os [] s =
    ap (λ (l : List ℕ). ok tt (record s { waited = l })) (sym (append-nil s.waited))
wait_each_lem os (pid ∷ pids) s =
    wait_each_lem os pids (record s { waited = s.waited ++ (pid ∷ []) }) ∙ rw append_assoc refl

-- What a run leaves, of the shell `s` with the streams `a` and `b`.
pub record Ran (os : Os) (s : Shell) (a b : File) (k : ℕ) (commands : List (List Token))
    : Type 0 where
  pub final : Shell
  pub kids : List (ℕ × Child)
  pub runs : run_vectors os k commands s ≡ ok 1 final
  pub started : final.children ≡ s.children ++ kids
  pub staged : Staged s.pipes k s.fds a b 0 commands kids
  pub waited : final.waited ≡ s.waited ++ pids_of kids
  pub restored : (x : ℕ) → lookup final.fds x ≡ lookup s.fds x

-- On one command more than pipes, at least two, each with a name, when every call succeeds: one child
-- is started for each, in order, and all are waited for. Each runs its argument vector, the first with
-- the shell's input and each of the others with the pipe that the one before it writes, the last with
-- the shell's output, and otherwise with the descriptors that the shell had before, so no end of a pipe
-- is left open in a child but as its input and output; and none is left open in the shell.
pub run_vectors-Ran :
    (os : Os) (pid : ℕ → ℕ) (s : Shell) (a b : File) (k : ℕ) (commands : List (List Token))
    → Succeeds os pid
    → lookup s.fds 0 ≡ some a
    → lookup s.fds 1 ≡ some b
    → 0 < k
    → length commands ≡ k + 1
    → All Some commands
    → Ran os s a b k commands
unfolding run_vectors
run_vectors-Ran os pid s a b k commands works stdin stdout some_pipe size names =
    let r = open_pipes-Opens k s in
    let s1 = record s { fds = r.fds; pipes = s.pipes + k } in
    let opened = r.runs in
    let f =
      all_forks os pid works s.pipes s.fds r.fds a b r.pipes r.opened (omega (arith, r.size)) stdin
        stdout commands 0 s1 (Opened-Held s.pipes s.fds r.fds r.pipes r.opened) names
        (omega (arith, r.size, size)) in
    let forked : fork_commands os r.pipes (k + 1) 0 commands s1 ≡ ok (pids_of f.kids) f.final =
      rw r.size at f.runs in
    let waits = wait_each_lem os (pids_of f.kids) f.final in
    let last = record f.final { waited = f.final.waited ++ pids_of f.kids } in
    record {
      final = last;
      kids = f.kids;
      runs = rw (opened, forked, waits) refl;
      started = f.started;
      staged = rw r.size at f.staged;
      waited = ap (λ (l : List ℕ). l ++ pids_of f.kids) f.waited;
      restored = f.restored;
    }
