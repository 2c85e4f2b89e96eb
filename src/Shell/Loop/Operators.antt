-- ===== src/Shell/Loop/Operators.antt =====
-- What `runPipeline` makes of `&&`, and of a command that has no name.
use mathlib.Core.Path.{fun_ext}
use systems_projects.Prelude.{
  ℕ, ◌+◌, ◌≡◌, refl, ap, sym, ◌∙◌, Bool, true, false, ◌&&◌, ◌==◌, if◌then◌else◌, arith, inl, inr,
  Option, none, some, List, [], ◌∷◌, ◌++◌,
}
use systems_projects.Shell.Commands.{Token, Command, is_null}
use systems_projects.Shell.Commands.Links.{LinkedFrom}
use systems_projects.Shell.Os.{Os, Shell, ok, Cmd}
use systems_projects.Shell.External.{run_pipe, pipe_child, exec_or}
use systems_projects.Shell.Files.{File, pipe_read, pipe_write, lookup}
use systems_projects.Shell.Files.Laws.{lookup-lowest, file_cases}
use systems_projects.Shell.Os.{Child}
use systems_projects.Shell.Loop.Ends.{
  Joined, read_of, write_of, piped, old_ends, write_of-ne-read_of,
}
use systems_projects.Shell.Loop.Stages.{Succeeds, Ready, stdin_for, first-Joined}
use systems_projects.Shell.Loop.Chains.{Named, without_writer, lookup-without_writer}
use systems_projects.Shell.Loop.Rounds.{after_command, first_round}
use systems_projects.Shell.Loop.{run_round, run_named, run_from, run_pipeline}

-- The same commands, with a pipe behind each.
abbrev pub piped_only : List Command → List Command
piped_only [] = []
piped_only (c ∷ commands) = record c { next_pipe = 0 } ∷ piped_only commands

module _ (os : Os) where
  abbrev More : Type 0
  More = Option ℕ → List ℕ → ℕ → Cmd ℕ

  run_round-piped :
      (no_next no_prev x y : Bool) (name : Token) (c : Command) (previous : Option ℕ)
      (pids : List ℕ) (code : ℕ) (more : More)
      → (no_next && no_prev) ≡ false
      → run_round os no_next no_prev x name (record c { next_pipe = 0 }) previous pids code more
        ≡ run_round os no_next no_prev y name c previous pids code more
  unfolding run_round run_pipe pipe_child exec_or
  run_round-piped true true x y name c previous pids code more h = absurd (cc)
  run_round-piped true false x y name c previous pids code more h = refl
  run_round-piped false true x y name c previous pids code more h = refl
  run_round-piped false false x y name c previous pids code more h = refl

  run_named-piped :
      (n : Option Token) (c : Command) (previous : Option ℕ) (pids : List ℕ) (code : ℕ)
      (more : More)
      → (is_null c.next && is_null c.prev) ≡ false
      → run_named os n (record c { next_pipe = 0 }) previous pids code more
        ≡ run_named os n c previous pids code more
  unfolding run_named
  run_named-piped none c previous pids code more h = refl
  run_named-piped (some name) c previous pids code more h =
      run_round-piped (is_null c.next) (is_null c.prev) _ _ name c previous pids code more h

  run_from-piped :
      (c : Command) (commands : List Command)
      → (is_null c.next && is_null c.prev) ≡ false
      → run_from os (piped_only commands) ≡ run_from os commands
      → run_from os (piped_only (c ∷ commands)) ≡ run_from os (c ∷ commands)
  unfolding run_from
  run_from-piped c commands h ih = fun_ext λ previous. fun_ext λ pids. fun_ext λ code.
      run_named-piped c.command c previous pids code (run_from os (piped_only commands)) h
      ∙ ap (λ (more : More). run_named os c.command c previous pids code more) ih

  tail-piped :
      (c : Command) (commands : List Command) (i j : ℕ)
      → LinkedFrom j (some i) (c ∷ commands)
      → run_from os (piped_only (c ∷ commands)) ≡ run_from os (c ∷ commands)
  unfolding is_null
  tail-piped c [] i j (before, after) = run_from-piped c [] (rw (after, before) refl) refl
  tail-piped c (d ∷ commands) i j (before, after, rest) =
      run_from-piped c (d ∷ commands) (rw after refl) (tail-piped d commands j (j + 1) rest)

  -- On a list of two commands or more, linked both ways, whatever `next_pipe` is, `runPipeline` does
  -- what it does with pipes alone: `&&` is run as a pipe.
  pub run_pipeline-piped_only :
      (c d : Command) (commands : List Command)
      → LinkedFrom 0 none (c ∷ d ∷ commands)
      → run_pipeline os (c ∷ d ∷ commands) ≡ run_pipeline os (piped_only (c ∷ d ∷ commands))
  unfolding run_pipeline is_null
  run_pipeline-piped_only c d commands (before, after, rest) =
      ap (λ (run : More). run none [] 0)
        (sym (run_from-piped c (d ∷ commands) (rw after refl) (tail-piped d commands 0 1 rest)))

-- What an open descriptor is when the shell has made a pipe and closed its writing end: the reading end
-- is new, and all else as it was.
one_reader :
    (s : Shell) (j : ℕ)
    → lookup (without_writer s).fds j
      ≡ (if read_of s == j then some (pipe_read s.pipes) else lookup s.fds j)
one_reader s j = elim (file_cases (lookup s.fds j)) [
  | inl free ↦ ground (arith, lookup-without_writer s j, write_of-ne-read_of s, free)
  | inr (f, there) ↦ ground (arith, lookup-without_writer s j, old_ends s j f there)
]

-- What the loop leaves that ends at the second command: `r` is the reading end.
pub record Left (s : Shell) (c : Command) (input : File) (n : ℕ) (final : Shell) : Type 0 where
  pub kid : Child
  pub r : ℕ
  pub started : final.children ≡ s.children ++ ((n, kid) ∷ [])
  pub joined : Joined c input (pipe_write s.pipes) kid
  pub waited : final.waited ≡ s.waited
  pub free : lookup s.fds r ≡ none
  pub fds :
      (j : ℕ) → lookup final.fds j ≡ (if r == j then some (pipe_read s.pipes) else lookup s.fds j)

module _ (os : Os) (pid : ℕ → ℕ) (works : Succeeds os pid) where
  -- If the first of the commands has a name and the second has none, as after `a | | b`, when every
  -- call succeeds, and the shell has its standard input and output open and no writing end of a pipe,
  -- the loop ends with a status of 1 when one child has been started: it runs the first command, with its
  -- input file or the shell's input, and writes to a pipe; it is not waited for; and of the pipe just
  -- the reading end stays open in the shell, whose other descriptors are as they were.
  pub run_pipeline-nameless :
      (c d : Command) (commands : List Command) (s : Shell) (a b : File)
      → Ready s.fds a b
      → LinkedFrom 0 none (c ∷ d ∷ commands)
      → Named c
      → d.command ≡ none
      → (final : Shell) × (run_pipeline os (c ∷ d ∷ commands) s ≡ ok 1 final)
        × Left s c (stdin_for c.input a) (pid s.forks) final
  unfolding run_pipeline run_from run_named is_null
  run_pipeline-nameless c d commands s a b ready (before, after, rest) (name, named) nameless =
      let child = pipe_child os none (some (write_of s)) name c (piped s).fds in
      (
        after_command os pid works s child,
        first_round os pid works c name [] 0 (run_from os (d ∷ commands)) s named (rw after refl)
              (rw before refl)
            ∙ ap
                (λ (n : Option Token).
                  run_named os n d (some (read_of s)) (pid s.forks ∷ []) 0 (run_from os commands)
                    (after_command os pid works s child))
                nameless,
        record {
          kid = child;
          r = read_of s;
          started = refl;
          joined = first-Joined os pid works s a b ready c name named;
          waited = refl;
          free = lookup-lowest s.fds;
          fds = one_reader s;
        },
      )
