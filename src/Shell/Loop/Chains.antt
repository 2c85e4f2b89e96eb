-- ===== src/Shell/Loop/Chains.antt =====
-- A line of two commands or more: its children, its descriptors and what it waits for.
use systems_projects.Prelude.{
  ℕ, ◌+◌, ◌≡◌, ◌==◌, if◌then◌else◌, none, some, List, [], ◌∷◌, ◌++◌, arith,
}
use systems_projects.Shell.Commands.{Token, Command}
use systems_projects.Shell.Files.{File, pipe_read, pipe_write, lookup, take_lowest, close_fd}
use systems_projects.Shell.Files.Laws.{
  lookup-close_fd, open_count, open_count-close_fd, open_count-lowest, is_open,
}
use systems_projects.Shell.Os.{Child, Shell}
use systems_projects.Shell.Loop.Ends.{
  Joined, read_of, write_of, piped, lookup-piped, write_of-ne-read_of, old_ends,
}
use systems_projects.Shell.Loop.Stages.{Ready, stdout_for}

-- Every command has a name.
abbrev pub Named : Command → Type 0
Named c = (name : Token) × (c.command ≡ some name)

-- The children of the commands, the first of which reads `input`: each of the others reads the pipe
-- that the one before it writes. `n` is the number of the next pipe, and `own` the shell's output.
abbrev pub Chain : (n : ℕ) → (input own : File) → List Command → List (ℕ × Child) → Type 0
Chain n input own (c ∷ []) (kid ∷ []) = Joined c input (stdout_for c.output own) kid.1
Chain n input own (c ∷ d ∷ commands) (kid ∷ kids) =
    Joined c input (pipe_write n) kid.1 × Chain (n + 1) (pipe_read n) own (d ∷ commands) kids
Chain n input own _ _ = ⊥

abbrev pub pids_of : List (ℕ × Child) → List ℕ
pids_of [] = []
pids_of (kid ∷ kids) = kid.0 ∷ pids_of kids

-- The shell after a child has been started.
abbrev pub with_child : Shell → ℕ → Child → Shell
with_child s pid child = record s {
  forks = s.forks + 1;
  children = s.children ++ ((pid, child) ∷ []);
}

-- The shell after the writing end has been closed.
abbrev pub without_writer : Shell → Shell
without_writer s = record (piped s) { fds = close_fd (piped s).fds (write_of s) }

pub lookup-without_writer :
    (s : Shell) (j : ℕ)
    → lookup (without_writer s).fds j ≡ (
        if write_of s == j
        then none
        else if read_of s == j
        then some (pipe_read s.pipes)
        else lookup s.fds j)
lookup-without_writer s j =
    ground (arith, lookup-close_fd (piped s).fds (write_of s) j, lookup-piped s j)

pub open_count-without_writer :
    (s : Shell) → open_count (without_writer s).fds ≡ open_count s.fds + 1
open_count-without_writer s =
    let w = write_of s in
    let there : is_open (lookup (piped s).fds w) ≡ 1 = ground (arith, lookup-piped s w) in
    omega (
      arith,
      there,
      open_count-close_fd (piped s).fds w,
      open_count-lowest s.fds (pipe_read s.pipes),
      open_count-lowest (take_lowest s.fds (pipe_read s.pipes)).1 (pipe_write s.pipes),
    )

pub without_writer-Ready :
    (s : Shell) (a b : File) → Ready s.fds a b → Ready (without_writer s).fds a b
without_writer-Ready s a b h = record {
  stdin = ground (arith, lookup-without_writer s 0, old_ends s 0 a h.stdin, h.stdin);
  stdout = ground (arith, lookup-without_writer s 1, old_ends s 1 b h.stdout, h.stdout);
  no_writer = λ j k e. ground (arith, lookup-without_writer s j, h.no_writer j k);
}

pub read_end-without_writer :
    (s : Shell) → lookup (without_writer s).fds (read_of s) ≡ some (pipe_read s.pipes)
read_end-without_writer s =
    ground (arith, lookup-without_writer s (read_of s), write_of-ne-read_of s)
