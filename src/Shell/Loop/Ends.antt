-- ===== src/Shell/Loop/Ends.antt =====
-- The descriptors of the shell and of a child around one command of a pipeline.
use systems_projects.Prelude.{
  ℕ, ◌+◌, ◌≡◌, ◌≢◌, refl, ap, true, false, ◌==◌, if◌then◌else◌, none, some, arith, Bool-cases, inl,
  inr, ==_iff,
}
use systems_projects.Shell.Commands.{Token, Command}
use systems_projects.Shell.Files.{
  File, pipe_read, pipe_write, Table, lookup, lowest, take_lowest, install, dup2,
}
use systems_projects.Shell.Files.Laws.{lookup-install, lookup-close_fd, lookup-lowest, lookup-dup2}
use systems_projects.Shell.Os.{Child, execs, Shell, ok, pipe}
use systems_projects.Shell.External.{connect, replace}

pub lookup-connect :
    (t : Table) (fd stream : ℕ) (f : File) (j : ℕ)
    → lookup t fd ≡ some f
    → lookup (connect t fd stream) j
      ≡ (if fd == j then none else if stream == j then some f else lookup t j)
unfolding connect
lookup-connect t fd stream f j e =
    ground (arith, lookup-close_fd (dup2 t fd stream) fd j, lookup-dup2 t fd stream f j e)

pub lookup-replace :
    (t : Table) (f : File) (stream j : ℕ)
    → lookup (replace t f stream) j
      ≡ (if lowest t == j then none else if stream == j then some f else lookup t j)
unfolding replace
lookup-replace t f stream j =
    let t' = install t (lowest t) (some f) in
    let there : lookup t' (lowest t) ≡ some f =
      ground (arith, lookup-install t (lowest t) (some f) (lowest t)) in
    ground (
      arith,
      lookup-close_fd (dup2 t' (lowest t) stream) (lowest t) j,
      lookup-dup2 t' (lowest t) stream f j there,
      lookup-install t (lowest t) (some f) j,
    )

pub lowest-ne : (t : Table) (j : ℕ) (f : File) → lookup t j ≡ some f → (lowest t == j) ≡ false
lowest-ne t j f e = elim (Bool-cases (lowest t == j)) [
  | inl same ↦ ground (arith, ap (lookup t) ((==_iff (lowest t) j).0 same), lookup-lowest t)
  | inr other ↦ other
]

-- No descriptor is an end of a pipe that is written to.
abbrev pub NoWriter : Table → Type 0
NoWriter t = (j k : ℕ) → lookup t j ≢ some (pipe_write k)

-- `fd` is closed and `stream` stands for `f` in the second table.
abbrev pub Swapped : (t t' : Table) (fd stream : ℕ) → File → Type 0
Swapped t t' fd stream f =
    (j : ℕ) → lookup t' j ≡ (if fd == j then none else if stream == j then some f else lookup t j)

-- A table is so for a stream that is left as it is.
pub Swapped-same :
    (t : Table) (stream : ℕ) (f : File) → lookup t stream ≡ some f → Swapped t t (lowest t) stream f
Swapped-same t stream f e j = elim (Bool-cases (lowest t == j)) [
  | inl same ↦ ground (arith, ap (lookup t) ((==_iff (lowest t) j).0 same), lookup-lowest t)
  | inr other ↦ elim (Bool-cases (stream == j)) [
    | inl at ↦ ground (arith, ap (lookup t) ((==_iff stream j).0 at))
    | inr ne ↦ rw (other, ne) refl
  ]
]

-- What the child of one command of a pipeline is: it runs the program on these two streams, no other
-- descriptor is an end of a pipe that is written to, and it has the read end of the pipe that it
-- writes to.
pub record Joined (c : Command) (input output : File) (child : Child) : Type 0 where
  pub name : Token
  pub table : Table
  pub named : c.command ≡ some name
  pub runs : child ≡ execs name c.args table
  pub stdin : lookup table 0 ≡ some input
  pub stdout : lookup table 1 ≡ some output
  pub writers : (j k : ℕ) → lookup table j ≡ some (pipe_write k) → j ≡ 1
  pub reader : (k : ℕ) → output ≡ pipe_write k → (j : ℕ) × (lookup table j ≡ some (pipe_read k))

abbrev IsWriter : File → Type 0
IsWriter f = (k : ℕ) × (f ≡ pipe_write k)

-- First the output is put in place, then the input.
pub two_swaps :
    (p t t' : Table) (fd fd' : ℕ) (input output : File)
    → Swapped p t fd 1 output
    → Swapped t t' fd' 0 input
    → (fd == 1) ≡ false
    → (fd' == 0) ≡ false
    → (fd' == 1) ≡ false
    → ((j k : ℕ) → lookup p j ≡ some (pipe_write k) → (fd == j) ≡ true)
    → ((k : ℕ) → input ≢ pipe_write k)
    → (lookup t' 0 ≡ some input)
      × (lookup t' 1 ≡ some output)
      × ((j k : ℕ) → lookup t' j ≡ some (pipe_write k) → j ≡ 1)
two_swaps p t t' fd fd' input output out in_ a b c only none_in = (
  ground (arith, in_ 0),
  ground (arith, in_ 1, out 1),
  λ j k e. ground (arith, in_ j, out j, only j k, none_in k),
)

-- The two tables that `pipe` leads through.
abbrev pub read_of : Shell → ℕ
read_of s = lowest s.fds

abbrev with_read : Shell → Table
with_read s = (take_lowest s.fds (pipe_read s.pipes)).1

abbrev pub write_of : Shell → ℕ
write_of s = lowest (with_read s)

abbrev pub piped : Shell → Shell
piped s = record s {
  fds = install (with_read s) (write_of s) (some (pipe_write s.pipes));
  pipes = s.pipes + 1;
}

pub pipe_lem : (s : Shell) → pipe s ≡ ok (read_of s, write_of s) (piped s)
unfolding pipe
pipe_lem s = refl

lookup-with_read :
    (s : Shell) (j : ℕ)
    → lookup (with_read s) j ≡ (if read_of s == j then some (pipe_read s.pipes) else lookup s.fds j)
lookup-with_read s j = lookup-install s.fds (read_of s) (some (pipe_read s.pipes)) j

pub lookup-piped :
    (s : Shell) (j : ℕ)
    → lookup (piped s).fds j ≡ (
        if write_of s == j
        then some (pipe_write s.pipes)
        else if read_of s == j
        then some (pipe_read s.pipes)
        else lookup s.fds j)
lookup-piped s j = ground (
  arith,
  lookup-install (with_read s) (write_of s) (some (pipe_write s.pipes)) j,
  lookup-with_read s j,
)

pub write_of-ne-read_of : (s : Shell) → (write_of s == read_of s) ≡ false
write_of-ne-read_of s =
    lowest-ne (with_read s) (read_of s) (pipe_read s.pipes)
      (ground (arith, lookup-with_read s (read_of s)))

-- What is open is neither of the two ends.
pub old_ends :
    (s : Shell) (j : ℕ) (f : File)
    → lookup s.fds j ≡ some f
    → ((read_of s == j) ≡ false) × ((write_of s == j) ≡ false)
old_ends s j f e =
    let ne = lowest-ne s.fds j f e in
    (ne, lowest-ne (with_read s) j f (ground (arith, lookup-with_read s j, ne)))
