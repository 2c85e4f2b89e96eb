-- ===== src/Shell/Pipes/Stages.antt =====
-- A command of a pipeline whose pipes have all been made.
use systems_projects.Prelude.{
  ℕ, ◌+◌, ◌-◌, ◌≤◌, ◌<◌, ◌≡◌, refl, ◌∙◌, true, false, ◌==◌, if◌then◌else◌, none, some, List, ◌∷◌,
  length, get_elem?, arith, Bool-cases, inl, inr,
}
use systems_projects.Shell.Commands.{Token}
use systems_projects.Shell.Files.{File, pipe_read, pipe_write, Table, lookup, dup2}
use systems_projects.Shell.Files.Laws.{lookup-dup2}
use systems_projects.Shell.Os.{Os, Child, execs}
use systems_projects.Shell.Internal.{text_of}
use systems_projects.Shell.Loop.Stages.{Succeeds}
use systems_projects.Shell.Pipes.{Pipes, close_pipes, redirect_ends, exec_vector, pipes_child}
use systems_projects.Shell.Pipes.Opened.{has_end, lookup-close_pipes}
use systems_projects.Shell.Pipes.Held.{get_some, has_end-get, Held}

-- The streams of the command with a number, of which the last is `k`.
abbrev pub input_of : (base : ℕ) → File → (idx : ℕ) → File
input_of base a idx = if idx == 0 then a else pipe_read (base + (idx - 1))

abbrev pub output_of : (base k : ℕ) → File → (idx : ℕ) → File
output_of base k b idx = if idx == k then b else pipe_write (base + idx)

-- The standard streams in other descriptors.
abbrev pub Streams : (t0 t : Table) (input output : File) → Type 0
Streams t0 t input output =
    (x : ℕ)
    → lookup t x ≡ (if 0 == x then some input else if 1 == x then some output else lookup t0 x)

-- A child that runs an argument vector with its two streams, and has no other descriptors than those of
-- `t0`.
pub record Stage (t0 : Table) (argv : List Token) (input output : File) (child : Child)
    : Type 0 where
  pub name : Token
  pub args : List Token
  pub table : Table
  pub whole : argv ≡ name ∷ args
  pub runs : child ≡ execs name argv table
  pub streams : Streams t0 table input output

module _ (base k : ℕ) (t0 : Table) (pipes : Pipes) (a b : File) (size : length pipes ≡ k)
    (some_pipe : 0 < k) (stdin : lookup t0 0 ≡ some a) (stdout : lookup t0 1 ≡ some b)
    (free : (x : ℕ) → has_end x pipes ≡ true → lookup t0 x ≡ none) where
  std_apart : (x : ℕ) (f : File) → lookup t0 x ≡ some f → has_end x pipes ≡ false
  std_apart x f e = elim (Bool-cases (has_end x pipes)) [
    | inl in_ ↦ let gone = free x in_ in absurd (cc)
    | inr out ↦ out
  ]

  module _ (idx : ℕ) (t : Table) (held : Held base t0 pipes idx t) (small : idx ≤ k) where
    own_input : lookup t 0 ≡ some a
    own_input = held.others 0 (std_apart 0 a stdin) ∙ stdin

    own_output : lookup t 1 ≡ some b
    own_output = held.others 1 (std_apart 1 b stdout) ∙ stdout

    -- The reading end that the command gets, and the writing end.
    reader :
        (idx == 0) ≡ false
        → (p : ℕ × ℕ) × (get_elem? pipes (idx - 1) ≡ some p)
          × (lookup t p.0 ≡ some (pipe_read (base + (idx - 1))))
    reader inner =
        let (p, got) = get_some pipes (idx - 1) (ground (arith, size)) in
        (p, got, ground (arith, held.reads (idx - 1) p got))

    writer :
        (idx == k) ≡ false
        → (p : ℕ × ℕ) × (get_elem? pipes idx ≡ some p)
          × (lookup t p.1 ≡ some (pipe_write (base + idx)))
    writer inner =
        let (p, got) = get_some pipes idx (ground (arith, size)) in
        (p, got, ground (arith, held.writes idx p got))

    last-Streams :
        (idx == k) ≡ true
        → Streams t
            (redirect_ends pipes (k + 1) idx t)
            (input_of base a idx)
            (output_of base k b idx)
    unfolding redirect_ends
    last-Streams last x =
        let test : (idx == k + 1 - 1) ≡ true = ground arith in
        let inner : (idx == 0) ≡ false = ground arith in
        let (p, got, there) = reader inner in
        let swap = lookup-dup2 t p.0 0 (pipe_read (base + (idx - 1))) x there in
        rw (test, got) (ground (arith, swap, own_output))

    first-Streams :
        (idx == 0) ≡ true
        → Streams t
            (redirect_ends pipes (k + 1) idx t)
            (input_of base a idx)
            (output_of base k b idx)
    unfolding redirect_ends
    first-Streams first x =
        let test : (idx == k + 1 - 1) ≡ false = ground arith in
        let (p, got, there) = writer (ground arith) in
        let swap = lookup-dup2 t p.1 1 (pipe_write (base + idx)) x there in
        rw (test, first, got) (ground (arith, swap, own_input))

    middle-Streams :
        (idx == 0) ≡ false
        → (idx == k) ≡ false
        → Streams t
            (redirect_ends pipes (k + 1) idx t)
            (input_of base a idx)
            (output_of base k b idx)
    unfolding redirect_ends
    middle-Streams inner inner' x =
        let test : (idx == k + 1 - 1) ≡ false = ground arith in
        let (p, got, there) = reader inner in
        let (q, got', there') = writer inner' in
        let apart : (0 == q.1) ≡ false =
          ground (arith, has_end-get pipes idx q got', std_apart 0 a stdin) in
        let still : lookup (dup2 t p.0 0) q.1 ≡ some (pipe_write (base + idx)) =
          ground
            (arith, lookup-dup2 t p.0 0 (pipe_read (base + (idx - 1))) q.1 there, there', apart) in
        let swap = lookup-dup2 t p.0 0 (pipe_read (base + (idx - 1))) x there in
        let swap' = lookup-dup2 (dup2 t p.0 0) q.1 1 (pipe_write (base + idx)) x still in
        rw (test, inner, got, got') (ground (arith, swap, swap'))

    swapped :
        Streams t (redirect_ends pipes (k + 1) idx t) (input_of base a idx) (output_of base k b idx)
    swapped = elim (Bool-cases (idx == k)) [
      | inl last ↦ last-Streams last
      | inr not_last ↦ elim (Bool-cases (idx == 0)) [
        | inl first ↦ first-Streams first
        | inr inner ↦ middle-Streams inner not_last
      ]
    ]

    pub child-Streams :
        Streams t0
          (close_pipes pipes (redirect_ends pipes (k + 1) idx t))
          (input_of base a idx)
          (output_of base k b idx)
    child-Streams x = ground (
      arith,
      lookup-close_pipes pipes (redirect_ends pipes (k + 1) idx t) x,
      swapped x,
      free x,
      held.others x,
      std_apart 0 a stdin,
      std_apart 1 b stdout,
    )

    pub child-Stage :
        (os : Os) (pid : ℕ → ℕ)
        → Succeeds os pid
        → (argv : List Token) (name : Token) (args : List Token) → argv ≡ name ∷ args
        → Stage t0 argv
            (input_of base a idx)
            (output_of base k b idx)
            (pipes_child os pipes (k + 1) idx argv t)
    unfolding pipes_child exec_vector
    child-Stage os pid works argv name args whole = record {
      name = name;
      args = args;
      table = close_pipes pipes (redirect_ends pipes (k + 1) idx t);
      whole = whole;
      runs = rw (whole, works.executes (text_of name)) refl;
      streams = child-Streams;
    }
