-- ===== src/Shell/Loop/Stages.antt =====
-- The three kinds of children of a pipeline, at its beginning, inside it and at its end.
use systems_projects.Prelude.{ℕ, ◌≡◌, ◌≢◌, refl, true, false, ◌==◌, Option, none, some, List, arith}
use systems_projects.Shell.Commands.{Token, Command}
use systems_projects.Shell.Files.{
  File, pipe_read, pipe_write, read_file, write_file, Table, lookup, lowest,
}
use systems_projects.Shell.Os.{Os, execs, Shell}
use systems_projects.Shell.Internal.{text_of}
use systems_projects.Shell.External.{connect, replace, exec_or, pipe_output, pipe_input, pipe_child}
use systems_projects.Shell.Loop.Ends.{
  lookup-connect, lookup-replace, lowest-ne, NoWriter, Swapped, Swapped-same, Joined, two_swaps,
  read_of, write_of, piped, lookup-piped, write_of-ne-read_of, old_ends,
}

-- Every call that the shell makes succeeds; `pid` numbers the children.
pub record Succeeds (os : Os) (pid : ℕ → ℕ) : Type 0 where
  pub forks : (n : ℕ) → os.fork n ≡ some (pid n)
  pub executes : (t : List ℕ) → os.executable t ≡ true
  pub reads : (t : List ℕ) → os.readable t ≡ true
  pub writes : (t : List ℕ) → os.writable t ≡ true

-- The descriptors of the shell between two commands.
pub record Ready (t : Table) (input output : File) : Type 0 where
  pub stdin : lookup t 0 ≡ some input
  pub stdout : lookup t 1 ≡ some output
  pub no_writer : NoWriter t

abbrev pub stdin_for : Option Token → File → File
stdin_for none own = own
stdin_for (some file) own = read_file (text_of file)

abbrev pub stdout_for : Option Token → File → File
stdout_for none own = own
stdout_for (some file) own = write_file (text_of file)

module _ (os : Os) (pid : ℕ → ℕ) (works : Succeeds os pid) where
  input_stage :
      (t : Table) (input : Option Token) (a : File)
      → lookup t 0 ≡ some a
      → (t' : Table) × (pipe_input os none input t ≡ some t')
        × Swapped t t' (lowest t) 0 (stdin_for input a)
  unfolding pipe_input
  input_stage t none a e = (t, refl, Swapped-same t 0 a e)
  input_stage t (some file) a e = (
    replace t (read_file (text_of file)) 0,
    rw (works.reads (text_of file)) refl,
    lookup-replace t (read_file (text_of file)) 0,
  )

  output_stage :
      (t : Table) (output : Option Token) (b : File)
      → lookup t 1 ≡ some b
      → (t' : Table) × (pipe_output os none output t ≡ some t')
        × Swapped t t' (lowest t) 1 (stdout_for output b)
  unfolding pipe_output
  output_stage t none b e = (t, refl, Swapped-same t 1 b e)
  output_stage t (some file) b e = (
    replace t (write_file (text_of file)) 1,
    rw (works.writes (text_of file)) refl,
    lookup-replace t (write_file (text_of file)) 1,
  )

  child_runs :
      (input output : Option ℕ) (name : Token) (c : Command) (t t1 t2 : Table)
      → pipe_output os output c.output t ≡ some t1
      → pipe_input os input c.input t1 ≡ some t2
      → pipe_child os input output name c t ≡ execs name c.args t2
  unfolding pipe_child exec_or
  child_runs input output name c t t1 t2 e f = rw (e, f, works.executes (text_of name)) refl

  -- A child is what it should be if its two streams are swapped in.
  swaps_connect_child :
      (input output : Option ℕ) (name : Token) (c : Command) (t t1 t2 : Table) (fd fd' : ℕ)
      (a b : File)
      → c.command ≡ some name
      → pipe_output os output c.output t ≡ some t1
      → pipe_input os input c.input t1 ≡ some t2
      → Swapped t t1 fd 1 b
      → Swapped t1 t2 fd' 0 a
      → (fd == 1) ≡ false
      → (fd' == 0) ≡ false
      → (fd' == 1) ≡ false
      → ((j k : ℕ) → lookup t j ≡ some (pipe_write k) → (fd == j) ≡ true)
      → ((k : ℕ) → a ≢ pipe_write k)
      → ((k : ℕ) → b ≡ pipe_write k → (j : ℕ) × (lookup t2 j ≡ some (pipe_read k)))
      → Joined c a b (pipe_child os input output name c t)
  swaps_connect_child input output name c t t1 t2 fd fd' a b named e f out in_ x y z only none_in
        reader =
      let (stdin, stdout, writers) = two_swaps t t1 t2 fd fd' a b out in_ x y z only none_in in
      record {
        name = name;
        table = t2;
        named = named;
        runs = child_runs input output name c t t1 t2 e f;
        stdin = stdin;
        stdout = stdout;
        writers = writers;
        reader = reader;
      }

  module _ (s : Shell) (a b : File) (ready : Ready s.fds a b) where
    not_writer_in : (input : Option Token) (k : ℕ) → stdin_for input a ≢ pipe_write k
    not_writer_in none k e = ready.no_writer 0 k (rw e at ready.stdin)
    not_writer_in (some file) k e = cc

    not_writer_out : (output : Option Token) (k : ℕ) → stdout_for output b ≢ pipe_write k
    not_writer_out none k e = ready.no_writer 1 k (rw e at ready.stdout)
    not_writer_out (some file) k e = cc

    -- The output of a child is the pipe that has just been made.
    written : lookup (piped s).fds (write_of s) ≡ some (pipe_write s.pipes)
    written = ground (arith, lookup-piped s (write_of s))

    out_piped :
        Swapped
          (piped s).fds
          (connect (piped s).fds (write_of s) 1)
          (write_of s)
          1
          (pipe_write s.pipes)
    out_piped j = lookup-connect (piped s).fds (write_of s) 1 (pipe_write s.pipes) j written

    one_writer : (j k : ℕ) → lookup (piped s).fds j ≡ some (pipe_write k) → (write_of s == j) ≡ true
    one_writer j k e = ground (arith, lookup-piped s j, ready.no_writer j k)

    -- What was open stays open in the child, but for its standard output.
    still :
        (j : ℕ) (f : File)
        → lookup s.fds j ≡ some f
        → (1 == j) ≡ false
        → lookup (connect (piped s).fds (write_of s) 1) j ≡ some f
    still j f e ne = ground (arith, out_piped j, lookup-piped s j, old_ends s j f e)

    own_reader :
        lookup (connect (piped s).fds (write_of s) 1) (read_of s) ≡ some (pipe_read s.pipes)
    own_reader = ground (
      arith,
      out_piped (read_of s),
      lookup-piped s (read_of s),
      write_of-ne-read_of s,
      old_ends s 1 b ready.stdout,
    )

    pub first-Joined :
        (c : Command) (name : Token)
        → c.command ≡ some name
        → Joined c
            (stdin_for c.input a)
            (pipe_write s.pipes)
            (pipe_child os none (some (write_of s)) name c (piped s).fds)
    unfolding pipe_output
    first-Joined c name named =
        let t1 = connect (piped s).fds (write_of s) 1 in
        let (t2, done, in_) = input_stage t1 c.input a (still 0 a ready.stdin refl) in
        let at0 = old_ends s 0 a ready.stdin in
        let at1 = old_ends s 1 b ready.stdout in
        let out1 : lookup t1 1 ≡ some (pipe_write s.pipes) = ground (arith, out_piped 1, at1) in
        swaps_connect_child none (some (write_of s)) name c (piped s).fds t1 t2 (write_of s)
          (lowest t1) (stdin_for c.input a) (pipe_write s.pipes) named refl done out_piped in_ at1.1
          (lowest-ne t1 0 a (still 0 a ready.stdin refl)) (lowest-ne t1 1 (pipe_write s.pipes) out1)
          one_writer (not_writer_in c.input)
          (λ k e. (
            read_of s,
            ground (
              arith,
              in_ (read_of s),
              own_reader,
              at0,
              lowest-ne t1 (read_of s) (pipe_read s.pipes) own_reader,
            ),
          ))

    module _ (r k : ℕ) (open_end : lookup s.fds r ≡ some (pipe_read k)) (r0 : (r == 0) ≡ false)
        (r1 : (r == 1) ≡ false) where
      pub middle-Joined :
          (c : Command) (name : Token)
          → c.command ≡ some name
          → Joined c
              (pipe_read k)
              (pipe_write s.pipes)
              (pipe_child os (some r) (some (write_of s)) name c (piped s).fds)
      unfolding pipe_output pipe_input
      middle-Joined c name named =
          let t1 = connect (piped s).fds (write_of s) 1 in
          let there = still r (pipe_read k) open_end (ground arith) in
          let in_ : Swapped t1 (connect t1 r 0) r 0 (pipe_read k) =
            λ j. lookup-connect t1 r 0 (pipe_read k) j there in
          let at0 = old_ends s 0 a ready.stdin in
          let at1 = old_ends s 1 b ready.stdout in
          let atr = old_ends s r (pipe_read k) open_end in
          swaps_connect_child (some r) (some (write_of s)) name c (piped s).fds t1 (connect t1 r 0)
            (write_of s) r (pipe_read k) (pipe_write s.pipes) named refl refl out_piped in_ at1.1 r0
            r1 one_writer (λ l e. cc)
            (λ l e. (read_of s, ground (arith, in_ (read_of s), own_reader, at0, atr)))

      pub last-Joined :
          (c : Command) (name : Token)
          → c.command ≡ some name
          → Joined c
              (pipe_read k)
              (stdout_for c.output b)
              (pipe_child os (some r) none name c s.fds)
      unfolding pipe_input
      last-Joined c name named =
          let (t1, done, out) = output_stage s.fds c.output b ready.stdout in
          let there : lookup t1 r ≡ some (pipe_read k) =
            ground (arith, out r, lowest-ne s.fds r (pipe_read k) open_end, open_end) in
          swaps_connect_child (some r) none name c s.fds t1 (connect t1 r 0) (lowest s.fds) r
            (pipe_read k) (stdout_for c.output b) named done refl out
            (λ j. lookup-connect t1 r 0 (pipe_read k) j there) (lowest-ne s.fds 1 b ready.stdout) r0
            r1 (λ j l e. absurd (ready.no_writer j l e)) (λ l e. cc)
            (λ l e. absurd (not_writer_out c.output l e))
