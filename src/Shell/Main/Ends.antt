-- ===== src/Shell/Main/Ends.antt =====
-- The loop over the lines comes to an end, with the loops inside it.
use systems_projects.Prelude.{
  ℕ, zero, suc, ◌≤◌, ◌≡◌, refl, ap, ◌∙◌, ◌>>=◌, true, false, if◌then◌else◌, Option, none, some,
  List, [], ◌∷◌, length, arith,
}
use systems_projects.Shell.Os.{Os, Shell, Outcome, ok, exited}
use systems_projects.Shell.Files.{read_file, take_lowest}
use systems_projects.Shell.Main.{
  read_line, Session, finished, ended, undefined, tokens_in, put_status, classified, after_line,
  run_tokens, run_line, lines, main,
}
use systems_projects.Shell.Main.Safe.{dropped, run_tokens-build_command_list}
use systems_projects.Shell.Commands.Links.{build_command_list-IsLinked}
use systems_projects.Shell.Loop.{run_pipeline}

read_line_shrinks : (n : ℕ) (input : List ℕ) → length (read_line n input).1 ≤ length input
unfolding read_line
read_line_shrinks zero input = omega arith
read_line_shrinks (suc n) [] = omega arith
read_line_shrinks (suc n) (c ∷ input) = ground (arith, read_line_shrinks n input)

-- At least one byte is read.
pub read_line_advances :
    (n c : ℕ) (input : List ℕ) → length (read_line (suc n) (c ∷ input)).1 ≤ length input
unfolding read_line
read_line_advances n c input = ground (arith, read_line_shrinks n input)

room : (a b fuel : ℕ) → a ≤ b → suc b ≤ suc fuel → a ≤ fuel
room a b fuel h k = omega arith

abbrev Ends : Option Session → Type 0
Ends r = (end : Session) × (r ≡ some end)

after_line-Ends :
    (tokens : Option (List (List ℕ))) (r : Option (Outcome (Unit {0})))
    (more : Shell → Option Session)
    → ((ts : List (List ℕ)) → tokens ≡ some ts → (o : Outcome (Unit {0})) × (r ≡ some o))
    → ((s : Shell) → Ends (more s))
    → Ends (after_line tokens r more)
after_line-Ends none r more comes h = (undefined, refl)
after_line-Ends (some ts) none more comes h = let (o, e) = comes ts refl in absurd (cc)
after_line-Ends (some ts) (some (ok _ s)) more comes h = h s
after_line-Ends (some ts) (some (exited code s)) more comes h = (ended code s, refl)

module _ (os : Os) where
  -- A line that fits into the arrays comes to its end: the loop that makes the list of its commands,
  -- and those along the list.
  run_line_ends :
      (line : List ℕ) (s : Shell) (tokens : List (List ℕ))
      → tokens_in line ≡ some tokens
      → (o : Outcome (Unit {0})) × (run_line os line s ≡ some o)
  unfolding run_line
  run_line_ends line s tokens read =
      let typed = classified (put_status s.qbuf tokens) in
      let (r, e, h) = build_command_list-IsLinked typed in
      (
        dropped (run_pipeline os r.cells s),
        ap
              (λ (o : Option (List (List ℕ))).
                o >>= λ tokens. run_tokens os (classified (put_status s.qbuf tokens)) s)
              read
            ∙ run_tokens-build_command_list os typed s r e h,
      )

  lines-Ends :
      (fuel : ℕ) (input : List ℕ) (s : Shell) → length input ≤ fuel → Ends (lines os fuel input s)
  unfolding lines
  lines-Ends fuel [] s h = (finished _, refl)
  lines-Ends zero (c ∷ input) s h = absurd (omega arith)
  lines-Ends (suc fuel) (c ∷ input) s h =
      let l = read_line 1023 (c ∷ input) in
      let less = room (length l.1) (length input) fuel (read_line_advances 1022 c input) h in
      after_line-Ends (tokens_in l.0) (run_line os l.0 s) (lines os fuel l.1) (run_line_ends l.0 s)
        (λ s'. lines-Ends fuel l.1 s' less)

  -- On any input and any arguments the shell comes to the end of its input, or ends by an exit, or where
  -- `parse` writes past the end of an array, if every program that it waits for ends: its loop over the
  -- lines, the loop that makes the list of a line's commands, and those along the list all end. Where
  -- `atoi` and `isspace` are undefined they are taken to return.
  pub main-Ends :
      (argv : List (List ℕ)) (stdin : List ℕ) (contents : List ℕ → List ℕ) (s : Shell)
      → Ends (main os argv stdin contents s)
  unfolding main
  main-Ends [] stdin contents s = lines-Ends (length stdin) stdin s (omega arith)
  main-Ends (program ∷ []) stdin contents s = lines-Ends (length stdin) stdin s (omega arith)
  main-Ends (program ∷ file ∷ []) stdin contents s =
      let s' = record s { fds = (take_lowest s.fds (read_file file)).1 } in
      let (end, e) = lines-Ends (length (contents file)) (contents file) s' (omega arith) in
      elim (os.readable file)
        as (λ b.
          Ends (
            if b then lines os (length (contents file)) (contents file) s' else some (ended 1 s))) [
              | true ↦ (end, e)
              | false ↦ (ended 1 s, refl)
            ]
  main-Ends (program ∷ file ∷ other ∷ more) stdin contents s = (ended 1 s, refl)
