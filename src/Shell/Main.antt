-- ===== src/Shell/Main.antt =====
-- unix-shell-from-scratch/shell56.c: the shell reads its input line by line, and runs each line. The
-- prompt and the handling of SIGINT are left out.
mod Examples
pub mod Ends
pub mod Safe
pub mod Typed
pub mod Pipelines
pub mod Unfinished
use systems_projects.Prelude.{
  ℕ, zero, suc, ◌+◌, Bool, ◌&&◌, ltb, leb, ◌==◌, if◌then◌else◌, Option, none, some, List, [], ◌∷◌,
  ◌++◌, length, codes, ◌>>=◌,
}
use systems_projects.Shell.Parser.{parse}
use systems_projects.Shell.Parser.RoundTrip.{until_null, strings}
use systems_projects.Shell.Commands.{
  Token, CommandList, Command, text_eq, classify, build_command_list,
}
use systems_projects.Shell.Commands.Walk.{commands_of, free_command_list}
use systems_projects.Shell.Files.{read_file, take_lowest}
use systems_projects.Shell.Os.{Os, Shell, Outcome, ok, exited}
use systems_projects.Shell.Loop.{run_pipeline}

-- `fgets`: at most `n` bytes, up to the first newline and with it, and what is left.
unfoldable pub read_line : ℕ → List ℕ → List ℕ × List ℕ
read_line zero input = ([], input)
read_line (suc n) [] = ([], [])
read_line (suc n) (c ∷ input) =
    let (line, rest) = read_line n input in if c == b'\n' then (c ∷ [], input) else (c ∷ line, rest)

-- What `parse` puts into `tokens`, `none` where it writes past the end of `tokens` or of `linebuf`.
unfoldable pub tokens_in : List ℕ → Option (List (List ℕ))
tokens_in line =
    let p = parse (until_null line) 32 1024 in
    if ltb (length p.argv) 32 && leb (length p.buf) 1024 then some (strings p.buf p.argv) else none

-- The loop that puts the status of the last command in the place of `$?`.
unfoldable pub put_status : (qbuf : List ℕ) → List (List ℕ) → List (List ℕ)
put_status qbuf [] = []
put_status qbuf (token ∷ tokens) =
    (if text_eq token (codes "$?") then qbuf else token) ∷ put_status qbuf tokens

unfoldable pub classified : List (List ℕ) → List Token
classified [] = []
classified (token ∷ tokens) = classify token ∷ classified tokens

-- How a session comes to its end: at the end of the input, by `exit`, or where a line makes `parse`
-- write past the end of an array, which C leaves undefined.
pub data Session : Type 0 where
  finished : Shell → Session
  ended : ℕ → Shell → Session
  undefined : Session

-- The list is freed when its commands have been run.
unfoldable pub then_free : CommandList → Outcome ℕ → Option (Outcome (Unit {0}))
then_free l (exited code s) = some (exited code s)
then_free l (ok status s) = free_command_list l >>= λ heap. some (ok tt s)

-- What follows a line, from what is in `tokens` and what comes of the line: no session where the line
-- does not come to its end.
abbrev pub after_line :
    Option (List (List ℕ)) → Option (Outcome (Unit {0})) → (Shell → Option Session) → Option Session
after_line none outcome more = some undefined
after_line (some tokens) none more = none
after_line (some tokens) (some (ok _ s)) more = more s
after_line (some tokens) (some (exited code s)) more = some (ended code s)

module _ (os : Os) where
  unfoldable pub run_list : CommandList → Shell → Option (Outcome (Unit {0}))
  unfolding then_free
  run_list l s = commands_of l >>= λ commands. then_free l (run_pipeline os commands s)

  unfoldable pub run_tokens : List Token → Shell → Option (Outcome (Unit {0}))
  unfolding run_list
  run_tokens tokens s = build_command_list tokens >>= λ l. run_list l s

  unfoldable pub run_line : List ℕ → Shell → Option (Outcome (Unit {0}))
  unfolding run_tokens tokens_in put_status classified
  run_line line s =
      tokens_in line >>= λ tokens. run_tokens (classified (put_status s.qbuf tokens)) s

  -- The loop, on fuel; `none` when it runs out, or a loop inside it does.
  unfoldable pub lines : ℕ → (input : List ℕ) → Shell → Option Session
  unfolding run_line read_line tokens_in
  lines fuel [] s = some (finished (record s { printed = s.printed ++ ([] ∷ []) }))
  lines zero (c ∷ input) s = none
  lines (suc fuel) (c ∷ input) s =
      let (line, rest) = read_line 1023 (c ∷ input) in
      after_line (tokens_in line) (run_line line s) (lines fuel rest)

  abbrev pub session : (input : List ℕ) → Shell → Option Session
  session input s = lines (length input) input s

  -- The shell reads the file that its one argument names, or its standard input. `qbuf`, which is not
  -- set before the first status, is what the given state has: any text.
  unfoldable pub main :
      (argv : List (List ℕ))
      → (stdin : List ℕ) → (contents : List ℕ → List ℕ) → Shell
      → Option Session
  unfolding lines
  main [] stdin contents s = session stdin s
  main (program ∷ []) stdin contents s = session stdin s
  main (program ∷ file ∷ []) stdin contents s =
      if os.readable file
      then session (contents file) (record s { fds = (take_lowest s.fds (read_file file)).1 })
      else some (ended 1 s)
  main (program ∷ file ∷ other ∷ more) stdin contents s = some (ended 1 s)
