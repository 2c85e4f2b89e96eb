-- ===== src/Shell/Pipes/Examples.antt =====
-- A run of `ls | wc | wc` by `checkAndRunPipes`, and a line with two pipes side by side.
use systems_projects.Prelude.{◌+◌, ◌≡◌, refl, true, none, some, [], ◌∷◌, codes}
use systems_projects.Shell.Commands.{Token, word, pipe, is_null}
use systems_projects.Shell.Files.{stream}
use systems_projects.Shell.Os.{Os, Shell}
use systems_projects.Shell.Loop.Stages.{Succeeds}
use systems_projects.Shell.Pipes.{run_vectors, check_and_run_pipes}
use systems_projects.Shell.Pipes.Tokens.{Cells, clear_pipes, skip_nulls, skip_words, command_args}
use systems_projects.Shell.Pipes.Run.{Ran}
use systems_projects.Shell.Pipes.Whole.{check_and_run_pipes-Ran}

abbrev system : Os
system = record {
  fork = λ n. some (100 + n);
  wait = λ pid. 0;
  executable = λ t. true;
  readable = λ t. true;
  writable = λ t. true;
  chmod = λ t. true;
  chdir = λ t. true;
  home = none;
  getcwd = λ moves. none;
  unset = 1;
}

abbrev shell : Shell
shell = record {
  fds = some (stream 0) ∷ some (stream 1) ∷ some (stream 2) ∷ [];
  forks = 0;
  pipes = 0;
  children = [];
  waited = [];
  qbuf = b'0' ∷ [];
  printed = [];
  moves = [];
}

works : Succeeds system (λ n. 100 + n)
works = record { forks = λ n. refl; executes = λ t. refl; reads = λ t. refl; writes = λ t. refl }

abbrev ls : Token
ls = word (codes "ls")

abbrev wc : Token
wc = word (codes "wc")

abbrev cells : Cells
cells = some ls ∷ some pipe ∷ some wc ∷ some pipe ∷ some wc ∷ none ∷ []

check_and_run_pipes-Ran_example :
    (check_and_run_pipes system cells 5
      ≡ some (run_vectors system 2 ((ls ∷ []) ∷ (wc ∷ []) ∷ (wc ∷ []) ∷ [])))
    × Ran system shell (stream 0) (stream 1) 2 ((ls ∷ []) ∷ (wc ∷ []) ∷ (wc ∷ []) ∷ [])
check_and_run_pipes-Ran_example =
    check_and_run_pipes-Ran system (λ n. 100 + n) shell (stream 0) (stream 1) (ls ∷ []) (wc ∷ [])
      ((wc ∷ []) ∷ []) [] works refl refl ((refl, tt), ((refl, tt), ((refl, tt), tt)))
      (tt, (tt, (tt, tt)))

-- `ls | | wc`: the third command is looked for behind the NULL at the end.
two_pipes :
    check_and_run_pipes system (some ls ∷ some pipe ∷ some pipe ∷ some wc ∷ none ∷ []) 4 ≡ none
unfolding check_and_run_pipes clear_pipes command_args skip_nulls skip_words is_null
two_pipes = refl
