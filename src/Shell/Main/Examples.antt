-- ===== src/Shell/Main/Examples.antt =====
-- A shell on a system on which every call succeeds, and the theorems about what it runs there.
use systems_projects.Prelude.{
  ℕ, zero, suc, ◌+◌, ◌≤◌, ◌≡◌, refl, true, false, none, some, List, [], ◌∷◌, ◌++◌, length, codes,
  arith,
}
use systems_projects.Shell.Parser.RoundTrip.{Typed, text}
use systems_projects.Shell.Commands.{
  Token, pipe, word, Command, CommandList, create_command, text_eq, classify, is_null,
  build_command_list,
}
use systems_projects.Shell.Commands.Lines.{Stage, Line, last, piped, from, onto, words}
use systems_projects.Shell.Files.{Table, stream, pipe_write, lookup}
use systems_projects.Shell.Os.{Os, execs, returns, Shell, ok}
use systems_projects.Shell.Internal.{text_of, decimal}
use systems_projects.Shell.External.{file_name}
use systems_projects.Shell.Loop.{run_pipeline}
use systems_projects.Shell.Loop.Stages.{Succeeds, Ready}
use systems_projects.Shell.Loop.Chains.{Named}
use systems_projects.Shell.Loop.Pipelines.{Ran, run_pipeline-Ran}
use systems_projects.Shell.Loop.Operators.{
  piped_only, run_pipeline-piped_only, Left, run_pipeline-nameless,
}
use systems_projects.Shell.Loop.Single.{
  IsAlone, IsExternal, waited_child, run_pipeline-second_shell,
}
use systems_projects.Shell.Main.{
  Session, ended, tokens_in, put_status, classified, run_tokens, run_line, main,
}
use systems_projects.Shell.Main.Ends.{main-Ends}
use systems_projects.Shell.Main.Safe.{dropped, run_line-run_pipeline}
use systems_projects.Shell.Main.Typed.{IsOrdinary, Fits, run_line-external, main-exit}
use systems_projects.Shell.Main.Pipelines.{RanLine, run_tokens-RanLine}
use systems_projects.Shell.Main.Unfinished.{at_less, operator, run_tokens-operator}

-- Every child exits with 3.
abbrev system : Os
system = record {
  fork = λ n. some (100 + n);
  wait = λ pid. 768;
  executable = λ t. true;
  readable = λ t. true;
  writable = λ t. true;
  chmod = λ t. true;
  chdir = λ t. true;
  home = none;
  getcwd = λ moves. none;
  unset = 1;
}

abbrev no_files : Os
no_files = record system { readable = λ t. false }

abbrev shell : Shell
shell = record {
  fds = some (stream 0) ∷ some (stream 1) ∷ some (stream 2) ∷ [];
  forks = 0;
  pipes = 0;
  children = [];
  waited = [];
  qbuf = b'0' ∷ [];
  printed = [];
  moves = [];
}

abbrev pid : ℕ → ℕ
pid n = 100 + n

works : Succeeds system pid
works = record { forks = λ n. refl; executes = λ t. refl; reads = λ t. refl; writes = λ t. refl }

no_writers : (j k : ℕ) → lookup shell.fds j ≡ some (pipe_write k) → ⊥
no_writers zero k e = cc
no_writers (suc zero) k e = cc
no_writers (suc (suc zero)) k e = cc
no_writers (suc (suc (suc j))) k e = cc

ready : Ready shell.fds (stream 0) (stream 1)
ready = record { stdin = refl; stdout = refl; no_writer = no_writers }

abbrev ls : Token
ls = word (codes "ls")

abbrev lone : Command
lone = record create_command { command = some ls; args = ls ∷ [] }

-- `ls | ls && ls`.
abbrev first : Command
first = record lone { next = some 1 }

abbrev second : Command
second = record lone { next = some 2; prev = some 0; next_pipe = 1 }

abbrev third : Command
third = record lone { prev = some 1 }

abbrev nameless : Command
nameless = record second { command = none; args = [] }

ls_lone : Named lone
ls_lone = (ls, refl)

ls-IsExternal : IsExternal ls
unfolding text_of text_eq
ls-IsExternal = record { not_pwd = refl; not_cd = refl; not_exit = refl }

run_pipeline-Ran_example :
    Ran system pid works shell (stream 0) (stream 1) ready first (second ∷ third ∷ []) 1
run_pipeline-Ran_example =
    run_pipeline-Ran system pid works shell (stream 0) (stream 1) ready first second (third ∷ [])
      (refl, refl, (refl, refl, (refl, refl))) (ls_lone, (ls_lone, (ls_lone, tt)))

run_pipeline-piped_only_example :
    run_pipeline system (first ∷ second ∷ third ∷ [])
    ≡ run_pipeline system (piped_only (first ∷ second ∷ third ∷ []))
run_pipeline-piped_only_example =
    run_pipeline-piped_only system first second (third ∷ [])
      (refl, refl, (refl, refl, (refl, refl)))

run_pipeline-nameless_example :
    (final : Shell) × (run_pipeline system (first ∷ nameless ∷ third ∷ []) shell ≡ ok 1 final)
    × Left shell first (stream 0) 100 final
run_pipeline-nameless_example =
    run_pipeline-nameless system pid works first nameless (third ∷ []) shell (stream 0) (stream 1)
      ready (refl, refl, (refl, refl, (refl, refl))) ls_lone refl

-- `ls <f >g`.
abbrev both_files : Command
both_files = record lone {
  input = some (word (codes "f"));
  output = some (word (codes "g"));
  redirect = some 0;
}

both_files-IsAlone : IsAlone both_files ls
unfolding is_null
both_files-IsAlone = record { named = refl; no_next = refl; no_prev = refl; no_and = refl }

f_named : file_name both_files.input ≡ some (codes "f")
unfolding file_name text_of
f_named = refl

run_pipeline-second_shell_example :
    (t : Table) × (run_pipeline no_files (both_files ∷ []) shell
      ≡ ok 0 (waited_child shell 100 (returns 1 t) (b'0' ∷ [])))
run_pipeline-second_shell_example =
    run_pipeline-second_shell no_files shell both_files ls 100 both_files-IsAlone ls-IsExternal refl
      (codes "f") f_named refl

abbrev two_words : List Token
two_words = ls ∷ pipe ∷ ls ∷ []

-- `ls <f | ls >g`.
abbrev stage : Stage
stage = record { program = codes "ls"; arguments = []; redirects = from (codes "f") ∷ [] }

abbrev line : Line
line = last (record { program = codes "ls"; arguments = []; redirects = onto (codes "g") ∷ [] })

run_tokens-RanLine_example :
    RanLine system pid works shell (stream 0) (stream 1) ready (piped stage line)
run_tokens-RanLine_example =
    run_tokens-RanLine system pid works shell (stream 0) (stream 1) ready stage line

run_tokens-operator_example :
    run_tokens system (words (codes "ls" ∷ []) ++ (operator at_less ∷ [])) shell
    ≡ some (ok tt shell)
run_tokens-operator_example = run_tokens-operator system shell (codes "ls") [] ls-IsExternal at_less

main-Ends_example :
    (end : Session) × (main system (codes "sh" ∷ []) (codes "ls\n") (λ f. []) shell ≡ some end)
main-Ends_example = main-Ends system (codes "sh" ∷ []) (codes "ls\n") (λ f. []) shell

run_line-run_pipeline_example :
    (tokens : List (List ℕ)) × (r : CommandList) × (tokens_in (codes "ls -a\n") ≡ some tokens)
    × (build_command_list (classified (put_status (b'0' ∷ []) tokens)) ≡ some r)
    × (length r.cells ≤ 31)
    × (run_line system (codes "ls -a\n") shell ≡ some (dropped (run_pipeline system r.cells shell)))
run_line-run_pipeline_example = run_line-run_pipeline system (codes "ls -a\n") shell (omega arith)

-- `ls` and a newline.
abbrev typed_ls : Typed
typed_ls = record { head = b'l'; tail = b's' ∷ []; blank = b'\n'; blanks = [] }

typed_ls-Fits : Fits (typed_ls ∷ [])
typed_ls-Fits = record {
  typed = (
    record { plain_head = refl; plain_tail = (refl, tt); one_blank = refl; more_blanks = tt },
    tt,
  );
  few = omega arith;
  short = omega arith;
}

ls-IsOrdinary : IsOrdinary (codes "ls")
unfolding text_eq classify
ls-IsOrdinary = record { not_status = refl; not_operator = refl }

run_line-external_example :
    run_line system (text (typed_ls ∷ [])) shell
    ≡ some
        (ok tt (waited_child shell 100 (execs ls (words (codes "ls" ∷ [])) shell.fds) (decimal 3)))
run_line-external_example =
    run_line-external system (typed_ls ∷ []) (codes "ls") [] 100 shell typed_ls-Fits refl
      (ls-IsOrdinary, tt) ls-IsExternal refl refl

-- `exit 7` and a newline.
abbrev typed_exit : List Typed
typed_exit =
    record { head = b'e'; tail = codes "xit"; blank = b' '; blanks = [] }
    ∷ record { head = b'7'; tail = []; blank = b'\n'; blanks = [] }
    ∷ []

typed_exit-Fits : Fits typed_exit
typed_exit-Fits = record {
  typed = (
    record {
      plain_head = refl;
      plain_tail = (refl, (refl, (refl, tt)));
      one_blank = refl;
      more_blanks = tt;
    },
    (record { plain_head = refl; plain_tail = tt; one_blank = refl; more_blanks = tt }, tt),
  );
  few = omega arith;
  short = omega arith;
}

main-exit_example :
    main system (codes "sh" ∷ []) (text typed_exit ++ codes "ls\n") (λ f. []) shell
    ≡ some (ended 7 shell)
unfolding decimal
main-exit_example =
    main-exit system typed_exit (codes "exit 7") (codes "ls\n") 7 (codes "sh") (λ f. []) shell
      typed_exit-Fits refl (refl, (refl, (refl, (refl, (refl, (refl, tt)))))) (omega arith) refl
      (omega arith)
