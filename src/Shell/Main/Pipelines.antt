-- ===== src/Shell/Main/Pipelines.antt =====
-- A line of commands between pipes, from its tokens to its children.
use systems_projects.Prelude.{
  ℕ, suc, ◌≤◌, ◌≡◌, refl, ap, ◌∙◌, Option, none, some, List, [], ◌∷◌, length, All, arith,
}
use systems_projects.Shell.Commands.{Token, word, Command}
use systems_projects.Shell.Commands.Lines.{
  Stage, Line, last, piped, anded, tokens_of, View, views, meaning,
}
use systems_projects.Shell.Commands.Links.{LinkedFrom, build_command_list-IsLinked}
use systems_projects.Shell.Commands.Pipeline.{build_command_list-tokens_of}
use systems_projects.Shell.Files.{File}
use systems_projects.Shell.Os.{Os, Shell, ok}
use systems_projects.Shell.Loop.{run_pipeline}
use systems_projects.Shell.Loop.Stages.{Succeeds, Ready}
use systems_projects.Shell.Loop.Chains.{Named}
use systems_projects.Shell.Loop.Pipelines.{Ran, run_pipeline-Ran}
use systems_projects.Shell.Main.{run_tokens}
use systems_projects.Shell.Main.Safe.{dropped, run_tokens-build_command_list}

length-views : (cells : List Command) → length (views cells) ≡ length cells
length-views [] = refl
length-views (c ∷ cells) = ap suc (length-views cells)

meaning_some : (l : Line) → 1 ≤ length (meaning l)
meaning_some (last s) = omega arith
meaning_some (piped s l) = omega arith
meaning_some (anded s l) = omega arith

abbrev first_name : List View → Option Token
first_name [] = none
first_name (v ∷ vs) = v.command

abbrev others : List View → List View
others [] = []
others (v ∷ vs) = vs

views-Named : (cells : List Command) (l : Line) → views cells ≡ meaning l → All Named cells
views-Named [] l e = tt
views-Named (c ∷ []) (last s) e = ((word s.program, ap first_name e), tt)
views-Named (c ∷ d ∷ cells) (last s) e = absurd (omega (arith, ap length e))
views-Named (c ∷ cells) (piped s l) e =
    ((word s.program, ap first_name e), views-Named cells l (ap others e))
views-Named (c ∷ cells) (anded s l) e =
    ((word s.program, ap first_name e), views-Named cells l (ap others e))

module _ (os : Os) (pid : ℕ → ℕ) (works : Succeeds os pid) (s : Shell) (a b : File)
    (ready : Ready s.fds a b) where
  -- What comes of the tokens of a line.
  pub record RanLine (l : Line) : Type 0 where
    pub first : Command
    pub second : Command
    pub others : List Command
    pub listed : views (first ∷ second ∷ others) ≡ meaning l
    pub ran : Ran os pid works s a b ready first (second ∷ others) (length others)
    pub left : run_tokens os (tokens_of l) s ≡ some (ok tt ran.final)

  ran_cells :
      (cells : List Command) (l : Line)
      → 2 ≤ length (meaning l)
      → views cells ≡ meaning l
      → LinkedFrom 0 none cells
      → run_tokens os (tokens_of l) s ≡ some (dropped (run_pipeline os cells s))
      → RanLine l
  ran_cells [] l two e links runs = absurd (omega (arith, ap length e))
  ran_cells (c ∷ []) l two e links runs = absurd (omega (arith, ap length e))
  ran_cells (c ∷ d ∷ commands) l two e links runs =
      let ran =
        run_pipeline-Ran os pid works s a b ready c d commands links
          (views-Named (c ∷ d ∷ commands) l e) in
      record {
        first = c;
        second = d;
        others = commands;
        listed = e;
        ran = ran;
        left = runs ∙ ap (λ o. some (dropped o)) ran.runs;
      }

  -- From the tokens of a command, a pipe and a line of further commands, each with its arguments and
  -- redirections, the shell makes the list of just those commands and runs it as a pipeline, when every
  -- call succeeds: one child for each command, joined by pipes, all of which it waits for.
  pub run_tokens-RanLine : (stage : Stage) (l : Line) → RanLine (piped stage l)
  run_tokens-RanLine stage l =
      let (r, e, h) = build_command_list-IsLinked (tokens_of (piped stage l)) in
      let (r', e', same) = build_command_list-tokens_of (piped stage l) in
      let one : r' ≡ r = cc in
      ran_cells r.cells (piped stage l) (omega (arith, meaning_some l)) (rw one at same) h.links
        (run_tokens-build_command_list os (tokens_of (piped stage l)) s r e h)
