-- ===== src/Shell/Main/Unfinished.antt =====
-- Lines that stop behind an operator.
use systems_projects.Prelude.{ℕ, ◌≡◌, refl, ap, ◌∙◌, none, some, List, [], ◌∷◌, ◌++◌, length}
use systems_projects.Shell.Commands.{
  Token, less, greater, and_and, word, Command, empty, is_null, add_command, split_args, set_ops,
  build, build_command_list,
}
use systems_projects.Shell.Commands.Lines.{words}
use systems_projects.Shell.Commands.Pipeline.{started, plain, next_command-spelled}
use systems_projects.Shell.Os.{Os, Shell, ok}
use systems_projects.Shell.External.{run_external, value_of}
use systems_projects.Shell.Loop.{
  standalone_command, run_round, run_named, run_from, run_pipeline, wait_all,
}
use systems_projects.Shell.Loop.Single.{IsExternal}
use systems_projects.Shell.Main.{run_tokens}
use systems_projects.Shell.Main.Safe.{dropped, run_tokens-build_command_list}

-- The operators behind which a line may stop.
pub data Last : Type 0 where
  at_less at_greater at_and : Last

abbrev pub operator : Last → Token
operator at_less = less
operator at_greater = greater
operator at_and = and_and

abbrev ended_by : Last → Command → Command
ended_by at_and c = record c { next_pipe = 1 }
ended_by _ c = record c { redirect = some 0 }

built :
    (w : List ℕ) (ws : List (List ℕ)) (t : Last)
    → build_command_list (words (w ∷ ws) ++ (operator t ∷ []))
      ≡ some
          (record { cells = ended_by t (started (plain w ws)) ∷ []; head = some 0; tail = some 0 })
unfolding build_command_list build split_args set_ops add_command
built w ws at_less =
    ap
      (λ (p : Command × List Token).
        build (length (words ws ++ (less ∷ []))) (add_command empty p.0) p.1)
      (next_command-spelled (plain w ws) (less ∷ []) refl)
built w ws at_greater =
    ap
      (λ (p : Command × List Token).
        build (length (words ws ++ (greater ∷ []))) (add_command empty p.0) p.1)
      (next_command-spelled (plain w ws) (greater ∷ []) refl)
built w ws at_and =
    ap
      (λ (p : Command × List Token).
        build (length (words ws ++ (and_and ∷ []))) (add_command empty p.0) p.1)
      (next_command-spelled (plain w ws) (and_and ∷ []) refl)

links_of :
    (t : Last) (c : Command)
    → c.prev ≡ none
    → c.next ≡ none
    → ((ended_by t c).prev ≡ none) × ((ended_by t c).next ≡ none)
links_of at_less c p n = (p, n)
links_of at_greater c p n = (p, n)
links_of at_and c p n = (p, n)

module _ (os : Os) (s : Shell) (w : List ℕ) (ws : List (List ℕ)) (ext : IsExternal (word w)) where
  not_run :
      (t : Last)
      → (status : ℕ) × (run_pipeline os (ended_by t (started (plain w ws)) ∷ []) s ≡ ok status s)
  unfolding run_pipeline run_from run_named run_round standalone_command run_external value_of
      is_null wait_all
  not_run at_less = (1, rw (ext.not_pwd, ext.not_cd, ext.not_exit) refl)
  not_run at_greater = (1, rw (ext.not_pwd, ext.not_cd, ext.not_exit) refl)
  not_run at_and = (0, refl)

  -- A line of words, the first of which is none of `pwd`, `cd` and `exit`, that stops behind `<`, `>` or
  -- `&&` is not run: no child is started and the text of `$?` stays what it was.
  pub run_tokens-operator :
      (t : Last) → run_tokens os (words (w ∷ ws) ++ (operator t ∷ [])) s ≡ some (ok tt s)
  run_tokens-operator t =
      let (status, e) = not_run t in
      run_tokens-build_command_list os (words (w ∷ ws) ++ (operator t ∷ [])) s _ (built w ws t)
        (record { ends = (refl, refl); links = links_of t (started (plain w ws)) refl refl })
      ∙ ap (λ o. some (dropped o)) e
