-- ===== src/Shell/Loop/Pipelines.antt =====
-- `runPipeline` on a line of two commands or more, when every call succeeds.
use systems_projects.Prelude.{
  ℕ, ◌+◌, ◌≡◌, refl, ap, ◌∙◌, none, List, [], ◌∷◌, ◌++◌, append_assoc, length, All, arith,
}
use systems_projects.Shell.Commands.{Command}
use systems_projects.Shell.Commands.Links.{LinkedFrom}
use systems_projects.Shell.Files.{File}
use systems_projects.Shell.Files.Laws.{open_count}
use systems_projects.Shell.Os.{Os, Child, Shell, ok, waitpid}
use systems_projects.Shell.Internal.{decimal}
use systems_projects.Shell.External.{exit_status}
use systems_projects.Shell.Loop.{wait_all, run_pipeline}
use systems_projects.Shell.Loop.Stages.{Succeeds, Ready, stdin_for}
use systems_projects.Shell.Loop.Chains.{Named, Chain, pids_of}
use systems_projects.Shell.Loop.Rounds.{run_all}

-- The last of some numbers, the first of which is given.
abbrev pub last_of : ℕ → List ℕ → ℕ
last_of n [] = n
last_of n (m ∷ ms) = last_of m ms

module _ (os : Os) where
  waited_for : ℕ → Shell → List ℕ → Shell
  waited_for n s pids = record s {
    waited = s.waited ++ (n ∷ pids);
    qbuf = decimal (exit_status (os.wait (last_of n pids)));
  }

  wait_all_lem :
      (n : ℕ) (pids : List ℕ) (code : ℕ) (s : Shell)
      → wait_all os (n ∷ pids) code s ≡ ok (os.wait (last_of n pids)) (waited_for n s pids)
  unfolding wait_all waitpid waited_for
  wait_all_lem n [] code s = refl
  wait_all_lem n (m ∷ pids) code s =
      wait_all_lem m pids (os.wait n)
        (record s { waited = s.waited ++ (n ∷ []); qbuf = decimal (exit_status (os.wait n)) })
      ∙ rw append_assoc refl

module _ (os : Os) (pid : ℕ → ℕ) (works : Succeeds os pid) (s : Shell) (a b : File)
    (ready : Ready s.fds a b) where
  -- What a run of a pipeline leaves.
  pub record Ran (c : Command) (commands : List Command) (leak : ℕ) : Type 0 where
    pub final : Shell
    pub first : ℕ × Child
    pub kids : List (ℕ × Child)
    pub runs :
        run_pipeline os (c ∷ commands) s ≡ ok (os.wait (last_of first.0 (pids_of kids))) final
    pub started : final.children ≡ s.children ++ (first ∷ kids)
    pub chain : Chain s.pipes (stdin_for c.input a) b (c ∷ commands) (first ∷ kids)
    pub waited : final.waited ≡ s.waited ++ pids_of (first ∷ kids)
    pub status : final.qbuf ≡ decimal (exit_status (os.wait (last_of first.0 (pids_of kids))))
    pub opened : open_count final.fds ≡ open_count s.fds + leak

  finish :
      (c d : Command) (commands : List Command) (last : Shell) (kids : List (ℕ × Child))
      → run_pipeline os (c ∷ d ∷ commands) s ≡ wait_all os (pids_of kids) 0 last
      → last.children ≡ s.children ++ kids
      → Chain s.pipes (stdin_for c.input a) b (c ∷ d ∷ commands) kids
      → last.waited ≡ s.waited
      → open_count last.fds + 1 ≡ open_count s.fds + (length commands + 1)
      → Ran c (d ∷ commands) (length commands)
  unfolding waited_for
  finish c d commands last [] runs started chain waited opened = absurd chain
  finish c d commands last (first ∷ kids) runs started chain waited opened = record {
    final = waited_for os first.0 last (pids_of kids);
    first = first;
    kids = kids;
    runs = runs ∙ wait_all_lem os first.0 (pids_of kids) 0 last;
    started = started;
    chain = chain;
    waited = ap (λ (l : List ℕ). l ++ (first.0 ∷ pids_of kids)) waited;
    status = refl;
    opened = omega (arith, opened);
  }

  -- On a list of two named commands or more, linked both ways, when every call succeeds, the shell
  -- starts one child for each command in order, waits for all of them and returns the status word of
  -- the last one, whose exit status is the text of `$?`. Each child runs its command, the first with
  -- its input file or the shell's input, each of the others with the pipe that the one before it
  -- writes, and the last with its output file or the shell's output. No child has a writing end of a
  -- pipe but as its output. The shell is left with as many more open descriptors as the list has
  -- commands between the first and the last.
  pub run_pipeline-Ran :
      (c d : Command) (commands : List Command)
      → LinkedFrom 0 none (c ∷ d ∷ commands)
      → All Named (c ∷ d ∷ commands)
      → Ran c (d ∷ commands) (length commands)
  unfolding run_pipeline
  run_pipeline-Ran c d commands links names =
      let r = run_all os pid works c d commands s a b links names ready in
      finish c d commands r.last r.kids r.runs r.started r.chain r.same r.opened
