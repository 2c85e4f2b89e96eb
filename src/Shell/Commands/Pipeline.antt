-- ===== src/Shell/Commands/Pipeline.antt =====
-- buildCommandList reads a line of commands as it is meant.
use systems_projects.Prelude.{
  ℕ, zero, suc, ◌≤◌, ◌≡◌, refl, ap, ◌∙◌, Option, none, some, List, [], ◌∷◌, ◌++◌, append_assoc,
  append-nil, length, arith,
}
use systems_projects.Shell.Commands.{
  Token, pipe, and_and, word, Command, CommandList, create_command, empty, set_next, add_command,
  split_args, first, set_ops, next_command, build, build_command_list,
}
use systems_projects.Shell.Commands.Build.{next_command_shrinks}
use systems_projects.Shell.Commands.Lines.{
  Redirect, from, onto, Stage, Line, last, piped, anded, words, operators, spelled, tokens_of,
  input_of, output_of, redirect_of, View, view, views, meaning,
}

split_args-words :
    (ws : List (List ℕ)) (rest : List Token)
    → split_args rest ≡ ([], rest)
    → split_args (words ws ++ rest) ≡ (words ws, rest)
unfolding split_args
split_args-words [] rest h = h
split_args-words (w ∷ ws) rest h =
    ap (λ (p : List Token × List Token). (word w ∷ p.0, p.1)) (split_args-words ws rest h)

split_args-operators :
    (rs : List Redirect) (rest : List Token)
    → split_args rest ≡ ([], rest)
    → split_args (operators rs ++ rest) ≡ ([], operators rs ++ rest)
unfolding split_args
split_args-operators [] rest h = h
split_args-operators (from f ∷ rs) rest h = refl
split_args-operators (onto f ∷ rs) rest h = refl

abbrev redirected : Command → List Redirect → Command
redirected c rs = record c {
  input = input_of c.input rs;
  output = output_of c.output rs;
  redirect = redirect_of c.redirect rs;
}

set_ops-operators :
    (c : Command) (rs : List Redirect) (rest : List Token)
    → set_ops c (operators rs ++ rest) ≡ set_ops (redirected c rs) rest
unfolding set_ops
set_ops-operators c [] rest = refl
set_ops-operators c (from f ∷ rs) rest =
    set_ops-operators (record c { redirect = some 0; input = some (word f) }) rs rest
set_ops-operators c (onto f ∷ rs) rest =
    set_ops-operators (record c { redirect = some 0; output = some (word f) }) rs rest

abbrev pub started : Stage → Command
started s = record create_command {
  args = words (s.program ∷ s.arguments);
  command = some (word s.program);
}

pub next_command-spelled :
    (s : Stage) (rest : List Token)
    → split_args rest ≡ ([], rest)
    → next_command (spelled s rest) ≡ set_ops (redirected (started s) s.redirects) rest
unfolding next_command first
next_command-spelled s rest h =
    ap
      (λ (p : List Token × List Token).
        set_ops (record create_command { args = p.0; command = first p.0 }) p.1)
      (split_args-words (s.program ∷ s.arguments) (operators s.redirects ++ rest)
        (split_args-operators s.redirects rest h))
    ∙ set_ops-operators (started s) s.redirects rest

views-append :
    (cells : List Command) (c : Command) → views (cells ++ (c ∷ [])) ≡ views cells ++ (view c ∷ [])
views-append [] c = refl
views-append (d ∷ cells) c = ap (λ l. view d ∷ l) (views-append cells c)

views-set_next : (cells : List Command) (i new : ℕ) → views (set_next cells i new) ≡ views cells
unfolding set_next
views-set_next [] i new = refl
views-set_next (c ∷ cells) zero new = refl
views-set_next (c ∷ cells) (suc i) new = ap (λ l. view c ∷ l) (views-set_next cells i new)

views-add :
    (cells : List Command) (head tail : Option ℕ) (c : Command)
    → views (add_command (record { cells = cells; head = head; tail = tail }) c).cells
      ≡ views cells ++ (view c ∷ [])
unfolding add_command
views-add cells none tail c = views-append cells c
views-add cells (some h) none c = views-append cells (record c { prev = none })
views-add cells (some h) (some t) c =
    views-append (set_next cells t (length cells)) (record c { prev = some t })
    ∙ ap (λ l. l ++ (view c ∷ [])) (views-set_next cells t (length cells))

views-add-more :
    (l : CommandList) (c : Command) (vs : List View)
    → views (add_command l c).cells ++ vs ≡ views l.cells ++ (view c ∷ vs)
views-add-more l c vs = rw (views-add l.cells l.head l.tail c, append_assoc)

-- One round of the loop, on a command that is spelled out.
build_round :
    (fuel : ℕ) (l : CommandList) (s : Stage) (rest left : List Token) (c : Command)
    → split_args rest ≡ ([], rest)
    → set_ops (redirected (started s) s.redirects) rest ≡ (c, left)
    → length (spelled s rest) ≤ fuel
    → (fuel' : ℕ) × (length left ≤ fuel')
      × (build fuel l (spelled s rest) ≡ build fuel' (add_command l c) left)
unfolding build
build_round zero l s rest left c h e enough = absurd (omega arith)
build_round (suc fuel) l s rest left c h e enough =
    let round : next_command (spelled s rest) ≡ (c, left) = next_command-spelled s rest h ∙ e in
    let others = words s.arguments ++ (operators s.redirects ++ rest) in
    let fewer : length (next_command (spelled s rest)).1 ≡ length left =
      ap (λ (p : Command × List Token). length p.1) round in
    (
      fuel,
      omega (arith, next_command_shrinks (word s.program) others, fewer),
      ap (λ (p : Command × List Token). build fuel (add_command l p.0) p.1) round,
    )

build-meaning :
    (fuel : ℕ) (l : CommandList) (line : Line)
    → length (tokens_of line) ≤ fuel
    → (r : CommandList) × (build fuel l (tokens_of line) ≡ some r)
      × (views r.cells ≡ views l.cells ++ meaning line)
unfolding build split_args set_ops
build-meaning fuel l (last s) enough =
    let c = redirected (started s) s.redirects in
    let (fuel', _, e) = build_round fuel l s [] [] c refl refl enough in
    (add_command l c, e, views-add l.cells l.head l.tail c)
build-meaning fuel l (piped s line) enough =
    let c = redirected (started s) s.redirects in
    let (fuel', short, e) =
      build_round fuel l s (pipe ∷ tokens_of line) (tokens_of line) c refl refl enough in
    let (r, done, same) = build-meaning fuel' (add_command l c) line short in
    (r, e ∙ done, same ∙ views-add-more l c (meaning line))
build-meaning fuel l (anded s line) enough =
    let c = record (redirected (started s) s.redirects) { next_pipe = 1 } in
    let (fuel', short, e) =
      build_round fuel l s (and_and ∷ tokens_of line) (tokens_of line) c refl refl enough in
    let (r, done, same) = build-meaning fuel' (add_command l c) line short in
    (r, e ∙ done, same ∙ views-add-more l c (meaning line))

-- A line of commands, each with its arguments and redirections, between pipes and `&&`s, becomes a
-- list of just those commands in order: the last redirection of a kind gives the file, a command
-- without redirections has its `redirect` undetermined, and `next_pipe` is 1 before `&&`.
pub build_command_list-tokens_of :
    (line : Line)
    → (r : CommandList) × (build_command_list (tokens_of line) ≡ some r)
      × (views r.cells ≡ meaning line)
unfolding build_command_list
build_command_list-tokens_of line = build-meaning (length (tokens_of line)) empty line (omega arith)

abbrev pub plain : List ℕ → List (List ℕ) → Stage
plain program arguments = record { program = program; arguments = arguments; redirects = [] }

-- Words alone are one command.
pub build_command_list-words :
    (w : List ℕ) (ws : List (List ℕ))
    → build_command_list (words (w ∷ ws))
      ≡ some (record { cells = started (plain w ws) ∷ []; head = some 0; tail = some 0 })
unfolding build_command_list build split_args set_ops add_command
build_command_list-words w ws =
    let e : next_command (words (w ∷ ws)) ≡ (started (plain w ws), []) =
      rw append-nil at (next_command-spelled (plain w ws) [] refl) in
    ap (λ (p : Command × List Token). build (length (words ws)) (add_command empty p.0) p.1) e
