-- ===== src/Shell/Main/Safe.antt =====
-- The list of commands of a line is built, run and freed, and short lines fit into the arrays.
use systems_projects.Prelude.{
  ℕ, zero, suc, ◌+◌, ◌≤◌, ◌≡◌, refl, ap, ◌∙◌, true, ◌&&◌, ltb, leb, Option, none, some, List, [],
  ◌∷◌, length, length-append, arith, ◌>>=◌,
}
use systems_projects.Shell.Parser.{parse}
use systems_projects.Shell.Parser.Growth.{parse_grows}
use systems_projects.Shell.Parser.RoundTrip.{until_null, strings}
use systems_projects.Shell.Commands.{
  Token, Command, CommandList, empty, set_next, add_command, next_command, build,
  build_command_list,
}
use systems_projects.Shell.Commands.Build.{next_command_shrinks}
use systems_projects.Shell.Commands.Links.{IsLinked, build_command_list-IsLinked, length-set_next}
use systems_projects.Shell.Commands.Walk.{freed, free_command_list}
use systems_projects.Shell.Commands.Walk.Whole.{commands_of-IsLinked, free_command_list-IsLinked}
use systems_projects.Shell.Os.{Os, Shell, Outcome, ok, exited}
use systems_projects.Shell.Loop.{run_pipeline}
use systems_projects.Shell.Main.{
  tokens_in, put_status, classified, then_free, run_list, run_tokens, run_line,
}

length-add_command :
    (cells : List Command) (head tail : Option ℕ) (c : Command)
    → length (add_command (record { cells = cells; head = head; tail = tail }) c).cells
      ≡ length cells + 1
unfolding add_command
length-add_command cells none tail c = length-append cells (c ∷ [])
length-add_command cells (some h) none c = length-append cells (record c { prev = none } ∷ [])
length-add_command cells (some h) (some t) c = omega (
  arith,
  length-append (set_next cells t (length cells)) (record c { prev = some t } ∷ []),
  length-set_next cells t (length cells),
)

abbrev size_of : Option CommandList → ℕ
size_of none = 0
size_of (some l) = length l.cells

build_size :
    (fuel : ℕ) (l r : CommandList) (tokens : List Token)
    → build fuel l tokens ≡ some r
    → length r.cells ≤ length l.cells + length tokens
unfolding build
build_size fuel l r [] e = omega (arith, ap size_of e)
build_size zero l r (t ∷ tokens) e = absurd (cc)
build_size (suc fuel) l r (t ∷ tokens) e =
    let (cmd, rest) = next_command (t ∷ tokens) in
    omega (
      arith,
      build_size fuel (add_command l cmd) r rest e,
      next_command_shrinks t tokens,
      length-add_command l.cells l.head l.tail cmd,
    )

length-until_null : (line : List ℕ) → length (until_null line) ≤ length line
length-until_null [] = omega arith
length-until_null (c ∷ line) = ground (arith, length-until_null line)

length-strings : (buf argv : List ℕ) → length (strings buf argv) ≡ length argv
length-strings buf [] = refl
length-strings buf (offset ∷ argv) = ap suc (length-strings buf argv)

length-put_status :
    (qbuf : List ℕ) (tokens : List (List ℕ)) → length (put_status qbuf tokens) ≡ length tokens
unfolding put_status
length-put_status qbuf [] = refl
length-put_status qbuf (token ∷ tokens) = ap suc (length-put_status qbuf tokens)

length-classified : (tokens : List (List ℕ)) → length (classified tokens) ≡ length tokens
unfolding classified
length-classified [] = refl
length-classified (token ∷ tokens) = ap suc (length-classified tokens)

-- The outcome of a line, without the value that is not read.
abbrev pub dropped : Outcome ℕ → Outcome (Unit {0})
dropped (ok status s) = ok tt s
dropped (exited code s) = exited code s

then_free_lem :
    (l : CommandList) (o : Outcome ℕ) (heap : List (Option Command))
    → free_command_list l ≡ some heap
    → then_free l o ≡ some (dropped o)
unfolding then_free
then_free_lem l (ok status s) heap e =
    ap (λ (o : Option (List (Option Command))). o >>= λ heap. some (ok tt s)) e
then_free_lem l (exited code s) heap e = refl

module _ (os : Os) where
  pub run_tokens-build_command_list :
      (tokens : List Token) (s : Shell) (r : CommandList)
      → build_command_list tokens ≡ some r
      → IsLinked r
      → run_tokens os tokens s ≡ some (dropped (run_pipeline os r.cells s))
  unfolding run_tokens run_list
  run_tokens-build_command_list tokens s r e h =
      ap (λ (o : Option CommandList). o >>= λ l. run_list os l s) e
      ∙ ap
          (λ (o : Option (List Command)).
            o >>= λ commands. then_free r (run_pipeline os commands s))
          (commands_of-IsLinked r h)
      ∙ (then_free_lem r (run_pipeline os r.cells s) (freed (length r.cells))
          (free_command_list-IsLinked r h))

  -- A line of at most 30 bytes makes `parse` write past the end of neither array: it is read into tokens,
  -- they become a list of at most 31 commands, and what comes of the line is what `runPipeline` does with
  -- that list.
  pub run_line-run_pipeline :
      (line : List ℕ) (s : Shell)
      → length line ≤ 30
      → (tokens : List (List ℕ)) × (r : CommandList) × (tokens_in line ≡ some tokens)
        × (build_command_list (classified (put_status s.qbuf tokens)) ≡ some r)
        × (length r.cells ≤ 31)
        × (run_line os line s ≡ some (dropped (run_pipeline os r.cells s)))
  unfolding run_line tokens_in build_command_list
  run_line-run_pipeline line s short =
      let p = parse (until_null line) 32 1024 in
      let (args, bytes) = parse_grows (until_null line) 32 1024 in
      let fits : (ltb (length p.argv) 32 && leb (length p.buf) 1024) ≡ true =
        ground (arith, args, bytes, length-until_null line) in
      let tokens = strings p.buf p.argv in
      let read : tokens_in line ≡ some tokens = rw fits refl in
      let typed = classified (put_status s.qbuf tokens) in
      let (r, e, h) = build_command_list-IsLinked typed in
      (
        tokens,
        r,
        read,
        e,
        omega (
          arith,
          args,
          length-until_null line,
          build_size (length typed) empty r typed e,
          length-classified (put_status s.qbuf tokens),
          length-put_status s.qbuf tokens,
          length-strings p.buf p.argv,
        ),
        ap
              (λ (o : Option (List (List ℕ))).
                o >>= λ tokens. run_tokens os (classified (put_status s.qbuf tokens)) s)
              read
            ∙ run_tokens-build_command_list typed s r e h,
      )
