-- ===== src/Shell/Main/Typed.antt =====
-- Lines of plain words, from the characters that are typed to what is run.
use systems_projects.Prelude.{
  ℕ, zero, suc, ◌+◌, ◌≤◌, ◌<◌, ◌≡◌, refl, ap, sym, ◌∙◌, true, false, ltb, leb, ◌==◌, if◌then◌else◌,
  Option, some, List, [], ◌∷◌, ◌++◌, append_assoc, length, codes, All, arith, ◌>>=◌,
}
use systems_projects.Shell.Parser.{is_space}
use systems_projects.Shell.Parser.Words.{is_plain}
use systems_projects.Shell.Parser.RoundTrip.{
  Typed, IsTyped, word_of, words_of, text, packed, offsets, parse-text, until_null,
  strings-parse-text,
}
use systems_projects.Shell.Commands.{word, text_eq, classify, is_null}
use systems_projects.Shell.Commands.Lines.{words}
use systems_projects.Shell.Commands.Pipeline.{started, plain, build_command_list-words}
use systems_projects.Shell.Os.{Os, execs, exits, Shell, ok, exited}
use systems_projects.Shell.Internal.{text_of, decimal, arguments, run_exit}
use systems_projects.Shell.External.{has_exited, exit_status, value_of}
use systems_projects.Shell.Loop.{standalone_command, run_round, run_named, run_from, run_pipeline}
use systems_projects.Shell.Loop.Single.{
  atoi_byte-decimal, IsAlone, IsExternal, waited_child, run_pipeline-external,
}
use systems_projects.Shell.Main.{
  read_line, tokens_in, put_status, classified, ended, after_line, run_tokens, run_line, lines,
  main,
}
use systems_projects.Shell.Main.Safe.{dropped, run_tokens-build_command_list}

-- A word that stands for itself: neither `$?` nor an operator.
pub record IsOrdinary (w : List ℕ) : Type 0 where
  pub not_status : text_eq w (codes "$?") ≡ false
  pub not_operator : classify w ≡ word w

classified-words :
    (qbuf : List ℕ) (ws : List (List ℕ))
    → All IsOrdinary ws
    → classified (put_status qbuf ws) ≡ words ws
unfolding classified put_status
classified-words qbuf [] h = refl
classified-words qbuf (w ∷ ws) h =
    rw (h.0.not_status, h.0.not_operator) (ap (λ l. word w ∷ l) (classified-words qbuf ws h.1))

until_null-blanks :
    (blanks rest : List ℕ)
    → All (λ c. is_space c ≡ true) blanks
    → until_null rest ≡ rest
    → until_null (blanks ++ rest) ≡ blanks ++ rest
until_null-blanks [] rest h e = e
until_null-blanks (c ∷ blanks) rest h e =
    let n : (c == 0) ≡ false = ground (arith, h.0) in
    rw (n, until_null-blanks blanks rest h.1 e) refl

until_null-word :
    (w rest : List ℕ)
    → All (λ c. is_plain c ≡ true) w
    → until_null rest ≡ rest
    → until_null (w ++ rest) ≡ w ++ rest
until_null-word [] rest h e = e
until_null-word (c ∷ w) rest h e =
    let n : (c == 0) ≡ false = ground (arith, h.0) in rw (n, until_null-word w rest h.1 e) refl

until_null-text : (es : List Typed) → All IsTyped es → until_null (text es) ≡ text es
until_null-text [] h = refl
until_null-text (e ∷ es) h =
    until_null-word (word_of e) (e.blank ∷ (e.blanks ++ text es)) (h.0.plain_head, h.0.plain_tail)
      (until_null-blanks (e.blank ∷ e.blanks) (text es) (h.0.one_blank, h.0.more_blanks)
        (until_null-text es h.1))

length-offsets : (n : ℕ) (ws : List (List ℕ)) → length (offsets n ws) ≡ length ws
length-offsets n [] = refl
length-offsets n (w ∷ ws) = ap suc (length-offsets (n + length w + 1) ws)

length-words_of : (es : List Typed) → length (words_of es) ≡ length es
length-words_of [] = refl
length-words_of (e ∷ es) = ap suc (length-words_of es)

-- The line fits into the two arrays of `main`, with two entries of each left over.
pub record Fits (es : List Typed) : Type 0 where
  pub typed : All IsTyped es
  pub few : length es + 2 ≤ 32
  pub short : length (packed (words_of es)) + 2 ≤ 1024

tokens_in-text : (es : List Typed) → Fits es → tokens_in (text es) ≡ some (words_of es)
unfolding tokens_in
tokens_in-text es h =
    let e = parse-text es 32 1024 h.typed h.few h.short in
    let few : ltb (length (offsets 0 (words_of es))) 32 ≡ true =
      ground (arith, h.few, length-offsets 0 (words_of es), length-words_of es) in
    let short : leb (length (packed (words_of es))) 1024 ≡ true = ground (arith, h.short) in
    let same = strings-parse-text es 32 1024 h.typed h.few h.short in
    rw (until_null-text es h.typed, e, few, short) (ap some (rw e at same))

started-IsAlone : (w : List ℕ) (ws : List (List ℕ)) → IsAlone (started (plain w ws)) (word w)
unfolding is_null
started-IsAlone w ws = record { named = refl; no_next = refl; no_prev = refl; no_and = refl }

-- A line up to its newline is read whole.
read_line-newline :
    (n : ℕ) (line rest : List ℕ)
    → All (λ c. (c == b'\n') ≡ false) line
    → length line + 1 ≤ n
    → read_line n (line ++ (b'\n' ∷ rest)) ≡ (line ++ (b'\n' ∷ []), rest)
unfolding read_line
read_line-newline zero line rest h small = absurd (omega arith)
read_line-newline (suc n) [] rest h small = refl
read_line-newline (suc n) (c ∷ line) rest h small =
    rw (h.0, read_line-newline n line rest h.1 (omega arith)) refl

-- The loop on an input that begins with a line.
lines_step :
    (os : Os) (line rest : List ℕ) (s : Shell)
    → All (λ c. (c == b'\n') ≡ false) line
    → length line + 1 ≤ 1023
    → (fuel : ℕ) × (lines os (length (line ++ (b'\n' ∷ rest))) (line ++ (b'\n' ∷ rest)) s
        ≡ after_line
            (tokens_in (line ++ (b'\n' ∷ [])))
            (run_line os (line ++ (b'\n' ∷ [])) s)
            (lines os fuel rest))
unfolding lines
lines_step os [] rest s h small = (
  length rest,
  ap
      (λ (p : List ℕ × List ℕ).
        after_line (tokens_in p.0) (run_line os p.0 s) (lines os (length rest) p.1))
      (read_line-newline 1023 [] rest h small),
)
lines_step os (c ∷ line) rest s h small = (
  length (line ++ (b'\n' ∷ rest)),
  ap
      (λ (p : List ℕ × List ℕ).
        after_line (tokens_in p.0) (run_line os p.0 s)
          (lines os (length (line ++ (b'\n' ∷ rest))) p.1))
      (read_line-newline 1023 (c ∷ line) rest h small),
)

decimal-IsOrdinary : (n : ℕ) → IsOrdinary (decimal n)
unfolding decimal text_eq classify
decimal-IsOrdinary n = record { not_status = ground arith; not_operator = ground arith }

exit-IsOrdinary : IsOrdinary (codes "exit")
unfolding text_eq classify
exit-IsOrdinary = record { not_status = refl; not_operator = refl }

module _ (os : Os) where
  run_line-words :
      (es : List Typed) (w : List ℕ) (ws : List (List ℕ)) (s : Shell)
      → Fits es
      → words_of es ≡ w ∷ ws
      → All IsOrdinary (w ∷ ws)
      → run_line os (text es) s ≡ some (dropped (run_pipeline os (started (plain w ws) ∷ []) s))
  unfolding run_line
  run_line-words es w ws s h same ordinary =
      let tokens : tokens_in (text es) ≡ some (w ∷ ws) = tokens_in-text es h ∙ ap some same in
      ap
        (λ (o : Option (List (List ℕ))).
          o >>= λ tokens. run_tokens os (classified (put_status s.qbuf tokens)) s)
        tokens
      ∙ rw (classified-words s.qbuf (w ∷ ws) ordinary) (
          run_tokens-build_command_list os (words (w ∷ ws)) s _ (build_command_list-words w ws)
            (record { ends = (refl, refl); links = (refl, refl) }))

  -- A line of ordinary words, the first of which is none of `pwd`, `cd` and `exit`, starts one child,
  -- which runs the first word with all the words as its arguments, and with the shell's descriptors,
  -- or exits with 1 where that cannot be executed. The shell waits for it, and if it exited, its exit
  -- status becomes the text of `$?`. This holds if the line fits into the arrays of the shell, `fork`
  -- succeeds and what `malloc` leaves in `redirect` is not 0.
  pub run_line-external :
      (es : List Typed) (w : List ℕ) (ws : List (List ℕ)) (pid : ℕ) (s : Shell)
      → Fits es
      → words_of es ≡ w ∷ ws
      → All IsOrdinary (w ∷ ws)
      → IsExternal (word w)
      → os.fork s.forks ≡ some pid
      → (os.unset == 0) ≡ false
      → run_line os (text es) s
        ≡ some (
            ok tt (
              waited_child s pid
                (if os.executable w then execs (word w) (words (w ∷ ws)) s.fds else exits 1)
                (if has_exited (os.wait pid) then decimal (exit_status (os.wait pid)) else s.qbuf)))
  unfolding value_of text_of is_null
  run_line-external es w ws pid s h same ordinary ext forks set =
      run_line-words es w ws s h same ordinary
      ∙ ap (λ o. some (dropped o))
          (run_pipeline-external os s (started (plain w ws)) (word w) pid (started-IsAlone w ws) ext
            forks set refl refl)

  run_pipeline-exit :
      (n : ℕ) (s : Shell)
      → n < 256
      → run_pipeline os (started (plain (codes "exit") (decimal n ∷ [])) ∷ []) s ≡ exited n s
  unfolding run_pipeline run_from run_named run_round standalone_command run_exit arguments text_of
      is_null text_eq
  run_pipeline-exit n s small = ap (λ (code : ℕ). exited code s) (atoi_byte-decimal n small)

  -- The line of the words `exit` and a number below 256 in decimal ends the session with that number
  -- as its status, whatever follows it in the input. The line is one that fits into the arrays of the shell
  -- and ends with its only newline.
  pub main-exit :
      (es : List Typed) (line rest : List ℕ) (n : ℕ) (program : List ℕ) (contents : List ℕ → List ℕ)
      (s : Shell)
      → Fits es
      → text es ≡ line ++ (b'\n' ∷ [])
      → All (λ c. (c == b'\n') ≡ false) line
      → length line + 1 ≤ 1023
      → words_of es ≡ codes "exit" ∷ decimal n ∷ []
      → n < 256
      → main os (program ∷ []) (text es ++ rest) contents s ≡ some (ended n s)
  unfolding main
  main-exit es line rest n program contents s h ends no_newline short same small =
      let input : text es ++ rest ≡ line ++ (b'\n' ∷ rest) =
        rw ends (append_assoc line (b'\n' ∷ []) rest) in
      let (fuel, step) = lines_step os line rest s no_newline short in
      let ordinary : All IsOrdinary (codes "exit" ∷ decimal n ∷ []) =
        (exit-IsOrdinary, (decimal-IsOrdinary n, tt)) in
      let done =
        run_line-words es (codes "exit") (decimal n ∷ []) s h same ordinary
        ∙ ap (λ o. some (dropped o)) (run_pipeline-exit n s small) in
      ap (λ (i : List ℕ). lines os (length i) i s) input
      ∙ step
      ∙ ap (λ l. after_line (tokens_in l) (run_line os l s) (lines os fuel rest)) (sym ends)
      ∙ ap (λ o. after_line o (run_line os (text es) s) (lines os fuel rest)) (tokens_in-text es h)
      ∙ ap (λ r. after_line (some (words_of es)) r (lines os fuel rest)) done
