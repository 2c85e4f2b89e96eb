-- ===== src/Shell/Pipes/Lines.antt =====
-- The commands of a line, in the array of tokens of `checkAndRunPipes`.
use systems_projects.Prelude.{
  ℕ, zero, suc, ◌+◌, ◌≤◌, ◌<◌, ◌≡◌, refl, sym, ap, ◌∙◌, true, false, ltb, Option, none, some, List,
  [], ◌∷◌, ◌++◌, append_assoc, length, length-append, get_elem?, All, arith,
}
use systems_projects.Shell.Commands.{Token, pipe, is_null}
use systems_projects.Shell.Pipes.Run.{Some}
use systems_projects.Shell.Pipes.Tokens.{
  Cells, is_pipe, clear_pipes, skip_nulls, skip_words, command_args, vector, drop, vectors,
}

-- Words of a command: at least one, and no pipe.
abbrev pub Words : List Token → Type 0
Words [] = Unit
Words (t ∷ c) = (is_pipe t ≡ false) × Words c

-- The tokens of a line of commands with pipes between them.
abbrev pub joined : List (List Token) → List Token
joined [] = []
joined (c ∷ []) = c
joined (c ∷ d ∷ commands) = c ++ (pipe ∷ joined (d ∷ commands))

abbrev pub somes : List Token → Cells
somes [] = []
somes (t ∷ c) = some t ∷ somes c

-- The array when the pipes are NULL.
abbrev pub cut : List (List Token) → Cells
cut [] = []
cut (c ∷ commands) = somes c ++ (none ∷ cut commands)

somes-append : (c d : List Token) → somes (c ++ d) ≡ somes c ++ somes d
somes-append [] d = refl
somes-append (t ∷ c) d = ap (λ (l : Cells). some t ∷ l) (somes-append c d)

clear-Words :
    (c : List Token) (m count : ℕ) (cells rest : Cells)
    → Words c
    → clear_pipes m cells ≡ some (rest, count)
    → clear_pipes (length c + m) (somes c ++ cells) ≡ some (somes c ++ rest, count)
unfolding clear_pipes
clear-Words [] m count cells rest words e =
    let number : 0 + m ≡ m = omega arith in ap (λ k. clear_pipes k cells) number ∙ e
clear-Words (t ∷ c) m count cells rest (word, words) e =
    let tail = clear-Words c m count cells rest words e in
    let number : suc (length c) + m ≡ suc (length c + m) = omega arith in
    ap (λ k. clear_pipes k (some t ∷ somes c ++ cells)) number ∙ rw (tail, word) refl

pub clear_joined :
    (c : List Token) (commands : List (List Token)) (extra : Cells)
    → All Words (c ∷ commands)
    → clear_pipes (length (joined (c ∷ commands))) (somes (joined (c ∷ commands)) ++ (none ∷ extra))
      ≡ some (cut (c ∷ commands) ++ extra, length commands)
unfolding clear_pipes
clear_joined c [] extra (words, rest) =
    let number : length c ≡ length c + 0 = omega arith in
    ap (λ k. clear_pipes k (somes c ++ (none ∷ extra))) number
    ∙ clear-Words c 0 0 (none ∷ extra) (none ∷ extra) words refl
    ∙ ap (λ (l : Cells). some (l, 0)) (sym (append_assoc (somes c) (none ∷ []) extra))
clear_joined c (d ∷ commands) extra (words, rest) =
    let tail = clear_joined d commands extra rest in
    let j = joined (d ∷ commands) in
    let ends : Cells = none ∷ extra in
    let after = cut (d ∷ commands) in
    let number : length (c ++ (pipe ∷ j)) ≡ length c + suc (length j) =
      omega (arith, length-append c (pipe ∷ j)) in
    let line : somes (c ++ (pipe ∷ j)) ++ ends ≡ somes c ++ (some pipe ∷ somes j ++ ends) =
      ap (λ (l : Cells). l ++ ends) (somes-append c (pipe ∷ j))
      ∙ append_assoc (somes c) (some pipe ∷ somes j) ends in
    let step : clear_pipes (suc (length j)) (some pipe ∷ somes j ++ ends)
        ≡ some (none ∷ after ++ extra, length commands + 1) =
      rw tail refl in
    let pipes : length commands + 1 ≡ suc (length commands) = omega arith in
    ap (λ k. clear_pipes k (somes (c ++ (pipe ∷ j)) ++ ends)) number
    ∙ ap (clear_pipes (length c + suc (length j))) line
    ∙ clear-Words c (suc (length j)) (length commands + 1) (some pipe ∷ somes j ++ ends)
        (none ∷ after ++ extra) words step
    ∙ ap (λ (l : Cells). some (l, length commands + 1))
        (sym (append_assoc (somes c) (none ∷ after) extra))
    ∙ ap (λ (k : ℕ). some (cut (c ∷ d ∷ commands) ++ extra, k)) pipes

-- What stands at a place of an array.
next_cell :
    (cells : Cells) (p : ℕ) (cell : Option Token) (rest : Cells)
    → drop p cells ≡ cell ∷ rest
    → (get_elem? cells p ≡ some cell) × (drop (p + 1) cells ≡ rest)
next_cell [] zero cell rest e = absurd (cc)
next_cell [] (suc p) cell rest e = absurd (cc)
next_cell (x ∷ cells) zero cell rest e = let same : x ≡ cell = cc in (ap (λ y. some y) same, cc)
next_cell (x ∷ cells) (suc p) cell rest e =
    let number : suc p + 1 ≡ suc (p + 1) = omega arith in
    let (got, after) = next_cell cells p cell rest e in
    (got, ap (λ k. drop k (x ∷ cells)) number ∙ after)

vector_lem : (c : List Token) (rest : Cells) → vector (somes c ++ (none ∷ rest)) ≡ some c
unfolding vector
vector_lem [] rest = refl
vector_lem (t ∷ c) rest = let tail = vector_lem c rest in rw tail refl

-- A command is walked over up to the NULL behind it.
skip_words_lem :
    (fuel : ℕ) (c : List Token) (cells rest : Cells) (p n : ℕ)
    → drop p cells ≡ somes c ++ (none ∷ rest)
    → length c < fuel
    → p + length c ≤ n
    → (skip_words fuel cells n p ≡ some (p + length c)) × (drop (p + length c + 1) cells ≡ rest)
unfolding skip_words is_null
skip_words_lem zero c cells rest p n at enough small = absurd (omega arith)
skip_words_lem (suc fuel) [] cells rest p n at enough small =
    let (got, after) = next_cell cells p none rest at in
    let number : p ≡ p + 0 = omega arith in
    (rw got (ap (λ k. some k) number), ap (λ k. drop (k + 1) cells) (sym number) ∙ after)
skip_words_lem (suc fuel) (t ∷ c) cells rest p n at enough small =
    let (got, after) = next_cell cells p (some t) (somes c ++ (none ∷ rest)) at in
    let (more, behind) =
      skip_words_lem fuel c cells rest (p + 1) n after (omega arith) (omega arith) in
    let test : ltb p n ≡ true = ground arith in
    let number : p + 1 + length c ≡ p + suc (length c) = omega arith in
    (
      rw (got, test) (more ∙ ap (λ k. some k) number),
      ap (λ k. drop (k + 1) cells) (sym number) ∙ behind,
    )

skip_nulls_lem :
    (fuel : ℕ) (t : Token) (cells rest : Cells) (p n : ℕ)
    → drop p cells ≡ some t ∷ rest
    → skip_nulls (suc fuel) cells n p ≡ some p
unfolding skip_nulls is_null
skip_nulls_lem fuel t cells rest p n at =
    let (got, after) = next_cell cells p (some t) rest at in rw got refl

-- Where the commands begin, the first at `p`.
abbrev pub places : ℕ → List (List Token) → List ℕ
places p [] = []
places p (c ∷ commands) = p ∷ places (p + length c + 1) commands

abbrev pub width : List (List Token) → ℕ
width [] = 0
width (c ∷ commands) = length c + 1 + width commands

pub command_args_lem :
    (commands : List (List Token)) (cells extra : Cells) (p n : ℕ)
    → drop p cells ≡ cut commands ++ extra
    → All Some commands
    → p + width commands ≤ n + 1
    → (command_args (length commands) cells n p ≡ some (places p commands))
      × (vectors cells (places p commands) ≡ some commands)
unfolding command_args vectors
command_args_lem [] cells extra p n at names small = (refl, refl)
command_args_lem ([] ∷ commands) cells extra p n at (named, names) small = absurd named
command_args_lem ((t ∷ c) ∷ commands) cells extra p n at (named, names) small =
    let rest = cut commands ++ extra in
    let here : drop p cells ≡ somes (t ∷ c) ++ (none ∷ rest) =
      at ∙ append_assoc (somes (t ∷ c)) (none ∷ cut commands) extra in
    let nulls = skip_nulls_lem n t cells (somes c ++ (none ∷ rest)) p n here in
    let (words, behind) =
      skip_words_lem (n + 1) (t ∷ c) cells rest p n here (omega arith) (omega arith) in
    let (args, vecs) =
      command_args_lem commands cells extra (p + length (t ∷ c) + 1) n behind names (omega arith) in
    let number : suc n ≡ n + 1 = omega arith in
    let nulls' = ap (λ k. skip_nulls k cells n p) (sym number) ∙ nulls in
    let vec : vector (drop p cells) ≡ some (t ∷ c) = ap vector here ∙ vector_lem (t ∷ c) rest in
    (rw (nulls', words, args) refl, rw (vec, vecs) refl)
