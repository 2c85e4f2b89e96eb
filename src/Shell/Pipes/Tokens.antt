-- ===== src/Shell/Pipes/Tokens.antt =====
-- `modify_tokens_array` and the array of commands of `checkAndRunPipes`, in
-- unix-shell-from-scratch/external_commands.c. What is printed is left out.
use systems_projects.Prelude.{
  ℕ, zero, suc, ◌+◌, Bool, true, false, ◌&&◌, not, ltb, if◌then◌else◌, Option, none, some, List, [],
  ◌∷◌, get_elem?, ◌>>=◌,
}
use systems_projects.Shell.Commands.{Token, less, greater, pipe, and_and, bang, word, is_null}

-- The array of tokens, in which `none` is NULL.
abbrev pub Cells : Type 0
Cells = List (Option Token)

abbrev pub is_pipe : Token → Bool
is_pipe less = false
is_pipe greater = false
is_pipe pipe = true
is_pipe and_and = false
is_pipe bang = false
is_pipe (word text) = false

-- Each pipe among the first tokens becomes NULL, and is counted. There is no result where `strcmp` gets
-- NULL or what lies behind the array.
unfoldable pub clear_pipes : (rounds : ℕ) → Cells → Option (Cells × ℕ)
clear_pipes zero cells = some (cells, 0)
clear_pipes (suc n) [] = none
clear_pipes (suc n) (none ∷ cells) = none
clear_pipes (suc n) (some t ∷ cells) = do
  (rest, count) ← clear_pipes n cells
  if is_pipe t then some (none ∷ rest, count + 1) else some (some t ∷ rest, count)

-- The two loops over `position`: on over NULLs, and on to one. The token is read before the test of the
-- position, and there is no result where it lies behind the array. The fuel is for a round each place.
unfoldable pub skip_nulls : (fuel : ℕ) → Cells → (n_tokens position : ℕ) → Option ℕ
skip_nulls zero cells n_tokens position = none
skip_nulls (suc fuel) cells n_tokens position = do
  token ← get_elem? cells position
  elim (is_null token && ltb position n_tokens) [
    | true ↦ skip_nulls fuel cells n_tokens (position + 1)
    | false ↦ some position
  ]

unfoldable pub skip_words : (fuel : ℕ) → Cells → (n_tokens position : ℕ) → Option ℕ
skip_words zero cells n_tokens position = none
skip_words (suc fuel) cells n_tokens position = do
  token ← get_elem? cells position
  elim (not (is_null token) && ltb position n_tokens) [
    | true ↦ skip_words fuel cells n_tokens (position + 1)
    | false ↦ some position
  ]

-- Where each command begins.
unfoldable pub command_args : (commands : ℕ) → Cells → (n_tokens position : ℕ) → Option (List ℕ)
command_args zero cells n_tokens position = some []
command_args (suc commands) cells n_tokens position = do
  begin ← skip_nulls (n_tokens + 1) cells n_tokens position
  end ← skip_words (n_tokens + 1) cells n_tokens begin
  places ← command_args commands cells n_tokens (end + 1)
  some (begin ∷ places)

-- The argument vector that begins at a place: up to NULL.
unfoldable pub vector : Cells → Option (List Token)
vector [] = none
vector (none ∷ cells) = some []
vector (some t ∷ cells) = do rest ← vector cells; some (t ∷ rest)

abbrev pub drop : ℕ → Cells → Cells
drop zero cells = cells
drop (suc n) [] = []
drop (suc n) (cell ∷ cells) = drop n cells

unfoldable pub vectors : Cells → (places : List ℕ) → Option (List (List Token))
vectors cells [] = some []
vectors cells (place ∷ places) = do
  argv ← vector (drop place cells)
  rest ← vectors cells places
  some (argv ∷ rest)
