-- ===== src/Shell/Internal.antt =====
-- The commands that run in the shell itself: `runexit`, `runpwd` and `runcd` of
-- unix-shell-from-scratch/internal_commands.c. What they print to the standard error is left out.
use systems_projects.Prelude.{
  ℕ, ◌+◌, ◌-◌, ◌*◌, ◌/◌, ◌%◌, ◌&&◌, ltb, leb, ◌==◌, if◌then◌else◌, Option, none, some, List, [],
  ◌∷◌, ◌++◌,
}
use systems_projects.Shell.Parser.{is_space}
use systems_projects.Shell.Commands.{Token, less, greater, pipe, and_and, bang, word, Command}
use systems_projects.Shell.Os.{Os, Cmd, pure, exit, ◌>>◌, modify}

unfoldable pub text_of : Token → List ℕ
text_of less = b'<' ∷ []
text_of greater = b'>' ∷ []
text_of pipe = b'|' ∷ []
text_of and_and = b'&' ∷ b'&' ∷ []
text_of bang = b'!' ∷ []
text_of (word w) = w

-- `sprintf` of a number below 1000 with `%d`.
unfoldable pub decimal : ℕ → List ℕ
decimal n =
    if ltb n 10
    then (b'0' + n) ∷ []
    else if ltb n 100
    then (b'0' + n / 10) ∷ (b'0' + n % 10) ∷ []
    else (b'0' + n / 100) ∷ (b'0' + n / 10 % 10) ∷ (b'0' + n % 10) ∷ []

unfoldable pub digits : ℕ → List ℕ → ℕ
digits n [] = n
digits n (c ∷ text) = if leb b'0' c && leb c b'9' then digits (n * 10 + (c - b'0')) text else n

-- `exit` takes the low byte of a number, here of that of `atoi`, which is below zero after a `-`.
unfoldable pub negated : ℕ → ℕ
negated n = (256 - n % 256) % 256

unfoldable pub signed : List ℕ → ℕ
unfolding digits negated
signed [] = 0
signed (c ∷ text) =
    if c == b'-'
    then negated (digits 0 text)
    else if c == b'+'
    then digits 0 text % 256
    else digits 0 (c ∷ text) % 256

-- A number that an `int` does not hold, on which `atoi` is undefined, is taken like any other.
unfoldable pub atoi_byte : List ℕ → ℕ
unfolding signed
atoi_byte [] = 0
atoi_byte (c ∷ text) = let rest = atoi_byte text in if is_space c then rest else signed (c ∷ text)

-- The arguments from `args[1]` on.
unfoldable pub arguments : List Token → List Token
arguments [] = []
arguments (t ∷ args) = args

abbrev exit_by : List Token → Cmd ℕ
exit_by [] = exit 0
exit_by (code ∷ []) = exit (atoi_byte (text_of code))
exit_by (code ∷ other ∷ more) = pure 1

unfoldable pub run_exit : Command → Cmd ℕ
unfolding arguments atoi_byte text_of
run_exit cmd = exit_by (arguments cmd.args)

module _ (os : Os) where
  print_cwd : Option (List ℕ) → Cmd ℕ
  print_cwd none = pure 1
  print_cwd (some cwd) = modify (λ s. record s { printed = s.printed ++ (cwd ∷ []) }) >> pure 0

  unfoldable pub run_pwd : Cmd ℕ
  unfolding print_cwd
  run_pwd s = print_cwd (os.getcwd s.moves) s

  -- `location` is `none` where HOME is not set: `chdir` fails then.
  change_to : Option (List ℕ) → Cmd ℕ
  change_to none = pure 1
  change_to (some location) =
      if os.chdir location
      then modify (λ s. record s { moves = s.moves ++ (location ∷ []) }) >> pure 0
      else pure 1

  abbrev cd_by : List Token → Cmd ℕ
  cd_by [] = change_to os.home
  cd_by (location ∷ []) = change_to (some (text_of location))
  cd_by (location ∷ other ∷ more) = pure 1

  unfoldable pub run_cd : Command → Cmd ℕ
  unfolding arguments change_to text_of
  run_cd cmd = cd_by (arguments cmd.args)
