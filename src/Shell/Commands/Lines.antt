-- ===== src/Shell/Commands/Lines.antt =====
-- Lines of commands with their redirections: how the tokens spell them, and what they mean.
use systems_projects.Prelude.{ℕ, Option, none, some, List, [], ◌∷◌, ◌++◌}
use systems_projects.Shell.Commands.{Token, less, greater, pipe, and_and, word, Command}

pub data Redirect : Type 0 where
  from onto : List ℕ → Redirect

-- One command as it is typed: the program, its arguments and its redirections.
pub record Stage : Type 0 where
  pub program : List ℕ
  pub arguments : List (List ℕ)
  pub redirects : List Redirect

pub data Line : Type 0 where
  last : Stage → Line
  piped anded : Stage → Line → Line

abbrev pub words : List (List ℕ) → List Token
words [] = []
words (w ∷ ws) = word w ∷ words ws

abbrev pub operators : List Redirect → List Token
operators [] = []
operators (from f ∷ rs) = less ∷ word f ∷ operators rs
operators (onto f ∷ rs) = greater ∷ word f ∷ operators rs

-- A command's tokens, with those that follow it.
abbrev pub spelled : Stage → List Token → List Token
spelled s rest = words (s.program ∷ s.arguments) ++ (operators s.redirects ++ rest)

abbrev pub tokens_of : Line → List Token
tokens_of (last s) = spelled s []
tokens_of (piped s l) = spelled s (pipe ∷ tokens_of l)
tokens_of (anded s l) = spelled s (and_and ∷ tokens_of l)

-- Of several redirections of a kind the last one counts.
abbrev pub input_of : Option Token → List Redirect → Option Token
input_of t [] = t
input_of t (from f ∷ rs) = input_of (some (word f)) rs
input_of t (onto f ∷ rs) = input_of t rs

abbrev pub output_of : Option Token → List Redirect → Option Token
output_of t [] = t
output_of t (from f ∷ rs) = output_of t rs
output_of t (onto f ∷ rs) = output_of (some (word f)) rs

abbrev pub redirect_of : Option ℕ → List Redirect → Option ℕ
redirect_of t [] = t
redirect_of t (_ ∷ rs) = redirect_of (some 0) rs

-- A command but for its links.
pub record View : Type 0 where
  pub command : Option Token
  pub args : List Token
  pub input : Option Token
  pub output : Option Token
  pub redirect : Option ℕ
  pub next_pipe : ℕ
  pub negate : ℕ

abbrev pub view : Command → View
view c = record {
  command = c.command;
  args = c.args;
  input = c.input;
  output = c.output;
  redirect = c.redirect;
  next_pipe = c.next_pipe;
  negate = c.negate;
}

abbrev pub views : List Command → List View
views [] = []
views (c ∷ cells) = view c ∷ views cells

abbrev pub meant : Stage → ℕ → View
meant s next_pipe = record {
  command = some (word s.program);
  args = words (s.program ∷ s.arguments);
  input = input_of none s.redirects;
  output = output_of none s.redirects;
  redirect = redirect_of none s.redirects;
  next_pipe = next_pipe;
  negate = 1;
}

abbrev pub meaning : Line → List View
meaning (last s) = meant s 0 ∷ []
meaning (piped s l) = meant s 0 ∷ meaning l
meaning (anded s l) = meant s 1 ∷ meaning l
