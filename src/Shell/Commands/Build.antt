-- ===== src/Shell/Commands/Build.antt =====
-- A round of the loop that builds the list takes one token or more.
use systems_projects.Prelude.{◌≤◌, ◌<◌, some, List, [], ◌∷◌, length, arith}
use systems_projects.Shell.Commands.{
  Token, less, greater, pipe, and_and, bang, word, Command, create_command, split_args, set_ops,
  next_command,
}

set_ops_shrinks :
    (cmd : Command) (tokens : List Token) → length (set_ops cmd tokens).1 ≤ length tokens
unfolding set_ops
set_ops_shrinks cmd [] = omega arith
set_ops_shrinks cmd (less ∷ []) = omega arith
set_ops_shrinks cmd (less ∷ file ∷ rest) =
    omega (arith, set_ops_shrinks (record cmd { redirect = some 0; input = some file }) rest)
set_ops_shrinks cmd (greater ∷ []) = omega arith
set_ops_shrinks cmd (greater ∷ file ∷ rest) =
    omega (arith, set_ops_shrinks (record cmd { redirect = some 0; output = some file }) rest)
set_ops_shrinks cmd (pipe ∷ rest) = omega arith
set_ops_shrinks cmd (and_and ∷ rest) = omega arith
set_ops_shrinks cmd (bang ∷ rest) = omega arith
set_ops_shrinks cmd (word w ∷ rest) = omega arith

split_args_shrinks : (tokens : List Token) → length (split_args tokens).1 ≤ length tokens
unfolding split_args
split_args_shrinks (word w ∷ tokens) = omega (arith, split_args_shrinks tokens)
split_args_shrinks _ = omega arith

pub next_command_shrinks :
    (t : Token) (tokens : List Token) → length (next_command (t ∷ tokens)).1 < length (t ∷ tokens)
unfolding next_command split_args set_ops
next_command_shrinks (word w) tokens = omega (
  arith,
  split_args_shrinks tokens,
  set_ops_shrinks
      (record create_command { args = word w ∷ (split_args tokens).0; command = some (word w) })
      (split_args tokens).1,
)
next_command_shrinks less [] = omega arith
next_command_shrinks less (f ∷ rest) =
    omega
      (arith, set_ops_shrinks (record create_command { redirect = some 0; input = some f }) rest)
next_command_shrinks greater [] = omega arith
next_command_shrinks greater (f ∷ rest) =
    omega
      (arith, set_ops_shrinks (record create_command { redirect = some 0; output = some f }) rest)
next_command_shrinks _ tokens = omega arith
