-- ===== src/Shell/Commands.antt =====
-- unix-shell-from-scratch/linked_list.c: the tokens of a line become a doubly linked list of
-- commands. A pointer to a command is its place in the order of allocation.
pub mod Build
pub mod Lines
pub mod Links
pub mod Pipeline
pub mod Walk
use systems_projects.Prelude.{
  ℕ, zero, suc, Bool, true, false, ◌&&◌, ◌==◌, if◌then◌else◌, Option, none, some, List, [], ◌∷◌,
  ◌++◌, length,
}

-- A token's text, as `strcmp` tells it from the five operators.
pub data Token : Type 0 where
  less greater pipe and_and bang : Token
  word : List ℕ → Token

unfoldable pub text_eq : List ℕ → List ℕ → Bool
text_eq [] [] = true
text_eq [] (d ∷ ds) = false
text_eq (c ∷ cs) [] = false
text_eq (c ∷ cs) (d ∷ ds) = (c == d) && text_eq cs ds

unfoldable pub classify : List ℕ → Token
unfolding text_eq
classify text =
    if text_eq text (b'|' ∷ [])
    then pipe
    else if text_eq text (b'<' ∷ [])
    then less
    else if text_eq text (b'>' ∷ [])
    then greater
    else if text_eq text (b'&' ∷ b'&' ∷ [])
    then and_and
    else if text_eq text (b'!' ∷ [])
    then bang
    else word text

-- `struct Command`. `redirect` is `none` while no one has set it: `malloc` leaves it undetermined.
pub record Command : Type 0 where
  pub command : Option Token
  pub args : List Token
  pub input : Option Token
  pub output : Option Token
  pub redirect : Option ℕ
  pub next : Option ℕ
  pub prev : Option ℕ
  pub next_pipe : ℕ
  pub negate : ℕ

abbrev pub create_command : Command
create_command = record {
  command = none;
  args = [];
  input = none;
  output = none;
  redirect = none;
  next = none;
  prev = none;
  next_pipe = 0;
  negate = 1;
}

-- The commands allocated so far, and the two ends of the list.
pub record CommandList : Type 0 where
  pub cells : List Command
  pub head : Option ℕ
  pub tail : Option ℕ

abbrev pub empty : CommandList
empty = record { cells = []; head = none; tail = none }

-- `(*tail)->next = newCmd`.
unfoldable pub set_next : List Command → ℕ → ℕ → List Command
set_next [] i new = []
set_next (c ∷ cells) zero new = record c { next = some new } ∷ cells
set_next (c ∷ cells) (suc i) new = c ∷ set_next cells i new

link_tail : List Command → Option ℕ → ℕ → List Command
link_tail cells none new = cells
link_tail cells (some tail) new = set_next cells tail new

unfoldable pub is_null : {A : Type 0} → Option A → Bool
is_null none = true
is_null (some p) = false

unfoldable pub add_command : CommandList → Command → CommandList
unfolding link_tail is_null
add_command l cmd =
    let new = length l.cells in
    if is_null l.head
    then record { cells = l.cells ++ (cmd ∷ []); head = some new; tail = some new }
    else record {
      cells = link_tail l.cells l.tail new ++ (record cmd { prev = l.tail } ∷ []);
      head = l.head;
      tail = some new;
    }

-- The splitter: the words up to the next operator.
unfoldable pub split_args : List Token → List Token × List Token
split_args (word w ∷ tokens) = let (args, rest) = split_args tokens in (word w ∷ args, rest)
split_args tokens = ([], tokens)

unfoldable pub first : List Token → Option Token
first [] = none
first (t ∷ args) = some t

-- The setter: the redirections up to `|`, `&&`, `!`, a word or the end.
unfoldable pub set_ops : Command → List Token → Command × List Token
set_ops cmd [] = (cmd, [])
set_ops cmd (less ∷ []) = (record cmd { redirect = some 0 }, [])
set_ops cmd (less ∷ file ∷ rest) =
    set_ops (record cmd { redirect = some 0; input = some file }) rest
set_ops cmd (greater ∷ []) = (record cmd { redirect = some 0 }, [])
set_ops cmd (greater ∷ file ∷ rest) =
    set_ops (record cmd { redirect = some 0; output = some file }) rest
set_ops cmd (pipe ∷ rest) = (record cmd { next_pipe = 0 }, rest)
set_ops cmd (and_and ∷ rest) = (record cmd { next_pipe = 1 }, rest)
set_ops cmd (bang ∷ rest) = (record cmd { negate = 1 }, rest)
set_ops cmd (word w ∷ rest) = (cmd, word w ∷ rest)

-- One round of the outer loop: a command, and the tokens left.
unfoldable pub next_command : List Token → Command × List Token
unfolding split_args first set_ops
next_command tokens =
    let (args, rest) = split_args tokens in
    set_ops (record create_command { args = args; command = first args }) rest

-- The outer loop, on fuel; `none` when it runs out.
unfoldable pub build : ℕ → CommandList → List Token → Option CommandList
build fuel l [] = some l
build zero l (t ∷ tokens) = none
build (suc fuel) l (t ∷ tokens) =
    let (cmd, rest) = next_command (t ∷ tokens) in build fuel (add_command l cmd) rest

unfoldable pub build_command_list : List Token → Option CommandList
unfolding build
build_command_list tokens = build (length tokens) empty tokens
