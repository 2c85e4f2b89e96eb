-- ===== src/Shell/Commands/Links.antt =====
-- The list that buildCommandList returns is linked both ways.
use systems_projects.Prelude.{
  ℕ, zero, suc, ◌+◌, ◌≤◌, ◌≡◌, refl, ap, Option, none, some, List, [], ◌∷◌, ◌++◌, length,
  length-append, arith,
}
use systems_projects.Shell.Commands.{
  Token, less, greater, Command, CommandList, empty, set_next, add_command, split_args, set_ops,
  next_command, build, build_command_list,
}
use systems_projects.Shell.Commands.Build.{next_command_shrinks}

-- Commands at the places from `i` on, the first of them behind `prev`.
abbrev pub LinkedFrom : ℕ → Option ℕ → List Command → Type 0
LinkedFrom i prev [] = Unit
LinkedFrom i prev (c ∷ []) = (c.prev ≡ prev) × (c.next ≡ none)
LinkedFrom i prev (c ∷ d ∷ cells) =
    (c.prev ≡ prev) × (c.next ≡ some (i + 1)) × LinkedFrom (i + 1) (some i) (d ∷ cells)

-- The ends of a list, by its length.
abbrev pub HasEnds : CommandList → ℕ → Type 0
HasEnds l zero = (l.head ≡ none) × (l.tail ≡ none)
HasEnds l (suc n) = (l.head ≡ some 0) × (l.tail ≡ some n)

pub record IsLinked (l : CommandList) : Type 0 where
  pub ends : HasEnds l (length l.cells)
  pub links : LinkedFrom 0 none l.cells

-- The two pointers of a command that is not yet on the list.
abbrev IsFree : Command → Type 0
IsFree c = (c.prev ≡ none) × (c.next ≡ none)

set_next-LinkedFrom :
    (c : Command) (cells : List Command) (i last new : ℕ) (prev : Option ℕ) (cmd : Command)
    → last ≡ i + length cells
    → new ≡ last + 1
    → LinkedFrom i prev (c ∷ cells)
    → cmd.next ≡ none
    → LinkedFrom i prev
        (set_next (c ∷ cells) (length cells) new ++ (record cmd { prev = some last } ∷ []))
unfolding set_next
set_next-LinkedFrom c [] i last new prev cmd hl hn (p, n) free =
    (p, ap some (omega arith), (ap some (omega arith), free))
set_next-LinkedFrom c (d ∷ []) i last new prev cmd hl hn (p, n, rest) free =
    (p, n, set_next-LinkedFrom d [] (i + 1) last new (some i) cmd (omega arith) hn rest free)
set_next-LinkedFrom c (d ∷ e ∷ cells) i last new prev cmd hl hn (p, n, rest) free = (
  p,
  n,
  set_next-LinkedFrom d (e ∷ cells) (i + 1) last new (some i) cmd (omega arith) hn rest free,
)

pub length-set_next :
    (cells : List Command) (i new : ℕ) → length (set_next cells i new) ≡ length cells
unfolding set_next
length-set_next [] i new = refl
length-set_next (c ∷ cells) zero new = refl
length-set_next (c ∷ cells) (suc i) new = ap suc (length-set_next cells i new)

set_ops-IsFree : (cmd : Command) (tokens : List Token) → IsFree cmd → IsFree (set_ops cmd tokens).0
unfolding set_ops
set_ops-IsFree cmd [] h = h
set_ops-IsFree cmd (less ∷ []) h = h
set_ops-IsFree cmd (less ∷ file ∷ rest) h =
    set_ops-IsFree (record cmd { redirect = some 0; input = some file }) rest h
set_ops-IsFree cmd (greater ∷ []) h = h
set_ops-IsFree cmd (greater ∷ file ∷ rest) h =
    set_ops-IsFree (record cmd { redirect = some 0; output = some file }) rest h
set_ops-IsFree cmd (_ ∷ rest) h = h

next_command-IsFree : (tokens : List Token) → IsFree (next_command tokens).0
unfolding next_command
next_command-IsFree tokens = set_ops-IsFree _ (split_args tokens).1 (refl, refl)

add_command-IsLinked :
    (cells : List Command) (head tail : Option ℕ) (cmd : Command)
    → IsLinked (record { cells = cells; head = head; tail = tail })
    → IsFree cmd
    → IsLinked (add_command (record { cells = cells; head = head; tail = tail }) cmd)
unfolding add_command
add_command-IsLinked [] head tail cmd h free =
    rw h.ends.0 (record { ends = (refl, refl); links = free })
add_command-IsLinked (c ∷ cells) head tail cmd h free =
    let n = length cells in
    let cells' = set_next (c ∷ cells) n (suc n) in
    let cmd' = record cmd { prev = some n } in
    let size : length (cells' ++ (cmd' ∷ [])) ≡ suc (suc n) =
      omega (arith, length-append cells' (cmd' ∷ []), length-set_next (c ∷ cells) n (suc n)) in
    rw (h.ends.0, h.ends.1)
      (record {
        ends = rw size (refl, refl);
        links =
            set_next-LinkedFrom c cells 0 n (suc n) none cmd (omega arith) (omega arith) h.links
              free.1;
      })

build-IsLinked :
    (fuel : ℕ) (l : CommandList) (tokens : List Token)
    → length tokens ≤ fuel
    → IsLinked l
    → (r : CommandList) × (build fuel l tokens ≡ some r) × IsLinked r
unfolding build
build-IsLinked fuel l [] enough h = (l, refl, h)
build-IsLinked zero l (t ∷ tokens) enough h = absurd (omega arith)
build-IsLinked (suc fuel) l (t ∷ tokens) enough h =
    build-IsLinked fuel (add_command l (next_command (t ∷ tokens)).0) (next_command (t ∷ tokens)).1
      (omega (arith, next_command_shrinks t tokens))
      (add_command-IsLinked l.cells l.head l.tail _ h (next_command-IsFree (t ∷ tokens)))

-- For every list of tokens buildCommandList ends, with a list in which the first command is the head
-- and the last one the tail, `next` leads from each command to the one behind it, and `prev` back.
pub build_command_list-IsLinked :
    (tokens : List Token) → (r : CommandList) × (build_command_list tokens ≡ some r) × IsLinked r
unfolding build_command_list
build_command_list-IsLinked tokens =
    build-IsLinked (length tokens) empty tokens (omega arith)
      (record { ends = (refl, refl); links = tt })
