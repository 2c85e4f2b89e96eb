-- ===== src/Shell/Commands/Walk.antt =====
-- Walks along the list that buildCommandList returns: the loop of runPipeline over the commands, and
-- freeCommandList of unix-shell-from-scratch/linked_list.c.
pub mod Whole
use systems_projects.Prelude.{
  ℕ, zero, suc, ◌+◌, ◌≡◌, refl, ap, ◌∙◌, Option, none, some, List, [], ◌∷◌, ◌++◌, append_assoc,
  length, get_elem?, arith,
}
use systems_projects.Shell.Commands.{Command, CommandList}
use systems_projects.Shell.Commands.Links.{LinkedFrom, HasEnds, IsLinked}

found : Command → Option (List Command) → Option (List Command)
found c none = none
found c (some commands) = some (c ∷ commands)

-- The commands that `current = current->next` leads through, on fuel; `none` also for a pointer to no
-- command.
unfoldable pub walk : ℕ → List Command → Option ℕ → Option (List Command)
unfolding found
walk fuel cells none = some []
walk zero cells (some p) = none
walk (suc fuel) cells (some p) = elim (get_elem? cells p) [
  | none ↦ none
  | some c ↦ found c (walk fuel cells c.next)
]

unfoldable pub commands_of : CommandList → Option (List Command)
unfolding walk
commands_of l = walk (length l.cells) l.cells l.head

-- The heap of commands, `none` where one has been freed.
abbrev pub release : ℕ → List (Option Command) → List (Option Command)
release i [] = []
release zero (c ∷ heap) = none ∷ heap
release (suc i) (c ∷ heap) = c ∷ release i heap

-- The loop of freeCommandList, on fuel. `none` is a use of what has been freed, or the end of the fuel.
unfoldable pub free_from : ℕ → List (Option Command) → Option ℕ → Option (List (Option Command))
free_from fuel heap none = some heap
free_from zero heap (some p) = none
free_from (suc fuel) heap (some p) = elim (get_elem? heap p) [
  | none ↦ none
  | some none ↦ none
  | some (some c) ↦ free_from fuel (release p heap) c.next
]

abbrev pub allocated : List Command → List (Option Command)
allocated [] = []
allocated (c ∷ cells) = some c ∷ allocated cells

abbrev pub freed : ℕ → List (Option Command)
freed zero = []
freed (suc n) = none ∷ freed n

unfoldable pub free_command_list : CommandList → Option (List (Option Command))
unfolding free_from
free_command_list l = free_from (length l.cells) (allocated l.cells) l.head
