-- ===== src/Shell/Commands/Walk/Whole.antt =====
-- On a list that is linked both ways the walks see every command once.
use systems_projects.Prelude.{
  ℕ, zero, suc, ◌+◌, ◌≡◌, refl, ap, ◌∙◌, Option, none, some, List, [], ◌∷◌, ◌++◌, append_assoc,
  length, length-append, get_elem?, arith,
}
use systems_projects.Shell.Commands.{Command, CommandList}
use systems_projects.Shell.Commands.Links.{LinkedFrom, HasEnds, IsLinked}
use systems_projects.Shell.Commands.Walk.{
  found, walk, commands_of, release, free_from, allocated, freed, free_command_list,
}

get_elem?-append :
    {A : Type 0} (pre : List A) (x : A) (xs : List A)
    → get_elem? (pre ++ (x ∷ xs)) (length pre) ≡ some x
get_elem?-append [] x xs = refl
get_elem?-append (y ∷ pre) x xs = get_elem?-append pre x xs

walk_step :
    (fuel : ℕ) (cells : List Command) (p : ℕ) (c : Command) (next : Option ℕ)
    → get_elem? cells p ≡ some c
    → c.next ≡ next
    → walk (suc fuel) cells (some p) ≡ found c (walk fuel cells next)
unfolding walk
walk_step fuel cells p c next e f =
    ap
      (λ (o : Option Command). elim o as (λ _. Option (List Command)) [
        | none ↦ none
        | some c ↦ found c (walk fuel cells c.next)
      ])
      e
    ∙ ap (λ (n : Option ℕ). found c (walk fuel cells n)) f

walk-LinkedFrom :
    (pre : List Command) (c : Command) (cells : List Command) (i : ℕ) (prev : Option ℕ)
    → i ≡ length pre
    → LinkedFrom i prev (c ∷ cells)
    → walk (suc (length cells)) (pre ++ (c ∷ cells)) (some i) ≡ some (c ∷ cells)
unfolding walk found
walk-LinkedFrom pre c [] i prev e (before, after) =
    walk_step 0 (pre ++ (c ∷ [])) i c none (rw e (get_elem?-append pre c [])) after
walk-LinkedFrom pre c (d ∷ cells) i prev e (before, after, rest) =
    let ih =
      walk-LinkedFrom (pre ++ (c ∷ [])) d cells (i + 1) (some i)
        (omega (arith, e, length-append pre (c ∷ []))) rest in
    walk_step (suc (length cells)) (pre ++ (c ∷ d ∷ cells)) i c (some (i + 1))
      (rw e (get_elem?-append pre c (d ∷ cells))) after
    ∙ ap (found c) (rw append_assoc at ih)

walk-whole :
    (cells : List Command) (head tail : Option ℕ)
    → HasEnds (record { cells = cells; head = head; tail = tail }) (length cells)
    → LinkedFrom 0 none cells
    → walk (length cells) cells head ≡ some cells
unfolding walk
walk-whole [] head tail ends links = ap (walk 0 []) ends.0
walk-whole (c ∷ cells) head tail ends links =
    ap (walk (suc (length cells)) (c ∷ cells)) ends.0 ∙ walk-LinkedFrom [] c cells 0 none refl links

pub commands_of-IsLinked : (l : CommandList) → IsLinked l → commands_of l ≡ some l.cells
unfolding commands_of
commands_of-IsLinked l h = walk-whole l.cells l.head l.tail h.ends h.links

release-freed :
    (i : ℕ) (c : Option Command) (r : List (Option Command))
    → release i (freed i ++ (c ∷ r)) ≡ freed (suc i) ++ r
release-freed zero c r = refl
release-freed (suc i) c r = ap (λ (l : List (Option Command)). none ∷ l) (release-freed i c r)

free_step :
    (fuel : ℕ) (heap : List (Option Command)) (p : ℕ) (c : Command) (next : Option ℕ)
    → get_elem? heap p ≡ some (some c)
    → c.next ≡ next
    → free_from (suc fuel) heap (some p) ≡ free_from fuel (release p heap) next
unfolding free_from
free_step fuel heap p c next e f =
    ap
      (λ (o : Option (Option Command)). elim o as (λ _. Option (List (Option Command))) [
        | none ↦ none
        | some none ↦ none
        | some (some c) ↦ free_from fuel (release p heap) c.next
      ])
      e
    ∙ ap (λ (n : Option ℕ). free_from fuel (release p heap) n) f

append-freed : (n : ℕ) → freed n ++ [] ≡ freed n
append-freed zero = refl
append-freed (suc n) = ap (λ (l : List (Option Command)). none ∷ l) (append-freed n)

here :
    (i : ℕ) (c : Command) (r : List (Option Command))
    → get_elem? (freed i ++ (some c ∷ r)) i ≡ some (some c)
here zero c r = refl
here (suc i) c r = here i c r

free_from-LinkedFrom :
    (c : Command) (cells : List Command) (i : ℕ) (prev : Option ℕ)
    → LinkedFrom i prev (c ∷ cells)
    → free_from (suc (length cells)) (freed i ++ (some c ∷ allocated cells)) (some i)
      ≡ some (freed (i + suc (length cells)))
unfolding free_from
free_from-LinkedFrom c [] i prev (before, after) =
    let size : suc i ≡ i + 1 = omega arith in
    free_step 0 (freed i ++ (some c ∷ [])) i c none (here i c []) after
    ∙ ap some (release-freed i (some c) [] ∙ append-freed (suc i) ∙ ap freed size)
free_from-LinkedFrom c (d ∷ cells) i prev (before, after, rest) =
    let next : i + 1 ≡ suc i = omega arith in
    let size : suc i + suc (length cells) ≡ i + suc (suc (length cells)) = omega arith in
    free_step (suc (length cells)) (freed i ++ (some c ∷ some d ∷ allocated cells)) i c
      (some (suc i)) (here i c (some d ∷ allocated cells)) (rw after (ap some next))
    ∙ ap (λ h. free_from (suc (length cells)) h (some (suc i)))
        (release-freed i (some c) (some d ∷ allocated cells))
    ∙ free_from-LinkedFrom d cells (suc i) (some i) (rw next at rest)
    ∙ ap (λ n. some (freed n)) size

free-whole :
    (cells : List Command) (head tail : Option ℕ)
    → HasEnds (record { cells = cells; head = head; tail = tail }) (length cells)
    → LinkedFrom 0 none cells
    → free_from (length cells) (allocated cells) head ≡ some (freed (length cells))
unfolding free_from
free-whole [] head tail ends links = ap (free_from 0 []) ends.0
free-whole (c ∷ cells) head tail ends links =
    let size : 0 + suc (length cells) ≡ suc (length cells) = omega arith in
    ap (free_from (suc (length cells)) (allocated (c ∷ cells))) ends.0
    ∙ free_from-LinkedFrom c cells 0 none links
    ∙ ap (λ (n : ℕ). some (freed n)) size

pub free_command_list-IsLinked :
    (l : CommandList) → IsLinked l → free_command_list l ≡ some (freed (length l.cells))
unfolding free_command_list
free_command_list-IsLinked l h = free-whole l.cells l.head l.tail h.ends h.links
