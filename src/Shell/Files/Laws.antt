-- ===== src/Shell/Files/Laws.antt =====
-- What the operations on descriptors change, and how many descriptors are open.
use systems_projects.Prelude.{
  ℕ, zero, suc, ◌+◌, ◌≡◌, refl, ◌⊎◌, inl, inr, ◌==◌, if◌then◌else◌, Option, none, some, [], ◌∷◌,
  arith,
}
use systems_projects.Shell.Files.{File, Table, lookup, install, lowest, take_lowest, close_fd, dup2}

-- A descriptor is free, or it is open.
pub file_cases : (o : Option File) → (o ≡ none) ⊎ ((f : File) × (o ≡ some f))
file_cases none = inl refl
file_cases (some f) = inr (f, refl)

pub lookup-install :
    (t : Table) (i : ℕ) (f : Option File) (j : ℕ)
    → lookup (install t i f) j ≡ (if i == j then f else lookup t j)
unfolding install
lookup-install [] zero f zero = refl
lookup-install [] zero f (suc j) = ground arith
lookup-install [] (suc i) f zero = ground arith
lookup-install [] (suc i) f (suc j) = ground (arith, lookup-install [] i f j)
lookup-install (g ∷ t) zero f zero = refl
lookup-install (g ∷ t) zero f (suc j) = ground arith
lookup-install (g ∷ t) (suc i) f zero = ground arith
lookup-install (g ∷ t) (suc i) f (suc j) = ground (arith, lookup-install t i f j)

pub lookup-close_fd :
    (t : Table) (i j : ℕ) → lookup (close_fd t i) j ≡ (if i == j then none else lookup t j)
unfolding close_fd
lookup-close_fd [] i j = ground arith
lookup-close_fd (g ∷ t) zero zero = refl
lookup-close_fd (g ∷ t) zero (suc j) = ground arith
lookup-close_fd (g ∷ t) (suc i) zero = ground arith
lookup-close_fd (g ∷ t) (suc i) (suc j) = ground (arith, lookup-close_fd t i j)

pub lookup-lowest : (t : Table) → lookup t (lowest t) ≡ none
unfolding lowest
lookup-lowest [] = refl
lookup-lowest (none ∷ t) = refl
lookup-lowest (some g ∷ t) = lookup-lowest t

pub lookup-dup2 :
    (t : Table) (old new : ℕ) (f : File) (j : ℕ)
    → lookup t old ≡ some f
    → lookup (dup2 t old new) j ≡ (if new == j then some f else lookup t j)
unfolding dup2
lookup-dup2 t old new f j e = rw e (lookup-install t new (some f) j)

-- The descriptors that are open.
abbrev pub is_open : Option File → ℕ
is_open none = 0
is_open (some f) = 1

unfoldable pub open_count : Table → ℕ
open_count [] = 0
open_count (f ∷ t) = is_open f + open_count t

pub open_count-install :
    (t : Table) (i : ℕ) (f : Option File)
    → open_count (install t i f) + is_open (lookup t i) ≡ open_count t + is_open f
unfolding open_count install
open_count-install [] zero f = omega arith
open_count-install [] (suc i) f = omega (arith, open_count-install [] i f)
open_count-install (g ∷ t) zero f = omega arith
open_count-install (g ∷ t) (suc i) f = omega (arith, open_count-install t i f)

pub open_count-close_fd :
    (t : Table) (i : ℕ) → open_count (close_fd t i) + is_open (lookup t i) ≡ open_count t
unfolding open_count close_fd
open_count-close_fd [] i = refl
open_count-close_fd (g ∷ t) zero = omega arith
open_count-close_fd (g ∷ t) (suc i) = omega (arith, open_count-close_fd t i)

pub open_count-lowest : (t : Table) (f : File) → open_count (take_lowest t f).1 ≡ open_count t + 1
open_count-lowest t f =
    let e = open_count-install t (lowest t) (some f) in omega (arith, rw (lookup-lowest t) at e)
