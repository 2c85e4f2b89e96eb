-- ===== src/Shell/Files.antt =====
-- The descriptors of a process. A table gives the open file at each number; `open` and `pipe` take
-- the lowest numbers that are free, as POSIX has it.
pub mod Laws
use systems_projects.Prelude.{ℕ, zero, suc, Option, none, some, List, [], ◌∷◌}

-- What a descriptor stands for: one of the shell's own streams, an end of the pipe with a number, or
-- a file opened by its name.
pub data File : Type 0 where
  stream : ℕ → File
  pipe_read pipe_write : ℕ → File
  read_file write_file : List ℕ → File

abbrev pub Table : Type 0
Table = List (Option File)

abbrev pub lookup : Table → ℕ → Option File
lookup [] i = none
lookup (f ∷ t) zero = f
lookup (f ∷ t) (suc i) = lookup t i

unfoldable pub install : Table → ℕ → Option File → Table
install [] zero f = f ∷ []
install [] (suc i) f = none ∷ install [] i f
install (g ∷ t) zero f = f ∷ t
install (g ∷ t) (suc i) f = g ∷ install t i f

-- The lowest free descriptor.
unfoldable pub lowest : Table → ℕ
lowest [] = 0
lowest (none ∷ t) = 0
lowest (some g ∷ t) = suc (lowest t)

-- A file is opened: its descriptor, and the table.
abbrev pub take_lowest : Table → File → ℕ × Table
take_lowest t f = (lowest t, install t (lowest t) (some f))

-- `close`, without effect where nothing is open.
unfoldable pub close_fd : Table → ℕ → Table
close_fd [] i = []
close_fd (f ∷ t) zero = none ∷ t
close_fd (f ∷ t) (suc i) = f ∷ close_fd t i

-- `dup2`, without effect where `old` is not open.
copy : Option File → Table → ℕ → Table
copy none t new = t
copy (some f) t new = install t new (some f)

unfoldable pub dup2 : Table → (old new : ℕ) → Table
unfolding copy
dup2 t old new = copy (lookup t old) t new
