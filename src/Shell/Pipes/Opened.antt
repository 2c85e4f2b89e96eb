-- ===== src/Shell/Pipes/Opened.antt =====
-- The pipes that are made at first, and what is left when a process closes them.
use mathlib.Core.Path.{subst}
use systems_projects.Prelude.{
  ℕ, zero, suc, ◌+◌, ◌≡◌, refl, ap, ◌∙◌, Bool, true, false, ◌==◌, ◌||◌, if◌then◌else◌, none, some,
  [], ◌∷◌, length, get_elem?, arith, Bool-cases, inl, inr,
}
use systems_projects.Shell.Files.{File, pipe_read, pipe_write, Table, lookup, close_fd}
use systems_projects.Shell.Files.Laws.{file_cases, lookup-close_fd}
use systems_projects.Shell.Os.{Shell, ok, pipe}
use systems_projects.Shell.Loop.Ends.{
  read_of, write_of, piped, lookup-piped, write_of-ne-read_of, old_ends,
}
use systems_projects.Shell.Pipes.{Pipes, open_pipes, close_pipes}

abbrev pub has_end : ℕ → Pipes → Bool
has_end x [] = false
has_end x (ends ∷ pipes) = (ends.0 == x) || (ends.1 == x) || has_end x pipes

-- The descriptors `t` with the pipes open besides, numbered from `base` on, in those of `t'`.
pub record Opened (base : ℕ) (t t' : Table) (pipes : Pipes) : Type 0 where
  pub others : (x : ℕ) → has_end x pipes ≡ false → lookup t' x ≡ lookup t x
  pub free : (x : ℕ) → has_end x pipes ≡ true → lookup t x ≡ none
  pub reads :
      (j : ℕ) (ends : ℕ × ℕ)
      → get_elem? pipes j ≡ some ends
      → lookup t' ends.0 ≡ some (pipe_read (base + j))
  pub writes :
      (j : ℕ) (ends : ℕ × ℕ)
      → get_elem? pipes j ≡ some ends
      → lookup t' ends.1 ≡ some (pipe_write (base + j))

pub record Opens (n : ℕ) (s : Shell) : Type 0 where
  pub pipes : Pipes
  pub fds : Table
  pub runs : open_pipes n s ≡ ok pipes (record s { fds = fds; pipes = s.pipes + n })
  pub size : length pipes ≡ n
  pub opened : Opened s.pipes s.fds fds pipes

module _ (s : Shell) (fds : Table) (pipes : Pipes)
    (o : Opened (s.pipes + 1) (piped s).fds fds pipes) where
  -- An end of the first pipe is none of the others.
  apart : (x : ℕ) (f : File) → lookup (piped s).fds x ≡ some f → has_end x pipes ≡ false
  apart x f e = elim (Bool-cases (has_end x pipes)) [
    | inl in_ ↦ let gone = o.free x in_ in absurd (cc)
    | inr out ↦ out
  ]

  first_free : (x : ℕ) → has_end x ((read_of s, write_of s) ∷ pipes) ≡ true → lookup s.fds x ≡ none
  first_free x in_ = elim (file_cases (lookup s.fds x)) [
    | inl gone ↦ gone
    | inr (f, there) ↦
        let (off_read, off_write) = old_ends s x f there in
        let later : has_end x pipes ≡ true = ground (arith, in_, off_read, off_write) in
        let gone = o.free x later in ground (arith, lookup-piped s x, off_read, off_write, gone)
  ]

  first_reads : lookup fds (read_of s) ≡ some (pipe_read s.pipes)
  first_reads =
      let own : lookup (piped s).fds (read_of s) ≡ some (pipe_read s.pipes) =
        ground (arith, lookup-piped s (read_of s), write_of-ne-read_of s) in
      o.others (read_of s) (apart (read_of s) (pipe_read s.pipes) own) ∙ own

  first_writes : lookup fds (write_of s) ≡ some (pipe_write s.pipes)
  first_writes =
      let own : lookup (piped s).fds (write_of s) ≡ some (pipe_write s.pipes) =
        ground (arith, lookup-piped s (write_of s)) in
      o.others (write_of s) (apart (write_of s) (pipe_write s.pipes) own) ∙ own

  reads_on :
      (j : ℕ) (ends : ℕ × ℕ)
      → get_elem? ((read_of s, write_of s) ∷ pipes) j ≡ some ends
      → lookup fds ends.0 ≡ some (pipe_read (s.pipes + j))
  reads_on zero ends e =
      let same : (read_of s, write_of s) ≡ ends = cc in
      let number : s.pipes ≡ s.pipes + 0 = omega arith in
      subst (λ (p : ℕ × ℕ). lookup fds p.0 ≡ some (pipe_read (s.pipes + 0))) same
        (first_reads ∙ ap (λ k. some (pipe_read k)) number)
  reads_on (suc j) ends e =
      let number : s.pipes + 1 + j ≡ s.pipes + suc j = omega arith in
      o.reads j ends e ∙ ap (λ k. some (pipe_read k)) number

  writes_on :
      (j : ℕ) (ends : ℕ × ℕ)
      → get_elem? ((read_of s, write_of s) ∷ pipes) j ≡ some ends
      → lookup fds ends.1 ≡ some (pipe_write (s.pipes + j))
  writes_on zero ends e =
      let same : (read_of s, write_of s) ≡ ends = cc in
      let number : s.pipes ≡ s.pipes + 0 = omega arith in
      subst (λ (p : ℕ × ℕ). lookup fds p.1 ≡ some (pipe_write (s.pipes + 0))) same
        (first_writes ∙ ap (λ k. some (pipe_write k)) number)
  writes_on (suc j) ends e =
      let number : s.pipes + 1 + j ≡ s.pipes + suc j = omega arith in
      o.writes j ends e ∙ ap (λ k. some (pipe_write k)) number

  more-Opened : Opened s.pipes s.fds fds ((read_of s, write_of s) ∷ pipes)
  more-Opened = record {
    others = λ x out. ground (arith, out, o.others x, lookup-piped s x);
    free = first_free;
    reads = reads_on;
    writes = writes_on;
  }

pub open_pipes-Opens : (n : ℕ) (s : Shell) → Opens n s
unfolding open_pipes pipe
open_pipes-Opens zero s = record {
  pipes = [];
  fds = s.fds;
  runs =
      let number : s.pipes ≡ s.pipes + 0 = omega arith in
      let no_pipes : Pipes = [] in ap (λ (k : ℕ). ok no_pipes (record s { pipes = k })) number;
  size = refl;
  opened = record {
    others = λ x out. refl;
    free = λ x in_. absurd (cc);
    reads = λ j ends e. absurd (cc);
    writes = λ j ends e. absurd (cc);
  };
}
open_pipes-Opens (suc n) s =
    let r = open_pipes-Opens n (piped s) in
    let next = r.runs in
    record {
      pipes = (read_of s, write_of s) ∷ r.pipes;
      fds = r.fds;
      runs =
          let number : s.pipes + 1 + n ≡ s.pipes + suc n = omega arith in
          rw next (
            ap
              (λ (k : ℕ).
                ok ((read_of s, write_of s) ∷ r.pipes) (record s { fds = r.fds; pipes = k }))
              number);
      size = ap (λ k. suc k) r.size;
      opened = more-Opened s r.fds r.pipes r.opened;
    }

-- Closing all leaves the other descriptors.
pub lookup-close_pipes :
    (pipes : Pipes) (t : Table) (x : ℕ)
    → lookup (close_pipes pipes t) x ≡ (if has_end x pipes then none else lookup t x)
unfolding close_pipes
lookup-close_pipes [] t x = refl
lookup-close_pipes (ends ∷ pipes) t x = ground (
  arith,
  lookup-close_pipes pipes (close_fd (close_fd t ends.0) ends.1) x,
  lookup-close_fd (close_fd t ends.0) ends.1 x,
  lookup-close_fd t ends.0 x,
)
