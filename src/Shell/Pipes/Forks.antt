-- ===== src/Shell/Pipes/Forks.antt =====
-- What the shell closes behind each command.
use systems_projects.Prelude.{
  ℕ, ◌+◌, ◌-◌, ◌≡◌, sym, ap, ◌∙◌, true, false, ◌==◌, some, length, get_elem?, arith, Bool-cases,
  inl, inr, ==_iff,
}
use systems_projects.Shell.Files.{Table, lookup, close_fd}
use systems_projects.Shell.Files.Laws.{lookup-close_fd}
use systems_projects.Shell.Pipes.{Pipes}
use systems_projects.Shell.Pipes.Opened.{has_end, Opened}
use systems_projects.Shell.Pipes.Held.{
  get_small, has_end-get, has_end-some, Held, read_ne_write, reads_apart, writes_apart,
}

module _ (base : ℕ) (t0 start : Table) (pipes : Pipes) (o : Opened base t0 start pipes) where
  module _ (i j : ℕ) (p q : ℕ × ℕ) (ei : get_elem? pipes i ≡ some p)
      (ej : get_elem? pipes j ≡ some q) where
    same_ends : (i == j) ≡ true → p ≡ q
    same_ends same = let e = ap (get_elem? pipes) ((==_iff i j).0 same) in cc

    same_write : (p.1 == q.1) ≡ (i == j)
    same_write = elim (Bool-cases (i == j)) [
      | inl same ↦ let e = ap (λ (r : ℕ × ℕ). r.1) (same_ends same) in ground (arith, e, same)
      | inr ne ↦ writes_apart base t0 start pipes o i j p q ei ej ne ∙ sym ne
    ]

    same_read : (p.0 == q.0) ≡ (i == j)
    same_read = elim (Bool-cases (i == j)) [
      | inl same ↦ let e = ap (λ (r : ℕ × ℕ). r.0) (same_ends same) in ground (arith, e, same)
      | inr ne ↦ reads_apart base t0 start pipes o i j p q ei ej ne ∙ sym ne
    ]

  module _ (idx : ℕ) (t : Table) (held : Held base t0 pipes idx t) where
    -- Behind the first command: the writing end of its pipe is closed.
    pub first-Held :
        (q : ℕ × ℕ)
        → (idx == 0) ≡ true
        → get_elem? pipes idx ≡ some q
        → Held base t0 pipes (idx + 1) (close_fd t q.1)
    first-Held q first got = record {
      others = λ x out.
          ground (arith, lookup-close_fd t q.1 x, held.others x, has_end-get pipes idx q got, out);
      reads = λ j p e. ground (
        arith,
        lookup-close_fd t q.1 p.0,
        held.reads j p e,
        read_ne_write base t0 start pipes o j idx p q e got,
      );
      writes = λ j p e.
          ground (arith, lookup-close_fd t q.1 p.1, held.writes j p e, same_write j idx p q e got);
    }

    -- Behind the last one: the reading end of the pipe before it.
    pub last-Held :
        (r : ℕ × ℕ)
        → (idx == length pipes) ≡ true
        → (idx == 0) ≡ false
        → get_elem? pipes (idx - 1) ≡ some r
        → Held base t0 pipes (idx + 1) (close_fd t r.0)
    last-Held r last inner got = record {
      others = λ x out.
          ground
            (arith, lookup-close_fd t r.0 x, held.others x, has_end-get pipes (idx - 1) r got, out);
      reads = λ j p e.
          ground
            (arith, lookup-close_fd t r.0 p.0, held.reads j p e, same_read j (idx - 1) p r e got);
      writes = λ j p e. ground (
        arith,
        lookup-close_fd t r.0 p.1,
        held.writes j p e,
        read_ne_write base t0 start pipes o (idx - 1) j r p got e,
        get_small pipes j p e,
      );
    }

    -- Behind the others: both.
    pub middle-Held :
        (q r : ℕ × ℕ)
        → (idx == 0) ≡ false
        → get_elem? pipes idx ≡ some q
        → get_elem? pipes (idx - 1) ≡ some r
        → Held base t0 pipes (idx + 1) (close_fd (close_fd t q.1) r.0)
    middle-Held q r inner got got' = record {
      others = λ x out. ground (
        arith,
        lookup-close_fd (close_fd t q.1) r.0 x,
        lookup-close_fd t q.1 x,
        held.others x,
        has_end-get pipes idx q got,
        has_end-get pipes (idx - 1) r got',
        out,
      );
      reads = λ j p e. ground (
        arith,
        lookup-close_fd (close_fd t q.1) r.0 p.0,
        lookup-close_fd t q.1 p.0,
        held.reads j p e,
        read_ne_write base t0 start pipes o j idx p q e got,
        same_read j (idx - 1) p r e got',
      );
      writes = λ j p e. ground (
        arith,
        lookup-close_fd (close_fd t q.1) r.0 p.1,
        lookup-close_fd t q.1 p.1,
        held.writes j p e,
        read_ne_write base t0 start pipes o (idx - 1) j r p got' e,
        same_write j idx p q e got,
      );
    }

    -- When all commands are started no end of a pipe is left.
    pub all_closed : (length pipes + 1 == idx) ≡ true → (x : ℕ) → lookup t x ≡ lookup t0 x
    all_closed finished x = elim (Bool-cases (has_end x pipes)) [
      | inr out ↦ held.others x out
      | inl in_ ↦
          let gone = o.free x in_ in
          let (j, p, got, is) = has_end-some pipes x in_ in
          let small = get_small pipes j p got in
          ground (arith, gone, held.reads j p got, held.writes j p got, small, is, finished)
    ]
