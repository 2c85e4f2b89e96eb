-- ===== src/Shell/Pipes/Held.antt =====
-- The descriptors of the shell between two commands, and those of a command.
use mathlib.Core.Path.{subst}
use systems_projects.Prelude.{
  ℕ, zero, suc, ◌+◌, ◌<◌, ◌≡◌, refl, ap, true, false, ◌==◌, ◌||◌, leb, if◌then◌else◌, none, some,
  List, [], ◌∷◌, length, get_elem?, arith, Bool-cases, inl, inr, ==_iff,
}
use systems_projects.Shell.Files.{pipe_read, pipe_write, Table, lookup}
use systems_projects.Shell.Pipes.{Pipes}
use systems_projects.Shell.Pipes.Opened.{has_end, Opened}

pub get_some :
    {A : Type 0} → (l : List A) (j : ℕ) → j < length l → (a : A) × (get_elem? l j ≡ some a)
get_some [] j small = absurd (omega arith)
get_some (a ∷ l) zero small = (a, refl)
get_some (a ∷ l) (suc j) small = get_some l j (omega arith)

pub get_small : {A : Type 0} → (l : List A) (j : ℕ) (a : A) → get_elem? l j ≡ some a → j < length l
get_small [] j a e = absurd (cc)
get_small (b ∷ l) zero a e = omega arith
get_small (b ∷ l) (suc j) a e = omega (arith, get_small l j a e)

pub has_end-get :
    (pipes : Pipes) (j : ℕ) (ends : ℕ × ℕ)
    → get_elem? pipes j ≡ some ends
    → (has_end ends.0 pipes ≡ true) × (has_end ends.1 pipes ≡ true)
has_end-get [] j ends e = absurd (cc)
has_end-get (p ∷ pipes) zero ends e =
    let same : p ≡ ends = cc in
    subst (λ (q : ℕ × ℕ). (has_end q.0 (p ∷ pipes) ≡ true) × (has_end q.1 (p ∷ pipes) ≡ true)) same
      (ground arith, ground arith)
has_end-get (p ∷ pipes) (suc j) ends e =
    let (a, b) = has_end-get pipes j ends e in (ground (arith, a), ground (arith, b))

pub has_end-some :
    (pipes : Pipes) (x : ℕ)
    → has_end x pipes ≡ true
    → (j : ℕ) × (ends : ℕ × ℕ) × (get_elem? pipes j ≡ some ends)
      × ((ends.0 == x) || (ends.1 == x) ≡ true)
has_end-some [] x e = absurd (cc)
has_end-some (p ∷ pipes) x e = elim (Bool-cases ((p.0 == x) || (p.1 == x))) [
  | inl here ↦ (0, p, refl, here)
  | inr later ↦
      let (j, ends, got, is) = has_end-some pipes x (ground (arith, e, later)) in
      (suc j, ends, got, is)
]

-- Before the command with a number is started: what is open besides the descriptors `t0`.
pub record Held (base : ℕ) (t0 : Table) (pipes : Pipes) (idx : ℕ) (t : Table) : Type 0 where
  pub others : (x : ℕ) → has_end x pipes ≡ false → lookup t x ≡ lookup t0 x
  pub reads :
      (j : ℕ) (ends : ℕ × ℕ)
      → get_elem? pipes j ≡ some ends
      → lookup t ends.0 ≡ (if leb idx (j + 1) then some (pipe_read (base + j)) else none)
  pub writes :
      (j : ℕ) (ends : ℕ × ℕ)
      → get_elem? pipes j ≡ some ends
      → lookup t ends.1 ≡ (if leb idx j then some (pipe_write (base + j)) else none)

pub Opened-Held :
    (base : ℕ) (t0 t : Table) (pipes : Pipes) → Opened base t0 t pipes → Held base t0 pipes 0 t
Opened-Held base t0 t pipes o = record {
  others = o.others;
  reads = λ j ends e. ground (arith, o.reads j ends e);
  writes = λ j ends e. ground (arith, o.writes j ends e);
}

-- Two ends are one only if they are the same end of one pipe.
module _ (base : ℕ) (t0 t : Table) (pipes : Pipes) (o : Opened base t0 t pipes) (i j : ℕ)
    (p q : ℕ × ℕ) (ei : get_elem? pipes i ≡ some p) (ej : get_elem? pipes j ≡ some q) where
  pub read_ne_write : (p.0 == q.1) ≡ false
  read_ne_write = elim (Bool-cases (p.0 == q.1)) [
    | inl same ↦
        let e = ap (lookup t) ((==_iff p.0 q.1).0 same) in
        let read = o.reads i p ei in let write = o.writes j q ej in absurd (cc)
    | inr ne ↦ ne
  ]

  pub reads_apart : (i == j) ≡ false → (p.0 == q.0) ≡ false
  reads_apart ne = elim (Bool-cases (p.0 == q.0)) [
    | inl same ↦
        let e = ap (lookup t) ((==_iff p.0 q.0).0 same) in
        let read = o.reads i p ei in
        let read' = o.reads j q ej in
        let number : base + i ≡ base + j = cc in absurd (ground (arith, number, ne))
    | inr out ↦ out
  ]

  pub writes_apart : (i == j) ≡ false → (p.1 == q.1) ≡ false
  writes_apart ne = elim (Bool-cases (p.1 == q.1)) [
    | inl same ↦
        let e = ap (lookup t) ((==_iff p.1 q.1).0 same) in
        let write = o.writes i p ei in
        let write' = o.writes j q ej in
        let number : base + i ≡ base + j = cc in absurd (ground (arith, number, ne))
    | inr out ↦ out
  ]
