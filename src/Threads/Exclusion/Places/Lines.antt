-- ===== src/Threads/Exclusion/Places/Lines.antt =====
-- The four queues together.
use mathlib.Core.Path.{subst}
use systems_projects.Prelude.{
  ℕ, ◌≤◌, ◌<◌, ◌≡◌, refl, ◌∙◌, ◌⊎◌, inl, inr, true, false, none, some, ◌==◌, ltb, if◌then◌else◌,
  arith, Bool-cases, ==_iff,
}
use systems_projects.Threads.Queue.{Links, Threadq, null, push_back, pop_front}
use systems_projects.Threads.Queue.Chain.{IsThread}
use systems_projects.Threads.Schedule.{assign}
use systems_projects.Threads.Exclusion.Places.{
  running, nowhere, Lined, push_back-Lined, other-Lined, pop_front-Lined,
}

-- Each queue has the threads at its place.
pub record Lines (h : Links) (qs : ℕ → Threadq) (at : ℕ → ℕ) : Type 0 where
  pub line : (p : ℕ) → p < running → Lined h (qs p) at p
  pub threads : (a : ℕ) → at a < nowhere → IsThread h a
  pub absent : h null ≡ none

abbrev pub set : (ℕ → Threadq) → ℕ → Threadq → ℕ → Threadq
set qs p q i = if p == i then q else qs i

pub null-nowhere : (h : Links) (qs : ℕ → Threadq) (at : ℕ → ℕ) → Lines h qs at → nowhere ≤ at null
null-nowhere h qs at l = elim (Bool-cases (ltb (at null) nowhere)) [
  | inl in_ ↦ let (v, is) = l.threads null (ground arith) in ground (arith, is, l.absent)
  | inr out ↦ ground arith
]

module _ (h : Links) (qs : ℕ → Threadq) (at : ℕ → ℕ) (l : Lines h qs at) where
  -- A thread that is on no queue is pushed on one.
  pub push_back-Lines :
      (p t : ℕ)
      → p < running
      → at t < nowhere
      → running ≤ at t
      → (r : Links × Threadq) × (push_back h (qs p) t ≡ some r)
        × Lines r.0 (set qs p r.1) (assign at t p)
  push_back-Lines p t small known free =
      let (r, e, joins) =
        push_back-Lined h (qs p) at p t (l.line p small) (l.threads t known) (ground arith) in
      (
        r,
        e,
        record {
          line = λ i k. elim (Bool-cases (p == i)) [
            | inl same ↦
                let self : (p == p) ≡ true = ground arith in
                subst (λ j. Lined r.0 (set qs p r.1 j) (assign at t p) j) ((==_iff p i).0 same)
                  (rw self joins.line)
            | inr ne ↦ rw ne (
                other-Lined h r.0 (qs i) at i t p (l.line i k)
                  (λ a on. joins.same a (ground arith) (ground arith)) (ground arith) ne)
          ];
          threads = λ a k. elim (Bool-cases (t == a)) [
            | inl same ↦
                joins.threads a (subst (IsThread h) ((==_iff t a).0 same) (l.threads t known))
            | inr ne ↦ joins.threads a (l.threads a (ground arith))
          ];
          absent =
              joins.same null (ground (arith, null-nowhere h qs at l))
                (ground (arith, null-nowhere h qs at l))
              ∙ l.absent;
        },
      )

  -- The first thread of a queue, if it has one, is taken off.
  pub pop_front-Lines :
      (p p' : ℕ)
      → p < running
      → running ≤ p'
      → p' < nowhere
      → ((((qs p).size ≡ 0)
            × (pop_front h (qs p) ≡ some (null, qs p))
            × ((a : ℕ) → (at a == p) ≡ false))
          ⊎ ((x : ℕ) × (q' : Threadq) × (at x ≡ p)
              × (((qs p).size == 0) ≡ false)
              × (pop_front h (qs p) ≡ some (x, q'))
              × Lines h (set qs p q') (assign at x p')))
  pop_front-Lines p p' small far known =
      elim (pop_front-Lined h (qs p) at p p' (l.line p small) (ground arith)) [
        | inl empty ↦ inl empty
        | inr (x, q', on, full, popped, line) ↦ inr (
          x,
          q',
          on,
          full,
          popped,
          record {
            line = λ i k. elim (Bool-cases (p == i)) [
              | inl same ↦
                  let self : (p == p) ≡ true = ground arith in
                  subst (λ j. Lined h (set qs p q' j) (assign at x p') j) ((==_iff p i).0 same)
                    (rw self line)
              | inr ne ↦ rw ne (
                  other-Lined h h (qs i) at i x p' (l.line i k) (λ a on'. refl) (ground arith)
                    (ground arith))
            ];
            threads = λ a k. l.threads a (ground arith);
            absent = l.absent;
          },
        )
      ]
