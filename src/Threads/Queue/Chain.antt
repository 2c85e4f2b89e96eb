-- ===== src/Threads/Queue/Chain.antt =====
-- Threads linked in a row, and what a write to one `next` field does to the row.
use systems_projects.Prelude.{
  ℕ, ◌≡◌, refl, Bool, true, false, ◌||◌, some, List, [], ◌∷◌, ◌++◌, arith, ◌==◌, Bool-cases, inl,
  inr,
}
use systems_projects.Threads.Queue.{Links, null, update}

abbrev pub has : ℕ → List ℕ → Bool
has a [] = false
has a (t ∷ ts) = (a == t) || has a ts

abbrev pub Distinct : List ℕ → Type 0
Distinct [] = Unit
Distinct (t ∷ ts) = (has t ts ≡ false) × Distinct ts

abbrev pub Apart : List ℕ → List ℕ → Type 0
Apart ts us = (a : ℕ) → has a ts ≡ true → has a us ≡ false

abbrev pub last : ℕ → List ℕ → ℕ
last x [] = x
last x (y ∷ ts) = last y ts

abbrev pub IsThread : Links → ℕ → Type 0
IsThread h x = (v : ℕ) × (h x ≡ some v)

-- From `x` the `next` fields lead through `ts`; that of the last thread is free.
abbrev pub Linked : Links → ℕ → List ℕ → Type 0
Linked h x [] = IsThread h x
Linked h x (y ∷ ts) = (h x ≡ some y) × Linked h y ts

pub has-last : (x : ℕ) (ts : List ℕ) → has (last x ts) (x ∷ ts) ≡ true
has-last x [] = ground arith
has-last x (y ∷ ts) = ground (arith, has-last y ts)

pub has-append : (a : ℕ) (ts us : List ℕ) → has a (ts ++ us) ≡ (has a ts || has a us)
has-append a [] us = refl
has-append a (t ∷ ts) us = ground (arith, has-append a ts us)

-- Links that agree at the threads of a row keep it.
pub Linked-frame :
    (h g : Links) (x : ℕ) (ts : List ℕ)
    → ((a : ℕ) → has a (x ∷ ts) ≡ true → g a ≡ h a)
    → Linked h x ts
    → Linked g x ts
Linked-frame h g x [] same (v, e) = (v, ground (arith, same x))
Linked-frame h g x (y ∷ ts) same (e, rest) =
    (ground (arith, same x), Linked-frame h g y ts (λ a m. same a (ground arith)) rest)

-- A thread that is not in the row is linked behind its last one.
pub Linked-snoc :
    (h : Links) (x : ℕ) (ts : List ℕ) (t : ℕ)
    → Linked h x ts
    → Distinct (x ∷ ts)
    → has t (x ∷ ts) ≡ false
    → Linked (update (update h t (some null)) (last x ts) (some t)) x (ts ++ (t ∷ []))
Linked-snoc h x [] t l d out = (ground arith, (null, ground arith))
Linked-snoc h x (y ∷ ts) t (e, l) d out =
    (ground (arith, has-last y ts), Linked-snoc h y ts t l d.1 (ground arith))

pub Distinct-snoc :
    (ts : List ℕ) (t : ℕ) → Distinct ts → has t ts ≡ false → Distinct (ts ++ (t ∷ []))
Distinct-snoc [] t d out = (refl, tt)
Distinct-snoc (x ∷ ts) t d out =
    (ground (arith, has-append x ts (t ∷ [])), Distinct-snoc ts t d.1 (ground arith))

pub last-snoc : (x : ℕ) (ts : List ℕ) (t : ℕ) → last x (ts ++ (t ∷ [])) ≡ t
last-snoc x [] t = refl
last-snoc x (y ∷ ts) t = last-snoc y ts t

pub Linked-last : (h : Links) (x : ℕ) (ts : List ℕ) → Linked h x ts → IsThread h (last x ts)
Linked-last h x [] l = l
Linked-last h x (y ∷ ts) l = Linked-last h y ts l.1

pub IsThread-update : (h : Links) (p v a : ℕ) → IsThread h a → IsThread (update h p (some v)) a
IsThread-update h p v a (w, e) = elim (Bool-cases (p == a)) [
  | inl m ↦ (v, rw m)
  | inr m ↦ (w, rw m e)
]
