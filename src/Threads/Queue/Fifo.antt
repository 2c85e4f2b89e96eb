-- ===== src/Threads/Queue/Fifo.antt =====
-- A queue in memory stands for a list of threads, and its two operations for those of a FIFO.
use systems_projects.Prelude.{
  ℕ, suc, ◌+◌, ◌-◌, ◌≡◌, refl, sym, ap, true, false, some, List, [], ◌∷◌, ◌++◌, arith, length,
  length-append,
}
use systems_projects.Threads.Queue.{Links, null, Threadq, update, write_next, push_back, pop_front}
use systems_projects.Threads.Queue.Chain.{
  has, Distinct, last, IsThread, Linked, has-last, has-append, Linked-frame, Linked-snoc,
  Distinct-snoc, last-snoc, Linked-last, IsThread-update,
}

abbrev pub IsQueue : Links → Threadq → List ℕ → Type 0
IsQueue h q [] = q.size ≡ 0
IsQueue h q (x ∷ ts) =
    (q.size ≡ suc (length ts))
    × (q.front ≡ x)
    × (q.end ≡ last x ts)
    × Linked h x ts
    × Distinct (x ∷ ts)

pub IsQueue-frame :
    (h g : Links) (q : Threadq) (ts : List ℕ)
    → ((a : ℕ) → has a ts ≡ true → g a ≡ h a)
    → IsQueue h q ts
    → IsQueue g q ts
IsQueue-frame h g q [] same e = e
IsQueue-frame h g q (x ∷ ts) same (size, front, end, l, d) =
    (size, front, end, Linked-frame h g x ts same l, d)

-- What `push_back` leaves: only the new thread's link and the last one's are written.
pub record Pushed (h : Links) (ts : List ℕ) (t : ℕ) (r : Links × Threadq) : Type 0 where
  pub queue : IsQueue r.0 r.1 (ts ++ (t ∷ []))
  pub same : (a : ℕ) → has a (ts ++ (t ∷ [])) ≡ false → r.0 a ≡ h a
  pub threads : (a : ℕ) → IsThread h a → IsThread r.0 a

pub push_back-Pushed :
    (h : Links) (q : Threadq) (ts : List ℕ) (t : ℕ)
    → IsQueue h q ts
    → IsThread h t
    → has t ts ≡ false
    → (r : Links × Threadq) × (push_back h q t ≡ some r) × Pushed h ts t r
unfolding push_back write_next
push_back-Pushed h q [] t e (v, is) out = (
  (update h t (some null), record { front = t; end = t; size = q.size + 1 }),
  ground arith,
  record {
    queue = (omega arith, refl, refl, (null, ground arith), (refl, tt));
    same = λ a m. ground arith;
    threads = λ a. IsThread-update h t null a;
  },
)
push_back-Pushed h q (x ∷ ts) t (size, front, end, l, d) (v, is) out =
    let h' = update h t (some null) in
    let (w, k) = IsThread-update h t null (last x ts) (Linked-last h x ts l) in
    let inside = has-last x ts in
    (
      (update h' (last x ts) (some t), record { front = q.front; end = t; size = q.size + 1 }),
      ground arith,
      record {
        queue = (
          omega (arith, length-append ts (t ∷ [])),
          front,
          sym (last-snoc x ts t),
          Linked-snoc h x ts t l d out,
          Distinct-snoc (x ∷ ts) t d out,
        );
        same = λ a m. ground (arith, has-append a (x ∷ ts) (t ∷ []), has-last x ts);
        threads = λ a k. IsThread-update h' (last x ts) t a (IsThread-update h t null a k);
      },
    )

pop_front-empty : (h : Links) (q : Threadq) → IsQueue h q [] → pop_front h q ≡ some (null, q)
unfolding pop_front
pop_front-empty h q e = rw e

pub pop_front-IsQueue :
    (h : Links) (q : Threadq) (x : ℕ) (ts : List ℕ)
    → IsQueue h q (x ∷ ts)
    → (q' : Threadq) × (pop_front h q ≡ some (x, q')) × IsQueue h q' ts
unfolding pop_front
pop_front-IsQueue h q x [] (size, front, end, (v, e), d) =
    (record { front = v; end = null; size = q.size - 1 }, ground (arith, ap h front), omega arith)
pop_front-IsQueue h q x (y ∷ ts) (size, front, end, (e, l), d) = (
  record { front = y; end = q.end; size = q.size - 1 },
  ground (arith, ap h front),
  (omega arith, refl, end, l, d.1),
)
