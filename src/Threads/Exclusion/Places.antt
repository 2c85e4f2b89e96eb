-- ===== src/Threads/Exclusion/Places.antt =====
-- Where each thread is, as a function from threads to places, and the queues in memory that it tells.
pub mod Lines
use mathlib.Core.Path.{subst}
use systems_projects.Prelude.{
  ℕ, ◌≡◌, refl, sym, ap, ◌∙◌, ◌⊎◌, inl, inr, Bool, true, false, none, some, List, [], ◌∷◌, ◌++◌,
  ◌==◌, ◌||◌, if◌then◌else◌, arith, Bool-cases, ==_iff,
}
use systems_projects.Threads.Queue.{Links, Threadq, null, push_back, pop_front}
use systems_projects.Threads.Queue.Chain.{has, IsThread, has-append}
use systems_projects.Threads.Queue.Fifo.{
  IsQueue, IsQueue-frame, push_back-Pushed, pop_front-IsQueue,
}
use systems_projects.Threads.Schedule.{assign}

-- The four queues, and what a thread does that is on none.
abbrev pub at_runnable : ℕ
at_runnable = 0

abbrev pub at_mutex : ℕ
at_mutex = 1

abbrev pub at_condition : ℕ
at_condition = 2

abbrev pub at_sleeping : ℕ
at_sleeping = 3

abbrev pub running : ℕ
running = 4

abbrev pub joining : ℕ
joining = 5

abbrev pub in_hand : ℕ
in_hand = 6

abbrev pub nowhere : ℕ
nowhere = 7

-- A queue of the threads at one place.
pub record Lined (h : Links) (q : Threadq) (at : ℕ → ℕ) (p : ℕ) : Type 0 where
  pub list : List ℕ
  pub queue : IsQueue h q list
  pub place : (a : ℕ) → has a list ≡ (at a == p)

-- What a push at a place leaves.
pub record Joins (h : Links) (at : ℕ → ℕ) (p t : ℕ) (r : Links × Threadq) : Type 0 where
  pub line : Lined r.0 r.1 (assign at t p) p
  pub same : (a : ℕ) → (at a == p) ≡ false → (t == a) ≡ false → r.0 a ≡ h a
  pub threads : (a : ℕ) → IsThread h a → IsThread r.0 a

pub push_back-Lined :
    (h : Links) (q : Threadq) (at : ℕ → ℕ) (p t : ℕ)
    → Lined h q at p
    → IsThread h t
    → (at t == p) ≡ false
    → (r : Links × Threadq) × (push_back h q t ≡ some r) × Joins h at p t r
push_back-Lined h q at p t l is away =
    let (r, e, pushed) = push_back-Pushed h q l.list t l.queue is (l.place t ∙ away) in
    (
      r,
      e,
      record {
        line = record {
          list = l.list ++ (t ∷ []);
          queue = pushed.queue;
          place = λ a. ground (arith, has-append a l.list (t ∷ []), l.place a);
        };
        same = λ a off ne. pushed.same a (ground (arith, has-append a l.list (t ∷ []), l.place a));
        threads = pushed.threads;
      },
    )

-- The queue at another place, when a thread moves that was not on it and does not come to it.
pub other-Lined :
    (h h' : Links) (q : Threadq) (at : ℕ → ℕ) (p t p' : ℕ)
    → Lined h q at p
    → ((a : ℕ) → (at a == p) ≡ true → h' a ≡ h a)
    → (at t == p) ≡ false
    → (p' == p) ≡ false
    → Lined h' q (assign at t p') p
other-Lined h h' q at p t p' l same away ne = record {
  list = l.list;
  queue = IsQueue-frame h h' q l.list (λ a k. same a (sym (l.place a) ∙ k)) l.queue;
  place = λ a. ground (arith, l.place a);
}

-- The queue is empty, or its first thread moves to another place.
abbrev pub Popped : (h : Links) (q : Threadq) (at : ℕ → ℕ) (p p' : ℕ) → Type 0
Popped h q at p p' =
    ((q.size ≡ 0) × (pop_front h q ≡ some (null, q)) × ((a : ℕ) → (at a == p) ≡ false))
    ⊎ ((x : ℕ) × (q' : Threadq) × (at x ≡ p)
        × ((q.size == 0) ≡ false)
        × (pop_front h q ≡ some (x, q'))
        × Lined h q' (assign at x p') p)

pop_front-list :
    (h : Links) (q : Threadq) (at : ℕ → ℕ) (p p' : ℕ) (list : List ℕ)
    → IsQueue h q list
    → ((a : ℕ) → has a list ≡ (at a == p))
    → (p' == p) ≡ false
    → Popped h q at p p'
unfolding pop_front
pop_front-list h q at p p' [] empty place ne = inl (empty, rw empty refl, λ a. sym (place a))
pop_front-list h q at p p' (x ∷ list) queue place ne =
    let (q', popped, rest) = pop_front-IsQueue h q x list queue in
    inr (
      x,
      q',
      (==_iff (at x) p).0 (sym (place x) ∙ ground arith),
      ground (arith, queue.0),
      popped,
      record { list = list; queue = rest; place = λ a. ground (arith, place a, queue.4.0) },
    )

pub pop_front-Lined :
    (h : Links) (q : Threadq) (at : ℕ → ℕ) (p p' : ℕ)
    → Lined h q at p
    → (p' == p) ≡ false
    → Popped h q at p p'
pop_front-Lined h q at p p' l ne = pop_front-list h q at p p' l.list l.queue l.place ne
