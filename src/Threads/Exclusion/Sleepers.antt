-- ===== src/Threads/Exclusion/Sleepers.antt =====
-- How a thread that sleeps is made runnable.
use mathlib.Core.Path.{subst}
use systems_projects.Prelude.{
  ℕ, ◌≡◌, refl, sym, ap, ◌∙◌, ◌⊎◌, inl, inr, true, false, Option, none, some, List, [], ◌∷◌, ◌==◌,
  ◌||◌, ltb, arith, Bool-cases, ==_iff, ◌>>=◌,
}
use systems_projects.Threads.Queue.{Threadq, null, pop_front}
use systems_projects.Threads.Schedule.{
  Manager, assign, push_runnable, push_sleeping, wake_loop, wake_sleeping_threads,
}
use systems_projects.Threads.Exclusion.Places.{at_runnable, at_sleeping, in_hand, at_mutex, running}
use systems_projects.Threads.Exclusion.Placed.{
  Placed, push_runnable-Placed, push_sleeping-Placed, pop_sleeping-Taken,
}

-- What a computation that gives a result has passed through.
pub bind_some :
    {A B : Type 0} (o : Option A) (k : A → Option B) (b : B)
    → o >>= k ≡ some b
    → (a : A) × (o ≡ some a) × (k a ≡ some b)
bind_some none k b e = absurd (cc)
bind_some (some a) k b e = (a, refl, e)

abbrev pub None : (at : ℕ → ℕ) (p : ℕ) → Type 0
None at p = (a : ℕ) → (at a == p) ≡ false

abbrev pub Only : (at : ℕ → ℕ) (p t : ℕ) → Type 0
Only at p t = (a : ℕ) → (at a == p) ≡ (t == a)

-- The threads at a place are the same.
abbrev pub Still : (at at' : ℕ → ℕ) (p : ℕ) → Type 0
Still at at' p = (a : ℕ) → (at' a == p) ≡ (at a == p)

-- A thread has been woken.
pub record Woken (at : ℕ → ℕ) (m c : Threadq) (s s' : Manager) : Type 0 where
  pub at' : ℕ → ℕ
  pub placed : Placed s' m c at'
  pub empty_hand : None at' in_hand
  pub still : Still at at' at_mutex
  pub runs : Still at at' running
  pub current : s'.current ≡ s.current
  pub woken : (x : ℕ) × (at' x ≡ at_runnable)

wake_loop-due :
    (now : ℕ) (clock : List ℕ) (s : Manager) (head : ℕ) (next : ℕ)
    → s.links head ≡ some next
    → ltb now (s.timing_information head) ≡ false
    → wake_loop (now ∷ clock) s head ≡ push_runnable (record s { clock = clock }) head
unfolding wake_loop
wake_loop-due now clock s head next e due = rw (e, due) refl

wake_loop-alone :
    (now : ℕ) (clock : List ℕ) (s : Manager) (head : ℕ) (next : ℕ)
    → s.links head ≡ some next
    → ltb now (s.timing_information head) ≡ true
    → (next == 0) ≡ true
    → wake_loop (now ∷ clock) s head ≡ wake_loop clock s head
unfolding wake_loop
wake_loop-alone now clock s head next e early last =
    rw (e, early)
      (ap
        (λ b. elim b as (λ x. Option Manager) [
          | true ↦ wake_loop clock s head
          | false ↦ (do
            (y, q) ← pop_front s.links s.sleeping
            s' ← push_sleeping (record s { sleeping = q }) head
            wake_loop clock s' y)
        ])
        last)

wake_loop-turn :
    (now : ℕ) (clock : List ℕ) (s s2 : Manager) (head next y : ℕ) (q : Threadq)
    → s.links head ≡ some next
    → ltb now (s.timing_information head) ≡ true
    → (next == 0) ≡ false
    → pop_front s.links s.sleeping ≡ some (y, q)
    → push_sleeping (record s { sleeping = q }) head ≡ some s2
    → wake_loop (now ∷ clock) s head ≡ wake_loop clock s2 y
unfolding wake_loop
wake_loop-turn now clock s s2 head next y q e early more popped pushed =
    rw (e, early)
      (ap
          (λ b. elim b as (λ x. Option Manager) [
            | true ↦ wake_loop clock s head
            | false ↦ (do
              (y, q) ← pop_front s.links s.sleeping
              s' ← push_sleeping (record s { sleeping = q }) head
              wake_loop clock s' y)
          ])
          more
        ∙ rw (popped, pushed) refl)

wake_loop-null :
    (clock : List ℕ) (s : Manager) → s.links null ≡ none → wake_loop clock s null ≡ none
unfolding wake_loop
wake_loop-null [] s absent = refl
wake_loop-null (now ∷ clock) s absent = rw absent refl

wake_loop-end : (s : Manager) (head : ℕ) → wake_loop [] s head ≡ none
unfolding wake_loop
wake_loop-end s head = refl

requeued-Still :
    (at : ℕ → ℕ) (x head p : ℕ)
    → (p == at_mutex) || (p == running) ≡ true
    → at x ≡ at_sleeping
    → at head ≡ in_hand
    → Still at (assign (assign at x in_hand) head at_sleeping) p
requeued-Still at x head p k on held a = ground (arith, on, held)

requeued-Only :
    (at : ℕ → ℕ) (x head : ℕ)
    → at x ≡ at_sleeping
    → at head ≡ in_hand
    → Only at in_hand head
    → Only (assign (assign at x in_hand) head at_sleeping) in_hand x
requeued-Only at x head on held only a = ground (arith, on, held, only a)

Woken-before :
    (at at1 : ℕ → ℕ) (m c : Threadq) (s s1 s' : Manager)
    → Still at at1 at_mutex
    → Still at at1 running
    → s1.current ≡ s.current
    → Woken at1 m c s1 s'
    → Woken at m c s s'
Woken-before at at1 m c s s1 s' still runs current w = record {
  at' = w.at';
  placed = w.placed;
  empty_hand = w.empty_hand;
  still = λ a. w.still a ∙ still a;
  runs = λ a. w.runs a ∙ runs a;
  current = w.current ∙ current;
  woken = w.woken;
}

pub wake_loop-Woken :
    (clock : List ℕ) (s : Manager) (m c : Threadq) (at : ℕ → ℕ) (head : ℕ) (s' : Manager)
    → Placed s m c at
    → Only at in_hand head
    → wake_loop clock s head ≡ some s'
    → Woken at m c s s'
unfolding push_runnable push_sleeping
wake_loop-Woken [] s m c at head s' h only e = absurd ((let k = wake_loop-end s head in cc))
wake_loop-Woken (now ∷ clock) s m c at head s' h only e =
    let held : at head ≡ in_hand = (==_iff (at head) in_hand).0 (only head ∙ ground arith) in
    let (next, is) = h.lines.threads head (omega (arith, held)) in
    elim (Bool-cases (ltb now (s.timing_information head))) [
      | inl early ↦ elim (Bool-cases (next == 0)) [
        | inl last ↦
            wake_loop-Woken clock s m c at head s' h only
              (sym (wake_loop-alone now clock s head next is early last) ∙ e)
        | inr more ↦ elim (pop_sleeping-Taken s m c at h) [
          | inl (empty, popped, off) ↦
              let (r, pushed, after) =
                push_sleeping-Placed s m c at h head (omega (arith, held)) (omega (arith, held))
                  (ground (arith, held)) in
              let s2 = record s { links = r.0; sleeping = r.1 } in
              let turn =
                wake_loop-turn now clock s s2 head next null s.sleeping is early more popped
                  (rw pushed refl) in
              let stuck = wake_loop-null clock s2 after.lines.absent in absurd (cc)
          | inr (x, q, on, full, popped, rest) ↦
              let at1 = assign at x in_hand in
              let there : at1 head ≡ in_hand = ground (arith, held) in
              let (r, pushed, after) =
                push_sleeping-Placed (record s { sleeping = q }) m c at1 rest head
                  (omega (arith, there)) (omega (arith, there)) (ground (arith, there)) in
              let s2 = record s { links = r.0; sleeping = r.1 } in
              let turn =
                wake_loop-turn now clock s s2 head next x q is early more popped (rw pushed refl) in
              Woken-before at (assign at1 head at_sleeping) m c s s2 s'
                (requeued-Still at x head at_mutex refl on held)
                (requeued-Still at x head running refl on held) refl
                (wake_loop-Woken clock s2 m c (assign at1 head at_sleeping) x s' after
                  (λ a. requeued-Only at x head on held only a) (sym turn ∙ e))
        ]
      ]
      | inr due ↦
          let (r, pushed, after) =
            push_runnable-Placed s m c at h head (omega (arith, held)) (omega (arith, held))
              (ground (arith, held)) in
          let turn = wake_loop-due now clock s head next is due in
          let s1 = record s { clock = clock; links = r.0; runnable = r.1 } in
          let there : wake_loop (now ∷ clock) s head ≡ some s1 = turn ∙ rw pushed refl in
          let is' : s1 ≡ s' = cc in
          subst (Woken at m c s) is' (record {
            at' = assign at head at_runnable;
            placed = record { lines = after.lines; lives = after.lives };
            empty_hand = λ a. ground (arith, held, only a);
            still = λ a. ground (arith, held);
            runs = λ a. ground (arith, held);
            current = refl;
            woken = (head, ground arith);
          })
    ]

-- No thread sleeps and nothing changes, or a thread is woken.
pub wake_sleeping_threads-Woken :
    (s : Manager) (m c : Threadq) (at : ℕ → ℕ) (s' : Manager)
    → Placed s m c at
    → None at in_hand
    → wake_sleeping_threads s ≡ some s'
    → (s ≡ s') ⊎ Woken at m c s s'
unfolding wake_sleeping_threads
wake_sleeping_threads-Woken s m c at s' h hand e = elim (pop_sleeping-Taken s m c at h) [
  | inl (empty, popped, off) ↦
      let same : wake_sleeping_threads s ≡ some s = rw empty refl in inl (cc)
  | inr (x, q, on, full, popped, rest) ↦
      let loop : wake_sleeping_threads s ≡ wake_loop s.clock (record s { sleeping = q }) x =
        rw (full, popped) refl in
      inr (
        Woken-before at (assign at x in_hand) m c s (record s { sleeping = q }) s'
          (λ a. ground (arith, on)) (λ a. ground (arith, on)) refl
          (wake_loop-Woken s.clock (record s { sleeping = q }) m c (assign at x in_hand) x s' rest
            (λ a. ground (arith, hand a)) (sym loop ∙ e)))
]
