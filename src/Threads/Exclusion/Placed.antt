-- ===== src/Threads/Exclusion/Placed.antt =====
-- The state of the library, by the places of the threads.
use mathlib.Core.Path.{subst}
use systems_projects.Prelude.{
  ℕ, ◌≤◌, ◌<◌, ◌≡◌, refl, ◌⊎◌, inl, inr, true, false, some, ◌==◌, ◌||◌, if◌then◌else◌, arith,
}
use systems_projects.Threads.Queue.{Links, Threadq, null, push_back, pop_front}
use systems_projects.Threads.Schedule.{Manager, assign}
use systems_projects.Threads.Exclusion.Places.{
  at_runnable, at_mutex, at_condition, at_sleeping, running, joining, in_hand, nowhere, Lined,
  other-Lined,
}
use systems_projects.Threads.Exclusion.Places.Lines.{Lines, set, push_back-Lines, pop_front-Lines}

abbrev pub queues : Manager → (mutex condition : Threadq) → ℕ → Threadq
queues s m c p =
    if p == at_runnable
    then s.runnable
    else if p == at_mutex
    then m
    else if p == at_condition
    then c
    else s.sleeping

-- The threads that have not ended: none is dead, and each is joined by no thread, or by one that waits
-- for it and for no other.
pub record Lives (at dead waiter : ℕ → ℕ) : Type 0 where
  pub alive : (a : ℕ) → at a < nowhere → (dead a == 1) ≡ false
  pub joined : (a : ℕ) → at a < nowhere → ((waiter a == null) || (at (waiter a) == joining)) ≡ true
  pub unique :
      (a b : ℕ)
      → at a < nowhere
      → at b < nowhere
      → (waiter a == waiter b) ≡ true
      → ((waiter a == null) || (a == b)) ≡ true

-- The queues of the library, of a mutex and of a condition.
pub record Placed (s : Manager) (m c : Threadq) (at : ℕ → ℕ) : Type 0 where
  pub lines : Lines s.links (queues s m c) at
  pub lives : Lives at s.dead s.waiter

pub Lives-move :
    (at dead waiter : ℕ → ℕ) (t p : ℕ)
    → Lives at dead waiter
    → at t < nowhere
    → (at t == joining) ≡ false
    → p < nowhere
    → Lives (assign at t p) dead waiter
Lives-move at dead waiter t p l known away small = record {
  alive = λ a k. l.alive a (ground arith);
  joined = λ a k. let before : at a < nowhere = ground arith in ground (arith, l.joined a before);
  unique = λ a b k k' e. l.unique a b (ground arith) (ground arith) e;
}

pub Lines-queues :
    (h : Links) (qs qs' : ℕ → Threadq) (at : ℕ → ℕ)
    → ((p : ℕ) → p < running → qs p ≡ qs' p)
    → Lines h qs at
    → Lines h qs' at
Lines-queues h qs qs' at same l = record {
  line = λ p k. subst (λ q. Lined h q at p) (same p k) (l.line p k);
  threads = l.threads;
  absent = l.absent;
}

-- A thread that is on no queue, and comes to none.
pub Lines-move :
    (h : Links) (qs : ℕ → Threadq) (at : ℕ → ℕ) (t p : ℕ)
    → Lines h qs at
    → running ≤ at t
    → running ≤ p
    → at t ≤ p ⊎ (p < nowhere)
    → at t < nowhere
    → Lines h qs (assign at t p)
Lines-move h qs at t p l free far up known = record {
  line = λ i k.
      other-Lined h h (qs i) at i t p (l.line i k) (λ a on. refl) (ground arith) (ground arith);
  threads = λ a k. l.threads a (ground arith);
  absent = l.absent;
}

module _ (s : Manager) (m c : Threadq) (at : ℕ → ℕ) (h : Placed s m c at) where
  pub Placed-move :
      (t p : ℕ)
      → running ≤ at t
      → at t < nowhere
      → (at t == joining) ≡ false
      → running ≤ p
      → p < nowhere
      → Placed s m c (assign at t p)
  Placed-move t p free known away far small = record {
    lines = Lines-move s.links (queues s m c) at t p h.lines free far (inr small) known;
    lives = Lives-move at s.dead s.waiter t p h.lives known away small;
  }

  module _ (t : ℕ) (known : at t < nowhere) (free : running ≤ at t)
      (away : (at t == joining) ≡ false) where
    -- A thread that is on no queue is pushed on one of the four.
    pushed :
        (p : ℕ)
        → p < running
        → (r : Links × Threadq) × (push_back s.links (queues s m c p) t ≡ some r)
          × ((s' : Manager) (m' c' : Threadq)
              → s'.links ≡ r.0
              → s'.dead ≡ s.dead
              → s'.waiter ≡ s.waiter
              → ((i : ℕ) → i < running → set (queues s m c) p r.1 i ≡ queues s' m' c' i)
              → Placed s' m' c' (assign at t p))
    pushed p small =
        let (r, e, l) = push_back-Lines s.links (queues s m c) at h.lines p t small known free in
        let lives = Lives-move at s.dead s.waiter t p h.lives known away (omega arith) in
        (
          r,
          e,
          λ s' m' c' links dead waiter same. record {
            lines =
                rw links (Lines-queues r.0 (set (queues s m c) p r.1) (queues s' m' c') _ same l);
            lives = rw (dead, waiter) lives;
          },
        )

    pub push_runnable-Placed :
        (r : Links × Threadq) × (push_back s.links s.runnable t ≡ some r)
        × Placed (record s { links = r.0; runnable = r.1 }) m c (assign at t at_runnable)
    push_runnable-Placed =
        let (r, e, after) = pushed at_runnable (omega arith) in
        (r, e, after _ m c refl refl refl (λ i k. ground arith))

    pub push_mutex-Placed :
        (r : Links × Threadq) × (push_back s.links m t ≡ some r)
        × Placed (record s { links = r.0 }) r.1 c (assign at t at_mutex)
    push_mutex-Placed =
        let (r, e, after) = pushed at_mutex (omega arith) in
        (r, e, after _ r.1 c refl refl refl (λ i k. ground arith))

    pub push_condition-Placed :
        (r : Links × Threadq) × (push_back s.links c t ≡ some r)
        × Placed (record s { links = r.0 }) m r.1 (assign at t at_condition)
    push_condition-Placed =
        let (r, e, after) = pushed at_condition (omega arith) in
        (r, e, after _ m r.1 refl refl refl (λ i k. ground arith))

    pub push_sleeping-Placed :
        (r : Links × Threadq) × (push_back s.links s.sleeping t ≡ some r)
        × Placed (record s { links = r.0; sleeping = r.1 }) m c (assign at t at_sleeping)
    push_sleeping-Placed =
        let (r, e, after) = pushed at_sleeping (omega arith) in
        (r, e, after _ m c refl refl refl (λ i k. ground arith))

  -- A queue is empty, or its first thread is taken in hand.
  abbrev pub Taken : (p : ℕ) (q : Threadq) → ((q' : Threadq) (x : ℕ) → Type 0) → Type 0
  Taken p q After =
      ((q.size ≡ 0) × (pop_front s.links q ≡ some (null, q)) × ((a : ℕ) → (at a == p) ≡ false))
      ⊎ ((x : ℕ) × (q' : Threadq) × (at x ≡ p)
          × ((q.size == 0) ≡ false)
          × (pop_front s.links q ≡ some (x, q'))
          × After q' x)

  taken :
      (p : ℕ)
      → p < running
      → Taken p (queues s m c p) (λ q' x.
        (s' : Manager) (m' c' : Threadq)
        → s'.links ≡ s.links
        → s'.dead ≡ s.dead
        → s'.waiter ≡ s.waiter
        → ((i : ℕ) → i < running → set (queues s m c) p q' i ≡ queues s' m' c' i)
        → Placed s' m' c' (assign at x in_hand))
  taken p small =
      elim (pop_front-Lines s.links (queues s m c) at h.lines p in_hand small (omega arith)
        (omega arith)) [
          | inl empty ↦ inl empty
          | inr (x, q', on, full, popped, l) ↦
              let lives =
                Lives-move at s.dead s.waiter x in_hand h.lives (ground (arith, on))
                  (ground (arith, on)) (omega arith) in
              inr (
                x,
                q',
                on,
                full,
                popped,
                λ s' m' c' links dead waiter same. record {
                  lines =
                      rw links
                        (Lines-queues s.links (set (queues s m c) p q') (queues s' m' c') _ same l);
                  lives = rw (dead, waiter) lives;
                },
              )
        ]

  pub pop_runnable-Taken :
      Taken at_runnable s.runnable
        (λ q' x. Placed (record s { runnable = q' }) m c (assign at x in_hand))
  pop_runnable-Taken = elim (taken at_runnable (omega arith)) [
    | inl empty ↦ inl empty
    | inr (x, q', on, full, popped, after) ↦
        inr (x, q', on, full, popped, after _ m c refl refl refl (λ i k. ground arith))
  ]

  pub pop_mutex-Taken : Taken at_mutex m (λ q' x. Placed s q' c (assign at x in_hand))
  pop_mutex-Taken = elim (taken at_mutex (omega arith)) [
    | inl empty ↦ inl empty
    | inr (x, q', on, full, popped, after) ↦
        inr (x, q', on, full, popped, after s q' c refl refl refl (λ i k. ground arith))
  ]

  pub pop_condition-Taken : Taken at_condition c (λ q' x. Placed s m q' (assign at x in_hand))
  pop_condition-Taken = elim (taken at_condition (omega arith)) [
    | inl empty ↦ inl empty
    | inr (x, q', on, full, popped, after) ↦
        inr (x, q', on, full, popped, after s m q' refl refl refl (λ i k. ground arith))
  ]

  pub pop_sleeping-Taken :
      Taken at_sleeping s.sleeping
        (λ q' x. Placed (record s { sleeping = q' }) m c (assign at x in_hand))
  pop_sleeping-Taken = elim (taken at_sleeping (omega arith)) [
    | inl empty ↦ inl empty
    | inr (x, q', on, full, popped, after) ↦
        inr (x, q', on, full, popped, after _ m c refl refl refl (λ i k. ground arith))
  ]
