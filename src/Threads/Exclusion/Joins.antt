-- ===== src/Threads/Exclusion/Joins.antt =====
-- So do the waits for a thread.
use mathlib.Core.Path.{subst}
use systems_projects.Prelude.{
  ℕ, ◌≡◌, inl, inr, Option, true, none, some, List, ◌==◌, ◌>>=◌, if◌then◌else◌, arith, Bool-cases,
}
use systems_projects.Threads.Queue.{Threadq}
use systems_projects.Threads.Sync.{Mutex}
use systems_projects.Threads.Schedule.{Manager, Switch, stay, assign, schedule, join, join_round}
use systems_projects.Threads.Exclusion.{world}
use systems_projects.Threads.Exclusion.Places.{running, joining}
use systems_projects.Threads.Exclusion.Placed.{queues, Lives, Placed, Lines-move}
use systems_projects.Threads.Exclusion.Sleepers.{bind_some}
use systems_projects.Threads.Exclusion.Dispatch.{current_is, schedule_wait-Turned}
use systems_projects.Threads.Exclusion.Locks.{Sound, Held-still, Turned-Sound, on_processor}

-- The running thread `r` waits for `t`.
module _ (at dead waiter : ℕ → ℕ) (t r : ℕ) (l : Lives at dead waiter) (on : at r ≡ running) where
  pub waits_for-Lives : Lives (assign at r joining) dead (assign waiter t r)
  waits_for-Lives = record {
    alive = λ a k. l.alive a (ground (arith, on));
    joined = λ a k. ground (arith, on, l.joined a);
    unique = λ a b k k' e. ground (arith, on, l.unique a b, l.joined a, l.joined b);
  }

  pub waits_again-Lives : Lives (assign at r joining) dead waiter
  waits_again-Lives = record {
    alive = λ a k. l.alive a (ground (arith, on));
    joined = λ a k. ground (arith, on, l.joined a);
    unique = λ a b k k' e. l.unique a b (ground (arith, on)) (ground (arith, on)) e;
  }

  -- `t` has ended.
  pub finds_dead-Lives : (dead t == 1) ≡ true → Lives at dead (assign waiter t r)
  finds_dead-Lives ended = record {
    alive = l.alive;
    joined = λ a k. ground (arith, l.joined a, l.alive a);
    unique = λ a b k k' e. ground (arith, l.unique a b, l.alive a, l.alive b);
  }

module _ (s : Manager) (m : Mutex) (c : Threadq) (hs : List ℕ) (h : Sound (world s m c hs)) where
  pub joining-Placed :
      (waiter : ℕ → ℕ)
      → Lives (assign h.at s.current joining) s.dead waiter
      → Placed (record s { waiter = waiter }) m.queue c (assign h.at s.current joining)
  joining-Placed waiter goes =
      let on = on_processor s m c hs h in
      record {
        lines =
            Lines-move s.links (queues s m.queue c) h.at s.current joining h.placed.lines
              (omega (arith, on)) (omega arith) (inl (omega (arith, on))) (omega (arith, on));
        lives = goes;
      }

  -- The running thread stays, or waits, when `s1` has what `waiter` is by then.
  tested-Sound :
      (t : ℕ) (waiter : ℕ → ℕ) (p : Option ℕ × Manager × Switch)
      → ((s.dead t == 1) ≡ true → Lives h.at s.dead waiter)
      → Lives (assign h.at s.current joining) s.dead waiter
      → join_round t (record s { waiter = waiter }) ≡ some p
      → Sound (world p.1 m c hs)
  unfolding join_round
  tested-Sound t waiter p stays goes e =
      let s1 = record s { waiter = waiter } in
      let on = on_processor s m c hs h in
      let (next, is, e1) =
        bind_some (s.links t)
          (λ next.
            if s.dead t == 1
            then some (some (s.return_val t), s1, stay)
            else (schedule 2 s1 >>= λ x. some (none, x.0, x.1)))
          p e in
      elim (Bool-cases (s.dead t == 1)) [
        | inl ended ↦
            let done : some (some (s.return_val t), s1, stay) ≡ some p = rw ended at e1 in
            let same : (some (s.return_val t), s1, stay) ≡ p = cc in
            subst (λ (r : Option ℕ × Manager × Switch). Sound (world r.1 m c hs)) same
              (record {
                at = h.at;
                placed = record { lines = h.placed.lines; lives = stays ended };
                only = h.only;
                empty_hand = h.empty_hand;
                holds = h.holds;
              })
        | inr lives ↦
            let no_value : Option ℕ = none in
            let (x, next_runs, e2) =
              bind_some (schedule 2 s1) (λ x. some (no_value, x.0, x.1)) p (rw lives at e1) in
            let at1 = assign h.at s.current joining in
            let turned =
              schedule_wait-Turned s1 m.queue c at1 x (joining-Placed waiter goes)
                (λ a. ground (arith, h.empty_hand a)) (λ a. ground (arith, h.only a))
                (current_is s m.queue c h.at x h.placed h.empty_hand on) next_runs in
            let same : (no_value, x.0, x.1) ≡ p = cc in
            subst (λ (r : Option ℕ × Manager × Switch). Sound (world r.1 m c hs)) same
              (Turned-Sound x.0 m c hs at1 turned
                (Held-still m.locked h.at at1 hs (λ a. ground (arith, on)) h.holds))
      ]

  pub tests-Sound :
      (t : ℕ) (p : Option ℕ × Manager × Switch) → join_round t s ≡ some p → Sound (world p.1 m c hs)
  tests-Sound t p e =
      let on = on_processor s m c hs h in
      tested-Sound t s.waiter p (λ ended. h.placed.lives)
        (waits_again-Lives h.at s.dead s.waiter t s.current h.placed.lives on) e

  pub joins-Sound :
      (t : ℕ) (p : Option ℕ × Manager × Switch) → join t s ≡ some p → Sound (world p.1 m c hs)
  unfolding join
  joins-Sound t p e =
      let on = on_processor s m c hs h in
      let waiter = assign s.waiter t s.current in
      let (next, is, e1) =
        bind_some (s.links t) (λ next. join_round t (record s { waiter = waiter })) p e in
      tested-Sound t waiter p (finds_dead-Lives h.at s.dead s.waiter t s.current h.placed.lives on)
        (waits_for-Lives h.at s.dead s.waiter t s.current h.placed.lives on) e1
