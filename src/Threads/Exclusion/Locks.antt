-- ===== src/Threads/Exclusion/Locks.antt =====
-- Locks, yields and sleeps keep the mutex with at most one thread.
use mathlib.Core.Path.{subst}
use systems_projects.Prelude.{
  ℕ, ◌+◌, ◌≡◌, refl, ◌∙◌, ◌⊎◌, inl, inr, false, none, some, List, [], ◌∷◌, ◌==◌, arith, ==_iff,
}
use systems_projects.Threads.Queue.{Threadq}
use systems_projects.Threads.Sync.{Mutex}
use systems_projects.Threads.Schedule.{
  Manager, Switch, stay, assign, schedule, yield, mutex_lock, usleep,
}
use systems_projects.Threads.Exclusion.{World, world, taken}
use systems_projects.Threads.Exclusion.Places.{at_mutex, running, in_hand}
use systems_projects.Threads.Exclusion.Placed.{Placed, push_mutex-Placed}
use systems_projects.Threads.Exclusion.Sleepers.{None, Only, bind_some}
use systems_projects.Threads.Exclusion.Dispatch.{
  Turned, current_is, schedule_wait-Turned, schedule_yield-Turned, schedule_sleep-Turned,
}

-- The mutex is free, with no thread that waits for it, or one thread holds it.
abbrev pub Held : (locked : ℕ) (at : ℕ → ℕ) (hs : List ℕ) → Type 0
Held locked at hs =
    ((locked ≡ 0) × None at at_mutex × (hs ≡ [])) ⊎ ((h : ℕ) × (locked ≡ 1) × (hs ≡ h ∷ []))

-- Each thread is at one place, and the queues have the threads at theirs.
pub record Sound (w : World) : Type 0 where
  pub at : ℕ → ℕ
  pub placed : Placed w.manager w.mutex.queue w.condition at
  pub only : Only at running w.manager.current
  pub empty_hand : None at in_hand
  pub holds : Held w.mutex.locked at w.holders

pub Held-still :
    (locked : ℕ) (at at' : ℕ → ℕ) (hs : List ℕ)
    → ((a : ℕ) → (at' a == at_mutex) ≡ (at a == at_mutex))
    → Held locked at hs
    → Held locked at' hs
Held-still locked at at' hs still (inl (open_lock, none_wait, none_hold)) =
    inl (open_lock, λ a. still a ∙ none_wait a, none_hold)
Held-still locked at at' hs still (inr one) = inr one

-- What a turn of the next thread leaves.
pub Turned-Sound :
    (s' : Manager) (m : Mutex) (c : Threadq) (hs : List ℕ) (at : ℕ → ℕ)
    → Turned at m.queue c s'
    → Held m.locked at hs
    → Sound (world s' m c hs)
Turned-Sound s' m c hs at t holds = record {
  at = t.at';
  placed = t.placed;
  only = t.only;
  empty_hand = t.empty_hand;
  holds = Held-still m.locked at t.at' hs t.still holds;
}

module _ (s : Manager) (m : Mutex) (c : Threadq) (hs : List ℕ) (h : Sound (world s m c hs)) where
  pub on_processor : h.at s.current ≡ running
  on_processor = (==_iff (h.at s.current) running).0 (h.only s.current ∙ ground arith)

  pub yields-Sound : (p : Manager × Switch) → yield s ≡ some p → Sound (world p.0 m c hs)
  unfolding yield
  yields-Sound p e =
      Turned-Sound p.0 m c hs h.at
        (schedule_yield-Turned s m.queue c h.at p h.placed h.empty_hand h.only e) h.holds

  timed :
      (usecs : ℕ) (p : Manager × Switch) (clock : List ℕ)
      → s.clock ≡ clock
      → usleep usecs s ≡ some p
      → Sound (world p.0 m c hs)
  unfolding usleep
  timed usecs p [] at_end e =
      let (next, is) = h.placed.lines.threads s.current (omega (arith, on_processor)) in
      let stuck : usleep usecs s ≡ none = rw (is, at_end) refl in absurd (cc)
  timed usecs p (now ∷ clock) reading e =
      let (next, is) = h.placed.lines.threads s.current (omega (arith, on_processor)) in
      let s1 = record s {
        timing_information = assign s.timing_information s.current (now + usecs);
        clock = clock;
      } in
      Turned-Sound p.0 m c hs h.at
        (schedule_sleep-Turned s1 m.queue c h.at p
          (record { lines = h.placed.lines; lives = h.placed.lives }) h.empty_hand h.only
          (rw (is, reading) at e))
        h.holds

  pub sleeps-Sound :
      (usecs : ℕ) (p : Manager × Switch) → usleep usecs s ≡ some p → Sound (world p.0 m c hs)
  sleeps-Sound usecs p e = timed usecs p s.clock refl e

  -- The running thread takes the mutex, or waits for it.
  pub locks-Sound :
      (p : Manager × Mutex × Switch)
      → mutex_lock s m ≡ some p
      → Sound (world p.0 p.1 c (taken s m hs))
  unfolding mutex_lock
  locks-Sound p e = elim (h.holds) [
    | inl (open_lock, none_wait, none_hold) ↦
        let e' : mutex_lock s m ≡ some (s, record m { locked = 1 }, stay) = rw open_lock refl in
        let same : (s, record m { locked = 1 }, stay) ≡ p = cc in
        subst (λ (r : Manager × Mutex × Switch). Sound (world r.0 r.1 c (taken s m hs))) same
          (record {
            at = h.at;
            placed = h.placed;
            only = h.only;
            empty_hand = h.empty_hand;
            holds = inr (s.current, refl, rw (open_lock, none_hold) refl);
          })
    | inr (holder, full, one) ↦
        let on = on_processor in
        let shut : (m.locked == 0) ≡ false = ground (arith, full) in
        let (r, pushed, after) =
          push_mutex-Placed s m.queue c h.at h.placed s.current (omega (arith, on))
            (omega (arith, on)) (ground (arith, on)) in
        let s1 = record s { links = r.0 } in
        let (t, next, e') =
          bind_some (schedule 2 s1) (λ t. some (t.0, record m { queue = r.1 }, t.1)) p
            (rw (shut, pushed) at e) in
        let turned =
          schedule_wait-Turned s1 r.1 c (assign h.at s.current at_mutex) t after
            (λ a. ground (arith, h.empty_hand a)) (λ a. ground (arith, h.only a))
            (current_is s m.queue c h.at t h.placed h.empty_hand on) next in
        let same : (t.0, record m { queue = r.1 }, t.1) ≡ p = cc in
        subst (λ (r : Manager × Mutex × Switch). Sound (world r.0 r.1 c (taken s m hs))) same
          (Turned-Sound t.0 (record m { queue = r.1 }) c (taken s m hs)
            (assign h.at s.current at_mutex) turned (inr (holder, full, rw (full, one) refl)))
  ]
