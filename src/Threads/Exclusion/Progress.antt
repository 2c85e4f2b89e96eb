-- ===== src/Threads/Exclusion/Progress.antt =====
-- What does not fault while another thread is runnable: the operations on the mutex and the condition,
-- and the yield.
pub mod Lifetimes
use systems_projects.Prelude.{
  ℕ, ◌+◌, ◌<◌, ◌≡◌, refl, sym, ◌∙◌, ◌⊎◌, inl, inr, Option, true, false, none, some, List, [], ◌∷◌,
  ◌==◌, ◌&&◌, ltb, ◌>>=◌, if◌then◌else◌, arith, Bool-cases, ==_iff,
}
use systems_projects.Threads.Queue.{Links, Threadq, null, push_back}
use systems_projects.Threads.Queue.Chain.{IsThread}
use systems_projects.Threads.Sync.{Ready, Mutex, mutex_unlock, cond_signal, cond_broadcast}
use systems_projects.Threads.Schedule.{
  Manager, Switch, stay, assign, ready, push_runnable, push_sleeping, put_away, switch_runnable,
  schedule, yield, mutex_lock, cond_wait, usleep, create, exit_thread, join, join_round,
}
use systems_projects.Threads.Exclusion.{world, with_ready}
use systems_projects.Threads.Exclusion.Places.{
  at_runnable, at_mutex, at_condition, running, joining, in_hand,
}
use systems_projects.Threads.Exclusion.Places.Lines.{null-nowhere}
use systems_projects.Threads.Exclusion.Placed.{
  queues, Placed, Placed-move, push_runnable-Placed, push_mutex-Placed, push_condition-Placed,
  push_sleeping-Placed, pop_runnable-Taken, pop_mutex-Taken,
}
use systems_projects.Threads.Exclusion.Sleepers.{None, Only}
use systems_projects.Threads.Exclusion.Dispatch.{switch_runnable-Turned, current_is}
use systems_projects.Threads.Exclusion.Locks.{Sound, on_processor}
use systems_projects.Threads.Exclusion.Unlocks.{made_runnable}
use systems_projects.Threads.Exclusion.Signals.{signalled, all_signalled}

-- The computation gives a result.
abbrev pub Runs : {A : Type 0} → Option A → Type 0
Runs {A} o = (a : A) × (o ≡ some a)

module _ (s : Manager) (m c : Threadq) (at : ℕ → ℕ) (h : Placed s m c at) where
  pub some_runnable : (s.runnable.size == 0) ≡ false → (x : ℕ) × (at x ≡ at_runnable)
  some_runnable full = elim (pop_runnable-Taken s m c at h) [
    | inl (empty, popped, off) ↦ absurd (ground (arith, empty))
    | inr (x, q, on, full', popped, rest) ↦ (x, on)
  ]

  pub runnable_full : (x : ℕ) → at x ≡ at_runnable → (s.runnable.size == 0) ≡ false
  runnable_full x on = elim (pop_runnable-Taken s m c at h) [
    | inl (empty, popped, off) ↦ absurd (ground (arith, off x, on))
    | inr (y, q, on', full, popped, rest) ↦ full
  ]

  -- With a thread that is runnable, another one goes on.
  module _ (x : ℕ) (on : at x ≡ at_runnable) (idle : None at running) (hand : None at in_hand) where
    pub switched : (old : ℕ) → (null == old) ≡ false → Runs (switch_runnable s old)
    switched old is = elim (switch_runnable-Turned m c s at old h idle hand is) [
      | inl (empty, stuck, off) ↦ absurd (ground (arith, off x, on))
      | inr (p, runs, full, turned) ↦ (p, runs)
    ]

    pub waited : (null == s.current) ≡ false → Runs (schedule 2 s)
    unfolding schedule put_away
    waited is =
        let full = runnable_full x on in
        let (p, runs) = switched s.current is in (p, rw (full, full) runs)

    pub ended_runs : (null == s.current) ≡ false → Runs (schedule 1 s)
    unfolding schedule put_away
    ended_runs is =
        let full = runnable_full x on in
        let (p, runs) = switched s.current is in (p, rw (full, full) runs)

module _ (s : Manager) (m : Mutex) (c : Threadq) (hs : List ℕ) (h : Sound (world s m c hs)) where
  pub is_thread : (null == s.current) ≡ false
  is_thread = ground (
    arith,
    null-nowhere s.links (queues s m.queue c) h.at h.placed.lines,
    on_processor s m c hs h,
  )

  pub signal_runs : Runs (cond_signal (ready s) c)
  signal_runs = let (p, done, less, sound) = signalled s m c hs h in (p, done)

  pub broadcast_runs : Runs (cond_broadcast (ready s) c)
  unfolding cond_broadcast
  broadcast_runs = all_signalled (c.size + 1) s m c hs h (omega arith)

  pub yield_runs : Runs (yield s)
  unfolding yield schedule put_away push_runnable
  yield_runs =
      let on = on_processor s m c hs h in
      let (r, pushed, placed) =
        push_runnable-Placed s m.queue c h.at h.placed s.current (omega (arith, on))
          (omega (arith, on)) (ground (arith, on)) in
      let at1 = assign h.at s.current at_runnable in
      let s1 = record s { links = r.0; runnable = r.1 } in
      let there : at1 s.current ≡ at_runnable = ground arith in
      let full = runnable_full s1 m.queue c at1 placed s.current there in
      let (p, runs) =
        switched s1 m.queue c at1 placed s.current there (λ a. ground (arith, h.only a))
          (λ a. ground (arith, h.empty_hand a)) s.current is_thread in
      elim (Bool-cases (s.runnable.size == 0)) [
        | inl empty ↦ (p, rw (empty, pushed, full) runs)
        | inr some_run ↦ (p, rw (some_run, pushed, full) runs)
      ]

  -- Unlocking does not fault, whoever holds the mutex.
  unlocked :
      (p : Ready × Mutex) × (mutex_unlock (ready s) m ≡ some p)
      × (at' : ℕ → ℕ) × Placed (with_ready s p.0) p.1.queue c at'
      × Only at' running s.current
      × None at' in_hand
      × ((x : ℕ) → h.at x ≡ at_runnable → at' x ≡ at_runnable)
  unfolding mutex_unlock
  unlocked = elim (pop_mutex-Taken s m.queue c h.at h.placed) [
    | inl (empty, popped, off) ↦ (
      (ready s, record m { locked = 0 }),
      rw empty refl,
      h.at,
      h.placed,
      h.only,
      h.empty_hand,
      λ x on. on,
    )
    | inr (x, q, on, some_wait, popped, rest) ↦
        let at1 = assign h.at x in_hand in
        let there : at1 x ≡ in_hand = ground arith in
        let (r, made, placed) = made_runnable s q c at1 x rest there in
        let test : ltb 0 m.queue.size ≡ true = ground (arith, some_wait) in
        let is : (x == null) ≡ false =
          ground (arith, null-nowhere s.links (queues s m.queue c) h.at h.placed.lines, on) in
        (
          (r, record m { queue = q }),
          rw (test, popped, is, made) refl,
          assign at1 x at_runnable,
          placed,
          λ a. ground (arith, h.only a, on),
          λ a. ground (arith, h.empty_hand a),
          λ y on'. ground (arith, on'),
        )
  ]

  pub unlock_runs : Runs (mutex_unlock (ready s) m)
  unlock_runs = let (p, done, at', placed, only, hand, still) = unlocked in (p, done)

  module _ (x : ℕ) (there : h.at x ≡ at_runnable) where
    pub lock_runs : Runs (mutex_lock s m)
    unfolding mutex_lock
    lock_runs = elim (Bool-cases (m.locked == 0)) [
      | inl open_lock ↦ ((s, record m { locked = 1 }, stay), rw open_lock refl)
      | inr shut ↦
          let on = on_processor s m c hs h in
          let (r, pushed, placed) =
            push_mutex-Placed s m.queue c h.at h.placed s.current (omega (arith, on))
              (omega (arith, on)) (ground (arith, on)) in
          let at1 = assign h.at s.current at_mutex in
          let (p, runs) =
            waited (record s { links = r.0 }) r.1 c at1 placed x (ground (arith, there, on))
              (λ a. ground (arith, h.only a)) (λ a. ground (arith, h.empty_hand a)) is_thread in
          ((p.0, record m { queue = r.1 }, p.1), rw (shut, pushed, runs) refl)
    ]

    pub wait_runs : Runs (cond_wait s c m)
    unfolding cond_wait
    wait_runs =
        let (u, done, at', placed', only, empty_hand, still) = unlocked in
        let s1 = with_ready s u.0 in
        let on : at' s.current ≡ running = (==_iff _ _).0 (only s.current ∙ ground arith) in
        let (r, pushed, placed) =
          push_condition-Placed s1 u.1.queue c at' placed' s.current (omega (arith, on))
            (omega (arith, on)) (ground (arith, on)) in
        let at1 = assign at' s.current at_condition in
        let (p, runs) =
          waited (record s1 { links = r.0 }) u.1.queue r.1 at1 placed x
            (ground (arith, still x there, on)) (λ a. ground (arith, only a))
            (λ a. ground (arith, empty_hand a)) is_thread in
        ((p.0, r.1, u.1, p.1), rw (done, pushed, runs) refl)
