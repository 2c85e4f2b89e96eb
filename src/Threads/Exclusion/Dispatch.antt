-- ===== src/Threads/Exclusion/Dispatch.antt =====
-- How the scheduler finds the next thread, of those that are runnable or, where there are none, of those
-- that sleep.
use mathlib.Core.Path.{subst}
use systems_projects.Prelude.{
  ℕ, ◌≡◌, refl, sym, ◌∙◌, ◌⊎◌, inl, inr, false, Option, none, some, ◌==◌, if◌then◌else◌, arith,
  Bool-cases, ==_iff, ◌>>=◌,
}
use systems_projects.Threads.Queue.{Threadq, null}
use systems_projects.Threads.Schedule.{
  Manager, Switch, push_runnable, push_sleeping, stay, switch, assign, wake_sleeping_threads,
  switch_runnable, put_away, schedule,
}
use systems_projects.Threads.Exclusion.Places.{at_runnable, at_sleeping, at_mutex, running, in_hand}
use systems_projects.Threads.Exclusion.Placed.{
  queues, Placed, Placed-move, push_runnable-Placed, push_sleeping-Placed, pop_runnable-Taken,
}
use systems_projects.Threads.Exclusion.Places.Lines.{null-nowhere}
use systems_projects.Threads.Exclusion.Sleepers.{
  bind_some, None, Only, Still, wake_sleeping_threads-Woken,
}

-- A thread is the running one.
pub record Turned (at : ℕ → ℕ) (m c : Threadq) (s' : Manager) : Type 0 where
  pub at' : ℕ → ℕ
  pub placed : Placed s' m c at'
  pub only : Only at' running s'.current
  pub empty_hand : None at' in_hand
  pub still : Still at at' at_mutex

module _ (m c : Threadq) (s : Manager) (at : ℕ → ℕ) (old : ℕ) (h : Placed s m c at)
    (idle : None at running) (hand : None at in_hand) (is : (null == old) ≡ false) where
  -- With no thread runnable, a fault.
  pub switch_runnable-Turned :
      ((s.runnable.size ≡ 0) × (switch_runnable s old ≡ none) × None at at_runnable)
      ⊎ ((p : Manager × Switch) × (switch_runnable s old ≡ some p)
          × ((s.runnable.size == 0) ≡ false)
          × Turned at m c p.0)
  unfolding switch_runnable
  switch_runnable-Turned = elim (pop_runnable-Taken s m c at h) [
    | inl (empty, popped, off) ↦ inl (empty, rw (popped, is, h.lines.absent) refl, off)
    | inr (x, q, on, full, popped, after) ↦
        let at1 = assign at x in_hand in
        let there : at1 x ≡ in_hand = ground arith in
        let s' = record s { runnable = q; current = x } in
        let moved =
          Placed-move (record s { runnable = q }) m c at1 after x running (omega (arith, there))
            (omega (arith, there)) (ground (arith, there)) (omega arith) (omega arith) in
        let turned : Turned at m c s' = record {
          at' = assign at1 x running;
          placed = record { lines = moved.lines; lives = moved.lives };
          only = λ a. ground (arith, idle a);
          empty_hand = λ a. ground (arith, hand a);
          still = λ a. ground (arith, on);
        } in
        let (v, next) = h.lines.threads x (omega (arith, on)) in
        let alive = h.lives.alive x (omega (arith, on)) in
        elim (Bool-cases (x == old)) [
          | inl same ↦ inr ((s', stay), rw (popped, same) refl, full, turned)
          | inr ne ↦ inr ((s', switch old x), rw (popped, ne, next, alive) refl, full, turned)
        ]
  ]

pub Turned-before :
    (at at1 : ℕ → ℕ) (m c : Threadq) (s' : Manager)
    → Still at at1 at_mutex
    → Turned at1 m c s'
    → Turned at m c s'
Turned-before at at1 m c s' still w = record {
  at' = w.at';
  placed = w.placed;
  only = w.only;
  empty_hand = w.empty_hand;
  still = λ a. w.still a ∙ still a;
}

-- What `schedule` does when the running thread is put away.
abbrev dispatch : Manager → (old : ℕ) → Option (Manager × Switch)
dispatch s old = do
  s3 ← if s.runnable.size == 0 then wake_sleeping_threads s else some s
  switch_runnable s3 old

module _ (m c : Threadq) (old : ℕ) (p : Manager × Switch) (is : (null == old) ≡ false) where
  chosen :
      (s : Manager) (at : ℕ → ℕ)
      → Placed s m c at
      → None at running
      → None at in_hand
      → switch_runnable s old ≡ some p
      → Turned at m c p.0
  chosen s at h idle hand e = elim (switch_runnable-Turned m c s at old h idle hand is) [
    | inl (empty, stuck, off) ↦ absurd (cc)
    | inr (p', runs, full, turned) ↦
        let same : p' ≡ p = cc in subst (λ (r : Manager × Switch). Turned at m c r.0) same turned
  ]

  module _ (s : Manager) (at : ℕ → ℕ) (h : Placed s m c at) (idle : None at running)
      (hand : None at in_hand) where
    after_wake :
        (s3 : Manager)
        → wake_sleeping_threads s ≡ some s3
        → switch_runnable s3 old ≡ some p
        → Turned at m c p.0
    after_wake s3 wake e = elim (wake_sleeping_threads-Woken s m c at s3 h hand wake) [
      | inl same ↦ chosen s at h idle hand (rw same e)
      | inr w ↦
          Turned-before at w.at' m c p.0 w.still
            (chosen s3 w.at' w.placed (λ a. w.runs a ∙ idle a) w.empty_hand e)
    ]

    dispatch-Turned : dispatch s old ≡ some p → Turned at m c p.0
    dispatch-Turned e = elim (Bool-cases (s.runnable.size == 0)) [
      | inl empty ↦
          let (s3, wake, e') =
            bind_some (wake_sleeping_threads s) (λ s3. switch_runnable s3 old) p (rw empty at e) in
          after_wake s3 wake e'
      | inr full ↦ chosen s at h idle hand (rw full at e)
    ]

module _ (s : Manager) (m c : Threadq) (at : ℕ → ℕ) (p : Manager × Switch) (h : Placed s m c at)
    (hand : None at in_hand) where
  pub current_is : at s.current ≡ running → (null == s.current) ≡ false
  current_is on = elim (Bool-cases (null == s.current)) [
    | inl same ↦ ground (arith, null-nowhere s.links (queues s m c) at h.lines)
    | inr ne ↦ ne
  ]

  -- The running thread has gone to a queue already.
  pub schedule_wait-Turned :
      None at running → (null == s.current) ≡ false → schedule 2 s ≡ some p → Turned at m c p.0
  unfolding schedule put_away
  schedule_wait-Turned idle is e = elim (Bool-cases (s.runnable.size == 0)) [
    | inl empty ↦ dispatch-Turned m c s.current p is s at h idle hand (rw empty at e)
    | inr full ↦ dispatch-Turned m c s.current p is s at h idle hand (rw full at e)
  ]

  module _ (only : Only at running s.current) where
    -- The running thread is the last of the runnable ones.
    pub schedule_yield-Turned : schedule 0 s ≡ some p → Turned at m c p.0
    unfolding schedule put_away push_runnable
    schedule_yield-Turned e =
        let on : at s.current ≡ running = (==_iff _ _).0 (only s.current ∙ ground arith) in
        let (r, pushed, after) =
          push_runnable-Placed s m c at h s.current (omega (arith, on)) (omega (arith, on))
            (ground (arith, on)) in
        let s2 = record s { links = r.0; runnable = r.1 } in
        let at2 = assign at s.current at_runnable in
        let put : schedule 0 s ≡ dispatch s2 s.current = elim (Bool-cases (s.runnable.size == 0)) [
          | inl empty ↦ rw (empty, pushed) refl
          | inr full ↦ rw (full, pushed) refl
        ] in
        Turned-before at at2 m c p.0 (λ a. ground (arith, on))
          (dispatch-Turned m c s.current p (current_is on) s2 at2 after
            (λ a. ground (arith, only a)) (λ a. ground (arith, hand a)) (sym put ∙ e))

    -- The running thread is the last of those that sleep.
    pub schedule_sleep-Turned : schedule 3 s ≡ some p → Turned at m c p.0
    unfolding schedule put_away push_sleeping
    schedule_sleep-Turned e =
        let on : at s.current ≡ running = (==_iff _ _).0 (only s.current ∙ ground arith) in
        let (r, pushed, after) =
          push_sleeping-Placed s m c at h s.current (omega (arith, on)) (omega (arith, on))
            (ground (arith, on)) in
        let s2 = record s { links = r.0; sleeping = r.1 } in
        let at2 = assign at s.current at_sleeping in
        let put : schedule 3 s ≡ dispatch s2 s.current = elim (Bool-cases (s.runnable.size == 0)) [
          | inl empty ↦ rw (empty, pushed, empty) refl
          | inr full ↦ rw (full, pushed, full) refl
        ] in
        Turned-before at at2 m c p.0 (λ a. ground (arith, on))
          (dispatch-Turned m c s.current p (current_is on) s2 at2 after
            (λ a. ground (arith, only a)) (λ a. ground (arith, hand a)) (sym put ∙ e))

  -- The running thread has ended.
  pub schedule_exit-Turned :
      None at running → (null == s.current) ≡ false → schedule 1 s ≡ some p → Turned at m c p.0
  unfolding schedule put_away
  schedule_exit-Turned idle is e = elim (Bool-cases (s.runnable.size == 0)) [
    | inl empty ↦
        let (s1, wake, e') =
          bind_some (wake_sleeping_threads s) (λ s1. dispatch s1 s.current) p (rw empty at e) in
        elim (wake_sleeping_threads-Woken s m c at s1 h hand wake) [
          | inl same ↦
              dispatch-Turned m c s.current p is s at h idle hand
                (subst (λ r. dispatch r s.current ≡ some p) (sym same) e')
          | inr w ↦ Turned-before at w.at' m c p.0 w.still (
              dispatch-Turned m c s.current p is s1 w.at' w.placed (λ a. w.runs a ∙ idle a)
                w.empty_hand e')
        ]
    | inr full ↦ dispatch-Turned m c s.current p is s at h idle hand (rw full at e)
  ]
