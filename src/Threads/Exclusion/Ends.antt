-- ===== src/Threads/Exclusion/Ends.antt =====
-- So does the end of a thread.
use systems_projects.Prelude.{ℕ, ◌≡◌, inl, inr, true, false, some, List, ◌==◌, arith, Bool-cases}
use systems_projects.Threads.Queue.{Links, Threadq, null, push_back}
use systems_projects.Threads.Sync.{Mutex}
use systems_projects.Threads.Schedule.{Manager, Switch, assign, push_runnable, exit_thread}
use systems_projects.Threads.Exclusion.{world}
use systems_projects.Threads.Exclusion.Places.{at_runnable, running, joining, in_hand, nowhere}
use systems_projects.Threads.Exclusion.Places.Lines.{Lines}
use systems_projects.Threads.Exclusion.Placed.{
  queues, Lives, Placed, Lines-move, push_runnable-Placed,
}
use systems_projects.Threads.Exclusion.Dispatch.{current_is, schedule_exit-Turned}
use systems_projects.Threads.Exclusion.Locks.{Sound, Held-still, Turned-Sound, on_processor}

abbrev pub ended : Manager → (val : ℕ) → Manager
ended s val = record s {
  return_val = assign s.return_val s.current val;
  dead = assign s.dead s.current 1;
}

-- The running thread `r` ends, and the thread that waits for it, if one does, is in hand.
module _ (at dead waiter : ℕ → ℕ) (r : ℕ) (l : Lives at dead waiter) (on : at r ≡ running) where
  alone-Lives : Lives (assign at r nowhere) (assign dead r 1) waiter
  alone-Lives = record {
    alive = λ a k. ground (arith, l.alive a);
    joined = λ a k. ground (arith, on, l.joined a);
    unique = λ a b k k' e. ground (arith, on, l.unique a b);
  }

  awaited-Lives :
      (waiter r == null) ≡ false
      → Lives (assign (assign at r nowhere) (waiter r) in_hand) (assign dead r 1) waiter
  awaited-Lives is = record {
    alive = λ a k. ground (arith, on, l.alive a, l.joined r);
    joined = λ a k. ground (arith, on, l.joined a, l.unique a r, l.joined r);
    unique = λ a b k k' e. ground (arith, on, l.unique a b, l.joined a, l.joined r);
  }

module _ (s : Manager) (m : Mutex) (c : Threadq) (hs : List ℕ) (h : Sound (world s m c hs)) where
  -- The running thread is on no queue and is to be found nowhere.
  gone : (Lines s.links (queues s m.queue c) (assign h.at s.current nowhere))
  gone =
      let on = on_processor s m c hs h in
      Lines-move s.links (queues s m.queue c) h.at s.current nowhere h.placed.lines
        (omega (arith, on)) (omega arith) (inl (omega (arith, on))) (omega (arith, on))

  -- No thread waits for it.
  pub alone-Placed : (val : ℕ) → Placed (ended s val) m.queue c (assign h.at s.current nowhere)
  alone-Placed val =
      let on = on_processor s m c hs h in
      record { lines = gone; lives = alone-Lives h.at s.dead s.waiter s.current h.placed.lives on }

  -- The thread that waits for it is put behind the runnable ones.
  pub awaited-Placed :
      (val : ℕ)
      → (s.waiter s.current == null) ≡ false
      → (h.at (s.waiter s.current) ≡ joining)
        × (r : Links × Threadq) × (push_back s.links s.runnable (s.waiter s.current) ≡ some r)
        × Placed
            (record (ended s val) { links = r.0; runnable = r.1 })
            m.queue
            c
            (assign
              (assign (assign h.at s.current nowhere) (s.waiter s.current) in_hand)
              (s.waiter s.current)
              at_runnable)
  awaited-Placed val one_waits =
      let on = on_processor s m c hs h in
      let w = s.waiter s.current in
      let waits : h.at w ≡ joining =
        ground (arith, one_waits, h.placed.lives.joined s.current, on) in
      let at1 = assign h.at s.current nowhere in
      let still : at1 w ≡ joining = ground (arith, on, waits) in
      let at2 = assign at1 w in_hand in
      let there : at2 w ≡ in_hand = ground arith in
      let (r, pushed, placed) =
        push_runnable-Placed (ended s val) m.queue c at2
          (record {
            lines =
                Lines-move s.links (queues s m.queue c) at1 w in_hand gone (omega (arith, still))
                  (omega arith) (inr (omega arith)) (omega (arith, still));
            lives = awaited-Lives h.at s.dead s.waiter s.current h.placed.lives on one_waits;
          })
          w (omega (arith, there)) (omega (arith, there)) (ground (arith, there)) in
      (waits, r, pushed, placed)

  exits-alone :
      (val : ℕ) (p : Manager × Switch)
      → (s.waiter s.current == null) ≡ true
      → exit_thread val s ≡ some p
      → Sound (world p.0 m c hs)
  unfolding exit_thread
  exits-alone val p none_waits e =
      let on = on_processor s m c hs h in
      let (next, is) = h.placed.lines.threads s.current (omega (arith, on)) in
      let at1 = assign h.at s.current nowhere in
      let turned =
        schedule_exit-Turned (ended s val) m.queue c at1 p (alone-Placed val)
          (λ a. ground (arith, h.empty_hand a)) (λ a. ground (arith, h.only a))
          (current_is s m.queue c h.at p h.placed h.empty_hand on) (rw (is, none_waits) at e) in
      Turned-Sound p.0 m c hs at1 turned
        (Held-still m.locked h.at at1 hs (λ a. ground (arith, on)) h.holds)

  exits-awaited :
      (val : ℕ) (p : Manager × Switch)
      → (s.waiter s.current == null) ≡ false
      → exit_thread val s ≡ some p
      → Sound (world p.0 m c hs)
  unfolding exit_thread push_runnable
  exits-awaited val p one_waits e =
      let on = on_processor s m c hs h in
      let (next, is) = h.placed.lines.threads s.current (omega (arith, on)) in
      let w = s.waiter s.current in
      let (waits, r, pushed, placed) = awaited-Placed val one_waits in
      let at3 = assign (assign (assign h.at s.current nowhere) w in_hand) w at_runnable in
      let turned =
        schedule_exit-Turned (record (ended s val) { links = r.0; runnable = r.1 }) m.queue c at3 p
          placed (λ a. ground (arith, h.empty_hand a)) (λ a. ground (arith, h.only a))
          (current_is s m.queue c h.at p h.placed h.empty_hand on)
          (rw (is, one_waits, pushed) at e) in
      Turned-Sound p.0 m c hs at3 turned
        (Held-still m.locked h.at at3 hs (λ a. ground (arith, on, waits)) h.holds)

  pub exits-Sound :
      (val : ℕ) (p : Manager × Switch) → exit_thread val s ≡ some p → Sound (world p.0 m c hs)
  exits-Sound val p e = elim (Bool-cases (s.waiter s.current == null)) [
    | inl none_waits ↦ exits-alone val p none_waits e
    | inr one_waits ↦ exits-awaited val p one_waits e
  ]
