-- ===== src/Threads/Schedule/Ends.antt =====
-- The end of a thread, and of a sleep.
use systems_projects.Prelude.{
  ℕ, ◌+◌, ◌≤◌, ◌<◌, ◌≡◌, refl, ◌∙◌, true, false, some, List, [], ◌∷◌, ◌++◌, All, arith, ltb, ◌==◌,
}
use systems_projects.Threads.Queue.{Links, Threadq, null, update, write_next, push_back, pop_front}
use systems_projects.Threads.Queue.Chain.{has, IsThread}
use systems_projects.Threads.Queue.Fifo.{IsQueue, push_back-Pushed}
use systems_projects.Threads.Schedule.{
  Manager, stay, switch, push_runnable, push_sleeping, wake_loop, wake_sleeping_threads,
  switch_runnable, put_away, schedule, exit_thread, usleep, assign,
}
use systems_projects.Threads.Schedule.Turns.{Running, switch_runnable_lem}

schedule_exit :
    (s : Manager) → (s.runnable.size == 0) ≡ false → schedule 1 s ≡ switch_runnable s s.current
unfolding schedule put_away
schedule_exit s some_run = rw (some_run, some_run) refl

-- A thread that ends puts the one that joins it, if that is a thread that is not runnable, behind
-- the runnable ones, and the first of those goes on.
pub exit_thread-Running :
    (s : Manager) (r val : ℕ) (rs : List ℕ)
    → Running s r rs
    → (s.waiter s.current == null) ≡ false
    → IsThread s.links (s.waiter s.current)
    → has (s.waiter s.current) (r ∷ rs) ≡ false
    → (s' : Manager) × (exit_thread val s ≡ some (s', switch s.current r))
      × (s'.current ≡ r)
      × IsQueue s'.links s'.runnable (rs ++ (s.waiter s.current ∷ []))
unfolding exit_thread push_runnable
exit_thread-Running s r val rs h joined is out =
    let w = s.waiter s.current in
    let (p, e, pushed) = push_back-Pushed s.links s.runnable (r ∷ rs) w h.runnable is out in
    let s2 = record s {
      return_val = assign s.return_val s.current val;
      dead = assign s.dead s.current 1;
      links = p.0;
      runnable = p.1;
    } in
    let (s', e', at, same, rest) =
      switch_runnable_lem s2 s.current r (rs ++ (w ∷ [])) pushed.queue (pushed.threads r h.first)
        (ground (arith, h.apart)) (ground (arith, h.apart, h.alive)) in
    let some_run : (p.1.size == 0) ≡ false = ground (arith, pushed.queue.0) in
    (s', rw (h.thread.1, joined, e) (rw (schedule_exit s2 some_run, e') refl), at, rw same rest)

-- Readings before the time is due are passed over, as long as no other thread sleeps.
wake_loop-early :
    (early clock : List ℕ) (now : ℕ) (s : Manager) (head : ℕ)
    → s.links head ≡ some null
    → All (λ t. t < s.timing_information head) early
    → s.timing_information head ≤ now
    → wake_loop (early ++ (now ∷ clock)) s head ≡ push_runnable (record s { clock = clock }) head
unfolding wake_loop
wake_loop-early [] clock now s head last h due =
    let no : ltb now (s.timing_information head) ≡ false = ground arith in rw (last, no) refl
wake_loop-early (t ∷ early) clock now s head last h due =
    let yes : ltb t (s.timing_information head) ≡ true = ground (arith, h.0) in
    rw (last, yes) (wake_loop-early early clock now s head last h.1 due)

-- The queue of one thread, and memory with its link cleared.
abbrev single : ℕ → Threadq
single t = record { front = t; end = t; size = 1 }

abbrev cleared : Links → ℕ → Links
cleared h t = update h t (some null)

push_back-none :
    (h : Links) (q : Threadq) (t v : ℕ)
    → h t ≡ some v
    → q.size ≡ 0
    → push_back h q t ≡ some (cleared h t, single t)
unfolding push_back write_next
push_back-none h q t v e size = rw (e, size) refl

cleared_lem : (h : Links) (t : ℕ) → cleared h t t ≡ some null
cleared_lem h t = ground arith

pop_front-single :
    (h : Links) (t : ℕ)
    → h t ≡ some null
    → pop_front h (single t) ≡ some (t, record { front = null; end = null; size = 0 })
unfolding pop_front
pop_front-single h t e = rw e refl

-- A thread alone in the sleeping set, until it is due.
wake_alone :
    (s : Manager) (t now : ℕ) (early clock : List ℕ)
    → s.links t ≡ some null
    → s.runnable.size ≡ 0
    → All (λ x. x < s.timing_information t) early
    → s.timing_information t ≤ now
    → wake_sleeping_threads (record s { sleeping = single t; clock = early ++ (now ∷ clock) })
      ≡ some (record s {
        links = cleared s.links t;
        runnable = single t;
        sleeping = record { front = null; end = null; size = 0 };
        clock = clock;
      })
unfolding wake_sleeping_threads push_runnable
wake_alone s t now early clock free none_run h due =
    let s1 = record s {
      sleeping = record { front = null; end = null; size = 0 };
      clock = early ++ (now ∷ clock);
    } in
    rw (pop_front-single s.links t free) (
      wake_loop-early early clock now s1 t free h due
      ∙ rw (push_back-none s.links s.runnable t null free none_run) refl)

schedule_sleep :
    (s s1 s2 : Manager)
    → s.runnable.size ≡ 0
    → push_sleeping s s.current ≡ some s1
    → s1.runnable.size ≡ 0
    → wake_sleeping_threads s1 ≡ some s2
    → schedule 3 s ≡ switch_runnable s2 s.current
unfolding schedule put_away
schedule_sleep s s1 s2 none_run e still woken =
    let b : (s.runnable.size == 0) ≡ true = ground arith in
    let b1 : (s1.runnable.size == 0) ≡ true = ground arith in rw (b, e) (rw (b1, woken) refl)

switch_runnable-single :
    (s : Manager) (t : ℕ)
    → s.links t ≡ some null
    → switch_runnable (record s { runnable = single t }) t
      ≡ some
          (record s { runnable = record { front = null; end = null; size = 0 }; current = t }, stay)
unfolding switch_runnable
switch_runnable-single s t free =
    let self : (t == t) ≡ true = ground arith in rw (pop_front-single s.links t free, self) refl

-- A sleep while no other thread is runnable or asleep reads the clock until the time has come, and
-- then goes on as the thread that it was, with both queues empty.
pub usleep-alone :
    (s : Manager) (v start usecs now : ℕ) (early clock : List ℕ)
    → s.links s.current ≡ some v
    → s.runnable.size ≡ 0
    → s.sleeping.size ≡ 0
    → s.clock ≡ start ∷ (early ++ (now ∷ clock))
    → All (λ t. t < start + usecs) early
    → start + usecs ≤ now
    → (s' : Manager) × (usleep usecs s ≡ some (s', stay))
      × (s'.current ≡ s.current)
      × (s'.clock ≡ clock)
      × (s'.runnable.size ≡ 0)
      × (s'.sleeping.size ≡ 0)
unfolding usleep push_sleeping
usleep-alone s v start usecs now early clock is none_run none_sleep times h due =
    let c = s.current in
    let s1 = record s {
      timing_information = assign s.timing_information c (start + usecs);
      clock = early ++ (now ∷ clock);
      links = cleared s.links c;
      sleeping = single c;
    } in
    let due_at : s1.timing_information c ≡ start + usecs = ground arith in
    let woken =
      wake_alone s1 c now early clock (cleared_lem s.links c) none_run (rw due_at h)
        (omega (arith, due_at)) in
    let none_left : Threadq = record { front = null; end = null; size = 0 } in
    let s0 = record s {
      timing_information = assign s.timing_information c (start + usecs);
      clock = early ++ (now ∷ clock);
    } in
    let s2 = record s1 {
      links = cleared s1.links c;
      sleeping = none_left;
      clock = clock;
      runnable = single c;
    } in
    let asleep : push_sleeping s0 c ≡ some s1 =
      rw (push_back-none s.links s.sleeping c v is none_sleep) refl in
    let run = schedule_sleep s0 s1 s2 none_run asleep none_run woken in
    (
      record s2 { runnable = none_left },
      rw (is, times) (run ∙ switch_runnable-single s2 c (cleared_lem s1.links c)),
      refl,
      refl,
      refl,
      refl,
    )
