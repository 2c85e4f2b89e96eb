-- ===== src/Threads/Schedule/Turns.antt =====
-- Which thread runs next.
use systems_projects.Prelude.{ℕ, ◌≡◌, refl, true, false, some, List, [], ◌∷◌, ◌++◌, arith, ◌==◌}
use systems_projects.Threads.Queue.Chain.{has, IsThread, has-append}
use systems_projects.Threads.Queue.Fifo.{
  IsQueue, IsQueue-frame, push_back-Pushed, pop_front-IsQueue,
}
use systems_projects.Threads.Sync.{Mutex}
use systems_projects.Threads.Schedule.{
  Manager, switch, push_runnable, switch_runnable, put_away, schedule, yield, mutex_lock,
}

-- The first runnable thread, alive and not the running one, goes on.
pub switch_runnable_lem :
    (s : Manager) (old r : ℕ) (rs : List ℕ)
    → IsQueue s.links s.runnable (r ∷ rs)
    → IsThread s.links r
    → (r == old) ≡ false
    → (s.dead r == 1) ≡ false
    → (s' : Manager) × (switch_runnable s old ≡ some (s', switch old r))
      × (s'.current ≡ r)
      × (s'.links ≡ s.links)
      × IsQueue s.links s'.runnable rs
unfolding switch_runnable
switch_runnable_lem s old r rs queue (v, is) ne alive =
    let (q, popped, rest) = pop_front-IsQueue s.links s.runnable r rs queue in
    (record s { runnable = q; current = r }, rw (popped, ne, is, alive), refl, refl, rest)

-- The threads that `s` has runnable, the first of them alive, and the running one, on no queue.
pub record Running (s : Manager) (r : ℕ) (rs : List ℕ) : Type 0 where
  pub runnable : IsQueue s.links s.runnable (r ∷ rs)
  pub first : IsThread s.links r
  pub alive : (s.dead r == 1) ≡ false
  pub thread : IsThread s.links s.current
  pub apart : has s.current (r ∷ rs) ≡ false

-- A yield puts the running thread behind the runnable ones, and the first of those goes on.
pub yield-Running :
    (s : Manager) (r : ℕ) (rs : List ℕ)
    → Running s r rs
    → (s' : Manager) × (yield s ≡ some (s', switch s.current r))
      × (s'.current ≡ r)
      × IsQueue s'.links s'.runnable (rs ++ (s.current ∷ []))
unfolding yield schedule put_away push_runnable
yield-Running s r rs h =
    let (p, e, pushed) =
      push_back-Pushed s.links s.runnable (r ∷ rs) s.current h.runnable h.thread h.apart in
    let s2 = record s { links = p.0; runnable = p.1 } in
    let (s', e', at, same, rest) =
      switch_runnable_lem s2 s.current r (rs ++ (s.current ∷ [])) pushed.queue
        (pushed.threads r h.first) (ground (arith, h.apart)) h.alive in
    let some_run : (s.runnable.size == 0) ≡ false = ground (arith, h.runnable.0) in
    let still : (p.1.size == 0) ≡ false = ground (arith, pushed.queue.0) in
    (s', rw (some_run, e, still) e', at, rw same rest)

pub schedule_wait :
    (s : Manager) → (s.runnable.size == 0) ≡ false → schedule 2 s ≡ switch_runnable s s.current
unfolding schedule put_away
schedule_wait s some_run = rw (some_run, some_run) refl

-- Locking a mutex that is held puts the running thread behind those that wait for it, and the first
-- runnable thread goes on; the mutex stays locked.
pub mutex_lock-Running :
    (s : Manager) (m : Mutex) (r : ℕ) (rs ws : List ℕ)
    → Running s r rs
    → IsQueue s.links m.queue ws
    → ((a : ℕ) → has a (r ∷ rs) ≡ true → has a ws ≡ false)
    → has s.current ws ≡ false
    → (m.locked == 0) ≡ false
    → (s' : Manager) × (m' : Mutex) × (mutex_lock s m ≡ some (s', m', switch s.current r))
      × (s'.current ≡ r)
      × (m'.locked ≡ m.locked)
      × IsQueue s'.links m'.queue (ws ++ (s.current ∷ []))
      × IsQueue s'.links s'.runnable rs
unfolding mutex_lock
mutex_lock-Running s m r rs ws h waiting apart out held =
    let (p, e, pushed) = push_back-Pushed s.links m.queue ws s.current waiting h.thread out in
    let s1 = record s { links = p.0 } in
    let ready =
      IsQueue-frame s.links p.0 s.runnable (r ∷ rs) (λ a k. pushed.same a (elsewhere a k))
        h.runnable in
    let (s', e', at, same, rest) =
      switch_runnable_lem s1 s.current r rs ready (pushed.threads r h.first)
        (ground (arith, h.apart)) h.alive in
    let some_run : (s.runnable.size == 0) ≡ false = ground (arith, h.runnable.0) in
    (
      s',
      record m { queue = p.1 },
      rw (held, e) (rw (schedule_wait s1 some_run, e') refl),
      at,
      refl,
      rw same pushed.queue,
      rw same rest,
    )
  where
    elsewhere : (a : ℕ) → has a (r ∷ rs) ≡ true → has a (ws ++ (s.current ∷ [])) ≡ false
    elsewhere a k = ground (arith, has-append a ws (s.current ∷ []), apart a k, h.apart)
