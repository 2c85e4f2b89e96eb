-- ===== src/Threads/Exclusion/Progress/Lifetimes.antt =====
-- What does not fault: the operations on threads.
use systems_projects.Prelude.{
  ℕ, ◌+◌, ◌≡◌, refl, inl, inr, false, none, some, List, ◌∷◌, ◌==◌, arith, Bool-cases,
}
use systems_projects.Threads.Queue.{Threadq, null}
use systems_projects.Threads.Queue.Chain.{IsThread}
use systems_projects.Threads.Sync.{Mutex, mutex_unlock, cond_signal, cond_broadcast}
use systems_projects.Threads.Schedule.{
  Manager, stay, assign, ready, push_runnable, push_sleeping, put_away, schedule, yield, mutex_lock,
  cond_wait, usleep, create, exit_thread, join, join_round,
}
use systems_projects.Threads.Exclusion.{world}
use systems_projects.Threads.Exclusion.Places.{at_runnable, at_sleeping, joining, in_hand, nowhere}
use systems_projects.Threads.Exclusion.Placed.{push_runnable-Placed, push_sleeping-Placed}
use systems_projects.Threads.Exclusion.Locks.{Sound, on_processor}
use systems_projects.Threads.Exclusion.Starts.{created, created-Placed}
use systems_projects.Threads.Exclusion.Joins.{waits_for-Lives, joining-Placed}
use systems_projects.Threads.Exclusion.Ends.{ended, alone-Placed, awaited-Placed}
use systems_projects.Threads.Exclusion.Progress.{
  Runs, some_runnable, runnable_full, switched, waited, ended_runs, is_thread, signal_runs,
  broadcast_runs, yield_runs, unlock_runs, lock_runs, wait_runs,
}

module _ (s : Manager) (m : Mutex) (c : Threadq) (hs : List ℕ) (h : Sound (world s m c hs)) where
  create_runs : (t : ℕ) → s.links t ≡ none → (null == t) ≡ false → Runs (create t s)
  unfolding create push_runnable
  create_runs t fresh is =
      let at1 = assign h.at t in_hand in
      let there : at1 t ≡ in_hand = ground arith in
      let (r, pushed, after) =
        push_runnable-Placed (created s t) m.queue c at1
          (created-Placed s m.queue c h.at h.placed t fresh is) t (omega (arith, there))
          (omega (arith, there)) (ground (arith, there)) in
      (record (created s t) { links = r.0; runnable = r.1 }, rw pushed refl)

  module _ (x : ℕ) (there : h.at x ≡ at_runnable) where
    exit_runs : (val : ℕ) → Runs (exit_thread val s)
    unfolding exit_thread push_runnable
    exit_runs val =
        let on = on_processor s m c hs h in
        let (next, is) = h.placed.lines.threads s.current (omega (arith, on)) in
        elim (Bool-cases (s.waiter s.current == null)) [
          | inl none_waits ↦
              let (p, runs) =
                ended_runs (ended s val) m.queue c (assign h.at s.current nowhere)
                  (alone-Placed s m c hs h val) x (ground (arith, there, on))
                  (λ a. ground (arith, h.only a)) (λ a. ground (arith, h.empty_hand a))
                  (is_thread s m c hs h) in
              (p, rw (is, none_waits) runs)
          | inr one_waits ↦
              let w = s.waiter s.current in
              let (waits, r, pushed, placed) = awaited-Placed s m c hs h val one_waits in
              let (p, runs) =
                ended_runs (record (ended s val) { links = r.0; runnable = r.1 }) m.queue c
                  (assign (assign (assign h.at s.current nowhere) w in_hand) w at_runnable) placed w
                  (ground arith) (λ a. ground (arith, h.only a))
                  (λ a. ground (arith, h.empty_hand a)) (is_thread s m c hs h) in
              (p, rw (is, one_waits, pushed) runs)
        ]

    join_runs : (u : ℕ) → IsThread s.links u → Runs (join u s)
    unfolding join join_round
    join_runs u (next, is) =
        let on = on_processor s m c hs h in
        let waiter = assign s.waiter u s.current in
        let s1 = record s { waiter = waiter } in
        elim (Bool-cases (s.dead u == 1)) [
          | inl dead ↦ ((some (s.return_val u), s1, stay), rw (is, dead) refl)
          | inr lives ↦
              let (p, runs) =
                waited s1 m.queue c (assign h.at s.current joining)
                  (joining-Placed s m c hs h waiter
                    (waits_for-Lives h.at s.dead s.waiter u s.current h.placed.lives on))
                  x (ground (arith, there, on)) (λ a. ground (arith, h.only a))
                  (λ a. ground (arith, h.empty_hand a)) (is_thread s m c hs h) in
              ((none, p.0, p.1), rw (is, lives, runs) refl)
        ]

    sleep_runs : (usecs now : ℕ) (clock : List ℕ) → s.clock ≡ now ∷ clock → Runs (usleep usecs s)
    unfolding usleep schedule put_away push_sleeping
    sleep_runs usecs now clock reading =
        let on = on_processor s m c hs h in
        let (next, is) = h.placed.lines.threads s.current (omega (arith, on)) in
        let (r, pushed, placed) =
          push_sleeping-Placed s m.queue c h.at h.placed s.current (omega (arith, on))
            (omega (arith, on)) (ground (arith, on)) in
        let s1 = record s {
          links = r.0;
          sleeping = r.1;
          timing_information = assign s.timing_information s.current (now + usecs);
          clock = clock;
        } in
        let full = runnable_full s m.queue c h.at h.placed x there in
        let (p, runs) =
          switched s1 m.queue c (assign h.at s.current at_sleeping)
            (record { lines = placed.lines; lives = placed.lives }) x (ground (arith, there, on))
            (λ a. ground (arith, h.only a)) (λ a. ground (arith, h.empty_hand a)) s.current
            (is_thread s m c hs h) in
        (p, rw (is, reading, full, pushed, full) runs)

-- In a state in order, as those are that the library reaches, while a thread is runnable besides the
-- running one, no operation reads or writes through NULL or through an address where no thread is, and
-- each comes to its end: a yield, a lock, an unlock, a wait for the condition, a signal, a broadcast, the
-- creation of a thread in new memory, an exit, a join of a thread, dead or not, and, if the clock gives a
-- time, a sleep.
pub Sound-Runs :
    (s : Manager) (m : Mutex) (c : Threadq) (hs : List ℕ) (t u val usecs now : ℕ) (clock : List ℕ)
    → Sound (world s m c hs)
    → (s.runnable.size == 0) ≡ false
    → s.links t ≡ none
    → (null == t) ≡ false
    → IsThread s.links u
    → s.clock ≡ now ∷ clock
    → Runs (yield s)
      × Runs (mutex_lock s m)
      × Runs (mutex_unlock (ready s) m)
      × Runs (cond_wait s c m)
      × Runs (cond_signal (ready s) c)
      × Runs (cond_broadcast (ready s) c)
      × Runs (create t s)
      × Runs (exit_thread val s)
      × Runs (join u s)
      × Runs (usleep usecs s)
Sound-Runs s m c hs t u val usecs now clock h full fresh is thread reading =
    let (x, there) = some_runnable s m.queue c h.at h.placed full in
    (
      yield_runs s m c hs h,
      lock_runs s m c hs h x there,
      unlock_runs s m c hs h,
      wait_runs s m c hs h x there,
      signal_runs s m c hs h,
      broadcast_runs s m c hs h,
      create_runs s m c hs h t fresh is,
      exit_runs s m c hs h x there val,
      join_runs s m c hs h x there u thread,
      sleep_runs s m c hs h x there usecs now clock reading,
    )
