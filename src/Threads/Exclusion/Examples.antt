-- ===== src/Threads/Exclusion/Examples.antt =====
-- A run of two threads: 400 creates 300, locks the mutex and yields; 300 waits for it; 400 waits for a
-- condition and so hands the mutex over; 300 broadcasts the condition, unlocks the mutex and sleeps; 400
-- joins 300, which wakes and ends; and 400 finds it dead, and locks the mutex.
use systems_projects.Prelude.{◌≤◌, ◌≡◌, refl, none, some, [], ◌∷◌, length}
use systems_projects.Threads.Queue.{null, write_next, push_back, pop_front}
use systems_projects.Threads.Sync.{
  mutex_create, cond_create, make_runnable, mutex_unlock, cond_signal, wake_all, cond_broadcast,
}
use systems_projects.Threads.Schedule.{
  Manager, ready, no_threads, init, create, push_runnable, push_sleeping, wake_loop,
  wake_sleeping_threads, switch_runnable, put_away, schedule, yield, mutex_lock, cond_wait, usleep,
  exit_thread, join, join_round,
}
use systems_projects.Threads.Exclusion.{
  World, world, locks, unlocks, waits, broadcasts, yields, sleeps, creates, exits, joins, tests,
  Reaches, here, there,
}
use systems_projects.Threads.Exclusion.Locks.{Sound}
use systems_projects.Threads.Exclusion.Safety.{booted, booted-Sound, Step-Sound, Reaches-Sound}
use systems_projects.Threads.Exclusion.Progress.{Runs}
use systems_projects.Threads.Exclusion.Progress.Lifetimes.{Sound-Runs}

abbrev memory : Manager
memory = record {
  links = λ _. none;
  dead = λ _. 0;
  timing_information = λ _. 0;
  waiter = λ _. 0;
  return_val = λ _. 0;
  runnable = no_threads;
  sleeping = no_threads;
  current = 0;
  clock = 10 ∷ 12 ∷ 40 ∷ [];
}

run : (w : World) × Reaches (booted 400 7 1 2 3 4 memory) w
unfolding mutex_create cond_create init create mutex_lock mutex_unlock cond_wait cond_signal
    cond_broadcast wake_all yield schedule put_away push_runnable switch_runnable push_back
    write_next pop_front make_runnable push_sleeping wake_loop wake_sleeping_threads usleep
    exit_thread join join_round
run =
    let begin = booted 400 7 1 2 3 4 memory in
    let r0 = there begin _ _ (here begin) (creates 300 _ _ _ _ _ refl refl refl) in
    let r1 = there begin _ _ (r0) (locks _ _ _ _ _ refl) in
    let r2 = there begin _ _ (r1) (yields _ _ _ _ _ refl) in
    let r3 = there begin _ _ (r2) (locks _ _ _ _ _ refl) in
    let r4 = there begin _ _ (r3) (waits _ _ _ _ _ refl refl) in
    let r5 = there begin _ _ (r4) (broadcasts _ _ _ _ _ refl) in
    let r6 = there begin _ _ (r5) (unlocks _ _ _ _ _ refl refl) in
    let r7 = there begin _ _ (r6) (sleeps 20 _ _ _ _ _ refl) in
    let r8 = there begin _ _ (r7) (joins 300 _ _ _ _ _ refl) in
    let r9 = there begin _ _ (r8) (exits 5 _ _ _ _ _ refl) in
    let r10 = there begin _ _ (r9) (tests 300 _ _ _ _ _ refl) in
    let r11 = there begin _ _ (r10) (locks _ _ _ _ _ refl) in (_, r11)

Reaches-Sound_example : (length run.0.holders ≤ 1) × Sound run.0
Reaches-Sound_example = Reaches-Sound 400 7 1 2 3 4 memory run.0 refl refl refl refl run.1

-- 400 runs, and 300 is runnable.
two : (s : Manager) × (create 300 (booted 400 7 1 2 3 4 memory).manager ≡ some s)
unfolding init create push_runnable push_back write_next
two = (_, refl)

two-Sound : Sound (world two.0 (mutex_create 1 2) (cond_create 3 4) [])
unfolding init
two-Sound =
    Step-Sound (booted 400 7 1 2 3 4 memory) (world two.0 (mutex_create 1 2) (cond_create 3 4) [])
      (creates 300 (booted 400 7 1 2 3 4 memory).manager (mutex_create 1 2) (cond_create 3 4) []
        two.0 refl refl two.1)
      (booted-Sound 400 7 1 2 3 4 memory refl refl refl refl)

Sound-Runs_example :
    Runs (yield two.0)
    × Runs (mutex_lock two.0 (mutex_create 1 2))
    × Runs (mutex_unlock (ready two.0) (mutex_create 1 2))
    × Runs (cond_wait two.0 (cond_create 3 4) (mutex_create 1 2))
    × Runs (cond_signal (ready two.0) (cond_create 3 4))
    × Runs (cond_broadcast (ready two.0) (cond_create 3 4))
    × Runs (create 200 two.0)
    × Runs (exit_thread 5 two.0)
    × Runs (join 300 two.0)
    × Runs (usleep 20 two.0)
unfolding two
Sound-Runs_example =
    Sound-Runs two.0 (mutex_create 1 2) (cond_create 3 4) [] 200 300 5 20 10 (12 ∷ 40 ∷ [])
      two-Sound refl refl refl (null, refl) refl
