-- ===== src/Threads/Examples.antt =====
-- Threads in memory, waiting, runnable and running, and the theorems about queues and turns at them.
use systems_projects.Prelude.{
  ℕ, ◌≡◌, refl, true, none, some, [], ◌∷◌, arith, ◌==◌, Bool-cases, inl, inr,
}
use systems_projects.Threads.Queue.{Links, Threadq, update, push_back}
use systems_projects.Threads.Queue.Chain.{has, IsThread, IsThread-update}
use systems_projects.Threads.Queue.Fifo.{IsQueue, Pushed, push_back-Pushed}
use systems_projects.Threads.Schedule.{
  Manager, stay, switch, yield, mutex_lock, exit_thread, usleep, cond_wait, init,
}
use systems_projects.Threads.Schedule.Waits.{Holding, cond_wait-Holding}
use systems_projects.Threads.Schedule.Starts.{create_all, Started, init-Started}
use systems_projects.Threads.Schedule.Ends.{exit_thread-Running, usleep-alone}
use systems_projects.Threads.Schedule.Turns.{Running, yield-Running, mutex_lock-Running}
use systems_projects.Threads.Sync.{Ready, Mutex, mutex_create, mutex_unlock, cond_broadcast}
use systems_projects.Threads.Sync.Wake.{Waiting, cond_broadcast-Waiting}

-- 100 and 200 wait, 300 is runnable, and 400 is on no queue.
abbrev four : Links
four =
    update (update (update (update (λ _. none) 400 (some 7)) 300 (some 0)) 200 (some 0)) 100
      (some 200)

abbrev waiting : Threadq
waiting = record { front = 100; end = 200; size = 2 }

abbrev one_runnable : Ready
one_runnable = record { links = four; runnable = record { front = 300; end = 300; size = 1 } }

abbrev held : Mutex
held = record { locked = 1; queue = waiting }

waiting-IsQueue : IsQueue four waiting (100 ∷ 200 ∷ [])
waiting-IsQueue = (refl, refl, refl, (refl, (0, refl)), (refl, (refl, tt)))

waiting_are_threads : (a : ℕ) → has a (100 ∷ 200 ∷ []) ≡ true → IsThread four a
waiting_are_threads a m = elim (Bool-cases (a == 100)) [
  | inl e ↦ (200, ground arith)
  | inr ne ↦ (0, ground arith)
]

two_wait : Waiting one_runnable waiting (100 ∷ 200 ∷ []) (300 ∷ [])
two_wait = record {
  waiting = waiting-IsQueue;
  runnable = (refl, refl, refl, (0, refl), (refl, tt));
  apart = λ a m. ground arith;
  threads = waiting_are_threads;
  not_null = refl;
}

-- Any queue is empty that has been created, whatever was in its memory.
free_runs : mutex_unlock one_runnable (mutex_create 5 6) ≡ some (one_runnable, mutex_create 5 6)
unfolding mutex_unlock mutex_create
free_runs = refl

push_back-Pushed_example :
    (r : Links × Threadq) × (push_back four waiting 400 ≡ some r)
    × Pushed four (100 ∷ 200 ∷ []) 400 r
push_back-Pushed_example =
    push_back-Pushed four waiting (100 ∷ 200 ∷ []) 400 waiting-IsQueue (7, refl) refl

cond_broadcast-Waiting_example :
    (r : Ready) × (q : Threadq) × (cond_broadcast one_runnable waiting ≡ some (r, q))
    × Waiting r q [] (300 ∷ 100 ∷ 200 ∷ [])
cond_broadcast-Waiting_example =
    cond_broadcast-Waiting one_runnable waiting (100 ∷ 200 ∷ []) (300 ∷ []) two_wait

-- 400 runs, 300 and 500 are runnable, 100 and 200 wait for a mutex, and 600 for the end of a thread.
abbrev three_run : Manager
three_run = record {
  links = update (update (update four 300 (some 500)) 500 (some 0)) 600 (some 0);
  dead = λ _. 0;
  timing_information = λ _. 0;
  waiter = λ _. 600;
  return_val = λ _. 0;
  runnable = record { front = 300; end = 500; size = 2 };
  sleeping = record { front = 0; end = 0; size = 0 };
  current = 400;
  clock = [];
}

three_run-Running : Running three_run 300 (500 ∷ [])
three_run-Running = record {
  runnable = (refl, refl, refl, (refl, (0, refl)), (refl, (refl, tt)));
  first = (500, refl);
  alive = refl;
  thread = (7, refl);
  apart = refl;
}

yield-Running_example :
    (s : Manager) × (yield three_run ≡ some (s, switch 400 300))
    × (s.current ≡ 300)
    × IsQueue s.links s.runnable (500 ∷ 400 ∷ [])
yield-Running_example = yield-Running three_run 300 (500 ∷ []) three_run-Running

mutex_lock-Running_example :
    (s : Manager) × (m : Mutex) × (mutex_lock three_run held ≡ some (s, m, switch 400 300))
    × (s.current ≡ 300)
    × (m.locked ≡ 1)
    × IsQueue s.links m.queue (100 ∷ 200 ∷ 400 ∷ [])
    × IsQueue s.links s.runnable (500 ∷ [])
mutex_lock-Running_example =
    mutex_lock-Running three_run held 300 (500 ∷ []) (100 ∷ 200 ∷ []) three_run-Running
      (refl, refl, refl, (refl, (0, refl)), (refl, (refl, tt))) (λ a k. ground arith) refl refl

exit_thread-Running_example :
    (s : Manager) × (exit_thread 9 three_run ≡ some (s, switch 400 300))
    × (s.current ≡ 300)
    × IsQueue s.links s.runnable (500 ∷ 600 ∷ [])
exit_thread-Running_example =
    exit_thread-Running three_run 300 9 (500 ∷ []) three_run-Running refl (0, refl) refl

-- 400 runs and no other thread is runnable; the clock goes on from 10.
abbrev alone : Manager
alone = record three_run {
  runnable = record { front = 0; end = 0; size = 0 };
  clock = 10 ∷ 11 ∷ 13 ∷ 16 ∷ 20 ∷ [];
}

usleep-alone_example :
    (s : Manager) × (usleep 5 alone ≡ some (s, stay))
    × (s.current ≡ 400)
    × (s.clock ≡ 20 ∷ [])
    × (s.runnable.size ≡ 0)
    × (s.sleeping.size ≡ 0)
usleep-alone_example =
    usleep-alone alone 7 10 5 16 (11 ∷ 13 ∷ []) (20 ∷ []) refl refl refl refl
      (omega arith, (omega arith, tt)) (omega arith)

-- 500 waits for a condition, and 400 is about to, while 100 and 200 wait for its mutex.
abbrev four_and_500 : Links
four_and_500 = update four 500 (some 0)

waiting_with_500 : (a : ℕ) → has a (100 ∷ 200 ∷ []) ≡ true → IsThread four_and_500 a
waiting_with_500 a m = IsThread-update four 500 0 a (waiting_are_threads a m)

abbrev with_condition : Manager
with_condition = record three_run {
  runnable = record { front = 300; end = 300; size = 1 };
  links = four_and_500;
}

abbrev condition : Threadq
condition = record { front = 500; end = 500; size = 1 }

with_condition-Holding :
    Holding with_condition held condition (100 ∷ 200 ∷ []) (300 ∷ []) (500 ∷ [])
with_condition-Holding = record {
  queues = record {
    waiting = (refl, refl, refl, (refl, (0, refl)), (refl, (refl, tt)));
    runnable = (refl, refl, refl, (0, refl), (refl, tt));
    apart = λ a m. ground arith;
    threads = waiting_with_500;
    not_null = refl;
  };
  waiting = (refl, refl, refl, (0, refl), (refl, tt));
  thread = (7, refl);
  out_mutex = refl;
  out_runnable = refl;
  out_cond = refl;
  apart_mutex = λ a m. ground arith;
  apart_runnable = λ a m. ground arith;
}

cond_wait-Holding_example :
    (s : Manager) × (cond : Threadq) × (m : Mutex) × (cond_wait with_condition condition held
      ≡ some (s, cond, m, switch 400 300))
    × (s.current ≡ 300)
    × (m.locked ≡ 1)
    × IsQueue s.links m.queue (200 ∷ [])
    × IsQueue s.links cond (500 ∷ 400 ∷ [])
    × IsQueue s.links s.runnable (100 ∷ [])
cond_wait-Holding_example =
    cond_wait-Holding with_condition held condition (100 ∷ 200 ∷ []) (300 ∷ []) (500 ∷ []) 300
      (100 ∷ []) with_condition-Holding refl (0, refl) refl

init-Started_example :
    (s : Manager) × (create_all (10 ∷ 20 ∷ []) (init 400 9 three_run) ≡ some s)
    × Started s 400 (10 ∷ 20 ∷ [])
init-Started_example = init-Started three_run 400 9 (10 ∷ 20 ∷ []) (refl, (refl, tt))
