-- ===== src/Threads/Schedule.antt =====
-- The scheduler of threading-lib/qthread_manager.c and the operations of threading-lib/qthread.c that
-- call it. `switch_thread`, in assembly, is what an operation ends with: which thread goes on.
pub mod Turns
pub mod Ends
pub mod Waits
pub mod Starts
use systems_projects.Prelude.{
  ℕ, ◌+◌, Bool, true, false, ◌&&◌, Option, none, some, List, [], ◌∷◌, ltb, ◌==◌, if◌then◌else◌,
  ◌>>=◌,
}
use systems_projects.Threads.Queue.{Links, Threadq, null, update, push_back, pop_front}
use systems_projects.Threads.Sync.{Ready, Mutex, mutex_unlock}

-- The global variables, the fields of the threads, and what `get_usecs` returns from now on.
pub record Manager : Type 0 where
  pub links : Links
  pub dead : ℕ → ℕ
  pub timing_information : ℕ → ℕ
  pub waiter : ℕ → ℕ
  pub return_val : ℕ → ℕ
  pub runnable : Threadq
  pub sleeping : Threadq
  pub current : ℕ
  pub clock : List ℕ

-- `stay` where no call of `switch_thread` is made.
pub data Switch : Type 0 where
  stay : Switch
  switch : (old new : ℕ) → Switch

unfoldable pub push_runnable : Manager → ℕ → Option Manager
push_runnable s thread = do
  (links, runnable) ← push_back s.links s.runnable thread
  some (record s { links = links; runnable = runnable })

unfoldable pub push_sleeping : Manager → ℕ → Option Manager
push_sleeping s thread = do
  (links, sleeping) ← push_back s.links s.sleeping thread
  some (record s { links = links; sleeping = sleeping })

-- The loop, a reading of the clock each round; `none` also where the readings end.
unfoldable pub wake_loop : List ℕ → Manager → (head : ℕ) → Option Manager
unfolding push_runnable push_sleeping
wake_loop [] s head = none
wake_loop (now ∷ clock) s head = do
  next ← s.links head
  elim (ltb now (s.timing_information head)) [
    | true ↦ elim (next == null) [
      | true ↦ wake_loop clock s head
      | false ↦ (do
        (new_head, sleeping) ← pop_front s.links s.sleeping
        s' ← push_sleeping (record s { sleeping = sleeping }) head
        wake_loop clock s' new_head)
    ]
    | false ↦ push_runnable (record s { clock = clock }) head
  ]

unfoldable pub wake_sleeping_threads : Manager → Option Manager
unfolding wake_loop
wake_sleeping_threads s = if s.sleeping.size == 0 then some s else (do
  (head, sleeping) ← pop_front s.links s.sleeping
  wake_loop s.clock (record s { sleeping = sleeping }) head)

unfoldable pub switch_runnable : Manager → (old_current : ℕ) → Option (Manager × Switch)
switch_runnable s old_current = do
  (thread, runnable) ← pop_front s.links s.runnable
  let s' = record s { runnable = runnable; current = thread }
  if thread == old_current then some (s', stay) else (do
    next ← s.links thread
    if s.dead thread == 1 then some (s', stay) else some (s', switch old_current thread))

-- The place for the running thread: 1 is an exit, 2 a wait, 3 a sleep, and the others a yield.
unfoldable pub put_away : ℕ → Manager → Option Manager
unfolding push_runnable push_sleeping
put_away exit s =
    if exit == 1
    then some s
    else if exit == 2
    then some s
    else if exit == 3
    then push_sleeping s s.current
    else push_runnable s s.current

unfoldable pub schedule : ℕ → Manager → Option (Manager × Switch)
unfolding wake_sleeping_threads switch_runnable put_away
schedule exit s = do
  s1 ← if (s.runnable.size == 0) && (exit == 1) then wake_sleeping_threads s else some s
  s2 ← put_away exit s1
  s3 ← if s2.runnable.size == 0 then wake_sleeping_threads s2 else some s2
  switch_runnable s3 s.current

unfoldable pub yield : Manager → Option (Manager × Switch)
yield s = schedule 0 s

unfoldable pub mutex_lock : Manager → Mutex → Option (Manager × Mutex × Switch)
mutex_lock s mutex = if mutex.locked == 0 then some (s, record mutex { locked = 1 }, stay) else (do
  (links, queue) ← push_back s.links mutex.queue s.current
  (s', switched) ← schedule 2 (record s { links = links })
  some (s', record mutex { queue = queue }, switched))

-- One thread's field assigned.
abbrev pub assign : (ℕ → ℕ) → ℕ → ℕ → ℕ → ℕ
assign field thread v a = if thread == a then v else field a

unfoldable pub exit_thread : ℕ → Manager → Option (Manager × Switch)
exit_thread val s = do
  next ← s.links s.current
  let s1 = record s {
    return_val = assign s.return_val s.current val;
    dead = assign s.dead s.current 1;
  }
  s2 ← if s1.waiter s.current == null then some s1 else push_runnable s1 (s1.waiter s.current)
  schedule 1 s2

-- One test of the loop of the join: the value, or a wait after which the test is made again.
unfoldable pub join_round : ℕ → Manager → Option (Option ℕ × Manager × Switch)
join_round thread s = do
  next ← s.links thread
  if s.dead thread == 1
      then some (some (s.return_val thread), s, stay)
      else (do (s', switched) ← schedule 2 s; some (none, s', switched))

unfoldable pub join : ℕ → Manager → Option (Option ℕ × Manager × Switch)
unfolding join_round
join thread s = do
  next ← s.links thread
  join_round thread (record s { waiter = assign s.waiter thread s.current })

unfoldable pub usleep : ℕ → Manager → Option (Manager × Switch)
usleep usecs s = do
  next ← s.links s.current
  elim (s.clock) [
    | [] ↦ none
    | now ∷ clock ↦ schedule 3 (record s {
      timing_information = assign s.timing_information s.current (now + usecs);
      clock = clock;
    })
  ]

-- What the operations of Threads.Sync change of a manager.
abbrev pub ready : Manager → Ready
ready s = record { links = s.links; runnable = s.runnable }

-- `qthread_cond_wait` up to its context switch: when the thread goes on it locks the mutex, by
-- `mutex_lock`.
unfoldable pub cond_wait :
    Manager → (cond : Threadq) → Mutex → Option (Manager × Threadq × Mutex × Switch)
cond_wait s cond mutex = do
  (r, mutex') ← mutex_unlock (ready s) mutex
  (links, cond') ← push_back r.links cond s.current
  (s', switched) ← schedule 2 (record s { links = links; runnable = r.runnable })
  some (s', cond', mutex', switched)

abbrev pub no_threads : Threadq
no_threads = record { front = null; end = null; size = 0 }

-- `malloc` returns the structure of the main thread, none of whose fields is set; `next` is what it
-- finds there.
unfoldable pub init : (thread next : ℕ) → Manager → Manager
init thread next s = record s {
  links = update s.links thread (some next);
  runnable = no_threads;
  sleeping = no_threads;
  current = thread;
}

-- `malloc` returns `thread`; its stack is left out.
unfoldable pub create : (thread : ℕ) → Manager → Option Manager
unfolding push_runnable
create thread s =
    push_runnable
      (record s {
        links = update s.links thread (some null);
        dead = assign s.dead thread 0;
        waiter = assign s.waiter thread null;
      })
      thread
