-- ===== src/Threads/Exclusion.antt =====
-- Threads that share a mutex of threading-lib: what they can do with it, one operation after another.
mod Examples
pub mod Places
pub mod Placed
pub mod Sleepers
pub mod Dispatch
pub mod Locks
pub mod Unlocks
pub mod Signals
pub mod Starts
pub mod Joins
pub mod Ends
pub mod Safety
pub mod Progress
use systems_projects.Prelude.{
  ℕ, ◌+◌, ◌≡◌, Bool, true, false, ltb, ◌==◌, if◌then◌else◌, Option, none, some, List, [], ◌∷◌, ◌++◌,
}
use systems_projects.Threads.Queue.{Threadq, null}
use systems_projects.Threads.Queue.Chain.{has}
use systems_projects.Threads.Sync.{Ready, Mutex, mutex_unlock, cond_signal, cond_broadcast}
use systems_projects.Threads.Schedule.{
  Manager, Switch, ready, yield, mutex_lock, cond_wait, usleep, create, exit_thread, join,
  join_round,
}

-- `condition` is the queue of a condition variable. `holders` are the threads that have come back from
-- `qthread_mutex_lock`, or will when they go on, and have not called `qthread_mutex_unlock`.
pub record World : Type 0 where
  pub manager : Manager
  pub mutex : Mutex
  pub condition : Threadq
  pub holders : List ℕ

abbrev pub world : Manager → Mutex → Threadq → List ℕ → World
world s m c hs = record { manager = s; mutex = m; condition = c; holders = hs }

-- The lock is taken at once where `locked` is 0.
abbrev pub taken : Manager → Mutex → List ℕ → List ℕ
taken s m hs = if m.locked == 0 then s.current ∷ hs else hs

abbrev pub without : ℕ → List ℕ → List ℕ
without a [] = []
without a (t ∷ ts) = if a == t then without a ts else t ∷ without a ts

-- The first thread of the queue comes back from its lock when the running one unlocks the mutex.
abbrev pub released : Manager → Mutex → List ℕ → List ℕ
released s m hs = (if ltb 0 m.queue.size then m.queue.front ∷ [] else []) ++ without s.current hs

abbrev pub with_ready : Manager → Ready → Manager
with_ready s r = record s { links = r.links; runnable = r.runnable }

-- The running thread locks the mutex; unlocks it or waits for the condition, if it holds it; signals or
-- broadcasts the condition; yields or sleeps; creates a thread, in memory that no thread has; ends; or
-- joins a thread. A thread that has waited for the condition locks the mutex when it goes on, and one
-- that has waited for a thread makes the test of the join again.
pub data Step : World → World → Type 0 where
  locks :
      (s : Manager) (m : Mutex) (c : Threadq) (hs : List ℕ) (p : Manager × Mutex × Switch)
      → mutex_lock s m ≡ some p
      → Step (world s m c hs) (world p.0 p.1 c (taken s m hs))
  unlocks :
      (s : Manager) (m : Mutex) (c : Threadq) (hs : List ℕ) (p : Ready × Mutex)
      → has s.current hs ≡ true
      → mutex_unlock (ready s) m ≡ some p
      → Step (world s m c hs) (world (with_ready s p.0) p.1 c (released s m hs))
  waits :
      (s : Manager) (m : Mutex) (c : Threadq) (hs : List ℕ) (p : Manager × Threadq × Mutex × Switch)
      → has s.current hs ≡ true
      → cond_wait s c m ≡ some p
      → Step (world s m c hs) (world p.0 p.2 p.1 (released s m hs))
  signals :
      (s : Manager) (m : Mutex) (c : Threadq) (hs : List ℕ) (p : Ready × Threadq)
      → cond_signal (ready s) c ≡ some p
      → Step (world s m c hs) (world (with_ready s p.0) m p.1 hs)
  broadcasts :
      (s : Manager) (m : Mutex) (c : Threadq) (hs : List ℕ) (p : Ready × Threadq)
      → cond_broadcast (ready s) c ≡ some p
      → Step (world s m c hs) (world (with_ready s p.0) m p.1 hs)
  yields :
      (s : Manager) (m : Mutex) (c : Threadq) (hs : List ℕ) (p : Manager × Switch)
      → yield s ≡ some p
      → Step (world s m c hs) (world p.0 m c hs)
  sleeps :
      (usecs : ℕ) (s : Manager) (m : Mutex) (c : Threadq) (hs : List ℕ) (p : Manager × Switch)
      → usleep usecs s ≡ some p
      → Step (world s m c hs) (world p.0 m c hs)
  creates :
      (t : ℕ) (s : Manager) (m : Mutex) (c : Threadq) (hs : List ℕ) (s' : Manager)
      → s.links t ≡ none
      → (null == t) ≡ false
      → create t s ≡ some s'
      → Step (world s m c hs) (world s' m c hs)
  exits :
      (val : ℕ) (s : Manager) (m : Mutex) (c : Threadq) (hs : List ℕ) (p : Manager × Switch)
      → exit_thread val s ≡ some p
      → Step (world s m c hs) (world p.0 m c hs)
  joins :
      (t : ℕ) (s : Manager) (m : Mutex) (c : Threadq) (hs : List ℕ)
      (p : Option ℕ × Manager × Switch)
      → join t s ≡ some p
      → Step (world s m c hs) (world p.1 m c hs)
  tests :
      (t : ℕ) (s : Manager) (m : Mutex) (c : Threadq) (hs : List ℕ)
      (p : Option ℕ × Manager × Switch)
      → join_round t s ≡ some p
      → Step (world s m c hs) (world p.1 m c hs)

pub data Reaches : World → World → Type 0 where
  here : (w : World) → Reaches w w
  there : (u v w : World) → Reaches u v → Step v w → Reaches u w
