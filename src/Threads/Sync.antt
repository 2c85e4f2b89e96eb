-- ===== src/Threads/Sync.antt =====
-- The operations of threading-lib/qthread.c that wake threads: the unlocking of a mutex, and the
-- signal and the broadcast of a condition variable.
pub mod Wake
use systems_projects.Prelude.{
  ℕ, zero, suc, ◌+◌, true, false, Option, none, some, ltb, ◌==◌, if◌then◌else◌, ◌>>=◌,
}
use systems_projects.Threads.Queue.{Links, Threadq, null, push_back, pop_front}

-- What these operations change besides their object: the links, and `runnable_queue`.
pub record Ready : Type 0 where
  pub links : Links
  pub runnable : Threadq

pub record Mutex : Type 0 where
  pub locked : ℕ
  pub queue : Threadq

-- `malloc` leaves the two pointers of the queue as they are in the memory that it returns.
unfoldable pub mutex_create : (front end : ℕ) → Mutex
mutex_create front end = record {
  locked = 0;
  queue = record { front = front; end = end; size = 0 };
}

unfoldable pub cond_create : (front end : ℕ) → Threadq
cond_create front end = record { front = front; end = end; size = 0 }

unfoldable pub make_runnable : Ready → ℕ → Option Ready
make_runnable r thread = do
  (links, runnable) ← push_back r.links r.runnable thread
  some (record { links = links; runnable = runnable })

unfoldable pub mutex_unlock : Ready → Mutex → Option (Ready × Mutex)
mutex_unlock r mutex =
    if ltb 0 mutex.queue.size
    then (do
      (thread, queue) ← pop_front r.links mutex.queue
      let mutex' = record mutex { queue = queue }
      if thread == null
          then some (r, mutex')
          else (do r' ← make_runnable r thread; some (r', mutex')))
    else some (r, record mutex { locked = 0 })

-- The test for a NULL `cond->queue` never fails: `cond_create` sets it.
unfoldable pub cond_signal : Ready → Threadq → Option (Ready × Threadq)
cond_signal r cond =
    if ltb 0 cond.size
    then (do
      (thread, cond') ← pop_front r.links cond
      r' ← make_runnable r thread
      some (r', cond'))
    else some (r, cond)

-- The loop of the broadcast, on fuel; `none` when it runs out. The test inside the loop is that of the loop.
unfoldable pub wake_all : ℕ → Ready → Threadq → Option (Ready × Threadq)
wake_all zero r cond = none
wake_all (suc fuel) r cond = elim (ltb 0 cond.size) [
  | true ↦ (do (r', cond') ← cond_signal r cond; wake_all fuel r' cond')
  | false ↦ some (r, cond)
]

unfoldable pub cond_broadcast : Ready → Threadq → Option (Ready × Threadq)
unfolding wake_all
cond_broadcast r cond = wake_all (cond.size + 1) r cond
