-- ===== src/Threads/Queue.antt =====
-- The queues of threading-lib/qthread_manager.c: threads linked through their `next` fields. A thread
-- is its address, and NULL is 0. `none` as a result is a fault, a field of what is no thread.
pub mod Chain
pub mod Fifo
use systems_projects.Prelude.{ℕ, ◌+◌, ◌-◌, Option, none, some, ◌==◌, if◌then◌else◌, ◌>>=◌}

-- The `next` field of the thread at each address, `none` where there is no thread.
abbrev pub Links : Type 0
Links = ℕ → Option ℕ

abbrev pub null : ℕ
null = 0

-- `struct threadq`. Where the size is 0 the two pointers mean nothing.
pub record Threadq : Type 0 where
  pub front : ℕ
  pub end : ℕ
  pub size : ℕ

abbrev pub update : Links → ℕ → Option ℕ → Links
update h p v a = if p == a then v else h a

-- `p->next = v`.
unfoldable pub write_next : Links → ℕ → ℕ → Option Links
write_next h p v = do old ← h p; some (update h p (some v))

unfoldable pub push_back : Links → Threadq → ℕ → Option (Links × Threadq)
push_back h q thread = do
  h' ← write_next h thread null
  if q.size == 0 then some (h', record { front = thread; end = thread; size = q.size + 1 }) else (do
    h'' ← write_next h' q.end thread
    some (h'', record { front = q.front; end = thread; size = q.size + 1 }))

-- The popped thread, NULL from an empty queue, and the queue that is left.
unfoldable pub pop_front : Links → Threadq → Option (ℕ × Threadq)
pop_front h q = if q.size == 0 then some (null, q) else (do
  next ← h q.front
  some (
    q.front,
    record { front = next; end = if q.size - 1 == 0 then null else q.end; size = q.size - 1 },
  ))
