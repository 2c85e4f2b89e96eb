-- ===== src/Threads/Schedule/Waits.antt =====
-- A thread that waits for a condition.
use systems_projects.Prelude.{
  ℕ, ◌≡◌, refl, sym, ap, ◌∙◌, true, false, some, List, [], ◌∷◌, ◌++◌, append-nil, arith, ltb, ◌==◌,
}
use systems_projects.Threads.Queue.{null, Threadq}
use systems_projects.Threads.Queue.Chain.{has, IsThread, Apart, has-append}
use systems_projects.Threads.Queue.Fifo.{
  IsQueue, IsQueue-frame, push_back-Pushed, pop_front-IsQueue,
}
use systems_projects.Threads.Sync.{Ready, Mutex, make_runnable, mutex_unlock}
use systems_projects.Threads.Sync.Wake.{Waiting, has_self, moved-Waiting}
use systems_projects.Threads.Schedule.{Manager, switch, cond_wait, ready}
use systems_projects.Threads.Schedule.Turns.{switch_runnable_lem, schedule_wait}

-- The longest waiting of some threads, and the others.
abbrev pub head_of : List ℕ → List ℕ
head_of [] = []
head_of (w ∷ ws) = w ∷ []

abbrev pub tail_of : List ℕ → List ℕ
tail_of [] = []
tail_of (w ∷ ws) = ws

-- The lock of a mutex after it is unlocked: it is handed over where a thread waits.
abbrev pub handed : List ℕ → (locked : ℕ) → ℕ
handed [] locked = 0
handed (w ∷ ws) locked = locked

-- What unlocking leaves.
pub record Unlocked (r : Ready) (m : Mutex) (ws rs : List ℕ) : Type 0 where
  pub after : Ready
  pub mutex : Mutex
  pub done : mutex_unlock r m ≡ some (after, mutex)
  pub lock : mutex.locked ≡ handed ws m.locked
  pub queues : Waiting after mutex.queue (tail_of ws) (rs ++ head_of ws)
  pub same : (a : ℕ) → has a (rs ++ head_of ws) ≡ false → after.links a ≡ r.links a
  pub threads : (a : ℕ) → IsThread r.links a → IsThread after.links a

pub unlock-Unlocked :
    (r : Ready) (m : Mutex) (ws rs : List ℕ) → Waiting r m.queue ws rs → Unlocked r m ws rs
unfolding mutex_unlock make_runnable
unlock-Unlocked r m [] rs h = record {
  after = r;
  mutex = record m { locked = 0 };
  done = let e = h.waiting in rw e;
  lock = refl;
  queues = rw append-nil h;
  same = λ a out. refl;
  threads = λ a is. is;
}
unlock-Unlocked r m (w ∷ ws) rs h =
    let (q', popped, rest) = pop_front-IsQueue r.links m.queue w ws h.waiting in
    let self = has_self w ws in
    let (p, e, pushed) =
      push_back-Pushed r.links r.runnable rs w h.runnable (h.threads w self) (h.apart w self) in
    let some_wait : ltb 0 m.queue.size ≡ true = ground (arith, h.waiting.0) in
    let ne : (w == null) ≡ false = ground (arith, h.not_null) in
    record {
      after = record { links = p.0; runnable = p.1 };
      mutex = record m { queue = q' };
      done = rw (some_wait, popped, ne, e) refl;
      lock = refl;
      queues = moved-Waiting r m.queue w ws rs h q' p rest pushed;
      same = pushed.same;
      threads = pushed.threads;
    }

-- The waiting threads of the mutex and of the condition, and those that are runnable, are all different,
-- and the running thread is none of them.
pub record Holding (s : Manager) (m : Mutex) (cond : Threadq) (ws rs cs : List ℕ) : Type 0 where
  pub queues : Waiting (ready s) m.queue ws rs
  pub waiting : IsQueue s.links cond cs
  pub thread : IsThread s.links s.current
  pub out_mutex : has s.current ws ≡ false
  pub out_runnable : has s.current rs ≡ false
  pub out_cond : has s.current cs ≡ false
  pub apart_mutex : Apart cs ws
  pub apart_runnable : Apart cs rs

pub has-head_of : (a : ℕ) (ws : List ℕ) → has a ws ≡ false → has a (head_of ws) ≡ false
has-head_of a [] h = refl
has-head_of a (w ∷ ws) h = ground (arith, h)

pub has-tail_of : (a : ℕ) (ws : List ℕ) → has a (tail_of ws) ≡ true → has a ws ≡ true
has-tail_of a [] h = h
has-tail_of a (w ∷ ws) h = ground (arith, h)

-- A thread that waits for a condition unlocks the mutex, which is handed to the thread that has waited
-- longest for it, and is free where there is none; then it waits behind the threads that wait for
-- the condition, and the first of the runnable threads goes on, the one that got the mutex being the
-- last of them.
pub cond_wait-Holding :
    (s : Manager) (m : Mutex) (cond : Threadq) (ws rs cs : List ℕ) (x : ℕ) (xs : List ℕ)
    → Holding s m cond ws rs cs
    → rs ++ head_of ws ≡ x ∷ xs
    → IsThread s.links x
    → (s.dead x == 1) ≡ false
    → (s' : Manager) × (cond' : Threadq) × (m' : Mutex) × (cond_wait s cond m
        ≡ some (s', cond', m', switch s.current x))
      × (s'.current ≡ x)
      × (m'.locked ≡ handed ws m.locked)
      × IsQueue s'.links m'.queue (tail_of ws)
      × IsQueue s'.links cond' (cs ++ (s.current ∷ []))
      × IsQueue s'.links s'.runnable xs
unfolding cond_wait
cond_wait-Holding s m cond ws rs cs x xs h next is alive =
    let u = unlock-Unlocked (ready s) m ws rs h.queues in
    let waiting =
      IsQueue-frame s.links u.after.links cond cs (λ a k. u.same a (not_runnable a k)) h.waiting in
    let (p, e, pushed) =
      push_back-Pushed u.after.links cond cs s.current waiting (u.threads s.current h.thread)
        h.out_cond in
    let s1 = record s { links = p.0; runnable = u.after.runnable } in
    let runnable : IsQueue u.after.links u.after.runnable (x ∷ xs) = rw next at u.queues.runnable in
    let (s', e', at, same, rest) =
      switch_runnable_lem s1 s.current x xs
        (IsQueue-frame u.after.links p.0 u.after.runnable (x ∷ xs) (λ a k. pushed.same a (runs a k))
          runnable)
        (pushed.threads x (u.threads x is)) (ground (arith, current_out)) alive in
    let still =
      IsQueue-frame u.after.links p.0 u.mutex.queue (tail_of ws) (λ a k. pushed.same a (locks a k))
        u.queues.waiting in
    let some_run : (u.after.runnable.size == 0) ≡ false = ground (arith, runnable.0) in
    (
      s',
      p.1,
      u.mutex,
      rw (u.done, e) (rw (schedule_wait s1 some_run, e') refl),
      at,
      u.lock,
      rw same still,
      rw same pushed.queue,
      rw same rest,
    )
  where
    not_runnable : (a : ℕ) → has a cs ≡ true → has a (rs ++ head_of ws) ≡ false
    not_runnable a k = ground (
      arith,
      has-append a rs (head_of ws),
      has-head_of a ws (h.apart_mutex a k),
      h.apart_runnable a k,
    )

    current_out : has s.current (x ∷ xs) ≡ false
    current_out =
        ap (has s.current) (sym next)
        ∙ ground (
          arith,
          has-append s.current rs (head_of ws),
          has-head_of s.current ws h.out_mutex,
          h.out_runnable,
        )

    runs : (a : ℕ) → has a (x ∷ xs) ≡ true → has a (cs ++ (s.current ∷ [])) ≡ false
    runs a k =
        let k' : has a (rs ++ head_of ws) ≡ true = ap (has a) next ∙ k in
        ground (arith, has-append a cs (s.current ∷ []), not_runnable a, current_out)

    locks : (a : ℕ) → has a (tail_of ws) ≡ true → has a (cs ++ (s.current ∷ [])) ≡ false
    locks a k =
        ground (
          arith,
          has-append a cs (s.current ∷ []),
          has-tail_of a ws k,
          h.apart_mutex a,
          h.out_mutex,
        )
