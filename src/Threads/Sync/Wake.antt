-- ===== src/Threads/Sync/Wake.antt =====
-- Waking moves threads from the front of one queue to the end of the runnable queue, in order.
use systems_projects.Prelude.{
  ℕ, zero, suc, ◌+◌, ◌<◌, ◌≡◌, refl, true, false, some, List, [], ◌∷◌, ◌++◌, append_assoc,
  append-nil, ◌∙◌, arith, ltb, ◌==◌, length,
}
use systems_projects.Threads.Queue.{Links, null, Threadq, pop_front}
use systems_projects.Threads.Queue.Chain.{has, IsThread, has-append}
use systems_projects.Threads.Queue.Fifo.{
  IsQueue, IsQueue-frame, Pushed, push_back-Pushed, pop_front-IsQueue,
}
use systems_projects.Threads.Sync.{
  Ready, Mutex, make_runnable, mutex_unlock, cond_signal, wake_all, cond_broadcast,
}

-- The waiting threads `ws`, on a queue of their own, and the runnable ones `rs`. No thread is on both
-- queues, and the waiting ones are threads, none of them at NULL.
pub record Waiting (r : Ready) (q : Threadq) (ws rs : List ℕ) : Type 0 where
  pub waiting : IsQueue r.links q ws
  pub runnable : IsQueue r.links r.runnable rs
  pub apart : (a : ℕ) → has a ws ≡ true → has a rs ≡ false
  pub threads : (a : ℕ) → has a ws ≡ true → IsThread r.links a
  pub not_null : has null ws ≡ false

pub has_self : (w : ℕ) (ws : List ℕ) → has w (w ∷ ws) ≡ true
has_self w ws = ground arith

module _ (r : Ready) (q : Threadq) (w : ℕ) (ws rs : List ℕ) (h : Waiting r q (w ∷ ws) rs) where
  head_gone : has w ws ≡ false
  head_gone = h.waiting.4.0

  -- The waiting threads behind the one that moved, and the new runnable queue.
  pub moved-Waiting :
      (q' : Threadq) (p : Links × Threadq)
      → IsQueue r.links q' ws
      → Pushed r.links rs w p
      → Waiting (record { links = p.0; runnable = p.1 }) q' ws (rs ++ (w ∷ []))
  moved-Waiting q' p rest pushed =
      let out = λ (a : ℕ) (m : has a ws ≡ true). not_pushed a m in
      record {
        waiting = IsQueue-frame r.links p.0 q' ws (λ a m. pushed.same a (out a m)) rest;
        runnable = pushed.queue;
        apart = out;
        threads = λ a m. pushed.threads a (h.threads a (ground arith));
        not_null = ground (arith, h.not_null);
      }
    where
      not_pushed : (a : ℕ) → has a ws ≡ true → has a (rs ++ (w ∷ [])) ≡ false
      not_pushed a m = ground (arith, has-append a rs (w ∷ []), h.apart a, head_gone)

  -- The first waiting thread moves.
  wake_one :
      (q' : Threadq) × (r' : Ready) × (pop_front r.links q ≡ some (w, q'))
      × (make_runnable r w ≡ some r')
      × Waiting r' q' ws (rs ++ (w ∷ []))
  unfolding make_runnable
  wake_one =
      let (q', popped, rest) = pop_front-IsQueue r.links q w ws h.waiting in
      let self = has_self w ws in
      let pushed =
        push_back-Pushed r.links r.runnable rs w h.runnable (h.threads w self) (h.apart w self) in
      let p = pushed.0 in
      (
        q',
        record { links = p.0; runnable = p.1 },
        popped,
        rw pushed.1,
        moved-Waiting q' p rest pushed.2,
      )

-- Waking the first of some waiting threads puts it behind the runnable ones.
pub cond_signal-Waiting :
    (r : Ready) (q : Threadq) (w : ℕ) (ws rs : List ℕ)
    → Waiting r q (w ∷ ws) rs
    → (r' : Ready) × (q' : Threadq) × (cond_signal r q ≡ some (r', q'))
      × Waiting r' q' ws (rs ++ (w ∷ []))
unfolding cond_signal
cond_signal-Waiting r q w ws rs h =
    let (q', r', popped, made, after) = wake_one r q w ws rs h in
    let some_wait : ltb 0 q.size ≡ true = ground (arith, h.waiting.0) in
    (r', q', rw (some_wait, popped, made), after)

-- With a thread waiting, unlocking hands the mutex over: it stays locked, and the thread that has
-- waited longest, and no other, becomes runnable, behind those that are.
pub mutex_unlock-Waiting :
    (r : Ready) (m : Mutex) (w : ℕ) (ws rs : List ℕ)
    → Waiting r m.queue (w ∷ ws) rs
    → (r' : Ready) × (m' : Mutex) × (mutex_unlock r m ≡ some (r', m'))
      × (m'.locked ≡ m.locked)
      × Waiting r' m'.queue ws (rs ++ (w ∷ []))
unfolding mutex_unlock
mutex_unlock-Waiting r m w ws rs h =
    let (q', r', popped, made, after) = wake_one r m.queue w ws rs h in
    let some_wait : ltb 0 m.queue.size ≡ true = ground (arith, h.waiting.0) in
    let ne : (w == null) ≡ false = ground (arith, h.not_null) in
    (r', record m { queue = q' }, rw (some_wait, popped, ne, made), refl, after)

-- With none waiting, unlocking frees the mutex and changes nothing else.
mutex_unlock-free :
    (r : Ready) (m : Mutex) (rs : List ℕ)
    → Waiting r m.queue [] rs
    → mutex_unlock r m ≡ some (r, record m { locked = 0 })
unfolding mutex_unlock
mutex_unlock-free r m rs h = let e = h.waiting in rw e

pub wake_all-step :
    (fuel : ℕ) (r r' : Ready) (q q' : Threadq)
    → ltb 0 q.size ≡ true
    → cond_signal r q ≡ some (r', q')
    → wake_all (suc fuel) r q ≡ wake_all fuel r' q'
unfolding wake_all
wake_all-step fuel r r' q q' e f = ground arith

wake_all-Waiting :
    (fuel : ℕ) (r : Ready) (q : Threadq) (ws rs : List ℕ)
    → length ws < fuel
    → Waiting r q ws rs
    → (r' : Ready) × (q' : Threadq) × (wake_all fuel r q ≡ some (r', q'))
      × Waiting r' q' [] (rs ++ ws)
unfolding wake_all
wake_all-Waiting zero r q ws rs enough h = absurd (omega arith)
wake_all-Waiting (suc fuel) r q [] rs enough h = let e = h.waiting in (r, q, rw e, rw append-nil h)
wake_all-Waiting (suc fuel) r q (w ∷ ws) rs enough h =
    let (r', q', done, after) = cond_signal-Waiting r q w ws rs h in
    let (r'', q'', rest, end) =
      wake_all-Waiting fuel r' q' ws (rs ++ (w ∷ [])) (omega arith) after in
    let some_wait : ltb 0 q.size ≡ true = ground (arith, h.waiting.0) in
    (r'', q'', wake_all-step fuel r r' q q' some_wait done ∙ rest, rw append_assoc at end)

-- A broadcast ends, without a fault, with every waiting thread runnable, in the order in which they
-- waited and behind those that were runnable, and with none waiting.
pub cond_broadcast-Waiting :
    (r : Ready) (q : Threadq) (ws rs : List ℕ)
    → Waiting r q ws rs
    → (r' : Ready) × (q' : Threadq) × (cond_broadcast r q ≡ some (r', q'))
      × Waiting r' q' [] (rs ++ ws)
unfolding cond_broadcast
cond_broadcast-Waiting r q ws rs h = wake_all-Waiting (q.size + 1) r q ws rs (enough ws h.waiting) h
  where
    enough : (ws : List ℕ) → IsQueue r.links q ws → length ws < q.size + 1
    enough [] e = omega arith
    enough (w ∷ ws) e = omega (arith, e.0)
