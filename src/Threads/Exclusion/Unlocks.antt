-- ===== src/Threads/Exclusion/Unlocks.antt =====
-- So do unlocks and waits for the condition.
use mathlib.Core.Path.{subst}
use systems_projects.Prelude.{
  ℕ, ◌≡◌, refl, ap, ◌∙◌, inl, inr, true, false, ltb, ◌==◌, ◌-◌, if◌then◌else◌, some, List, [], ◌∷◌,
  arith, ==_iff,
}
use systems_projects.Threads.Queue.{Links, Threadq, null, pop_front}
use systems_projects.Threads.Queue.Chain.{has}
use systems_projects.Threads.Sync.{Ready, Mutex, make_runnable, mutex_unlock}
use systems_projects.Threads.Schedule.{Manager, Switch, assign, ready, schedule, cond_wait}
use systems_projects.Threads.Exclusion.{world, released, without, with_ready}
use systems_projects.Threads.Exclusion.Places.{at_runnable, at_condition, running, in_hand}
use systems_projects.Threads.Exclusion.Places.Lines.{null-nowhere}
use systems_projects.Threads.Exclusion.Placed.{
  queues, Placed, push_runnable-Placed, push_condition-Placed, pop_mutex-Taken,
}
use systems_projects.Threads.Exclusion.Sleepers.{bind_some}
use systems_projects.Threads.Exclusion.Dispatch.{current_is, schedule_wait-Turned}
use systems_projects.Threads.Exclusion.Locks.{Held-still, Sound, Turned-Sound}

-- What unlocking by the holder leaves.
pub record Released (s : Manager) (m : Mutex) (c : Threadq) (hs : List ℕ) : Type 0 where
  pub after : Ready
  pub mutex : Mutex
  pub done : mutex_unlock (ready s) m ≡ some (after, mutex)
  pub sound : Sound (world (with_ready s after) mutex c (released s m hs))

own_gone :
    (s : Manager) (hs : List ℕ) (h : ℕ)
    → hs ≡ h ∷ []
    → has s.current hs ≡ true
    → without s.current hs ≡ []
own_gone s hs h one in_ =
    let own : (s.current == h) ≡ true = ground (arith, ap (has s.current) one) in
    ap (without s.current) one ∙ rw own refl

-- The thread that a queue gives is its first one.
pop_front-front :
    (h : Links) (q q' : Threadq) (x : ℕ)
    → (q.size == 0) ≡ false
    → pop_front h q ≡ some (x, q')
    → q.front ≡ x
unfolding pop_front
pop_front-front h q q' x full e =
    let (next, is, e') =
      bind_some (h q.front)
        (λ next. some (
          q.front,
          record { front = next; end = if q.size - 1 == 0 then null else q.end; size = q.size - 1 },
        ))
        (x, q') (rw full at e) in
    cc

-- A thread in hand is put behind the runnable ones.
pub made_runnable :
    (s : Manager) (m c : Threadq) (at : ℕ → ℕ) (x : ℕ)
    → Placed s m c at
    → at x ≡ in_hand
    → (r : Ready) × (make_runnable (ready s) x ≡ some r)
      × Placed (with_ready s r) m c (assign at x at_runnable)
unfolding make_runnable
made_runnable s m c at x h on =
    let (r, pushed, after) =
      push_runnable-Placed s m c at h x (omega (arith, on)) (omega (arith, on))
        (ground (arith, on)) in
    (record { links = r.0; runnable = r.1 }, rw pushed refl, after)

pub holder-Released :
    (s : Manager) (m : Mutex) (c : Threadq) (hs : List ℕ)
    → Sound (world s m c hs)
    → has s.current hs ≡ true
    → Released s m c hs
unfolding mutex_unlock
holder-Released s m c hs h in_ = elim (h.holds) [
  | inl (open_lock, none_wait, none_hold) ↦ absurd (ground (arith, ap (has s.current) none_hold))
  | inr (holder, full, one) ↦
      let gone = own_gone s hs holder one in_ in
      elim (pop_mutex-Taken s m.queue c h.at h.placed) [
        | inl (empty, popped, off) ↦ record {
          after = ready s;
          mutex = record m { locked = 0 };
          done = rw empty refl;
          sound = record {
            at = h.at;
            placed = h.placed;
            only = h.only;
            empty_hand = h.empty_hand;
            holds = inl (refl, off, rw (empty, gone) refl);
          };
        }
        | inr (x, q, on, some_wait, popped, rest) ↦
            let at1 = assign h.at x in_hand in
            let there : at1 x ≡ in_hand = ground arith in
            let (r, made, placed) = made_runnable s q c at1 x rest there in
            let test : ltb 0 m.queue.size ≡ true = ground (arith, some_wait) in
            let front = pop_front-front s.links m.queue q x some_wait popped in
            let is : (x == null) ≡ false =
              ground (arith, null-nowhere s.links (queues s m.queue c) h.at h.placed.lines, on) in
            record {
              after = r;
              mutex = record m { queue = q };
              done = rw (test, popped, is, made) refl;
              sound = record {
                at = assign at1 x at_runnable;
                placed = placed;
                only = λ a. ground (arith, h.only a, on);
                empty_hand = λ a. ground (arith, h.empty_hand a);
                holds = inr (x, full, rw (test, gone, front) refl);
              };
            }
      ]
]

pub unlocks-Sound :
    (s : Manager) (m : Mutex) (c : Threadq) (hs : List ℕ) (p : Ready × Mutex)
    → Released s m c hs
    → mutex_unlock (ready s) m ≡ some p
    → Sound (world (with_ready s p.0) p.1 c (released s m hs))
unlocks-Sound s m c hs p u e =
    let done = u.done in
    let same : (u.after, u.mutex) ≡ p = cc in
    subst (λ (r : Ready × Mutex). Sound (world (with_ready s r.0) r.1 c (released s m hs))) same
      u.sound

-- Behind the unlocking the running thread waits on the other queue.
pub waits-Sound :
    (s : Manager) (m : Mutex) (c : Threadq) (hs : List ℕ) (p : Manager × Threadq × Mutex × Switch)
    → Released s m c hs
    → cond_wait s c m ≡ some p
    → Sound (world p.0 p.2 p.1 (released s m hs))
unfolding cond_wait
waits-Sound s m c hs p u e =
    let done = u.done in
    let h = u.sound in
    let s1 = with_ready s u.after in
    let on : h.at s.current ≡ running = (==_iff _ _).0 (h.only s.current ∙ ground arith) in
    let (r, pushed, placed) =
      push_condition-Placed s1 u.mutex.queue c h.at h.placed s.current (omega (arith, on))
        (omega (arith, on)) (ground (arith, on)) in
    let s2 = record s1 { links = r.0 } in
    let (t, next, e') =
      bind_some (schedule 2 s2) (λ t. some (t.0, r.1, u.mutex, t.1)) p (rw (done, pushed) at e) in
    let turned =
      schedule_wait-Turned s2 u.mutex.queue r.1 (assign h.at s.current at_condition) t placed
        (λ a. ground (arith, h.empty_hand a)) (λ a. ground (arith, h.only a))
        (current_is s1 u.mutex.queue c h.at t h.placed h.empty_hand on) next in
    let same : (t.0, r.1, u.mutex, t.1) ≡ p = cc in
    subst (λ (r : Manager × Threadq × Mutex × Switch). Sound (world r.0 r.2 r.1 (released s m hs)))
      same
      (Turned-Sound t.0 u.mutex r.1 (released s m hs) (assign h.at s.current at_condition) turned
        (Held-still u.mutex.locked h.at _ (released s m hs) (λ a. ground (arith, on)) h.holds))
