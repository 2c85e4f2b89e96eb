-- ===== src/Threads/Exclusion/Safety.antt =====
-- At most one thread holds the mutex at a time.
use systems_projects.Prelude.{
  ℕ, ◌≤◌, ◌≡◌, refl, ap, inl, inr, false, none, List, [], ◌==◌, length, if◌then◌else◌, arith,
}
use systems_projects.Threads.Queue.{null}
use systems_projects.Threads.Sync.{mutex_create, cond_create}
use systems_projects.Threads.Schedule.{Manager, init}
use systems_projects.Threads.Exclusion.{
  World, world, Step, locks, unlocks, waits, signals, broadcasts, yields, sleeps, creates, exits,
  joins, tests, Reaches, here, there,
}
use systems_projects.Threads.Exclusion.Places.{running, nowhere}
use systems_projects.Threads.Exclusion.Locks.{Held, Sound, locks-Sound, yields-Sound, sleeps-Sound}
use systems_projects.Threads.Exclusion.Unlocks.{holder-Released, unlocks-Sound, waits-Sound}
use systems_projects.Threads.Exclusion.Signals.{signals-Sound, broadcasts-Sound}
use systems_projects.Threads.Exclusion.Starts.{creates-Sound}
use systems_projects.Threads.Exclusion.Joins.{joins-Sound, tests-Sound}
use systems_projects.Threads.Exclusion.Ends.{exits-Sound}

pub Step-Sound : (v w : World) → Step v w → Sound v → Sound w
Step-Sound _ _ (locks s m c hs p e) h = locks-Sound s m c hs h p e
Step-Sound _ _ (unlocks s m c hs p in_ e) h =
    unlocks-Sound s m c hs p (holder-Released s m c hs h in_) e
Step-Sound _ _ (waits s m c hs p in_ e) h =
    waits-Sound s m c hs p (holder-Released s m c hs h in_) e
Step-Sound _ _ (signals s m c hs p e) h = signals-Sound s m c hs p h e
Step-Sound _ _ (broadcasts s m c hs p e) h = broadcasts-Sound s m c hs p h e
Step-Sound _ _ (yields s m c hs p e) h = yields-Sound s m c hs h p e
Step-Sound _ _ (sleeps usecs s m c hs p e) h = sleeps-Sound s m c hs h usecs p e
Step-Sound _ _ (creates t s m c hs s' fresh is e) h = creates-Sound t s m c hs s' fresh is e h
Step-Sound _ _ (exits val s m c hs p e) h = exits-Sound s m c hs h val p e
Step-Sound _ _ (joins t s m c hs p e) h = joins-Sound s m c hs h t p e
Step-Sound _ _ (tests t s m c hs p e) h = tests-Sound s m c hs h t p e

Held-length : (locked : ℕ) (at : ℕ → ℕ) (hs : List ℕ) → Held locked at hs → length hs ≤ 1
Held-length locked at hs (inl (_, _, e)) = omega (arith, ap length e)
Held-length locked at hs (inr (h, _, e)) = omega (arith, ap length e)

Reaches-keeps : (u w : World) → Reaches u w → Sound u → Sound w
Reaches-keeps u _ (here _) h = h
Reaches-keeps u _ (there _ v w r st) h = Step-Sound v w st (Reaches-keeps u v r h)

-- The library, a mutex and a condition variable as `qthread_init`, `qthread_mutex_create` and
-- `qthread_cond_create` leave them.
abbrev pub booted : (main next : ℕ) (front end front' end' : ℕ) → Manager → World
booted main next front end front' end' s =
    world (init main next s) (mutex_create front end) (cond_create front' end') []

pub booted-Sound :
    (main next : ℕ) (front end front' end' : ℕ) (s : Manager)
    → s.links null ≡ none
    → (main == null) ≡ false
    → (s.dead main == 1) ≡ false
    → s.waiter main ≡ null
    → Sound (booted main next front end front' end' s)
unfolding init mutex_create cond_create
booted-Sound main next front end front' end' s absent is lives unjoined =
    let at : ℕ → ℕ = λ a. if main == a then running else nowhere in
    record {
      at = at;
      placed = record {
        lines = record {
          line = λ p k. record { list = []; queue = ground arith; place = λ a. ground arith };
          threads = λ a k. (next, ground arith);
          absent = ground (arith, is, absent);
        };
        lives = record {
          alive = λ a k. ground (arith, lives);
          joined = λ a k. ground (arith, unjoined);
          unique = λ a b k k' e. ground arith;
        };
      };
      only = λ a. ground arith;
      empty_hand = λ a. ground arith;
      holds = inl (refl, λ a. ground arith, refl);
    }

-- From the start of the library, in memory where no thread is at NULL and the structure of the main
-- thread, not at NULL, has 0 or 2 and more in `dead` and NULL in `waiter`, threads lock and unlock a
-- mutex, wait for a condition, signal it and broadcast it, yield, sleep, create threads, end and join
-- each other, in any order, where only a thread that holds the mutex unlocks it or waits for the
-- condition, and a new thread is not at NULL and where no other is. At any time at most one thread holds
-- the mutex, `locked` is 1 when one does, and 0 when none does, and then no thread waits for the mutex;
-- and the four queues are those of different threads, none on two of them, the running one on none, and
-- of no thread that has ended; and a thread that has not ended is joined by none, or by one that waits
-- for it and for no other.
pub Reaches-Sound :
    (main next : ℕ) (front end front' end' : ℕ) (s : Manager) (w : World)
    → s.links null ≡ none
    → (main == null) ≡ false
    → (s.dead main == 1) ≡ false
    → s.waiter main ≡ null
    → Reaches (booted main next front end front' end' s) w
    → (length w.holders ≤ 1) × Sound w
Reaches-Sound main next front end front' end' s w absent is lives unjoined r =
    let h =
      Reaches-keeps (booted main next front end front' end' s) w r
        (booted-Sound main next front end front' end' s absent is lives unjoined) in
    (Held-length w.mutex.locked h.at w.holders h.holds, h)
