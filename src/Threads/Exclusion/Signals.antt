-- ===== src/Threads/Exclusion/Signals.antt =====
-- So do signals and broadcasts.
use mathlib.Core.Path.{subst}
use systems_projects.Prelude.{
  ℕ, zero, suc, ◌+◌, ◌<◌, ◌≡◌, refl, sym, ap, ◌∙◌, inl, inr, true, false, ltb, ◌==◌, ◌-◌,
  if◌then◌else◌, some, List, arith, Bool-cases,
}
use systems_projects.Threads.Queue.{Links, Threadq, null, pop_front}
use systems_projects.Threads.Sync.{Ready, Mutex, cond_signal, wake_all, cond_broadcast}
use systems_projects.Threads.Sync.Wake.{wake_all-step}
use systems_projects.Threads.Schedule.{Manager, assign, ready}
use systems_projects.Threads.Exclusion.{world, with_ready}
use systems_projects.Threads.Exclusion.Places.{at_runnable, in_hand}
use systems_projects.Threads.Exclusion.Placed.{pop_condition-Taken}
use systems_projects.Threads.Exclusion.Sleepers.{bind_some}
use systems_projects.Threads.Exclusion.Locks.{Held-still, Sound}
use systems_projects.Threads.Exclusion.Unlocks.{made_runnable}

pop_front-size :
    (h : Links) (q q' : Threadq) (x : ℕ)
    → (q.size == 0) ≡ false
    → pop_front h q ≡ some (x, q')
    → q'.size ≡ q.size - 1
unfolding pop_front
pop_front-size h q q' x full e =
    let (next, is, e') =
      bind_some (h q.front)
        (λ next. some (
          q.front,
          record { front = next; end = if q.size - 1 == 0 then null else q.end; size = q.size - 1 },
        ))
        (x, q') (rw full at e) in
    let same : record {
      front = next;
      end = if q.size - 1 == 0 then null else q.end;
      size = q.size - 1;
    }
        ≡ q' =
      cc in
    sym (ap (λ (r : Threadq). r.size) same)

-- A signal goes on.
pub signalled :
    (s : Manager) (m : Mutex) (c : Threadq) (hs : List ℕ)
    → Sound (world s m c hs)
    → (p : Ready × Threadq) × (cond_signal (ready s) c ≡ some p)
      × (p.1.size ≡ c.size - 1)
      × Sound (world (with_ready s p.0) m p.1 hs)
unfolding cond_signal
signalled s m c hs h = elim (pop_condition-Taken s m.queue c h.at h.placed) [
  | inl (empty, popped, off) ↦ ((ready s, c), rw empty refl, omega (arith, empty), h)
  | inr (x, q, on, some_wait, popped, rest) ↦
      let at1 = assign h.at x in_hand in
      let there : at1 x ≡ in_hand = ground arith in
      let (r, made, placed) = made_runnable s m.queue q at1 x rest there in
      let test : ltb 0 c.size ≡ true = ground (arith, some_wait) in
      (
        (r, q),
        rw (test, popped, made) refl,
        pop_front-size s.links c q x some_wait popped,
        record {
          at = assign at1 x at_runnable;
          placed = placed;
          only = λ a. ground (arith, h.only a, on);
          empty_hand = λ a. ground (arith, h.empty_hand a);
          holds = Held-still m.locked h.at _ hs (λ a. ground (arith, on)) h.holds;
        },
      )
]

pub signals-Sound :
    (s : Manager) (m : Mutex) (c : Threadq) (hs : List ℕ) (p : Ready × Threadq)
    → Sound (world s m c hs)
    → cond_signal (ready s) c ≡ some p
    → Sound (world (with_ready s p.0) m p.1 hs)
signals-Sound s m c hs p h e =
    let (p', done, less, sound) = signalled s m c hs h in
    let same : p' ≡ p = cc in
    subst (λ (r : Ready × Threadq). Sound (world (with_ready s r.0) m r.1 hs)) same sound

-- A broadcast goes on.
pub all_signalled :
    (fuel : ℕ) (s : Manager) (m : Mutex) (c : Threadq) (hs : List ℕ)
    → Sound (world s m c hs)
    → c.size < fuel
    → (p : Ready × Threadq) × (wake_all fuel (ready s) c ≡ some p)
unfolding wake_all
all_signalled zero s m c hs h enough = absurd (omega arith)
all_signalled (suc fuel) s m c hs h enough = elim (Bool-cases (ltb 0 c.size)) [
  | inl some_wait ↦
      let (p, done, less, sound) = signalled s m c hs h in
      let (p', rest) =
        all_signalled fuel (with_ready s p.0) m p.1 hs sound (ground (arith, less)) in
      (p', wake_all-step fuel (ready s) p.0 c p.1 some_wait done ∙ rest)
  | inr none_wait ↦ ((ready s, c), ground arith)
]

woken_all :
    (fuel : ℕ) (s : Manager) (m : Mutex) (c : Threadq) (hs : List ℕ) (p : Ready × Threadq)
    → Sound (world s m c hs)
    → wake_all fuel (ready s) c ≡ some p
    → Sound (world (with_ready s p.0) m p.1 hs)
unfolding wake_all
woken_all zero s m c hs p h e = absurd (cc)
woken_all (suc fuel) s m c hs p h e = elim (Bool-cases (ltb 0 c.size)) [
  | inl some_wait ↦
      let (p', done, less, sound) = signalled s m c hs h in
      let more = wake_all-step fuel (ready s) p'.0 c p'.1 some_wait done in
      woken_all fuel (with_ready s p'.0) m p'.1 hs p sound (sym more ∙ e)
  | inr none_wait ↦
      let done : wake_all (suc fuel) (ready s) c ≡ some (ready s, c) = ground arith in
      let same : (ready s, c) ≡ p = cc in
      subst (λ (r : Ready × Threadq). Sound (world (with_ready s r.0) m r.1 hs)) same h
]

pub broadcasts-Sound :
    (s : Manager) (m : Mutex) (c : Threadq) (hs : List ℕ) (p : Ready × Threadq)
    → Sound (world s m c hs)
    → cond_broadcast (ready s) c ≡ some p
    → Sound (world (with_ready s p.0) m p.1 hs)
unfolding cond_broadcast
broadcasts-Sound s m c hs p h e = woken_all (c.size + 1) s m c hs p h e
