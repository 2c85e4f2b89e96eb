-- ===== src/Threads/Exclusion/Starts.antt =====
-- So does the creation of a thread.
use mathlib.Core.Path.{subst}
use systems_projects.Prelude.{
  ℕ, ◌≡◌, refl, inl, inr, true, false, none, some, List, ◌==◌, ◌||◌, ltb, arith, Bool-cases,
}
use systems_projects.Threads.Queue.{Threadq, null, update}
use systems_projects.Threads.Sync.{Mutex}
use systems_projects.Threads.Schedule.{Manager, assign, push_runnable, create}
use systems_projects.Threads.Exclusion.{world}
use systems_projects.Threads.Exclusion.Places.{at_runnable, in_hand, nowhere, other-Lined}
use systems_projects.Threads.Exclusion.Placed.{queues, Placed, push_runnable-Placed}
use systems_projects.Threads.Exclusion.Locks.{Sound, Held-still}

abbrev pub created : Manager → ℕ → Manager
created s t = record s {
  links = update s.links t (some null);
  dead = assign s.dead t 0;
  waiter = assign s.waiter t null;
}

-- Memory that no thread has becomes a thread.
module _ (s : Manager) (m c : Threadq) (at : ℕ → ℕ) (h : Placed s m c at) (t : ℕ)
    (fresh : s.links t ≡ none) (is : (null == t) ≡ false) where
  pub unknown : (at t == nowhere) || ltb nowhere (at t) ≡ true
  unknown = elim (Bool-cases (ltb (at t) nowhere)) [
    | inl in_ ↦ let (v, has_next) = h.lines.threads t (ground arith) in absurd (cc)
    | inr out ↦ ground arith
  ]

  pub created-Placed : Placed (created s t) m c (assign at t in_hand)
  created-Placed =
      let out = unknown in
      record {
        lines = record {
          line = λ i k.
              other-Lined s.links (created s t).links (queues s m c i) at i t in_hand
                (h.lines.line i k) (λ a on. ground (arith, on)) (ground arith) (ground arith);
          threads = λ a k. elim (Bool-cases (t == a)) [
            | inl same ↦ (null, rw same refl)
            | inr ne ↦ let (v, has_next) = h.lines.threads a (ground arith) in (v, rw ne has_next)
          ];
          absent = ground (arith, is, h.lines.absent);
        };
        lives = record {
          alive = λ a k. ground (arith, h.lives.alive a);
          joined = λ a k. ground (arith, h.lives.joined a);
          unique =
              λ a b k k' e. ground (arith, h.lives.unique a b, h.lives.joined a, h.lives.joined b);
        };
      }

pub creates-Sound :
    (t : ℕ) (s : Manager) (m : Mutex) (c : Threadq) (hs : List ℕ) (s' : Manager)
    → s.links t ≡ none
    → (null == t) ≡ false
    → create t s ≡ some s'
    → Sound (world s m c hs)
    → Sound (world s' m c hs)
unfolding create push_runnable
creates-Sound t s m c hs s' fresh is e h =
    let at1 = assign h.at t in_hand in
    let there : at1 t ≡ in_hand = ground arith in
    let out = unknown s m.queue c h.at h.placed t fresh is in
    let (r, pushed, after) =
      push_runnable-Placed (created s t) m.queue c at1
        (created-Placed s m.queue c h.at h.placed t fresh is) t (omega (arith, there))
        (omega (arith, there)) (ground (arith, there)) in
    let s1 = record (created s t) { links = r.0; runnable = r.1 } in
    let done : create t s ≡ some s1 = rw pushed refl in
    let same : s1 ≡ s' = cc in
    subst (λ r. Sound (world r m c hs)) same
      (record {
        at = assign at1 t at_runnable;
        placed = after;
        only = λ a. ground (arith, h.only a);
        empty_hand = λ a. ground (arith, h.empty_hand a);
        holds = Held-still m.locked h.at _ hs (λ a. ground arith) h.holds;
      })
