-- ===== src/Threads/Schedule/Starts.antt =====
-- The main thread and the threads that it creates.
use systems_projects.Prelude.{
  ℕ, ◌≡◌, refl, ap, ◌∙◌, true, false, Option, some, List, [], ◌∷◌, ◌++◌, append_assoc, append-nil,
  arith, ◌>>=◌, Bool-cases, inl, inr,
}
use systems_projects.Threads.Queue.{null, update}
use systems_projects.Threads.Queue.Chain.{
  has, Distinct, IsThread, Apart, IsThread-update, has-append,
}
use systems_projects.Threads.Queue.Fifo.{IsQueue, IsQueue-frame, push_back-Pushed}
use systems_projects.Threads.Schedule.{Manager, push_runnable, assign, no_threads, init, create}

-- Threads are created one after another, at the addresses that `malloc` returns.
abbrev pub create_all : List ℕ → Manager → Option Manager
create_all [] s = some s
create_all (t ∷ ts) s = create t s >>= create_all ts

-- The runnable threads are `us`, all alive and with no one to join them.
pub record Started (s : Manager) (main : ℕ) (us : List ℕ) : Type 0 where
  pub runnable : IsQueue s.links s.runnable us
  pub current : s.current ≡ main
  pub thread : IsThread s.links main
  pub threads : (a : ℕ) → has a us ≡ true → IsThread s.links a
  pub alive : (a : ℕ) → has a us ≡ true → s.dead a ≡ 0
  pub unjoined : (a : ℕ) → has a us ≡ true → s.waiter a ≡ null
  pub asleep : s.sleeping ≡ no_threads

create-Started :
    (s : Manager) (main t : ℕ) (us : List ℕ)
    → Started s main us
    → has t us ≡ false
    → (s' : Manager) × (create t s ≡ some s') × Started s' main (us ++ (t ∷ []))
unfolding create push_runnable
create-Started s main t us h out =
    let l = update s.links t (some null) in
    let queue = IsQueue-frame s.links l s.runnable us (λ a k. other a k) h.runnable in
    let (p, e, pushed) = push_back-Pushed l s.runnable us t queue (null, ground arith) out in
    let s' = record s {
      links = p.0;
      runnable = p.1;
      dead = assign s.dead t 0;
      waiter = assign s.waiter t null;
    } in
    (
      s',
      rw e refl,
      record {
        runnable = pushed.queue;
        current = h.current;
        thread = pushed.threads main (IsThread-update s.links t null main h.thread);
        threads = λ a k. pushed.threads a (there a k);
        alive = λ a k. ground (arith, has-append a us (t ∷ []), h.alive a);
        unjoined = λ a k. ground (arith, has-append a us (t ∷ []), h.unjoined a);
        asleep = h.asleep;
      },
    )
  where
    other : (a : ℕ) → has a us ≡ true → update s.links t (some null) a ≡ s.links a
    other a k = ground (arith, out)

    there : (a : ℕ) → has a (us ++ (t ∷ [])) ≡ true → IsThread (update s.links t (some null)) a
    there a k = elim (Bool-cases (has a us)) [
      | inl old ↦ IsThread-update s.links t null a (h.threads a old)
      | inr new ↦ (null, ground (arith, has-append a us (t ∷ [])))
    ]

-- The threads that follow are on no queue.
create_all-Started :
    (ts us : List ℕ) (s : Manager) (main : ℕ)
    → Started s main us
    → Distinct ts
    → Apart ts us
    → (s' : Manager) × (create_all ts s ≡ some s') × Started s' main (us ++ ts)
create_all-Started [] us s main h distinct apart = (s, refl, rw append-nil h)
create_all-Started (t ∷ ts) us s main h (new, distinct) apart =
    let (s1, e, h1) = create-Started s main t us h (apart t (ground arith)) in
    let (s2, e', h2) =
      create_all-Started ts (us ++ (t ∷ [])) s1 main h1 distinct
        (λ a k. ground (arith, has-append a us (t ∷ []), apart a, new)) in
    (s2, ap (λ (o : Option Manager). o >>= create_all ts) e ∙ e', rw append_assoc at h2)

-- After the library has been set up, and threads have been created at different addresses, just those
-- are runnable, in the order of their creation, alive and with no thread that joins them; the main
-- thread runs, and none sleeps.
pub init-Started :
    (s : Manager) (main next : ℕ) (ts : List ℕ)
    → Distinct ts
    → (s' : Manager) × (create_all ts (init main next s) ≡ some s') × Started s' main ts
unfolding init
init-Started s main next ts distinct =
    create_all-Started ts [] (init main next s) main
      (record {
        runnable = refl;
        current = refl;
        thread = (next, ground arith);
        threads = λ a k. cc;
        alive = λ a k. cc;
        unjoined = λ a k. cc;
        asleep = refl;
      })
      distinct (λ a k. refl)
