-- ===== src/ThreadPool/Drain.antt =====
-- The end of a pool of CentralPropagator/thread_pool.c: `tp_shutdown` waits for its threads, and by
-- then every job has run.
use ikp_data_propagator.Prelude.{
  count, ℕ, zero, suc, ◌+◌, ◌<◌, ◌≤◌, ◌≡◌, refl, ap, sym, ◌∙◌, Bool, true, false, ◌&&◌, ◌||◌, not,
  Option, none, some, List, [], ◌∷◌, ltb, arith, length, Bool-cases, inl, inr,
}
use ikp_data_propagator.ThreadPool.{
  ThreadPool, tp_create, Action, check, push, take, finish, begin, post, pick, tp_check, tp_push,
  worker_take, worker_finish, posting, shutdown_post, step, and_run, run, started_of,
}
use ikp_data_propagator.ThreadPool.Jobs.{
  queued, stops, IsOrdered, queued-none, IsOrdered-none, IsOrdered-of_stops,
}
use ikp_data_propagator.ThreadPool.Shutdown.{IsCounted, Counts, step-IsCounted}

-- During a shutdown that began with no submission under way: no job is behind a NULL, and none is
-- in the queue once a thread has ended.
pub record IsClosing (p : ThreadPool) : Type 0 where
  pub shut : p.shutting_down ≡ true
  pub quiet : p.submitting ≡ []
  pub ordered : IsOrdered p.queue
  pub drained : 0 < p.ended → (j : ℕ) → queued j p.queue ≡ 0

abbrev Closes : Option ThreadPool → Type 0
Closes none = Unit {0}
Closes (some p) = IsClosing p

true-false : true ≡ false → ⊥
true-false e = cc

module _ (p : ThreadPool) (c : IsClosing p) where
  check-IsClosing : (job : ℕ) (memory : Bool) → Closes (some (tp_check job memory p))
  check-IsClosing job memory = elim (Bool-cases (p.shutting_down || not memory)) [
    | inl refuses ↦ rw refuses c
    | inr accepts ↦ absurd (true-false (sym (ap (λ b. b || not memory) c.shut) ∙ accepts))
  ]

  push-IsClosing : (i : ℕ) (node : Bool) → Closes (tp_push p node (pick i p.submitting))
  unfolding pick
  push-IsClosing i true = rw c.quiet tt
  push-IsClosing i false = rw c.quiet tt

  take-IsClosing : (n : ℕ) (q : List (Option ℕ)) → p.queue ≡ q → Closes (worker_take p n q)
  unfolding IsOrdered queued
  take-IsClosing zero q f = tt
  take-IsClosing (suc n) [] f = tt
  take-IsClosing (suc n) (none ∷ q) f =
      let o = rw f at c.ordered in
      record { shut = c.shut; quiet = c.quiet; ordered = o.1; drained = λ _. o.0 }
  take-IsClosing (suc n) (some job ∷ q) f =
      let o = rw f at c.ordered in
      record {
        shut = c.shut;
        quiet = c.quiet;
        ordered = o;
        drained = λ pos j. omega (arith, c.drained pos j, ap (queued j) f);
      }

  finish-IsClosing : (r : Option (ℕ × List ℕ)) → Closes (worker_finish p r)
  finish-IsClosing none = tt
  finish-IsClosing (some (job, rest)) = record {
    shut = c.shut;
    quiet = c.quiet;
    ordered = c.ordered;
    drained = c.drained;
  }

  posting-IsClosing : (node : Bool) → IsClosing (posting p node)
  posting-IsClosing true = record {
    shut = c.shut;
    quiet = c.quiet;
    ordered = IsOrdered-none p.queue c.ordered;
    drained = λ pos j. queued-none j p.queue ∙ c.drained pos j;
  }
  posting-IsClosing false = record {
    shut = c.shut;
    quiet = c.quiet;
    ordered = c.ordered;
    drained = c.drained;
  }

  post-IsClosing : (node : Bool) → Closes (shutdown_post p node)
  post-IsClosing node = elim (Bool-cases (p.shutting_down && ltb p.posted p.thread_count)) [
    | inr stops_here ↦ rw stops_here tt
    | inl goes_on ↦ rw goes_on (posting-IsClosing node)
  ]

  step-IsClosing : (a : Action) → Closes (step a p)
  unfolding step
  step-IsClosing (check job memory) = check-IsClosing job memory
  step-IsClosing (push i node) = push-IsClosing i node
  step-IsClosing take = take-IsClosing p.idle p.queue refl
  step-IsClosing (finish i) = finish-IsClosing (pick i p.running)
  step-IsClosing begin = record {
    shut = refl;
    quiet = c.quiet;
    ordered = c.ordered;
    drained = c.drained;
  }
  step-IsClosing (post node) = post-IsClosing node

-- A property of states that each step keeps, along a run.
abbrev pub Holds : (ThreadPool → Type 0) → Option ThreadPool → Type 0
Holds P none = Unit {0}
Holds P (some p) = P p

module _ (P : ThreadPool → Type 0)
    (keeps : (a : Action) (p : ThreadPool) → P p → Holds P (step a p)) where
  and_run-Holds :
      (as' : List Action) (r : Option ThreadPool)
      → Holds P r
      → ((p : ThreadPool) → P p → Holds P (run as' p))
      → Holds P (and_run (run as') r)
  and_run-Holds as' none h rest = tt
  and_run-Holds as' (some p) h rest = rest p h

  pub run-Holds : (as' : List Action) (p : ThreadPool) → P p → Holds P (run as' p)
  unfolding run
  run-Holds [] p h = h
  run-Holds (a ∷ as') p h = and_run-Holds as' (step a p) (keeps a p h) (run-Holds as')

abbrev pub IsCountedBy : List Bool → ThreadPool → Type 0
IsCountedBy ts p = IsCounted p × (p.thread_count ≡ length ts) × (p.started ≡ started_of ts)

Counts-Holds :
    (ts : List Bool) (p : ThreadPool) (r : Option ThreadPool)
    → p.thread_count ≡ length ts
    → p.started ≡ started_of ts
    → Counts p r
    → Holds (IsCountedBy ts) r
Counts-Holds ts p none e f c = tt
Counts-Holds ts p (some p') e f c = (c.0, c.1 ∙ e, c.2 ∙ f)

Closes-Holds : (r : Option ThreadPool) → Closes r → Holds IsClosing r
Closes-Holds none c = tt
Closes-Holds (some p) c = c

started_le : (ts : List Bool) → started_of ts ≤ length ts
unfolding started_of
started_le [] = omega arith
started_le (true ∷ ts) = omega (arith, started_le ts)
started_le (false ∷ ts) = omega (arith, started_le ts)

tp_create-IsCounted : (ts : List Bool) → IsCounted (tp_create ts)
unfolding count queued stops
tp_create-IsCounted ts = record {
  enough = started_le ts;
  jobs = λ j. refl;
  threads = omega arith;
  posts = refl;
  few = omega arith;
  flag = λ _. refl;
}

pub run-IsCounted :
    (ts : List Bool) (as' : List Action) (p : ThreadPool)
    → IsCountedBy ts p
    → Holds (IsCountedBy ts) (run as' p)
run-IsCounted ts as' p c =
    run-Holds (IsCountedBy ts)
      (λ a p c. Counts-Holds ts p (step a p) c.1 c.2 (step-IsCounted p c.0 a)) as' p c

pub reached-IsCounted :
    (ts : List Bool) (as' : List Action) (p : ThreadPool)
    → run as' (tp_create ts) ≡ some p
    → IsCountedBy ts p
reached-IsCounted ts as' p e =
    rw e at (run-IsCounted ts as' (tp_create ts) (tp_create-IsCounted ts, refl, refl))

-- However the callers and the workers of a pool interleave, at every moment each accepted job is
-- once in a call, in the queue, running, executed or lost, each thread waits, runs or has ended, and no
-- more threads have ended than NULLs were put into the queue, which are at most one for each.
pub jobs_lem :
    (ts : List Bool) (as' : List Action) (p : ThreadPool)
    → run as' (tp_create ts) ≡ some p
    → IsCounted p
jobs_lem ts as' p e = (reached-IsCounted ts as' p e).0

begin-IsClosing :
    (p : ThreadPool)
    → IsCounted p
    → p.submitting ≡ []
    → p.shutting_down ≡ false
    → IsClosing (record p { shutting_down = true })
begin-IsClosing p c quiet off =
    let none_posted = c.flag off in
    record {
      shut = refl;
      quiet = quiet;
      ordered = IsOrdered-of_stops p.queue (omega (arith, c.posts));
      drained = λ pos. absurd (omega (arith, c.posts));
    }

empty : (xs : List ℕ) → length xs ≡ 0 → xs ≡ []
empty [] e = refl
empty (x ∷ xs) e = absurd (omega arith)

-- At the end of the waits of `tp_shutdown` every accepted job has been executed once, or is lost.
drained_lem :
    (p : ThreadPool)
    → IsCounted p
    → IsClosing p
    → 0 < p.started
    → p.ended ≡ p.started
    → (j : ℕ) → count j p.executed + count j p.lost ≡ count j p.submitted
unfolding count
drained_lem p c k pos over j =
    let none_running : p.running ≡ [] = empty p.running (omega (arith, c.threads)) in
    omega
      (arith, c.jobs j, k.drained (omega arith) j, ap (count j) none_running, ap (count j) k.quiet)

-- The shutdown of a pool one of whose threads was started, from any state that it can be in with no
-- `tp_submit` under way: when the threads that were started have ended, however they and late
-- callers interleave, and whichever enqueues fail, every job for which `tp_submit` ever returned
-- true has been executed, as often as it was accepted, or is lost because the queue could not take
-- it.
pub shutdown_lem :
    (ts : List Bool) (before after : List Action) (p q : ThreadPool)
    → 0 < started_of ts
    → run before (tp_create ts) ≡ some p
    → p.submitting ≡ []
    → p.shutting_down ≡ false
    → run (begin ∷ after) p ≡ some q
    → q.ended ≡ started_of ts
    → (j : ℕ) → count j q.executed + count j q.lost ≡ count j q.submitted
unfolding run step
shutdown_lem ts before after p q pos reached quiet off closed over j =
    let cp = reached-IsCounted ts before p reached in
    let cq = rw closed at (run-IsCounted ts (begin ∷ after) p cp) in
    let kq = rw closed at (
      run-Holds IsClosing (λ a p k. Closes-Holds (step a p) (step-IsClosing p k a)) after
        (record p { shutting_down = true }) (begin-IsClosing p cp.0 quiet off)) in
    drained_lem q cq.0 kq (omega (arith, cq.2)) (over ∙ sym cq.2) j
