-- ===== src/ThreadPool/Shutdown.antt =====
-- No job of the pool in CentralPropagator/thread_pool.c is lost, and none runs twice.
use ikp_data_propagator.Prelude.{
  count, ℕ, zero, suc, ◌+◌, ◌≤◌, ◌≡◌, refl, ap, sym, ◌∙◌, ◌<◌, Bool, true, false, ◌&&◌, ◌||◌, not,
  Option, none, some, List, [], ◌∷◌, ltb, arith, length, Bool-cases, inl, inr,
}
use ikp_data_propagator.ThreadPool.{
  ThreadPool, Action, check, push, take, finish, begin, post, pick, tp_check, tp_push, worker_take,
  worker_finish, posting, shutdown_post, step,
}
use ikp_data_propagator.ThreadPool.Jobs.{
  queued, stops, queued-some, queued-none, stops-some, stops-none, Picks, pick-Picks,
}

-- Each submitted job is at one place, or lost; each thread does one thing; each NULL that was posted
-- is in the queue, or has ended a thread, or could not be put into the queue.
pub record IsCounted (p : ThreadPool) : Type 0 where
  pub jobs :
      (j : ℕ)
      → count j p.executed
          + count j p.running
          + queued j p.queue
          + count j p.submitting
          + count j p.lost
        ≡ count j p.submitted
  pub threads : p.idle + length p.running + p.ended ≡ p.started
  pub posts : stops p.queue + p.ended + p.unposted ≡ p.posted
  pub few : p.posted ≤ p.thread_count
  pub enough : p.started ≤ p.thread_count
  pub flag : p.shutting_down ≡ false → p.posted ≡ 0

abbrev pub Counts : ThreadPool → Option ThreadPool → Type 0
Counts p none = Unit {0}
Counts p (some p') = IsCounted p' × (p'.thread_count ≡ p.thread_count) × (p'.started ≡ p.started)

pub both : (b : Bool) (i n : ℕ) → (b && ltb i n) ≡ true → (b ≡ true) × (i < n)
both b i n e = (ground arith, ground arith)

module _ (p : ThreadPool) (c : IsCounted p) where
  check-IsCounted : (job : ℕ) (memory : Bool) → Counts p (some (tp_check job memory p))
  unfolding count
  check-IsCounted job memory = elim (Bool-cases (p.shutting_down || not memory)) [
    | inl refuses ↦ rw refuses (c, refl, refl)
    | inr accepts ↦ rw accepts (
      record {
        jobs = λ j. omega (arith, c.jobs j);
        threads = c.threads;
        posts = c.posts;
        few = c.few;
        enough = c.enough;
        flag = c.flag;
      },
      refl,
      refl,
    )
  ]

  push-IsCounted :
      (node : Bool) (r : Option (ℕ × List ℕ)) → Picks p.submitting r → Counts p (tp_push p node r)
  unfolding count
  push-IsCounted true none k = tt
  push-IsCounted false none k = tt
  push-IsCounted false (some (job, rest)) k = (
    record {
      jobs = λ j. omega (arith, c.jobs j, k.0 j);
      threads = c.threads;
      posts = c.posts;
      few = c.few;
      enough = c.enough;
      flag = c.flag;
    },
    refl,
    refl,
  )
  push-IsCounted true (some (job, rest)) k = (
    record {
      jobs = λ j. omega (arith, c.jobs j, queued-some j job p.queue, k.0 j);
      threads = c.threads;
      posts = omega (arith, c.posts, stops-some job p.queue);
      few = c.few;
      enough = c.enough;
      flag = c.flag;
    },
    refl,
    refl,
  )

  take-IsCounted :
      (n : ℕ) (q : List (Option ℕ)) → p.idle ≡ n → p.queue ≡ q → Counts p (worker_take p n q)
  unfolding count queued stops
  take-IsCounted zero q e f = tt
  take-IsCounted (suc n) [] e f = tt
  take-IsCounted (suc n) (none ∷ q) e f = (
    record {
      jobs = λ j. omega (arith, c.jobs j, ap (queued j) f);
      threads = omega (arith, c.threads);
      posts = omega (arith, c.posts, ap stops f);
      few = c.few;
      enough = c.enough;
      flag = c.flag;
    },
    refl,
    refl,
  )
  take-IsCounted (suc n) (some job ∷ q) e f = (
    record {
      jobs = λ j. omega (arith, c.jobs j, ap (queued j) f);
      threads = omega (arith, c.threads);
      posts = omega (arith, c.posts, ap stops f);
      few = c.few;
      enough = c.enough;
      flag = c.flag;
    },
    refl,
    refl,
  )

  finish-IsCounted : (r : Option (ℕ × List ℕ)) → Picks p.running r → Counts p (worker_finish p r)
  unfolding count
  finish-IsCounted none k = tt
  finish-IsCounted (some (job, rest)) k = (
    record {
      jobs = λ j. omega (arith, c.jobs j, k.0 j);
      threads = omega (arith, c.threads, k.1);
      posts = c.posts;
      few = c.few;
      enough = c.enough;
      flag = c.flag;
    },
    refl,
    refl,
  )

  posting_same :
      (node : Bool)
      → ((posting p node).thread_count ≡ p.thread_count) × ((posting p node).started ≡ p.started)
  posting_same true = (refl, refl)
  posting_same false = (refl, refl)

  posting-IsCounted :
      (node : Bool)
      → p.shutting_down ≡ true
      → p.posted < p.thread_count
      → IsCounted (posting p node)
  posting-IsCounted true on lt = record {
    jobs = λ j. omega (arith, c.jobs j, queued-none j p.queue);
    threads = c.threads;
    posts = omega (arith, c.posts, stops-none p.queue);
    few = omega (arith, lt);
    enough = c.enough;
    flag = λ off. let bad : true ≡ false = sym on ∙ off in absurd (cc);
  }
  posting-IsCounted false on lt = record {
    jobs = c.jobs;
    threads = c.threads;
    posts = omega (arith, c.posts);
    few = omega (arith, lt);
    enough = c.enough;
    flag = λ off. let bad : true ≡ false = sym on ∙ off in absurd (cc);
  }

  post-IsCounted : (node : Bool) → Counts p (shutdown_post p node)
  post-IsCounted node = elim (Bool-cases (p.shutting_down && ltb p.posted p.thread_count)) [
    | inr stops_here ↦ rw stops_here tt
    | inl goes_on ↦
        let (on, lt) = both p.shutting_down p.posted p.thread_count goes_on in
        rw goes_on (posting-IsCounted node on lt, (posting_same node).0, (posting_same node).1)
  ]

  pub step-IsCounted : (a : Action) → Counts p (step a p)
  unfolding step
  step-IsCounted (check job memory) = check-IsCounted job memory
  step-IsCounted (push i node) =
      push-IsCounted node (pick i p.submitting) (pick-Picks i p.submitting)
  step-IsCounted take = take-IsCounted p.idle p.queue refl refl
  step-IsCounted (finish i) = finish-IsCounted (pick i p.running) (pick-Picks i p.running)
  step-IsCounted begin = (
    record {
      jobs = c.jobs;
      threads = c.threads;
      posts = c.posts;
      few = c.few;
      enough = c.enough;
      flag = λ off. ground arith;
    },
    refl,
    refl,
  )
  step-IsCounted (post node) = post-IsCounted node
