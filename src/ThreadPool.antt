-- ===== src/ThreadPool.antt =====
-- CentralPropagator/thread_pool.c as a state machine. An action is what one thread does between two
-- points at which others may run; a job is a number. The queue of tasks is without a capacity, and
-- is the list that a queue of Common/tsqueue.c stands for, `none` for NULL.
pub mod Jobs
pub mod Shutdown
pub mod Drain
pub mod Steps
pub mod Progress
pub mod Blocks
use ikp_data_propagator.Prelude.{
  ℕ, zero, suc, ◌+◌, ◌<◌, Bool, true, false, ◌&&◌, ◌||◌, not, Option, none, some, List, [], ◌∷◌,
  ◌++◌, ltb, length, if◌then◌else◌,
}

-- `struct ThreadPool` with its threads: how many wait for a task or are between two, the jobs that
-- the others run, and how many have left their loop; `started` is the number of those that
-- `CreateThread` gave. `submitting` are the jobs of the calls of
-- `tp_submit` between the test and the queue; `posted` counts the rounds of the shutdown's loop, and `unposted` those whose enqueue failed.
-- `lost` are the jobs whose enqueue failed.
-- `submitted` and `executed` record what happened, the latest first.
pub record ThreadPool : Type 0 where
  pub thread_count : ℕ
  pub started : ℕ
  pub idle : ℕ
  pub running : List ℕ
  pub ended : ℕ
  pub queue : List (Option ℕ)
  pub shutting_down : Bool
  pub posted : ℕ
  pub unposted : ℕ
  pub submitting : List ℕ
  pub submitted : List ℕ
  pub executed : List ℕ
  pub lost : List ℕ

-- The rounds of the loop of `tp_create` whose `CreateThread` gives a thread.
unfoldable pub started_of : List Bool → ℕ
started_of [] = 0
started_of (given ∷ rest) = (if given then 1 else 0) + started_of rest

-- `tp_create`, where its allocations succeed, by what `CreateThread` gives in each round: a failure
-- of it is not noticed.
abbrev pub tp_create : List Bool → ThreadPool
tp_create threads = record {
  thread_count = length threads;
  started = started_of threads;
  idle = started_of threads;
  running = [];
  ended = 0;
  queue = [];
  shutting_down = false;
  posted = 0;
  unposted = 0;
  submitting = [];
  submitted = [];
  executed = [];
  lost = [];
}

-- `check` is the test of `tp_submit` with its allocation, and `push` its enqueue, for the caller at
-- a position, with whether the queue's `malloc` gives a node; `take` is a worker's dequeue and `finish` the return of a job; `begin` sets the flag
-- of the shutdown and `post` is a round of its first loop,
-- with the same.
pub data Action : Type 0 where
  check : ℕ → Bool → Action
  push : ℕ → Bool → Action
  take : Action
  finish : ℕ → Action
  begin : Action
  post : Bool → Action

abbrev pub picked : ℕ → Option (ℕ × List ℕ) → Option (ℕ × List ℕ)
picked x none = none
picked x (some (y, ys)) = some (y, x ∷ ys)

-- The entry at a position, and the others.
unfoldable pub pick : ℕ → List ℕ → Option (ℕ × List ℕ)
pick i [] = none
pick zero (x ∷ xs) = some (x, xs)
pick (suc i) (x ∷ xs) = picked x (pick i xs)

-- `tp_submit` refuses during a shutdown, and where `malloc` does.
abbrev pub tp_check : ℕ → Bool → ThreadPool → ThreadPool
tp_check job memory p =
    if p.shutting_down || not memory
    then p
    else record p { submitting = job ∷ p.submitting; submitted = job ∷ p.submitted }

-- `tp_submit` does not look at the result of its enqueue.
abbrev pub tp_push : ThreadPool → Bool → Option (ℕ × List ℕ) → Option ThreadPool
tp_push p node none = none
tp_push p true (some (job, rest)) =
    some (record p { submitting = rest; queue = p.queue ++ some job ∷ [] })
tp_push p false (some (job, rest)) = some (record p { submitting = rest; lost = job ∷ p.lost })

-- A worker's loop from the dequeue on: NULL ends it. An empty queue lets no worker go on.
abbrev pub worker_take : ThreadPool → ℕ → List (Option ℕ) → Option ThreadPool
worker_take p zero q = none
worker_take p (suc n) [] = none
worker_take p (suc n) (none ∷ q) = some (record p { idle = n; ended = p.ended + 1; queue = q })
worker_take p (suc n) (some job ∷ q) =
    some (record p { idle = n; running = job ∷ p.running; queue = q })

-- The job has returned, and the worker goes back to the queue.
abbrev pub worker_finish : ThreadPool → Option (ℕ × List ℕ) → Option ThreadPool
worker_finish p none = none
worker_finish p (some (job, rest)) =
    some (record p { idle = p.idle + 1; running = rest; executed = job ∷ p.executed })

-- Nor does `tp_shutdown`.
abbrev pub posting : ThreadPool → Bool → ThreadPool
posting p true = record p { queue = p.queue ++ none ∷ []; posted = p.posted + 1 }
posting p false = record p { posted = p.posted + 1; unposted = p.unposted + 1 }

abbrev pub shutdown_post : ThreadPool → Bool → Option ThreadPool
shutdown_post p node =
    if p.shutting_down && ltb p.posted p.thread_count then some (posting p node) else none

-- An action, where it is possible.
unfoldable pub step : Action → ThreadPool → Option ThreadPool
unfolding pick
step (check job memory) p = some (tp_check job memory p)
step (push i node) p = tp_push p node (pick i p.submitting)
step take p = worker_take p p.idle p.queue
step (finish i) p = worker_finish p (pick i p.running)
step begin p = some (record p { shutting_down = true })
step (post node) p = shutdown_post p node

abbrev pub and_run : (ThreadPool → Option ThreadPool) → Option ThreadPool → Option ThreadPool
and_run again none = none
and_run again (some p) = again p

unfoldable pub run : List Action → ThreadPool → Option ThreadPool
run [] p = some p
run (a ∷ as') p = and_run (run as') (step a p)
