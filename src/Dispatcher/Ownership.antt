-- ===== src/Dispatcher/Ownership.antt =====
-- Every warning that CentralPropagator/cp_dispatcher.c is given is destroyed once.
use ikp_data_propagator.Prelude.{
  ℕ, zero, suc, ◌+◌, ◌<◌, ◌≡◌, refl, ap, sym, ◌∙◌, Bool, true, false, ◌||◌, ◌&&◌, ltb, not, Option,
  none, some, List, [], ◌∷◌, count, count-append, arith, Bool-cases, Option-cases, inl, inr,
}
use mathlib.Core.Option.{some-injective}
use mathlib.Core.Path.{subst}
use ikp_data_propagator.ThreadPool.{
  ThreadPool, Action, check, push, take, finish, begin, post, pick, tp_check, tp_push, posting,
  worker_take, step, run, started_of,
}
use ikp_data_propagator.ThreadPool.Drain.{shutdown_lem}
use ikp_data_propagator.Dispatcher.{
  Dispatcher, cp_dispatcher_create, cp_dispatcher_submit, destroyed, DispatcherAction, submit,
  worker, is_check, act, act_all,
}

-- What a run does to the pool.
unfoldable pub pool_actions : List DispatcherAction → List Action
pool_actions [] = []
pool_actions (submit w false memory ∷ as') = pool_actions as'
pool_actions (submit w true memory ∷ as') = check w memory ∷ pool_actions as'
pool_actions (worker a ∷ as') = a ∷ pool_actions as'

submit-pool :
    (w : ℕ) (memory : Bool) (d : Dispatcher)
    → (cp_dispatcher_submit w true memory d).pool ≡ tp_check w memory d.pool
submit-pool w memory d = elim (Bool-cases (d.pool.shutting_down || not memory)) [
  | inl e ↦ rw e refl
  | inr e ↦ rw e refl
]

run-pool :
    (as' : List DispatcherAction) (d e : Dispatcher)
    → act_all as' d ≡ some e
    → run (pool_actions as') d.pool ≡ some e.pool
unfolding act_all act pool_actions run step
run-pool [] d e eq = ap (λ (x : Dispatcher). some x.pool) (some-injective d e eq)
run-pool (submit w false memory ∷ as') d e eq =
    run-pool as' (cp_dispatcher_submit w false memory d) e eq
run-pool (submit w true memory ∷ as') d e eq =
    ap (run (pool_actions as')) (sym (submit-pool w memory d))
    ∙ run-pool as' (cp_dispatcher_submit w true memory d) e eq
run-pool (worker a ∷ as') d e eq = elim (Bool-cases (is_check a)) [
  | inl c ↦ let no : none ≡ some e = rw c at eq in cc
  | inr c ↦ elim (Option-cases (step a d.pool)) [
    | inl s ↦ let no : none ≡ some e = rw (c, s) at eq in cc
    | inr (p, s) ↦ rw s (run-pool as' (record d { pool = p }) e (rw (c, s) at eq))
  ]
]

-- Only a test of a submission adds to what was submitted.
abbrev SameSubmitted : ThreadPool → Option ThreadPool → Type 0
SameSubmitted p none = Unit {0}
SameSubmitted p (some q) = q.submitted ≡ p.submitted

worker_take-SameSubmitted :
    (p : ThreadPool) (n : ℕ) (q : List (Option ℕ)) → SameSubmitted p (worker_take p n q)
worker_take-SameSubmitted p zero q = tt
worker_take-SameSubmitted p (suc n) [] = tt
worker_take-SameSubmitted p (suc n) (none ∷ q) = refl
worker_take-SameSubmitted p (suc n) (some job ∷ q) = refl

no_push-SameSubmitted : (p : ThreadPool) (node : Bool) → SameSubmitted p (tp_push p node none)
no_push-SameSubmitted p true = tt
no_push-SameSubmitted p false = tt

push-SameSubmitted :
    (p : ThreadPool) (node : Bool) (x : ℕ × List ℕ) → SameSubmitted p (tp_push p node (some x))
push-SameSubmitted p true x = refl
push-SameSubmitted p false x = refl

posting-SameSubmitted : (p : ThreadPool) (node : Bool) → (posting p node).submitted ≡ p.submitted
posting-SameSubmitted p true = refl
posting-SameSubmitted p false = refl

step-SameSubmitted : (a : Action) (p : ThreadPool) → is_check a ≡ false → SameSubmitted p (step a p)
unfolding step
step-SameSubmitted (check w memory) p e = cc
step-SameSubmitted (push i node) p e = elim (Option-cases (pick i p.submitting)) [
  | inl n ↦ rw n (no_push-SameSubmitted p node)
  | inr (x, s) ↦ rw s (push-SameSubmitted p node x)
]
step-SameSubmitted take p e = worker_take-SameSubmitted p p.idle p.queue
step-SameSubmitted (finish i) p e = elim (Option-cases (pick i p.running)) [
  | inl n ↦ rw n tt
  | inr (x, s) ↦ rw s refl
]
step-SameSubmitted begin p e = refl
step-SameSubmitted (post node) p e =
    elim (Bool-cases (p.shutting_down && ltb p.posted p.thread_count)) [
      | inl c ↦ rw c (posting-SameSubmitted p node)
      | inr c ↦ rw c tt
    ]

-- A warning that was given was accepted by the pool or refused.
abbrev IsShared : Dispatcher → Type 0
IsShared d = (w : ℕ) → count w d.received ≡ count w d.pool.submitted + count w d.refused

submit-IsShared :
    (w : ℕ) (given memory : Bool) (d : Dispatcher)
    → IsShared d
    → IsShared (cp_dispatcher_submit w given memory d)
unfolding count
submit-IsShared w false memory d shared = λ x. omega (arith, shared x)
submit-IsShared w true memory d shared = elim (Bool-cases (d.pool.shutting_down || not memory)) [
  | inl e ↦ rw e (λ x. omega (arith, shared x))
  | inr e ↦ rw e (λ x. omega (arith, shared x))
]

run-IsShared :
    (as' : List DispatcherAction) (d e : Dispatcher)
    → act_all as' d ≡ some e
    → IsShared d
    → IsShared e
unfolding act_all act
run-IsShared [] d e eq shared = subst IsShared (some-injective d e eq) shared
run-IsShared (submit w given memory ∷ as') d e eq shared =
    run-IsShared as' (cp_dispatcher_submit w given memory d) e eq
      (submit-IsShared w given memory d shared)
run-IsShared (worker a ∷ as') d e eq shared = elim (Bool-cases (is_check a)) [
  | inl c ↦ let no : none ≡ some e = rw c at eq in cc
  | inr c ↦ elim (Option-cases (step a d.pool)) [
    | inl s ↦ let no : none ≡ some e = rw (c, s) at eq in cc
    | inr (p, s) ↦
        let same : p.submitted ≡ d.pool.submitted =
          subst (SameSubmitted d.pool) s (step-SameSubmitted a d.pool c) in
        run-IsShared as' (record d { pool = p }) e (rw (c, s) at eq)
          (λ x. shared x ∙ ap (λ xs. count x xs + count x d.refused) (sym same))
  ]
]

-- When a dispatcher one of whose threads was started is shut down with no `tp_submit` under way, and
-- the threads that were started have ended: every warning that it was ever given has been destroyed,
-- as often as it was given, by its job, or by `cp_dispatcher_submit` where no job could be made or
-- the pool refused it; but one whose task the queue could not take is lost, which `tp_submit` does
-- not tell, and never destroyed.
pub dispatcher_lem :
    (ts : List Bool) (before after : List DispatcherAction) (d e : Dispatcher)
    → 0 < started_of ts
    → act_all before (cp_dispatcher_create ts) ≡ some d
    → d.pool.submitting ≡ []
    → d.pool.shutting_down ≡ false
    → act_all (worker begin ∷ after) d ≡ some e
    → e.pool.ended ≡ started_of ts
    → (w : ℕ) → count w (destroyed e) + count w e.pool.lost ≡ count w e.received
unfolding pool_actions count
dispatcher_lem ts before after d e pos reached quiet off closed over w =
    let executed =
      shutdown_lem ts (pool_actions before) (pool_actions after) d.pool e.pool pos
        (run-pool before (cp_dispatcher_create ts) d reached) quiet off
        (run-pool (worker begin ∷ after) d e closed) over in
    let shared =
      run-IsShared (worker begin ∷ after) d e closed
        (run-IsShared before (cp_dispatcher_create ts) d reached (λ x. omega arith)) in
    omega (arith, executed w, shared w, count-append w e.refused e.pool.executed)
