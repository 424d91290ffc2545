-- ===== src/ThreadPool/Steps.antt =====
-- The actions of the pool in CentralPropagator/thread_pool.c during its shutdown.
use ikp_data_propagator.Prelude.{
  ltb, not, ◌||◌, Bool-cases, Option-cases, inl, inr, ℕ, zero, suc, ◌+◌, ◌-◌, ◌*◌, ◌<◌, ◌≤◌, ◌≡◌,
  refl, ap, Bool, true, false, ◌&&◌, Option, none, some, List, [], ◌∷◌, arith, length,
  length-append,
}
use ikp_data_propagator.ThreadPool.{
  ThreadPool, Action, check, push, take, finish, begin, post, pick, tp_check, tp_push, worker_take,
  worker_finish, posting, shutdown_post, step, run,
}
use ikp_data_propagator.ThreadPool.Jobs.{Picks, pick-Picks}
use ikp_data_propagator.ThreadPool.Shutdown.{both}
use ikp_data_propagator.ThreadPool.Drain.{Holds}

-- What the shutdown and the workers still have to do: each action of theirs takes one off at least.
abbrev pub left_to_do : ThreadPool → ℕ
left_to_do p = (p.thread_count - p.posted) * 3 + length p.queue * 2 + length p.running

-- An action of the shutdown's loop or of a worker.
abbrev pub is_own : Action → Bool
is_own (check w memory) = false
is_own (push i node) = false
is_own take = true
is_own (finish i) = true
is_own begin = false
is_own (post node) = true

abbrev pub all_own : List Action → Bool
all_own [] = true
all_own (a ∷ as') = is_own a && all_own as'

abbrev pub Decreases : ThreadPool → Option ThreadPool → Type 0
Decreases p none = Unit {0}
Decreases p (some q) = left_to_do q < left_to_do p

take-Decreases :
    (p : ThreadPool) (n : ℕ) (q : List (Option ℕ)) → p.queue ≡ q → Decreases p (worker_take p n q)
take-Decreases p zero q e = tt
take-Decreases p (suc n) [] e = tt
take-Decreases p (suc n) (none ∷ q) e = let same = ap length e in omega (arith, same)
take-Decreases p (suc n) (some job ∷ q) e = let same = ap length e in omega (arith, same)

finish-Decreases :
    (p : ThreadPool) (r : Option (ℕ × List ℕ)) → Picks p.running r → Decreases p (worker_finish p r)
finish-Decreases p none k = tt
finish-Decreases p (some (job, rest)) k = let shorter = k.1 in omega (arith, shorter)

posting-Decreases :
    (p : ThreadPool) (node : Bool)
    → p.posted < p.thread_count
    → left_to_do (posting p node) < left_to_do p
posting-Decreases p true lt = omega (arith, lt, length-append p.queue (none ∷ []))
posting-Decreases p false lt = omega (arith, lt)

post-Decreases : (p : ThreadPool) (node : Bool) → Decreases p (shutdown_post p node)
post-Decreases p node = elim (Bool-cases (p.shutting_down && ltb p.posted p.thread_count)) [
  | inr e ↦ rw e tt
  | inl e ↦ rw e (posting-Decreases p node (both p.shutting_down p.posted p.thread_count e).1)
]

pub step-Decreases : (a : Action) (p : ThreadPool) → is_own a ≡ true → Decreases p (step a p)
unfolding step
step-Decreases (check w memory) p own = cc
step-Decreases (push i node) p own = cc
step-Decreases take p own = take-Decreases p p.idle p.queue refl
step-Decreases (finish i) p own = finish-Decreases p (pick i p.running) (pick-Picks i p.running)
step-Decreases begin p own = cc
step-Decreases (post node) p own = post-Decreases p node

both_own : (b c : Bool) → (b && c) ≡ true → (b ≡ true) × (c ≡ true)
both_own true c e = (refl, e)
both_own false c e = cc

-- No run of the pool's own actions is longer than what is left to do.
pub run_bound :
    (as' : List Action) (p q : ThreadPool)
    → all_own as' ≡ true
    → run as' p ≡ some q
    → length as' ≤ left_to_do p
unfolding run
run_bound [] p q own e = omega arith
run_bound (a ∷ as') p q own e =
    let (owns, rest) = both_own (is_own a) (all_own as') own in
    elim (Option-cases (step a p)) [
      | inl s ↦ let no : none ≡ some q = rw s at e in cc
      | inr (p', s) ↦
          let less : left_to_do p' < left_to_do p = rw s at (step-Decreases a p owns) in
          let shorter = run_bound as' p' q rest (rw s at e) in omega (arith, less, shorter)
    ]

-- The flag of the shutdown stays set.
abbrev pub IsShut : ThreadPool → Type 0
IsShut p = p.shutting_down ≡ true

check-IsShut :
    (job : ℕ) (memory : Bool) (p : ThreadPool) → IsShut p → IsShut (tp_check job memory p)
check-IsShut job memory p s = elim (Bool-cases (p.shutting_down || not memory)) [
  | inl e ↦ rw e s
  | inr e ↦ rw e s
]

push-IsShut :
    (p : ThreadPool) (node : Bool) (r : Option (ℕ × List ℕ))
    → IsShut p
    → Holds IsShut (tp_push p node r)
push-IsShut p true none s = tt
push-IsShut p false none s = tt
push-IsShut p true (some (job, rest)) s = s
push-IsShut p false (some (job, rest)) s = s

take-IsShut :
    (p : ThreadPool) (n : ℕ) (q : List (Option ℕ)) → IsShut p → Holds IsShut (worker_take p n q)
take-IsShut p zero q s = tt
take-IsShut p (suc n) [] s = tt
take-IsShut p (suc n) (none ∷ q) s = s
take-IsShut p (suc n) (some job ∷ q) s = s

finish-IsShut :
    (p : ThreadPool) (r : Option (ℕ × List ℕ)) → IsShut p → Holds IsShut (worker_finish p r)
finish-IsShut p none s = tt
finish-IsShut p (some (job, rest)) s = s

posting-IsShut : (p : ThreadPool) (node : Bool) → IsShut p → IsShut (posting p node)
posting-IsShut p true s = s
posting-IsShut p false s = s

post-IsShut : (p : ThreadPool) (node : Bool) → IsShut p → Holds IsShut (shutdown_post p node)
post-IsShut p node s = elim (Bool-cases (p.shutting_down && ltb p.posted p.thread_count)) [
  | inl e ↦ rw e (posting-IsShut p node s)
  | inr e ↦ rw e tt
]

pub step-IsShut : (a : Action) (p : ThreadPool) → IsShut p → Holds IsShut (step a p)
unfolding step
step-IsShut (check job memory) p s = check-IsShut job memory p s
step-IsShut (push i node) p s = push-IsShut p node (pick i p.submitting) s
step-IsShut take p s = take-IsShut p p.idle p.queue s
step-IsShut (finish i) p s = finish-IsShut p (pick i p.running) s
step-IsShut begin p s = refl
step-IsShut (post node) p s = post-IsShut p node s
