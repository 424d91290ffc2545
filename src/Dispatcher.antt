-- ===== src/Dispatcher.antt =====
-- `cp_dispatcher_submit` in CentralPropagator/cp_dispatcher.c over the pool of its jobs. A warning is
-- a number, and so is its job.
pub mod Ownership
use ikp_data_propagator.Prelude.{
  ℕ, Bool, true, false, ◌||◌, not, Option, none, some, List, [], ◌∷◌, ◌++◌, if◌then◌else◌,
}
use ikp_data_propagator.ThreadPool.{
  ThreadPool, tp_create, Action, check, push, take, finish, begin, post, tp_check, step,
}

-- The pool, the warnings that were given to the dispatcher, and those that `cp_dispatcher_submit`
-- has destroyed itself.
pub record Dispatcher : Type 0 where
  pub pool : ThreadPool
  pub received : List ℕ
  pub refused : List ℕ

abbrev pub cp_dispatcher_create : List Bool → Dispatcher
cp_dispatcher_create threads = record { pool = tp_create threads; received = []; refused = [] }

-- `given` says whether `malloc` gives the job, and `memory` whether it gives the pool's task. The
-- enqueue of a task is an action of its own.
abbrev pub cp_dispatcher_submit : ℕ → Bool → Bool → Dispatcher → Dispatcher
cp_dispatcher_submit w given memory d =
    if not given || (d.pool.shutting_down || not memory)
    then record d { received = w ∷ d.received; refused = w ∷ d.refused }
    else record d { pool = tp_check w memory d.pool; received = w ∷ d.received }

-- A job that has returned has destroyed its warning, as `dispatch_job_fn` does at its end.
abbrev pub destroyed : Dispatcher → List ℕ
destroyed d = d.refused ++ d.pool.executed

-- A call of `cp_dispatcher_submit`, or an action of the pool that is no test of a submission.
pub data DispatcherAction : Type 0 where
  submit : ℕ → Bool → Bool → DispatcherAction
  worker : Action → DispatcherAction

abbrev pub is_check : Action → Bool
is_check (check w memory) = true
is_check (push i node) = false
is_check take = false
is_check (finish i) = false
is_check begin = false
is_check (post node) = false

abbrev pub with_pool : Dispatcher → Option ThreadPool → Option Dispatcher
with_pool d none = none
with_pool d (some p) = some (record d { pool = p })

unfoldable pub act : DispatcherAction → Dispatcher → Option Dispatcher
unfolding step
act (submit w given memory) d = some (cp_dispatcher_submit w given memory d)
act (worker a) d = if is_check a then none else with_pool d (step a d.pool)

abbrev pub and_act : (Dispatcher → Option Dispatcher) → Option Dispatcher → Option Dispatcher
and_act again none = none
and_act again (some d) = again d

unfoldable pub act_all : List DispatcherAction → Dispatcher → Option Dispatcher
unfolding act
act_all [] d = some d
act_all (a ∷ as') d = and_act (act_all as') (act a d)
