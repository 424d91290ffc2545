-- ===== src/Tests/Lifecycles.antt =====
-- The starts and the ends of the processes.
use ikp_data_propagator.Prelude.{
  ◌+◌, ◌≡◌, refl, true, false, none, some, List, [], ◌∷◌, count, arith,
}
use ikp_data_propagator.ThreadPool.{
  tp_create, started_of, push, take, finish, begin, post, step, pick,
}
use ikp_data_propagator.Dispatcher.{
  Dispatcher, cp_dispatcher_create, destroyed, DispatcherAction, submit, worker, act, act_all,
}
use ikp_data_propagator.Dispatcher.Ownership.{dispatcher_lem}
use ikp_data_propagator.Destination.{DdCalls, DdRun, dd_main}
use ikp_data_propagator.Destination.Lifecycle.{dd_main_lem}
use ikp_data_propagator.Propagator.{CpRun}

-- The processor's thread cannot be started.
abbrev no_processor : DdCalls
no_processor = record {
  wsa_started = false;
  context_given = true;
  queue_created = true;
  listener_started = true;
  processor_started = false;
  socket_opened = false;
  stored_early = true;
  stored = true;
}

abbrev good_run : DdRun
good_run = record {
  argc = 3;
  log_opened = false;
  calls = record no_processor { processor_started = true };
  event_created = true;
}

-- The log is closed twice.
twice_closed : dd_main (record good_run { log_opened = true }) ≡ none
twice_closed = dd_main_lem (record good_run { log_opened = true }) refl

-- The listener has not stored its socket when its context is destroyed.
early_destroyed :
    dd_main
      (record good_run { calls = record no_processor { processor_started = true; stored = false } })
    ≡ none
early_destroyed =
    dd_main_lem
      (record good_run { calls = record no_processor { processor_started = true; stored = false } })
      refl

abbrev no_listener : CpRun
no_listener = record {
  argc = 3;
  wsa_started = true;
  connections_made = true;
  log_opened = false;
  event_created = true;
  context_created = true;
  dispatcher_given = true;
  pool_created = true;
  args_given = true;
  listener_started = false;
  waiter_started = true;
}

-- The first warning is accepted, for the second there is no memory.
abbrev two_given : List DispatcherAction
two_given = submit 7 true true ∷ worker (push 0 true) ∷ submit 8 false true ∷ []

abbrev to_the_end : List DispatcherAction
to_the_end =
    worker (post true) ∷ worker take ∷ worker (finish 0) ∷ submit 9 true true ∷ worker take ∷ []

abbrev dispatching : Dispatcher
dispatching = record {
  pool = record (tp_create (true ∷ [])) { queue = some 7 ∷ []; submitted = 7 ∷ [] };
  received = 8 ∷ 7 ∷ [];
  refused = 8 ∷ [];
}

abbrev dispatched : Dispatcher
dispatched = record {
  pool = record {
    thread_count = 1;
    started = 1;
    idle = 0;
    running = [];
    ended = 1;
    queue = [];
    shutting_down = true;
    posted = 1;
    unposted = 0;
    submitting = [];
    submitted = 7 ∷ [];
    executed = 7 ∷ [];
    lost = [];
  };
  received = 9 ∷ 8 ∷ 7 ∷ [];
  refused = 9 ∷ 8 ∷ [];
}

dispatching_reached : act_all two_given (cp_dispatcher_create (true ∷ [])) ≡ some dispatching
unfolding act_all act step pick started_of
dispatching_reached = refl

dispatched_reached : act_all (worker begin ∷ to_the_end) dispatching ≡ some dispatched
unfolding act_all act step pick started_of
dispatched_reached = refl

dispatcher_lem_example :
    count 9 (destroyed dispatched) + count 9 dispatched.pool.lost ≡ count 9 (9 ∷ 8 ∷ 7 ∷ [])
unfolding started_of
dispatcher_lem_example =
    dispatcher_lem (true ∷ []) two_given to_the_end dispatching dispatched (omega arith)
      dispatching_reached refl refl dispatched_reached refl 9
