-- ===== src/Propagator.antt =====
-- The start and the end of a propagator: CentralPropagator/main.c, with `cp_dispatcher_create` and
-- `cp_dispatcher_shutdown` of CentralPropagator/cp_dispatcher.c and `cp_start_listener_thread` of
-- CentralPropagator/cp_thread.c.
use mathlib.Core.Option.{bind}
use ikp_data_propagator.Prelude.{
  ℕ, Bool, true, false, not, Option, none, some, List, [], ◌∷◌, ◌++◌, ◌==◌, if◌then◌else◌,
}
use ikp_data_propagator.Resources.{
  Resource, wsa, context, listener, log_file, exit_event, connections, dispatcher, thread_pool,
  listener_args, shutdown_thread, Held, release, release_all, only_if, refused,
}
use ikp_data_propagator.Destination.{with_code, close_log}
pub mod Exit

unfoldable pub cp_dispatcher_create : Bool → Bool → Held → Option (Bool × Held)
unfolding release_all
cp_dispatcher_create given pool_created held =
    if not given
    then some (false, held)
    else if not pool_created
    then refused (release_all (dispatcher ∷ []) (dispatcher ∷ held))
    else some (true, thread_pool ∷ dispatcher ∷ held)

unfoldable pub cp_dispatcher_shutdown : Held → Option Held
unfolding release_all
cp_dispatcher_shutdown held = release_all (thread_pool ∷ dispatcher ∷ []) held

-- The arguments belong to the thread, which frees them at its end.
unfoldable pub cp_start_listener_thread : Bool → Bool → Held → Bool × Held
cp_start_listener_thread given started held =
    if not given
    then (false, held)
    else if not started
    then (false, listener_args ∷ held)
    else (true, listener ∷ listener_args ∷ held)

-- What the listener's thread does with its arguments behind `cp_listener_run`.
unfoldable pub listener_fn : Held → Option Held
unfolding release
listener_fn held = release listener_args held

-- The wait, and the close of the handle, where there is one. `main` does not call it.
unfoldable pub cp_join_listener_thread : Bool → Held → Option Held
unfolding release
cp_join_listener_thread false held = some held
cp_join_listener_thread true held = release listener held

-- What the calls in `main` do.
pub record CpRun : Type 0 where
  pub argc : ℕ
  pub wsa_started : Bool
  pub connections_made : Bool
  pub log_opened : Bool
  pub event_created : Bool
  pub context_created : Bool
  pub dispatcher_given : Bool
  pub pool_created : Bool
  pub args_given : Bool
  pub listener_started : Bool
  pub waiter_started : Bool

-- From the listener on. `main` tests neither whether the thread that waits for the exit event was
-- started, which it waits for and closes, nor whether `connections_init` made the map and its critical
-- section, which `connections_cleanup` deletes.
unfoldable pub cp_listen : CpRun → Held → Option (ℕ × Held)
unfolding cp_dispatcher_shutdown cp_start_listener_thread release_all
cp_listen run held =
    let (ok, h) = cp_start_listener_thread run.args_given run.listener_started held in
    if not ok
    then with_code 1 (bind (cp_dispatcher_shutdown h) (λ h. release context h))
    else with_code 0 (
        bind
          (release_all (shutdown_thread ∷ listener ∷ [])
            (only_if run.waiter_started shutdown_thread ++ h))
          (λ h. bind (cp_dispatcher_shutdown h) (λ h.
            release_all
              (context ∷ connections ∷ wsa ∷ (close_log run.log_opened ++ exit_event ∷ [])) h)))

abbrev pub with_dispatcher : CpRun → Bool × Held → Option (ℕ × Held)
with_dispatcher run (false, h) = with_code 1 (release context h)
with_dispatcher run (true, h) = cp_listen run h

-- The exit code, and what is still held.
unfoldable pub cp_main : CpRun → Option (ℕ × Held)
unfolding cp_dispatcher_create cp_listen release
cp_main run =
    let ready = only_if run.connections_made connections ++ wsa ∷ [] in
    let logged = only_if run.log_opened log_file ++ ready in
    if not run.wsa_started
    then some (1, [])
    else if not (run.argc == 3)
    then some (1, ready)
    else if not run.event_created
    then some (1, logged)
    else if not run.context_created
    then some (1, exit_event ∷ logged)
    else bind
        (cp_dispatcher_create run.dispatcher_given run.pool_created (context ∷ exit_event ∷ logged))
        (λ r. with_dispatcher run r)
