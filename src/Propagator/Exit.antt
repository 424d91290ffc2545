-- ===== src/Propagator/Exit.antt =====
-- What a propagator holds at its end.
use ikp_data_propagator.Prelude.{
  ℕ, ◌≡◌, refl, true, not, ◌&&◌, Option, none, some, [], ◌∷◌, ◌++◌, if◌then◌else◌,
}
use mathlib.Core.Option.{bind}
use ikp_data_propagator.Resources.{
  wsa, log_file, exit_event, connections, listener_args, Held, release, only_if,
}
use ikp_data_propagator.Propagator.{
  cp_start_listener_thread, listener_fn, cp_join_listener_thread, CpRun,
}

-- The exit code, and what is still held: behind a failure all that is acquired before the context,
-- and the arguments of a listener that could not be started.
abbrev pub cp_exit : CpRun → Option (ℕ × Held)
cp_exit run =
    let logged =
      only_if run.log_opened log_file ++ (only_if run.connections_made connections ++ wsa ∷ []) in
    if run.event_created && run.context_created && run.dispatcher_given && run.pool_created
    then if run.args_given && run.listener_started
      then if run.waiter_started && run.connections_made && not run.log_opened
        then some (0, listener_args ∷ [])
        else none
      else some (1, only_if run.args_given listener_args ++ exit_event ∷ logged)
    else some (1, only_if run.event_created exit_event ++ logged)

-- A listener's thread that was started, has ended and was joined leaves nothing behind.
join_lem :
    (held : Held)
    → let (ok, h) = cp_start_listener_thread true true held in
      bind (listener_fn h) (λ h. cp_join_listener_thread ok h) ≡ some held
unfolding cp_start_listener_thread listener_fn cp_join_listener_thread release bind
join_lem held = refl
