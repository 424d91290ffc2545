-- ===== src/ExitEvent.antt =====
-- The exit event of a process and its console: `console_handler` and `shutdown_waiter_fn` in
-- CentralPropagator/cp_shutdown.c, and DataDestination/dd_shutdown.c, which has the same handler.
use ikp_data_propagator.Prelude.{
  ℕ, ◌≡◌, ◌≢◌, refl, Bool, true, false, ◌||◌, Option, none, some, ◌==◌, ==_false_of_ne,
  if◌then◌else◌,
}

-- `CTRL_C_EVENT` and `CTRL_CLOSE_EVENT` of Windows.
abbrev pub ctrl_c_event : ℕ
ctrl_c_event = 0

abbrev pub ctrl_close_event : ℕ
ctrl_close_event = 2

-- `g_exitEvent`: none for NULL, else whether it is set.
abbrev pub ExitEvent : Type 0
ExitEvent = Option Bool

abbrev pub set_event : ExitEvent → ExitEvent
set_event none = none
set_event (some b) = some true

-- What is returned, and the event behind the call.
unfoldable pub console_handler : ℕ → ExitEvent → Bool × ExitEvent
console_handler signal event =
    if (signal == ctrl_close_event) || (signal == ctrl_c_event)
    then (true, set_event event)
    else (false, event)

-- Whether the wait without a time limit comes to an end: a wait for NULL fails at once.
unfoldable pub shutdown_waiter_fn : ExitEvent → Bool
shutdown_waiter_fn none = true
shutdown_waiter_fn (some b) = b

-- A signal to close ends the wait of the process and is taken as handled.
close_ends_wait :
    (event : ExitEvent)
    → let r = console_handler ctrl_close_event event in
      (r.0 ≡ true) × (shutdown_waiter_fn r.1 ≡ true)
unfolding console_handler shutdown_waiter_fn
close_ends_wait none = (refl, refl)
close_ends_wait (some b) = (refl, refl)

-- Another signal is left to the next handler, and changes nothing.
other_signal :
    (signal : ℕ) (event : ExitEvent)
    → signal ≢ ctrl_c_event
    → signal ≢ ctrl_close_event
    → console_handler signal event ≡ (false, event)
unfolding console_handler
other_signal signal event ne ne' =
    rw (==_false_of_ne signal ctrl_c_event ne, ==_false_of_ne signal ctrl_close_event ne') refl

-- The handler of a destination.
unfoldable pub dd_console_handler : ℕ → ExitEvent → Bool × ExitEvent
dd_console_handler signal event =
    if (signal == ctrl_close_event) || (signal == ctrl_c_event)
    then (true, set_event event)
    else (false, event)

-- The two handlers do the same.
same_handler :
    (signal : ℕ) (event : ExitEvent)
    → dd_console_handler signal event ≡ console_handler signal event
unfolding dd_console_handler console_handler
same_handler signal event = refl
