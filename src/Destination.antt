-- ===== src/Destination.antt =====
-- The start and the end of a destination: `dd_create` and `dd_destroy` in
-- DataDestination/data_destination.c, and DataDestination/main.c.
use mathlib.Core.Option.{bind}
use ikp_data_propagator.Prelude.{
  ℕ, Bool, true, false, not, Option, none, some, List, [], ◌∷◌, ◌++◌, ◌==◌, if◌then◌else◌,
}
use ikp_data_propagator.Resources.{
  Resource, wsa, context, id_text, critical_section, queue, listener, processor, listen_socket,
  log_file, exit_event, Held, release, release_all, only_if, refused,
}
pub mod Lifecycle

-- What the calls in `dd_create` do: `WSAStartup`, whose result is not tested, the allocations, and
-- `CreateThread`. The listener opens its socket and stores it in the context, which is not
-- initialised before: `stored_early` says whether it has by the time at which `dd_create` looks at it
-- behind a failure, and `stored` whether it has by the start of `dd_destroy`. `socket_opened` says
-- whether the value that it stores is a socket. An `_strdup` that gives NULL counts as a copy, since
-- `free` takes NULL.
pub record DdCalls : Type 0 where
  pub wsa_started : Bool
  pub context_given : Bool
  pub queue_created : Bool
  pub listener_started : Bool
  pub processor_started : Bool
  pub socket_opened : Bool
  pub stored_early : Bool
  pub stored : Bool

-- `WSACleanup` does nothing where Winsock was not started.
abbrev pub wsa_held : DdCalls → List Resource
wsa_held calls = only_if calls.wsa_started wsa

-- `closesocket` of the context's field: undefined where nothing was stored in it.
abbrev pub close_listen_socket : Bool → DdCalls → Held → Option Held
close_listen_socket false calls held = none
close_listen_socket true calls held = release_all (only_if calls.socket_opened listen_socket) held

-- Whether a context was created, and what is held.
unfoldable pub dd_create : DdCalls → Held → Option (Bool × Held)
unfolding release_all
dd_create calls held =
    let up = wsa_held calls in
    let made = critical_section ∷ id_text ∷ context ∷ (up ++ held) in
    let listening = only_if calls.socket_opened listen_socket ++ listener ∷ queue ∷ made in
    if not calls.context_given
    then refused (release_all up (up ++ held))
    else if not calls.queue_created
    then refused (release_all (id_text ∷ context ∷ up) made)
    else if not calls.listener_started
    then refused (release_all (queue ∷ id_text ∷ context ∷ up) (queue ∷ made))
    else if not calls.processor_started
    then refused (
        bind (close_listen_socket calls.stored_early calls listening)
          (λ h. release_all (listener ∷ queue ∷ id_text ∷ context ∷ up) h))
    else some (true, processor ∷ listening)

unfoldable pub dd_destroy : DdCalls → Held → Option Held
unfolding release_all
dd_destroy calls held = bind (close_listen_socket calls.stored calls held) (λ h.
    release_all
      (listener ∷ processor ∷ queue ∷ id_text ∷ critical_section ∷ (wsa_held calls ++ context ∷ []))
      h)

-- What happens around `main`: the number of arguments, the log of the debug build, the calls in
-- `dd_create`, and `CreateEvent`. The file of the counter is closed where it was opened.
pub record DdRun : Type 0 where
  pub argc : ℕ
  pub log_opened : Bool
  pub calls : DdCalls
  pub event_created : Bool

abbrev pub with_code : ℕ → Option Held → Option (ℕ × Held)
with_code c none = none
with_code c (some h) = some (c, h)

-- `print_stats_to_file` in Common/utils.c closes the log, and `main` does behind it.
abbrev pub close_log : Bool → List Resource
close_log opened = only_if opened log_file ++ only_if opened log_file

abbrev pub dd_run : DdRun → Bool × Held → Option (ℕ × Held)
dd_run run (false, h) = with_code 1 (release_all (only_if run.log_opened log_file) h)
dd_run run (true, h) =
    if run.event_created
    then with_code 0 (
        bind (dd_destroy run.calls (exit_event ∷ h))
          (λ h. release_all (close_log run.log_opened ++ exit_event ∷ []) h))
    else with_code 1 (dd_destroy run.calls h)

-- The exit code, and what is still held.
unfoldable pub dd_main : DdRun → Option (ℕ × Held)
unfolding dd_create dd_destroy release_all
dd_main run =
    if run.argc == 3
    then bind (dd_create run.calls (only_if run.log_opened log_file)) (λ r. dd_run run r)
    else some (1, [])
