-- ===== src/Source.antt =====
-- DataSource/main.c: what the data source does around its two threads. The names of the exit events
-- are those that CentralPropagator/main.c and DataDestination/main.c create.
pub mod Main
pub mod Closing
pub mod Signals
pub mod Safe
use mathlib.Core.Option
use mathlib.Core.Option.{bind, get_or}
use ikp_data_propagator.Prelude.{
  ℕ, zero, suc, ◌+◌, ◌<◌, ◌≡◌, refl, Bool, true, false, ◌&&◌, not, Option, none, some, List, [],
  ◌∷◌, ◌++◌, map, ◌==◌, if◌then◌else◌, is_some, get_elem?, ltb,
}
use ikp_data_propagator.Text.{Text, eq_string}
use ikp_data_propagator.Text.Format.{bytes, snprintf}
use ikp_data_propagator.Node.{NodeType, NodeInfo}
use ikp_data_propagator.Node.Link.{Nodes}
use ikp_data_propagator.Endpoints.{is_destination}
use ikp_data_propagator.Handles.{Handles, open_handle, close_handle}
use ikp_data_propagator.Launcher.{
  Process, Launcher, Windows, Launched, is_propagator, cp_launch_all, dd_launch_all,
  cp_terminate_all,
}

-- The events with a name: none where no process has created it, else whether it is set.
abbrev pub Events : Type 0
Events = Text → Option Bool

abbrev pub dd_event_name : Text → Text
dd_event_name id = snprintf 128 (bytes "Global\\DD_Exit_" ++ id)

abbrev pub cp_event_name : Text → Text
cp_event_name id = snprintf 128 (bytes "Global\\CP_Exit_" ++ id)

-- `OpenEvent`, and `SetEvent` and `CloseHandle` where it gave a handle.
abbrev pub signal_event : Text → Events → Events
signal_event name events other =
    if eq_string other name && is_some (events name) then some true else events other

-- The loop over the nodes, from `i` on.
unfoldable pub signal_from : (NodeType → Bool) → (Text → Text) → Nodes → ℕ → ℕ → Events → Events
signal_from wanted name nodes zero i events = events
signal_from wanted name nodes (suc left) i events =
    signal_from wanted name nodes left (suc i)
      (if wanted (nodes i).kind then signal_event (name (nodes i).id) events else events)

unfoldable pub signal_all : Nodes → ℕ → Events → Events
unfolding signal_from
signal_all nodes n events =
    signal_from is_propagator cp_event_name nodes n 0
      (signal_from is_destination dd_event_name nodes n 0 events)

-- `procs[i]`, where the array has that entry.
abbrev pub process_at : Option (List Process) → ℕ → Option Process
process_at none i = none
process_at (some ps) i = get_elem? ps i

-- The array of handles that is waited on: none where an entry outside the array is read.
unfoldable pub wait_handles : Option (List Process) → ℕ → ℕ → Option (List ℕ)
wait_handles procs zero i = some []
wait_handles procs (suc left) i =
    bind (process_at procs i)
      (λ p. bind (wait_handles procs left (suc i)) (λ hs. some (p.process ∷ hs)))

unfoldable pub await_propagation :
    Option (List Process) → ℕ → Option (List Process) → ℕ → Option (List ℕ × List ℕ)
unfolding wait_handles
await_propagation cps cp_count dds dd_count =
    bind (wait_handles cps cp_count 0)
      (λ hs. bind (wait_handles dds dd_count 0) (λ gs. some (hs, gs)))

-- A window on the screen: its handle, and the process that owns it.
pub record Window : Type 0 where
  pub handle : ℕ
  pub owner : ℕ

-- The callback of `EnumWindows`: whether the enumeration is to go on, and the windows to which
-- `WM_CLOSE` was posted.
abbrev pub send_wm_close : ℕ → Window → List ℕ → Bool × List ℕ
send_wm_close pid window posted =
    if window.owner == pid then (false, window.handle ∷ posted) else (true, posted)

-- `EnumWindows` on the posted messages.
abbrev pub EnumWindows : Type 0
EnumWindows = (Window → List ℕ → Bool × List ℕ) → List ℕ → Bool × List ℕ

-- The loop over the processes, from `i` on: the posted messages and the terminated processes.
-- `pid_of` is the field `dwProcessId`.
module _ (enum_windows : EnumWindows) (pid_of : Process → ℕ) where
  abbrev pub close_process : Process → List ℕ × List ℕ → List ℕ × List ℕ
  close_process p (posted, terminated) =
      let (found, posted') = enum_windows (send_wm_close (pid_of p)) posted in
      (posted', if not found then p.process ∷ terminated else terminated)

  unfoldable pub gracefully_close :
      Option (List Process) → ℕ → ℕ → List ℕ × List ℕ → Option (List ℕ × List ℕ)
  gracefully_close procs zero i st = some st
  gracefully_close procs (suc left) i st =
      bind (process_at procs i) (λ p. gracefully_close procs left (suc i) (close_process p st))
