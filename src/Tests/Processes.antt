-- ===== src/Tests/Processes.antt =====
-- The launcher and the processes on two nodes.
use mathlib.Core.Option.{bind}
use ikp_data_propagator.Prelude.{
  ℕ, zero, suc, ◌+◌, ◌<◌, ◌≤◌, ◌≡◌, ◌≢◌, refl, Bool, true, false, Option, none, some, List, [], ◌∷◌,
  arith, length, count, is_some, ltb, if◌then◌else◌,
}
use ikp_data_propagator.Text.{Text, eq_string}
use ikp_data_propagator.Text.Format.{bytes}
use ikp_data_propagator.Node.{root, destination, NodeInfo}
use ikp_data_propagator.Node.Link.{Nodes}
use ikp_data_propagator.Endpoints.{is_destination, destinations}
use ikp_data_propagator.Handles.{Handles}
use ikp_data_propagator.Launcher.{
  Process, Launcher, Windows, Launched, is_propagator, exe_path, cp_launch_all, dd_launch_all,
  cp_terminate_all, through_slash, launch_all, eligible, launch_from, undo, close_all,
}
use ikp_data_propagator.Launcher.Chosen.{chosen}
use ikp_data_propagator.Launcher.Balance.{launcher_lem}
use ikp_data_propagator.Launcher.Report.{Reports, report_lem}
use ikp_data_propagator.Source.{
  Window, Events, signal_all, cp_event_name, gracefully_close, await_propagation, wait_handles,
}
use ikp_data_propagator.Source.Main.{
  Setup, Source, source_main, launch_both, after_launches, run_and_stop,
}
use ikp_data_propagator.Source.Signals.{exit_name, signal_all_lem, exit_name_lem}
use ikp_data_propagator.Source.Closing.{
  enumerate, first_window, with_windows, first_windows, gracefully_close_lem,
}

abbrev root_node : NodeInfo
root_node = record {
  id = bytes "R";
  address = bytes "127.0.0.1";
  port = 5000;
  parent = none;
  children = 1 ∷ [];
  child_count = 1;
  kind = root;
}

abbrev leaf_node : NodeInfo
leaf_node = record {
  id = bytes "D1";
  address = bytes "127.0.0.1";
  port = 5001;
  parent = some 0;
  children = [];
  child_count = 0;
  kind = destination;
}

abbrev two_nodes : Nodes
two_nodes zero = root_node
two_nodes (suc i) = leaf_node

abbrev all_well : Windows
all_well = record {
  job_created = true;
  job_limited = true;
  array_given = true;
  started = λ _. true;
}

-- The second node's process cannot be started.
abbrev half_well : Windows
half_well = record all_well { started = λ i. ltb i 1 }

abbrev no_handles : Handles
no_handles = record { next = 4; opened = λ h. 0 }

abbrev idle : Launcher
idle = record {
  handles = no_handles;
  job = none;
  cp_procs = none;
  dd_procs = none;
  terminated = [];
}

exe_path_run :
    exe_path (bytes "C:\\app\\DataSource.exe") (bytes "CentralPropagator.exe")
    ≡ bytes "C:\\app\\CentralPropagator.exe"
unfolding exe_path through_slash
exe_path_run = refl

launcher_lem_example :
    (cps : Launched) × (dds : Launched) × (s : Launcher) × (cp_launch_all all_well
        (bytes "C:\\DataSource.exe")
        two_nodes
        2
        idle
      ≡ some cps)
    × (dd_launch_all half_well (bytes "C:\\DataSource.exe") two_nodes 2 cps.state ≡ some dds)
    × (cp_terminate_all dds.state ≡ some s)
    × ((h : ℕ) → s.handles.opened h ≡ 0)
launcher_lem_example =
    launcher_lem all_well half_well (bytes "C:\\DataSource.exe") two_nodes 2 no_handles []

report_lem_example :
    (cps : Launched) × (dds : Launched) × (cp_launch_all all_well
        (bytes "C:\\DataSource.exe")
        two_nodes
        2
        idle
      ≡ some cps)
    × (dd_launch_all half_well (bytes "C:\\DataSource.exe") two_nodes 2 cps.state ≡ some dds)
    × Reports all_well
        (exe_path (bytes "C:\\DataSource.exe") (bytes "CentralPropagator.exe"))
        two_nodes
        (chosen is_propagator two_nodes 2)
        cps.procs
        cps.count
    × Reports half_well
        (exe_path (bytes "C:\\DataSource.exe") (bytes "DataDestination.exe"))
        two_nodes
        (destinations two_nodes 2)
        dds.procs
        dds.count
report_lem_example =
    report_lem all_well half_well (bytes "C:\\DataSource.exe") two_nodes 2 no_handles []

-- The propagator has created its event, the destination not yet.
abbrev one_event : Events
one_event name = if eq_string name (cp_event_name (bytes "R")) then some false else none

signal_all_lem_example :
    ((i : ℕ)
      → i < 2
      → is_some (one_event (exit_name (two_nodes i))) ≡ true
      → signal_all two_nodes 2 one_event (exit_name (two_nodes i)) ≡ some true)
    × ((x : Text)
        → ((i : ℕ) → i < 2 → x ≢ exit_name (two_nodes i))
        → signal_all two_nodes 2 one_event x ≡ one_event x)
signal_all_lem_example = signal_all_lem two_nodes 2 one_event

exit_name_lem_example :
    (length (exit_name root_node) ≤ 127)
    × (exit_name root_node ≡ exit_name leaf_node
        → (root_node.id ≡ leaf_node.id)
          × (is_destination root_node.kind ≡ is_destination leaf_node.kind))
exit_name_lem_example = exit_name_lem root_node leaf_node (omega arith) (omega arith)

abbrev three_windows : List Window
three_windows =
    record { handle = 70; owner = 9 }
    ∷ record { handle = 71; owner = 12 }
    ∷ record { handle = 72; owner = 12 }
    ∷ []

abbrev two_procs : List Process
two_procs =
    record { command = []; process = 12; thread = 13 }
    ∷ record { command = []; process = 14; thread = 15 }
    ∷ []

abbrev process_id : Process → ℕ
process_id p = p.process

gracefully_close_lem_example :
    (sent : List ℕ × List ℕ) × (gracefully_close
        (enumerate three_windows)
        process_id
        (some two_procs)
        2
        0
        ([], [])
      ≡ some sent)
    × ((h : ℕ) → count h sent.0 ≡ count h [] + count h (71 ∷ []))
    × ((h : ℕ) → count h sent.1 ≡ count h [] + count h (12 ∷ []))
unfolding first_windows with_windows first_window count
gracefully_close_lem_example =
    gracefully_close_lem process_id three_windows (enumerate three_windows) (λ call st. refl)
      two_procs [] []

abbrev setup : Setup
setup = record {
  wsa_started = true;
  root = some (two_nodes, 2);
  path = bytes "C:\\DataSource.exe";
  cp_windows = all_well;
  dd_windows = all_well;
  cp_left = 77;
  dd_left = 78;
  stop_created = true;
  gen_started = true;
  send_started = true;
  connections_made = true;
  log_opened = false;
  enum_windows = enumerate three_windows;
  pid_of = process_id;
}

abbrev exit_status : Option (Bool × Source) → Option Bool
exit_status none = none
exit_status (some (ok, st)) = some ok

-- A destination that cannot be started is not noticed.
unnoticed :
    exit_status (
      source_main
        (record setup { dd_windows = record all_well { started = λ i. ltb i 1 } })
        (record { launcher = idle; events = one_event; posted = [] }))
    ≡ some true
unfolding source_main launch_both after_launches run_and_stop await_propagation wait_handles
    cp_launch_all dd_launch_all launch_all eligible launch_from undo close_all bind gracefully_close
    cp_terminate_all enumerate
unnoticed = refl
