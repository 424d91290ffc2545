-- ===== src/Source/Main.antt =====
-- `main` of DataSource/main.c, by its processes, events and handles, with what it does not test: the
-- starts of its two threads, the pool of connections and the log of the debug build. What the threads
-- do, the queue and what is freed at the end are left out.
use mathlib.Core.Option.{bind, get_or}
use ikp_data_propagator.Prelude.{
  ℕ, ◌+◌, Bool, true, false, ◌&&◌, not, Option, none, some, List, if◌then◌else◌, is_some, ltb,
}
use ikp_data_propagator.Text.{Text}
use ikp_data_propagator.Node.Link.{Nodes}
use ikp_data_propagator.Handles.{Handles, open_handle, close_handle}
use ikp_data_propagator.Launcher.{
  Process, Launcher, Windows, Launched, cp_launch_all, dd_launch_all, cp_terminate_all,
}
use ikp_data_propagator.Source.{
  Events, signal_all, await_propagation, EnumWindows, gracefully_close,
}

-- What the calls around `main` do: `WSAStartup`, `load_root`, the launches, `CreateEvent`, the two
-- calls of `CreateThread`, `connections_init`, and whether the log was opened;
-- `cp_left` and `dd_left` are what the variables of the counts hold before they are written.
pub record Setup : Type 0 where
  pub wsa_started : Bool
  pub root : Option (Nodes × ℕ)
  pub path : Text
  pub cp_windows : Windows
  pub dd_windows : Windows
  pub cp_left : ℕ
  pub dd_left : ℕ
  pub stop_created : Bool
  pub gen_started : Bool
  pub send_started : Bool
  pub connections_made : Bool
  pub log_opened : Bool
  pub enum_windows : EnumWindows
  pub pid_of : Process → ℕ

-- The launcher's globals, the named events as they stand when Enter is pressed, and the windows to
-- which `WM_CLOSE` was posted.
pub record Source : Type 0 where
  pub launcher : Launcher
  pub events : Events
  pub posted : List ℕ

-- A launch that failed, as `main` sees it: no array and a positive count.
abbrev pub launch_failed : Launched → ℕ → Bool
launch_failed l count = not (is_some l.procs) && ltb 0 count

-- `EXIT_SUCCESS` or not, and what is left; none for undefined behaviour.
abbrev pub Exit : Type 0
Exit = Option (Bool × Source)

-- A thread that `CreateThread` gives has a handle; else its variable is NULL, which is no handle.
abbrev pub start_thread : Bool → Handles → Handles
start_thread started w = if started then open_handle w else w

abbrev pub close_thread : Bool → ℕ → Handles → Option Handles
close_thread started h w = if started then close_handle h w else none

abbrev pub close_three : Bool → Bool → ℕ → Handles → Option Handles
close_three gen send stop w =
    bind
      (bind (close_thread gen (stop + 1) w)
        (λ w. close_thread send (stop + 1 + (if gen then 1 else 0)) w))
      (λ w. close_handle stop w)

-- `connections_cleanup` deletes a critical section that `connections_init` has initialised only with
-- its map, and `main` closes the log behind `print_stats_to_file`, which closes it too.
abbrev pub cleaned_up : Setup → Source → Exit
cleaned_up env st = if env.connections_made && not env.log_opened then some (true, st) else none

-- From `CreateEvent` to the end, on the arrays of processes and their counts.
unfoldable pub run_and_stop : Setup → Nodes → ℕ → Launched → ℕ → Launched → ℕ → Source → Exit
unfolding signal_all gracefully_close cp_terminate_all
run_and_stop env nodes n cps cp_count dds dd_count st =
    let s = dds.state in
    let stop = s.handles.next in
    let close = gracefully_close env.enum_windows env.pid_of in
    bind (close cps.procs cp_count 0 (st.posted, s.terminated)) (λ sent.
      bind (close dds.procs dd_count 0 sent) (λ sent.
        bind
          (cp_terminate_all (record s {
            handles =
                start_thread env.send_started
                  (start_thread env.gen_started (open_handle s.handles));
            terminated = sent.1;
          }))
          (λ s. bind (close_three env.gen_started env.send_started stop s.handles) (λ w.
            cleaned_up env (record {
              launcher = record s { handles = w };
              events = signal_all nodes n st.events;
              posted = sent.0;
            })))))

unfoldable pub after_launches : Setup → Nodes → ℕ → Launched → Launched → Source → Exit
unfolding await_propagation run_and_stop
after_launches env nodes n cps dds st =
    let cp_count = get_or cps.count env.cp_left in
    let dd_count = get_or dds.count env.dd_left in
    let st' = record st { launcher = dds.state } in
    if launch_failed dds dd_count
    then some (false, st')
    else bind (await_propagation cps.procs cp_count dds.procs dd_count) (λ _.
      if env.stop_created
      then run_and_stop env nodes n cps cp_count dds dd_count st
      else some (false, st'))

unfoldable pub launch_both : Setup → Nodes → ℕ → Source → Exit
unfolding cp_launch_all dd_launch_all after_launches
launch_both env nodes n st =
    bind (cp_launch_all env.cp_windows env.path nodes n st.launcher) (λ cps.
      if launch_failed cps (get_or cps.count env.cp_left)
      then some (false, record st { launcher = cps.state })
      else bind (dd_launch_all env.dd_windows env.path nodes n cps.state)
          (λ dds. after_launches env nodes n cps dds st))

unfoldable pub source_main : Setup → Source → Exit
unfolding launch_both
source_main env st =
    if env.wsa_started
    then elim env.root [ none ↦ some (false, st) | some r ↦ launch_both env r.0 r.1 st ]
    else some (false, st)
