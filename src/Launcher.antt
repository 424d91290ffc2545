-- ===== src/Launcher.antt =====
-- DataSource/cp_launcher.c: the processes that the data source starts and ends. What the calls of
-- Windows do is an argument; waiting for a process is taken to return.
pub mod Balance
pub mod Report
pub mod Chosen
pub mod Held
use mathlib.Core.Option
use mathlib.Core.Option.{bind, get_or}
use ikp_data_propagator.Prelude.{
  ℕ, zero, suc, ◌+◌, ◌<◌, ◌≡◌, refl, Bool, true, false, ◌&&◌, not, Option, none, some, List, [],
  ◌∷◌, ◌++◌, map, ◌==◌, if◌then◌else◌, is_some,
}
use ikp_data_propagator.Text.{Text}
use ikp_data_propagator.Text.Format.{bytes, decimal, snprintf}
use ikp_data_propagator.Node.{NodeType, NodeInfo}
use ikp_data_propagator.Node.Link.{Nodes}
use ikp_data_propagator.Endpoints.{is_destination}
use ikp_data_propagator.Handles.{Handles, open_handle, close_handle}

-- A process that was started: its command line and the two handles in `PROCESS_INFORMATION`.
pub record Process : Type 0 where
  pub command : Text
  pub process : ℕ
  pub thread : ℕ

-- The globals, the handles of the data source, and the processes that it has terminated.
pub record Launcher : Type 0 where
  pub handles : Handles
  pub job : Option ℕ
  pub cp_procs : Option (List Process)
  pub dd_procs : Option (List Process)
  pub terminated : List ℕ

-- What Windows and `malloc` do in one call of a launch function: whether the job is created, whether
-- its limit is set, whether the array is allocated, and which calls of `CreateProcess` succeed.
pub record Windows : Type 0 where
  pub job_created : Bool
  pub job_limited : Bool
  pub array_given : Bool
  pub started : ℕ → Bool

abbrev pub create_job_object : Windows → Launcher → Bool × Launcher
create_job_object win s =
    if win.job_created
    then (win.job_limited, record s { handles = open_handle s.handles; job = some s.handles.next })
    else (false, record s { job = none })

-- A path through its last backslash, if it has one.
unfoldable pub through_slash : Text → Option Text
through_slash [] = none
through_slash (c ∷ s) = elim (through_slash s) [
  | some r ↦ some (c ∷ r)
  | none ↦ if c == 92 then some (c ∷ []) else none
]

-- The path of a program in the directory of the module.
unfoldable pub exe_path : Text → Text → Text
unfolding through_slash
exe_path path name = snprintf 260 (get_or (through_slash path) path ++ name)

-- The number of nodes that are to be started, among the first `n`: `wanted` is the test of the node.
unfoldable pub eligible : (NodeType → Bool) → Nodes → ℕ → ℕ
eligible wanted nodes zero = 0
eligible wanted nodes (suc i) =
    let before = eligible wanted nodes i in if wanted (nodes i).kind then before + 1 else before

abbrev pub command_line : Text → NodeInfo → Text
command_line exe n =
    snprintf 1024 (bytes "\"" ++ exe ++ bytes "\" \"" ++ n.id ++ bytes "\" " ++ decimal 10 n.port)

abbrev pub create_process : Text → Handles → Process × Handles
create_process command w = (
  record { command = command; process = w.next; thread = w.next + 1 },
  open_handle (open_handle w),
)

-- The loop over the nodes from `i` on: the processes that it started, the handles, and whether no
-- call of `CreateProcess` failed.
unfoldable pub launch_from :
    (ℕ → Bool) → (NodeType → Bool) → Text → Nodes → ℕ → ℕ → Handles → List Process × Handles × Bool
launch_from started wanted exe nodes zero i w = ([], w, true)
launch_from started wanted exe nodes (suc left) i w =
    let (p, w') = create_process (command_line exe (nodes i)) w in
    let (ps, w'', ok) = launch_from started wanted exe nodes left (suc i) w' in
    let skipped = launch_from started wanted exe nodes left (suc i) w in
    if wanted (nodes i).kind
    then if started i then (p ∷ ps, w'', ok) else ([], w, false)
    else skipped

-- `CloseHandle` of the thread and then the process, for each of them.
unfoldable pub close_all : List Process → Handles → Option Handles
close_all [] w = some w
close_all (p ∷ ps) w =
    bind (bind (close_handle p.thread w) (λ w. close_handle p.process w)) (λ w. close_all ps w)

abbrev pub close_job : Option ℕ → Handles → Option Handles
close_job none w = some w
close_job (some j) w = close_handle j w

-- The cleanup behind a `CreateProcess` that failed.
unfoldable pub undo : List Process → Launcher → Option Launcher
unfolding close_all
undo ps s = bind (bind (close_all ps s.handles) (λ w. close_job s.job w)) (λ w.
    some
      (record s { handles = w; job = none; terminated = map (λ p. p.process) ps ++ s.terminated }))

-- What a launch function gives back: the array, and what it wrote behind `outLaunchCount`, if it did.
pub record Launched : Type 0 where
  pub procs : Option (List Process)
  pub count : Option ℕ
  pub state : Launcher

-- What the two launch functions do behind the job; `keep` stores the array in its global.
unfoldable pub launch_all :
    Windows
    → (NodeType → Bool)
    → Text
    → (List Process → Launcher → Launcher)
    → Nodes
    → ℕ
    → Launcher
    → Option Launched
unfolding eligible launch_from undo
launch_all win wanted exe keep nodes n s =
    let (ps, w, ok) = launch_from win.started wanted exe nodes n 0 s.handles in
    let s' = record s { handles = w } in
    let total = eligible wanted nodes n in
    if total == 0
    then some (record { procs = none; count = some 0; state = s })
    else if not win.array_given
    then some (record { procs = none; count = none; state = s })
    else if ok
    then some (record { procs = some ps; count = some total; state = keep ps s' })
    else bind (undo ps s') (λ s. some (record { procs = none; count = some 0; state = s }))

abbrev pub is_propagator : NodeType → Bool
is_propagator k = not (is_destination k)

unfoldable pub cp_launch_all : Windows → Text → Nodes → ℕ → Launcher → Option Launched
unfolding launch_all exe_path
cp_launch_all win path nodes n s =
    let (ok, s') = create_job_object win s in
    if ok
    then launch_all win is_propagator (exe_path path (bytes "CentralPropagator.exe"))
        (λ ps s. record s { cp_procs = some ps }) nodes n s'
    else some (record { procs = none; count = none; state = s' })

-- A job is created where there is none.
abbrev pub ensure_job : Windows → Launcher → Bool × Launcher
ensure_job win s = if is_some s.job then (true, s) else create_job_object win s

unfoldable pub dd_launch_all : Windows → Text → Nodes → ℕ → Launcher → Option Launched
unfolding launch_all exe_path
dd_launch_all win path nodes n s =
    let (ok, s') = ensure_job win s in
    if ok
    then launch_all win is_destination (exe_path path (bytes "DataDestination.exe"))
        (λ ps s. record s { dd_procs = some ps }) nodes n s'
    else some (record { procs = none; count = none; state = s' })

unfoldable pub cp_terminate_all : Launcher → Option Launcher
unfolding close_all
cp_terminate_all s = bind (close_job s.job s.handles) (λ w.
    bind (close_all (get_or s.cp_procs []) w) (λ w.
      bind (close_all (get_or s.dd_procs []) w)
        (λ w. some (record s { handles = w; job = none; cp_procs = none; dd_procs = none }))))
