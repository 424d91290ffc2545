-- ===== src/Routing.antt =====
-- Where a warning goes next: `node_find_by_id` and `find_root` in Common/utils.c, the sender's loop
-- in DataSource/network_sender.c, and the job of CentralPropagator/cp_dispatcher.c. The loops that
-- follow parents run on fuel; `none` where it does not suffice.
pub mod Paths
pub mod Context
pub mod Memory
pub mod Subtree
pub mod Search
pub mod File
use ikp_data_propagator.Prelude.{
  ℕ, zero, suc, ◌+◌, ◌≡◌, Bool, true, false, Option, none, some, List, [], ◌∷◌, ◌==◌, if◌then◌else◌,
}
use ikp_data_propagator.Text.{Text, eq_string, string_key}
use ikp_data_propagator.Warning.{Warning}
use ikp_data_propagator.HashMap.{hashmap_get}
use ikp_data_propagator.Node.{NodeInfo}
use ikp_data_propagator.Node.Link.{Nodes, IdMap}

-- The loop from index `i` with `left` nodes to go.
unfoldable pub find_from : Nodes → Text → ℕ → ℕ → Option ℕ
find_from nodes id zero i = none
find_from nodes id (suc left) i =
    let rest = find_from nodes id left (suc i) in if eq_string (nodes i).id id then some i else rest

unfoldable pub node_find_by_id : Nodes → ℕ → Text → Option ℕ
unfolding find_from
node_find_by_id nodes count id = find_from nodes id count 0

-- `while (n->parent) n = n->parent;`, with what it does at a node's parent.
abbrev pub up_from : (ℕ → Option ℕ) → ℕ → Option ℕ → Option ℕ
up_from again n none = some n
up_from again n (some p) = again p

unfoldable pub find_root : ℕ → Nodes → ℕ → Option ℕ
find_root zero nodes n = none
find_root (suc fuel) nodes n = up_from (find_root fuel nodes) n (nodes n).parent

-- `while (x->parent && x->parent != ctx->me) x = x->parent;`
abbrev pub climb_from : (ℕ → Option ℕ) → ℕ → ℕ → Option ℕ → Option ℕ
climb_from again me x none = some x
climb_from again me x (some p) = if p == me then some x else again p

unfoldable pub climb : ℕ → Nodes → ℕ → ℕ → Option ℕ
climb zero nodes me x = none
climb (suc fuel) nodes me x = climb_from (climb fuel nodes me) me x (nodes x).parent

-- The hop that the job takes, from what the map says of the destination.
unfoldable pub hop_of : ℕ → Nodes → ℕ → Option ℕ → Option ℕ
unfolding climb
hop_of fuel nodes me none = some me
hop_of fuel nodes me (some dest) = if dest == me then some me else climb fuel nodes me dest

-- A call of `send_warning_to`.
pub record Send : Type 0 where
  pub address : Text
  pub port : ℕ
  pub warning : Warning

abbrev pub send_to : Nodes → Warning → Option ℕ → Option Send
send_to nodes w none = none
send_to nodes w (some n) =
    some (record { address = (nodes n).address; port = (nodes n).port; warning = w })

-- The job: the warning goes to the hop, and is destroyed.
unfoldable pub dispatch_job_fn : ℕ → Nodes → IdMap → ℕ → Warning → Option Send
unfolding hop_of
dispatch_job_fn fuel nodes map me w =
    send_to nodes w (hop_of fuel nodes me (hashmap_get map (some w.dest_node)))

-- What the sender does with a warning: nothing where no node has the id.
abbrev pub send_to_root : ℕ → Nodes → Warning → Option ℕ → List Send → Option (List Send)
send_to_root fuel nodes w none sends = some sends
send_to_root fuel nodes w (some dest) sends = elim (send_to nodes w (find_root fuel nodes dest)) [
  | none ↦ none
  | some s ↦ some (s ∷ sends)
]

abbrev pub before_sends : ℕ → Nodes → ℕ → Warning → Option (List Send) → Option (List Send)
before_sends fuel nodes count w none = none
before_sends fuel nodes count w (some sends) =
    send_to_root fuel nodes w (node_find_by_id nodes count w.dest_node) sends

-- The sender's loop over what each round finds: whether the stop event is set, and what the queue
-- gives, where `none` is the null pointer that ends the stream.
unfoldable pub network_sender_thread :
    ℕ → Nodes → ℕ → List (Bool × Option Warning) → Option (List Send)
network_sender_thread fuel nodes count [] = some []
network_sender_thread fuel nodes count ((true, w) ∷ rounds) = some []
network_sender_thread fuel nodes count ((false, none) ∷ rounds) = some []
network_sender_thread fuel nodes count ((false, some w) ∷ rounds) =
    before_sends fuel nodes count w (network_sender_thread fuel nodes count rounds)
