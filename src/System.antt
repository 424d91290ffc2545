-- ===== src/System.antt =====
-- The parts of the system together: from nodes.csv, which every process reads by `node_load_all`,
-- over the contexts of the propagators (CentralPropagator/cp_context.c) and the sender
-- (DataSource/network_sender.c) to the destinations of the warnings.
pub mod Contexts
pub mod Delivery
use ikp_data_propagator.Prelude.{
  ℕ, ◌<◌, ◌≡◌, ◌≢◌, Bool, true, false, Option, none, some, List, length,
}
use ikp_data_propagator.Text.{string_key}
use ikp_data_propagator.Warning.{Warning}
use ikp_data_propagator.HashMap.{Alloc, hashmap_create, hashmap_get}
use ikp_data_propagator.HashMap.Valid.{IsHonest}
use ikp_data_propagator.Node.{NodeInfo, Row}
use ikp_data_propagator.Node.Link.{Nodes, IdMap, put_ids, id_map, link, capacity_for}
use ikp_data_propagator.Routing.{Send, dispatch_job_fn}
use ikp_data_propagator.Routing.Context.{CpContext, collect_subtree, cp_context_create}

-- What the allocations of the processes do: those of `node_load_all`, which go alike in all of them,
-- and those of each propagator's context.
pub record Allocations : Type 0 where
  pub load_map : Alloc
  pub load_puts : ℕ → Alloc
  pub context_maps : ℕ → Alloc
  pub context_puts : ℕ → ℕ → Alloc

abbrev pub map_of : Option CpContext → IdMap
map_of none = none
map_of (some c) = c.map

module _ (rows : List Row) (fuel : ℕ) (allocs : Allocations) where
  abbrev pub loaded_nodes : Nodes
  loaded_nodes = link (id_map allocs.load_map allocs.load_puts rows).0 rows

  abbrev pub context : ℕ → Option CpContext
  context me =
      cp_context_create fuel (allocs.context_maps me) (allocs.context_puts me) loaded_nodes
        (length rows) (loaded_nodes me).id

  -- The map by which a propagator finds its hops.
  abbrev pub context_map : ℕ → IdMap
  context_map me = map_of (context me)

  abbrev pub new_map : ℕ → IdMap
  new_map me = hashmap_create (allocs.context_maps me) (length rows) true true false

  -- The allocations of the maps succeed, and so does every put into them.
  pub record Succeeds : Type 0 where
    pub honest :
        IsHonest allocs.load_map
        × ((i : ℕ) → IsHonest (allocs.load_puts i))
        × ((me : ℕ) → IsHonest (allocs.context_maps me))
        × ((me i : ℕ) → IsHonest (allocs.context_puts me i))
    pub loads :
        (allocs.load_map.malloc ≡ true)
        × (allocs.load_map.calloc (capacity_for (length rows)) ≡ true)
        × ((id_map allocs.load_map allocs.load_puts rows).1 ≡ true)
    pub creates :
        (me : ℕ)
        → me < length rows
        → ((allocs.context_maps me).malloc ≡ true)
          × ((allocs.context_maps me).calloc (length rows) ≡ true)
    pub stores :
        (me : ℕ)
        → me < length rows
        → ((put_ids (allocs.context_puts me) loaded_nodes (length rows) (new_map me)).1 ≡ true)
          × ((collect_subtree fuel (allocs.context_puts me) loaded_nodes me (new_map me, true)).1
              ≡ true)

  -- The call that sends a warning to a node.
  abbrev pub send_of : ℕ → Warning → Send
  send_of n w = record {
    address = (loaded_nodes n).address;
    port = (loaded_nodes n).port;
    warning = w;
  }

  -- A send that reaches a node: it is to that node, or to a propagator whose job sends the warning
  -- on, by a send that reaches the node.
  pub data Reaches (w : Warning) (dest : ℕ) : Send → Type 0 where
    there : {s : Send} → s ≡ send_of dest w → Reaches w dest s
    relayed :
        {s s' : Send} (me : ℕ)
        → s ≡ send_of me w
        → dest ≢ me
        → dispatch_job_fn fuel loaded_nodes (context_map me) me w ≡ some s'
        → Reaches w dest s'
        → Reaches w dest s
