-- ===== src/Routing/Memory.antt =====
-- The blocks of a propagator's context: `cp_context_create` with its early returns, and
-- `cp_context_destroy`, in CentralPropagator/cp_context.c, with the copies of the ids that go into its
-- two maps. The two allocations that the code does not test are taken to succeed, and the blocks of
-- the maps themselves are not followed.
pub mod Calls
pub mod Freed
use ikp_data_propagator.Prelude.{
  ℕ, zero, suc, Bool, true, false, ◌&&◌, Option, none, some, List, [], ◌∷◌, ◌++◌, take,
  if◌then◌else◌, succeeded,
}
use ikp_data_propagator.Text.{Text, string_key}
use ikp_data_propagator.HashMap.{Alloc, hashmap_create, hashmap_put, hashmap_get, hashmap_destroy}
use ikp_data_propagator.HashMap.Lives.{Call, put, remove, Life, after_call, after_calls, start}
use ikp_data_propagator.Node.Link.{Nodes, IdMap, put_ids}
use ikp_data_propagator.Node.Memory.Keys.{freed_ids}
use ikp_data_propagator.Node.Memory.{
  Block, context_block, children_copy_block, key_block, key_copies, lost_copies, keys_of, Loading,
  node_info_destroy_all,
}
use ikp_data_propagator.Routing.Context.{CpContext, collect_subtree, context_at}

-- The calls of `collect_subtree` on its map, in their order.
abbrev pub all_calls : (ℕ → List (Call Text ℕ)) → List ℕ → List (Call Text ℕ)
all_calls f [] = []
all_calls f (c ∷ cs) = f c ++ all_calls f cs

unfoldable pub subtree_calls : ℕ → (ℕ → Alloc) → Nodes → ℕ → List (Call Text ℕ)
subtree_calls zero allocs nodes n = []
subtree_calls (suc fuel) allocs nodes n =
    put (allocs n) (nodes n).id n
    ∷ all_calls (subtree_calls fuel allocs nodes) (take (nodes n).child_count (nodes n).children)

-- Whether the recursion of `collect_subtree` ends within the fuel: below a cycle it never does.
abbrev pub all_return : (ℕ → Bool) → List ℕ → Bool
all_return f [] = true
all_return f (c ∷ cs) = f c && all_return f cs

unfoldable pub returns : ℕ → Nodes → ℕ → Bool
returns zero nodes n = false
returns (suc fuel) nodes n =
    all_return (returns fuel nodes) (take (nodes n).child_count (nodes n).children)

-- `_strdup(n->id)` in each call, and the copies whose `hashmap_put` fails, which is not tested.
unfoldable pub call_copies : List (Call Text ℕ) → List Block
call_copies [] = []
call_copies (put alloc k n ∷ cs) = key_block k ∷ call_copies cs
call_copies (remove k ∷ cs) = call_copies cs

unfoldable pub lost_calls : Life Text ℕ → List (Call Text ℕ) → List Block
lost_calls l [] = []
lost_calls l (put alloc k n ∷ cs) =
    (if succeeded (hashmap_put alloc l.table (some k) n).0 then [] else key_block k ∷ [])
    ++ lost_calls (after_call l (put alloc k n)) cs
lost_calls l (remove k ∷ cs) = lost_calls (after_call l (remove k)) cs

-- A context as it is created, none for NULL, with what was allocated and freed by then, and the copies
-- of ids that were lost.
pub record Creation : Type 0 where
  pub context : Option CpContext
  pub nodes : Option Nodes
  pub count : ℕ
  pub taken : List Block
  pub freed : List Block
  pub lost : List Block

module _ (fuel : ℕ) (alloc : Alloc) (allocs : ℕ → Alloc) where
  abbrev pub new_map : ℕ → IdMap
  new_map total = hashmap_create alloc total true true false

  -- The part behind the lookup of the propagator's own node, and none where it does not return.
  unfoldable pub created : Loading → Nodes → Option ℕ → Option Creation
  unfolding key_copies lost_copies keys_of freed_ids put_ids subtree_calls returns call_copies
      lost_calls after_calls node_info_destroy_all
  created l nodes none =
      let m = new_map l.count in
      some (record {
        context = none;
        nodes = none;
        count = l.count;
        taken = l.taken ++ key_copies nodes l.count;
        freed =
            l.freed
            ++ (keys_of (freed_ids allocs nodes l.count m)
                ++ (keys_of (hashmap_destroy (put_ids allocs nodes l.count m).0)
                    ++ node_info_destroy_all l.nodes l.count));
        lost = l.lost ++ lost_copies allocs nodes l.count m;
      })
  created l nodes (some me) =
      let m = new_map l.count in
      let calls = subtree_calls fuel allocs nodes me in
      if returns fuel nodes me
      then some (record {
        context = context_at fuel alloc allocs nodes l.count (some me);
        nodes = l.nodes;
        count = l.count;
        taken =
            l.taken
            ++ (key_copies nodes l.count
                ++ (call_copies calls ++ context_block ∷ children_copy_block ∷ []));
        freed =
            l.freed
            ++ (keys_of (freed_ids allocs nodes l.count m)
                ++ (keys_of (after_calls (start m) calls).freed
                    ++ keys_of (hashmap_destroy (put_ids allocs nodes l.count m).0)));
        lost = l.lost ++ (lost_copies allocs nodes l.count m ++ lost_calls (start m) calls);
      })
      else none

  -- The node of an id in the map of all nodes.
  abbrev pub own_node : Nodes → ℕ → Text → Option ℕ
  own_node nodes total root_id =
      hashmap_get (put_ids allocs nodes total (new_map total)).0 (some root_id)

  abbrev pub create_from : Text → Loading → Option Nodes → Option Creation
  create_from root_id l none = some (record {
    context = none;
    nodes = none;
    count = l.count;
    taken = l.taken;
    freed = l.freed;
    lost = l.lost;
  })
  create_from root_id l (some nodes) = created l nodes (own_node nodes l.count root_id)

  unfoldable pub create_context : Loading → Text → Option Creation
  unfolding created
  create_context l root_id = create_from root_id l l.nodes

-- What `cp_context_destroy` frees.
unfoldable pub cp_context_destroy : Option CpContext → Option Nodes → ℕ → List Block
unfolding node_info_destroy_all keys_of
cp_context_destroy none nodes count = []
cp_context_destroy (some ctx) nodes count =
    keys_of (hashmap_destroy ctx.map)
    ++ children_copy_block ∷ node_info_destroy_all nodes count
    ++ context_block ∷ []
