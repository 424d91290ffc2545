-- ===== src/Routing/Context.antt =====
-- CentralPropagator/cp_context.c: the map of the ids in a propagator's subtree.
use ikp_data_propagator.Prelude.{
  ℕ, zero, suc, Bool, true, false, ◌&&◌, Option, none, some, List, [], ◌∷◌, succeeded, take,
}
use ikp_data_propagator.Text.{Text, string_key}
use ikp_data_propagator.HashMap.{Alloc, hashmap_create, hashmap_put, hashmap_get}
use ikp_data_propagator.Node.Link.{Nodes, IdMap, put_ids}

-- `hashmap_put(m, _strdup(n->id), n)`, with a flag for its result, which the code ignores.
abbrev pub put_node : Alloc → Nodes → ℕ → IdMap × Bool → IdMap × Bool
put_node alloc nodes n (m, ok) =
    let (s, m', _) = hashmap_put alloc m (some (nodes n).id) n in (m', ok && succeeded s)

-- The loop over the children, with what it does at one.
abbrev pub for_all : {A : Type 0} → (ℕ → A → A) → List ℕ → A → A
for_all f [] a = a
for_all f (c ∷ cs) a = for_all f cs (f c a)

-- The recursion is as deep as the tree is, which bounds the fuel.
unfoldable pub collect_subtree : ℕ → (ℕ → Alloc) → Nodes → ℕ → IdMap × Bool → IdMap × Bool
collect_subtree zero allocs nodes n m = m
collect_subtree (suc fuel) allocs nodes n m =
    for_all (collect_subtree fuel allocs nodes) (take (nodes n).child_count (nodes n).children)
      (put_node (allocs n) nodes n m)

pub record CpContext : Type 0 where
  pub map : IdMap
  pub me : ℕ
  pub children : List ℕ
  pub child_count : ℕ
  pub all_count : ℕ

abbrev pub context_at : ℕ → Alloc → (ℕ → Alloc) → Nodes → ℕ → Option ℕ → Option CpContext
context_at fuel alloc allocs nodes total none = none
context_at fuel alloc allocs nodes total (some me) = some (record {
  map = (collect_subtree fuel allocs nodes me (hashmap_create alloc total true true false, true)).0;
  me = me;
  children = take (nodes me).child_count (nodes me).children;
  child_count = (nodes me).child_count;
  all_count = total;
})

-- The nodes are those of the file, which is read first.
unfoldable pub cp_context_create : ℕ → Alloc → (ℕ → Alloc) → Nodes → ℕ → Text → Option CpContext
unfolding put_ids collect_subtree
cp_context_create fuel alloc allocs nodes total root_id =
    let allmap = put_ids allocs nodes total (hashmap_create alloc total true true false) in
    context_at fuel alloc allocs nodes total (hashmap_get allmap.0 (some root_id))
