-- ===== src/Node/Link.antt =====
-- How `node_load_all` in Common/node.c links the nodes: the map from ids to indices, the parents,
-- the arrays of children and the types. Each `for` loop over the nodes is a recursion on the
-- number of rounds made, `zero` for none.
use ikp_data_propagator.Prelude.{
  ℕ, zero, suc, ◌+◌, ◌*◌, Bool, true, false, ◌&&◌, Option, none, some, List, [], ◌==◌, leb, ltb,
  if◌then◌else◌, length, set, replicate, get_or, succeeded,
}
use ikp_data_propagator.Text.{Text, string_key}
use ikp_data_propagator.HashMap.{HashMap, Alloc, hashmap_create, hashmap_put, hashmap_get}
use ikp_data_propagator.Node.{NodeType, root, central, destination, NodeInfo, Row, read_rows}

-- The array of nodes.
abbrev pub Nodes : Type 0
Nodes = ℕ → NodeInfo

abbrev pub modify : ℕ → (NodeInfo → NodeInfo) → Nodes → Nodes
modify i f arr j = if j == i then f (arr j) else arr j

abbrev pub blank : Row
blank = record { id = []; address = []; port = 0; parent_id = none }

abbrev pub row_at : List Row → ℕ → Row
row_at rows i = get_or rows i blank

-- `arr[cnt]` as the reading loop fills it in.
unfoldable pub first_nodes : List Row → Nodes
first_nodes rows i =
    let r = row_at rows i in
    record {
      id = r.id;
      address = r.address;
      port = r.port;
      parent = none;
      children = [];
      child_count = 0;
      kind = destination;
    }

-- The map from ids to nodes, and whether every put so far returned 0.
abbrev pub IdMap : Type 0
IdMap = Option (HashMap Text ℕ)

-- `hashmap_put(m, _strdup(arr[i].id), &arr[i])` in a loop; the result is ignored by the code, and
-- kept here as a flag. `allocs` says what the allocations of each round do.
unfoldable pub put_ids : (ℕ → Alloc) → Nodes → ℕ → IdMap → IdMap × Bool
put_ids allocs arr zero m = (m, true)
put_ids allocs arr (suc i) m =
    let (m', ok) = put_ids allocs arr i m in
    let (s, m'', _) = hashmap_put (allocs i) m' (some (arr i).id) i in (m'', ok && succeeded s)

-- `arr[i].parent = par; if (par) par->child_count++;`
abbrev pub set_parent : ℕ → Option ℕ → Nodes → Nodes
set_parent i none arr = modify i (λ n. record n { parent = none }) arr
set_parent i (some p) arr =
    modify p (λ n. record n { child_count = n.child_count + 1 })
      (modify i (λ n. record n { parent = some p }) arr)

abbrev pub lookup_parent : IdMap → Option Text → Option ℕ
lookup_parent m none = none
lookup_parent m (some pid) = hashmap_get m (some pid)

abbrev pub parent_round : IdMap → ℕ → Option Text → Nodes → Nodes
parent_round m i none arr = arr
parent_round m i (some pid) arr = set_parent i (hashmap_get m (some pid)) arr

unfoldable pub set_parents : IdMap → List Row → ℕ → Nodes → Nodes
set_parents m rows zero arr = arr
set_parents m rows (suc i) arr =
    parent_round m i (row_at rows i).parent_id (set_parents m rows i arr)

-- The array of children is allocated by the count, which then starts again.
abbrev pub with_children : NodeInfo → NodeInfo
with_children n =
    if ltb 0 n.child_count
    then record n { children = replicate n.child_count 0; child_count = 0 }
    else n

unfoldable pub allocate_children : ℕ → Nodes → Nodes
allocate_children zero arr = arr
allocate_children (suc i) arr = modify i with_children (allocate_children i arr)

-- `par->children[par->child_count++] = &arr[i];`
abbrev pub add_child : ℕ → NodeInfo → NodeInfo
add_child i n = record n {
  children = set n.children n.child_count i;
  child_count = n.child_count + 1;
}

abbrev pub fill_round : ℕ → Option ℕ → Nodes → Nodes
fill_round i none arr = arr
fill_round i (some p) arr = modify p (add_child i) arr

unfoldable pub fill_children : ℕ → Nodes → Nodes
fill_children zero arr = arr
fill_children (suc i) arr = let arr' = fill_children i arr in fill_round i (arr' i).parent arr'

abbrev pub type_of : Option ℕ → ℕ → NodeType
type_of none count = root
type_of (some p) count = if ltb 0 count then central else destination

unfoldable pub set_types : ℕ → Nodes → Nodes
set_types zero arr = arr
set_types (suc i) arr =
    modify i (λ n. record n { kind = type_of n.parent n.child_count }) (set_types i arr)

-- The loops behind the map, in their order.
unfoldable pub link : IdMap → List Row → Nodes
unfolding first_nodes set_parents allocate_children fill_children set_types
link m rows =
    let n = length rows in
    set_types n (fill_children n (allocate_children n (set_parents m rows n (first_nodes rows))))

-- `cap` after `cnt` rows: it starts at 16 and doubles when it is full.
unfoldable pub capacity_for : ℕ → ℕ
capacity_for zero = 16
capacity_for (suc cnt) = let cap = capacity_for cnt in if leb cap cnt then cap * 2 else cap

-- The ids of all the nodes, in a map of the rows' capacity.
unfoldable pub id_map : Alloc → (ℕ → Alloc) → List Row → IdMap × Bool
unfolding put_ids
id_map alloc allocs rows =
    put_ids allocs (first_nodes rows) (length rows)
      (hashmap_create alloc (capacity_for (length rows)) true true false)

-- The nodes of a file, and how many they are.
unfoldable pub node_load_all : Alloc → (ℕ → Alloc) → List ℕ → Nodes × ℕ
unfolding link id_map
node_load_all alloc allocs file =
    let rows = read_rows (length file) file in (link (id_map alloc allocs rows).0 rows, length rows)
