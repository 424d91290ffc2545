-- ===== src/Node/Memory.antt =====
-- The blocks that `node_load_all` in Common/node.c allocates, with its early returns, and what it,
-- `node_info_destroy` and `node_info_destroy_all` free, with the copies of the ids that go into its map
-- (Node/Memory/Keys.antt); the blocks of the map itself are not followed. An allocation
-- behind the first two that fails is not tested by the code, and is taken to succeed.
pub mod Freed
pub mod Keys
use ikp_data_propagator.Prelude.{
  ℕ, zero, suc, ◌+◌, Bool, true, false, not, Option, none, some, List, [], ◌∷◌, ◌++◌, ltb,
  if◌then◌else◌, length, succeeded,
}
use ikp_data_propagator.Text.{Text, string_key}
use ikp_data_propagator.HashMap.{
  Alloc, Freed as Released, freed_key, freed_value, hashmap_create, hashmap_put, hashmap_destroy,
}
use ikp_data_propagator.Node.Memory.Keys.{freed_ids}
use ikp_data_propagator.Node.{NodeInfo, Row, read_rows}
use ikp_data_propagator.Node.Link.{
  Nodes, row_at, first_nodes, set_parents, link, IdMap, put_ids, id_map, capacity_for,
  node_load_all,
}

-- The blocks of node `i` carry its index, and the copy of an id that is given to a map its text; the
-- file counts as one. The last two of the first line are those of a `CPContext` and of its array of
-- children.
pub data Block : Type 0 where
  file_block array_block parent_ids_block context_block children_copy_block : Block
  id_block address_block parent_id_block children_block : ℕ → Block
  key_block : Text → Block

-- `free` of an array that is NULL does nothing.
abbrev pub children_of : ℕ → NodeInfo → List Block
children_of i n = if ltb 0 (length n.children) then children_block i ∷ [] else []

unfoldable pub node_info_destroy : ℕ → Option NodeInfo → List Block
node_info_destroy i none = []
node_info_destroy i (some n) = id_block i ∷ address_block i ∷ children_of i n

-- The loop over the nodes below an index.
unfoldable pub destroy_nodes : Nodes → ℕ → List Block
unfolding node_info_destroy
destroy_nodes nodes zero = []
destroy_nodes nodes (suc i) = destroy_nodes nodes i ++ node_info_destroy i (some (nodes i))

unfoldable pub node_info_destroy_all : Option Nodes → ℕ → List Block
unfolding destroy_nodes
node_info_destroy_all none count = []
node_info_destroy_all (some nodes) count = destroy_nodes nodes count ++ array_block ∷ []

-- `(pid && *pid) ? _strdup(pid) : NULL`
abbrev pub parent_copy : ℕ → Option Text → List Block
parent_copy i none = []
parent_copy i (some pid) = parent_id_block i ∷ []

-- What the reading loop allocates for the first rows.
unfoldable pub row_blocks : List Row → ℕ → List Block
row_blocks rows zero = []
row_blocks rows (suc i) =
    row_blocks rows i ++ id_block i ∷ address_block i ∷ parent_copy i (row_at rows i).parent_id

-- `if (arr[i].child_count > 0) arr[i].children = malloc(...)`
unfoldable pub child_blocks : Nodes → ℕ → List Block
child_blocks arr zero = []
child_blocks arr (suc i) =
    child_blocks arr i ++ (if ltb 0 (arr i).child_count then children_block i ∷ [] else [])

-- `free(parent_ids[i])`
unfoldable pub parent_copies : List Row → ℕ → List Block
parent_copies rows zero = []
parent_copies rows (suc i) = parent_copies rows i ++ parent_copy i (row_at rows i).parent_id

-- `_strdup(arr[i].id)`, for the map.
unfoldable pub key_copies : Nodes → ℕ → List Block
key_copies arr zero = []
key_copies arr (suc i) = key_copies arr i ++ key_block (arr i).id ∷ []

-- Those whose `hashmap_put` fails, which is not tested: nothing frees them.
unfoldable pub lost_copies : (ℕ → Alloc) → Nodes → ℕ → IdMap → List Block
unfolding put_ids
lost_copies allocs arr zero m = []
lost_copies allocs arr (suc i) m =
    let s = (hashmap_put (allocs i) (put_ids allocs arr i m).0 (some (arr i).id) i).0 in
    lost_copies allocs arr i m ++ (if succeeded s then [] else key_block (arr i).id ∷ [])

-- What a map frees: its keys, since it is given no function for its values.
unfoldable pub keys_of : List (Released Text ℕ) → List Block
keys_of [] = []
keys_of (freed_key k ∷ fs) = key_block k ∷ keys_of fs
keys_of (freed_value i ∷ fs) = keys_of fs

-- Whether `fopen` and the first two allocations succeed.
pub record LoadCalls : Type 0 where
  pub file_opened : Bool
  pub array_given : Bool
  pub parent_ids_given : Bool

-- The nodes, none for NULL, their number, what was allocated and freed, and the copies of ids that
-- were lost.
pub record Loading : Type 0 where
  pub nodes : Option Nodes
  pub count : ℕ
  pub taken : List Block
  pub freed : List Block
  pub lost : List Block

abbrev pub not_loaded : List Block → List Block → Loading
not_loaded taken freed = record { nodes = none; count = 0; taken = taken; freed = freed; lost = [] }

-- The part behind the allocations.
unfoldable pub loaded : Alloc → (ℕ → Alloc) → List ℕ → Loading
unfolding row_blocks child_blocks parent_copies node_load_all key_copies lost_copies keys_of
    freed_ids
loaded alloc allocs file =
    let rows = read_rows (length file) file in
    let n = length rows in
    let arr = first_nodes rows in
    let empty = hashmap_create alloc (capacity_for n) true true false in
    let m = (id_map alloc allocs rows).0 in
    record {
      nodes = some (node_load_all alloc allocs file).0;
      count = (node_load_all alloc allocs file).1;
      taken =
          file_block ∷ array_block ∷ parent_ids_block ∷ row_blocks rows n
          ++ (key_copies arr n ++ child_blocks (set_parents m rows n arr) n);
      freed =
          file_block ∷ keys_of (freed_ids allocs arr n empty)
          ++ (parent_copies rows n ++ (parent_ids_block ∷ keys_of (hashmap_destroy m)));
      lost = lost_copies allocs arr n empty;
    }

unfoldable pub load : LoadCalls → Alloc → (ℕ → Alloc) → List ℕ → Loading
unfolding loaded
load calls alloc allocs file =
    if not calls.file_opened
    then not_loaded [] []
    else if not calls.array_given
    then not_loaded (file_block ∷ []) (file_block ∷ [])
    else if not calls.parent_ids_given
    then not_loaded (file_block ∷ array_block ∷ []) (array_block ∷ file_block ∷ [])
    else loaded alloc allocs file

-- `load_root` of DataSource/config_loader.c: what it returns, and what it writes to `outNodes`.
abbrev pub load_root : Loading → Option Nodes × Option Nodes
load_root l = (l.nodes, l.nodes)
