-- ===== src/Tests/Tree.antt =====
-- The tree of nodes and the routes through it: runs, and the theorems at concrete inputs.
use ikp_data_propagator.Prelude.{
  ℕ, zero, suc, ◌+◌, ◌/◌, ◌≡◌, refl, true, false, Option, none, some, List, [], ◌∷◌, arith, length,
  ltb, sym, inl, inr, if◌then◌else◌, ◌<◌, ◌==◌,
}
use mathlib.Core.Option.{some-injective}
use ikp_data_propagator.Text.{Text, eq_string, hash_string, string_key}
use ikp_data_propagator.HashMap.{
  Alloc, hashmap_create, hashmap_put, hashmap_get, resize_if_needed, put_checked, put_at, insert,
  find, slot,
}
use ikp_data_propagator.Node.{central, Row}
use ikp_data_propagator.Node.Link.{Nodes, IdMap, first_nodes, id_map, link}
use ikp_data_propagator.Node.Linked.{parent_in, linked, link_lem}
use ikp_data_propagator.Routing.{find_root}
use ikp_data_propagator.Routing.Paths.{
  IsBelow, self, under, IsForest, Arrives, KnowsBelow, delivery_lem,
}
use ikp_data_propagator.HashMap.Valid.{IsHonest}
use ikp_data_propagator.HashMap.Create.{hashmap_create-Created}
use ikp_data_propagator.Routing.Context.{collect_subtree}
use ikp_data_propagator.Node.Children.{IsIn, kids}
use ikp_data_propagator.Routing.Subtree.{IsTree, IsTable, collect_subtree_lem}

abbrev generous : Alloc
generous = record { calloc = λ n. ltb n 1000; malloc = true }

-- A root, a propagator below it, and a destination below that.
abbrev three_rows : List Row
three_rows =
    record { id = b'R' ∷ []; address = []; port = 1; parent_id = none }
    ∷ record { id = b'C' ∷ []; address = []; port = 2; parent_id = some (b'R' ∷ []) }
    ∷ record { id = b'D' ∷ []; address = []; port = 3; parent_id = some (b'C' ∷ []) }
    ∷ []

abbrev three_ids : IdMap
three_ids = (id_map generous (λ _. generous) three_rows).0

link_lem_example :
    link three_ids three_rows 1
    ≡ linked (parent_in three_ids three_rows) (length three_rows) (first_nodes three_rows 1) 1
link_lem_example = link_lem three_ids three_rows 1 (omega arith)

-- A binary tree, the parent of a node is at half its index.
abbrev half_parent : ℕ → Option ℕ
half_parent zero = none
half_parent (suc i) = some (i / 2)

abbrev heap_tree : Nodes
heap_tree i = record {
  id = (i + 65) ∷ [];
  address = [];
  port = i;
  parent = half_parent i;
  children = [];
  child_count = 0;
  kind = central;
}

heap_tree-IsForest : IsForest heap_tree (λ i. i)
heap_tree-IsForest zero p e = ground arith
heap_tree-IsForest (suc i) p e = let same = some-injective (i / 2) p e in omega arith

five-IsBelow_two : IsBelow heap_tree 2 5
five-IsBelow_two = under refl self

-- Every propagator has this map.
abbrev five_map : IdMap
five_map = (hashmap_put generous (hashmap_create generous 8 true true false) (some (b'F' ∷ [])) 5).1

five_map-KnowsBelow : KnowsBelow heap_tree (λ _. five_map) (b'F' ∷ []) 5
unfolding hashmap_create hashmap_put hashmap_get resize_if_needed hash_string eq_string find
    put_checked put_at insert slot
five_map-KnowsBelow me b = refl

delivery_lem_example :
    (r : ℕ) × (find_root 6 heap_tree 5 ≡ some r)
    × ((heap_tree r).parent ≡ none)
    × Arrives 6 heap_tree (λ _. five_map) (b'F' ∷ []) 5 r
delivery_lem_example =
    delivery_lem heap_tree (λ i. i) heap_tree-IsForest (λ _. five_map) (b'F' ∷ []) 5 6 (omega arith)
      five_map-KnowsBelow

-- Node 1 is the child of node 0; the others are alone.
abbrev family_parent : ℕ → Option ℕ
family_parent zero = none
family_parent (suc zero) = some 0
family_parent (suc (suc i)) = none

abbrev family_children : ℕ → List ℕ
family_children zero = 1 ∷ []
family_children (suc i) = []

abbrev family : Nodes
family i = record {
  id = (i + 65) ∷ [];
  address = [];
  port = i;
  parent = family_parent i;
  children = family_children i;
  child_count = length (family_children i);
  kind = central;
}

family_up : (n c : ℕ) → IsIn c (kids family n) → family_parent c ≡ some n
family_up zero c (inl e) = rw e refl
family_up zero c (inr m) = absurd m
family_up (suc n) c m = absurd m

family_down : (n c : ℕ) → family_parent c ≡ some n → IsIn c (kids family n)
family_down n zero e = ground arith
family_down n (suc zero) e = rw (sym (some-injective 0 n e)) (inl refl)
family_down n (suc (suc c)) e = ground arith

family_distinct : (a b : ℕ) → eq_string (family a).id (family b).id ≡ true → a ≡ b
unfolding eq_string
family_distinct a b e = ground arith

family-IsTree : IsTree family 0
family-IsTree = record {
  up = family_up;
  down = λ n c _ e. family_down n c e;
  distinct = λ a b _ _ e. family_distinct a b e;
}

abbrev family_rank : ℕ → ℕ
family_rank i = if i == 1 then 1 else 0

family-IsForest : IsForest family family_rank
family-IsForest zero p e = ground arith
family-IsForest (suc zero) p e = let same = some-injective 0 p e in ground arith
family-IsForest (suc (suc i)) p e = ground arith

family_rank_small : (i : ℕ) → family_rank i < 2
family_rank_small i = ground arith

generous-IsHonest : IsHonest generous
generous-IsHonest n e = ground arith

empty_ids : IsTable (hashmap_create {K = Text} {V = ℕ} generous 4 true true false)
unfolding hashmap_create
empty_ids =
    (_, refl, (hashmap_create-Created Text ℕ generous 4 true true false generous-IsHonest).0.valid)

family_stored :
    (collect_subtree 2 (λ _. generous) family 0 (hashmap_create generous 4 true true false, true)).1
    ≡ true
unfolding collect_subtree hashmap_create hashmap_put resize_if_needed hash_string eq_string find
    put_checked put_at insert slot
family_stored = refl

collect_subtree_lem_example :
    hashmap_get
      (collect_subtree 2
        (λ _. generous)
        family
        0
        (hashmap_create generous 4 true true false, true)).0
      (some (family 1).id)
    ≡ some 1
collect_subtree_lem_example =
    collect_subtree_lem family 0 family-IsTree (λ _. generous) (λ _. generous-IsHonest) family_rank
      family-IsForest 2 (hashmap_create generous 4 true true false) empty_ids
      (λ x _. family_rank_small x) family_stored 1 (under refl self)
