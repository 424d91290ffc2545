-- ===== src/System/Contexts.antt =====
-- The maps of the propagators (CentralPropagator/cp_context.c) on the nodes of the file.
use ikp_data_propagator.Prelude.{
  ℕ, zero, suc, ◌<◌, ◌≡◌, ap, ◌∙◌, true, false, some, List, arith, length,
}
use ikp_data_propagator.Text.{string_key}
use ikp_data_propagator.HashMap.{hashmap_create, hashmap_get}
use ikp_data_propagator.Node.{Row}
use ikp_data_propagator.Node.Link.{Nodes, first_nodes, put_ids, id_map, capacity_for}
use ikp_data_propagator.Node.Ids.{
  IsEmptyTable, created-IsEmptyTable, put_ids_lem, last_with_self, IsDistinct,
}
use ikp_data_propagator.Routing.Paths.{IsBelow}
use ikp_data_propagator.Routing.Subtree.{collect_subtree_lem}
use ikp_data_propagator.Routing.Context.{context_at, cp_context_create, collect_subtree}
use ikp_data_propagator.Routing.File.{
  IsFileTree, Answers, link-IsForest, link-IsTree, IsBelow-lt, same_id,
}
use ikp_data_propagator.System.{Allocations, map_of, loaded_nodes, context_map, new_map, Succeeds}

capacity_for-pos : (n : ℕ) → 0 < capacity_for n
unfolding capacity_for
capacity_for-pos zero = omega arith
capacity_for-pos (suc n) = ground (arith, capacity_for-pos n)

module _ (rows : List Row) (rank : ℕ → ℕ) (fuel : ℕ) (allocs : Allocations)
    (file : IsFileTree rows rank) (deep : (x : ℕ) → x < length rows → rank x < fuel)
    (ok : Succeeds rows fuel allocs) where
  pub loaded-Answers : Answers (id_map allocs.load_map allocs.load_puts rows).0 rows
  unfolding id_map
  loaded-Answers q =
      put_ids_lem allocs.load_puts ok.honest.1 (first_nodes rows) (length rows)
        (hashmap_create allocs.load_map (capacity_for (length rows)) true true false) q
        (created-IsEmptyTable allocs.load_map (capacity_for (length rows)) ok.honest.0
          (capacity_for-pos (length rows)) ok.loads.0 ok.loads.1)
        ok.loads.2

  abbrev nodes : Nodes
  nodes = loaded_nodes rows fuel allocs

  pub loaded-IsDistinct : IsDistinct nodes (length rows)
  loaded-IsDistinct i j li lj same =
      let m = (id_map allocs.load_map allocs.load_puts rows).0 in
      let known = loaded-Answers in
      file.distinct i j li lj
        (rw (same_id m rows rank file known i li, same_id m rows rank file known j lj) at same)

  new-IsEmptyTable : (me : ℕ) → me < length rows → IsEmptyTable (new_map rows fuel allocs me)
  new-IsEmptyTable me lt =
      let (given, array) = ok.creates me lt in
      created-IsEmptyTable (allocs.context_maps me) (length rows) (ok.honest.2 me) (omega arith)
        given array

  -- A propagator finds its own node.
  me_found :
      (me : ℕ)
      → me < length rows
      → hashmap_get
          (put_ids (allocs.context_puts me) nodes (length rows) (new_map rows fuel allocs me)).0
          (some (nodes me).id)
        ≡ some me
  me_found me lt =
      put_ids_lem (allocs.context_puts me) (ok.honest.3 me) nodes (length rows)
        (new_map rows fuel allocs me) (nodes me).id (new-IsEmptyTable me lt) (ok.stores me lt).0
      ∙ last_with_self nodes (length rows) me (λ j lj same. loaded-IsDistinct j me lj lt same) lt

  context_map_eq :
      (me : ℕ)
      → me < length rows
      → context_map rows fuel allocs me
        ≡ (collect_subtree fuel
            (allocs.context_puts me)
            nodes
            me
            (new_map rows fuel allocs me, true)).0
  unfolding cp_context_create
  context_map_eq me lt =
      ap
        (λ o.
          map_of (
            context_at fuel (allocs.context_maps me) (allocs.context_puts me) nodes (length rows)
              o))
        (me_found me lt)

  -- The context of a propagator is created, and its map gives every node of its subtree for its id.
  pub context_map_lem :
      (me x : ℕ)
      → me < length rows
      → IsBelow nodes me x
      → hashmap_get (context_map rows fuel allocs me) (some (nodes x).id) ≡ some x
  context_map_lem me x lt b =
      let m = (id_map allocs.load_map allocs.load_puts rows).0 in
      let empty = new-IsEmptyTable me lt in
      ap (λ t. hashmap_get t (some (nodes x).id)) (context_map_eq me lt)
      ∙ collect_subtree_lem nodes me (link-IsTree m rows rank file loaded-Answers me lt)
          (allocs.context_puts me) (ok.honest.3 me) rank
          (link-IsForest m rows rank file loaded-Answers) fuel (new_map rows fuel allocs me)
          (empty.table, empty.is_table, empty.valid)
          (λ y by.
            let d = deep y (IsBelow-lt m rows rank file loaded-Answers me y lt by) in omega arith)
          (ok.stores me lt).1 x b
