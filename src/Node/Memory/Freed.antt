-- ===== src/Node/Memory/Freed.antt =====
-- That what `node_load_all` in Common/node.c leaves allocated is what `node_info_destroy_all`
-- frees.
use ikp_data_propagator.Prelude.{
  ℕ, zero, suc, ◌+◌, ◌<◌, ◌≡◌, refl, sym, ap, ◌∙◌, some, List, [], ◌∷◌, ◌++◌, arith, ltb,
  if◌then◌else◌, Bool-cases, inl, inr, length, succeeded, true, false, weigh, weigh-append,
}
use ikp_data_propagator.Text.{Text, string_key}
use ikp_data_propagator.HashMap.{
  Alloc, Freed, freed_key, freed_value, hashmap_create, hashmap_put, hashmap_destroy,
}
use ikp_data_propagator.HashMap.Valid.{IsHonest}
use ikp_data_propagator.HashMap.Weight.{freed_weight, freed_weight-append}
use ikp_data_propagator.Node.Memory.Keys.{freed_ids, put_weight, freed_put}
use ikp_data_propagator.Node.{Row, read_rows}
use ikp_data_propagator.Node.Link.{
  Nodes, row_at, first_nodes, set_parents, link, IdMap, put_ids, id_map, capacity_for,
  node_load_all,
}
use ikp_data_propagator.Node.Linked.{
  linked, link_lem, parent_in, set_parents_lem, length-children_below,
}
use ikp_data_propagator.Node.Memory.{
  Block, array_block, parent_ids_block, id_block, address_block, children_block, children_of,
  node_info_destroy, destroy_nodes, node_info_destroy_all, parent_copy, row_blocks, child_blocks,
  parent_copies, LoadCalls, loaded, load, key_block, key_copies, lost_copies, keys_of,
}

module _ (w : Block → ℕ) where
  -- The nodes have the children that were counted.
  IsCounted : Nodes → Nodes → ℕ → Type 0
  IsCounted arr nodes n = (i : ℕ) → i < n → length (nodes i).children ≡ (arr i).child_count

  rows_weight :
      (rows : List Row) (arr nodes : Nodes) (n : ℕ)
      → IsCounted arr nodes n
      → weigh w (row_blocks rows n) + weigh w (child_blocks arr n)
        ≡ weigh w (destroy_nodes nodes n) + weigh w (parent_copies rows n)
  unfolding weigh row_blocks child_blocks destroy_nodes parent_copies node_info_destroy IsCounted
  rows_weight rows arr nodes zero h = refl
  rows_weight rows arr nodes (suc i) h =
      let same : children_of i (nodes i)
          ≡ (if ltb 0 (arr i).child_count then children_block i ∷ [] else []) =
        rw (h i (omega arith)) refl in
      omega (
        arith,
        rows_weight rows arr nodes i (λ j lt. h j (omega arith)),
        ap (weigh w) same,
        weigh-append w (row_blocks rows i)
            (id_block i ∷ address_block i ∷ parent_copy i (row_at rows i).parent_id),
        weigh-append w (child_blocks arr i)
            (if ltb 0 (arr i).child_count then children_block i ∷ [] else []),
        weigh-append w (destroy_nodes nodes i) (node_info_destroy i (some (nodes i))),
        weigh-append w (parent_copies rows i) (parent_copy i (row_at rows i).parent_id),
      )

  link-IsCounted :
      (m : IdMap) (rows : List Row)
      → let n = length rows in IsCounted (set_parents m rows n (first_nodes rows)) (link m rows) n
  unfolding IsCounted linked
  link-IsCounted m rows i lt =
      let n = length rows in
      let par = parent_in m rows in
      ap (λ x. length x.children) (link_lem m rows i lt)
      ∙ length-children_below par n i
      ∙ sym (ap (λ x. x.child_count) (set_parents_lem m rows n i))

  -- The weight of a key is that of its copy.
  abbrev pub of_key : Text → ℕ
  of_key t = w (key_block t)

  pub keys_weight :
      (fs : List (Freed Text ℕ)) → weigh w (keys_of fs) ≡ freed_weight of_key (λ _. 0) fs
  unfolding weigh keys_of freed_weight
  keys_weight [] = refl
  keys_weight (freed_key k ∷ fs) = omega (arith, keys_weight fs)
  keys_weight (freed_value i ∷ fs) = omega (arith, keys_weight fs)

  -- A copy is put into the map or lost.
  copies_weight :
      (allocs : ℕ → Alloc) (arr : Nodes) (n : ℕ) (m : IdMap)
      → weigh w (key_copies arr n)
        ≡ put_weight of_key allocs arr n m + weigh w (lost_copies allocs arr n m)
  unfolding weigh key_copies put_weight lost_copies
  copies_weight allocs arr zero m = refl
  copies_weight allocs arr (suc i) m =
      let s = (hashmap_put (allocs i) (put_ids allocs arr i m).0 (some (arr i).id) i).0 in
      let before = copies_weight allocs arr i m in
      let made = weigh-append w (key_copies arr i) (key_block (arr i).id ∷ []) in
      elim (Bool-cases (succeeded s)) [
        | inl put_ ↦
            rw put_ (omega (arith, before, made, weigh-append w (lost_copies allocs arr i m) []))
        | inr failed_ ↦ rw failed_ (
            omega (
              arith,
              before,
              made,
              weigh-append w (lost_copies allocs arr i m) (key_block (arr i).id ∷ []),
            ))
      ]

  -- What a loop of puts into a new map and the `hashmap_destroy` of the map make of the copies.
  pub map_balance :
      (alloc : Alloc) (allocs : ℕ → Alloc)
      → IsHonest alloc
      → ((i : ℕ) → IsHonest (allocs i))
      → (arr : Nodes) (n capacity : ℕ)
      → let m : IdMap = hashmap_create alloc capacity true true false in
        weigh w (key_copies arr n)
        ≡ weigh w (keys_of (freed_ids allocs arr n m))
          + weigh w (keys_of (hashmap_destroy (put_ids allocs arr n m).0))
          + weigh w (lost_copies allocs arr n m)
  map_balance alloc allocs honest all arr n capacity =
      let m : IdMap = hashmap_create alloc capacity true true false in
      let freed = freed_ids allocs arr n m in
      let rest = hashmap_destroy (put_ids allocs arr n m).0 in
      omega (
        arith,
        copies_weight allocs arr n m,
        freed_put allocs arr of_key n alloc capacity honest all,
        freed_weight-append of_key (λ _. 0) freed rest,
        keys_weight freed,
        keys_weight rest,
      )

  loaded_balance :
      (alloc : Alloc) (allocs : ℕ → Alloc) (file : List ℕ)
      → IsHonest alloc
      → ((i : ℕ) → IsHonest (allocs i))
      → let l = loaded alloc allocs file in
        weigh w l.taken
        ≡ weigh w l.freed + weigh w (node_info_destroy_all l.nodes l.count) + weigh w l.lost
  unfolding loaded node_load_all node_info_destroy_all weigh id_map
  loaded_balance alloc allocs file honest all =
      let rows = read_rows (length file) file in
      let n = length rows in
      let first = first_nodes rows in
      let empty : IdMap = hashmap_create alloc (capacity_for n) true true false in
      let m = (id_map alloc allocs rows).0 in
      let arr = set_parents m rows n first in
      let at_end = keys_of (hashmap_destroy m) in
      omega (
        arith,
        rows_weight rows arr (link m rows) n (link-IsCounted m rows),
        map_balance alloc allocs honest all first n (capacity_for n),
        weigh-append w (row_blocks rows n) (key_copies first n ++ child_blocks arr n),
        weigh-append w (key_copies first n) (child_blocks arr n),
        weigh-append w (keys_of (freed_ids allocs first n empty))
            (parent_copies rows n ++ (parent_ids_block ∷ at_end)),
        weigh-append w (parent_copies rows n) (parent_ids_block ∷ at_end),
        weigh-append w (destroy_nodes (link m rows) n) (array_block ∷ []),
      )

  -- Whatever the file holds, whether `fopen` and the first allocations succeed, and whatever those of
  -- the map do: the blocks that `node_load_all` allocates, the copies of the ids for its map
  -- included, are, each as often, those that it frees before it returns, those that
  -- `node_info_destroy_all` frees of what it returns, and the copies whose `hashmap_put` failed,
  -- which nothing frees.
  pub load_lem :
      (calls : LoadCalls) (alloc : Alloc) (allocs : ℕ → Alloc) (file : List ℕ)
      → IsHonest alloc
      → ((i : ℕ) → IsHonest (allocs i))
      → let l = load calls alloc allocs file in
        weigh w l.taken
        ≡ weigh w l.freed + weigh w (node_info_destroy_all l.nodes l.count) + weigh w l.lost
  unfolding load node_info_destroy_all weigh
  load_lem calls alloc allocs file honest all = elim (Bool-cases calls.file_opened) [
    | inr no_file ↦ rw no_file (omega arith)
    | inl opened ↦ elim (Bool-cases calls.array_given) [
      | inr no_array ↦ rw (opened, no_array) (omega arith)
      | inl array ↦ elim (Bool-cases calls.parent_ids_given) [
        | inr no_ids ↦ rw (opened, array, no_ids) (omega arith)
        | inl ids ↦ rw (opened, array, ids) (loaded_balance alloc allocs file honest all)
      ]
    ]
  ]
