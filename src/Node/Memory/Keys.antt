-- ===== src/Node/Memory/Keys.antt =====
-- The copies of the ids that `node_load_all` in Common/node.c (and `cp_context_create` in
-- CentralPropagator/cp_context.c) puts into its map, up to the `hashmap_destroy` of the map.
use ikp_data_propagator.Prelude.{
  ℕ, zero, suc, ◌+◌, ◌≤◌, ◌≡◌, refl, ◌∙◌, Bool, true, false, some, List, [], ◌∷◌, ◌++◌, arith,
  if◌then◌else◌, succeeded,
}
use ikp_data_propagator.Text.{Text, string_key}
use ikp_data_propagator.HashMap.{Freed, Alloc, hashmap_create, hashmap_put, hashmap_destroy}
use ikp_data_propagator.HashMap.Valid.{IsHonest}
use ikp_data_propagator.HashMap.Weight.{weight, freed_weight}
use ikp_data_propagator.HashMap.Lives.{
  Call, put, after_calls, after_calls-append, AllHonest-append, start, AllHonest, weight-given,
  life_lem,
}
use ikp_data_propagator.Node.Link.{Nodes, IdMap, put_ids}

-- What `free` is called on while the ids go into the map.
unfoldable pub freed_ids : (ℕ → Alloc) → Nodes → ℕ → IdMap → List (Freed Text ℕ)
freed_ids allocs arr zero m = []
freed_ids allocs arr (suc i) m =
    freed_ids allocs arr i m
    ++ (hashmap_put (allocs i) (put_ids allocs arr i m).0 (some (arr i).id) i).2

-- The calls of the loop.
unfoldable pub put_calls : (ℕ → Alloc) → Nodes → ℕ → List (Call Text ℕ)
put_calls allocs arr zero = []
put_calls allocs arr (suc i) = put_calls allocs arr i ++ put (allocs i) (arr i).id i ∷ []

-- The weight of the copies of the first ids: all of them, and those whose put succeeds.
unfoldable pub id_weight : (Text → ℕ) → Nodes → ℕ → ℕ
id_weight f arr zero = 0
id_weight f arr (suc i) = id_weight f arr i + f (arr i).id

unfoldable pub put_weight : (Text → ℕ) → (ℕ → Alloc) → Nodes → ℕ → IdMap → ℕ
put_weight f allocs arr zero m = 0
put_weight f allocs arr (suc i) m =
    let s = (hashmap_put (allocs i) (put_ids allocs arr i m).0 (some (arr i).id) i).0 in
    put_weight f allocs arr i m + (if succeeded s then f (arr i).id else 0)

no_value_weight : (b : Bool) (n : ℕ) → (if b then n + 0 else 0) ≡ (if b then n else 0)
no_value_weight true n = omega arith
no_value_weight false n = refl

module _ (allocs : ℕ → Alloc) (arr : Nodes) where
  put_calls-AllHonest :
      (honest : (i : ℕ) → IsHonest (allocs i)) (n : ℕ) → AllHonest (put_calls allocs arr n)
  unfolding put_calls
  put_calls-AllHonest honest zero = tt
  put_calls-AllHonest honest (suc i) =
      AllHonest-append (put_calls allocs arr i) _ (put_calls-AllHonest honest i) (honest i, tt)

  -- The loop is the life of the map under those calls.
  put_ids_life :
      (f : Text → ℕ) (n : ℕ) (m : IdMap)
      → let l = after_calls (start m) (put_calls allocs arr n) in
        (l.table ≡ (put_ids allocs arr n m).0)
        × (l.freed ≡ freed_ids allocs arr n m)
        × (weight f (λ _. 0) l.given ≡ put_weight f allocs arr n m)
  unfolding put_ids put_calls after_calls freed_ids put_weight weight
  put_ids_life f zero m = (refl, refl, refl)
  put_ids_life f (suc i) m =
      let l = after_calls (start m) (put_calls allocs arr i) in
      let c = put (allocs i) (arr i).id i in
      let (table, freed, given) = put_ids_life f i m in
      let s = (hashmap_put (allocs i) (put_ids allocs arr i m).0 (some (arr i).id) i).0 in
      rw (after_calls-append (start m) (put_calls allocs arr i) (c ∷ []), table, freed)
        (
          refl,
          refl,
          omega (
            arith,
            given,
            weight-given f (λ _. 0) (succeeded s) (arr i).id i l.given,
            no_value_weight (succeeded s) (f (arr i).id),
          ),
        )

  put_weight_le :
      (f : Text → ℕ) (n : ℕ) (m : IdMap) → put_weight f allocs arr n m ≤ id_weight f arr n
  unfolding put_weight id_weight
  put_weight_le f zero m = omega arith
  put_weight_le f (suc i) m = ground (arith, put_weight_le f i m)

  put_weight_all :
      (f : Text → ℕ) (n : ℕ) (m : IdMap)
      → (put_ids allocs arr n m).1 ≡ true
      → put_weight f allocs arr n m ≡ id_weight f arr n
  unfolding put_weight id_weight put_ids
  put_weight_all f zero m e = refl
  put_weight_all f (suc i) m e = ground (arith, put_weight_all f i m)

  module _ (f : Text → ℕ) (n : ℕ) (alloc : Alloc) (capacity : ℕ) (honest : IsHonest alloc)
      (all : (i : ℕ) → IsHonest (allocs i)) where
    abbrev table : IdMap
    table = hashmap_create alloc capacity true true false

    -- What the loop and the `hashmap_destroy` behind it free.
    abbrev pub freed_keys : List (Freed Text ℕ)
    freed_keys = freed_ids allocs arr n table ++ hashmap_destroy (put_ids allocs arr n table).0

    -- What is freed has the weight of what was put.
    pub freed_put : freed_weight f (λ _. 0) freed_keys ≡ put_weight f allocs arr n table
    freed_put =
        let (same, freed, given) = put_ids_life f n table in
        rw (← same, ← freed, ← given)
          (life_lem f (λ _. 0) alloc capacity true false (put_calls allocs arr n)
            ((λ e. cc), λ _ _. refl) honest (put_calls-AllHonest all n))

    -- Whatever the allocations do, no copy of an id that the loop puts into its map is freed more
    -- often than it was made.
    pub freed_keys_le : freed_weight f (λ _. 0) freed_keys ≤ id_weight f arr n
    freed_keys_le = omega (arith, freed_put, put_weight_le f n table)

    -- Where every put of the loop succeeds, the copies of the ids that it makes are all freed, each
    -- as often as it was made, by the replacements and by the `hashmap_destroy` behind the loop.
    pub freed_keys_lem :
        (put_ids allocs arr n table).1 ≡ true
        → freed_weight f (λ _. 0) freed_keys ≡ id_weight f arr n
    freed_keys_lem ok = freed_put ∙ put_weight_all f n table ok
