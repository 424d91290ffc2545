-- ===== src/Tests/Containers.antt =====
-- The queue and the hash map: runs of the definitions, and the theorems at concrete inputs.
use ikp_data_propagator.Prelude.{
  ℕ, ◌≡◌, refl, true, false, Option, none, some, List, [], ◌∷◌, arith, done, failed, ltb,
  Option-cases, inl, inr,
}
use ikp_data_propagator.Text.{Text, hash_string, eq_string, string_key}
use ikp_data_propagator.Queue.{
  Ptr, null, node, Heap, write, Queue, queue_enqueue, queue_dequeue, queue_destroy, queue_peek,
  queue_is_empty, queue_size,
}
use ikp_data_propagator.Queue.Segment.{Cells, IsQueue, occurs}
use ikp_data_propagator.Queue.Fifo.{SameOutside, reverse_onto, freed, destroy_lem}
use ikp_data_propagator.Queue.Script.{
  Op, enqueue, dequeue, peek, is_empty, size_of, status, pointer, number, flag, run, Allocates,
  Runs, run-Conforms,
}
use ikp_data_propagator.HashMap.{
  HashMap, Alloc, hashmap_create, hashmap_put, hashmap_get, hashmap_remove, resize_if_needed,
  hashmap_size, put_checked, put_at, insert, replace, move_all, move_chain, find, assign, unlink,
  slot,
}
use ikp_data_propagator.HashMap.Weight.{weight, freed_weight}
use ikp_data_propagator.HashMap.Lives.{Call, put, remove, after_calls, start, all_freed, life_lem}
use ikp_data_propagator.HashMap.Success.{hashmap_put_done}
use ikp_data_propagator.HashMap.Valid.{IsHonest, IsValid, Resized, resize_if_needed-Resized}
use ikp_data_propagator.HashMap.Put.{Puts, hashmap_put-Puts}
use ikp_data_propagator.HashMap.Remove.{Removes, hashmap_remove-Removes}
use ikp_data_propagator.HashMap.Create.{Created, hashmap_create-Created}

-- Two nodes, at 1 and 2, with payloads 10 and 20.
abbrev two_nodes : Heap
two_nodes = write (write (λ _. none) 1 (some (node 10 2))) 2 (some (node 20 null))

abbrev two : Queue
two = record { front = 1; rear = 2; size = 2; frees = true }

abbrev two_cells : Cells
two_cells = (1, 10) ∷ (2, 20) ∷ []

two-IsQueue : IsQueue two_nodes two two_cells
two-IsQueue = record {
  chain = (omega arith, refl, refl, (omega arith, refl, refl, tt));
  front_first = refl;
  rear_last = refl;
  counted = refl;
  small = omega arith;
}

destroy_lem_example :
    (h' : Heap) × (queue_destroy two_nodes (some two)
      ≡ some (reverse_onto (freed true two_cells) [], h'))
    × ((a : Ptr) → occurs a two_cells ≡ true → h' a ≡ none)
    × SameOutside two_cells two_nodes h'
destroy_lem_example = destroy_lem two_nodes two two_cells two-IsQueue

-- A `malloc` with one block.
abbrev one_block : Heap → Ptr
one_block h = elim (h 3) [ none ↦ 3 | some _ ↦ null ]

one_block-Allocates : Allocates one_block
one_block-Allocates h = elim (Option-cases (h 3)) [
  | inl e ↦ inr (rw (e, one_block) (omega arith), rw (e, one_block) e)
  | inr (n, e) ↦ inl (rw (e, one_block))
]

abbrev calls : List Op
calls = enqueue 30 ∷ enqueue 40 ∷ dequeue ∷ peek ∷ size_of ∷ is_empty ∷ []

run-calls :
    run one_block calls two_nodes (some two)
    ≡ some (status done ∷ status failed ∷ pointer 10 ∷ pointer 20 ∷ number 2 ∷ flag false ∷ [])
unfolding run queue_enqueue queue_dequeue queue_peek queue_is_empty queue_size
run-calls = refl

run-Conforms_example : Runs calls (10 ∷ 20 ∷ []) (run one_block calls two_nodes (some two))
run-Conforms_example =
    run-Conforms one_block one_block-Allocates calls two_nodes two two_cells two-IsQueue
      (omega arith)

-- Allocations that succeed up to a size.
abbrev generous : Alloc
generous = record { calloc = λ n. ltb n 1000; malloc = true }

generous-IsHonest : IsHonest generous
generous-IsHonest n e = ground arith

abbrev belgrade : Text
belgrade = b'B' ∷ b'e' ∷ []

abbrev nis : Text
nis = b'N' ∷ b'i' ∷ []

abbrev fresh_map : HashMap Text ℕ
fresh_map = record {
  buckets = [] ∷ [] ∷ [];
  capacity = 2;
  size = 0;
  frees_key = true;
  frees_value = false;
}

fresh_map-Created :
    Created {K = Text} {V = ℕ} generous 2 true (hashmap_create generous 2 true true false)
fresh_map-Created = hashmap_create-Created Text ℕ generous 2 true true false generous-IsHonest

fresh_map-IsValid : IsValid fresh_map
unfolding hashmap_create
fresh_map-IsValid = fresh_map-Created.0.valid

resize_if_needed-Resized_example : Resized generous fresh_map (resize_if_needed generous fresh_map)
resize_if_needed-Resized_example =
    resize_if_needed-Resized generous fresh_map generous-IsHonest fresh_map-IsValid

hashmap_put-Puts_example :
    (m' : HashMap Text ℕ) × ((hashmap_put generous (some fresh_map) (some nis) 7).1 ≡ some m')
    × Puts generous fresh_map nis 7 (
      (hashmap_put generous (some fresh_map) (some nis) 7).0,
      m',
      (hashmap_put generous (some fresh_map) (some nis) 7).2,
    )
hashmap_put-Puts_example =
    hashmap_put-Puts generous fresh_map nis 7 generous-IsHonest fresh_map-IsValid

hashmap_put_done_example : (hashmap_put generous (some fresh_map) (some nis) 7).0 ≡ done
hashmap_put_done_example =
    hashmap_put_done generous refl fresh_map nis 7 generous-IsHonest fresh_map-IsValid refl

hashmap_remove-Removes_example :
    (m' : HashMap Text ℕ) × ((hashmap_remove (some fresh_map) (some nis)).1 ≡ some m')
    × Removes fresh_map nis (
      (hashmap_remove (some fresh_map) (some nis)).0,
      m',
      (hashmap_remove (some fresh_map) (some nis)).2,
    )
hashmap_remove-Removes_example = hashmap_remove-Removes fresh_map nis fresh_map-IsValid

-- The third key of a table of two buckets meets the resize.
session : Option ℕ × Option ℕ × ℕ
unfolding hashmap_put hashmap_get hashmap_remove put_checked put_at insert replace resize_if_needed
    move_all move_chain find assign unlink slot hash_string eq_string
session =
    let m₁ = (hashmap_put generous (some fresh_map) (some nis) 7).1 in
    let m₂ = (hashmap_put generous m₁ (some belgrade) 8).1 in
    let m₃ = (hashmap_put generous m₂ (some nis) 9).1 in
    (hashmap_get m₃ (some nis), hashmap_get m₃ (some belgrade), hashmap_size m₃)

session_result : session ≡ (some 9, some 8, 2)
unfolding session hashmap_size
session_result = refl

-- A key that is stored twice, then removed.
abbrev three_calls : List (Call Text ℕ)
three_calls = put generous nis 1 ∷ put generous nis 2 ∷ remove nis ∷ []

life_lem_example :
    let l = after_calls (start (hashmap_create generous 2 true true true)) three_calls in
    freed_weight (λ k. 1) (λ v. v) (all_freed l) ≡ weight (λ k. 1) (λ v. v) l.given
life_lem_example =
    life_lem (λ k. 1) (λ v. v) generous 2 true true three_calls ((λ e. cc), λ e. cc)
      generous-IsHonest (generous-IsHonest, (generous-IsHonest, tt))
