-- ===== src/Tests/Whole.antt =====
-- The whole system on a file of three rows.
use ikp_data_propagator.Prelude.{
  Bool, Option, ltb, ℕ, zero, suc, ◌<◌, ◌≡◌, refl, ap, ◌∙◌, true, false, none, some, List, [], ◌∷◌,
  arith, ltb,
}
use mathlib.Core.Option.{some-injective}
use ikp_data_propagator.Text.{Text, IsText, eq_string, hash_string, string_key}
use ikp_data_propagator.HashMap.{
  Alloc, hashmap_create, hashmap_put, hashmap_get, resize_if_needed, put_checked, put_at, insert,
  find, slot,
}
use ikp_data_propagator.HashMap.Valid.{IsHonest}
use ikp_data_propagator.Text.Format.{bytes, decimal}
use ikp_data_propagator.Node.RoundTrip.{print_rows, AllPlainRows, node_load_all_lem}
use ikp_data_propagator.Node.{Row}
use ikp_data_propagator.Node.Link.{
  row_at, first_nodes, id_map, put_ids, link, node_load_all, capacity_for, set_parents,
  allocate_children, fill_children, set_types,
}
use ikp_data_propagator.Node.Ids.{created-IsEmptyTable}
use ikp_data_propagator.Routing.{Send, node_find_by_id, network_sender_thread}
use ikp_data_propagator.Routing.Search.{search_lookup_lem}
use ikp_data_propagator.Routing.Context.{collect_subtree}
use ikp_data_propagator.Routing.File.{IsFileTree}
use ikp_data_propagator.Endpoints.{Draw, data_generator_thread}
use ikp_data_propagator.System.{Allocations, loaded_nodes, Succeeds}
use ikp_data_propagator.Warning.{Warning}
use ikp_data_propagator.System.Delivery.{AllReached, with_stops, pipeline_lem}

abbrev plentiful : Alloc
plentiful = record { calloc = λ n. ltb n 1000; malloc = true }

plentiful-IsHonest : IsHonest plentiful
plentiful-IsHonest n e = ground arith

-- A root, a propagator below it, and a destination below that.
abbrev file_rows : List Row
file_rows =
    record { id = b'R' ∷ []; address = []; port = 1; parent_id = none }
    ∷ record { id = b'C' ∷ []; address = []; port = 2; parent_id = some (b'R' ∷ []) }
    ∷ record { id = b'D' ∷ []; address = []; port = 3; parent_id = some (b'C' ∷ []) }
    ∷ []

file_distinct :
    (i j : ℕ)
    → i < 3
    → j < 3
    → eq_string (first_nodes file_rows i).id (first_nodes file_rows j).id ≡ true
    → i ≡ j
unfolding eq_string first_nodes
file_distinct zero zero _ _ _ = refl
file_distinct zero (suc zero) _ _ e = cc
file_distinct zero (suc (suc zero)) _ _ e = cc
file_distinct (suc zero) zero _ _ e = cc
file_distinct (suc zero) (suc zero) _ _ _ = refl
file_distinct (suc zero) (suc (suc zero)) _ _ e = cc
file_distinct (suc (suc zero)) zero _ _ e = cc
file_distinct (suc (suc zero)) (suc zero) _ _ e = cc
file_distinct (suc (suc zero)) (suc (suc zero)) _ _ _ = refl
file_distinct (suc (suc (suc i))) j lt _ _ = absurd (omega arith)
file_distinct i (suc (suc (suc j))) _ lt _ = absurd (omega arith)

is_root_row : (j : ℕ) → j < 3 → eq_string (first_nodes file_rows j).id (b'R' ∷ []) ≡ true → j < 1
unfolding eq_string first_nodes
is_root_row zero lt e = omega arith
is_root_row (suc zero) lt e = cc
is_root_row (suc (suc zero)) lt e = cc
is_root_row (suc (suc (suc j))) lt e = absurd (omega arith)

is_middle_row : (j : ℕ) → j < 3 → eq_string (first_nodes file_rows j).id (b'C' ∷ []) ≡ true → j < 2
unfolding eq_string first_nodes
is_middle_row zero lt e = cc
is_middle_row (suc zero) lt e = omega arith
is_middle_row (suc (suc zero)) lt e = cc
is_middle_row (suc (suc (suc j))) lt e = absurd (omega arith)

file_falls :
    (i j : ℕ) (pid : Text)
    → i < 3
    → j < 3
    → (row_at file_rows i).parent_id ≡ some pid
    → eq_string (first_nodes file_rows j).id pid ≡ true
    → j < i
file_falls zero j pid li lj e same = cc
file_falls (suc zero) j pid li lj e same =
    is_root_row j lj
      (ap (eq_string (first_nodes file_rows j).id) (some-injective (b'R' ∷ []) pid e) ∙ same)
file_falls (suc (suc zero)) j pid li lj e same =
    is_middle_row j lj
      (ap (eq_string (first_nodes file_rows j).id) (some-injective (b'C' ∷ []) pid e) ∙ same)
file_falls (suc (suc (suc i))) j pid li lj e same = absurd (omega arith)

file-IsFileTree : IsFileTree file_rows (λ i. i)
file-IsFileTree = record { distinct = file_distinct; falls = file_falls }

abbrev all_succeed : Allocations
all_succeed = record {
  load_map = plentiful;
  load_puts = λ _. plentiful;
  context_maps = λ _. plentiful;
  context_puts = λ _ _. plentiful;
}

stored :
    (me : ℕ)
    → me < 3
    → ((put_ids
          (λ _. plentiful)
          (loaded_nodes file_rows 3 all_succeed)
          3
          (hashmap_create plentiful 3 true true false)).1
        ≡ true)
      × ((collect_subtree 3
            (λ _. plentiful)
            (loaded_nodes file_rows 3 all_succeed)
            me
            (hashmap_create plentiful 3 true true false, true)).1
          ≡ true)
unfolding put_ids collect_subtree id_map capacity_for link set_parents allocate_children
    fill_children set_types first_nodes hashmap_create hashmap_put hashmap_get put_checked put_at
    insert resize_if_needed find slot hash_string eq_string
stored zero lt = (refl, refl)
stored (suc zero) lt = (refl, refl)
stored (suc (suc zero)) lt = (refl, refl)
stored (suc (suc (suc i))) lt = absurd (omega arith)

loads_stored : (id_map plentiful (λ _. plentiful) file_rows).1 ≡ true
unfolding put_ids id_map capacity_for first_nodes hashmap_create hashmap_put put_checked put_at
    insert resize_if_needed find slot hash_string eq_string
loads_stored = refl

loads_created : plentiful.calloc (capacity_for 3) ≡ true
unfolding capacity_for
loads_created = refl

all_succeed-Succeeds : Succeeds file_rows 3 all_succeed
all_succeed-Succeeds = record {
  honest = (
    plentiful-IsHonest,
    λ _. plentiful-IsHonest,
    λ _. plentiful-IsHonest,
    λ _ _. plentiful-IsHonest,
  );
  loads = (refl, loads_created, loads_stored);
  creates = λ me lt. (refl, refl);
  stores = stored;
}

file_texts : (i : ℕ) → i < 3 → IsText (row_at file_rows i).id
file_texts zero lt = omega arith
file_texts (suc zero) lt = omega arith
file_texts (suc (suc zero)) lt = omega arith
file_texts (suc (suc (suc i))) lt = absurd (omega arith)

-- The queue takes the first and the third warning, and the stop event is set behind the first.
abbrev three_warnings : List Draw
three_warnings =
    let d : Draw = record {
      node = 9;
      kind = 7;
      value = 140;
      time = 1700000000;
      alloc = record { struct_block = true; city_copy = true; dest_copy = true };
      described = true;
      enqueued = true;
    } in
    d ∷ record d { enqueued = false } ∷ d ∷ []

abbrev behind_one : ℕ → Bool
behind_one n = ltb 0 n

abbrev three_rounds : List (Bool × Option Warning)
three_rounds =
    with_stops file_rows (λ i. i) 3 all_succeed file-IsFileTree (λ x lt. lt) all_succeed-Succeeds
      behind_one
      (data_generator_thread (λ n. n) true (loaded_nodes file_rows 3 all_succeed) 3 three_warnings)

pipeline_lem_example :
    (sends : List Send) × (network_sender_thread 3
        (loaded_nodes file_rows 3 all_succeed)
        3
        three_rounds
      ≡ some sends)
    × AllReached file_rows
        (λ i. i)
        3
        all_succeed
        file-IsFileTree
        (λ x lt. lt)
        all_succeed-Succeeds
        three_rounds
        sends
pipeline_lem_example =
    pipeline_lem file_rows (λ i. i) 3 all_succeed file-IsFileTree (λ x lt. lt) all_succeed-Succeeds
      (λ n. n) true three_warnings behind_one file_texts

first_stored :
    (put_ids
      (λ _. plentiful)
      (first_nodes file_rows)
      3
      (hashmap_create plentiful 3 true true false)).1
    ≡ true
unfolding put_ids first_nodes hashmap_create hashmap_put put_checked put_at insert resize_if_needed
    find slot hash_string eq_string
first_stored = refl

search_lookup_lem_example :
    node_find_by_id (first_nodes file_rows) 3 (b'C' ∷ [])
    ≡ hashmap_get
        (put_ids
          (λ _. plentiful)
          (first_nodes file_rows)
          3
          (hashmap_create plentiful 3 true true false)).0
        (some (b'C' ∷ []))
search_lookup_lem_example =
    search_lookup_lem (first_nodes file_rows) (b'C' ∷ []) (λ _. plentiful) (λ _. plentiful-IsHonest)
      3 (hashmap_create plentiful 3 true true false) file_distinct
      (created-IsEmptyTable plentiful 3 plentiful-IsHonest (omega arith) refl refl) first_stored

-- Two rows, the second with a parent.
abbrev csv_rows : List Row
csv_rows =
    record { id = b'R' ∷ []; address = b'h' ∷ []; port = 5000; parent_id = none }
    ∷ record { id = b'D' ∷ []; address = b'h' ∷ []; port = 5001; parent_id = some (b'R' ∷ []) }
    ∷ []

csv_lines : print_rows csv_rows ≡ bytes "R,h,5000\nD,h,5001,R\n"
unfolding print_rows decimal
csv_lines = refl

csv_plain : AllPlainRows csv_rows
unfolding decimal
csv_plain = (
  record {
    id_field = (refl, tt);
    address_field = (refl, tt);
    port_lt = omega arith;
    parent_field = tt;
    short = omega arith;
  },
  (
    record {
      id_field = (refl, tt);
      address_field = (refl, tt);
      port_lt = omega arith;
      parent_field = (refl, tt);
      short = omega arith;
    },
    tt,
  ),
)

node_load_all_lem_example :
    node_load_all plentiful (λ _. plentiful) (print_rows csv_rows)
    ≡ (link (id_map plentiful (λ _. plentiful) csv_rows).0 csv_rows, 2)
node_load_all_lem_example = node_load_all_lem plentiful (λ _. plentiful) csv_rows csv_plain
