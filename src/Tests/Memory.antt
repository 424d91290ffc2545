-- ===== src/Tests/Memory.antt =====
-- What is allocated and freed, and the texts of the log: the theorems at concrete inputs.
use ikp_data_propagator.Prelude.{
  ℕ, ◌+◌, ◌^◌, ◌<◌, ◌≡◌, ◌&&◌, false, zero, suc, true, none, some, List, [], ◌∷◌, ◌++◌, arith, ltb,
  if◌then◌else◌, length, weigh, Bool-cases, inl, inr,
}
use ikp_data_propagator.Text.{Text, IsText, until_nul}
use ikp_data_propagator.Text.Format.{bytes}
use ikp_data_propagator.HashMap.{Alloc}
use ikp_data_propagator.HashMap.Valid.{IsHonest}
use ikp_data_propagator.Text.{string_key}
use ikp_data_propagator.Node.Link.{Nodes, node_load_all}
use ikp_data_propagator.Warning.{Warning}
use ikp_data_propagator.Warning.Printing.{Locale, warning_to_string}
use ikp_data_propagator.Warning.Printing.Printed.{shown, to_string_lem}
use ikp_data_propagator.Node.Memory.{Block, LoadCalls, Loading, load, node_info_destroy_all}
use ikp_data_propagator.Node.Memory.Freed.{load_lem}

abbrev roomy : Alloc
roomy = record { calloc = λ n. ltb n 1000; malloc = true }

abbrev all_opened : LoadCalls
all_opened = record { file_opened = true; array_given = true; parent_ids_given = true }

abbrev two_lines : List ℕ
two_lines = bytes "R,h,1" ++ (10 ∷ bytes "D,h,2,R")

abbrev one_each : Block → ℕ
one_each b = 1

roomy-IsHonest : IsHonest roomy
roomy-IsHonest n e = ground arith

-- A map that gets no node for its entries.
abbrev full : Alloc
full = record { calloc = λ n. ltb n 1000; malloc = false }

full-IsHonest : IsHonest full
full-IsHonest n e = ground arith

-- The put of the second line fails.
abbrev one_put : ℕ → Alloc
one_put zero = roomy
one_put (suc i) = full

one_put-IsHonest : (i : ℕ) → IsHonest (one_put i)
one_put-IsHonest zero = roomy-IsHonest
one_put-IsHonest (suc i) = full-IsHonest

load_lem_example :
    let l = load all_opened roomy one_put two_lines in
    weigh one_each l.taken
    ≡ weigh one_each l.freed
      + weigh one_each (node_info_destroy_all l.nodes l.count)
      + weigh one_each l.lost
load_lem_example =
    load_lem one_each all_opened roomy one_put two_lines roomy-IsHonest one_put-IsHonest

abbrev two_loaded : Loading
two_loaded = load all_opened roomy (λ i. roomy) two_lines

abbrev two_nodes : Nodes
two_nodes = (node_load_all roomy (λ i. roomy) two_lines).0

abbrev one_byte : ℕ → Text
one_byte size = if ltb 1 size then b'0' ∷ [] else []

one_byte-IsText : (size : ℕ) → IsText (one_byte size)
one_byte-IsText size = elim (Bool-cases (ltb 1 size)) [
  | inl room ↦ rw room (omega arith, omega arith, tt)
  | inr small ↦ rw small tt
]

one_byte_fits : (size : ℕ) → 0 < size → length (one_byte size) < size
one_byte_fits size pos = ground arith

-- A locale that prints one byte.
abbrev terse : Locale
terse = record {
  print_value = λ bits. b'0' ∷ [];
  Tm = ℕ;
  localtime_s = λ t. if ltb t 100 then some t else none;
  strftime = λ size t. one_byte size;
  print_value_text = λ bits. (omega arith, omega arith, tt);
  strftime_text = λ size t. one_byte-IsText size;
  strftime_fits = λ size t. one_byte_fits size;
}

-- A warning whose type is not one of the enum's.
abbrev strange : Warning
strange = record { city = bytes "Nis"; kind = 7; value = 0; timestamp = 9; dest_node = bytes "D" }

to_string_lem_example :
    (warning_to_string terse (λ n. true) (some strange)
      ≡ some (
          if ltb (length (shown terse strange 9)) (2 ^ 31) && true
          then some (shown terse strange 9)
          else none))
    × ((t : ℕ) → until_nul (shown terse strange t) ≡ shown terse strange t)
to_string_lem_example =
    to_string_lem terse (λ n. true) strange
      (omega arith, omega arith, (omega arith, omega arith, (omega arith, omega arith, tt)))
      (omega arith, omega arith, tt)

-- A time that `localtime_s` does not take.
too_late : warning_to_string terse (λ n. true) (some (record strange { timestamp = 100 })) ≡ none
too_late =
    (to_string_lem terse (λ n. true) (record strange { timestamp = 100 })
      (omega arith, omega arith, (omega arith, omega arith, (omega arith, omega arith, tt)))
      (omega arith, omega arith, tt)).0
