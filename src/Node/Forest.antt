-- ===== src/Node/Forest.antt =====
-- The linked nodes of Common/node.c as a forest, from what the rows of nodes.csv say.
use ikp_data_propagator.Prelude.{
  ℕ, zero, suc, ◌<◌, ◌≤◌, ◌≡◌, refl, ap, ◌∙◌, Bool, true, false, Option, none, some, List, [],
  arith, if◌then◌else◌, ◌==◌, ltb, length, set, take, Bool-cases, inl, inr,
}
use ikp_data_propagator.Text.{string_key}
use ikp_data_propagator.Node.{NodeInfo, NodeType, Row}
use ikp_data_propagator.Node.Link.{
  Nodes, first_nodes, IdMap, set_parents, allocate_children, with_children, fill_round,
  fill_children, type_of, link,
}
use ikp_data_propagator.Node.Linked.{
  parent_in, children_below, linked, link_lem, set_parents_lem, allocate_lem, types_lem,
  length-children_below,
}
use ikp_data_propagator.Node.Children.{kids, take-length, take_nil}

fill_round_keeps :
    (i j : ℕ) (o : Option ℕ) (arr : Nodes)
    → ((fill_round i o arr j).parent ≡ (arr j).parent)
      × ((arr j).children ≡ [] → (fill_round i o arr j).children ≡ [])
fill_round_keeps i j none arr = (refl, λ e. e)
fill_round_keeps i j (some p) arr = elim (Bool-cases (j == p)) [
  | inl same ↦ rw same (refl, λ e. ap (λ l. set l (arr j).child_count i) e)
  | inr other ↦ rw other (refl, λ e. e)
]

-- The filling loop leaves parents alone, and an array that was not allocated.
fill_children_keeps :
    (k j : ℕ) (arr : Nodes)
    → ((fill_children k arr j).parent ≡ (arr j).parent)
      × ((arr j).children ≡ [] → (fill_children k arr j).children ≡ [])
unfolding fill_children
fill_children_keeps zero j arr = (refl, λ e. e)
fill_children_keeps (suc k) j arr =
    let before = fill_children_keeps k j arr in
    let now = fill_round_keeps k j (fill_children k arr k).parent (fill_children k arr) in
    (now.0 ∙ before.0, λ e. now.1 (before.1 e))

with_children_parent : (n : NodeInfo) → (with_children n).parent ≡ n.parent
with_children_parent n = ground arith

if_parent : (b : Bool) (n : NodeInfo) → (if b then with_children n else n).parent ≡ n.parent
if_parent true n = with_children_parent n
if_parent false n = refl

typed_keeps :
    (b : Bool) (n : NodeInfo) (kind : NodeType)
    → let n' = if b then record n { kind = kind } else n in
      (n'.parent ≡ n.parent) × (n'.children ≡ n.children)
typed_keeps true n kind = (refl, refl)
typed_keeps false n kind = (refl, refl)

ltb_beyond : (j n : ℕ) → n ≤ j → ltb j n ≡ false
ltb_beyond j n le = ground arith

module _ (m : IdMap) (rows : List Row) where
  abbrev count : ℕ
  count = length rows

  abbrev arranged : Nodes
  arranged = set_parents m rows count (first_nodes rows)

  -- Every node, also one behind the file's, has the parent that its row asks for, or none.
  pub parent_lem :
      (j : ℕ) → (link m rows j).parent ≡ (if ltb j count then parent_in m rows j else none)
  unfolding link
  parent_lem j =
      let allocated = allocate_children count arranged in
      let full = fill_children count allocated in
      ap (λ n. n.parent) (types_lem count j full)
      ∙ (typed_keeps (ltb j count) (full j) (type_of (full j).parent (full j).child_count)).0
      ∙ (fill_children_keeps count j allocated).0
      ∙ ap (λ n. n.parent) (allocate_lem count j arranged)
      ∙ if_parent (ltb j count) (arranged j)
      ∙ ap (λ n. n.parent) (set_parents_lem m rows count j)

  pub kids_beyond : (j : ℕ) → count ≤ j → kids (link m rows) j ≡ []
  unfolding link first_nodes
  kids_beyond j le =
      let allocated = allocate_children count arranged in
      let full = fill_children count allocated in
      let unset : (allocated j).children ≡ [] =
        ap (λ n. n.children) (allocate_lem count j arranged)
        ∙ ap (λ b. (if b then with_children (arranged j) else arranged j).children)
            (ltb_beyond j count le)
        ∙ ap (λ n. n.children) (set_parents_lem m rows count j) in
      let none_set : (link m rows j).children ≡ [] =
        ap (λ n. n.children) (types_lem count j full)
        ∙ (typed_keeps (ltb j count) (full j) (type_of (full j).parent (full j).child_count)).1
        ∙ (fill_children_keeps count j allocated).1 unset in
      ap (take (link m rows j).child_count) none_set ∙ take_nil (link m rows j).child_count

  pub kids_lem :
      (j : ℕ) → j < count → kids (link m rows) j ≡ children_below (parent_in m rows) count j
  unfolding linked
  kids_lem j lt =
      rw (link_lem m rows j lt, ← length-children_below (parent_in m rows) count j)
        (take-length (children_below (parent_in m rows) count j))
