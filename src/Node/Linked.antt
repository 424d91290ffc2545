-- ===== src/Node/Linked.antt =====
-- What the loops of `node_load_all` in Common/node.c leave: each node has its parent, its
-- children in the order of the file, and the type that follows from them.
use ikp_data_propagator.Prelude.{
  ℕ, zero, suc, ◌+◌, ◌-◌, ◌<◌, ◌≤◌, ◌≡◌, refl, ap, sym, ◌∙◌, Option, none, some, List, [], ◌∷◌,
  ◌++◌, arith, ◌==◌, leb→le, leb, ltb, lt→ltb, if◌then◌else◌, length, length-append, set, replicate,
  Bool-cases, inl, inr,
}
use mathlib.Core.List.{append-nil}
use ikp_data_propagator.Text.{Text, string_key}
use ikp_data_propagator.HashMap.{hashmap_get}
use ikp_data_propagator.Node.{NodeInfo, Row}
use ikp_data_propagator.Node.Link.{
  Nodes, row_at, first_nodes, IdMap, lookup_parent, set_parent, parent_round, set_parents,
  with_children, allocate_children, add_child, fill_round, fill_children, type_of, set_types, link,
}

-- One if the parent is `j`.
abbrev pub is_child : Option ℕ → ℕ → ℕ
is_child none j = 0
is_child (some p) j = if j == p then 1 else 0

-- How many of the first `k` nodes have the parent `j`, and which, in their order.
unfoldable pub count_below : (ℕ → Option ℕ) → ℕ → ℕ → ℕ
count_below par zero j = 0
count_below par (suc k) j = count_below par k j + is_child (par k) j

abbrev pub child_if : ℕ → Option ℕ → ℕ → List ℕ
child_if k none j = []
child_if k (some p) j = if j == p then k ∷ [] else []

unfoldable pub children_below : (ℕ → Option ℕ) → ℕ → ℕ → List ℕ
children_below par zero j = []
children_below par (suc k) j = children_below par k j ++ child_if k (par k) j

length-child_if : (k : ℕ) (o : Option ℕ) (j : ℕ) → length (child_if k o j) ≡ is_child o j
length-child_if k none j = refl
length-child_if k (some p) j = ground arith

pub length-children_below :
    (par : ℕ → Option ℕ) (k j : ℕ) → length (children_below par k j) ≡ count_below par k j
unfolding children_below count_below
length-children_below par zero j = refl
length-children_below par (suc k) j = omega (
  arith,
  length-append (children_below par k j) (child_if k (par k) j),
  length-child_if k (par k) j,
  length-children_below par k j,
)

-- A node with another parent and count.
abbrev with_links : NodeInfo → Option ℕ → ℕ → NodeInfo
with_links n p c = record n { parent = p; child_count = c }

module _ (par : ℕ → Option ℕ) where
  abbrev parent_before : ℕ → ℕ → Option ℕ
  parent_before k j = if ltb j k then par j else none

  set_parent_lem :
      (k j : ℕ) (o : Option ℕ) (n : NodeInfo) (arr : Nodes)
      → par k ≡ o
      → arr j ≡ with_links n (parent_before k j) (count_below par k j)
      → set_parent k o arr j ≡ with_links n (parent_before (suc k) j) (count_below par (suc k) j)
  unfolding count_below
  set_parent_lem k j none n arr e h = ground arith
  set_parent_lem k j (some p) n arr e h = ground arith

  skip_parent_lem :
      (k j : ℕ) (n : NodeInfo) (arr : Nodes)
      → par k ≡ none
      → arr j ≡ with_links n (parent_before k j) (count_below par k j)
      → arr j ≡ with_links n (parent_before (suc k) j) (count_below par (suc k) j)
  unfolding count_below
  skip_parent_lem k j n arr e h = ground arith

module _ (m : IdMap) (rows : List Row) where
  -- The parent of a node, as the map gives it.
  abbrev pub parent_in : ℕ → Option ℕ
  parent_in i = lookup_parent m (row_at rows i).parent_id

  parent_round_lem :
      (k j : ℕ) (o : Option Text) (arr : Nodes)
      → (row_at rows k).parent_id ≡ o
      → arr j
        ≡ with_links (first_nodes rows j) (parent_before parent_in k j) (count_below parent_in k j)
      → parent_round m k o arr j
        ≡ with_links
            (first_nodes rows j)
            (parent_before parent_in (suc k) j)
            (count_below parent_in (suc k) j)
  parent_round_lem k j none arr e h =
      skip_parent_lem parent_in k j (first_nodes rows j) arr (ap (lookup_parent m) e) h
  parent_round_lem k j (some pid) arr e h =
      set_parent_lem parent_in k j (hashmap_get m (some pid)) (first_nodes rows j) arr
        (ap (lookup_parent m) e) h

  first_lem :
      (j : ℕ)
      → first_nodes rows j
        ≡ with_links (first_nodes rows j) (parent_before parent_in 0 j) (count_below parent_in 0 j)
  unfolding count_below first_nodes
  first_lem j = ground arith

  pub set_parents_lem :
      (k j : ℕ)
      → set_parents m rows k (first_nodes rows) j
        ≡ with_links (first_nodes rows j) (parent_before parent_in k j) (count_below parent_in k j)
  unfolding set_parents
  set_parents_lem zero j = first_lem j
  set_parents_lem (suc k) j =
      parent_round_lem k j (row_at rows k).parent_id (set_parents m rows k (first_nodes rows)) refl
        (set_parents_lem k j)

count_mono : (par : ℕ → Option ℕ) (k n j : ℕ) → k ≤ n → count_below par k j ≤ count_below par n j
unfolding count_below
count_mono par k zero j le = let e : k ≡ 0 = omega arith in rw e (omega arith)
count_mono par k (suc n) j le = elim (Bool-cases (leb k n)) [
  | inl under ↦ let ih = count_mono par k n j (leb→le k n under) in omega arith
  | inr over ↦ let e : k ≡ suc n = ground arith in rw e (omega arith)
]

pub allocate_lem :
    (k j : ℕ) (arr : Nodes)
    → allocate_children k arr j ≡ (if ltb j k then with_children (arr j) else arr j)
unfolding allocate_children
allocate_lem zero j arr = ground arith
allocate_lem (suc k) j arr = ground (arith, allocate_lem k j arr)

pub types_lem :
    (k j : ℕ) (arr : Nodes)
    → set_types k arr j ≡ (
        if ltb j k
        then record (arr j) { kind = type_of (arr j).parent (arr j).child_count }
        else arr j)
unfolding set_types
types_lem zero j arr = ground arith
types_lem (suc k) j arr = ground (arith, types_lem k j arr)

set-length :
    (xs : List ℕ) (r v : ℕ)
    → set (xs ++ replicate (suc r) 0) (length xs) v ≡ (xs ++ v ∷ []) ++ replicate r 0
set-length [] r v = refl
set-length (x ∷ xs) r v = ap (λ l. x ∷ l) (set-length xs r v)

-- A node with that many children filled in, of those that there is room for.
abbrev filled : NodeInfo → Option ℕ → List ℕ → ℕ → NodeInfo
filled n p xs free = record n {
  parent = p;
  children = xs ++ replicate free 0;
  child_count = length xs;
}

add_child-filled :
    (k : ℕ) (n : NodeInfo) (p : Option ℕ) (xs : List ℕ) (free : ℕ)
    → add_child k (filled n p xs (suc free)) ≡ filled n p (xs ++ k ∷ []) free
add_child-filled k n p xs free = rw (set-length xs free k, length-append xs (k ∷ []))

-- The state of the filling loop after `k` rounds, for nodes below `n`.
module _ (par : ℕ → Option ℕ) (n : ℕ) (base : Nodes) where
  abbrev part_filled : ℕ → ℕ → NodeInfo
  part_filled k j =
      filled (base j) (par j) (children_below par k j) (count_below par n j - count_below par k j)

  fill_round_lem :
      (k j : ℕ) (o : Option ℕ) (arr : Nodes)
      → k < n
      → par k ≡ o
      → arr j ≡ part_filled k j
      → fill_round k o arr j ≡ part_filled (suc k) j
  unfolding count_below children_below
  fill_round_lem k j none arr lt e h =
      let same : count_below par k j + 0 ≡ count_below par k j = omega arith in
      rw (e, same, append-nil (children_below par k j)) h
  fill_round_lem k j (some p) arr lt e h = elim (Bool-cases (j == p)) [
    | inl same ↦
        let below = count_mono par (suc k) n j lt in
        let counted : count_below par (suc k) j ≡ count_below par k j + 1 = rw (e, same) refl in
        let room : count_below par n j - count_below par k j
            ≡ suc (count_below par n j - (count_below par k j + 1)) =
          omega arith in
        rw (e, same, h, room)
          (add_child-filled k (base j) (par j) (children_below par k j)
            (count_below par n j - (count_below par k j + 1)))
    | inr other ↦
        let same : count_below par k j + 0 ≡ count_below par k j = omega arith in
        rw (e, other, same, append-nil (children_below par k j)) h
  ]

  fill_children_lem :
      (arr : Nodes)
      → ((j : ℕ) → j < n → arr j ≡ part_filled 0 j)
      → (k : ℕ) → k ≤ n
      → (j : ℕ) → j < n
      → fill_children k arr j ≡ part_filled k j
  unfolding fill_children
  fill_children_lem arr start zero le j lt = start j lt
  fill_children_lem arr start (suc k) le j lt =
      let ih = fill_children_lem arr start k (omega arith) in
      rw (ap (λ x. x.parent) (ih k le))
        (fill_round_lem k j (par k) (fill_children k arr) le refl (ih j lt))

with_children_lem :
    (n : NodeInfo) (p : Option ℕ) (c : ℕ)
    → n.children ≡ []
    → with_children (with_links n p c) ≡ filled n p [] c
with_children_lem n p zero e = rw e refl
with_children_lem n p (suc c) e = ground arith

-- A node that has its links, where `par` gives the parents of all `n` nodes.
unfoldable pub linked : (ℕ → Option ℕ) → ℕ → NodeInfo → ℕ → NodeInfo
unfolding children_below count_below
linked par n base j = record base {
  parent = par j;
  children = children_below par n j;
  child_count = count_below par n j;
  kind = type_of (par j) (count_below par n j);
}

module _ (m : IdMap) (rows : List Row) where
  allocated_lem :
      (j : ℕ)
      → j < length rows
      → allocate_children (length rows) (set_parents m rows (length rows) (first_nodes rows)) j
        ≡ part_filled (parent_in m rows) (length rows) (first_nodes rows) 0 j
  unfolding first_nodes children_below count_below
  allocated_lem j lt =
      let n = length rows in
      let par = parent_in m rows in
      let c = count_below par n j in
      let arr = set_parents m rows n (first_nodes rows) in
      let below = lt→ltb j n lt in
      let found : parent_before par n j ≡ par j = rw below refl in
      let room : c - 0 ≡ c = omega arith in
      allocate_lem n j arr
      ∙ ap (λ b. if b then with_children (arr j) else arr j) below
      ∙ ap with_children
          (set_parents_lem m rows n j ∙ ap (λ p. with_links (first_nodes rows j) p c) found)
      ∙ with_children_lem (first_nodes rows j) (par j) c refl
      ∙ ap (filled (first_nodes rows j) (par j) []) (sym room)

  -- The loops behind the map leave each node of the file with the id, address and port of its row,
  -- the parent that the map gives for its parent's id, exactly the nodes with that parent as its
  -- children, in the order of the file and counted, and the type that follows from the two.
  pub link_lem :
      (j : ℕ)
      → j < length rows
      → link m rows j ≡ linked (parent_in m rows) (length rows) (first_nodes rows j) j
  unfolding link linked
  link_lem j lt =
      let n = length rows in
      let arr = allocate_children n (set_parents m rows n (first_nodes rows)) in
      let full =
        fill_children_lem (parent_in m rows) n (first_nodes rows) arr allocated_lem n (omega arith)
          j lt in
      let none_left : count_below (parent_in m rows) n j - count_below (parent_in m rows) n j ≡ 0 =
        omega arith in
      rw (types_lem n j (fill_children n arr), lt→ltb j n lt, full)
        (rw
          (
            length-children_below (parent_in m rows) n j,
            none_left,
            append-nil (children_below (parent_in m rows) n j),
          )
          refl)
